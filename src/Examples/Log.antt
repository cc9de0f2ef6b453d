-- ===== src/Examples/Log.antt =====
-- A log that is the list of its copperlists.
use msrs.Shared.{◌<◌, ◌≡◌, refl, List, [], ◌∷◌, Result, ok, err, length, arith}
use msrs.Replay.Log.{DecodeError, unexpected_end, read, LogSource, Holds, stops, yields}

module _ {A : Type 0} where
  abbrev pub decode_first : List A → Result DecodeError A × List A
  decode_first [] = (err unexpected_end, [])
  decode_first (cl ∷ cls) = (ok cl, cls)

  pub decode_first-length :
      (l : List A) (cl : A) → (decode_first l).0 ≡ ok cl → length (decode_first l).1 < length l
  decode_first-length [] cl h = cc
  decode_first-length (c ∷ l) cl h = omega arith

  abbrev pub source_holding : List A → LogSource A
  source_holding cls = record {
    Reader = List A;
    build = λ base. ok (read cls);
    decode = decode_first;
    remaining = length;
    decode-remaining = decode_first-length;
  }

  pub Holds-all : (whole cls : List A) → Holds (source_holding whole) cls cls unexpected_end
  Holds-all whole [] = stops refl
  Holds-all whole (cl ∷ cls) = yields cl refl (Holds-all whole cls)
