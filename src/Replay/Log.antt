-- ===== src/Replay/Log.antt =====
-- crates/msrs-core/src/replay.rs: reading a unified log back. Opening the log and decoding one
-- copperlist (cu29 and bincode, not part of the repository) are parameters.
use Prim.Native.String.{◌++◌}
use msrs.Shared.{
  ℕ, zero, suc, ◌<◌, ◌≡◌, ◌≢◌, ◌⊎◌, ◌↔◌, refl, true, false, ap, ◌∙◌, Bool, Option, none, some, List,
  [], ◌∷◌, String, Result, ok, err, map_err, ◌>>=◌, Result-cases, inl, inr, if◌then◌else◌, arith,
}
use msrs.Shared.{◌++◌ as append, append-nil, append_assoc}
use msrs.Copper.{CuResult}

pub data LogEnd : Type 0 where
  eof : LogEnd
  failed : String → LogEnd

-- The cases of bincode's `DecodeError` that the loop tells apart; `io` says whether the kind is
-- `UnexpectedEof`. The text is the error's `{:?}`.
pub data DecodeError : Type 0 where
  unexpected_end : DecodeError
  io : Bool → String → DecodeError
  other : String → DecodeError

-- The two cases of `UnifiedLogger`.
pub data UnifiedLogger (Reader : Type 0) : Type 0 where
  read : Reader → UnifiedLogger Reader
  write : UnifiedLogger Reader

pub record LogSource (CopperList : Type 0) : Type 1 where
  pub Reader : Type 0
  -- The builder, on the base name of the log; an error is its text.
  pub build : String → Result String (UnifiedLogger Reader)
  pub decode : Reader → Result DecodeError CopperList × Reader
  -- The bytes that are left: a copperlist takes at least one.
  pub remaining : Reader → ℕ
  pub decode-remaining :
      (r : Reader) (cl : CopperList) → (decode r).0 ≡ ok cl → remaining (decode r).1 < remaining r

-- The three error arms of the loop.
unfoldable pub end_of : DecodeError → LogEnd
end_of unexpected_end = eof
end_of (io unexpected_eof text) = if unexpected_eof then eof else failed text
end_of (other text) = failed text

-- The error says that the bytes ran out.
abbrev pub RunsOut : DecodeError → Type 0
RunsOut e = (e ≡ unexpected_end) ⊎ ((text : String) × (e ≡ io true text))

-- The error is another one, with this text.
abbrev pub IsOther : String → DecodeError → Type 0
IsOther text e = (e ≡ io false text) ⊎ (e ≡ other text)

end_of-eof : (e : DecodeError) → (end_of e ≡ eof) ↔ RunsOut e
unfolding end_of
end_of-eof unexpected_end = (λ h. inl refl, λ h. refl)
end_of-eof (io true text) = (λ h. inr (text, refl), λ h. refl)
end_of-eof (io false text) = (λ h. cc, λ h. elim h [ inl p ↦ cc | inr (t, p) ↦ cc ])
end_of-eof (other text) = (λ h. cc, λ h. elim h [ inl p ↦ cc | inr (t, p) ↦ cc ])

end_of-failed : (e : DecodeError) (text : String) → (end_of e ≡ failed text) ↔ IsOther text e
unfolding end_of
end_of-failed unexpected_end text = (λ h. cc, λ h. elim h [ inl p ↦ cc | inr p ↦ cc ])
end_of-failed (io true t) text = (λ h. cc, λ h. elim h [ inl p ↦ cc | inr p ↦ cc ])
end_of-failed (io false t) text = (λ h. inl cc, λ h. elim h [ inl p ↦ cc | inr p ↦ cc ])
end_of-failed (other t) text = (λ h. inr cc, λ h. elim h [ inl p ↦ cc | inr p ↦ cc ])

module _ {CopperList : Type 0} (src : LogSource CopperList) where
  open src use {Reader, build, decode, remaining, decode-remaining}

  -- The `loop`, over the copperlists read so far; `none` is fuel that ran out.
  unfoldable pub read_loop : ℕ → Reader → List CopperList → Option (List CopperList × LogEnd)
  read_loop zero reader copperlists = none
  read_loop (suc fuel) reader copperlists =
      let (decoded, reader') = decode reader in
      elim decoded [
        | ok cl ↦ read_loop fuel reader' (append copperlists (cl ∷ []))
        | err e ↦ some (copperlists, end_of e)
      ]

  -- One unit of fuel for each byte left, and one for the end, is enough.
  unfoldable pub read_all : UnifiedLogger Reader → CuResult (Option (List CopperList × LogEnd))
  unfolding read_loop
  read_all (read reader) = ok (read_loop (suc (remaining reader)) reader [])
  read_all write = err "expected a read-only unified logger"

  unfoldable pub read_copperlists : String → CuResult (Option (List CopperList × LogEnd))
  unfolding read_all
  read_copperlists log_base = do
    logger ← map_err (λ e. "open unified log " ++ (log_base ++ (": " ++ e))) (build log_base)
    read_all logger

  -- A reader that yields these copperlists, and then this error.
  pub data Holds : Reader → List CopperList → DecodeError → Type 0 where
    stops : {r : Reader} {e : DecodeError} → (decode r).0 ≡ err e → Holds r [] e
    yields :
        {r : Reader} {cls : List CopperList} {e : DecodeError} (cl : CopperList)
        → (decode r).0 ≡ ok cl
        → Holds (decode r).1 cls e
        → Holds r (cl ∷ cls) e

  read_loop-Holds :
      (fuel : ℕ) (r : Reader) (before cls : List CopperList) (e : DecodeError)
      → remaining r < fuel
      → Holds r cls e
      → read_loop fuel r before ≡ some (append before cls, end_of e)
  unfolding read_loop
  read_loop-Holds zero r before cls e enough h = absurd (omega arith)
  read_loop-Holds (suc fuel) r before cls e enough (stops p) = rw (p, read_loop) (rw append-nil)
  read_loop-Holds (suc fuel) r before cls e enough (yields {cls = rest} cl p h) =
      rw (p, read_loop)
        (read_loop-Holds fuel (decode r).1 (append before (cl ∷ [])) rest e
            (omega (arith, decode-remaining r cl p)) h
          ∙ ap (λ l. some (l, end_of e)) (append_assoc before (cl ∷ []) rest))

  -- Every reader yields some copperlists and then an error, since each takes at least a byte.
  Holds-total :
      (fuel : ℕ) (r : Reader)
      → remaining r < fuel
      → (cls : List CopperList) × (e : DecodeError) × Holds r cls e
  Holds-total zero r enough = absurd (omega arith)
  Holds-total (suc fuel) r enough = elim (Result-cases (decode r).0) [
    | inl (cl, p) ↦
        let (cls, e, h) = Holds-total fuel (decode r).1 (omega (arith, decode-remaining r cl p)) in
        (cl ∷ cls, e, yields cl p h)
    | inr (e, p) ↦ ([], e, stops p)
  ]

  pub read_copperlists-Holds :
      (log_base : String) (r : Reader) (cls : List CopperList) (e : DecodeError)
      → build log_base ≡ ok (read r)
      → Holds r cls e
      → read_copperlists log_base ≡ ok (some (cls, end_of e))
  unfolding read_copperlists
  read_copperlists-Holds log_base r cls e opened h =
      rw opened (ap ok (read_loop-Holds (suc (remaining r)) r [] cls e (omega arith) h))

  -- Of a log that opens for reading, `read_copperlists` returns exactly the copperlists that the
  -- decoder yields before its first error, in order, and an end: a clean one exactly when that error
  -- says that the bytes ran out, by bincode's own case or by an input error of the kind UnexpectedEof;
  -- and a failure with a text exactly when the error is any other one, and has this text.
  pub read_copperlists-ends :
      (log_base : String) (r : Reader) (cls : List CopperList) (e : DecodeError)
      → build log_base ≡ ok (read r)
      → Holds r cls e
      → (end : LogEnd) × (read_copperlists log_base ≡ ok (some (cls, end)))
        × ((end ≡ eof) ↔ RunsOut e)
        × ((text : String) → (end ≡ failed text) ↔ IsOther text e)
  read_copperlists-ends log_base r cls e opened h =
      (end_of e, read_copperlists-Holds log_base r cls e opened h, end_of-eof e, end_of-failed e)

  -- The loop ends on every log: the call is an error, or it comes back with copperlists and an end;
  -- the fuel never runs out.
  pub read_copperlists_total : (log_base : String) → read_copperlists log_base ≢ ok none
  unfolding read_copperlists
  read_copperlists_total log_base h = elim (Result-cases (build log_base)) [
    | inl (read r, opened) ↦
        let (cls, e, held) = Holds-total (suc (remaining r)) r (omega arith) in
        cc (read_copperlists-Holds log_base r cls e opened held)
    | inl (write, opened) ↦
        let h' : ◌≡◌ {A = CuResult (Option (List CopperList × LogEnd))}
            (err "expected a read-only unified logger") (ok none) =
          rw opened at h in
        cc
    | inr (e, refused) ↦
        let h' : ◌≡◌ {A = CuResult (Option (List CopperList × LogEnd))}
            (err ("open unified log " ++ (log_base ++ (": " ++ e)))) (ok none) =
          rw refused at h in
        cc
  ]
