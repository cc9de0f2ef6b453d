-- ===== src/Echo/Service/Reading.antt =====
-- examples/echo/src/main.rs: what `read_recorded` gives back of a log.
use msrs.Shared.{
  ℕ, zero, suc, ◌<◌, ◌≡◌, refl, sym, ap, ap₂, ◌∙◌, Option, none, some, List, [], ◌∷◌, ◌++◌,
  append-nil, append_assoc, map, String, ok, err, returns, true, arith,
}
use msrs.Copper.{CuMsg}
use msrs.Trigger.{Trigger}
use msrs.Effects.Laws.{to_list}
use msrs.Replay.Log.{DecodeError, read, Holds, stops, yields}
use msrs.Echo.{EchoMsg}
use msrs.Echo.Numbering.{answer, count_after}
use msrs.Echo.Service.{
  Recorded, recorded_input, push_output, push_input, CopperList, LogReader, push_cycle, read_cycles,
  read_opened, read_recorded,
}
use msrs.Echo.Service.Replayed.{answers, body_of, input_of, recorded_of}

-- What `read_recorded` makes of some more cycles.
abbrev joined : Recorded → Recorded → Recorded
joined r s = record {
  ingress_inputs = r.ingress_inputs ++ s.ingress_inputs;
  echo_outputs = r.echo_outputs ++ s.echo_outputs;
}

map-append : (l k : List EchoMsg) → map body_of (l ++ k) ≡ map body_of l ++ map body_of k
map-append [] k = refl
map-append (x ∷ l) k = ap (◌∷◌ x.body) (map-append l k)

push_output_lem :
    (l : List String) (o : Option EchoMsg) → push_output l o ≡ l ++ map body_of (to_list o)
push_output_lem l none = sym (append-nil l)
push_output_lem l (some out) = refl

module _ (slot : CuMsg EchoMsg) (log : LogReader slot) where
  open log use {source, in_order, debug_tov}
  open source use {Reader, build, decode, remaining, decode-remaining}

  -- The copperlists of a run of triggers after `count` echoes.
  pub data IsLogOf : ℕ → List (Trigger EchoMsg) → List (CopperList slot) → Type 0 where
    no_cycle : {count : ℕ} → IsLogOf count [] []
    cycle :
        {count : ℕ} {ts : List (Trigger EchoMsg)} {cls : List (CopperList slot)}
        (t : Trigger EchoMsg) (cl : CopperList slot)
        → recorded_input debug_tov (slot.payload cl.ingress) (slot.tov cl.ingress)
          ≡ returns (input_of t)
        → slot.payload cl.echoed ≡ answer count t
        → IsLogOf (count_after count t) ts cls
        → IsLogOf count (t ∷ ts) (cl ∷ cls)

  read_cycles-next :
      (fuel : ℕ) (reader : Reader) (r r' : Recorded) (cl : CopperList slot)
      → (decode reader).0 ≡ ok cl
      → push_cycle slot log r cl ≡ returns r'
      → read_cycles slot log (suc fuel) reader r ≡ read_cycles slot log fuel (decode reader).1 r'
  unfolding read_cycles
  read_cycles-next fuel reader r r' cl decoded pushed = rw (decoded, read_cycles) (rw pushed)

  read_cycles-end :
      (fuel : ℕ) (reader : Reader) (r : Recorded) (e : DecodeError)
      → (decode reader).0 ≡ err e
      → read_cycles slot log (suc fuel) reader r ≡ some (returns r)
  unfolding read_cycles
  read_cycles-end fuel reader r e decoded = rw (decoded, read_cycles)

  push_cycle-joined :
      (r : Recorded) (cl : CopperList slot) (count : ℕ) (t : Trigger EchoMsg)
      → recorded_input debug_tov (slot.payload cl.ingress) (slot.tov cl.ingress)
        ≡ returns (input_of t)
      → slot.payload cl.echoed ≡ answer count t
      → push_cycle slot log r cl
        ≡ returns (
            joined r (record {
              ingress_inputs = input_of t ∷ [];
              echo_outputs = map body_of (to_list (answer count t));
            }))
  unfolding push_cycle
  push_cycle-joined r cl count t input output =
      ap₂ (push_input r) output input
      ∙ ap
          (λ l.
            returns
              (record { ingress_inputs = r.ingress_inputs ++ input_of t ∷ []; echo_outputs = l }))
          (push_output_lem r.echo_outputs (answer count t))

  joined-next :
      (r : Recorded) (count : ℕ) (t : Trigger EchoMsg) (ts : List (Trigger EchoMsg))
      → joined
          (joined r (record {
            ingress_inputs = input_of t ∷ [];
            echo_outputs = map body_of (to_list (answer count t));
          }))
          (recorded_of (count_after count t) ts)
        ≡ joined r (recorded_of count (t ∷ ts))
  joined-next r count t ts =
      let here = to_list (answer count t) in
      let later = answers (count_after count t) ts in
      ap₂ (λ i o. record { ingress_inputs = i; echo_outputs = o })
        (append_assoc r.ingress_inputs (input_of t ∷ []) (map input_of ts))
        (append_assoc r.echo_outputs (map body_of here) (map body_of later)
          ∙ ap (◌++◌ r.echo_outputs) (sym (map-append here later)))

  read_cycles-IsLogOf :
      (fuel : ℕ) (reader : Reader) (r : Recorded) (count : ℕ) (ts : List (Trigger EchoMsg))
      (cls : List (CopperList slot)) (e : DecodeError)
      → remaining reader < fuel
      → Holds source reader cls e
      → IsLogOf count ts cls
      → read_cycles slot log fuel reader r ≡ some (returns (joined r (recorded_of count ts)))
  read_cycles-IsLogOf zero reader r count ts cls e enough held h = absurd (omega arith)
  read_cycles-IsLogOf (suc fuel) reader r count [] [] e enough (stops p) h =
      read_cycles-end fuel reader r e p
      ∙ ap₂ (λ i o. some (returns (record { ingress_inputs = i; echo_outputs = o })))
          (sym (append-nil r.ingress_inputs)) (sym (append-nil r.echo_outputs))
  read_cycles-IsLogOf (suc fuel) reader r count [] (cl ∷ cls) e enough held h = elim h [ ]
  read_cycles-IsLogOf (suc fuel) reader r count (t ∷ ts) [] e enough held h = elim h [ ]
  read_cycles-IsLogOf (suc fuel) reader r count (t ∷ ts) (cl ∷ cls) e enough (yields _ p held)
        (cycle _ _ input output h) =
      read_cycles-next fuel reader r _ cl p (push_cycle-joined r cl count t input output)
      ∙ read_cycles-IsLogOf fuel (decode reader).1 _ (count_after count t) ts cls e
          (omega (arith, decode-remaining reader cl p)) held h
      ∙ ap (λ q. some (returns q)) (joined-next r count t ts)

  -- Reading the log of a run of triggers gives back the triggers and the answers to them.
  pub read_recorded-IsLogOf :
      (log_base : String) (reader : Reader) (ts : List (Trigger EchoMsg))
      (cls : List (CopperList slot)) (e : DecodeError)
      → in_order ≡ true
      → build log_base ≡ ok (read reader)
      → Holds source reader cls e
      → IsLogOf 0 ts cls
      → read_recorded slot log log_base ≡ some (returns (recorded_of 0 ts))
  unfolding read_recorded read_opened
  read_recorded-IsLogOf log_base reader ts cls e ordered opened held h =
      rw (ordered, read_recorded)
        (rw (opened, read_recorded)
          (read_cycles-IsLogOf (suc (remaining reader)) reader
            (record { ingress_inputs = []; echo_outputs = [] }) 0 ts cls e (omega arith) held h))
