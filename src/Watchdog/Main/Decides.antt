-- ===== src/Watchdog/Main/Decides.antt =====
-- examples/watchdog/src/main.rs: which checks of `main` can fail after a live run.
use msrs.Shared.{
  ℕ, suc, ◌+◌, ◌<◌, ◌^◌, ◌≡◌, refl, sym, ap, ◌∙◌, subst, ◌≢◌, Bool, true, false, ◌||◌, Option, none,
  some, List, [], ◌∷◌, ◌++◌, append-nil, String, Result, ok, Checked, returns, panics, Bool-cases,
  inl, inr, map, length, ==_iff,
}
use Prim.Native.String.{◌++◌ as ◌++text◌}
use msrs.Shared.Printing.{Printing}
use msrs.Shared.Checks.{same_texts}
use msrs.Copper.{CuMsg, Clock}
use msrs.Channel.{Channel}
use msrs.Fsm.Batch.{Batch}
use msrs.Tasks.{Cycle}
use msrs.Tasks.Egress.Delivery.{Delivers}
use msrs.Replay.{passed, GateReport}
use msrs.Replay.Log.{DecodeError, read, eof, end_of, LogSource, Holds}
use msrs.Watchdog.{Feed, Alarm, armed_alarm, tripped_alarm, recovered_alarm, Gate, default}
use msrs.Watchdog.Service.{
  CopperList, Step, LogReader, read_recorded, Encoding, replay, perturb, has_armed, arms_in,
  alarms_in, alarms_of, kind, Turn, WatchdogService, run_iterations, push_step, clear_events,
}
use msrs.Watchdog.Service.Control.{IsRecordOf, perturb-passed}
use msrs.Watchdog.Service.Iteration.{machine_of}
use msrs.Watchdog.Service.Live.{main-passed}
use msrs.Watchdog.Main.{
  main, same_alarm, same_alarms, expected_kinds, kinds_text, live_line, recovered_line,
  control_line, last_line,
}

same_alarm_refl : (a : Alarm) → same_alarm a a ≡ true
unfolding same_alarm
same_alarm_refl armed_alarm = refl
same_alarm_refl (tripped_alarm n) = (==_iff n n).1 refl
same_alarm_refl recovered_alarm = refl

same_alarms_refl : (l : List Alarm) → same_alarms l l ≡ true
unfolding same_alarms
same_alarms_refl [] = refl
same_alarms_refl (a ∷ l) = rw (same_alarm_refl a) (same_alarms_refl l)

has_armed-append : (l k : List Alarm) → has_armed (l ++ k) ≡ (has_armed l || has_armed k)
has_armed-append [] k = refl
has_armed-append (armed_alarm ∷ l) k = refl
has_armed-append (tripped_alarm n ∷ l) k = has_armed-append l k
has_armed-append (recovered_alarm ∷ l) k = has_armed-append l k

-- Alarms of the expected kinds start with the one of arming.
kinds-armed : (l : List Alarm) → same_texts (map kind l) expected_kinds ≡ true → has_armed l ≡ true
kinds-armed [] h = cc
kinds-armed (armed_alarm ∷ l) h = refl
kinds-armed (tripped_alarm n ∷ l) h = cc
kinds-armed (recovered_alarm ∷ l) h = cc

arms_later :
    (o : Option (Batch Alarm)) (l : List Alarm)
    → arms_in o ≡ false
    → has_armed (alarms_in o ++ l) ≡ true
    → has_armed l ≡ true
arms_later none l e h = h
arms_later (some b) l e h = rw e at (sym (has_armed-append b.values l) ∙ h)

-- The cycle that armed is found.
perturb-returns :
    (steps : List Step)
    → has_armed (alarms_of steps) ≡ true
    → (perturbed : List Step) × (perturb steps ≡ returns perturbed)
unfolding perturb
perturb-returns [] h = cc
perturb-returns (s ∷ steps) h = elim (Bool-cases (arms_in s.output)) [
  | inl arms ↦ (clear_events s ∷ steps, rw arms)
  | inr other ↦
      let (rest, e) = perturb-returns steps (arms_later s.output (alarms_of steps) other h) in
      (s ∷ rest, rw other (ap (push_step s) e))
]

module _ (gate : Gate) (enc : Encoding) (debug_report : GateReport → String) where
  -- The steps that the negative control finds divergent.
  abbrev pub control_divergent : Checked (List Step) → ℕ
  control_divergent (returns perturbed) = (replay gate enc perturbed).divergent
  control_divergent (panics text) = 0

  -- What `main` prints and comes to where only the kinds of the alarms are open.
  abbrev pub by_kinds : List Alarm → List Step → Bool → Printing (Unit {0})
  by_kinds live steps true = (
    map live_line live
        ++ recovered_line steps
          ∷ ("[replay] " ++text debug_report (replay gate enc steps))
          ∷ control_line (control_divergent (perturb steps))
          ∷ last_line
          ∷ [],
    returns tt,
  )
  by_kinds live steps false = (map live_line live, panics kinds_text)

  -- For a recording of the watchdog whose replay passes, the kinds of the alarms decide.
  pub main-by_kinds :
      (created : Result String (Unit {0})) (steps : List Step)
      → ((b : Batch Alarm) → enc.encode none ≢ enc.encode (some b))
      → created ≡ ok tt
      → passed (replay gate enc steps) ≡ true
      → IsRecordOf gate (default gate) steps
      → main gate enc debug_report created (alarms_of steps) (returns steps)
        ≡ by_kinds (alarms_of steps) steps (same_texts (map kind (alarms_of steps)) expected_kinds)
  unfolding main
  main-by_kinds created steps tells done good recorded =
      elim (Bool-cases (same_texts (map kind (alarms_of steps)) expected_kinds)) [
        | inl kinds ↦
            let (perturbed, e) = perturb-returns steps (kinds-armed (alarms_of steps) kinds) in
            rw (done, kinds, main)
              (rw (same_alarms_refl (alarms_of steps))
                (rw good (rw e (rw (perturb-passed gate enc steps perturbed tells recorded e)))))
        | inr other ↦ rw (done, other, main) (ap (λ l. (l, panics kinds_text)) (append-nil _))
      ]

  module _ (ch : Channel Feed) (out : Channel Alarm) (clock : Clock) (cycles : CuMsg (Cycle Feed))
      (alarms : CuMsg (Batch Alarm)) (log : LogReader cycles alarms) where
    -- The outcome of the watchdog's `main` rests on the kinds of the alarms alone: take any live run
    -- of one iteration or more of a fresh machine, with an unbounded outbound channel that is empty
    -- and whose receiver lives, and ids that leave room for a successor, that comes back; a log with
    -- its slots in the expected order that opens for reading, holds the copperlists of the run and
    -- ends cleanly; and an encoder that tells an empty slot from a batch. Where the alarms that the
    -- run sent are of the four expected kinds, `main` prints them, what was recovered, the report of
    -- the replay and that of the negative control, and comes to its end; otherwise it prints them and
    -- panics at the check of the kinds. No other check fails: not that the log holds the alarms that were sent, nor
    -- the replay, nor the negative control, and the cycle that armed is found.
    pub main-decides :
        (created : Result String (Unit {0})) (s last : WatchdogService gate ch out)
        (t : Turn ch clock cycles alarms) (turns : List (Turn ch clock cycles alarms))
        (copperlists : List (CopperList cycles alarms)) (log_base : String)
        (reader : LogSource.Reader log.source) (e : DecodeError)
        → ((b : Batch Alarm) → enc.encode none ≢ enc.encode (some b))
        → Delivers out s.tx
        → out.contents s.tx ≡ []
        → machine_of gate ch out clock cycles alarms s ≡ default gate
        → s.next + suc (length turns) < 2 ^ 64
        → run_iterations gate ch out clock cycles alarms s (t ∷ turns) ≡ returns (last, copperlists)
        → log.in_order ≡ true
        → LogSource.build log.source log_base ≡ ok (read reader)
        → Holds log.source reader copperlists e
        → end_of e ≡ eof
        → created ≡ ok tt
        → let live = out.contents last.tx in
          (recorded : List Step) × (read_recorded cycles alarms log log_base
            ≡ some (returns recorded))
          × (main gate enc debug_report created live (returns recorded)
              ≡ by_kinds live recorded (same_texts (map kind live) expected_kinds))
    main-decides created s last t turns copperlists log_base reader e tells d empty fresh room run
          ordered opened held clean done =
        let (steps, back, sent, good, recorded) =
          main-passed gate ch out clock cycles alarms log enc s last t turns copperlists log_base
            reader e d fresh room run ordered opened held clean in
        let same : out.contents last.tx ≡ alarms_of steps =
          sent ∙ ap (λ l. l ++ alarms_of steps) empty in
        (
          steps,
          back,
          subst
              (λ l.
                main gate enc debug_report created l (returns steps)
                ≡ by_kinds l steps (same_texts (map kind l) expected_kinds))
              (sym same) (main-by_kinds created steps tells done good recorded),
        )
