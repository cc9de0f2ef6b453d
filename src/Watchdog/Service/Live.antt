-- ===== src/Watchdog/Service/Live.antt =====
-- examples/watchdog/src/main.rs: a live run, its log, and the checks that `main` makes on them.
use msrs.Shared.{
  suc, ◌+◌, ◌<◌, ◌^◌, ◌≡◌, sym, ap, ◌∙◌, subst, true, some, List, ◌∷◌, ◌++◌, String, ok, Checked,
  returns, panics, All, length,
}
use msrs.Copper.{CuMsg, Clock}
use msrs.Channel.{Channel}
use msrs.Fsm.Batch.{Batch}
use msrs.Tasks.{Cycle}
use msrs.Tasks.Egress.Delivery.{Delivers}
use msrs.Replay.{passed}
use msrs.Replay.Verdict.{HasSuccessor, Contiguous}
use msrs.Replay.Log.{DecodeError, read, eof, end_of, LogSource, Holds, read_copperlists-Holds}
use msrs.Watchdog.{Feed, Alarm, Gate, default}
use msrs.Watchdog.Service.{
  CopperList, Step, LogReader, collect_steps, steps_until, read_steps, read_recorded, Encoding,
  replay, alarms_of, Turn, WatchdogService, run_iterations,
}
use msrs.Watchdog.Service.Control.{IsRecordOf, replay-passed}
use msrs.Watchdog.Service.Iteration.{
  ids_from-Contiguous, ids_from-HasSuccessor, not_nil, machine_of, run-Runs,
}

module _ (gate : Gate) (ch : Channel Feed) (out : Channel Alarm) (clock : Clock)
    (cycles : CuMsg (Cycle Feed)) (alarms : CuMsg (Batch Alarm)) where
  -- With an unbounded outbound channel whose receiver lives, a run of any number of iterations comes
  -- back without a panic: no task fails, whatever arrives and whatever the clocks read.
  pub run_iterations_total :
      (s : WatchdogService gate ch out) (turns : List (Turn ch clock cycles alarms))
      → Delivers out s.tx
      → (last : WatchdogService gate ch out) × (copperlists : List (CopperList cycles alarms))
        × (run_iterations gate ch out clock cycles alarms s turns ≡ returns (last, copperlists))
  run_iterations_total s turns d =
      let r = run-Runs gate ch out clock cycles alarms s turns d in
      (r.last, r.copperlists, r.comes_back)

  abbrev run_or :
      WatchdogService gate ch out × List (CopperList cycles alarms)
      → Checked (WatchdogService gate ch out × List (CopperList cycles alarms))
      → WatchdogService gate ch out × List (CopperList cycles alarms)
  run_or d (returns r) = r
  run_or d (panics text) = d

  module _ (log : LogReader cycles alarms) where
    pub read_recorded-steps :
        (log_base : String) (reader : LogSource.Reader log.source)
        (cls : List (CopperList cycles alarms)) (e : DecodeError) (steps : List Step)
        → log.in_order ≡ true
        → LogSource.build log.source log_base ≡ ok (read reader)
        → Holds log.source reader cls e
        → end_of e ≡ eof
        → collect_steps cycles alarms cls ≡ returns steps
        → read_recorded cycles alarms log log_base ≡ some (returns steps)
    unfolding read_recorded read_steps
    read_recorded-steps log_base reader cls e steps ordered opened held clean collected =
        rw (ordered, read_recorded)
          (ap (read_steps cycles alarms log)
              (read_copperlists-Holds log.source log_base reader cls e opened held)
            ∙ ap (λ end. some (steps_until cycles alarms log end cls)) clean
            ∙ ap some collected)

    -- The checks of the watchdog's `main` hold: take any run of one iteration or more of a fresh
    -- machine, with an unbounded outbound channel whose receiver lives and ids that leave room for a
    -- successor, that comes back, and a log with its slots in the expected order that opens for
    -- reading, holds the copperlists of the run and ends cleanly. Reading the log back gives steps
    -- such that the alarms in them are those that were sent to the transport, in order, the replay of
    -- the steps passes, for any encoder, and each recorded output is what a fresh machine puts out
    -- for the recorded inputs up to it.
    pub main-passed :
        (enc : Encoding) (s last : WatchdogService gate ch out) (t : Turn ch clock cycles alarms)
        (turns : List (Turn ch clock cycles alarms)) (copperlists : List (CopperList cycles alarms))
        (log_base : String) (reader : LogSource.Reader log.source) (e : DecodeError)
        → Delivers out s.tx
        → machine_of gate ch out clock cycles alarms s ≡ default gate
        → s.next + suc (length turns) < 2 ^ 64
        → run_iterations gate ch out clock cycles alarms s (t ∷ turns) ≡ returns (last, copperlists)
        → log.in_order ≡ true
        → LogSource.build log.source log_base ≡ ok (read reader)
        → Holds log.source reader copperlists e
        → end_of e ≡ eof
        → (steps : List Step) × (read_recorded cycles alarms log log_base ≡ some (returns steps))
          × (out.contents last.tx ≡ out.contents s.tx ++ alarms_of steps)
          × (passed (replay gate enc steps) ≡ true)
          × IsRecordOf gate (default gate) steps
    main-passed enc s last t turns copperlists log_base reader e d fresh room run ordered opened
          held clean =
        let r = run-Runs gate ch out clock cycles alarms s (t ∷ turns) d in
        let same : (r.last, r.copperlists) ≡ (last, copperlists) =
          ap (run_or (last, copperlists)) (sym r.comes_back ∙ run) in
        let numbered = sym r.numbered in
        let recorded = subst (λ m. IsRecordOf gate m r.steps) fresh r.recorded in
        (
          r.steps,
          read_recorded-steps log_base reader copperlists e r.steps ordered opened held clean
              (ap (λ p. collect_steps cycles alarms p.1) (sym same) ∙ r.recovered),
          ap (λ p. out.contents p.0.tx) (sym same) ∙ r.sent,
          replay-passed gate enc r.steps recorded (not_nil r.steps (length turns) r.counted)
              (subst (All HasSuccessor) numbered
                (ids_from-HasSuccessor s.next (suc (length turns)) room))
              (subst Contiguous numbered (ids_from-Contiguous s.next (suc (length turns)))),
          recorded,
        )
