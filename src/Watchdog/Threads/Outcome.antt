-- ===== src/Watchdog/Threads/Outcome.antt =====
-- examples/watchdog/src/main.rs: how `run_live` comes back, in every interleaving, and what `main`
-- makes of it.
use Prim.Native.String.{◌++◌ as ◌++text◌}
use msrs.Shared.{
  ◌⊎◌, inl, inr, ℕ, ◌+◌, ◌<◌, ◌^◌, ◌≡◌, refl, sym, ap, ◌∙◌, ◌≢◌, subst, true, none, some, List, [],
  ◌∷◌, ◌++◌, String, ok, err, returns, All, length, map, arith, Result,
}
use msrs.Shared.Checks.{same_texts}
use msrs.Copper.{CuMsg, CuResult, Clock}
use msrs.Channel.{Channel}
use msrs.Fsm.Batch.{Batch}
use msrs.Tasks.{Cycle}
use msrs.Replay.{GateReport}
use msrs.Replay.Verdict.{HasSuccessor, Contiguous}
use msrs.Replay.Log.{DecodeError, read, eof, end_of, LogSource, Holds}
use msrs.Watchdog.{Feed, Alarm, Gate}
use msrs.Watchdog.Service.{
  Step as Recording, LogReader, collect_steps, read_recorded, Encoding, alarms_of, kind,
}
use msrs.Watchdog.Service.Control.{replay-passed}
use msrs.Watchdog.Service.Iteration.{ids_from-Contiguous, ids_from-HasSuccessor}
use msrs.Watchdog.Service.Live.{read_recorded-steps}
use msrs.Watchdog.Main.{main, expected_kinds}
use msrs.Watchdog.Main.Decides.{by_kinds, main-by_kinds}
use msrs.Watchdog.Threads.{
  Forwarder, forwarding, at_feeder, ended, Main, came_back, panicked, System, start, Step, forwards,
  iterates, stops, joins, iterate_at, stop_at, join_at, iterating, joining, Reach, at_start, later,
}
use msrs.Watchdog.Threads.Flow.{Flow, Inv, InvAt}
use msrs.Watchdog.Threads.Forwarding.{forwarder_step-Inv, forwarder_step-main}
use msrs.Watchdog.Threads.Iterating.{iterate_at-Inv, stop_at-Inv, join_at-Inv}

-- The panic of a live run, where there is one: that of `stop_all_tasks`.
abbrev pub stop_text : String → String
stop_text e = "stop_all_tasks failed: " ++text e

module _ (gate : Gate) (ch : Channel Feed) (out results : Channel Alarm) (clock : Clock)
    (cycles : CuMsg (Cycle Feed)) (alarms : CuMsg (Batch Alarm)) where
  abbrev Sys : Type 0
  Sys = System gate ch out results clock cycles alarms

  abbrev Reaches : ℕ → CuResult (Unit {0}) → Sys → Type 0
  Reaches max_batch stopped s = Reach gate ch out results clock cycles alarms max_batch stopped s

  abbrev Keeps : Sys → Type 0
  Keeps s = Inv gate ch out results clock cycles alarms s

  start-Inv : (max_batch : ℕ) → Keeps (start gate ch out results clock cycles alarms max_batch)
  unfolding start collect_steps
  start-Inv max_batch = record {
    steps = [];
    recovered = refl;
    recorded = tt;
    moved = refl;
    numbered = refl;
    next = refl;
    counted = refl;
    delivering = (results.is_open-unbounded, results.capacity-unbounded);
    flow = (
      ap (λ l. l ++ out.contents out.unbounded) results.contents-unbounded ∙ out.contents-unbounded,
      (out.is_open-unbounded, out.capacity-unbounded),
    );
  }

  abbrev Steps : CuResult (Unit {0}) → Sys → Sys → Type 0
  Steps stopped s t = Step gate ch out results clock cycles alarms stopped s t

  abbrev Failed : CuResult (Unit {0}) → Sys → Type 0
  Failed stopped s = (e : String) × (stopped ≡ err e) × (s.main ≡ panicked (stop_text e))

  stop_at-Holds :
      (stopped : CuResult (Unit {0})) (f : Forwarder) (m : Main) (s : Sys)
      → (inv : InvAt gate ch out results clock cycles alarms f m s.service s.collected s.log)
      → let t =
          stop_at gate ch out results clock cycles alarms stopped m
            (record s { forwarder = f; main = m }) in
        Keeps t ⊎ Failed stopped t
  unfolding stop_at
  stop_at-Holds (ok _) f m s inv =
      inl (stop_at-Inv gate ch out results clock cycles alarms f m s inv)
  stop_at-Holds (err e) f iterating s inv = inr (e, refl, refl)
  stop_at-Holds (err e) f joining s inv = inl inv
  stop_at-Holds (err e) f (came_back live) s inv = inl inv
  stop_at-Holds (err e) f (panicked text) s inv = inl inv

  -- A thread that has panicked does not move any more, whatever the other one does.
  Step-panicked :
      {stopped : CuResult (Unit {0})} {s t : Sys} (text : String)
      → Steps stopped s t
      → s.main ≡ panicked text
      → t.main ≡ panicked text
  unfolding iterate_at stop_at join_at
  Step-panicked {s = s} text forwards h =
      forwarder_step-main gate ch out results clock cycles alarms s ∙ h
  Step-panicked {s = s} text (iterates t) h =
      ap (λ m. (iterate_at gate ch out results clock cycles alarms m t s).main) h ∙ h
  Step-panicked {stopped} {s} text stops h =
      ap (λ m. (stop_at gate ch out results clock cycles alarms stopped m s).main) h ∙ h
  Step-panicked {s = s} text joins h =
      ap (λ m. (join_at gate ch out results clock cycles alarms m s.forwarder s).main) h ∙ h

  Step-Inv :
      {stopped : CuResult (Unit {0})} {s t : Sys}
      → Steps stopped s t
      → Keeps s
      → Keeps t ⊎ Failed stopped t
  Step-Inv {s = s} forwards inv =
      inl (forwarder_step-Inv gate ch out results clock cycles alarms s inv)
  Step-Inv {s = s} (iterates t) inv =
      inl (iterate_at-Inv gate ch out results clock cycles alarms s.forwarder s.main s t inv)
  Step-Inv {stopped} {s} stops inv = stop_at-Holds stopped s.forwarder s.main s inv
  Step-Inv {s = s} joins inv =
      inl (join_at-Inv gate ch out results clock cycles alarms s.forwarder s.main s inv)

  Reach-Inv :
      {max_batch : ℕ} {stopped : CuResult (Unit {0})} {s : Sys}
      → Reaches max_batch stopped s
      → Keeps s ⊎ Failed stopped s
  Reach-Inv {max_batch} at_start = inl (start-Inv max_batch)
  Reach-Inv {stopped = stopped} (later {t = t} r st) =
      elim (Reach-Inv r) as (λ x. Keeps t ⊎ Failed stopped t) [
        | inl inv ↦ Step-Inv st inv
        | inr (e, refused, h) ↦ inr (e, refused, Step-panicked (stop_text e) st h)
      ]

  abbrev Flows : List Recording → Forwarder → Main → out.Chan → results.Chan → Type 0
  Flows steps f m tx c = Flow gate ch out results clock cycles alarms steps f m tx c

  no_panic :
      (text : String) (steps : List Recording) (f : Forwarder) (tx : out.Chan) (c : results.Chan)
      → ¬ Flows steps f (panicked text) tx c
  no_panic text steps forwarding tx c h = h
  no_panic text steps at_feeder tx c h = h
  no_panic text steps (ended (ok _)) tx c h = h
  no_panic text steps (ended (err d)) tx c h = h

  back_with :
      (live : List Alarm) (steps : List Recording) (f : Forwarder) (tx : out.Chan)
      (c : results.Chan)
      → Flows steps f (came_back live) tx c
      → live ≡ alarms_of steps
  back_with live steps forwarding tx c h = absurd h
  back_with live steps at_feeder tx c h = absurd h
  back_with live steps (ended (ok _)) tx c h = h
  back_with live steps (ended (err d)) tx c h = absurd h

  -- The only failure of a live run is one of `stop_all_tasks`, however its threads interleave,
  -- whatever arrives and whatever the clocks read: at any moment either neither thread has failed,
  -- which is to say that `run_live` has not panicked and the transport has not ended with an error; or
  -- `stop_all_tasks` answers an error, and `run_live` has panicked with it.
  pub Reach-failures :
      (max_batch : ℕ) (stopped : CuResult (Unit {0})) {s : Sys} (text d : String)
      → Reaches max_batch stopped s
      → (s.main ≢ panicked text) × (s.forwarder ≢ ended (err d))
        ⊎ (e : String) × (stopped ≡ err e) × (s.main ≡ panicked (stop_text e))
  Reach-failures max_batch stopped {s} text d r = elim (Reach-Inv r) [
    | inl inv ↦ inl (
      λ h.
          no_panic text inv.steps s.forwarder s.service.tx s.collected
            (subst (λ m. Flows inv.steps s.forwarder m s.service.tx s.collected) h inv.flow),
      λ h. subst (λ f. Flows inv.steps f s.main s.service.tx s.collected) h inv.flow,
    )
    | inr failed ↦ inr failed
  ]

  came_back-Keeps :
      {stopped : CuResult (Unit {0})} {s : Sys} (live : List Alarm)
      → Keeps s ⊎ Failed stopped s
      → s.main ≡ came_back live
      → Keeps s
  came_back-Keeps live (inl inv) h = inv
  came_back-Keeps live (inr (e, refused, h')) h = absurd (apart (sym h ∙ h'))
    where
      apart : {live : List Alarm} {text : String} → came_back live ≢ panicked text
      apart e = cc

  some_step : (steps : List Recording) → 0 < length steps → steps ≢ []
  some_step [] h = absurd (omega (arith, h))
  some_step (s ∷ steps) h = cc

  -- The outcome of the watchdog's `main` rests on the kinds of the alarms alone, however `run_live`
  -- and its transport interleave: take any way in which `run_live` comes back, after one iteration or
  -- more and fewer than 2^64; a log with its slots in the expected order that opens for reading,
  -- holds the copperlists of these iterations and ends cleanly; an encoder that tells an empty slot
  -- from a batch; and a log directory that can be made. Where the alarms that `run_live` comes back
  -- with are of the four expected kinds, `main` prints them, what was recovered, the report of the
  -- replay and that of the negative control, and comes to its end; otherwise it prints them and
  -- panics at the check of the kinds. No other check fails: no alarm was lost or reordered on its
  -- way, the replay passes, the cycle that armed is found and the negative control is noticed.
  pub came_back-decides :
      (max_batch : ℕ) {s : Sys} (live : List Alarm) (enc : Encoding) (stopped : CuResult (Unit {0}))
      (created : Result String (Unit {0})) (debug_report : GateReport → String)
      (log : LogReader cycles alarms) (log_base : String) (reader : LogSource.Reader log.source)
      (e : DecodeError)
      → Reaches max_batch stopped s
      → s.main ≡ came_back live
      → 0 < length s.log
      → length s.log < 2 ^ 64
      → ((b : Batch Alarm) → enc.encode none ≢ enc.encode (some b))
      → log.in_order ≡ true
      → LogSource.build log.source log_base ≡ ok (read reader)
      → Holds log.source reader s.log e
      → end_of e ≡ eof
      → created ≡ ok tt
      → (recorded : List Recording) × (read_recorded cycles alarms log log_base
          ≡ some (returns recorded))
        × (main gate enc debug_report created live (returns recorded)
            ≡ by_kinds gate enc debug_report live recorded
                (same_texts (map kind live) expected_kinds))
  came_back-decides max_batch {s} live enc stopped created debug_report log log_base reader e r back
        many room tells ordered opened held clean done =
      let inv = came_back-Keeps live (Reach-Inv r) back in
      let same =
        back_with live inv.steps s.forwarder s.service.tx s.collected
          (subst (λ m. Flows inv.steps s.forwarder m s.service.tx s.collected) back inv.flow) in
      let numbered = sym inv.numbered in
      let small : 0 + length inv.steps < 2 ^ 64 = omega (arith, room, inv.counted) in
      let good =
        replay-passed gate enc inv.steps inv.recorded
          (some_step inv.steps (omega (arith, many, inv.counted)))
          (subst (All HasSuccessor) numbered (ids_from-HasSuccessor 0 (length inv.steps) small))
          (subst Contiguous numbered (ids_from-Contiguous 0 (length inv.steps))) in
      (
        inv.steps,
        read_recorded-steps gate ch out clock cycles alarms log log_base reader s.log e inv.steps
            ordered opened held clean inv.recovered,
        subst
            (λ l.
              main gate enc debug_report created l (returns inv.steps)
              ≡ by_kinds gate enc debug_report l inv.steps (same_texts (map kind l) expected_kinds))
            (sym same)
            (main-by_kinds gate enc debug_report created inv.steps tells done good inv.recorded),
      )
