-- ===== src/Examples/Watchdog.antt =====
-- The theorems on the watchdog, at concrete inputs.
use msrs.Shared.{ℕ, ◌*◌, ap, ◌≡◌, refl, ◌↔◌, some, List, [], ◌∷◌, ◌^◌, All, arith}
use msrs.Trigger.{message}
use msrs.Fsm.{run_step_all}
use msrs.Tasks.{Cycle}
use msrs.Watchdog.{
  Feed, armed_alarm, tripped_alarm, recovered_alarm, idle, armed, tripped, handler, Gate,
  WatchdogMachine, watchdog, default, timeout_ns,
}
use msrs.Watchdog.Refines.{view, step-cycle_spec}
use msrs.Watchdog.Runs.{run, run-spec_run}
use msrs.Watchdog.Runs.History.{IsHistory, run-IsHistory}
use msrs.Watchdog.Runs.Deadline.{Trips-iff, Trips}
use msrs.Watchdog.Runs.Bounds.{AtMostOne, outputs, all_of, run-InBounds, IsBetween, IsBelow}
use msrs.Watchdog.Runs.Silence.{silence-trips, this, later, TripsOnce}
use msrs.Examples.Plain.{plain_statig}

abbrev plain_gate : Gate
plain_gate = plain_statig idle handler

abbrev ms : ℕ → ℕ
ms n = n * 1_000_000

abbrev cycle_at : ℕ → List Feed → Cycle Feed
cycle_at now feeds = record { now_ns = now; events = feeds; pending = 0 }

abbrev a_feed : Feed
a_feed = record { sequence = 7 }

abbrev armed_machine : WatchdogMachine plain_gate
armed_machine = record {
  sm = armed;
  ctx = record {
    store = record { timeout_ns = 10; last_feed_ns = some 5 };
    now_ns = 5;
    emitted = [];
  };
}

step-cycle_spec_example :
    let (m', outs) = run_step_all (watchdog plain_gate) armed_machine (message (cycle_at 20 [])) in
    ((view plain_gate m') ≡ record { state = tripped; last_feed_ns = some 5 })
    × (outs ≡ tripped_alarm 15 ∷ [])
    × (m'.ctx.store.timeout_ns ≡ 10)
    × (m'.ctx.emitted ≡ [])
step-cycle_spec_example = step-cycle_spec plain_gate armed_machine (cycle_at 20 []) refl

-- Fed, fed late, silent beyond the timeout, and fed again.
abbrev four_cycles : List (Cycle Feed)
four_cycles =
    cycle_at 10 (a_feed ∷ [])
    ∷ cycle_at 40_000_010 (a_feed ∷ a_feed ∷ [])
    ∷ cycle_at 100_000_011 []
    ∷ cycle_at 120_000_000 (a_feed ∷ [])
    ∷ []

run-spec_run_example :
    let (m, alarms) = run plain_gate (default plain_gate) four_cycles in
    (view plain_gate m ≡ record { state = armed; last_feed_ns = some 120_000_000 })
    × (alarms ≡ armed_alarm ∷ tripped_alarm 60_000_001 ∷ recovered_alarm ∷ [])
run-spec_run_example = run-spec_run plain_gate four_cycles

run-IsHistory_example :
    let (m, alarms) = run plain_gate (default plain_gate) four_cycles in
    IsHistory idle alarms (view plain_gate m).state
run-IsHistory_example = run-IsHistory plain_gate four_cycles

Trips-iff_example :
    let (m, alarms) = run plain_gate (default plain_gate) four_cycles in
    ((run_step_all (watchdog plain_gate) m (message (cycle_at 170_000_001 []))).1
      ≡ tripped_alarm 50_000_001 ∷ [])
    ↔ Trips timeout_ns (view plain_gate m).state (some 120_000_000) 170_000_001 [] 50_000_001
Trips-iff_example = Trips-iff plain_gate four_cycles (cycle_at 170_000_001 []) 50_000_001

four_cycles-armed :
    (view plain_gate (run plain_gate (default plain_gate) four_cycles).0).state ≡ armed
four_cycles-armed = ap (λ v. v.state) (run-spec_run plain_gate four_cycles).0

abbrev silent_cycles : List (Cycle Feed)
silent_cycles = cycle_at 130_000_000 [] ∷ cycle_at 170_000_001 [] ∷ cycle_at 300_000_000 [] ∷ []

silence-trips_example :
    let (m, alarms) =
      run plain_gate (run plain_gate (default plain_gate) four_cycles).0 silent_cycles in
    TripsOnce timeout_ns (view plain_gate m, alarms)
silence-trips_example =
    silence-trips plain_gate four_cycles silent_cycles 120_000_000 four_cycles-armed refl
      (refl, (refl, (refl, tt)))
      (later (cycle_at 130_000_000 []) (this (cycle_at 170_000_001 []) (omega arith)))

run-InBounds_example :
    let (m, alarms) = run plain_gate (default plain_gate) four_cycles in
    All AtMostOne (outputs plain_gate (default plain_gate) four_cycles)
    × (alarms ≡ all_of (outputs plain_gate (default plain_gate) four_cycles))
    × All (IsBetween timeout_ns (2 ^ 64)) alarms
    × IsBelow (2 ^ 64) m.ctx.store.last_feed_ns
run-InBounds_example =
    run-InBounds plain_gate (2 ^ 64) four_cycles
      (omega arith, (omega arith, (omega arith, (omega arith, tt))))
