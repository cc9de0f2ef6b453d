-- ===== src/Watchdog/Runs.antt =====
-- examples/watchdog/src/watchdog.rs: the watchdog over any sequence of cycles.
pub mod History
pub mod Deadline
pub mod Silence
pub mod Bounds
use msrs.Shared.{ℕ, ◌≡◌, refl, sym, ap, ap₂, ◌∙◌, List, [], ◌∷◌, ◌++◌, none, some, Option}
use msrs.Trigger.{message}
use msrs.Fsm.{run_step_all}
use msrs.Tasks.{Cycle}
use msrs.Watchdog.{
  Feed, Alarm, State, idle, WatchdogMachine, Gate, watchdog, default, default_ctx, timeout_ns,
}
use msrs.Watchdog.Spec.{View, cycle_spec}
use msrs.Watchdog.Refines.{view, IsDrained, step-cycle_spec}

-- The machine after some cycles, and all the alarms that it put out.
pub run :
    (gate : Gate) → WatchdogMachine gate → List (Cycle Feed) → WatchdogMachine gate × List Alarm
run gate m [] = (m, [])
run gate m (c ∷ cs) =
    let (m', outs) = run_step_all (watchdog gate) m (message c) in
    let (m'', rest) = run gate m' cs in (m'', outs ++ rest)

-- The same by the specification of one cycle.
abbrev pub spec_run : ℕ → View → List (Cycle Feed) → View × List Alarm
spec_run timeout v [] = (v, [])
spec_run timeout v (c ∷ cs) =
    let (v', alarms) = cycle_spec timeout v c in
    let (v'', rest) = spec_run timeout v' cs in (v'', alarms ++ rest)

abbrev pub at_rest : View
at_rest = record { state = idle; last_feed_ns = none }

module _ (gate : Gate) where
  -- What holds of a machine at the time `timeout` and the view `v`.
  pub record Shows (m : WatchdogMachine gate) (timeout : ℕ) (v : View) : Type 0 where
    pub viewed : view gate m ≡ v
    pub timed : m.ctx.store.timeout_ns ≡ timeout
    pub drained : IsDrained gate m

  step-Shows :
      (m : WatchdogMachine gate) (timeout : ℕ) (v : View) (c : Cycle Feed)
      → Shows m timeout v
      → let (m', outs) = run_step_all (watchdog gate) m (message c) in
        Shows m' timeout (cycle_spec timeout v c).0 × (outs ≡ (cycle_spec timeout v c).1)
  step-Shows m timeout v c h =
      let (viewed, outs, timed, drained) = step-cycle_spec gate m c h.drained in
      let same = ap₂ (λ t u. cycle_spec t u c) h.timed h.viewed in
      (
        record { viewed = viewed ∙ ap (λ r. r.0) same; timed = timed ∙ h.timed; drained = drained },
        outs ∙ ap (λ r. r.1) same,
      )

  pub run-Shows :
      (m : WatchdogMachine gate) (timeout : ℕ) (v : View) (cs : List (Cycle Feed))
      → Shows m timeout v
      → let (m', alarms) = run gate m cs in
        Shows m' timeout (spec_run timeout v cs).0 × (alarms ≡ (spec_run timeout v cs).1)
  unfolding run
  run-Shows m timeout v [] h = (h, refl)
  run-Shows m timeout v (c ∷ cs) h =
      let (shows, outs) = step-Shows m timeout v c h in
      let m' = (run_step_all (watchdog gate) m (message c)).0 in
      let (shows', rest) = run-Shows m' timeout (cycle_spec timeout v c).0 cs shows in
      (shows', ap₂ ◌++◌ outs rest)

  pub default-Shows : Shows (default gate) timeout_ns at_rest
  unfolding default
  default-Shows = record {
    viewed = λ i. record {
      state = gate.state-init default_ctx i;
      last_feed_ns = (gate.context-init default_ctx i).store.last_feed_ns;
    };
    timed = ap (λ c. c.store.timeout_ns) (gate.context-init default_ctx);
    drained = ap (λ c. c.emitted) (gate.context-init default_ctx);
  }

  -- Over any cycles, a fresh machine puts out the alarms of the specification for the timeout of
  -- 50 ms, in order, and ends in the specified state, with the specified time of the latest feed.
  pub run-spec_run :
      (cs : List (Cycle Feed))
      → let (m, alarms) = run gate (default gate) cs in
        (view gate m ≡ (spec_run timeout_ns at_rest cs).0)
        × (alarms ≡ (spec_run timeout_ns at_rest cs).1)
  run-spec_run cs =
      let (shows, alarms) = run-Shows (default gate) timeout_ns at_rest cs default-Shows in
      (shows.viewed, alarms)
