-- ===== src/Watchdog/Service/Control.antt =====
-- examples/watchdog/src/main.rs: the replay passes on what a run recorded, and the negative control
-- is always noticed.
use msrs.Shared.{
  ℕ, ◌≡◌, refl, sym, ap, ◌∙◌, ◌≢◌, true, false, Bool-cases, ◌⊎◌, subst, inl, inr, Option, none,
  some, List, [], ◌∷◌, Checked, returns, panics, All,
}
use msrs.Trigger.{message}
use msrs.Fsm.{run_step_all}
use msrs.Fsm.Batch.{Batch}
use msrs.Fsm.Forwarding.{batch_of}
use msrs.Tasks.{Cycle}
use msrs.Replay.{passed}
use msrs.Replay.Spec.{ids, replayed}
use msrs.Replay.Verdict.{HasSuccessor, Contiguous, SameEncoding, passed_iff, passed-SameEncoding}
use msrs.Watchdog.{
  Feed, Alarm, armed_alarm, idle, armed, tripped, Gate, WatchdogMachine, default, watchdog,
}
use msrs.Watchdog.Spec.{View, cycle_spec}
use msrs.Watchdog.Refines.{view, IsDrained, step-cycle_spec}
use msrs.Watchdog.Runs.{default-Shows, at_rest}
use msrs.Watchdog.Service.{
  Step, Encoding, replay_closure, replay, arms_in, clear_events, push_step, perturb,
}

module _ (gate : Gate) where
  -- A recording of a run: each output is what the machine put out for the input.
  abbrev pub IsRecordOf : WatchdogMachine gate → List Step → Type 0
  IsRecordOf m [] = Unit
  IsRecordOf m (s ∷ steps) =
      (s.output ≡ batch_of (run_step_all (watchdog gate) m (message s.input)).1)
      × IsRecordOf (run_step_all (watchdog gate) m (message s.input)).0 steps

  module _ (enc : Encoding) where
    IsRecordOf-SameEncoding :
        (m : WatchdogMachine gate) (steps : List Step)
        → IsRecordOf m steps
        → All (SameEncoding (replay_closure gate enc)) (replayed (replay_closure gate enc) m steps)
    IsRecordOf-SameEncoding m [] h = tt
    IsRecordOf-SameEncoding m (s ∷ steps) (output, h) = (
      ap enc.encode (sym output),
      IsRecordOf-SameEncoding (run_step_all (watchdog gate) m (message s.input)).0 steps h,
    )

    -- The replay of a recording of the watchdog passes, for any encoder, if it has a step and its
    -- ids are contiguous and leave room for a successor.
    pub replay-passed :
        (steps : List Step)
        → IsRecordOf (default gate) steps
        → steps ≢ []
        → All HasSuccessor (ids steps)
        → Contiguous (ids steps)
        → passed (replay gate enc steps) ≡ true
    unfolding replay
    replay-passed steps h some_step room contiguous =
        (passed_iff (replay_closure gate enc) (default gate) steps room).1
          (some_step, IsRecordOf-SameEncoding (default gate) steps h, contiguous)

    -- Idle, with nothing to drain.
    abbrev IsIdle : WatchdogMachine gate → Type 0
    IsIdle m = (gate.state m.sm ≡ idle) × IsDrained gate m

    unfed_view :
        (timeout now pending : ℕ) (v : View)
        → v.state ≡ idle
        → cycle_spec timeout v (record { now_ns = now; events = []; pending = pending }) ≡ (v, [])
    unfed_view timeout now pending v h = unfed v.state h
      where
        unfed :
            (s : _)
            → s ≡ idle
            → cycle_spec timeout
                (record { state = s; last_feed_ns = v.last_feed_ns })
                (record { now_ns = now; events = []; pending = pending })
              ≡ (record { state = s; last_feed_ns = v.last_feed_ns }, [])
        unfed idle h = refl
        unfed armed h = cc
        unfed tripped h = cc

    -- An idle machine puts nothing out for a cycle without feeds, and stays idle.
    unfed-IsIdle :
        (m : WatchdogMachine gate) (now pending : ℕ)
        → IsIdle m
        → let (m', outs) =
            run_step_all
              (watchdog gate)
              m
              (message (record { now_ns = now; events = []; pending = pending })) in
          (outs ≡ []) × IsIdle m'
    unfed-IsIdle m now pending (at_idle, drained) =
        let c : Cycle Feed = record { now_ns = now; events = []; pending = pending } in
        let (viewed, outs, timed, drained') = step-cycle_spec gate m c drained in
        let rests = unfed_view m.ctx.store.timeout_ns now pending (view gate m) at_idle in
        (
          outs ∙ ap (λ r. r.1) rests,
          (ap (λ v. v.state) viewed ∙ ap (λ r. r.0.state) rests ∙ at_idle, drained'),
        )

    -- An idle machine arms on a cycle with feeds.
    fed-arms :
        (m : WatchdogMachine gate) (now pending : ℕ) (f : Feed) (fs : List Feed)
        → IsIdle m
        → (run_step_all
            (watchdog gate)
            m
            (message (record { now_ns = now; events = f ∷ fs; pending = pending }))).1
          ≡ armed_alarm ∷ []
    fed-arms m now pending f fs (at_idle, drained) =
        let c : Cycle Feed = record { now_ns = now; events = f ∷ fs; pending = pending } in
        let (viewed, outs, timed, drained') = step-cycle_spec gate m c drained in
        outs
        ∙ ap
            (λ s.
              (cycle_spec m.ctx.store.timeout_ns
                (record { state = s; last_feed_ns = m.ctx.store.last_feed_ns }) c).1)
            at_idle

    -- Whichever feeds the cycle has: none, and the machine stays idle; or some, and it arms.
    unfed_or_arms :
        (m : WatchdogMachine gate) (c : Cycle Feed)
        → IsIdle m
        → let (m', outs) = run_step_all (watchdog gate) m (message c) in
          IsIdle m' ⊎ (arms_in (batch_of outs) ≡ true)
    unfed_or_arms m c at_rest = by_events c.events
      where
        by_events :
            (fs : List Feed)
            → let (m', outs) =
                run_step_all (watchdog gate) m (message (record c { events = fs })) in
              IsIdle m' ⊎ (arms_in (batch_of outs) ≡ true)
        by_events [] = inl (unfed-IsIdle m c.now_ns c.pending at_rest).1
        by_events (f ∷ fs) =
            inr (ap (λ l. arms_in (batch_of l)) (fed-arms m c.now_ns c.pending f fs at_rest))

    steps_or : List Step → Checked (List Step) → List Step
    steps_or d (returns l) = l
    steps_or d (panics text) = d

    returns-inj : (l k : List Step) → returns l ≡ returns k → l ≡ k
    unfolding steps_or
    returns-inj l k h = ap (steps_or l) h

    push_step-inv :
        (s : Step) (r : Checked (List Step)) (l : List Step)
        → push_step s r ≡ returns l
        → (rest : List Step) × (r ≡ returns rest) × (s ∷ rest ≡ l)
    push_step-inv s (panics text) l h = cc
    push_step-inv s (returns rest) l h = (rest, refl, returns-inj (s ∷ rest) l h)

    apart :
        (o : Option (Batch Alarm))
        → ((b : Batch Alarm) → enc.encode none ≢ enc.encode (some b))
        → arms_in o ≡ true
        → enc.encode none ≢ enc.encode o
    apart none h arms = cc
    apart (some b) h arms = h b

    -- From an idle machine, the replay of a perturbed recording finds another encoding somewhere.
    perturb-diverges :
        (m : WatchdogMachine gate) (steps perturbed : List Step)
        → ((b : Batch Alarm) → enc.encode none ≢ enc.encode (some b))
        → IsIdle m
        → IsRecordOf m steps
        → perturb steps ≡ returns perturbed
        → ¬ All
            (SameEncoding (replay_closure gate enc))
            (replayed (replay_closure gate enc) m perturbed)
    unfolding perturb
    perturb-diverges m [] perturbed tells at_rest h p same = cc
    perturb-diverges m (s ∷ steps) perturbed tells at_rest (output, h) p same =
        elim (Bool-cases (arms_in s.output)) [
          | inl arms ↦
              let cleared : clear_events s ∷ steps ≡ perturbed =
                returns-inj (clear_events s ∷ steps) perturbed (rw arms at p) in
              let (quiet, stays) = unfed-IsIdle m s.input.now_ns s.input.pending at_rest in
              let same' =
                subst
                  (λ l.
                    All (SameEncoding (replay_closure gate enc))
                      (replayed (replay_closure gate enc) m l))
                  (sym cleared) same in
              apart s.output tells arms (ap (λ l. enc.encode (batch_of l)) (sym quiet) ∙ same'.0)
          | inr other ↦
              let pushed : push_step s (perturb steps) ≡ returns perturbed = rw other at p in
              let (rest, p', whole) = push_step-inv s (perturb steps) perturbed pushed in
              let same' =
                subst
                  (λ l.
                    All (SameEncoding (replay_closure gate enc))
                      (replayed (replay_closure gate enc) m l))
                  (sym whole) same in
              let m' = (run_step_all (watchdog gate) m (message s.input)).0 in
              elim (unfed_or_arms m s.input at_rest) [
                | inl still ↦ perturb-diverges m' steps rest tells still h p' same'.1
                | inr arms ↦
                    let both : true ≡ false = sym arms ∙ ap arms_in (sym output) ∙ other in cc
              ]
        ]

    default-IsIdle : IsIdle (default gate)
    default-IsIdle =
        let shows = default-Shows gate in (ap (λ v. v.state) shows.viewed, shows.drained)

    -- The negative control is never passed: take any recording of the watchdog, drop the feeds of the
    -- first cycle that armed it, and the gate reports a failure, for any encoder that tells an empty
    -- slot from a batch.
    pub perturb-passed :
        (steps perturbed : List Step)
        → ((b : Batch Alarm) → enc.encode none ≢ enc.encode (some b))
        → IsRecordOf (default gate) steps
        → perturb steps ≡ returns perturbed
        → passed (replay gate enc perturbed) ≡ false
    unfolding replay
    perturb-passed steps perturbed tells h p =
        elim (Bool-cases (passed (replay gate enc perturbed))) [
          | inl good ↦ absurd (
              perturb-diverges (default gate) steps perturbed tells default-IsIdle h p
                (passed-SameEncoding (replay_closure gate enc) (default gate) perturbed good))
          | inr bad ↦ bad
        ]
