-- ===== src/Watchdog/Refines.antt =====
-- examples/watchdog/src/watchdog.rs against examples/watchdog/SPEC.md: one step.
use msrs.Shared.{
  ℕ, ◌-◌, ◌≡◌, refl, sym, ap, subst, ◌∙◌, false, Option, none, some, List, [], ◌∷◌, ltb, Bool-cases,
  inl, inr, arith,
}
use msrs.Trigger.{message, tick, message?}
use msrs.Effects.{empty, take}
use msrs.Effects.Laws.{take-emit_all}
use msrs.Fsm.{run_step_all}
use msrs.Tasks.{Cycle}
use msrs.Statig.{next}
use msrs.Watchdog.{
  Feed, Alarm, WatchdogCtx, WatchdogEvent, feed, check, State, idle, armed, tripped, handler, Gate,
  WatchdogMachine, dispatch, feed_each, step, watchdog,
}
use msrs.Watchdog.Spec.{View, news, quiet, by_feeds, cycle_spec}

-- A machine's state and context, without statig.
abbrev Inner : Type 0
Inner = State × WatchdogCtx

react : Inner → WatchdogEvent → Inner
unfolding handler
react (s, c) e = let (o, c') = handler s c e in (next s o, c')

react_feeds : Inner → List Feed → Inner
unfolding react
react_feeds p [] = p
react_feeds p (f ∷ fs) = react_feeds (react p feed) fs

abbrev fresh : ℕ → Option ℕ → ℕ → List Alarm → WatchdogCtx
fresh timeout last now emitted = record {
  store = record { timeout_ns = timeout; last_feed_ns = last };
  now_ns = now;
  emitted = emitted;
}

-- Once armed, and fed in this cycle, further feeds of the cycle change nothing.
react_feeds-armed :
    (timeout now : ℕ) (emitted : List Alarm) (fs : List Feed)
    → react_feeds (armed, fresh timeout (some now) now emitted) fs
      ≡ (armed, fresh timeout (some now) now emitted)
unfolding react_feeds
react_feeds-armed timeout now emitted [] = refl
react_feeds-armed timeout now emitted (f ∷ fs) = react_feeds-armed timeout now emitted fs

first_feed :
    (timeout now : ℕ) (s : State) (last : Option ℕ)
    → react (s, fresh timeout last now []) feed ≡ (armed, fresh timeout (some now) now (news s))
unfolding react
first_feed timeout now idle last = refl
first_feed timeout now armed last = refl
first_feed timeout now tripped last = refl

-- What a cycle leaves, in the terms of the specification.
abbrev Leaves : ℕ → Inner → View × List Alarm → Type 0
Leaves timeout (s, c) (v, alarms) =
    (s ≡ v.state)
    × (c.store.last_feed_ns ≡ v.last_feed_ns)
    × (c.store.timeout_ns ≡ timeout)
    × (c.emitted ≡ alarms)

check-quiet :
    (timeout now : ℕ) (s : State) (last : Option ℕ)
    → Leaves timeout
        (react (s, fresh timeout last now []) check)
        (quiet timeout (record { state = s; last_feed_ns = last }) now)
unfolding react
check-quiet timeout now idle last = (refl, refl, refl, refl)
check-quiet timeout now tripped last = (refl, refl, refl, refl)
check-quiet timeout now armed none = (refl, refl, refl, refl)
check-quiet timeout now armed (some t) = elim (Bool-cases (ltb timeout (now - t))) [
  | inl late ↦ rw late (refl, refl, refl, refl)
  | inr early ↦ rw early (refl, refl, refl, refl)
]

check-fed :
    (timeout now : ℕ) (alarms : List Alarm)
    → react (armed, fresh timeout (some now) now alarms) check
      ≡ (armed, fresh timeout (some now) now alarms)
unfolding react
check-fed timeout now alarms =
    let no_silence : ltb timeout (now - now) ≡ false = ground arith in rw no_silence

cycle-Leaves :
    (timeout now : ℕ) (s : State) (last : Option ℕ) (fs : List Feed)
    → Leaves timeout
        (react (react_feeds (s, fresh timeout last now []) fs) check)
        (by_feeds timeout (record { state = s; last_feed_ns = last }) now fs)
unfolding react_feeds
cycle-Leaves timeout now s last [] = check-quiet timeout now s last
cycle-Leaves timeout now s last (f ∷ fs) =
    let ends : react (react_feeds (s, fresh timeout last now []) (f ∷ fs)) check
        ≡ (armed, fresh timeout (some now) now (news s)) =
      ap (λ p. react (react_feeds p fs) check) (first_feed timeout now s last)
      ∙ ap (λ p. react p check) (react_feeds-armed timeout now (news s) fs)
      ∙ check-fed timeout now (news s) in
    subst
      (λ p.
        Leaves timeout p
          (by_feeds timeout (record { state = s; last_feed_ns = last }) now (f ∷ fs)))
      (sym ends) (refl, refl, refl, refl)

module _ (gate : Gate) where
  abbrev inner : WatchdogMachine gate → Inner
  inner m = (gate.state m.sm, m.ctx)

  abbrev pub view : WatchdogMachine gate → View
  view m = record { state = gate.state m.sm; last_feed_ns = m.ctx.store.last_feed_ns }

  inner-dispatch :
      (m : WatchdogMachine gate) (e : WatchdogEvent) → inner (dispatch gate m e) ≡ react (inner m) e
  unfolding dispatch react
  inner-dispatch m e = λ i. (gate.state-handle m.sm e m.ctx i, gate.context-handle m.sm e m.ctx i)

  inner-feed_each :
      (m : WatchdogMachine gate) (fs : List Feed)
      → inner (feed_each gate m fs) ≡ react_feeds (inner m) fs
  unfolding feed_each react_feeds
  inner-feed_each m [] = refl
  inner-feed_each m (f ∷ fs) =
      inner-feed_each (dispatch gate m feed) fs ∙ ap (λ p. react_feeds p fs) (inner-dispatch m feed)

  -- The machine after the events of a cycle and its check, before the alarms are drained.
  abbrev checked : WatchdogMachine gate → Cycle Feed → WatchdogMachine gate
  checked m c =
      dispatch gate
        (feed_each gate (record m { ctx = record (m.ctx) { now_ns = c.now_ns } }) c.events) check

  inner-checked :
      (m : WatchdogMachine gate) (c : Cycle Feed)
      → m.ctx.emitted ≡ []
      → inner (checked m c)
        ≡ react
            (react_feeds
              (gate.state m.sm, fresh m.ctx.store.timeout_ns m.ctx.store.last_feed_ns c.now_ns [])
              c.events)
            check
  inner-checked m c drained =
      inner-dispatch
        (feed_each gate (record m { ctx = record (m.ctx) { now_ns = c.now_ns } }) c.events) check
      ∙ ap (λ p. react p check)
          (inner-feed_each (record m { ctx = record (m.ctx) { now_ns = c.now_ns } }) c.events)
      ∙ ap
          (λ l.
            react
              (react_feeds
                (gate.state m.sm, fresh m.ctx.store.timeout_ns m.ctx.store.last_feed_ns c.now_ns l)
                c.events)
              check)
          drained

  -- What stays true of a machine between its steps: no alarm waits to be drained.
  abbrev pub IsDrained : WatchdogMachine gate → Type 0
  IsDrained m = m.ctx.emitted ≡ []

  run-message :
      (m : WatchdogMachine gate) (c : Cycle Feed)
      → let d = checked m c in
        ((run_step_all (watchdog gate) m (message c)).0
          ≡ record d { ctx = record (d.ctx) { emitted = [] } })
        × ((run_step_all (watchdog gate) m (message c)).1 ≡ d.ctx.emitted)
  unfolding run_step_all step message? empty
  run-message m c = (refl, (take-emit_all empty (checked m c).ctx.emitted).0)

  -- For every machine with nothing left to drain and every cycle, one step on the cycle moves the
  -- view of the machine (its state and the time of the latest feed) as the specification says, puts
  -- out exactly the alarms of the specification, in order, keeps the timeout, and leaves nothing to
  -- drain.
  pub step-cycle_spec :
      (m : WatchdogMachine gate) (c : Cycle Feed)
      → IsDrained m
      → let (m', outs) = run_step_all (watchdog gate) m (message c) in
        let (v, alarms) = cycle_spec m.ctx.store.timeout_ns (view m) c in
        (view m' ≡ v)
        × (outs ≡ alarms)
        × (m'.ctx.store.timeout_ns ≡ m.ctx.store.timeout_ns)
        × IsDrained m'
  step-cycle_spec m c drained =
      let (same, outs) = run-message m c in
      let timeout = m.ctx.store.timeout_ns in
      let (state, last, kept, alarms) =
        subst (λ p. Leaves timeout p (cycle_spec timeout (view m) c))
          (sym (inner-checked m c drained))
          (cycle-Leaves timeout c.now_ns (gate.state m.sm) m.ctx.store.last_feed_ns c.events) in
      (
        ap view same ∙ λ i. record { state = state i; last_feed_ns = last i },
        outs ∙ alarms,
        ap (λ q. q.ctx.store.timeout_ns) same ∙ kept,
        ap (λ q. q.ctx.emitted) same,
      )

  step-tick : (m : WatchdogMachine gate) (t : ℕ) → run_step_all (watchdog gate) m (tick t) ≡ (m, [])
  unfolding run_step_all step message? take empty
  step-tick m t = refl
