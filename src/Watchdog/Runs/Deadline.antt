-- ===== src/Watchdog/Runs/Deadline.antt =====
-- examples/watchdog/SPEC.md, the store and the timing: when the watchdog trips.
use msrs.Shared.{
  ℕ, ◌-◌, ◌<◌, ◌≡◌, refl, sym, ap, ap₂, ◌∙◌, ◌↔◌, Option, none, some, List, [], ◌∷◌, ltb, ltb→lt,
  lt→ltb, Bool-cases, inl, inr, true, false, arith,
}
use msrs.Trigger.{message}
use msrs.Fsm.{run_step_all}
use msrs.Tasks.{Cycle}
use msrs.Watchdog.{
  Feed, Alarm, tripped_alarm, State, idle, armed, tripped, Gate, default, timeout_ns, watchdog,
}
use msrs.Watchdog.Spec.{View, quiet, by_feeds, cycle_spec}
use msrs.Watchdog.Refines.{view, step-cycle_spec}
use msrs.Watchdog.Runs.{run, spec_run, at_rest, run-Shows, default-Shows}

-- The time of the latest cycle that had a feed.
abbrev fed_at : Option ℕ → ℕ → List Feed → Option ℕ
fed_at last now [] = last
fed_at last now (f ∷ fs) = some now

abbrev pub latest_feed : Option ℕ → List (Cycle Feed) → Option ℕ
latest_feed last [] = last
latest_feed last (c ∷ cs) = latest_feed (fed_at last c.now_ns c.events) cs

quiet-last :
    (timeout now : ℕ) (s : State) (last : Option ℕ)
    → (quiet timeout (record { state = s; last_feed_ns = last }) now).0.last_feed_ns ≡ last
quiet-last timeout now idle last = refl
quiet-last timeout now tripped last = refl
quiet-last timeout now armed none = refl
quiet-last timeout now armed (some t) = elim (Bool-cases (ltb timeout (now - t))) [
  | inl late ↦ rw late
  | inr early ↦ rw early
]

by_feeds-last :
    (timeout now : ℕ) (v : View) (fs : List Feed)
    → (by_feeds timeout v now fs).0.last_feed_ns ≡ fed_at v.last_feed_ns now fs
by_feeds-last timeout now v [] = quiet-last timeout now v.state v.last_feed_ns
by_feeds-last timeout now v (f ∷ fs) = refl

pub spec_run-last :
    (timeout : ℕ) (v : View) (cs : List (Cycle Feed))
    → (spec_run timeout v cs).0.last_feed_ns ≡ latest_feed v.last_feed_ns cs
spec_run-last timeout v [] = refl
spec_run-last timeout v (c ∷ cs) =
    spec_run-last timeout (cycle_spec timeout v c).0 cs
    ∙ ap (λ l. latest_feed l cs) (by_feeds-last timeout c.now_ns v c.events)

-- A cycle that trips: armed, no feed, and a silence of n that is longer than the timeout.
pub record Trips (timeout : ℕ) (s : State) (last : Option ℕ) (now : ℕ) (fs : List Feed) (n : ℕ)
    : Type 0 where
  pub was_armed : s ≡ armed
  pub unfed : fs ≡ []
  pub since : ℕ
  pub fed : last ≡ some since
  pub silence : n ≡ now - since
  pub too_long : timeout < n

-- The one branch of the deadline check.
pub quiet_late :
    (timeout t now : ℕ)
    → ltb timeout (now - t) ≡ true
    → quiet timeout (record { state = armed; last_feed_ns = some t }) now
      ≡ (record { state = tripped; last_feed_ns = some t }, tripped_alarm (now - t) ∷ [])
quiet_late timeout t now h = rw (h, quiet)

pub quiet_early :
    (timeout t now : ℕ)
    → ltb timeout (now - t) ≡ false
    → quiet timeout (record { state = armed; last_feed_ns = some t }) now
      ≡ (record { state = armed; last_feed_ns = some t }, [])
quiet_early timeout t now h = rw (h, quiet)

abbrev alarms_of : ℕ → State → Option ℕ → ℕ → List Feed → List Alarm
alarms_of timeout s last now fs =
    (by_feeds timeout (record { state = s; last_feed_ns = last }) now fs).1

Trips-out :
    (timeout : ℕ) (s : State) (last : Option ℕ) (now : ℕ) (fs : List Feed) (n : ℕ)
    → alarms_of timeout s last now fs ≡ tripped_alarm n ∷ []
    → Trips timeout s last now fs n
Trips-out timeout idle last now (f ∷ fs) n h = cc
Trips-out timeout armed last now (f ∷ fs) n h = cc
Trips-out timeout tripped last now (f ∷ fs) n h = cc
Trips-out timeout idle last now [] n h = cc
Trips-out timeout tripped last now [] n h = cc
Trips-out timeout armed none now [] n h = cc
Trips-out timeout armed (some t) now [] n h = elim (Bool-cases (ltb timeout (now - t))) [
  | inl late ↦
      let h' : tripped_alarm (now - t) ∷ [] ≡ tripped_alarm n ∷ [] =
        ap (λ r. r.1) (sym (quiet_late timeout t now late)) ∙ h in
      let silence : n ≡ now - t = ground arith in
      record {
        was_armed = refl;
        unfed = refl;
        since = t;
        fed = refl;
        silence = silence;
        too_long = omega (arith, ltb→lt timeout (now - t) late);
      }
  | inr early ↦
      let h' : [] ≡ tripped_alarm n ∷ [] =
        ap (λ r. r.1) (sym (quiet_early timeout t now early)) ∙ h in
      cc
]

Trips-in :
    (timeout : ℕ) (s : State) (last : Option ℕ) (now : ℕ) (fs : List Feed) (n : ℕ)
    → Trips timeout s last now fs n
    → alarms_of timeout s last now fs ≡ tripped_alarm n ∷ []
Trips-in timeout idle last now fs n h = cc h.was_armed
Trips-in timeout tripped last now fs n h = cc h.was_armed
Trips-in timeout armed last now (f ∷ fs) n h = cc h.unfed
Trips-in timeout armed none now [] n h = cc h.fed
Trips-in timeout armed (some t) now [] n h =
    let same : t ≡ h.since = ground arith in
    let late : ltb timeout (now - t) ≡ true =
      lt→ltb timeout (now - t) (omega (arith, h.too_long, h.silence)) in
    ap (λ r. r.1) (quiet_late timeout t now late)
    ∙ ap (λ k. tripped_alarm k ∷ []) (omega (arith, h.silence))

module _ (gate : Gate) where
  -- After any cycles from a fresh machine, the next cycle's output is the one alarm
  -- `Tripped { silent_ns: n }` exactly when the machine is armed, the cycle has no feed, and n, the
  -- time from the latest cycle with a feed to this one, is longer than the timeout of 50 ms.
  pub Trips-iff :
      (cs : List (Cycle Feed)) (c : Cycle Feed) (n : ℕ)
      → let (m, alarms) = run gate (default gate) cs in
        ((run_step_all (watchdog gate) m (message c)).1 ≡ tripped_alarm n ∷ [])
        ↔ Trips timeout_ns (view gate m).state (latest_feed none cs) c.now_ns c.events n
  Trips-iff cs c n =
      let (shows, alarms) =
        run-Shows gate (default gate) timeout_ns at_rest cs (default-Shows gate) in
      let m = (run gate (default gate) cs).0 in
      let s = (view gate m).state in
      let (viewed, outs, timed, drained) = step-cycle_spec gate m c shows.drained in
      let last : m.ctx.store.last_feed_ns ≡ latest_feed none cs =
        ap (λ v. v.last_feed_ns) shows.viewed ∙ spec_run-last timeout_ns at_rest cs in
      let spec = outs ∙ ap₂ (λ t l. alarms_of t s l c.now_ns c.events) shows.timed last in
      (
        λ h. Trips-out timeout_ns s (latest_feed none cs) c.now_ns c.events n (sym spec ∙ h),
        λ h. spec ∙ Trips-in timeout_ns s (latest_feed none cs) c.now_ns c.events n h,
      )
