-- ===== src/Watchdog/Runs/History.antt =====
-- examples/watchdog/SPEC.md, the diagram: the alarms of a run, in the order they can have.
use msrs.Shared.{
  ℕ, ◌-◌, sym, subst₂, Option, none, some, List, [], ◌∷◌, ◌++◌, ltb, Bool-cases, inl, inr,
}
use msrs.Tasks.{Cycle}
use msrs.Watchdog.{
  Feed, Alarm, armed_alarm, tripped_alarm, recovered_alarm, State, idle, armed, tripped, Gate,
  default, timeout_ns,
}
use msrs.Watchdog.Spec.{View, news, quiet, by_feeds, cycle_spec}
use msrs.Watchdog.Refines.{view}
use msrs.Watchdog.Runs.{run, spec_run, at_rest, run-spec_run}

-- The alarms on the way from one state of the diagram to another.
pub data IsHistory : State → List Alarm → State → Type 0 where
  stays : {s : State} → IsHistory s [] s
  arms : {l : List Alarm} {s : State} → IsHistory armed l s → IsHistory idle (armed_alarm ∷ l) s
  trips :
      {l : List Alarm} {s : State} (silent : ℕ)
      → IsHistory tripped l s
      → IsHistory armed (tripped_alarm silent ∷ l) s
  recovers :
      {l : List Alarm} {s : State} → IsHistory armed l s → IsHistory tripped (recovered_alarm ∷ l) s

IsHistory-append :
    {s t u : State} {l k : List Alarm} → IsHistory s l t → IsHistory t k u → IsHistory s (l ++ k) u
IsHistory-append stays h = h
IsHistory-append (arms g) h = arms (IsHistory-append g h)
IsHistory-append (trips n g) h = trips n (IsHistory-append g h)
IsHistory-append (recovers g) h = recovers (IsHistory-append g h)

abbrev FollowsDiagram : State → View × List Alarm → Type 0
FollowsDiagram s (v, alarms) = IsHistory s alarms v.state

quiet-FollowsDiagram :
    (timeout now : ℕ) (s : State) (last : Option ℕ)
    → FollowsDiagram s (quiet timeout (record { state = s; last_feed_ns = last }) now)
quiet-FollowsDiagram timeout now idle last = stays
quiet-FollowsDiagram timeout now tripped last = stays
quiet-FollowsDiagram timeout now armed none = stays
quiet-FollowsDiagram timeout now armed (some t) = elim (Bool-cases (ltb timeout (now - t))) [
  | inl late ↦ rw late (trips (now - t) stays)
  | inr early ↦ rw early stays
]

news-IsHistory : (s : State) → IsHistory s (news s) armed
news-IsHistory idle = arms stays
news-IsHistory armed = stays
news-IsHistory tripped = recovers stays

cycle-FollowsDiagram :
    (timeout now : ℕ) (v : View) (fs : List Feed)
    → FollowsDiagram v.state (by_feeds timeout v now fs)
cycle-FollowsDiagram timeout now v [] = quiet-FollowsDiagram timeout now v.state v.last_feed_ns
cycle-FollowsDiagram timeout now v (f ∷ fs) = news-IsHistory v.state

spec_run-FollowsDiagram :
    (timeout : ℕ) (v : View) (cs : List (Cycle Feed))
    → FollowsDiagram v.state (spec_run timeout v cs)
spec_run-FollowsDiagram timeout v [] = stays
spec_run-FollowsDiagram timeout v (c ∷ cs) =
    IsHistory-append (cycle-FollowsDiagram timeout c.now_ns v c.events)
      (spec_run-FollowsDiagram timeout (cycle_spec timeout v c).0 cs)

-- The alarms that a fresh machine puts out over any cycles start with Armed and then alternate
-- between Tripped and Recovered, and the state that the machine ends in is the one where the last of
-- them leads.
pub run-IsHistory :
    (gate : Gate) (cs : List (Cycle Feed))
    → let (m, alarms) = run gate (default gate) cs in IsHistory idle alarms (view gate m).state
run-IsHistory gate cs =
    let (viewed, alarms) = run-spec_run gate cs in
    subst₂ (λ v l. IsHistory idle l v.state) (sym viewed) (sym alarms)
      (spec_run-FollowsDiagram timeout_ns at_rest cs)
