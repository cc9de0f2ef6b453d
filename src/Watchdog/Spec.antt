-- ===== src/Watchdog/Spec.antt =====
-- examples/watchdog/SPEC.md: what one cycle of the watchdog does, said without dispatch or buffers.
use msrs.Shared.{ℕ, ◌-◌, Option, none, some, List, [], ◌∷◌, ltb, if◌then◌else◌}
use msrs.Tasks.{Cycle}
use msrs.Watchdog.{
  Feed, Alarm, armed_alarm, tripped_alarm, recovered_alarm, State, idle, armed, tripped,
}

-- The state of the diagram, and the time of the latest feed.
pub record View : Type 0 where
  pub state : State
  pub last_feed_ns : Option ℕ

-- A cycle with feeds ends armed, whatever the state was, and says so where that is news.
abbrev pub news : State → List Alarm
news idle = armed_alarm ∷ []
news armed = []
news tripped = recovered_alarm ∷ []

-- A cycle without feeds changes something only in `armed`, when the silence has lasted too long.
abbrev pub quiet : ℕ → View → ℕ → View × List Alarm
quiet timeout v now = elim v.state [
  | armed ↦ elim v.last_feed_ns [
    | some t ↦
        if ltb timeout (now - t)
        then (record v { state = tripped }, tripped_alarm (now - t) ∷ [])
        else (v, [])
    | none ↦ (v, [])
  ]
  | _ ↦ (v, [])
]

abbrev pub by_feeds : ℕ → View → ℕ → List Feed → View × List Alarm
by_feeds timeout v now [] = quiet timeout v now
by_feeds timeout v now (f ∷ fs) = (record { state = armed; last_feed_ns = some now }, news v.state)

abbrev pub cycle_spec : ℕ → View → Cycle Feed → View × List Alarm
cycle_spec timeout v c = by_feeds timeout v c.now_ns c.events
