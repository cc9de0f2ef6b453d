-- ===== src/Watchdog/Runs/Silence.antt =====
-- examples/watchdog/SPEC.md, the timing: a silence that lasts trips the watchdog once.
use msrs.Shared.{
  ℕ, ◌+◌, ◌-◌, ◌<◌, ◌≡◌, refl, sym, ap, ◌∙◌, subst, subst₂, none, some, List, [], ◌∷◌, ◌++◌, ltb,
  ltb→lt, lt→ltb, Bool-cases, inl, inr, true, false, All, arith,
}
use msrs.Tasks.{Cycle}
use msrs.Watchdog.{Feed, Alarm, tripped_alarm, armed, tripped, Gate, default, timeout_ns}
use msrs.Watchdog.Spec.{View, by_feeds}
use msrs.Watchdog.Refines.{view}
use msrs.Watchdog.Runs.{run, spec_run, at_rest, Shows, run-Shows, default-Shows}
use msrs.Watchdog.Runs.Deadline.{latest_feed, quiet_late, quiet_early, spec_run-last}

-- Some cycle comes later than the limit.
pub data SomeLate (limit : ℕ) : List (Cycle Feed) → Type 0 where
  this : {cs : List (Cycle Feed)} (c : Cycle Feed) → limit < c.now_ns → SomeLate limit (c ∷ cs)
  later : {cs : List (Cycle Feed)} (c : Cycle Feed) → SomeLate limit cs → SomeLate limit (c ∷ cs)

abbrev pub AreUnfed : List (Cycle Feed) → Type 0
AreUnfed = All (λ c. c.events ≡ [])

-- One alarm, of a silence longer than the timeout, and the state after it.
abbrev pub TripsOnce : ℕ → View × List Alarm → Type 0
TripsOnce timeout (v, alarms) =
    (v.state ≡ tripped) × (n : ℕ) × (timeout < n) × (alarms ≡ tripped_alarm n ∷ [])

tripped-unfed :
    (timeout t : ℕ) (cs : List (Cycle Feed))
    → AreUnfed cs
    → spec_run timeout (record { state = tripped; last_feed_ns = some t }) cs
      ≡ (record { state = tripped; last_feed_ns = some t }, [])
tripped-unfed timeout t [] h = refl
tripped-unfed timeout t (c ∷ cs) (unfed, h) = rw unfed (tripped-unfed timeout t cs h)

-- The rest of a run after its first cycle.
abbrev then_run : ℕ → List (Cycle Feed) → View × List Alarm → View × List Alarm
then_run timeout cs (v, alarms) = let (v', rest) = spec_run timeout v cs in (v', alarms ++ rest)

armed-late :
    (timeout t : ℕ) (c : Cycle Feed) (cs : List (Cycle Feed))
    → c.events ≡ []
    → AreUnfed cs
    → ltb timeout (c.now_ns - t) ≡ true
    → spec_run timeout (record { state = armed; last_feed_ns = some t }) (c ∷ cs)
      ≡ (record { state = tripped; last_feed_ns = some t }, tripped_alarm (c.now_ns - t) ∷ [])
armed-late timeout t c cs unfed h late =
    ap
      (λ fs.
        then_run timeout cs
          (by_feeds timeout (record { state = armed; last_feed_ns = some t }) c.now_ns fs))
      unfed
    ∙ ap (then_run timeout cs) (quiet_late timeout t c.now_ns late)
    ∙ ap (λ r. (r.0, tripped_alarm (c.now_ns - t) ∷ r.1)) (tripped-unfed timeout t cs h)

armed-early :
    (timeout t : ℕ) (c : Cycle Feed) (cs : List (Cycle Feed))
    → c.events ≡ []
    → ltb timeout (c.now_ns - t) ≡ false
    → spec_run timeout (record { state = armed; last_feed_ns = some t }) (c ∷ cs)
      ≡ spec_run timeout (record { state = armed; last_feed_ns = some t }) cs
armed-early timeout t c cs unfed early =
    ap
      (λ fs.
        then_run timeout cs
          (by_feeds timeout (record { state = armed; last_feed_ns = some t }) c.now_ns fs))
      unfed
    ∙ ap (then_run timeout cs) (quiet_early timeout t c.now_ns early)

not-late :
    (timeout t : ℕ) (c : Cycle Feed) (cs : List (Cycle Feed))
    → ltb timeout (c.now_ns - t) ≡ false
    → SomeLate (t + timeout) (c ∷ cs)
    → SomeLate (t + timeout) cs
not-late timeout t c cs early (this _ late) =
    absurd (ground (arith, lt→ltb timeout (c.now_ns - t) (omega arith)))
not-late timeout t c cs early (later _ h) = h

armed-unfed :
    (timeout t : ℕ) (cs : List (Cycle Feed))
    → AreUnfed cs
    → SomeLate (t + timeout) cs
    → TripsOnce timeout (spec_run timeout (record { state = armed; last_feed_ns = some t }) cs)
armed-unfed timeout t [] h some_late = elim some_late [ ]
armed-unfed timeout t (c ∷ cs) (unfed, h) some_late =
    elim (Bool-cases (ltb timeout (c.now_ns - t))) [
      | inl late ↦
          subst (TripsOnce timeout) (sym (armed-late timeout t c cs unfed h late))
            (refl, c.now_ns - t, ltb→lt timeout (c.now_ns - t) late, refl)
      | inr early ↦
          subst (TripsOnce timeout) (sym (armed-early timeout t c cs unfed early))
            (armed-unfed timeout t cs h (not-late timeout t c cs early some_late))
    ]

module _ (gate : Gate) where
  -- An armed machine that has been fed at t (after any cycles from a fresh machine), and then sees
  -- only cycles without feeds, one of them later than t plus the timeout, puts out exactly one alarm
  -- in those cycles, a trip with a silence longer than the timeout, and ends tripped.
  pub silence-trips :
      (cs unfed : List (Cycle Feed)) (t : ℕ)
      → (view gate (run gate (default gate) cs).0).state ≡ armed
      → latest_feed none cs ≡ some t
      → AreUnfed unfed
      → SomeLate (t + timeout_ns) unfed
      → let (m, alarms) = run gate (run gate (default gate) cs).0 unfed in
        TripsOnce timeout_ns (view gate m, alarms)
  silence-trips cs unfed t at_armed fed h some_late =
      let (shows, before) =
        run-Shows gate (default gate) timeout_ns at_rest cs (default-Shows gate) in
      let m = (run gate (default gate) cs).0 in
      let last : m.ctx.store.last_feed_ns ≡ some t =
        ap (λ v. v.last_feed_ns) shows.viewed ∙ spec_run-last timeout_ns at_rest cs ∙ fed in
      let now_shows : Shows gate m timeout_ns (record { state = armed; last_feed_ns = some t }) =
        record {
          viewed = λ i. record { state = at_armed i; last_feed_ns = last i };
          timed = shows.timed;
          drained = shows.drained;
        } in
      let (after, alarms) =
        run-Shows gate m timeout_ns (record { state = armed; last_feed_ns = some t }) unfed
          now_shows in
      subst₂ (λ v l. TripsOnce timeout_ns (v, l)) (sym after.viewed) (sym alarms)
        (armed-unfed timeout_ns t unfed h some_late)
