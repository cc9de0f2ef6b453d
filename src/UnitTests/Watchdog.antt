-- ===== src/UnitTests/Watchdog.antt =====
-- examples/watchdog/src/watchdog.rs: its unit tests.
use msrs.Shared.{ℕ, zero, suc, ◌+◌, ◌*◌, ◌≡◌, refl, not, List, [], ◌∷◌, ◌++◌, returns, is_nil}
use msrs.Shared.Checks.{◌>>◌}
use msrs.Trigger.{message}
use msrs.Fsm.{run_step_all}
use msrs.Tasks.{Cycle}
use msrs.Watchdog.{
  Feed, Alarm, armed_alarm, tripped_alarm, recovered_alarm, timeout_ns, WatchdogStore, new_store,
  record_feed, silent_ns, expired, idle, handler, Gate, WatchdogMachine, default, watchdog,
  state_name,
}
use msrs.Watchdog.Main.{same_alarms}
use msrs.UnitTests.Assert.{Test, assert_eq, assert_that, same_nat, same_text}
use msrs.Examples.Plain.{plain_statig}

abbrev gate : Gate
gate = plain_statig idle handler

-- `(0..feeds).map(Feed)`.
abbrev feeds_below : ℕ → List Feed
feeds_below zero = []
feeds_below (suc n) = feeds_below n ++ record { sequence = n } ∷ []

abbrev cycle : ℕ → ℕ → Cycle Feed
cycle now_ns feeds = record { now_ns = now_ns; events = feeds_below feeds; pending = 0 }

abbrev step : WatchdogMachine gate → ℕ → ℕ → WatchdogMachine gate × List Alarm
step m now_ns feeds = run_step_all (watchdog gate) m (message (cycle now_ns feeds))

store_expires_only_after_timeout : Test
unfolding new_store record_feed silent_ns expired
store_expires_only_after_timeout = do
  let s = new_store 10
  assert_that (not (expired s 1_000))
  let fed = record_feed s 100
  assert_that (not (expired fed 110))
  assert_that (expired fed 111)
  assert_eq same_nat (silent_ns fed 111) 11

store_expires_only_after_timeout_passes : store_expires_only_after_timeout ≡ returns tt
unfolding store_expires_only_after_timeout
store_expires_only_after_timeout_passes = refl

idle_ignores_check : Test
idle_ignores_check = do
  let m = default gate
  assert_eq same_text (state_name gate m) "Idle"
  let (m', outs) = step m (10 * timeout_ns) 0
  assert_that (is_nil outs)
  assert_eq same_text (state_name gate m') "Idle"

idle_ignores_check_passes : idle_ignores_check ≡ returns tt
unfolding idle_ignores_check run_step_all msrs.Watchdog.step msrs.Trigger.message? msrs.Effects.take
    msrs.Effects.empty msrs.Effects.emit_all handler default state_name same_alarms
idle_ignores_check_passes = refl

idle_arms_on_feed : Test
idle_arms_on_feed = do
  let (m, outs) = step (default gate) 0 1
  assert_eq same_alarms outs (armed_alarm ∷ [])
  assert_eq same_text (state_name gate m) "Armed"

idle_arms_on_feed_passes : idle_arms_on_feed ≡ returns tt
unfolding idle_arms_on_feed run_step_all msrs.Watchdog.step msrs.Trigger.message? msrs.Effects.take
    msrs.Effects.empty msrs.Effects.emit_all handler default state_name same_alarms
idle_arms_on_feed_passes = refl

armed_stays_armed_on_feed_and_within_timeout : Test
armed_stays_armed_on_feed_and_within_timeout = do
  let (m, first) = step (default gate) 0 1
  let (m1, at_timeout) = step m timeout_ns 0
  assert_that (is_nil at_timeout)
  let (m2, fed) = step m1 (timeout_ns + 1) 3
  assert_that (is_nil fed)
  let (m3, later) = step m2 (2 * timeout_ns + 1) 0
  assert_that (is_nil later)
  assert_eq same_text (state_name gate m3) "Armed"

armed_stays_armed_passes : armed_stays_armed_on_feed_and_within_timeout ≡ returns tt
unfolding armed_stays_armed_on_feed_and_within_timeout run_step_all msrs.Watchdog.step
    msrs.Trigger.message? msrs.Effects.take msrs.Effects.empty msrs.Effects.emit_all handler default
    state_name same_alarms
armed_stays_armed_passes = refl

armed_trips_after_timeout : Test
armed_trips_after_timeout = do
  let (m, first) = step (default gate) 0 1
  let (m', outs) = step m (timeout_ns + 1) 0
  assert_eq same_alarms outs (tripped_alarm (timeout_ns + 1) ∷ [])
  assert_eq same_text (state_name gate m') "Tripped"

armed_trips_after_timeout_passes : armed_trips_after_timeout ≡ returns tt
unfolding armed_trips_after_timeout run_step_all msrs.Watchdog.step msrs.Trigger.message?
    msrs.Effects.take msrs.Effects.empty msrs.Effects.emit_all handler default state_name
    same_alarms
armed_trips_after_timeout_passes = refl

tripped_recovers_on_feed : Test
tripped_recovers_on_feed = do
  let (m, first) = step (default gate) 0 1
  let (m1, tripped) = step m (timeout_ns + 1) 0
  let (m2, checked) = step m1 (3 * timeout_ns) 0
  assert_that (is_nil checked)
  let (m3, fed) = step m2 (3 * timeout_ns) 1
  assert_eq same_alarms fed (recovered_alarm ∷ [])
  assert_eq same_text (state_name gate m3) "Armed"

tripped_recovers_on_feed_passes : tripped_recovers_on_feed ≡ returns tt
unfolding tripped_recovers_on_feed run_step_all msrs.Watchdog.step msrs.Trigger.message?
    msrs.Effects.take msrs.Effects.empty msrs.Effects.emit_all handler default state_name
    same_alarms
tripped_recovers_on_feed_passes = refl

feeds_in_a_cycle_are_dispatched_before_its_check : Test
feeds_in_a_cycle_are_dispatched_before_its_check =
    assert_eq same_alarms (step (default gate) 5 2).1 (armed_alarm ∷ [])

feeds_in_a_cycle_passes : feeds_in_a_cycle_are_dispatched_before_its_check ≡ returns tt
unfolding feeds_in_a_cycle_are_dispatched_before_its_check run_step_all msrs.Watchdog.step
    msrs.Trigger.message? msrs.Effects.take msrs.Effects.empty msrs.Effects.emit_all handler default
    state_name same_alarms
feeds_in_a_cycle_passes = refl
