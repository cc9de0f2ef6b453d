-- ===== src/Examples/WatchdogThreads.antt =====
-- The theorems on the interleavings of the watchdog service, on a schedule that is run.
use msrs.Shared.{
  none, ◌⊎◌, ℕ, suc, ◌≡◌, refl, ◌≢◌, some, List, [], ◌∷◌, ◌++◌, String, ok, err, length, returns,
  panics, to_decimal, arith,
}
use msrs.Copper.{CuResult}
use msrs.Channel.Queue.{Queue, queue}
use msrs.Fsm.Batch.{Batch}
use msrs.Replay.Log.{unexpected_end, end_of}
use msrs.Tasks.{Cycle}
use msrs.Watchdog.{Feed, Alarm, armed_alarm, tripped_alarm}
use msrs.Watchdog.Service.{Step as Recording, Turn, read_recorded}
use msrs.Watchdog.Main.{main, recovered_line, control_line}
use msrs.Watchdog.Threads.{
  ended, came_back, panicked, System, start, Reach, at_start, later, forwards, iterates, stops,
  joins,
}
use msrs.Watchdog.Threads.Outcome.{stop_text, Reach-failures, came_back-decides}
use msrs.Examples.Log.{Holds-all}
use msrs.Examples.Plain.{plain_msg, counting}
use msrs.Examples.WatchdogService.{a_gate, feed_of, enc, turn_at, log_holding}

abbrev Watched : Type 0
Watched =
    System a_gate (queue Feed) (queue Alarm) (queue Alarm) counting (plain_msg (Cycle Feed))
      (plain_msg (Batch Alarm))

abbrev Reaches : CuResult (Unit {0}) → Watched → Type 0
Reaches stopped =
    Reach a_gate (queue Feed) (queue Alarm) (queue Alarm) counting (plain_msg (Cycle Feed))
      (plain_msg (Batch Alarm)) 2 stopped

-- By what `stop_all_tasks` answers.
record Run (stopped : CuResult (Unit {0})) : Type 0 where
  last : Watched
  reach : Reaches stopped last

data Move : Type 0 where
  forward stop join : Move
  iterate : Turn (queue Feed) counting (plain_msg (Cycle Feed)) (plain_msg (Batch Alarm)) → Move

follow : {stopped : CuResult (Unit {0})} → Run stopped → List Move → Run stopped
follow r [] = r
follow r (forward ∷ moves) = follow (record { last = _; reach = later r.reach forwards }) moves
follow r (iterate t ∷ moves) =
    follow (record { last = _; reach = later r.reach (iterates t) }) moves
follow r (stop ∷ moves) = follow (record { last = _; reach = later r.reach stops }) moves
follow r (join ∷ moves) = follow (record { last = _; reach = later r.reach joins }) moves

-- A feed arrives before the first call of the iteration.
abbrev arriving : ℕ → Queue Feed → Queue Feed
arriving ℕ.zero q = record q { items = q.items ++ feed_of 0 ∷ [] }
arriving (suc n) q = q

-- Fed, and then silent; the transport is late, and `run_live` waits for it.
abbrev fed_once : Run (ok tt)
fed_once =
    follow (record { last = _; reach = at_start })
      (iterate (record (turn_at 10) { env = arriving })
        ∷ forward
        ∷ iterate (turn_at 60_000_010)
        ∷ stop
        ∷ join
        ∷ forward
        ∷ forward
        ∷ forward
        ∷ join
        ∷ [])

-- The tasks cannot be stopped, and the transport then finds the receiver of the alarms gone.
abbrev not_stopped : Run (err "busy")
not_stopped =
    follow (record { last = _; reach = at_start })
      (iterate (record (turn_at 10) { env = arriving }) ∷ stop ∷ forward ∷ [])

Reach-failures_example :
    (not_stopped.last.main ≢ panicked "no feed")
      × (not_stopped.last.forwarder ≢ ended (err "closed"))
    ⊎ (e : String) × (◌≡◌ {A = CuResult (Unit {0})} (err "busy") (err e))
      × (not_stopped.last.main ≡ panicked (stop_text e))
Reach-failures_example =
    Reach-failures a_gate (queue Feed) (queue Alarm) (queue Alarm) counting (plain_msg (Cycle Feed))
      (plain_msg (Batch Alarm)) 2 (err "busy") "no feed" "closed" not_stopped.reach

not_stopped-main : not_stopped.last.main ≡ panicked "stop_all_tasks failed: busy"
unfolding follow msrs.Watchdog.Threads.join_at msrs.Watchdog.Threads.forwarder_step
    msrs.Watchdog.Threads.stop_at msrs.Watchdog.Threads.iterate_at start msrs.Fsm.Batch.process
    msrs.Effects.take msrs.Watchdog.step msrs.Trigger.message? msrs.Fsm.Adapter.trigger_for
    msrs.Tasks.CycleIngress.process msrs.Effects.emit_all msrs.Watchdog.handler
    msrs.Channel.Drain.drain msrs.Watchdog.default msrs.Effects.empty
    msrs.Tasks.Egress.process_batch msrs.Tasks.egress_step msrs.Watchdog.Service.run_one_iteration
not_stopped-main = refl

fed_once-main : fed_once.last.main ≡ came_back (armed_alarm ∷ tripped_alarm 60_000_000 ∷ [])
unfolding follow msrs.Watchdog.Threads.join_at msrs.Watchdog.Threads.forwarder_step
    msrs.Watchdog.Threads.stop_at msrs.Watchdog.Threads.iterate_at start msrs.Fsm.Batch.process
    msrs.Effects.take msrs.Watchdog.step msrs.Trigger.message? msrs.Fsm.Adapter.trigger_for
    msrs.Tasks.CycleIngress.process msrs.Effects.emit_all msrs.Watchdog.handler
    msrs.Channel.Drain.drain msrs.Watchdog.default msrs.Effects.empty
    msrs.Tasks.Egress.process_batch msrs.Tasks.egress_step msrs.Watchdog.Service.run_one_iteration
fed_once-main = refl

length-log : length fed_once.last.log ≡ 2
unfolding follow msrs.Watchdog.Threads.join_at msrs.Watchdog.Threads.forwarder_step
    msrs.Watchdog.Threads.stop_at msrs.Watchdog.Threads.iterate_at start msrs.Fsm.Batch.process
    msrs.Effects.take msrs.Watchdog.step msrs.Trigger.message? msrs.Fsm.Adapter.trigger_for
    msrs.Tasks.CycleIngress.process msrs.Effects.emit_all msrs.Watchdog.handler
    msrs.Channel.Drain.drain msrs.Watchdog.default msrs.Effects.empty
    msrs.Tasks.Egress.process_batch msrs.Tasks.egress_step msrs.Watchdog.Service.run_one_iteration
length-log = refl

came_back-decides_example :
    (recorded : List Recording) × (read_recorded
        (plain_msg (Cycle Feed))
        (plain_msg (Batch Alarm))
        (log_holding fed_once.last.log)
        "log"
      ≡ some (returns recorded))
    × (main a_gate enc
          (λ r. "report")
          (ok tt)
          (armed_alarm ∷ tripped_alarm 60_000_000 ∷ [])
          (returns recorded)
        ≡ (
          "[live] Armed" ∷ "[live] Tripped { silent_ns: 60000000 }" ∷ [],
          panics "live run did not arm, trip on silence, recover, and trip after the last feed",
        ))
unfolding end_of to_decimal
came_back-decides_example =
    came_back-decides a_gate (queue Feed) (queue Alarm) (queue Alarm) counting
      (plain_msg (Cycle Feed)) (plain_msg (Batch Alarm)) 2
      (armed_alarm ∷ tripped_alarm 60_000_000 ∷ []) enc (ok tt) (ok tt) (λ r. "report")
      (log_holding fed_once.last.log) "log" fed_once.last.log unexpected_end fed_once.reach
      fed_once-main (omega (arith, length-log)) (omega (arith, length-log)) (λ b h. cc) refl refl
      (Holds-all fed_once.last.log fed_once.last.log) refl refl

-- Two lines that `main` prints, spelt out.
a_cycle : List Feed → Cycle Feed
a_cycle feeds = record { now_ns = 5; events = feeds; pending = 0 }

recovered_line-text :
    recovered_line (
      record {
        id = 0;
        input = a_cycle (feed_of 1 ∷ feed_of 2 ∷ []);
        output = some (record { values = armed_alarm ∷ [] });
      }
      ∷ record { id = 1; input = a_cycle (feed_of 3 ∷ []); output = none }
      ∷ [])
    ≡ "[replay] recovered 2 cycle(s) carrying 3 feed(s) and 1 alarm(s) from the log"
unfolding to_decimal a_cycle msrs.Watchdog.Service.alarms_of
recovered_line-text = refl

control_line-text :
    control_line 1 ≡ "[replay] negative control diverged as required (1 divergent step(s))"
unfolding to_decimal
control_line-text = refl
