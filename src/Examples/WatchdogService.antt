-- ===== src/Examples/WatchdogService.antt =====
-- The theorems on the watchdog service and on the driver, at concrete inputs.
use msrs.Shared.{ℕ, ◌≡◌, refl, true, false, Option, none, some, List, [], ◌∷◌, ok, returns, length}
use msrs.Trigger.{message}
use msrs.Channel.Drain.{quiet}
use msrs.Channel.Queue.{Queue, queue}
use msrs.Fsm.{run_step_all}
use msrs.Fsm.Batch.{Batch}
use msrs.Replay.{passed}
use msrs.Rt.{apply}
use msrs.Tasks.{Cycle}
use msrs.Tasks.Egress.{process_batch}
use msrs.Tasks.Egress.Delivery.{Delivers}
use msrs.Driver.{Transport, spawn_bounded}
use msrs.Driver.Delivery.{spawn_bounded-Delivers}
use msrs.Watchdog.{
  Feed, Alarm, armed_alarm, tripped_alarm, idle, armed, handler, Gate, WatchdogMachine, default,
  watchdog, timeout_ns,
}
use msrs.Watchdog.Service.{
  CopperList, Step, LogReader, Encoding, replay, perturb, Turn, WatchdogService, run_iterations,
}
use msrs.Watchdog.Service.Control.{IsRecordOf, perturb-passed}
use msrs.Examples.Log.{source_holding}
use msrs.Examples.Plain.{PlainMsg, plain_msg, message_at, empty_at, counting, plain_statig}
use msrs.Examples.Rt.{three_cores, fifo_on_9_and_1}

abbrev pub a_gate : Gate
a_gate = plain_statig idle handler

abbrev pub feed_of : ℕ → Feed
feed_of n = record { sequence = n }

abbrev cycle_of : ℕ → List Feed → Cycle Feed
cycle_of now feeds = record { now_ns = now; events = feeds; pending = 0 }

-- One number for each batch, and a list for the empty slot that none of them has.
abbrev bytes_of : Option (Batch Alarm) → Option (List ℕ)
bytes_of none = some []
bytes_of (some b) = some (length b.values ∷ [])

abbrev pub enc : Encoding
enc = record { encode = bytes_of; debug_cycle = λ c. "cycle"; debug_alarms = λ o. "alarms" }

abbrev step_at : ℕ → Cycle Feed → List Alarm → Step
step_at id c l = record { id = id; input = c; output = some (record { values = l }) }

abbrev silent_at : ℕ → Cycle Feed → Step
silent_at id c = record { id = id; input = c; output = none }

-- Nothing, then two feeds, and a silence.
abbrev three_steps : List Step
three_steps =
    silent_at 4 (cycle_of 1 [])
    ∷ step_at 5 (cycle_of 2 (feed_of 0 ∷ feed_of 1 ∷ [])) (armed_alarm ∷ [])
    ∷ step_at 6 (cycle_of 60_000_002 []) (tripped_alarm 60_000_000 ∷ [])
    ∷ []

three_steps-IsRecordOf : IsRecordOf a_gate (default a_gate) three_steps
unfolding run_step_all msrs.Effects.take msrs.Watchdog.step msrs.Trigger.message?
    msrs.Effects.emit_all handler default msrs.Effects.empty
three_steps-IsRecordOf = (refl, (refl, (refl, tt)))

abbrev perturbed_steps : List Step
perturbed_steps =
    silent_at 4 (cycle_of 1 [])
    ∷ step_at 5 (cycle_of 2 []) (armed_alarm ∷ [])
    ∷ step_at 6 (cycle_of 60_000_002 []) (tripped_alarm 60_000_000 ∷ [])
    ∷ []

perturb-passed_example : passed (replay a_gate enc perturbed_steps) ≡ false
unfolding perturb
perturb-passed_example =
    perturb-passed a_gate enc three_steps perturbed_steps (λ b e. cc) three_steps-IsRecordOf refl

abbrev queue_of : {T : Type 0} → List T → Queue T
queue_of l = record { items = l; cap = none; alive = true }

abbrev at_start : WatchdogService a_gate (queue Feed) (queue Alarm)
at_start = record {
  ingress = record { rx = tt; max_batch = 2 };
  task = record { machine = default a_gate };
  rx = queue_of (feed_of 0 ∷ []);
  tx = queue_of [];
  next = 0;
}

abbrev pub turn_at :
    ℕ → Turn (queue Feed) counting (plain_msg (Cycle Feed)) (plain_msg (Batch Alarm))
turn_at now = record {
  env = quiet (queue Feed);
  ingress_ctx = λ n. now;
  watchdog_ctx = now;
  cycle_slot = empty_at 0;
  alarm_slot = empty_at 0;
}

abbrev Logged : Type 0
Logged = List (CopperList (plain_msg (Cycle Feed)) (plain_msg (Batch Alarm)))

abbrev pub log_holding : Logged → LogReader (plain_msg (Cycle Feed)) (plain_msg (Batch Alarm))
log_holding cls = record {
  source = source_holding cls;
  in_order = true;
  ids_text = "";
  debug_error = λ e. e;
}

abbrev two_copperlists : Logged
two_copperlists =
    record {
      id = 0;
      ingress = message_at (cycle_of 10 (feed_of 0 ∷ [])) 10;
      alarmed = message_at (record { values = armed_alarm ∷ [] }) 10;
    }
    ∷ record {
      id = 1;
      ingress = message_at (cycle_of 60_000_010 []) 60_000_010;
      alarmed = message_at (record { values = tripped_alarm 60_000_000 ∷ [] }) 60_000_010;
    }
    ∷ []

abbrev at_end : WatchdogService a_gate (queue Feed) (queue Alarm)
at_end = record {
  ingress = record { rx = tt; max_batch = 2 };
  task = record {
    machine =
        (run_step_all (watchdog a_gate)
          (run_step_all (watchdog a_gate) (default a_gate)
            (message (cycle_of 10 (feed_of 0 ∷ [])))).0
          (message (cycle_of 60_000_010 []))).0;
  };
  rx = queue_of [];
  tx = queue_of (armed_alarm ∷ tripped_alarm 60_000_000 ∷ []);
  next = 2;
}

run_iterations-two :
    run_iterations a_gate
      (queue Feed)
      (queue Alarm)
      counting
      (plain_msg (Cycle Feed))
      (plain_msg (Batch Alarm))
      at_start
      (turn_at 10 ∷ turn_at 60_000_010 ∷ [])
    ≡ returns (at_end, two_copperlists)
unfolding run_iterations msrs.Fsm.Batch.process msrs.Effects.take msrs.Watchdog.step
    msrs.Trigger.message? msrs.Fsm.Adapter.trigger_for msrs.Tasks.CycleIngress.process
    msrs.Effects.emit_all handler msrs.Channel.Drain.drain default msrs.Effects.empty process_batch
    msrs.Tasks.egress_step run_step_all
run_iterations-two = refl

abbrev pub silent_transport : Transport (queue Feed) (queue Alarm)
silent_transport = record { run = λ rx_out tx_in. (ok tt, rx_out, tx_in) }

abbrev two_alarms : PlainMsg (Batch Alarm)
two_alarms = message_at (record { values = armed_alarm ∷ tripped_alarm 3 ∷ [] }) 9

spawn_bounded-Delivers_example :
    let h =
      spawn_bounded (queue Feed) (queue Alarm) three_cores silent_transport fifo_on_9_and_1 5 in
    let (sent, tx) =
      process_batch (queue Alarm) (plain_msg (Batch Alarm)) h.to_transport two_alarms in
    (sent ≡ ok tt)
    × (tx.items ≡ armed_alarm ∷ tripped_alarm 3 ∷ [])
    × Delivers (queue Alarm) tx
    × (h.from_transport.items ≡ [])
    × (h.from_transport.cap ≡ some 5)
    × (h.join []
        ≡ ((apply three_cores fifo_on_9_and_1 []).1, (ok tt, h.to_transport, h.from_transport)))
spawn_bounded-Delivers_example =
    spawn_bounded-Delivers (queue Feed) (queue Alarm) three_cores silent_transport fifo_on_9_and_1 5
      (plain_msg (Batch Alarm)) two_alarms []

-- A run that armed and tripped, and no more, fails the check of the kinds and no other.
