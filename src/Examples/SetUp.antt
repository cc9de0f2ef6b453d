-- ===== src/Examples/SetUp.antt =====
-- The theorems on the set-up of the two services, at concrete inputs.
use msrs.Shared.{◌≡◌, refl, none, some, [], ◌∷◌, String, ok, returns, true, false}
use msrs.Channel.{Channel}
use msrs.Channel.Queue.{Queue, queue}
use msrs.Rt.{Platform, normal, apply}
use msrs.Registry.{Registry}
use msrs.Fsm.Batch.{Batch}
use msrs.Tasks.{Cycle}
use msrs.Tasks.CycleIngress.{configured_batch}
use msrs.Tasks.Ends.{
  TaskType, source_type, sink_type, EndType, receiver_type, sender_type, Building, service_types,
}
use msrs.Echo.{EchoMsg, default}
use msrs.Echo.Feeder.{new_msg, run}
use msrs.Echo.Threads.{start_on}
use msrs.Echo.SetUp.{Ready, set_up, enter}
use msrs.Echo.SetUp.Starts.{set_up-wires}
use msrs.Watchdog.{Feed, Alarm, armed_alarm, default as default_watchdog}
use msrs.Watchdog.Threads.{start_on as start_on_watchdog}
use msrs.Watchdog.SetUp.{Ready as Watching, set_up as set_up_watchdog, enter as enter_watchdog}
use msrs.Watchdog.SetUp.Starts.{set_up-connects}
use msrs.Examples.Plain.{plain_msg, counting}
use msrs.Examples.Rt.{three_cores}
use msrs.Examples.Echo.{one_state, impatient}
use msrs.Examples.WatchdogService.{a_gate, feed_of, silent_transport}
use msrs.Examples.Tasks.{capped_at}

abbrev task_name : TaskType → String
task_name source_type = "Ingress"
task_name sink_type = "Egress"

abbrev end_name : EndType → String
end_name receiver_type = "Receiver"
end_name sender_type = "Sender"

abbrev nothing_parked : {Rx Tx : Type 0} → Registry (service_types Rx Tx task_name end_name)
nothing_parked = record { slots = λ k. none; held = false; poisoned = false }

abbrev building : Building
building = record {
  with_log_path = ok tt;
  build = ok tt;
  start_all_tasks = ok tt;
  source_config = some (capped_at 16);
  fsm_config = none;
  sink_config = none;
}

-- Two channels that can be told apart by what is queued.
abbrev holding : {T : Type 0} → T → Queue T
holding v = record { items = v ∷ []; cap = none; alive = true }

abbrev echo_in : Queue EchoMsg
echo_in = holding (new_msg "in")

abbrev echo_out : Queue EchoMsg
echo_out = holding (new_msg "out")

set_up-wires_example :
    (ready : Ready one_state (queue EchoMsg) three_cores task_name end_name) × (set_up one_state
        (queue EchoMsg)
        impatient
        (queue String)
        three_cores
        task_name
        end_name
        echo_in
        echo_out
        nothing_parked
        ("hello" ∷ [])
        building
      ≡ returns ready)
    × (ready.source.rx ≡ echo_in)
    × (ready.sink.tx ≡ echo_out)
    × ((th : Platform.Thread three_cores)
        → let (ran, rx_out, tx_in, collected) =
            run
              (queue EchoMsg)
              impatient
              (queue String)
              (record { inputs = "hello" ∷ [] })
              echo_out
              echo_in
              (Channel.unbounded (queue String)) in
          ready.thread th ≡ ((apply three_cores normal th).1, (ran, rx_out, tx_in)))
    × (ready.task.machine ≡ default one_state)
    × ((k : TaskType) → ready.registry.slots k ≡ none)
    × (enter {texts = queue String} ("hello" ∷ []) ready
        ≡ start_on one_state
            (queue EchoMsg)
            (queue String)
            counting
            (plain_msg EchoMsg)
            echo_in
            echo_out
            ("hello" ∷ []))
set_up-wires_example =
    set_up-wires one_state (queue EchoMsg) impatient (queue String) three_cores task_name end_name
      counting (plain_msg EchoMsg) echo_in echo_out nothing_parked ("hello" ∷ []) building refl refl
      refl refl refl

abbrev feeds_in : Queue Feed
feeds_in = holding (feed_of 3)

abbrev alarms_out : Queue Alarm
alarms_out = holding armed_alarm

set_up-connects_example :
    (ready : Watching a_gate (queue Feed) (queue Alarm) three_cores task_name end_name)
    × (set_up_watchdog a_gate
          (queue Feed)
          (queue Alarm)
          three_cores
          task_name
          end_name
          feeds_in
          alarms_out
          silent_transport
          nothing_parked
          building
        ≡ returns ready)
    × (ready.source ≡ record { rx = feeds_in; max_batch = 16 })
    × (ready.sink.tx ≡ alarms_out)
    × ((th : Platform.Thread three_cores)
        → ready.thread th
          ≡ ((apply three_cores normal th).1, silent_transport.run alarms_out feeds_in))
    × (ready.task.machine ≡ default_watchdog a_gate)
    × ((k : TaskType) → ready.registry.slots k ≡ none)
    × (enter_watchdog
          (queue Alarm)
          counting
          (plain_msg (Cycle Feed))
          (plain_msg (Batch Alarm))
          ready
        ≡ start_on_watchdog a_gate
            (queue Feed)
            (queue Alarm)
            (queue Alarm)
            counting
            (plain_msg (Cycle Feed))
            (plain_msg (Batch Alarm))
            feeds_in
            alarms_out
            16)
unfolding configured_batch
set_up-connects_example =
    set_up-connects a_gate (queue Feed) (queue Alarm) (queue Alarm) counting
      (plain_msg (Cycle Feed)) (plain_msg (Batch Alarm)) three_cores task_name end_name feeds_in
      alarms_out silent_transport nothing_parked building 15 refl refl refl refl refl refl
