-- ===== src/Watchdog/SetUp.antt =====
-- examples/watchdog/src/main.rs: the first part of `run_live`, up to its loop: the driver thread, the
-- registry and the tasks that the application builds. What copper answers is a parameter, and so is
-- the transport, whose moves are in `Watchdog.Threads`.
pub mod Starts
use msrs.Shared.{ℕ, [], String, Result, ok, err, Checked, returns, panics}
use msrs.Shared.Checks.{◌>>=◌, ◌>>◌, expect}
use msrs.Copper.{CuMsg, Clock}
use msrs.Channel.{Channel}
use msrs.Rt.{Platform, normal}
use msrs.Driver.{Transport, spawn_on}
use msrs.Registry.{Types, Registry}
use msrs.Tasks.{Cycle}
use msrs.Tasks.Ends.{
  TaskType, source_type, sink_type, EndType, receiver_type, sender_type, service_types, Building,
}
use msrs.Tasks.CycleIngress
use msrs.Tasks.CycleIngress.{CycleIngressTask}
use msrs.Tasks.Egress
use msrs.Tasks.Egress.{BatchEgressTask}
use msrs.Fsm.Batch
use msrs.Fsm.Batch.{Batch, FsmBatchTask}
use msrs.Watchdog.{Feed, Alarm, Gate, WatchdogMachine, default}
use msrs.Watchdog.Threads.{System, forwarding, iterating}

module _ (ch : Channel Feed) (out : Channel Alarm) (task_name : TaskType → String)
    (end_name : EndType → String) where
  -- The types that meet in the registry.
  abbrev pub types : Types
  types = service_types ch.Chan out.Chan task_name end_name

-- What `run_live` has when it comes to its loop: the thread of the transport, which runs from an
-- initial state, and the three tasks; `registry` is what the registry then holds.
pub record Ready (gate : Gate) (ch : Channel Feed) (out : Channel Alarm) (os : Platform)
    (task_name : TaskType → String) (end_name : EndType → String) : Type 0 where
  pub thread : os.Thread → os.Thread × (Result String (Unit {0}) × out.Chan × ch.Chan)
  pub source : CycleIngressTask ch.Chan
  pub task : FsmBatchTask (WatchdogMachine gate)
  pub sink : BatchEgressTask out.Chan
  pub registry : Registry (types ch out task_name end_name)

module _ (gate : Gate) (ch : Channel Feed) (out : Channel Alarm) (os : Platform)
    (task_name : TaskType → String) (end_name : EndType → String) where
  -- `run_live` up to its loop, on the two channels that the driver makes.
  unfoldable pub set_up :
      ch.Chan
      → out.Chan
      → Transport ch out
      → Registry (types ch out task_name end_name)
      → Building
      → Checked (Ready gate ch out os task_name end_name)
  set_up made_in made_out pulse r b =
      let ty = types ch out task_name end_name in
      let handles = spawn_on ch out os made_in made_out pulse normal in
      let (r1, parked) =
        CycleIngress.install ty source_type receiver_type r handles.from_transport in
      let (r2, parked') = Egress.install_batch ty sink_type sender_type r1 handles.to_transport in
      let (r3, ingress) = CycleIngress.new ty source_type receiver_type r2 b.source_config in
      let (r4, egress) = Egress.new_batch ty sink_type sender_type r3 b.sink_config in
      do
        parked
        parked'
        expect "Failed to setup logger." b.with_log_path
        expect "Failed to create application." b.build
        source ← expect "Failed to create application." ingress
        task ← expect "Failed to create application." (Batch.new (default gate) b.fsm_config)
        sink ← expect "Failed to create application." egress
        expect "start_all_tasks failed" b.start_all_tasks
        returns (record {
          thread = handles.join;
          source = source;
          task = task;
          sink = sink;
          registry = r4;
        })

-- The state in which the loop of `run_live` starts: what the tasks were built with, and nothing
-- logged yet. The ends stand beside the ingress task.
unfoldable pub enter :
    {gate : Gate} {ch : Channel Feed} {out : Channel Alarm} {os : Platform}
    {task_name : TaskType → String} {end_name : EndType → String} (results : Channel Alarm)
    (clock : Clock) (cycles : CuMsg (Cycle Feed)) (alarms : CuMsg (Batch Alarm))
    → Ready gate ch out os task_name end_name
    → System gate ch out results clock cycles alarms
enter results clock cycles alarms ready = record {
  forwarder = forwarding;
  main = iterating;
  service = record {
    ingress = record { rx = tt; max_batch = ready.source.max_batch };
    task = ready.task;
    rx = ready.source.rx;
    tx = ready.sink.tx;
    next = 0;
  };
  collected = results.unbounded;
  log = [];
}
