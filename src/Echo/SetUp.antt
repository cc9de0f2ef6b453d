-- ===== src/Echo/SetUp.antt =====
-- examples/echo/src/main.rs: the first half of `run_live`, up to its loop: the driver thread, the
-- registry and the tasks that the application builds. What copper answers is a parameter.
pub mod Starts
use msrs.Shared.{ℕ, ◌+◌, Option, List, String, Result, ok, err, Checked, returns, panics, length}
use msrs.Shared.Checks.{◌>>=◌, ◌>>◌, expect}
use msrs.Copper.{CuMsg, Clock, ComponentConfig}
use msrs.Channel.{Channel}
use msrs.Channel.Blocking.{Blocking}
use msrs.Rt.{Platform, normal}
use msrs.Driver.{Transport, spawn_on}
use msrs.Registry.{Types, Registry}
use msrs.Tasks.Ends.{
  TaskType, source_type, sink_type, EndType, receiver_type, sender_type, service_types, Building,
}
use msrs.Tasks.Ingress
use msrs.Tasks.Ingress.{IngressTask}
use msrs.Tasks.Egress
use msrs.Tasks.Egress.{EgressTask}
use msrs.Fsm.Task
use msrs.Fsm.Task.{FsmTask}
use msrs.Echo.{EchoMsg, Gate, EchoMachine, default}
use msrs.Echo.Feeder.{Feeder, run}
use msrs.Echo.Threads.{System, feeding, iterating}

module _ (ch : Channel EchoMsg) (task_name : TaskType → String) (end_name : EndType → String) where
  -- The types that meet in the registry.
  abbrev pub types : Types
  types = service_types ch.Chan ch.Chan task_name end_name

module _ (ch : Channel EchoMsg) (waits : Blocking ch) (texts : Channel String) where
  -- `Feeder` as a transport, with its sending end of the results.
  unfoldable pub feeder_transport : Feeder → texts.Chan → Transport ch ch
  unfolding run
  feeder_transport f results = record {
    run = λ rx_out tx_in.
        let (outcome, rx_out', tx_in', results') = run ch waits texts f rx_out tx_in results in
        (outcome, rx_out', tx_in');
  }

-- What `run_live` has when it comes to its loop: the thread of the transport, which runs from an
-- initial state, and the three tasks; `registry` is what the registry then holds.
pub record Ready (gate : Gate) (ch : Channel EchoMsg) (os : Platform)
    (task_name : TaskType → String) (end_name : EndType → String) : Type 0 where
  pub thread : os.Thread → os.Thread × (Result String (Unit {0}) × ch.Chan × ch.Chan)
  pub source : IngressTask ch.Chan
  pub task : FsmTask (EchoMachine gate)
  pub sink : EgressTask ch.Chan
  pub registry : Registry (types ch task_name end_name)

module _ (gate : Gate) (ch : Channel EchoMsg) (waits : Blocking ch) (texts : Channel String)
    (os : Platform) (task_name : TaskType → String) (end_name : EndType → String) where
  -- `run_live` up to its loop, on the two channels that the driver makes.
  unfoldable pub set_up :
      ch.Chan
      → ch.Chan
      → Registry (types ch task_name end_name)
      → List String
      → Building
      → Checked (Ready gate ch os task_name end_name)
  set_up made_in made_out r inputs b =
      let ty = types ch task_name end_name in
      let handles =
        spawn_on ch ch os made_in made_out
          (feeder_transport ch waits texts (record { inputs = inputs }) texts.unbounded) normal in
      let (r1, parked) = Ingress.install ty source_type receiver_type r handles.from_transport in
      let (r2, parked') = Egress.install ty sink_type sender_type r1 handles.to_transport in
      let (r3, ingress) = Ingress.new ty source_type receiver_type r2 b.source_config in
      let (r4, egress) = Egress.new ty sink_type sender_type r3 b.sink_config in
      do
        parked
        parked'
        expect "Failed to setup logger." b.with_log_path
        expect "Failed to create application." b.build
        source ← expect "Failed to create application." ingress
        task ← expect "Failed to create application." (Task.new (default gate) b.fsm_config)
        sink ← expect "Failed to create application." egress
        expect "start_all_tasks failed" b.start_all_tasks
        returns (record {
          thread = handles.join;
          source = source;
          task = task;
          sink = sink;
          registry = r4;
        })

-- The state in which the loop of `run_live` starts: what the tasks were built with, the thread at its
-- first input, and `inputs.len() + 3` iterations to go.
unfoldable pub enter :
    {gate : Gate} {ch : Channel EchoMsg} {texts : Channel String} {os : Platform}
    {task_name : TaskType → String} {end_name : EndType → String}
    → List String
    → Ready gate ch os task_name end_name
    → System gate ch texts
enter {texts = texts} inputs ready = record {
  feeder = feeding inputs;
  main = iterating (length inputs + 3);
  service = record { task = ready.task; rx = ready.source.rx; tx = ready.sink.tx };
  results = texts.unbounded;
}
