-- ===== src/Echo/SetUp/Starts.antt =====
-- examples/echo/src/main.rs: where the first half of `run_live` leads.
use msrs.Shared.{◌≡◌, refl, ◌∙◌, none, List, String, ok, returns}
use msrs.Copper.{CuMsg, Clock}
use msrs.Channel.{Channel}
use msrs.Channel.Blocking.{Blocking}
use msrs.Rt.{Platform, normal, apply}
use msrs.Driver.{spawn_on}
use msrs.Fsm.Task
use msrs.Registry.{Registry}
use msrs.Tasks.Ends.{
  TaskType, source_type, sink_type, EndType, receiver_type, sender_type, source≢sink, Building,
  unparked,
}
use msrs.Tasks.Ingress
use msrs.Tasks.Egress
use msrs.Tasks.Wiring.{install-new_both}
use msrs.Echo.{EchoMsg, Gate, default}
use msrs.Echo.Feeder.{run}
use msrs.Echo.Threads.{start_on}
use msrs.Echo.SetUp.{types, feeder_transport, Ready, set_up, enter}

module _ (gate : Gate) (ch : Channel EchoMsg) (waits : Blocking ch) (texts : Channel String)
    (os : Platform) (task_name : TaskType → String) (end_name : EndType → String) (clock : Clock)
    (slot : CuMsg EchoMsg) where
  -- Where nothing is parked for the two tasks of the echo service and copper answers without an
  -- error, the first half of `run_live` does not panic, whatever the two channels that the driver
  -- makes: the ingress task receives from the one on which the transport sends, and the egress task
  -- sends on the one from which the transport receives, the thread runs `Feeder` on these two after
  -- best-effort scheduling, the machine is a fresh one, and nothing is left parked. This is
  -- the state from which the interleavings of the two threads start, on these channels.
  pub set_up-wires :
      (made_in made_out : ch.Chan) (r : Registry (types ch task_name end_name))
      (inputs : List String) (b : Building)
      → r.slots source_type ≡ none
      → r.slots sink_type ≡ none
      → b.with_log_path ≡ ok tt
      → b.build ≡ ok tt
      → b.start_all_tasks ≡ ok tt
      → (ready : Ready gate ch os task_name end_name) × (set_up gate ch waits texts os task_name
            end_name made_in made_out r inputs b
          ≡ returns ready)
        × (ready.source.rx ≡ made_in)
        × (ready.sink.tx ≡ made_out)
        × ((th : os.Thread)
            → let (ran, rx_out, tx_in, collected) =
                run ch waits texts (record { inputs = inputs }) made_out made_in texts.unbounded in
              ready.thread th ≡ ((apply os normal th).1, (ran, rx_out, tx_in)))
        × (ready.task.machine ≡ default gate)
        × ((k : TaskType) → ready.registry.slots k ≡ none)
        × (enter inputs ready ≡ start_on gate ch texts clock slot made_in made_out inputs)
  unfolding set_up enter start_on spawn_on feeder_transport Task.new
  set_up-wires made_in made_out r inputs b free free' log built started =
      let ty = types ch task_name end_name in
      let wired = λ (k : TaskType).
        install-new_both ty source_type sink_type receiver_type sender_type r k b.source_config
          b.sink_config made_in made_out source≢sink free free' in
      let r1 = (Ingress.install ty source_type receiver_type r made_in).0 in
      let r2 = (Egress.install ty sink_type sender_type r1 made_out).0 in
      let r3 = (Ingress.new ty source_type receiver_type r2 b.source_config).0 in
      let r4 = (Egress.new ty sink_type sender_type r3 b.sink_config).0 in
      let handles =
        spawn_on ch ch os made_in made_out
          (feeder_transport ch waits texts (record { inputs = inputs }) texts.unbounded) normal in
      (
        record {
          thread = handles.join;
          source = record { rx = made_in };
          task = record { machine = default gate };
          sink = record { tx = made_out };
          registry = r4;
        },
        rw
            (
              (wired source_type).0,
              (wired source_type).1,
              (wired source_type).2,
              (wired source_type).3,
              log,
              built,
              started,
            )
            refl,
        refl,
        refl,
        λ th. refl,
        refl,
        λ k. (wired k).4 ∙ unparked r free free' k,
        refl,
      )
