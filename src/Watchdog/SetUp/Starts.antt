-- ===== src/Watchdog/SetUp/Starts.antt =====
-- examples/watchdog/src/main.rs: where the first part of `run_live` leads.
use msrs.Shared.{ℕ, suc, ◌≡◌, refl, ◌∙◌, none, String, ok, returns}
use msrs.Copper.{CuMsg, Clock}
use msrs.Channel.{Channel}
use msrs.Rt.{Platform, normal, apply}
use msrs.Driver.{Transport, spawn_on}
use msrs.Fsm.Batch
use msrs.Fsm.Batch.{Batch}
use msrs.Registry.{Registry}
use msrs.Tasks.{Cycle}
use msrs.Tasks.Ends.{
  TaskType, source_type, sink_type, EndType, receiver_type, sender_type, source≢sink, Building,
  unparked,
}
use msrs.Tasks.CycleIngress
use msrs.Tasks.CycleIngress.{configured_batch}
use msrs.Tasks.Egress
use msrs.Tasks.Wiring.{install-new_batch}
use msrs.Watchdog.{Feed, Alarm, Gate, default}
use msrs.Watchdog.Threads.{start_on}
use msrs.Watchdog.SetUp.{types, Ready, set_up, enter}

module _ (gate : Gate) (ch : Channel Feed) (out results : Channel Alarm) (clock : Clock)
    (cycles : CuMsg (Cycle Feed)) (alarms : CuMsg (Batch Alarm)) (os : Platform)
    (task_name : TaskType → String) (end_name : EndType → String) where
  -- Where nothing is parked for the two tasks of the watchdog service, the cap is positive and copper
  -- answers without an error, the first part of `run_live` does not panic, for any transport and
  -- whatever the two channels that the driver makes: the ingress task, with that cap, receives from
  -- the one on which the transport sends, and the egress task sends on the one from which the
  -- transport receives, the thread runs the transport on these two after best-effort scheduling, the
  -- machine is a fresh one, and nothing is left parked. This is the state from which the
  -- interleavings of the two threads start, on these channels.
  pub set_up-connects :
      (made_in : ch.Chan) (made_out : out.Chan) (pulse : Transport ch out)
      (r : Registry (types ch out task_name end_name)) (b : Building) (n : ℕ)
      → configured_batch b.source_config ≡ ok (suc n)
      → r.slots source_type ≡ none
      → r.slots sink_type ≡ none
      → b.with_log_path ≡ ok tt
      → b.build ≡ ok tt
      → b.start_all_tasks ≡ ok tt
      → (ready : Ready gate ch out os task_name end_name) × (set_up gate ch out os task_name
            end_name made_in made_out pulse r b
          ≡ returns ready)
        × (ready.source ≡ record { rx = made_in; max_batch = suc n })
        × (ready.sink.tx ≡ made_out)
        × ((th : os.Thread)
            → ready.thread th ≡ ((apply os normal th).1, pulse.run made_out made_in))
        × (ready.task.machine ≡ default gate)
        × ((k : TaskType) → ready.registry.slots k ≡ none)
        × (enter results clock cycles alarms ready
            ≡ start_on gate ch out results clock cycles alarms made_in made_out (suc n))
  unfolding set_up enter start_on spawn_on Batch.new
  set_up-connects made_in made_out pulse r b n positive free free' log built started =
      let ty = types ch out task_name end_name in
      let wired = λ (k : TaskType).
        install-new_batch ty source_type sink_type receiver_type sender_type r k b.source_config
          b.sink_config n made_in made_out positive source≢sink free free' in
      let r1 = (CycleIngress.install ty source_type receiver_type r made_in).0 in
      let r2 = (Egress.install_batch ty sink_type sender_type r1 made_out).0 in
      let r3 = (CycleIngress.new ty source_type receiver_type r2 b.source_config).0 in
      let r4 = (Egress.new_batch ty sink_type sender_type r3 b.sink_config).0 in
      (
        record {
          thread = (spawn_on ch out os made_in made_out pulse normal).join;
          source = record { rx = made_in; max_batch = suc n };
          task = record { machine = default gate };
          sink = record { tx = made_out };
          registry = r4;
        },
        rw
            (
              (wired source_type).0,
              (wired source_type).1,
              (wired source_type).2,
              (wired source_type).3,
              log,
              built,
              started,
            )
            refl,
        refl,
        refl,
        λ th. refl,
        refl,
        λ k. (wired k).4 ∙ unparked r free free' k,
        refl,
      )
