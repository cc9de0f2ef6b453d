-- ===== src/Driver/Delivery.antt =====
-- crates/msrs-transport/src/driver.rs: the DAG's sending end never refuses and is never full.
use msrs.Shared.{ℕ, ◌≡◌, refl, [], ◌++◌, ok, some, ap, ◌∙◌}
use msrs.Copper.{CuMsg}
use msrs.Channel.{Channel}
use msrs.Fsm.Batch.{Batch}
use msrs.Rt.{Platform, RtConfig, apply}
use msrs.Tasks.Egress.{process_batch}
use msrs.Tasks.Egress.Delivery.{Delivers, batch_values, process_batch-Delivers}
use msrs.Driver.{Transport, spawn_bounded, spawn_with, driver_thread}

module _ {In Out : Type 0} (inbound : Channel In) (outbound : Channel Out) (os : Platform) where
  -- Bounding the inbound channel of a driver leaves egress free: the channel towards the transport
  -- has no bound and takes a whole batch of any length at once, in order; the inbound channel starts
  -- empty, with the capacity asked for; and whether or not `RtConfig::apply` succeeds on the driver
  -- thread, the thread then runs the transport on these two channels and ends with its result.
  pub spawn_bounded-Delivers :
      (transport : Transport inbound outbound) (rt : RtConfig) (inbound_capacity : ℕ)
      (input : CuMsg (Batch Out)) (msg : input.Msg) (th : os.Thread)
      → let h = spawn_bounded inbound outbound os transport rt inbound_capacity in
        let (sent, tx) = process_batch outbound input h.to_transport msg in
        (sent ≡ ok tt)
        × (outbound.contents tx ≡ batch_values (input.payload msg))
        × Delivers outbound tx
        × (inbound.contents h.from_transport ≡ [])
        × (inbound.capacity h.from_transport ≡ some inbound_capacity)
        × (h.join th ≡ ((apply os rt th).1, transport.run h.to_transport h.from_transport))
  unfolding spawn_bounded spawn_with driver_thread
  spawn_bounded-Delivers transport rt inbound_capacity input msg th =
      let (sent, held, d) =
        process_batch-Delivers outbound input outbound.unbounded msg
          (outbound.is_open-unbounded, outbound.capacity-unbounded) in
      (
        sent,
        held ∙ ap (λ l. l ++ batch_values (input.payload msg)) outbound.contents-unbounded,
        d,
        inbound.contents-bounded inbound_capacity,
        inbound.capacity-bounded inbound_capacity,
        refl,
      )
