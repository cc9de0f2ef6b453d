-- ===== src/Driver.antt =====
-- crates/msrs-transport/src/driver.rs and transport.rs: the channels and the thread of a transport.
-- One value stands for both ends of a channel, and a thread is a function of its initial state.
pub mod Delivery
use msrs.Shared.{ℕ, String, Result}
use msrs.Channel.{Channel}
use msrs.Rt.{Platform, RtConfig, apply}

-- An inbound event: a payload or an error of the transport.
pub data TransportEvent (T : Type 0) : Type 0 where
  message_event : T → TransportEvent T
  error_event : String → TransportEvent T

-- `TransportEvent::default`, from the default of the payload.
unfoldable pub default_event : {T : Type 0} → T → TransportEvent T
default_event t = message_event t

module _ {In Out : Type 0} (inbound : Channel In) (outbound : Channel Out) where
  -- `Transport::run`, on `rx_out` and `tx_in`, with the state in which it leaves both channels.
  pub record Transport : Type 0 where
    pub run : outbound.Chan → inbound.Chan → Result String (Unit {0}) × outbound.Chan × inbound.Chan

  pub record DriverHandles (Thread : Type 0) : Type 0 where
    pub to_transport : outbound.Chan
    pub from_transport : inbound.Chan
    -- What the spawned thread does, from its initial state.
    pub join : Thread → Thread × (Result String (Unit {0}) × outbound.Chan × inbound.Chan)

  module _ (os : Platform) where
    -- The closure of `thread::spawn`: best-effort scheduling, and then the transport.
    unfoldable pub driver_thread :
        Transport
        → RtConfig
        → outbound.Chan
        → inbound.Chan
        → os.Thread
        → os.Thread × (Result String (Unit {0}) × outbound.Chan × inbound.Chan)
    driver_thread transport rt rx_out tx_in th =
        let (ignored, th') = apply os rt th in (th', transport.run rx_out tx_in)

    -- `made` is the channel that `unbounded()` makes here.
    unfoldable pub spawn_with :
        outbound.Chan → Transport → RtConfig → inbound.Chan → inbound.Chan → DriverHandles os.Thread
    unfolding driver_thread
    spawn_with made transport rt tx_in from_transport = record {
      to_transport = made;
      from_transport = from_transport;
      join = driver_thread transport rt made tx_in;
    }

    -- `spawn` on the two channels that the calls of `unbounded()` make, the inbound one first.
    unfoldable pub spawn_on :
        inbound.Chan → outbound.Chan → Transport → RtConfig → DriverHandles os.Thread
    unfolding spawn_with
    spawn_on made_in made_out transport rt = spawn_with made_out transport rt made_in made_in

    unfoldable pub spawn : Transport → RtConfig → DriverHandles os.Thread
    unfolding spawn_on
    spawn transport rt = spawn_on inbound.unbounded outbound.unbounded transport rt

    unfoldable pub spawn_bounded : Transport → RtConfig → ℕ → DriverHandles os.Thread
    unfolding spawn_with
    spawn_bounded transport rt inbound_capacity =
        spawn_with outbound.unbounded transport rt (inbound.bounded inbound_capacity)
          (inbound.bounded inbound_capacity)
