-- ===== src/Tasks.antt =====
-- crates/msrs-transport/src/tasks.rs: the copper-agnostic steps between a channel and the DAG.
pub mod Ingress
pub mod CycleIngress
pub mod Egress
pub mod Wiring
pub mod Ends
use msrs.Shared.{ℕ, suc, Option, none, some, List, String, Result, ok, ok?}
use msrs.Channel.{Channel}
use msrs.Channel.Drain.{Interference, drain}

-- One ingress cycle: its time, the messages drained, and how many were left.
pub record Cycle (T : Type 0) : Type 0 where
  pub now_ns : ℕ
  pub events : List T
  pub pending : ℕ

-- `DEFAULT_MAX_BATCH`.
abbrev pub default_max_batch : ℕ
default_max_batch = 64

module _ {T : Type 0} (ch : Channel T) where
  unfoldable pub ingress_step : ch.Chan → Option T × ch.Chan
  ingress_step rx = let (r, rx') = ch.try_recv rx in (ok? r, rx')

  unfoldable pub egress_step : ch.Chan → Option T → Result String (Unit {0}) × ch.Chan
  egress_step tx (some v) = ch.send tx v
  egress_step tx none = (ok tt, tx)

  -- The driver thread may act before each call on the channel, also before the last one, `len`. The
  -- number of the calls is returned beside the rest.
  unfoldable pub cycle_step : Interference ch → ch.Chan → ℕ → ℕ → Cycle T × ch.Chan × ℕ
  cycle_step env rx max_batch now_ns =
      let (events, drained, calls) = drain ch max_batch env 0 rx in
      let rx' = env calls drained in
      (record { now_ns = now_ns; events = events; pending = ch.len rx' }, rx', suc calls)
