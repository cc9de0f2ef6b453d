-- ===== src/Tasks/Egress.antt =====
-- crates/msrs-transport/src/tasks.rs: the two sinks.
pub mod Delivery
use msrs.Shared.{
  ℕ, Option, none, some, List, [], ◌∷◌, String, Result, ok, err, map_err, Checked, ◌>>=◌,
}
use msrs.Copper.{CuMsg, CuError, CuResult, Clock, ComponentConfig}
use msrs.Channel.{Channel}
use msrs.Fsm.Batch.{Batch}
use msrs.Registry.{Types, Registry}
use msrs.Registry
use msrs.Tasks.{egress_step}

pub record EgressTask (Tx : Type 0) : Type 0 where
  pub tx : Tx

pub record BatchEgressTask (Tx : Type 0) : Type 0 where
  pub tx : Tx

-- `key` is the task type itself, `code` the type of its sending end.
module _ (ty : Types) (key : ty.Key) (code : ty.Code) where
  unfoldable pub install : Registry ty → ty.Value code → Registry ty × Checked (Unit {0})
  install r tx = Registry.install r key code tx

  unfoldable pub new :
      Registry ty → Option ComponentConfig → Registry ty × CuResult (EgressTask (ty.Value code))
  new r config =
      let (r', taken) = Registry.take r key code in (r', taken >>= λ tx. ok (record { tx = tx }))

  unfoldable pub install_batch : Registry ty → ty.Value code → Registry ty × Checked (Unit {0})
  install_batch r tx = Registry.install r key code tx

  unfoldable pub new_batch :
      Registry ty
      → Option ComponentConfig
      → Registry ty × CuResult (BatchEgressTask (ty.Value code))
  new_batch r config =
      let (r', taken) = Registry.take r key code in (r', taken >>= λ tx. ok (record { tx = tx }))

module _ {T : Type 0} (ch : Channel T) where
  -- `EgressTask::process`.
  unfoldable pub process : (input : CuMsg T) → ch.Chan → input.Msg → CuResult (Unit {0}) × ch.Chan
  process input tx msg =
      let (sent, tx') = egress_step ch tx (input.payload msg) in (map_err (λ text. text) sent, tx')

  -- The `for v in values` of `BatchEgressTask::process`; `?` leaves it at the first failure.
  unfoldable pub send_each : ch.Chan → List T → CuResult (Unit {0}) × ch.Chan
  send_each tx [] = (ok tt, tx)
  send_each tx (v ∷ vs) =
      let (sent, tx') = egress_step ch tx (some v) in
      let rest = send_each tx' vs in
      elim (map_err {F = CuError} (λ text. text) sent) [ ok _ ↦ rest | err e ↦ (err e, tx') ]

  unfoldable pub send_batch : ch.Chan → Option (Batch T) → CuResult (Unit {0}) × ch.Chan
  unfolding send_each
  send_batch tx (some batch) = send_each tx batch.values
  send_batch tx none = (ok tt, tx)

  -- `BatchEgressTask::process`.
  unfoldable pub process_batch :
      (input : CuMsg (Batch T)) → ch.Chan → input.Msg → CuResult (Unit {0}) × ch.Chan
  unfolding send_batch
  process_batch input tx msg = send_batch tx (input.payload msg)
