-- ===== src/Fsm.antt =====
-- crates/msrs-core/src/fsm_task.rs: the machine's interface and the two seams for its tests.
pub mod Adapter
pub mod Task
pub mod Batch
pub mod Forwarding
pub mod Recorded
use msrs.Shared.{◌≡◌, List, Option, String, Result, ok, err, Checked, returns, panics}
use msrs.Trigger.{Trigger}
use msrs.Effects.{Effects, ExtraEmits, empty, take, take_one, extra_emits_text}

-- `impl FsmSpec for M`: the one step. `M::In` and `M::Out` are the parameters.
pub record FsmSpec (M In Out : Type 0) : Type 0 where
  pub step : M → Trigger In → Effects Out → M × Effects Out

-- `unwrap_or_else(|e| panic!("{e}"))`.
abbrev pub unwrap_one : {Out : Type 0} → Result ExtraEmits (Option Out) → Checked (Option Out)
unwrap_one (ok o) = returns o
unwrap_one (err e) = panics (extra_emits_text e)

module _ {M In Out : Type 0} (spec : FsmSpec M In Out) where
  -- The machine after the step, and the output or the panic.
  unfoldable pub run_step : M → Trigger In → M × Checked (Option Out)
  run_step machine trigger =
      let (machine', effects) = spec.step machine trigger empty in
      (machine', unwrap_one (take_one effects).0)

  unfoldable pub run_step_all : M → Trigger In → M × List Out
  run_step_all machine trigger =
      let (machine', effects) = spec.step machine trigger empty in (machine', (take effects).0)
