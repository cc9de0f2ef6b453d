-- ===== src/Fsm/Batch.antt =====
-- crates/msrs-core/src/fsm_task.rs: `FsmBatchTask`, which forwards every output of a step.
use msrs.Shared.{List, [], ◌∷◌, Option, ok}
use msrs.Copper.{CuMsg, CuResult, Clock, ComponentConfig, time}
use msrs.Effects.{empty, take}
use msrs.Fsm.{FsmSpec}
use msrs.Fsm.Adapter.{Processed, trigger_for}

pub record Batch (T : Type 0) : Type 0 where
  pub values : List T

pub record FsmBatchTask (M : Type 0) : Type 0 where
  pub machine : M

unfoldable pub new : {M : Type 0} → M → Option ComponentConfig → CuResult (FsmBatchTask M)
new default config = ok (record { machine = default })

module _ {M Out : Type 0} (clock : Clock) (output : CuMsg (Batch Out)) where
  -- The `if outs.is_empty()` of `process`.
  unfoldable pub forward_all :
      FsmBatchTask M
      → output.Msg
      → clock.Ctx
      → List Out
      → Processed (FsmBatchTask M) output.Msg clock.Ctx
  forward_all task out ctx [] = record {
    task = task;
    output = output.clear_payload out;
    ctx = ctx;
    result = ok tt;
  }
  forward_all task out ctx (v ∷ vs) =
      let (t, ctx') = clock.now ctx in
      record {
        task = task;
        output = output.set_tov (output.set_payload out (record { values = v ∷ vs })) (time t);
        ctx = ctx';
        result = ok tt;
      }

module _ {M In Out : Type 0} (spec : FsmSpec M In Out) (clock : Clock) (input : CuMsg In)
    (output : CuMsg (Batch Out)) where
  unfoldable pub process :
      FsmBatchTask M
      → clock.Ctx
      → input.Msg
      → output.Msg
      → Processed (FsmBatchTask M) output.Msg clock.Ctx
  unfolding forward_all
  process task ctx msg out =
      let (trigger, ctx') = trigger_for clock input ctx msg in
      let (machine, effects) = spec.step task.machine trigger empty in
      forward_all clock output (record { machine = machine }) out ctx' (take effects).0
