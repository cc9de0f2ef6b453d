-- ===== src/Fsm/Task.antt =====
-- crates/msrs-core/src/fsm_task.rs: `FsmTask`, which forwards at most one output of a step.
use msrs.Shared.{Option, none, some, Result, ok, err}
use msrs.Copper.{CuMsg, CuResult, Clock, ComponentConfig, time}
use msrs.Effects.{ExtraEmits, empty, take_one, extra_emits_text}
use msrs.Fsm.{FsmSpec}
use msrs.Fsm.Adapter.{Processed, trigger_for}

pub record FsmTask (M : Type 0) : Type 0 where
  pub machine : M

-- `CuTask::new`: the machine's default, whatever the configuration.
unfoldable pub new : {M : Type 0} → M → Option ComponentConfig → CuResult (FsmTask M)
new default config = ok (record { machine = default })

module _ {M Out : Type 0} (clock : Clock) (output : CuMsg Out) where
  -- The `match effects.take_one()` of `process`.
  unfoldable pub forward :
      FsmTask M
      → output.Msg
      → clock.Ctx
      → Result ExtraEmits (Option Out)
      → Processed (FsmTask M) output.Msg clock.Ctx
  forward task out ctx (ok (some value)) =
      let (t, ctx') = clock.now ctx in
      record {
        task = task;
        output = output.set_tov (output.set_payload out value) (time t);
        ctx = ctx';
        result = ok tt;
      }
  forward task out ctx (ok none) = record {
    task = task;
    output = output.clear_payload out;
    ctx = ctx;
    result = ok tt;
  }
  forward task out ctx (err e) = record {
    task = task;
    output = output.clear_payload out;
    ctx = ctx;
    result = err (extra_emits_text e);
  }

module _ {M In Out : Type 0} (spec : FsmSpec M In Out) (clock : Clock) (input : CuMsg In)
    (output : CuMsg Out) where
  unfoldable pub process :
      FsmTask M → clock.Ctx → input.Msg → output.Msg → Processed (FsmTask M) output.Msg clock.Ctx
  unfolding forward
  process task ctx msg out =
      let (trigger, ctx') = trigger_for clock input ctx msg in
      let (machine, effects) = spec.step task.machine trigger empty in
      forward clock output (record { machine = machine }) out ctx' (take_one effects).0
