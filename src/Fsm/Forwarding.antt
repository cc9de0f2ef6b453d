-- ===== src/Fsm/Forwarding.antt =====
-- crates/msrs-core/src/fsm_task.rs: the two adapters forward what the two test seams return.
use msrs.Shared.{
  ◌≡◌, refl, ◌∙◌, List, [], ◌∷◌, Option, none, some, Result, ok, err, Checked, returns, panics,
}
use msrs.Copper.{CuMsg, Clock, time}
use msrs.Effects.{ExtraEmits, empty, take_one, take}
use msrs.Fsm.{FsmSpec, run_step, run_step_all, unwrap_one}
use msrs.Fsm.Adapter.{Processed, trigger_for}
use msrs.Fsm.Task
use msrs.Fsm.Task.{FsmTask}
use msrs.Fsm.Batch
use msrs.Fsm.Batch.{FsmBatchTask, Batch}

-- A written payload, stamped with a time, is read back with that time.
module _ {T : Type 0} (output : CuMsg T) where
  stamped :
      (out : output.Msg) (v : T) (t : _)
      → let m = output.set_tov (output.set_payload out v) (time t) in
        (output.payload m ≡ some v) × (output.tov m ≡ time t)
  stamped out v t =
      (output.payload-set_tov _ _ ∙ output.payload-set_payload out v, output.tov-set_tov _ _)

module _ {Out : Type 0} (clock : Clock) (output : CuMsg Out) where
  -- What a cycle leaves for each outcome of `run_step`.
  abbrev pub Forwards :
      {T : Type 0} → clock.Ctx → Checked (Option Out) → Processed T output.Msg clock.Ctx → Type 0
  Forwards ctx (returns (some v)) p =
      (p.result ≡ ok tt)
      × (output.payload p.output ≡ some v)
      × (output.tov p.output ≡ time (clock.now ctx).0)
  Forwards ctx (returns none) p = (p.result ≡ ok tt) × (output.payload p.output ≡ none)
  Forwards ctx (panics text) p = (p.result ≡ err text) × (output.payload p.output ≡ none)

  forward-Forwards :
      {M : Type 0} (task : FsmTask M) (out : output.Msg) (ctx : clock.Ctx)
      (r : Result ExtraEmits (Option Out))
      → ((Task.forward clock output task out ctx r).task ≡ task)
        × Forwards ctx (unwrap_one r) (Task.forward clock output task out ctx r)
  unfolding Task.forward
  forward-Forwards task out ctx (ok (some v)) =
      let (p, t) = stamped output out v (clock.now ctx).0 in (refl, (refl, p, t))
  forward-Forwards task out ctx (ok none) = (refl, (refl, output.payload-clear_payload out))
  forward-Forwards task out ctx (err e) = (refl, (refl, output.payload-clear_payload out))

-- The payload that stands for the outputs of one step.
abbrev pub batch_of : {Out : Type 0} → List Out → Option (Batch Out)
batch_of [] = none
batch_of (v ∷ vs) = some (record { values = v ∷ vs })

module _ {M Out : Type 0} (clock : Clock) (output : CuMsg (Batch Out)) where
  forward_all-batch :
      (task : FsmBatchTask M) (out : output.Msg) (ctx : clock.Ctx) (vs : List Out)
      → let p = Batch.forward_all clock output task out ctx vs in
        (p.task ≡ task) × (p.result ≡ ok tt) × (output.payload p.output ≡ batch_of vs)
  unfolding Batch.forward_all
  forward_all-batch task out ctx [] = (refl, refl, output.payload-clear_payload out)
  forward_all-batch task out ctx (v ∷ vs) =
      (refl, refl, (stamped output out (record { values = v ∷ vs }) (clock.now ctx).0).0)

module _ {M In Out : Type 0} (spec : FsmSpec M In Out) (clock : Clock) (input : CuMsg In) where
  -- For every machine, context and message, `FsmTask::process` leaves the machine that `run_step`
  -- leaves for the trigger of the cycle. Where `run_step` returns a value, the cycle succeeds and
  -- the output has that payload, stamped with the time read after the step; where it returns
  -- nothing, the cycle succeeds with no payload; where it panics, the cycle is an error with the
  -- panic's text, and the output has no payload.
  pub process-run_step :
      (output : CuMsg Out) (task : FsmTask M) (ctx : clock.Ctx) (msg : input.Msg) (out : output.Msg)
      → let (trigger, ctx') = trigger_for clock input ctx msg in
        let (machine, outcome) = run_step spec task.machine trigger in
        let p = Task.process spec clock input output task ctx msg out in
        (p.task.machine ≡ machine) × Forwards clock output ctx' outcome p
  unfolding Task.process run_step
  process-run_step output task ctx msg out =
      let (trigger, ctx') = trigger_for clock input ctx msg in
      let (machine, effects) = spec.step task.machine trigger empty in
      let (same, forwards) =
        forward-Forwards clock output (record { machine = machine }) out ctx'
          (take_one effects).0 in
      (λ i. (same i).machine, forwards)

  -- For every machine, context and message, `FsmBatchTask::process` succeeds, leaves the machine
  -- that `run_step_all` leaves for the trigger of the cycle, and its output carries all the outputs
  -- of the step in emission order as one batch, or no payload when there were none.
  pub process-run_step_all :
      (output : CuMsg (Batch Out)) (task : FsmBatchTask M) (ctx : clock.Ctx) (msg : input.Msg)
      (out : output.Msg)
      → let (machine, outs) = run_step_all spec task.machine (trigger_for clock input ctx msg).0 in
        let p = Batch.process spec clock input output task ctx msg out in
        (p.task.machine ≡ machine) × (p.result ≡ ok tt) × (output.payload p.output ≡ batch_of outs)
  unfolding Batch.process run_step_all
  process-run_step_all output task ctx msg out =
      let (trigger, ctx') = trigger_for clock input ctx msg in
      let (machine, effects) = spec.step task.machine trigger empty in
      let (same, fine, payload) =
        forward_all-batch clock output (record { machine = machine }) out ctx' (take effects).0 in
      (λ i. (same i).machine, fine, payload)
