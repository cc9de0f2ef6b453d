-- ===== src/Fsm/Recorded.antt =====
-- crates/msrs-core/src/fsm_task.rs: what the log records of a cycle determines what the adapters do.
use msrs.Shared.{
  ◌≡◌, refl, sym, ap, ap₂, ◌∙◌, List, [], ◌∷◌, map, Option, none, some, ok, err, Checked, returns,
  panics, All,
}
use msrs.Copper.{CuMsg, CuResult, Clock}
use msrs.Trigger.{Trigger}
use msrs.Fsm.{FsmSpec, run_step, run_step_all}
use msrs.Fsm.Adapter.{Processed, trigger_for, IsRecorded, trigger_for-recorded}
use msrs.Fsm.Task
use msrs.Fsm.Task.{FsmTask}
use msrs.Fsm.Batch
use msrs.Fsm.Batch.{FsmBatchTask, Batch}
use msrs.Fsm.Forwarding.{Forwards, batch_of, process-run_step, process-run_step_all}

-- The result and the payload of a cycle, as `run_step` gives them.
abbrev pub outcome_result : {Out : Type 0} → Checked (Option Out) → CuResult (Unit {0})
outcome_result (returns o) = ok tt
outcome_result (panics text) = err text

abbrev pub outcome_payload : {Out : Type 0} → Checked (Option Out) → Option Out
outcome_payload (returns o) = o
outcome_payload (panics text) = none

Forwards-outcome :
    {T Out : Type 0} (clock : Clock) (output : CuMsg Out) (ctx : clock.Ctx)
    (r : Checked (Option Out)) (p : Processed T output.Msg clock.Ctx)
    → Forwards clock output ctx r p
    → (p.result ≡ outcome_result r) × (output.payload p.output ≡ outcome_payload r)
Forwards-outcome clock output ctx (returns (some v)) p (r, o, t) = (r, o)
Forwards-outcome clock output ctx (returns none) p h = h
Forwards-outcome clock output ctx (panics text) p h = h

module _ {M In Out : Type 0} (spec : FsmSpec M In Out) (clock : Clock) (input : CuMsg In) where
  pub process_outcome :
      (output : CuMsg Out) (task : FsmTask M) (ctx : clock.Ctx) (msg : input.Msg) (out : output.Msg)
      → let (machine, r) = run_step spec task.machine (trigger_for clock input ctx msg).0 in
        let p = Task.process spec clock input output task ctx msg out in
        (p.task.machine ≡ machine)
        × (p.result ≡ outcome_result r)
        × (output.payload p.output ≡ outcome_payload r)
  process_outcome output task ctx msg out =
      let (trigger, ctx') = trigger_for clock input ctx msg in
      let (same, forwards) = process-run_step spec clock input output task ctx msg out in
      let (result, payload) =
        Forwards-outcome clock output ctx' (run_step spec task.machine trigger).1 _ forwards in
      (same, result, payload)

  -- A cycle of `FsmTask` whose input has a payload or a time of validity does not depend on the
  -- clock: in any two contexts, and over any two output slots, it leaves the same machine, the same
  -- result and the same payload.
  pub process-recorded :
      (output : CuMsg Out) (task : FsmTask M) (c d : clock.Ctx) (msg : input.Msg)
      (out out' : output.Msg)
      → IsRecorded clock input msg
      → let p = Task.process spec clock input output task c msg out in
        let q = Task.process spec clock input output task d msg out' in
        (p.task.machine ≡ q.task.machine)
        × (p.result ≡ q.result)
        × (output.payload p.output ≡ output.payload q.output)
  process-recorded output task c d msg out out' h =
      let step = λ (t : Trigger In). run_step spec task.machine t in
      let same : step (trigger_for clock input c msg).0 ≡ step (trigger_for clock input d msg).0 =
        ap step (trigger_for-recorded clock input c d msg h) in
      let (pm, pr, pp) = process_outcome output task c msg out in
      let (qm, qr, qp) = process_outcome output task d msg out' in
      (
        pm ∙ ap (λ r. r.0) same ∙ sym qm,
        pr ∙ ap (λ r. outcome_result r.1) same ∙ sym qr,
        pp ∙ ap (λ r. outcome_payload r.1) same ∙ sym qp,
      )

  -- The payloads of successive cycles of `FsmBatchTask`, each in its own context.
  pub live :
      (output : CuMsg (Batch Out))
      → FsmBatchTask M
      → List (clock.Ctx × input.Msg × output.Msg)
      → List (Option (Batch Out))
  live output task [] = []
  live output task ((ctx, msg, out) ∷ cycles) =
      let p = Batch.process spec clock input output task ctx msg out in
      output.payload p.output ∷ live output p.task cycles

  -- The same decisions made by `run_step_all` on a machine, with no runtime.
  pub replay : M → List (Trigger In) → List (Option (Batch Out))
  replay machine [] = []
  replay machine (t ∷ ts) =
      let (machine', outs) = run_step_all spec machine t in batch_of outs ∷ replay machine' ts

  -- For every machine and every run of cycles whose inputs have a payload or a time of validity, the
  -- payloads that `FsmBatchTask` put out, whatever its clock read in each cycle, are those that
  -- `run_step_all` gives for the recorded triggers, starting from the same machine. The triggers are
  -- read off the inputs in any one context.
  pub live-replay :
      (output : CuMsg (Batch Out)) (cold : clock.Ctx) (task : FsmBatchTask M)
      (cycles : List (clock.Ctx × input.Msg × output.Msg))
      → All (λ c. IsRecorded clock input c.1) cycles
      → live output task cycles
        ≡ replay task.machine (map (λ c. (trigger_for clock input cold c.1).0) cycles)
  unfolding live replay
  live-replay output cold task [] h = refl
  live-replay output cold task ((ctx, msg, out) ∷ cycles) (recorded, h) =
      let p = Batch.process spec clock input output task ctx msg out in
      let (machine, fine, payload) =
        process-run_step_all spec clock input output task ctx msg out in
      let same =
        ap (run_step_all spec task.machine)
          (trigger_for-recorded clock input ctx cold msg recorded) in
      let rest = λ (m : M). replay m (map (λ c. (trigger_for clock input cold c.1).0) cycles) in
      ap₂ ◌∷◌ (payload ∙ ap (λ r. batch_of r.1) same)
        (live-replay output cold p.task cycles h ∙ ap rest (machine ∙ ap (λ r. r.0) same))
