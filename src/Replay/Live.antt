-- ===== src/Replay/Live.antt =====
-- crates/msrs-core/src/replay.rs over crates/msrs-core/src/fsm_task.rs: the gate on a live run.
use msrs.Shared.{
  ℕ, suc, ◌+◌, ◌<◌, ◌^◌, ◌≡◌, refl, sym, ap, ◌∙◌, ◌≢◌, true, Option, List, [], ◌∷◌, String, length,
  All, arith,
}
use msrs.Copper.{CuMsg, Clock}
use msrs.Trigger.{Trigger}
use msrs.Fsm.{FsmSpec, run_step_all}
use msrs.Fsm.Adapter.{trigger_for, IsRecorded, trigger_for-recorded}
use msrs.Fsm.Batch.{FsmBatchTask, Batch, process}
use msrs.Fsm.Forwarding.{batch_of, process-run_step_all}
use msrs.Replay.{Recorded, Gate, passed, replay_gate}
use msrs.Replay.Spec.{ids, replayed}
use msrs.Replay.Verdict.{HasSuccessor, Contiguous, SameEncoding, passed_iff}

-- The closure of a replay: `run_step_all` on a cold machine, the outputs as a batch.
abbrev pub replay_step :
    {M In Out : Type 0} → FsmSpec M In Out → M → Trigger In → M × Option (Batch Out)
replay_step spec machine trigger =
    let (machine', outs) = run_step_all spec machine trigger in (machine', batch_of outs)

module _ {M In Out : Type 0} (spec : FsmSpec M In Out) (clock : Clock) (input : CuMsg In)
    (output : CuMsg (Batch Out)) (encode : Option (Batch Out) → Option (List ℕ))
    (debug_input : Trigger In → String) (debug_output : Option (Batch Out) → String)
    (cold : clock.Ctx) where
  abbrev pub gate : Gate M (Trigger In) (Option (Batch Out))
  gate = record {
    encode = encode;
    debug_input = debug_input;
    debug_output = debug_output;
    step = replay_step spec;
  }

  -- The log of a live run: each cycle's input, as a trigger, and its output, under ids that count up
  -- from the first. The triggers are read off the logged inputs in the context `cold`.
  pub log_run :
      ℕ
      → FsmBatchTask M
      → List (clock.Ctx × input.Msg × output.Msg)
      → List (Recorded (Trigger In) (Option (Batch Out)))
  log_run id task [] = []
  log_run id task ((ctx, msg, out) ∷ cycles) =
      let p = process spec clock input output task ctx msg out in
      record {
        id = id;
        input = (trigger_for clock input cold msg).0;
        output = output.payload p.output;
      }
      ∷ log_run (suc id) p.task cycles

  log_run-SameEncoding :
      (id : ℕ) (task : FsmBatchTask M) (m : M) (cycles : List (clock.Ctx × input.Msg × output.Msg))
      → m ≡ task.machine
      → All (λ c. IsRecorded clock input c.1) cycles
      → All (SameEncoding gate) (replayed gate m (log_run id task cycles))
  unfolding log_run
  log_run-SameEncoding id task m [] same h = tt
  log_run-SameEncoding id task m ((ctx, msg, out) ∷ cycles) same (recorded, h) =
      let p = process spec clock input output task ctx msg out in
      let (machine, fine, payload) =
        process-run_step_all spec clock input output task ctx msg out in
      let steps : run_step_all spec m (trigger_for clock input cold msg).0
          ≡ run_step_all spec task.machine (trigger_for clock input ctx msg).0 =
        ap (λ k. run_step_all spec k (trigger_for clock input cold msg).0) same
        ∙ ap (run_step_all spec task.machine)
            (sym (trigger_for-recorded clock input ctx cold msg recorded)) in
      (
        ap encode (ap (λ r. batch_of r.1) steps ∙ sym payload),
        log_run-SameEncoding (suc id) p.task _ cycles (ap (λ r. r.0) steps ∙ sym machine) h,
      )

  log_run-Contiguous :
      (id : ℕ) (task : FsmBatchTask M) (cycles : List (clock.Ctx × input.Msg × output.Msg))
      → Contiguous (ids (log_run id task cycles))
  unfolding log_run
  log_run-Contiguous id task [] = tt
  log_run-Contiguous id task (c ∷ []) = tt
  log_run-Contiguous id task ((ctx, msg, out) ∷ d ∷ cycles) = (
    omega arith,
    log_run-Contiguous (suc id) (process spec clock input output task ctx msg out).task
        (d ∷ cycles),
  )

  log_run-HasSuccessor :
      (id : ℕ) (task : FsmBatchTask M) (cycles : List (clock.Ctx × input.Msg × output.Msg))
      → id + length cycles < 2 ^ 64
      → All HasSuccessor (ids (log_run id task cycles))
  unfolding log_run
  log_run-HasSuccessor id task [] h = tt
  log_run-HasSuccessor id task ((ctx, msg, out) ∷ cycles) h = (
    omega arith,
    log_run-HasSuccessor (suc id) (process spec clock input output task ctx msg out).task cycles
        (omega arith),
  )

  -- The determinism gate passes for every machine: record a live run of one cycle or more of
  -- `FsmBatchTask`, whatever its clock read, in which each input had a payload or a time of validity
  -- and the ids stay below 2^64 - 1, and replay it with `run_step_all` from the machine that the run
  -- started with; the report passes, for any encoder.
  pub log_run-passed :
      (id : ℕ) (task : FsmBatchTask M) (cycles : List (clock.Ctx × input.Msg × output.Msg))
      → cycles ≢ []
      → All (λ c. IsRecorded clock input c.1) cycles
      → id + length cycles < 2 ^ 64
      → passed (replay_gate gate task.machine (log_run id task cycles)) ≡ true
  unfolding log_run
  log_run-passed id task [] some_cycle h small = absurd (some_cycle refl)
  log_run-passed id task (c ∷ cycles) some_cycle h small =
      (passed_iff gate task.machine (log_run id task (c ∷ cycles))
          (log_run-HasSuccessor id task (c ∷ cycles) small)).1
        (
          (λ e. cc),
          log_run-SameEncoding id task task.machine (c ∷ cycles) refl h,
          log_run-Contiguous id task (c ∷ cycles),
        )
