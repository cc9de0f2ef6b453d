-- ===== src/Examples/Fsm.antt =====
-- The theorems on effects and on the two FSM adapters, at concrete inputs.
use msrs.Shared.{ℕ, ◌≡◌, inr, some, List, [], ◌∷◌, ok}
use msrs.Trigger.{tick, message}
use msrs.Effects.{empty, take, emit_all}
use msrs.Fsm.{run_step, run_step_all}
use msrs.Fsm.Adapter.{trigger_for}
use msrs.Fsm.Task
use msrs.Fsm.Task.{FsmTask}
use msrs.Fsm.Batch
use msrs.Fsm.Batch.{FsmBatchTask, Batch}
use msrs.Fsm.Forwarding.{Forwards, process-run_step, process-run_step_all}
use msrs.Fsm.Recorded.{live, replay, live-replay}
use msrs.Examples.Plain.{PlainMsg, plain_msg, message_at, empty_at, counting, counter}

abbrev counting_task : FsmTask ℕ
counting_task = record { machine = 4 }

process-run_step_example :
    let (trigger, ctx') = trigger_for counting (plain_msg ℕ) 100 (message_at 9 5) in
    let (machine, outcome) = run_step counter 4 trigger in
    let p =
      Task.process counter counting
        (plain_msg ℕ)
        (plain_msg ℕ)
        counting_task
        100
        (message_at 9 5)
        (empty_at 0) in
    (p.task.machine ≡ machine) × Forwards counting (plain_msg ℕ) ctx' outcome p
process-run_step_example =
    process-run_step counter counting (plain_msg ℕ) (plain_msg ℕ) counting_task 100 (message_at 9 5)
      (empty_at 0)

abbrev pub counting_batch : FsmBatchTask ℕ
counting_batch = record { machine = 4 }

process-run_step_all_example :
    let p =
      Batch.process counter counting
        (plain_msg ℕ)
        (plain_msg (Batch ℕ))
        counting_batch
        100
        (message_at 9 5)
        (empty_at 0) in
    (p.task.machine ≡ 5)
    × (p.result ≡ ok tt)
    × (p.output.held ≡ some (record { values = 4 ∷ 9 ∷ [] }))
unfolding run_step_all trigger_for take empty emit_all
process-run_step_all_example =
    process-run_step_all counter counting (plain_msg ℕ) (plain_msg (Batch ℕ)) counting_batch 100
      (message_at 9 5) (empty_at 0)

abbrev pub three_cycles : List (ℕ × PlainMsg ℕ × PlainMsg (Batch ℕ))
three_cycles =
    (100, message_at 9 5, empty_at 0)
    ∷ (300, empty_at 6, empty_at 0)
    ∷ (200, message_at 3 7, message_at (record { values = [] }) 1)
    ∷ []

live-replay_example :
    live counter counting (plain_msg ℕ) (plain_msg (Batch ℕ)) counting_batch three_cycles
    ≡ replay counter counting (plain_msg ℕ) 4 (message 9 ∷ tick 6 ∷ message 3 ∷ [])
unfolding trigger_for
live-replay_example =
    live-replay counter counting (plain_msg ℕ) (plain_msg (Batch ℕ)) 0 counting_batch three_cycles
      (inr (λ e. cc), (inr (λ e. cc), (inr (λ e. cc), tt)))
