-- ===== src/UnitTests/FsmTask.antt =====
-- crates/msrs-core/src/fsm_task.rs: its unit tests, with the machines that they define.
use Prim.Native.String.{◌++◌}
use text.Mathlib.Text.{find?}
use msrs.Shared.{
  ℕ, ◌+◌, ◌%◌, ◌^◌, ◌≡◌, refl, Bool, true, not, Option, none, some, [], ◌∷◌, String, returns,
  to_decimal, is_nil, is_some,
}
use msrs.Shared.Checks.{◌>>=◌, ◌>>◌}
use msrs.Copper.{Clock, time, unset}
use msrs.Trigger.{Trigger, tick, message, message?}
use msrs.Effects.{Effects, emit}
use msrs.Fsm.{FsmSpec, run_step, run_step_all}
use msrs.Fsm.Task
use msrs.Fsm.Task.{FsmTask}
use msrs.Fsm.Batch
use msrs.Fsm.Batch.{FsmBatchTask, Batch}
use msrs.UnitTests.Assert.{
  Test, assert_eq, assert_that, same_nat, same_text, same_option, same_elements, is_ok, is_none,
  should_panic,
}
use msrs.Examples.Plain.{PlainMsg, plain_msg}

-- `seen` is a u32.
record EchoMachine : Type 0 where
  seen : ℕ

abbrev next_seen : EchoMachine → ℕ
next_seen m = (m.seen + 1) % 2 ^ 32

abbrev echo_on : EchoMachine → Option String → Effects String → EchoMachine × Effects String
echo_on m none effects = (m, effects)
echo_on m (some msg) effects = (
  record { seen = next_seen m },
  emit effects ("echo " ++ (to_decimal (next_seen m) ++ (": " ++ msg))),
)

abbrev echo_machine : FsmSpec EchoMachine String String
echo_machine = record { step = λ m trigger effects. echo_on m (message? trigger) effects }

abbrev new_echo : EchoMachine
new_echo = record { seen = 0 }

-- `as_deref` and the comparison of the test, on what a step returned.
message_produces_echo : Test
unfolding run_step message? msrs.Effects.take_one emit msrs.Effects.empty to_decimal
message_produces_echo = do
  out ← (run_step echo_machine new_echo (message "hi")).1
  assert_eq (same_option same_text) out (some "echo 1: hi")

message_produces_echo_passes : message_produces_echo ≡ returns tt
unfolding message_produces_echo
message_produces_echo_passes = refl

tick_produces_nothing : Test
unfolding run_step message? msrs.Effects.take_one msrs.Effects.empty
tick_produces_nothing = do
  out ← (run_step echo_machine new_echo (tick 123)).1
  assert_eq (same_option same_text) out none

tick_produces_nothing_passes : tick_produces_nothing ≡ returns tt
unfolding tick_produces_nothing
tick_produces_nothing_passes = refl

-- Emits twice per message.
abbrev emit_twice : Option ℕ → Effects ℕ → Effects ℕ
emit_twice none effects = effects
emit_twice (some v) effects = emit (emit effects v) (v + 1)

abbrev double_emitter : FsmSpec (Unit {0}) ℕ ℕ
double_emitter = record { step = λ m trigger effects. (m, emit_twice (message? trigger) effects) }

-- `should_panic(expected = "emitted 2 outputs")`.
run_step_panics_on_double_emit : Bool
unfolding run_step message? msrs.Effects.take_one emit msrs.Effects.empty to_decimal
    msrs.Effects.extra_emits_text
run_step_panics_on_double_emit =
    should_panic (λ t. is_some (find? t "emitted 2 outputs"))
      (run_step double_emitter tt (message 1)).1

run_step_panics_on_double_emit_passes : run_step_panics_on_double_emit ≡ true
unfolding run_step_panics_on_double_emit
run_step_panics_on_double_emit_passes = refl

run_step_all_returns_every_emit : Test
unfolding run_step_all message? msrs.Effects.take emit msrs.Effects.empty
run_step_all_returns_every_emit = do
  let (m, outs) = run_step_all double_emitter tt (message 1)
  assert_eq (same_elements same_nat) outs (1 ∷ 2 ∷ [])
  assert_that (is_nil (run_step_all double_emitter m (tick 0)).1)

run_step_all_returns_every_emit_passes : run_step_all_returns_every_emit ≡ returns tt
unfolding run_step_all_returns_every_emit
run_step_all_returns_every_emit_passes = refl

-- Records the tick time it was given.
record TickProbe : Type 0 where
  last_tick : Option ℕ

abbrev probe_on : TickProbe → Trigger ℕ → TickProbe
probe_on m (tick ns) = record { last_tick = some ns }
probe_on m (message v) = m

abbrev tick_probe : FsmSpec TickProbe ℕ ℕ
tick_probe = record { step = λ m trigger effects. (probe_on m trigger, effects) }

-- The mock clock at 999, which stands still.
abbrev pub mock_clock : Clock
mock_clock = record { Ctx = ℕ; now = λ c. (c, c) }

fsm_task_ticks_at_recorded_input_tov_not_clock : Test
unfolding Task.process msrs.Fsm.Adapter.trigger_for msrs.Effects.take_one msrs.Effects.empty
fsm_task_ticks_at_recorded_input_tov_not_clock = do
  let task : FsmTask TickProbe = record { machine = record { last_tick = none } }
  let input : PlainMsg ℕ = record { held = none; stamp = time 42 }
  let output : PlainMsg ℕ = record { held = none; stamp = unset }
  let p = Task.process tick_probe mock_clock (plain_msg ℕ) (plain_msg ℕ) task 999 input output
  assert_that (is_ok p.result)
  assert_eq (same_option same_nat) p.task.machine.last_tick (some 42)

fsm_task_ticks_passes : fsm_task_ticks_at_recorded_input_tov_not_clock ≡ returns tt
unfolding fsm_task_ticks_at_recorded_input_tov_not_clock
fsm_task_ticks_passes = refl

fsm_task_errors_on_double_emit : Test
unfolding Task.process msrs.Fsm.Adapter.trigger_for message? msrs.Effects.take_one emit
    msrs.Effects.empty
fsm_task_errors_on_double_emit = do
  let task : FsmTask (Unit {0}) = record { machine = tt }
  let input : PlainMsg ℕ = record { held = some 1; stamp = unset }
  let output : PlainMsg ℕ = record { held = none; stamp = unset }
  let p = Task.process double_emitter mock_clock (plain_msg ℕ) (plain_msg ℕ) task 999 input output
  assert_that (not (is_ok p.result))
  assert_that (is_none p.output.held)

fsm_task_errors_on_double_emit_passes : fsm_task_errors_on_double_emit ≡ returns tt
unfolding fsm_task_errors_on_double_emit
fsm_task_errors_on_double_emit_passes = refl

-- `==` on batches of numbers.
abbrev same_batch : Batch ℕ → Batch ℕ → Bool
same_batch a b = same_elements same_nat a.values b.values

fsm_batch_task_forwards_every_emit : Test
unfolding Batch.process msrs.Fsm.Adapter.trigger_for message? msrs.Effects.take emit
    msrs.Effects.empty
fsm_batch_task_forwards_every_emit = do
  let task : FsmBatchTask (Unit {0}) = record { machine = tt }
  let five : PlainMsg ℕ = record { held = some 5; stamp = unset }
  let nothing : PlainMsg ℕ = record { held = none; stamp = unset }
  let output : PlainMsg (Batch ℕ) = record { held = none; stamp = unset }
  let p =
      Batch.process double_emitter mock_clock (plain_msg ℕ) (plain_msg (Batch ℕ)) task 999 five
        output
  assert_that (is_ok p.result)
  assert_eq (same_option same_batch) p.output.held (some (record { values = 5 ∷ 6 ∷ [] }))
  let q =
      Batch.process double_emitter mock_clock (plain_msg ℕ) (plain_msg (Batch ℕ)) p.task 999 nothing
        p.output
  assert_that (is_ok q.result)
  assert_that (is_none q.output.held)

fsm_batch_task_forwards_every_emit_passes : fsm_batch_task_forwards_every_emit ≡ returns tt
unfolding fsm_batch_task_forwards_every_emit
fsm_batch_task_forwards_every_emit_passes = refl
