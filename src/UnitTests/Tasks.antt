-- ===== src/UnitTests/Tasks.antt =====
-- crates/msrs-transport/src/tasks.rs: its unit tests. Both ends of a channel are one queue, which the
-- tests park as the value of both types of ends; no other thread runs.
use msrs.Shared.{
  ℕ, ◌≡◌, refl, Bool, true, false, not, ◌&&◌, none, some, List, [], ◌∷◌, ok?, returns, is_nil,
  length, ◌==◌, ℕ_discrete,
}
use msrs.Shared.Checks.{◌>>=◌, ◌>>◌}
use msrs.Copper.{Tov, time, range, unset}
use msrs.Channel.{Channel}
use msrs.Channel.Drain.{quiet, drain}
use msrs.Channel.Queue.{Queue, queue}
use msrs.Fsm.Batch.{Batch}
use msrs.Registry.{Types, Registry}
use msrs.Registry
use msrs.Tasks.{Cycle, ingress_step, egress_step, cycle_step}
use msrs.Tasks.Ingress
use msrs.Tasks.CycleIngress
use msrs.Tasks.Egress
use msrs.UnitTests.Assert.{
  Test, assert_eq, assert_that, same_nat, same_option, same_elements, is_ok, is_none, unwrap,
}
use msrs.UnitTests.FsmTask.{mock_clock}
use msrs.Examples.Plain.{PlainMsg, plain_msg}

abbrev numbers : Channel ℕ
numbers = queue ℕ

ingress_passes_through_and_handles_empty : Test
ingress_passes_through_and_handles_empty = do
  let c = numbers.unbounded
  assert_eq (same_option same_nat) (ingress_step numbers c).0 none
  let (sent, c') = numbers.send c 7
  assert_that (is_ok sent)
  assert_eq (same_option same_nat) (ingress_step numbers c').0 (some 7)

ingress_passes_through_passes : ingress_passes_through_and_handles_empty ≡ returns tt
unfolding ingress_passes_through_and_handles_empty ingress_step
ingress_passes_through_passes = refl

egress_forwards_present_payload_only : Test
egress_forwards_present_payload_only = do
  let (first, c) = egress_step numbers numbers.unbounded none
  assert_that (is_ok first)
  assert_that (not (is_ok (numbers.try_recv c).0))
  let (second, c') = egress_step numbers c (some 9)
  assert_that (is_ok second)
  value ← unwrap (ok? (numbers.try_recv c').0)
  assert_eq same_nat value 9

egress_forwards_passes : egress_forwards_present_payload_only ≡ returns tt
unfolding egress_forwards_present_payload_only egress_step
egress_forwards_passes = refl

abbrev holding : List ℕ → Queue ℕ
holding l = record { items = l; cap = none; alive = true }

-- The five sends have filled the queue.
cycle_step_drains_bounded_batch_and_reports_pending : Test
cycle_step_drains_bounded_batch_and_reports_pending = do
  let (c, rx, calls) = cycle_step numbers (quiet numbers) (holding (0 ∷ 1 ∷ 2 ∷ 3 ∷ 4 ∷ [])) 3 77
  assert_eq (same_elements same_nat) c.events (0 ∷ 1 ∷ 2 ∷ [])
  assert_eq same_nat c.pending 2
  assert_eq same_nat c.now_ns 77
  let (d, rx', calls') = cycle_step numbers (quiet numbers) rx 3 78
  assert_eq (same_elements same_nat) d.events (3 ∷ 4 ∷ [])
  assert_eq same_nat d.pending 0
  let (e, rx'', calls'') = cycle_step numbers (quiet numbers) rx' 3 79
  assert_that (is_nil e.events)
  assert_eq same_nat e.now_ns 79

cycle_step_drains_passes : cycle_step_drains_bounded_batch_and_reports_pending ≡ returns tt
unfolding cycle_step_drains_bounded_batch_and_reports_pending cycle_step drain
cycle_step_drains_passes = refl

-- One type of ends, that of the queue.
abbrev types : Types
types = record {
  Key = ℕ;
  key_discrete = ℕ_discrete;
  key_name = λ k. "task";
  Code = ℕ;
  code_discrete = ℕ_discrete;
  code_name = λ c. "queue";
  Value = λ c. Queue ℕ;
}

abbrev at_first : Registry types
at_first = record { slots = λ k. none; held = false; poisoned = false }

-- Whether the time of validity is this time.
abbrev is_time : ℕ → Tov → Bool
is_time t (time u) = t == u
is_time t (range r) = false
is_time t unset = false

ingress_task_stamps_tov_on_empty_cycles : Test
ingress_task_stamps_tov_on_empty_cycles = do
  let (r, installed) = Ingress.install types 0 0 at_first numbers.unbounded
  installed
  task ← unwrap (ok? (Ingress.new types 0 0 r none).1)
  let out : PlainMsg ℕ = record { held = none; stamp = unset }
  let p = Ingress.process numbers mock_clock (plain_msg ℕ) 1234 task.rx out
  assert_that (is_ok p.result)
  assert_that (is_none p.output.held)
  assert_that (is_time 1234 p.output.stamp)

ingress_task_stamps_passes : ingress_task_stamps_tov_on_empty_cycles ≡ returns tt
unfolding ingress_task_stamps_tov_on_empty_cycles Ingress.install Ingress.new Ingress.process
    ingress_step Registry.install Registry.take ℕ_discrete
ingress_task_stamps_passes = refl

cycle_ingress_task_emits_every_iteration : Test
cycle_ingress_task_emits_every_iteration = do
  let (r, installed) = CycleIngress.install types 1 0 at_first numbers.unbounded
  installed
  task ← unwrap (ok? (CycleIngress.new types 1 0 r none).1)
  let out : PlainMsg (Cycle ℕ) = record { held = none; stamp = unset }
  let p =
      CycleIngress.process numbers mock_clock (plain_msg (Cycle ℕ)) task (quiet numbers) (λ n. 10)
        task.rx out
  assert_that (is_ok p.result)
  c ← unwrap p.output.held
  assert_that (c.now_ns == 10 && length c.events == 0)
  let (first, one) = numbers.send p.chan 1
  assert_that (is_ok first)
  let (second, two) = numbers.send one 2
  assert_that (is_ok second)
  let q =
      CycleIngress.process numbers mock_clock (plain_msg (Cycle ℕ)) task (quiet numbers) (λ n. 20)
        two p.output
  assert_that (is_ok q.result)
  d ← unwrap q.output.held
  assert_eq same_nat d.now_ns 20
  assert_eq (same_elements same_nat) d.events (1 ∷ 2 ∷ [])

cycle_ingress_task_emits_passes : cycle_ingress_task_emits_every_iteration ≡ returns tt
unfolding cycle_ingress_task_emits_every_iteration CycleIngress.install CycleIngress.new
    CycleIngress.process cycle_step drain Registry.install Registry.take ℕ_discrete
cycle_ingress_task_emits_passes = refl

batch_egress_forwards_each_value_in_order : Test
batch_egress_forwards_each_value_in_order = do
  let (r, installed) = Egress.install_batch types 2 0 at_first numbers.unbounded
  installed
  task ← unwrap (ok? (Egress.new_batch types 2 0 r none).1)
  let input : PlainMsg (Batch ℕ) = record {
    held = some (record { values = 1 ∷ 2 ∷ [] });
    stamp = unset;
  }
  let (sent, rx) = Egress.process_batch numbers (plain_msg (Batch ℕ)) task.tx input
  assert_that (is_ok sent)
  assert_eq (same_elements same_nat) (numbers.contents rx) (1 ∷ 2 ∷ [])

batch_egress_forwards_passes : batch_egress_forwards_each_value_in_order ≡ returns tt
unfolding batch_egress_forwards_each_value_in_order Egress.install_batch Egress.new_batch
    Egress.process_batch egress_step Registry.install Registry.take ℕ_discrete
batch_egress_forwards_passes = refl
