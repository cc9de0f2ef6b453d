-- ===== src/UnitTests/Echo.antt =====
-- examples/echo/src/echo.rs: its unit tests.
use msrs.Shared.{◌≡◌, refl, Bool, none, some, returns, to_decimal}
use msrs.Shared.Checks.{◌>>=◌, ◌>>◌}
use msrs.Trigger.{tick, message, message?}
use msrs.Fsm.{run_step}
use msrs.Echo.{
  EchoMsg, EchoStore, echo, running, handler, Gate, EchoMachine, default, default_ctx, echo_spec,
  state_name,
}
use msrs.Echo.Feeder.{new_msg}
use msrs.UnitTests.Assert.{Test, assert_eq, same_text, same_option}
use msrs.Examples.Plain.{plain_statig}

abbrev gate : Gate
gate = plain_statig running handler

abbrev same_msg : EchoMsg → EchoMsg → Bool
same_msg a b = same_text a.body b.body

echo_formats_with_next_index : Test
echo_formats_with_next_index = assert_eq same_text (echo default_ctx.store "hi") "echo 1: hi"

echo_formats_with_next_index_passes : echo_formats_with_next_index ≡ returns tt
unfolding echo_formats_with_next_index echo to_decimal default_ctx
echo_formats_with_next_index_passes = refl

echo_uses_current_count : Test
echo_uses_current_count = assert_eq same_text (echo (record { count = 4 }) "hi") "echo 5: hi"

echo_uses_current_count_passes : echo_uses_current_count ≡ returns tt
unfolding echo_uses_current_count echo to_decimal
echo_uses_current_count_passes = refl

machine_echoes_on_message_and_counts_up : Test
machine_echoes_on_message_and_counts_up = do
  let first = run_step (echo_spec gate) (default gate) (message (new_msg "hello"))
  a ← first.1
  assert_eq (same_option same_msg) a (some (new_msg "echo 1: hello"))
  b ← (run_step (echo_spec gate) first.0 (message (new_msg "world"))).1
  assert_eq (same_option same_msg) b (some (new_msg "echo 2: world"))

machine_echoes_passes : machine_echoes_on_message_and_counts_up ≡ returns tt
unfolding machine_echoes_on_message_and_counts_up run_step msrs.Echo.step message?
    msrs.Effects.take_one msrs.Effects.empty msrs.Effects.emit handler default default_ctx
    to_decimal state_name
machine_echoes_passes = refl

machine_emits_nothing_on_tick : Test
machine_emits_nothing_on_tick = do
  out ← (run_step (echo_spec gate) (default gate) (tick 123)).1
  assert_eq (same_option same_msg) out none

machine_emits_nothing_on_tick_passes : machine_emits_nothing_on_tick ≡ returns tt
unfolding machine_emits_nothing_on_tick run_step msrs.Echo.step message? msrs.Effects.take_one
    msrs.Effects.empty msrs.Effects.emit handler default default_ctx to_decimal state_name
machine_emits_nothing_on_tick_passes = refl

statig_machine_is_initialized_before_first_step : Test
statig_machine_is_initialized_before_first_step = do
  let m = default gate
  assert_eq same_text (state_name gate m) "Running"
  let m' = (run_step (echo_spec gate) m (message (new_msg "x"))).0
  assert_eq same_text (state_name gate m') "Running"

statig_machine_is_initialized_passes : statig_machine_is_initialized_before_first_step ≡ returns tt
unfolding statig_machine_is_initialized_before_first_step run_step msrs.Echo.step message?
    msrs.Effects.take_one msrs.Effects.empty msrs.Effects.emit handler default default_ctx
    to_decimal state_name
statig_machine_is_initialized_passes = refl
