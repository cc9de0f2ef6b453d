-- ===== src/Echo/Numbering.antt =====
-- examples/echo/src/echo.rs: what one step of the echo machine answers.
use Prim.Native.String.{◌++◌}
use msrs.Shared.{ℕ, ◌≡◌, refl, ap, ◌∙◌, Option, none, some, String, returns, to_decimal}
use msrs.Trigger.{Trigger, tick, message, message?}
use msrs.Effects.{empty, emit, take_one, at_most_one}
use msrs.Fsm.{run_step, unwrap_one}
use msrs.Echo.{
  EchoMsg, next_count, echo, EchoCtx, running, handler, running_handler, Gate, EchoMachine, default,
  default_ctx, emit_some, forward_emitted, step_message, step, echo_spec,
}

-- The text of the n-th echo.
abbrev pub nth_echo : ℕ → String → EchoMsg
nth_echo n body = record { body = "echo " ++ (to_decimal n ++ (": " ++ body)) }

-- The answer to a trigger after `count` echoes, and the count after it.
abbrev pub answer : ℕ → Trigger EchoMsg → Option EchoMsg
answer count (tick t) = none
answer count (message msg) = some (nth_echo (next_count count) msg.body)

abbrev pub count_after : ℕ → Trigger EchoMsg → ℕ
count_after count (tick t) = count
count_after count (message msg) = next_count count

module _ (gate : Gate) where
  -- What the handler leaves in the context.
  handled_ctx :
      (m : gate.Machine) (c : EchoCtx) (body : String)
      → (gate.handle_with_context m (record { body = body }) c).1 ≡ record {
        store = record { count = next_count c.store.count };
        emitted = some (nth_echo (next_count c.store.count) body).body;
      }
  unfolding handler running_handler echo
  handled_ctx m c body = gate.context-handle m (record { body = body }) c ∙ by_state (gate.state m)
    where
      by_state :
          (s : _)
          → (handler s c (record { body = body })).1 ≡ record {
            store = record { count = next_count c.store.count };
            emitted = some (nth_echo (next_count c.store.count) body).body;
          }
      by_state running = refl

  -- On a message, one step of the echo machine answers exactly one text, which carries the number of
  -- messages so far, this one included (modulo 2^64), and counts it; on a tick it answers nothing
  -- and counts nothing. It never emits twice.
  pub run_step-answer :
      (m : EchoMachine gate) (t : Trigger EchoMsg)
      → let (m', outcome) = run_step (echo_spec gate) m t in
        (outcome ≡ returns (answer m.ctx.store.count t))
        × (m'.ctx.store.count ≡ count_after m.ctx.store.count t)
  unfolding run_step step step_message forward_emitted emit_some message? take_one at_most_one empty
      emit
  run_step-answer m (tick t) = (refl, refl)
  run_step-answer m (message msg) =
      let c = record (m.ctx) { emitted = none } in
      let left = handled_ctx m.sm c msg.body in
      (
        ap (λ d. unwrap_one (take_one (emit_some gate d.emitted empty)).0) left,
        ap (λ d. d.store.count) left,
      )

  pub count-default : (default gate).ctx.store.count ≡ 0
  unfolding default default_ctx
  count-default = ap (λ c. c.store.count) (gate.context-init default_ctx)
