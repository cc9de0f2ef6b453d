-- ===== src/Echo.antt =====
-- examples/echo/src/echo.rs: the store, the one-state machine and the FSM of the echo service.
pub mod Feeder
pub mod Numbering
pub mod Service
pub mod Threads
pub mod SetUp
pub mod Main
use Prim.Native.String.{◌++◌}
use msrs.Shared.{ℕ, ◌+◌, ◌%◌, ◌^◌, Option, none, some, String, to_decimal}
use msrs.Trigger.{Trigger, message?}
use msrs.Effects.{Effects, emit}
use msrs.Fsm.{FsmSpec}
use msrs.Statig.{Outcome, handled, Handler, Statig}

-- The payload: a wrapped string.
pub record EchoMsg : Type 0 where
  pub body : String

-- `count` is a u64.
pub record EchoStore : Type 0 where
  pub count : ℕ

-- `count + 1` on a u64, as a release build computes it.
abbrev pub next_count : ℕ → ℕ
next_count n = (n + 1) % 2 ^ 64

unfoldable pub echo : EchoStore → String → String
echo s msg = "echo " ++ (to_decimal (next_count s.count) ++ (": " ++ msg))

pub record EchoCtx : Type 0 where
  pub store : EchoStore
  pub emitted : Option String

pub record EchoEvent : Type 0 where
  pub body : String

pub data State : Type 0 where
  running : State

unfoldable pub running_handler : EchoCtx → EchoEvent → Outcome State × EchoCtx
unfolding echo
running_handler c e = (
  handled,
  record {
    store = record { count = next_count c.store.count };
    emitted = some (echo c.store e.body);
  },
)

-- The handlers of `EchoGate`, by state.
unfoldable pub handler : Handler State EchoCtx EchoEvent
unfolding running_handler
handler running c e = running_handler c e

unfoldable pub default_ctx : EchoCtx
default_ctx = record { store = record { count = 0 }; emitted = none }

-- The machine that statig generates from the handler.
abbrev pub Gate : Type 1
Gate = Statig running handler

pub record EchoMachine (gate : Gate) : Type 0 where
  pub sm : gate.Machine
  pub ctx : EchoCtx

-- The `Debug` text of a state.
abbrev pub state_text : State → String
state_text running = "Running"

module _ (gate : Gate) where
  unfoldable pub default : EchoMachine gate
  unfolding default_ctx
  default = let (sm, ctx) = gate.init_with_context default_ctx in record { sm = sm; ctx = ctx }

  -- The `if let Some(out)`.
  unfoldable pub emit_some : Option String → Effects EchoMsg → Effects EchoMsg
  emit_some none effects = effects
  emit_some (some out) effects = emit effects (record { body = out })

  -- `self.ctx.emitted.take()`, and what becomes of the value.
  unfoldable pub forward_emitted :
      EchoMachine gate → Effects EchoMsg → EchoMachine gate × Effects EchoMsg
  unfolding emit_some
  forward_emitted m effects =
      (record m { ctx = record (m.ctx) { emitted = none } }, emit_some m.ctx.emitted effects)

  unfoldable pub step_message :
      EchoMachine gate → Option EchoMsg → Effects EchoMsg → EchoMachine gate × Effects EchoMsg
  unfolding forward_emitted
  step_message m none effects = (m, effects)
  step_message m (some msg) effects =
      let (sm, ctx) =
        gate.handle_with_context m.sm (record { body = msg.body })
          (record (m.ctx) { emitted = none }) in
      forward_emitted (record { sm = sm; ctx = ctx }) effects

  unfoldable pub step :
      EchoMachine gate → Trigger EchoMsg → Effects EchoMsg → EchoMachine gate × Effects EchoMsg
  unfolding step_message
  step m trigger effects = step_message m (message? trigger) effects

  unfoldable pub state_name : EchoMachine gate → String
  state_name m = state_text (gate.state m.sm)

  abbrev pub echo_spec : FsmSpec (EchoMachine gate) EchoMsg EchoMsg
  echo_spec = record { step = step }
