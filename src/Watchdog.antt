-- ===== src/Watchdog.antt =====
-- examples/watchdog/src/watchdog.rs: the store, the state machine and the FSM of the watchdog.
pub mod Spec
pub mod Refines
pub mod Runs
pub mod Service
pub mod Main
pub mod Threads
pub mod SetUp
pub mod Pulse
use msrs.Shared.{
  ℕ, ◌-◌, Bool, true, false, ◌&&◌, Option, none, some, List, [], ◌∷◌, ◌++◌, String, is_some, ltb,
  if◌then◌else◌,
}
use msrs.Trigger.{Trigger, message?}
use msrs.Effects.{Effects, emit_all}
use msrs.Fsm.{FsmSpec}
use msrs.Tasks.{Cycle}
use msrs.Statig.{Outcome, handled, transition, Handler, Statig}

-- A heartbeat: its sequence number, a u32.
pub record Feed : Type 0 where
  pub sequence : ℕ

pub data Alarm : Type 0 where
  armed_alarm : Alarm
  tripped_alarm : ℕ → Alarm
  recovered_alarm : Alarm

abbrev pub timeout_ns : ℕ
timeout_ns = 50_000_000

pub record WatchdogStore : Type 0 where
  pub timeout_ns : ℕ
  pub last_feed_ns : Option ℕ

unfoldable pub new_store : ℕ → WatchdogStore
new_store timeout = record { timeout_ns = timeout; last_feed_ns = none }

unfoldable pub record_feed : WatchdogStore → ℕ → WatchdogStore
record_feed s now_ns = record s { last_feed_ns = some now_ns }

-- `saturating_sub` is the subtraction of ℕ.
abbrev silent_since : Option ℕ → ℕ → ℕ
silent_since none now_ns = 0
silent_since (some t) now_ns = now_ns - t

unfoldable pub silent_ns : WatchdogStore → ℕ → ℕ
silent_ns s now_ns = silent_since s.last_feed_ns now_ns

unfoldable pub expired : WatchdogStore → ℕ → Bool
unfolding silent_ns
expired s now_ns = is_some s.last_feed_ns && ltb s.timeout_ns (silent_ns s now_ns)

pub record WatchdogCtx : Type 0 where
  pub store : WatchdogStore
  pub now_ns : ℕ
  pub emitted : List Alarm

pub data WatchdogEvent : Type 0 where
  feed check : WatchdogEvent

pub data State : Type 0 where
  idle armed tripped : State

unfoldable pub idle_handler : WatchdogCtx → WatchdogEvent → Outcome State × WatchdogCtx
unfolding record_feed
idle_handler c feed = (
  transition armed,
  record c { store = record_feed c.store c.now_ns; emitted = c.emitted ++ armed_alarm ∷ [] },
)
idle_handler c check = (handled, c)

unfoldable pub armed_handler : WatchdogCtx → WatchdogEvent → Outcome State × WatchdogCtx
unfolding record_feed expired silent_ns
armed_handler c feed = (handled, record c { store = record_feed c.store c.now_ns })
armed_handler c check =
    if expired c.store c.now_ns
    then (
      transition tripped,
      record c { emitted = c.emitted ++ tripped_alarm (silent_ns c.store c.now_ns) ∷ [] },
    )
    else (handled, c)

unfoldable pub tripped_handler : WatchdogCtx → WatchdogEvent → Outcome State × WatchdogCtx
unfolding record_feed
tripped_handler c feed = (
  transition armed,
  record c { store = record_feed c.store c.now_ns; emitted = c.emitted ++ recovered_alarm ∷ [] },
)
tripped_handler c check = (handled, c)

-- The handlers of `WatchdogGate`, by state.
unfoldable pub handler : Handler State WatchdogCtx WatchdogEvent
unfolding idle_handler armed_handler tripped_handler
handler idle c e = idle_handler c e
handler armed c e = armed_handler c e
handler tripped c e = tripped_handler c e

unfoldable pub default_ctx : WatchdogCtx
unfolding new_store
default_ctx = record { store = new_store timeout_ns; now_ns = 0; emitted = [] }

-- The machine that statig generates from the handlers.
abbrev pub Gate : Type 1
Gate = Statig idle handler

pub record WatchdogMachine (gate : Gate) : Type 0 where
  pub sm : gate.Machine
  pub ctx : WatchdogCtx

-- The `Debug` text of a state.
abbrev pub state_text : State → String
state_text idle = "Idle"
state_text armed = "Armed"
state_text tripped = "Tripped"

module _ (gate : Gate) where
  unfoldable pub default : WatchdogMachine gate
  unfolding default_ctx
  default = let (sm, ctx) = gate.init_with_context default_ctx in record { sm = sm; ctx = ctx }

  unfoldable pub dispatch : WatchdogMachine gate → WatchdogEvent → WatchdogMachine gate
  dispatch m e =
      let (sm, ctx) = gate.handle_with_context m.sm e m.ctx in record { sm = sm; ctx = ctx }

  -- `for _ in &cycle.events`.
  unfoldable pub feed_each : WatchdogMachine gate → List Feed → WatchdogMachine gate
  unfolding dispatch
  feed_each m [] = m
  feed_each m (f ∷ fs) = feed_each (dispatch m feed) fs

  -- `for alarm in self.ctx.emitted.drain(..)`.
  unfoldable pub drain_into :
      WatchdogMachine gate → Effects Alarm → WatchdogMachine gate × Effects Alarm
  drain_into m effects =
      (record m { ctx = record (m.ctx) { emitted = [] } }, emit_all effects m.ctx.emitted)

  unfoldable pub step_cycle :
      WatchdogMachine gate
      → Option (Cycle Feed)
      → Effects Alarm
      → WatchdogMachine gate × Effects Alarm
  unfolding feed_each drain_into
  step_cycle m none effects = (m, effects)
  step_cycle m (some cycle) effects =
      let timed : WatchdogMachine gate = record m {
        ctx = record (m.ctx) { now_ns = cycle.now_ns };
      } in
      drain_into (dispatch (feed_each timed cycle.events) check) effects

  unfoldable pub step :
      WatchdogMachine gate
      → Trigger (Cycle Feed)
      → Effects Alarm
      → WatchdogMachine gate × Effects Alarm
  unfolding step_cycle
  step m trigger effects = step_cycle m (message? trigger) effects

  unfoldable pub state_name : WatchdogMachine gate → String
  state_name m = state_text (gate.state m.sm)

  abbrev pub watchdog : FsmSpec (WatchdogMachine gate) (Cycle Feed) Alarm
  watchdog = record { step = step }
