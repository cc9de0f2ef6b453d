-- ===== src/Examples/Plain.antt =====
-- Plain values that meet the interfaces of the external crates, and small machines from the tests of
-- crates/msrs-core/src/fsm_task.rs.
use msrs.Shared.{ℕ, suc, ◌+◌, refl, Bool, Option, none, some, ℕ_discrete}
use msrs.Copper.{CuMsg, Clock, Tov, time, unset}
use msrs.Trigger.{Trigger, tick, message}
use msrs.Effects.{Effects, emit}
use msrs.Fsm.{FsmSpec}
use msrs.Registry.{Types}
use msrs.Statig.{Handler, Statig, next}

pub record PlainMsg (T : Type 0) : Type 0 where
  pub held : Option T
  pub stamp : Tov

abbrev pub plain_msg : (T : Type 0) → CuMsg T
plain_msg T = record {
  Msg = PlainMsg T;
  new = λ o. record { held = o; stamp = unset };
  payload = λ m. m.held;
  tov = λ m. m.stamp;
  set_payload = λ m v. record m { held = some v };
  clear_payload = λ m. record m { held = none };
  set_tov = λ m t. record m { stamp = t };
  payload-new = λ o. refl;
  payload-set_payload = λ m v. refl;
  payload-clear_payload = λ m. refl;
  payload-set_tov = λ m t. refl;
  tov-set_tov = λ m t. refl;
  tov-set_payload = λ m v. refl;
  tov-clear_payload = λ m. refl;
}

abbrev pub message_at : {T : Type 0} → T → ℕ → PlainMsg T
message_at v t = record { held = some v; stamp = time t }

abbrev pub empty_at : {T : Type 0} → ℕ → PlainMsg T
empty_at t = record { held = none; stamp = time t }

-- A clock that moves on by one at each reading.
abbrev pub counting : Clock
counting = record { Ctx = ℕ; now = λ c. (c, suc c) }

-- The machine as its state alone.
abbrev pub plain_statig :
    {State Context Event : Type 0} (initial : State) (handler : Handler State Context Event)
    → Statig initial handler
plain_statig {State} initial handler = record {
  Machine = State;
  init_with_context = λ c. (initial, c);
  state = λ s. s;
  handle_with_context = λ s e c. let (o, c') = handler s c e in (next s o, c');
  state-init = λ c. refl;
  context-init = λ c. refl;
  state-handle = λ m e c. refl;
  context-handle = λ m e c. refl;
}

-- Emits what the machine has counted, and the message, on each message; nothing on a tick.
abbrev pub counter_step : ℕ → Trigger ℕ → Effects ℕ → ℕ × Effects ℕ
counter_step n (tick t) e = (n, e)
counter_step n (message v) e = (suc n, emit (emit e n) v)

abbrev pub counter : FsmSpec ℕ ℕ ℕ
counter = record { step = counter_step }

-- Emits the sum so far, once for each message.
abbrev pub adder_step : ℕ → Trigger ℕ → Effects ℕ → ℕ × Effects ℕ
adder_step n (tick t) e = (n, e)
adder_step n (message v) e = (n + v, emit e (n + v))

abbrev pub adder : FsmSpec ℕ ℕ ℕ
adder = record { step = adder_step }

-- Two kinds of values: numbers under code 0, truth values under any other.
abbrev pub ValueOf : ℕ → Type 0
ValueOf ℕ.zero = ℕ
ValueOf (suc n) = Bool

abbrev pub types : Types
types = record {
  Key = ℕ;
  key_discrete = ℕ_discrete;
  key_name = λ k. "task";
  Code = ℕ;
  code_discrete = ℕ_discrete;
  code_name = λ c. "value";
  Value = ValueOf;
}
