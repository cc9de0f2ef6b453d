-- ===== src/Statig.antt =====
-- What the services use of statig (not part of the repository): a machine generated from its state
-- handlers. It dispatches an event to the handler of its current state, moves where the outcome says
-- so, and stays otherwise; initialising a machine that has no entry actions leaves its context alone.
use msrs.Shared.{◌≡◌}

-- The outcomes that the handlers of the repository return.
pub data Outcome (State : Type 0) : Type 0 where
  handled : Outcome State
  transition : State → Outcome State

abbrev pub next : {State : Type 0} → State → Outcome State → State
next s handled = s
next s (transition t) = t

-- The handlers of a machine, each with the context that it mutates.
abbrev pub Handler : Type 0 → Type 0 → Type 0 → Type 0
Handler State Context Event = State → Context → Event → Outcome State × Context

-- `InitializedStateMachine` for the given initial state and handlers.
pub record Statig {State Context Event : Type 0} (initial : State)
    (handler : Handler State Context Event) : Type 1 where
  pub Machine : Type 0
  pub init_with_context : Context → Machine × Context
  pub state : Machine → State
  pub handle_with_context : Machine → Event → Context → Machine × Context
  pub state-init : (c : Context) → state (init_with_context c).0 ≡ initial
  pub context-init : (c : Context) → (init_with_context c).1 ≡ c
  pub state-handle :
      (m : Machine) (e : Event) (c : Context)
      → state (handle_with_context m e c).0 ≡ next (state m) (handler (state m) c e).0
  pub context-handle :
      (m : Machine) (e : Event) (c : Context)
      → (handle_with_context m e c).1 ≡ (handler (state m) c e).1
