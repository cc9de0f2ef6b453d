-- ===== src/Trigger.antt =====
-- crates/msrs-core/src/trigger.rs: what caused a step of a machine.
use msrs.Shared.{ℕ, Bool, true, false, Option, some, none}

pub data Trigger {ℓ} (In : Type ℓ) : Type ℓ where
  tick : ℕ → Trigger In
  message : In → Trigger In

module _ {ℓ} {In : Type ℓ} where
  -- `Trigger::message`.
  unfoldable pub message? : Trigger In → Option In
  message? (message m) = some m
  message? (tick t) = none

  unfoldable pub is_tick : Trigger In → Bool
  is_tick (tick t) = true
  is_tick (message m) = false
