-- ===== src/Effects.antt =====
-- crates/msrs-core/src/effects.rs: the buffer that a step emits into.
pub mod Laws
use Prim.Native.String.{◌++◌}
use msrs.Shared.{
  ℕ, Bool, List, [], ◌∷◌, Option, none, some, String, Result, ok, err, length, is_nil, to_decimal,
}
use msrs.Shared.{◌++◌ as append}

pub record Effects {ℓ} (Out : Type ℓ) : Type ℓ where
  pub outbox : List Out

-- A single-output consumer found more than one emission in one step.
pub record ExtraEmits : Type 0 where
  pub emitted : ℕ

-- `Display for ExtraEmits`.
unfoldable pub extra_emits_text : ExtraEmits → String
extra_emits_text e =
    "FSM step emitted "
    ++ (to_decimal e.emitted
        ++ (" outputs but this adapter forwards at most one; "
            ++ "emit once per step or use a batch output (FsmBatchTask / run_step_all)"))

module _ {ℓ} {Out : Type ℓ} where
  -- `Effects::default`.
  unfoldable pub empty : Effects Out
  empty = record { outbox = [] }

  unfoldable pub emit : Effects Out → Out → Effects Out
  emit e value = record { outbox = append e.outbox (value ∷ []) }

  unfoldable pub is_empty : Effects Out → Bool
  is_empty e = is_nil e.outbox

  -- The drained values, and the buffer that is left.
  unfoldable pub take : Effects Out → List Out × Effects Out
  take e = (e.outbox, record { outbox = [] })

-- The `match v.len()` of `take_one`: no value, one value, or a count of more.
unfoldable pub at_most_one : {Out : Type 0} → List Out → Result ExtraEmits (Option Out)
at_most_one [] = ok none
at_most_one (x ∷ []) = ok (some x)
at_most_one (x ∷ y ∷ v) = err (record { emitted = length (x ∷ y ∷ v) })

unfoldable pub take_one :
    {Out : Type 0} → Effects Out → Result ExtraEmits (Option Out) × Effects Out
unfolding at_most_one
take_one e = (at_most_one e.outbox, record { outbox = [] })

-- A run of emissions, in order.
unfoldable pub emit_all {ℓ} : {Out : Type ℓ} → Effects Out → List Out → Effects Out
unfolding emit
emit_all e [] = e
emit_all e (v ∷ vs) = emit_all (emit e v) vs
