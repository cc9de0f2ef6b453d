-- ===== src/Registry/Typed.antt =====
-- crates/msrs-transport/src/registry.rs: the type at which a slot is taken.
use msrs.Shared.{
  ◌≡◌, sym, ap, ◌∙◌, ◌↔◌, Option, none, some, Result, ok, err, subst, map_err, String,
}
use msrs.Registry.{Types, Any, Registry, unbox, take, downcast}
use msrs.Registry.Laws.{downcast_same, downcast_other, take_lem}

ok-injective : {E A : Type 0} {a b : A} → ◌≡◌ {A = Result E A} (ok a) (ok b) → a ≡ b
ok-injective e = cc

module _ (ty : Types) where
  open ty use {Key, Code, code_discrete, Value}

  -- A box that opens holds the value that comes out.
  downcast-ok :
      (boxed : Any ty) (c : Code) (value : Value c)
      → downcast ty boxed c ≡ ok value
      → boxed ≡ (c, value)
  downcast-ok (d, v) c value e = elim (code_discrete d c) [
    | yes p ↦ same p value e
    | no other ↦ absurd (no_value (sym (downcast_other ty d c v other) ∙ e))
  ]
    where
      no_value : {b : Any ty} → ◌≡◌ {A = Result (Any ty) (Value c)} (err b) (ok value) → ⊥
      no_value h = cc

      same :
          (p : d ≡ c) (w : Value c) → downcast ty (d, v) c ≡ ok w → ◌≡◌ {A = Any ty} (d, v) (c, w)
      same p =
          subst
            (λ c'. (w : Value c') → downcast ty (d, v) c' ≡ ok w → ◌≡◌ {A = Any ty} (d, v) (c', w))
            p (λ w h. ap (λ u. (d, u)) (ok-injective (sym (downcast_same ty d v) ∙ h)))

  unbox-ok :
      (k : Key) (c : Code) (value : Value c) (o : Option (Any ty))
      → unbox ty k c o ≡ ok value
      → o ≡ some (c, value)
  unfolding unbox
  unbox-ok k c value none h = cc
  unbox-ok k c value (some boxed) h =
      ap some (downcast-ok boxed c value (opened _ (downcast ty boxed c) h))
    where
      opened :
          (text : String) (r : Result (Any ty) (Value c))
          → map_err (λ _. text) r ≡ ok value
          → r ≡ ok value
      opened text (ok v) h = cc
      opened text (err b) h = cc

  unbox_same : (k : Key) (c : Code) (value : Value c) → unbox ty k c (some (c, value)) ≡ ok value
  unfolding unbox
  unbox_same k c value = ap (map_err (λ _. _)) (downcast_same ty c value)

module _ {ty : Types} where
  open ty use {Key, Code, Value}

  -- `take` succeeds with a value exactly when the slot of the key holds this value, at the very type
  -- that is asked for. A value is never handed out at another type, nor for another key.
  pub take_typed :
      (r : Registry ty) (k : Key) (c : Code) (value : Value c)
      → ((take r k c).1 ≡ ok value) ↔ (r.slots k ≡ some (c, value))
  take_typed r k c value = (
    λ h. unbox-ok ty k c value (r.slots k) (sym (ap (λ p. p.1) (take_lem r k c)) ∙ h),
    λ h. ap (λ p. p.1) (take_lem r k c) ∙ ap (unbox ty k c) h ∙ unbox_same ty k c value,
  )
