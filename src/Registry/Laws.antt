-- ===== src/Registry/Laws.antt =====
-- crates/msrs-transport/src/registry.rs: what a slot gives back, and to whom.
use mathlib.Core.HLevel.{hedberg}
use mathlib.Core.Path.{subst_refl}
use Prim.Native.String.{◌++◌}
use msrs.Shared.{
  ◌≡◌, refl, ap, ◌∙◌, ◌≢◌, Bool, true, false, Option, none, some, ok, err, returns, panics,
  Bool-cases, ◌||◌, if_pos, if_neg, dif_pos, dif_neg, inl, inr,
}
use msrs.Registry.{
  Types, Any, Slots, Registry, lock_slots, lock_mutex, write, install, install_at, downcast, unbox,
  take,
}

pub or_false : (b : Bool) → (b || false) ≡ b
or_false true = refl
or_false false = refl

module _ (ty : Types) where
  open ty use {Key, key_discrete, key_name, Code, code_discrete, code_name, Value}

  pub write_self : (s : Slots ty) (k : Key) (v : Option (Any ty)) → write ty s k v k ≡ v
  unfolding write
  write_self s k v = if_pos (key_discrete k k) refl _ _

  pub write_ne : (s : Slots ty) (k j : Key) (v : Option (Any ty)) → k ≢ j → write ty s k v j ≡ s j
  unfolding write
  write_ne s k j v h = if_neg (key_discrete k j) h _ _

  -- A box opens at the type that was put in, with the value that was put in.
  pub downcast_same : (c : Code) (value : Value c) → downcast ty (c, value) c ≡ ok value
  unfolding downcast
  downcast_same c value =
      dif_pos (code_discrete c c) (hedberg code_discrete c c) refl _ _
      ∙ ap ok (subst_refl Value value)

  pub downcast_other :
      (d c : Code) (value : Value d) → d ≢ c → downcast ty (d, value) c ≡ err (d, value)
  unfolding downcast
  downcast_other d c value h = dif_neg (code_discrete d c) h _ _

module _ {ty : Types} where
  open ty use {Key, key_discrete, key_name, Code, code_discrete, code_name, Value}

  -- Poisoned or not, the lock is taken over the same slots.
  pub lock_slots_lem : (r : Registry ty) → lock_slots r ≡ record r { held = true }
  unfolding lock_slots
  lock_slots_lem r = elim (Bool-cases r.poisoned) [
    | inl e ↦ rw (e, lock_mutex)
    | inr e ↦ rw (e, lock_mutex)
  ]

  pub install_free :
      (r : Registry ty) (k : Key) (c : Code) (value : Value c)
      → r.slots k ≡ none
      → install r k c value
        ≡ (record r { slots = write ty r.slots k (some (c, value)); held = false }, returns tt)
  unfolding install
  install_free r k c value free = rw (lock_slots_lem r, install) (rw (free, install_at))

  pub install_taken :
      (r : Registry ty) (k : Key) (c : Code) (value : Value c) (old : Any ty)
      → r.slots k ≡ some old
      → install r k c value ≡ (
        record r { held = false; poisoned = r.poisoned || false },
        panics (key_name k ++ " channel already installed"),
      )
  unfolding install
  install_taken r k c value old taken = rw (lock_slots_lem r, install) (rw (taken, install_at))

  pub take_lem :
      (r : Registry ty) (k : Key) (c : Code)
      → take r k c
        ≡ (record r { slots = write ty r.slots k none; held = false }, unbox ty k c (r.slots k))
  unfolding take
  take_lem r k c = rw (lock_slots_lem r, take)
