-- ===== src/Registry.antt =====
-- crates/msrs-transport/src/registry.rs: the process-wide registry of channel ends. A type's
-- `TypeId` is its code, and `Box<dyn Any + Send>` is a value behind the code of its type.
pub mod Laws
pub mod Lock
pub mod Parking
pub mod Typed
use Prim.Native.String.{◌++◌}
use msrs.Shared.{
  ℕ, ◌≡◌, Bool, true, false, ◌||◌, Option, none, some, String, Result, ok, err, map_err, ok_or,
  Checked, returns, panics, ite, dite, subst, if◌then◌else◌,
}
use msrs.Copper.{CuError, CuResult}

-- The types that meet in the registry: those that key the slots, and those of the parked values.
pub record Types : Type 1 where
  pub Key : Type 0
  pub key_discrete : Discrete Key
  pub key_name : Key → String
  pub Code : Type 0
  pub code_discrete : Discrete Code
  pub code_name : Code → String
  pub Value : Code → Type 0

module _ (ty : Types) where
  open ty use {Key, key_discrete, key_name, Code, code_discrete, code_name, Value}

  abbrev pub Any : Type 0
  Any = (c : Code) × Value c

  abbrev pub Slots : Type 0
  Slots = Key → Option Any

-- `Mutex<HashMap<…>>`: the map, whether a guard is alive, and whether a panic hit a live guard.
pub record Registry (ty : Types) : Type 0 where
  pub slots : Slots ty
  pub held : Bool
  pub poisoned : Bool

module _ (ty : Types) where
  open ty use {Key, key_discrete, key_name, Code, code_discrete, code_name, Value}

  unfoldable pub write : Slots ty → Key → Option (Any ty) → Slots ty
  write slots k v j = ite (key_discrete k j) v (slots j)

  -- `Box<dyn Any>::downcast`: the value, or the box again.
  unfoldable pub downcast : Any ty → (c : Code) → Result (Any ty) (Value c)
  downcast (d, value) c =
      dite (code_discrete d c) (λ same. ok (subst Value same value)) (λ _. err (d, value))

  -- What `take` makes of the entry that `remove` returned.
  unfoldable pub unbox : Key → (c : Code) → Option (Any ty) → CuResult (Value c)
  unfolding downcast
  unbox k c none =
      err
        (key_name k ++ " channel not installed; call install() before building the copper runtime")
  unbox k c (some boxed) =
      map_err (λ _. key_name k ++ (" registry slot holds a different type than " ++ code_name c))
        (downcast boxed c)

module _ {ty : Types} where
  open ty use {Key, key_discrete, key_name, Code, code_discrete, code_name, Value}

  -- `Mutex::lock`: the guard comes back behind an error where the lock is poisoned.
  unfoldable pub lock_mutex : Registry ty → Result (Registry ty) (Registry ty)
  lock_mutex r =
      if r.poisoned then err (record r { held = true }) else ok (record r { held = true })

  -- `unwrap_or_else(PoisonError::into_inner)`.
  abbrev pub into_inner : Result (Registry ty) (Registry ty) → Registry ty
  into_inner (ok guard) = guard
  into_inner (err guard) = guard

  -- The function `slots()`.
  unfoldable pub lock_slots : Registry ty → Registry ty
  unfolding lock_mutex
  lock_slots r = into_inner (lock_mutex r)

  -- `drop(guard)`.
  unfoldable pub unlock : Registry ty → Registry ty
  unlock r = record r { held = false }

  -- Unwinding drops a live guard, and that poisons the lock.
  unfoldable pub unwind : Registry ty → Registry ty
  unwind r = record r { held = false; poisoned = r.poisoned || r.held }

  -- The body of `install` under the guard, by the entry that `contains_key` looks at.
  unfoldable pub install_at :
      Registry ty → Key → (c : Code) → Value c → Option (Any ty) → Registry ty × Checked (Unit {0})
  unfolding unlock unwind write
  install_at guard k c value (some _) =
      (unwind (unlock guard), panics (key_name k ++ " channel already installed"))
  install_at guard k c value none =
      (unlock (record guard { slots = write ty guard.slots k (some (c, value)) }), returns tt)

  unfoldable pub install :
      Registry ty → Key → (c : Code) → Value c → Registry ty × Checked (Unit {0})
  unfolding lock_slots install_at
  install r k c value = let guard = lock_slots r in install_at guard k c value (guard.slots k)

  unfoldable pub take : Registry ty → Key → (c : Code) → Registry ty × CuResult (Value c)
  unfolding lock_slots unlock write unbox
  take r k c =
      let guard = lock_slots r in
      (unlock (record guard { slots = write ty guard.slots k none }), unbox ty k c (guard.slots k))
