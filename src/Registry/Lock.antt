-- ===== src/Registry/Lock.antt =====
-- crates/msrs-transport/src/registry.rs: the lock over any history of calls.
use msrs.Shared.{◌≡◌, refl, Bool, false, none, some, List, [], ◌∷◌, Option-cases, inl, inr}
use msrs.Registry.{Types, Slots, Registry, write, install, take}
use msrs.Registry.Laws.{or_false, install_free, install_taken, take_lem}

-- One call of the registry, of any task type and any value.
pub data Call (ty : Types) : Type 0 where
  installs : ty.Key → (c : ty.Code) → ty.Value c → Call ty
  takes : ty.Key → ty.Code → Call ty

module _ {ty : Types} where
  pub after : Registry ty → Call ty → Registry ty
  after r (installs k c value) = (install r k c value).0
  after r (takes k c) = (take r k c).0

  pub after_all : Registry ty → List (Call ty) → Registry ty
  after_all r [] = r
  after_all r (call ∷ calls) = after_all (after r call) calls

  -- What a call makes of the slots, the lock left aside.
  slots_after : Slots ty → Call ty → Slots ty
  slots_after s (installs k c value) = elim (s k) [
    | some _ ↦ s
    | none ↦ write ty s k (some (c, value))
  ]
  slots_after s (takes k c) = write ty s k none

  after_lem :
      (r : Registry ty) (call : Call ty)
      → after r call
        ≡ record r { slots = slots_after r.slots call; held = false; poisoned = r.poisoned }
  unfolding after slots_after
  after_lem r (installs k c value) = elim (Option-cases (r.slots k)) [
    | inl free ↦ rw (install_free r k c value free, after) (rw (free, slots_after))
    | inr (old, taken) ↦
        rw (install_taken r k c value old taken, after) (rw (taken, slots_after) (rw or_false))
  ]
  after_lem r (takes k c) = rw (take_lem, after)

  -- No history of calls poisons the lock or leaves it held, panics of `install` included; and a
  -- lock that a panic elsewhere has poisoned serves as one that is not: the slots come out the same.
  pub after_all_lock :
      (r : Registry ty) (calls : List (Call ty)) (b : Bool)
      → r.held ≡ false
      → ((after_all r calls).held ≡ false)
        × ((after_all r calls).poisoned ≡ r.poisoned)
        × ((after_all (record r { poisoned = b }) calls).slots ≡ (after_all r calls).slots)
  unfolding after_all
  after_all_lock r [] b free = (free, refl, refl)
  after_all_lock r (call ∷ calls) b free =
      rw (after_lem r call, after_all)
        (rw (after_lem (record r { poisoned = b }) call, after_all)
          (after_all_lock
            (record r { slots = slots_after r.slots call; held = false; poisoned = r.poisoned })
            calls b refl))
