-- ===== src/Registry/Parking.antt =====
-- crates/msrs-transport/src/registry.rs: parking a value for a task type and taking it back.
use Prim.Native.String.{◌++◌}
use msrs.Shared.{
  ◌≡◌, refl, sym, ap, ◌∙◌, ◌≢◌, Option, none, some, String, ok, err, map_err, returns, panics,
  false,
}
use msrs.Registry.{Types, Any, Registry, write, unbox, install, take}
use msrs.Registry.Laws.{
  or_false, write_self, write_ne, downcast_same, downcast_other, install_free, install_taken,
  take_lem,
}

-- The text of the error of an empty slot.
abbrev pub missing_text : String → String
missing_text key =
    key ++ " channel not installed; call install() before building the copper runtime"

module _ {ty : Types} where
  open ty use {Key, key_discrete, key_name, Code, code_name, Value}

  -- A slot that was free and has been emptied again is as it was.
  restored :
      (r : Registry ty) (k j : Key) (v : Option (Any ty))
      → r.slots k ≡ none
      → write ty (write ty r.slots k v) k none j ≡ r.slots j
  restored r k j v free = elim (key_discrete k j) [
    | yes p ↦
        ap (write ty (write ty r.slots k v) k none) (sym p)
        ∙ write_self ty _ k none
        ∙ sym free
        ∙ ap r.slots p
    | no h ↦ write_ne ty _ k j none h ∙ write_ne ty r.slots k j v h
  ]

  -- A value installed in a free slot is not a panic, and the next `take` of that type and that key
  -- returns this very value; it leaves every slot as it was before the installation, and a further
  -- `take` of any type is the error that nothing was installed.
  pub install-take :
      (r : Registry ty) (k j : Key) (c d : Code) (value : Value c)
      → r.slots k ≡ none
      → let (parked, outcome) = install r k c value in
        let (emptied, taken) = take parked k c in
        (outcome ≡ returns tt)
        × (taken ≡ ok value)
        × (emptied.slots j ≡ r.slots j)
        × ((take emptied k d).1 ≡ err (missing_text (key_name k)))
  unfolding unbox
  install-take r k j c d value free = rw (install_free r k c value free) (
      rw (take_lem, take_lem)
        (
          refl,
          ap (unbox ty k c) (write_self ty r.slots k (some (c, value)))
              ∙ ap (map_err (λ _. _)) (downcast_same ty c value),
          restored r k j (some (c, value)) free,
          ap (unbox ty k d) (write_self ty _ k none),
        ))

  -- Installing into an occupied slot panics, and nothing is lost by it: every slot, the occupied one
  -- too, holds what it held, the lock is free again, and it is poisoned only if it was before.
  pub install_twice :
      (r : Registry ty) (k j : Key) (c : Code) (value : Value c) (old : Any ty)
      → r.slots k ≡ some old
      → let (after, outcome) = install r k c value in
        (outcome ≡ panics (key_name k ++ " channel already installed"))
        × (after.slots j ≡ r.slots j)
        × (after.held ≡ false)
        × (after.poisoned ≡ r.poisoned)
  install_twice r k j c value old taken =
      rw (install_taken r k c value old taken) (refl, refl, refl, or_false r.poisoned)

  -- Taking a value at another type than it was installed with is an error, and the value is gone:
  -- the slot is empty afterwards, so a second `take` at the right type fails too. Other slots keep
  -- their values.
  pub take_other_type :
      (r : Registry ty) (k j : Key) (c d : Code) (value : Value d)
      → r.slots k ≡ some (d, value)
      → d ≢ c
      → k ≢ j
      → let (after, taken) = take r k c in
        (taken ≡ err (key_name k ++ (" registry slot holds a different type than " ++ code_name c)))
        × ((take after k d).1 ≡ err (missing_text (key_name k)))
        × (after.slots j ≡ r.slots j)
  unfolding unbox
  take_other_type r k j c d value e other apart =
      rw (take_lem, take_lem)
        (
          ap (unbox ty k c) e ∙ ap (map_err (λ _. _)) (downcast_other ty d c value other),
          ap (unbox ty k d) (write_self ty r.slots k none),
          write_ne ty r.slots k j none apart,
        )
