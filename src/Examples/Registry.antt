-- ===== src/Examples/Registry.antt =====
-- The theorems on the registry, at concrete inputs.
use msrs.Shared.{◌≡◌, ◌↔◌, refl, none, some, List, [], ◌∷◌, ok, err, true, false, returns}
use msrs.Registry.{Registry, install, take}
use msrs.Registry.Parking.{missing_text, install-take}
use msrs.Registry.Typed.{take_typed}
use msrs.Registry.Lock.{Call, installs, takes, after_all, after_all_lock}
use msrs.Examples.Plain.{types}

abbrev vacant : Registry types
vacant = record { slots = λ k. none; held = false; poisoned = false }

abbrev occupied : Registry types
occupied = record { slots = λ k. some (0, 7); held = false; poisoned = true }

install-take_example :
    let (parked, outcome) = install vacant 3 0 11 in
    let (emptied, taken) = take parked 3 0 in
    (outcome ≡ returns tt)
    × (taken ≡ ok 11)
    × (emptied.slots 4 ≡ none)
    × ((take emptied 3 1).1 ≡ err (missing_text "task"))
install-take_example = install-take vacant 3 4 0 1 11 refl

abbrev some_calls : List (Call types)
some_calls = installs 1 0 5 ∷ installs 1 1 true ∷ takes 2 0 ∷ takes 1 0 ∷ []

after_all_lock_example :
    ((after_all vacant some_calls).held ≡ false)
    × ((after_all vacant some_calls).poisoned ≡ false)
    × ((after_all (record vacant { poisoned = true }) some_calls).slots
        ≡ (after_all vacant some_calls).slots)
after_all_lock_example = after_all_lock vacant some_calls true refl

take_typed_example : ((take occupied 1 0).1 ≡ ok 7) ↔ (occupied.slots 1 ≡ some (0, 7))
take_typed_example = take_typed occupied 1 0 7
