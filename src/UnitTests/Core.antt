-- ===== src/UnitTests/Core.antt =====
-- crates/msrs-core/src/trigger.rs, effects.rs and rt.rs: their unit tests.
use msrs.Shared.{
  ℕ, ◌≡◌, refl, Bool, false, not, Option, none, some, List, [], ◌∷◌, String, Result, ok, err,
  returns, ◌==◌,
}
use msrs.Shared.Checks.{◌>>◌}
use msrs.Trigger.{Trigger, tick, message, message?, is_tick}
use msrs.Effects.{Effects, ExtraEmits, empty, emit, is_empty, take, take_one}
use msrs.Rt.{Platform, normal_policy, normal, apply}
use msrs.UnitTests.Assert.{
  Test, assert_eq, assert_that, same_nat, same_text, same_option, same_elements, is_ok,
}

tick_has_no_message : Test
unfolding is_tick message?
tick_has_no_message = do
  let t : Trigger ℕ = tick 42
  assert_that (is_tick t)
  assert_eq (same_option same_nat) (message? t) none

tick_has_no_message_passes : tick_has_no_message ≡ returns tt
unfolding tick_has_no_message
tick_has_no_message_passes = refl

message_exposes_payload : Test
unfolding is_tick message?
message_exposes_payload = do
  let t : Trigger ℕ = message 7
  assert_that (not (is_tick t))
  assert_eq (same_option same_nat) (message? t) (some 7)

message_exposes_payload_passes : message_exposes_payload ≡ returns tt
unfolding message_exposes_payload
message_exposes_payload_passes = refl

emit_then_take_preserves_order : Test
unfolding empty emit is_empty take
emit_then_take_preserves_order = do
  let e : Effects ℕ = empty
  assert_that (is_empty e)
  let e' = emit (emit e 1) 2
  assert_that (not (is_empty e'))
  assert_eq (same_elements same_nat) (take e').0 (1 ∷ 2 ∷ [])
  assert_that (is_empty (take e').1)

emit_then_take_preserves_order_passes : emit_then_take_preserves_order ≡ returns tt
unfolding emit_then_take_preserves_order
emit_then_take_preserves_order_passes = refl

-- `==` on what `take_one` returns.
abbrev same_taken : Result ExtraEmits (Option String) → Result ExtraEmits (Option String) → Bool
same_taken (ok a) (ok b) = same_option same_text a b
same_taken (ok a) (err e) = false
same_taken (err d) (ok b) = false
same_taken (err d) (err e) = d.emitted == e.emitted

take_one_returns_first_and_clears : Test
unfolding empty emit is_empty take_one
take_one_returns_first_and_clears = do
  let e : Effects String = empty
  assert_eq same_taken (take_one e).0 (ok none)
  let e' = emit (take_one e).1 "a"
  assert_eq same_taken (take_one e').0 (ok (some "a"))
  assert_that (is_empty (take_one e').1)

take_one_returns_first_and_clears_passes : take_one_returns_first_and_clears ≡ returns tt
unfolding take_one_returns_first_and_clears
take_one_returns_first_and_clears_passes = refl

take_one_reports_extra_emits_instead_of_dropping : Test
unfolding empty emit is_empty take_one
take_one_reports_extra_emits_instead_of_dropping = do
  let e : Effects String = empty
  let e' = emit (emit e "a") "b"
  assert_eq same_taken (take_one e').0 (err (record { emitted = 2 }))
  assert_that (is_empty (take_one e').1)

take_one_reports_extra_emits_passes : take_one_reports_extra_emits_instead_of_dropping ≡ returns tt
unfolding take_one_reports_extra_emits_instead_of_dropping
take_one_reports_extra_emits_passes = refl

-- On any platform and thread.
normal_applies_cleanly : (os : Platform) → os.Thread → Test
normal_applies_cleanly os th = assert_that (is_ok (apply os normal th).0)

normal_applies_cleanly_passes :
    (os : Platform) (th : os.Thread) → normal_applies_cleanly os th ≡ returns tt
unfolding normal_applies_cleanly apply normal
normal_applies_cleanly_passes os th = refl

-- By the cores that the platform names; the outcome of `apply` is dropped.
pin_first : (os : Platform) → os.Thread → Option (List os.CoreId) → Test
pin_first os th none = returns tt
pin_first os th (some []) = returns tt
pin_first os th (some (first ∷ others)) =
    let (outcome, th') =
      apply os (record { scheduler = normal_policy; affinity = os.id first ∷ [] }) th in
    returns tt

pinning_to_available_core_does_not_panic : (os : Platform) → os.Thread → Test
pinning_to_available_core_does_not_panic os th = pin_first os th (os.get_core_ids th)

pin_first-passes :
    (os : Platform) (th : os.Thread) (ids : Option (List os.CoreId))
    → pin_first os th ids ≡ returns tt
unfolding pin_first
pin_first-passes os th none = refl
pin_first-passes os th (some []) = refl
pin_first-passes os th (some (first ∷ others)) = refl

pinning_to_available_core_passes :
    (os : Platform) (th : os.Thread) → pinning_to_available_core_does_not_panic os th ≡ returns tt
unfolding pinning_to_available_core_does_not_panic
pinning_to_available_core_passes os th = pin_first-passes os th (os.get_core_ids th)
