-- ===== src/UnitTests/Assert.antt =====
-- The assertions of the unit tests, and the comparisons that they make.
use text.Mathlib.Text.{◌==◌ as ◌=?◌}
use msrs.Shared.{
  ℕ, Bool, true, false, ◌&&◌, Option, none, some, List, [], ◌∷◌, String, Result, ok, err, Checked,
  returns, panics, ◌==◌,
}
use msrs.Shared.Checks.{assert}

abbrev pub Test : Type 0
Test = Checked (Unit {0})

-- `assert_eq!`, by the comparison of the type.
abbrev pub assert_eq {ℓ} : {A : Type ℓ} → (A → A → Bool) → A → A → Checked (Unit {0})
assert_eq same a b = assert (same a b) "assertion `left == right` failed"

abbrev pub assert_that : Bool → Checked (Unit {0})
assert_that b = assert b "assertion failed"

abbrev pub same_nat : ℕ → ℕ → Bool
same_nat a b = a == b

abbrev pub same_text : String → String → Bool
same_text a b = a =? b

abbrev pub same_option {ℓ} : {A : Type ℓ} → (A → A → Bool) → Option A → Option A → Bool
same_option same none none = true
same_option same none (some b) = false
same_option same (some a) none = false
same_option same (some a) (some b) = same a b

abbrev pub same_elements {ℓ} : {A : Type ℓ} → (A → A → Bool) → List A → List A → Bool
same_elements same [] [] = true
same_elements same [] (b ∷ ys) = false
same_elements same (a ∷ xs) [] = false
same_elements same (a ∷ xs) (b ∷ ys) = same a b && same_elements same xs ys

abbrev pub is_ok {ℓ} : {E A : Type ℓ} → Result E A → Bool
is_ok (ok a) = true
is_ok (err e) = false

abbrev pub is_none {ℓ} : {A : Type ℓ} → Option A → Bool
is_none none = true
is_none (some a) = false

-- `unwrap`, of an `Option` or of a `Result`.
abbrev pub unwrap {ℓ} : {A : Type ℓ} → Option A → Checked A
unwrap none = panics "called `Option::unwrap()` on a `None` value"
unwrap (some a) = returns a

-- `should_panic(expected = ..)`: the test ends in a panic whose text is recognised.
abbrev pub should_panic {ℓ} : {A : Type ℓ} → (String → Bool) → Checked A → Bool
should_panic expected (returns a) = false
should_panic expected (panics text) = expected text
