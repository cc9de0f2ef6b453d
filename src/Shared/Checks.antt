-- ===== src/Shared/Checks.antt =====
-- Code that may panic, in sequence, and the assertions that it makes.
use mathlib.Core.Path.{◌≡◌, refl}
use mathlib.Core.Bool.{Bool, true, false, ◌&&◌}
use mathlib.Core.List.{List, [], ◌∷◌}
use Prim.Native.String.{String, ◌++◌}
use text.Mathlib.Text.{◌==◌}
use text.Mathlib.TextEquality.{eq_iff}
use msrs.Shared.Results.{Result, ok, err, Checked, returns, panics}

infixl 5 ◌>>=◌ ◌>>◌
-- What follows a call that may panic.
abbrev pub ◌>>=◌ {ℓ} : {A B : Type ℓ} → Checked A → (A → Checked B) → Checked B
returns a >>= f = f a
panics text >>= f = panics text

abbrev pub ◌>>◌ {ℓ} : {A B : Type ℓ} → Checked A → Checked B → Checked B
m >> k = m >>= λ _. k

-- `assert!` and `assert_eq!`, with the message that the code gives.
abbrev pub assert : Bool → String → Checked (Unit {0})
assert true text = returns tt
assert false text = panics text

-- `Result::expect`, where an error is its `{:?}` text.
abbrev pub expect : {A : Type 0} → String → Result String A → Checked A
expect text (ok a) = returns a
expect text (err e) = panics (text ++ (": " ++ e))

-- `==` on two lists of texts.
abbrev pub same_texts : List String → List String → Bool
same_texts [] [] = true
same_texts [] (t ∷ ts) = false
same_texts (s ∷ ss) [] = false
same_texts (s ∷ ss) (t ∷ ts) = s == t && same_texts ss ts

pub same_texts_refl : (l : List String) → same_texts l l ≡ true
same_texts_refl [] = refl
same_texts_refl (s ∷ l) = rw ((eq_iff s s).1 refl) (same_texts_refl l)
