-- ===== src/Shared/Results.antt =====
-- Fallible code: Rust's `Result`, and a call that returns or panics.
use mathlib.Core.Path.{◌≡◌, refl}
use mathlib.Core.Logic.{◌⊎◌, inl, inr}
use mathlib.Core.Option.{Option, none, some}
use Prim.Native.String.{String}

pub data Result {ℓ} (E A : Type ℓ) : Type ℓ where
  ok : A → Result E A
  err : E → Result E A

infixl 5 ◌>>=◌ ◌>>◌
-- The `?` operator.
abbrev pub ◌>>=◌ {ℓ} : {E A B : Type ℓ} → Result E A → (A → Result E B) → Result E B
ok a >>= f = f a
err e >>= f = err e

abbrev pub ◌>>◌ {ℓ} : {E A B : Type ℓ} → Result E A → Result E B → Result E B
m >> k = m >>= λ _. k

abbrev pub map_err {ℓ} : {E F A : Type ℓ} → (E → F) → Result E A → Result F A
map_err f (ok a) = ok a
map_err f (err e) = err (f e)

-- `Result::ok`.
abbrev pub ok? {ℓ} : {E A : Type ℓ} → Result E A → Option A
ok? (ok a) = some a
ok? (err e) = none

abbrev pub ok_or {ℓ} : {E A : Type ℓ} → Option A → E → Result E A
ok_or none e = err e
ok_or (some a) e = ok a

pub Result-cases {ℓ} :
    {E A : Type ℓ} (r : Result E A) → ((a : A) × (r ≡ ok a)) ⊎ ((e : E) × (r ≡ err e))
Result-cases (ok a) = inl (a, refl)
Result-cases (err e) = inr (e, refl)

pub ok?-some {ℓ} : {E A : Type ℓ} (r : Result E A) {a : A} → ok? r ≡ some a → r ≡ ok a
ok?-some (ok b) h = cc
ok?-some (err e) h = cc

pub ok?-none {ℓ} : {E A : Type ℓ} (r : Result E A) → ok? r ≡ none → (e : E) × (r ≡ err e)
ok?-none (ok b) h = cc
ok?-none (err e) h = (e, refl)

-- A call that comes back with a value, or panics with a message.
pub data Checked {ℓ} (A : Type ℓ) : Type ℓ where
  returns : A → Checked A
  panics : String → Checked A
