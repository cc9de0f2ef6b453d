-- ===== src/Shared/Printing.antt =====
-- Code that prints lines and may panic, in sequence.
use mathlib.Core.List.{List, [], ◌∷◌, ◌++◌}
use Prim.Native.String.{String}
use msrs.Shared.Results.{Checked, returns, panics}

-- The lines that a call prints, and how it comes back.
abbrev pub Printing {ℓ} : Type ℓ → Type ℓ
Printing A = List String × Checked A

abbrev pub after {ℓ} : {A B : Type ℓ} → List String → Checked A → (A → Printing B) → Printing B
after out (returns a) f = let (more, b) = f a in (out ++ more, b)
after out (panics text) f = (out, panics text)

infixl 5 ◌>>=◌ ◌>>◌
abbrev pub ◌>>=◌ {ℓ} : {A B : Type ℓ} → Printing A → (A → Printing B) → Printing B
(out, a) >>= f = after out a f

abbrev pub ◌>>◌ {ℓ} : {A B : Type ℓ} → Printing A → Printing B → Printing B
m >> k = m >>= λ _. k

-- `println!` and `eprintln!`, once or in a loop.
abbrev pub print : String → Printing (Unit {0})
print line = (line ∷ [], returns tt)

abbrev pub print_each : List String → Printing (Unit {0})
print_each lines = (lines, returns tt)

-- A call that prints nothing.
abbrev pub silently {ℓ} : {A : Type ℓ} → Checked A → Printing A
silently a = ([], a)
