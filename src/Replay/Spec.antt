-- ===== src/Replay/Spec.antt =====
-- crates/msrs-core/src/replay.rs: what a replay gate is to report, said without its loop.
use msrs.Shared.{ℕ, Bool, Option, none, some, List, [], ◌∷◌, ◌++◌, String, ◌==◌, if◌then◌else◌}
use msrs.Replay.{Recorded, Gate, next_id, same_bytes, divergence_text}

-- The pairs of neighbouring ids that do not follow one another.
abbrev pub gaps : List ℕ → List (ℕ × ℕ)
gaps [] = []
gaps (a ∷ []) = []
gaps (a ∷ b ∷ ids) = (if b == next_id a then [] else (a, b) ∷ []) ++ gaps (b ∷ ids)

abbrev pub ids : {I O : Type 0} → List (Recorded I O) → List ℕ
ids [] = []
ids (r ∷ rs) = r.id ∷ ids rs

module _ {S I O : Type 0} (g : Gate S I O) where
  -- The outputs of the closure over the recorded inputs, beside the recorded steps.
  abbrev pub replayed : S → List (Recorded I O) → List (Recorded I O × O)
  replayed s [] = []
  replayed s (r ∷ rs) = let (s', o) = g.step s r.input in (r, o) ∷ replayed s' rs

  abbrev pub agrees : Recorded I O × O → Bool
  agrees (r, o) = same_bytes (g.encode o) (g.encode r.output)

  -- The steps at which the two outputs have different encodings.
  abbrev pub divergences : List (Recorded I O × O) → List (Recorded I O × O)
  divergences [] = []
  divergences (p ∷ ps) = (if agrees p then [] else p ∷ []) ++ divergences ps

  abbrev pub first_text : List (Recorded I O × O) → Option String
  first_text [] = none
  first_text ((r, o) ∷ ps) = some (divergence_text g r o)
