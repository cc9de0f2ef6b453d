-- ===== src/Replay/Verdict.antt =====
-- crates/msrs-core/src/replay.rs: when `GateReport::passed` says yes.
use msrs.Shared.{
  ℕ, suc, ◌+◌, ◌<◌, ◌^◌, ◌≡◌, refl, sym, ap, ◌∙◌, ◌≢◌, ◌↔◌, true, Option, none, some, List, [], ◌∷◌,
  ◌++◌, length, ◌==◌, if◌then◌else◌, All, Bool-cases, inl, inr, arith,
}
use msrs.Replay.{Recorded, Gate, GateReport, passed, next_id, same_list, same_bytes, replay_gate}
use msrs.Replay.Spec.{gaps, ids, replayed, agrees, divergences}
use msrs.Replay.Reports.{replay_gate-reports}

same_list→eq : (a b : List ℕ) → same_list a b ≡ true → a ≡ b
unfolding same_list
same_list→eq [] [] h = refl
same_list→eq [] (y ∷ b) h = cc
same_list→eq (x ∷ a) [] h = cc
same_list→eq (x ∷ a) (y ∷ b) h = ground (arith, same_list→eq a b)

same_list_refl : (a : List ℕ) → same_list a a ≡ true
unfolding same_list
same_list_refl [] = refl
same_list_refl (x ∷ a) = ground (arith, same_list_refl a)

same_bytes→eq : (a b : Option (List ℕ)) → same_bytes a b ≡ true → a ≡ b
unfolding same_bytes
same_bytes→eq none none h = refl
same_bytes→eq none (some b) h = cc
same_bytes→eq (some a) none h = cc
same_bytes→eq (some a) (some b) h = ap some (same_list→eq a b h)

same_bytes_refl : (a : Option (List ℕ)) → same_bytes a a ≡ true
unfolding same_bytes
same_bytes_refl none = refl
same_bytes_refl (some a) = same_list_refl a

eq→same_bytes : (a b : Option (List ℕ)) → a ≡ b → same_bytes a b ≡ true
eq→same_bytes a b h = ap (same_bytes a) (sym h) ∙ same_bytes_refl a

-- Neighbouring ids follow one another.
abbrev pub Contiguous : List ℕ → Type 0
Contiguous [] = Unit
Contiguous (a ∷ []) = Unit
Contiguous (a ∷ b ∷ l) = (b ≡ a + 1) × Contiguous (b ∷ l)

-- The next id is a u64 too.
abbrev pub HasSuccessor : ℕ → Type 0
HasSuccessor id = id + 1 < 2 ^ 64

gap-cases :
    (a b : ℕ) (rest : List (ℕ × ℕ))
    → HasSuccessor a
    → ((if b == next_id a then [] else (a, b) ∷ []) ++ rest ≡ []) ↔ ((b ≡ a + 1) × (rest ≡ []))
gap-cases a b rest h = (λ e. ground arith, λ e. ground arith)

gaps_iff : (l : List ℕ) → All HasSuccessor l → (gaps l ≡ []) ↔ Contiguous l
gaps_iff [] h = (λ _. tt, λ _. refl)
gaps_iff (a ∷ []) h = (λ _. tt, λ _. refl)
gaps_iff (a ∷ b ∷ l) (ha, h) =
    let (there, back) = gaps_iff (b ∷ l) h in
    let (split, join) = gap-cases a b (gaps (b ∷ l)) ha in
    (λ e. let (next, rest) = split e in (next, there rest), λ c. join (c.0, back c.1))

passed_parts :
    (q : GateReport) → (passed q ≡ true) ↔ ((0 < q.steps) × (q.divergent ≡ 0) × (q.id_gaps ≡ []))
unfolding passed
passed_parts q = (λ e. (ground arith, ground arith, ground arith), λ e. ground arith)

not_nil : {A : Type 0} (l : List A) → 0 < length l → l ≢ []
not_nil [] h e = omega arith
not_nil (x ∷ l) h e = cc

nonempty : {A : Type 0} (l : List A) → l ≢ [] → 0 < length l
nonempty [] h = absurd (h refl)
nonempty (x ∷ l) h = omega arith

module _ {S I O : Type 0} (g : Gate S I O) where
  -- The replayed output is encoded as the recorded one is.
  abbrev pub SameEncoding : Recorded I O × O → Type 0
  SameEncoding (r, o) = g.encode o ≡ g.encode r.output

  divergences-cons :
      (p : Recorded I O × O) (ps : List (Recorded I O × O))
      → length (divergences g (p ∷ ps)) ≡ 0
      → (agrees g p ≡ true) × (length (divergences g ps) ≡ 0)
  divergences-cons p ps h = elim (Bool-cases (agrees g p)) [
    | inl e ↦ (e, rw e at h)
    | inr e ↦ absurd (let h' : suc (length (divergences g ps)) ≡ 0 = rw e at h in omega arith)
  ]

  divergences_iff :
      (ps : List (Recorded I O × O)) → (length (divergences g ps) ≡ 0) ↔ All SameEncoding ps
  divergences_iff [] = (λ _. tt, λ _. refl)
  divergences_iff ((r, o) ∷ ps) =
      let (there, back) = divergences_iff ps in
      let a = g.encode o in
      let b = g.encode r.output in
      (
        λ e.
            let (same, rest) = divergences-cons (r, o) ps e in (same_bytes→eq a b same, there rest),
        λ c. rw (eq→same_bytes a b c.0) (back c.1),
      )

  -- For ids that leave room for a successor, the gate passes exactly when something was recorded,
  -- every replayed output has the encoding of the recorded one (two outputs that cannot be encoded
  -- count as equal), and the ids are contiguous.
  pub passed_iff :
      (s : S) (rs : List (Recorded I O))
      → All HasSuccessor (ids rs)
      → (passed (replay_gate g s rs) ≡ true)
        ↔ ((rs ≢ []) × All SameEncoding (replayed g s rs) × Contiguous (ids rs))
  passed_iff s rs h =
      let report = replay_gate g s rs in
      let (steps, divergent, first, gaps_found) = replay_gate-reports g s rs in
      let (read, write) = passed_parts report in
      let (agree, disagree) = divergences_iff (replayed g s rs) in
      let (contiguous, no_gap) = gaps_iff (ids rs) h in
      (
        λ ok.
            let (some_steps, none_divergent, no_gaps) = read ok in
            (
              not_nil rs (omega arith),
              agree (sym divergent ∙ none_divergent),
              contiguous (sym gaps_found ∙ no_gaps),
            ),
        λ c. write (rw steps (nonempty rs c.0), divergent ∙ disagree c.1, gaps_found ∙ no_gap c.2),
      )

  -- A gate that passes has found every output encoded as it was recorded, whatever the ids.
  pub passed-SameEncoding :
      (s : S) (rs : List (Recorded I O))
      → passed (replay_gate g s rs) ≡ true
      → All SameEncoding (replayed g s rs)
  passed-SameEncoding s rs h =
      let (steps, divergent, first, gaps_found) = replay_gate-reports g s rs in
      let (some_steps, none_divergent, no_gaps) = (passed_parts (replay_gate g s rs)).0 h in
      (divergences_iff (replayed g s rs)).0 (sym divergent ∙ none_divergent)
