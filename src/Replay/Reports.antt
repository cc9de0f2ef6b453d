-- ===== src/Replay/Reports.antt =====
-- crates/msrs-core/src/replay.rs: the loop of `replay_gate` reports what its specification says.
use native.Mathlib.Nat.{add-zero, zero-add, add_assoc}
use msrs.Shared.{
  ℕ, ◌+◌, ◌≡◌, refl, sym, ap, ap₂, ◌∙◌, Option, none, some, List, [], ◌∷◌, ◌++◌, append-nil,
  append_assoc, String, length, length-append, ◌==◌, if◌then◌else◌, Bool-cases, inl, inr,
}
use msrs.Replay.{
  Recorded, Gate, GateReport, next_id, check_id, first_of_two, divergence_text, compare_output,
  gate_loop, replay_gate,
}
use msrs.Replay.Spec.{gaps, ids, replayed, agrees, divergences, first_text}

abbrev gap_of : Option ℕ → ℕ → List (ℕ × ℕ)
gap_of none id = []
gap_of (some p) id = if id == next_id p then [] else (p, id) ∷ []

abbrev gaps_from : Option ℕ → List ℕ → List (ℕ × ℕ)
gaps_from none l = gaps l
gaps_from (some p) l = gaps (p ∷ l)

gaps_from-cons :
    (prev : Option ℕ) (id : ℕ) (l : List ℕ)
    → gaps_from prev (id ∷ l) ≡ gap_of prev id ++ gaps_from (some id) l
gaps_from-cons none id l = refl
gaps_from-cons (some p) id l = refl

check_id_lem :
    (report : GateReport) (prev : Option ℕ) (id : ℕ)
    → check_id report prev id ≡ record report { id_gaps = report.id_gaps ++ gap_of prev id }
unfolding check_id
check_id_lem report none id = rw append-nil
check_id_lem report (some p) id = elim (Bool-cases (id == next_id p)) [
  | inl e ↦ rw e (rw append-nil)
  | inr e ↦ rw e
]

-- What a list of divergences adds to the two fields that record them.
abbrev pub first_of : Option String → Option String → Option String
first_of none later = later
first_of (some old) later = some old

first_of-none : (o : Option String) → first_of o none ≡ o
first_of-none none = refl
first_of-none (some t) = refl

first_of-first_of : (o p q : Option String) → first_of (first_of o p) q ≡ first_of o (first_of p q)
first_of-first_of none p q = refl
first_of-first_of (some t) p q = refl

first_of_two_lem : (o : Option String) (t : String) → first_of_two o t ≡ first_of o (some t)
first_of_two_lem none t = refl
first_of_two_lem (some u) t = refl

-- The report that two counts and a first text are added to.
abbrev added : GateReport → ℕ → Option String → List (ℕ × ℕ) → GateReport
added report n text gaps = record {
  steps = report.steps;
  divergent = report.divergent + n;
  first_divergence = first_of report.first_divergence text;
  id_gaps = report.id_gaps ++ gaps;
}

added-nothing : (q : GateReport) → added q 0 none [] ≡ q
added-nothing q = λ i. record q {
  divergent = add-zero q.divergent i;
  first_divergence = first_of-none q.first_divergence i;
  id_gaps = append-nil q.id_gaps i;
}

added-added :
    (q : GateReport) (m n : ℕ) (t u : Option String) (l k : List (ℕ × ℕ))
    → added (added q m t l) n u k ≡ added q (m + n) (first_of t u) (l ++ k)
added-added q m n t u l k = λ i. record q {
  divergent = add_assoc q.divergent m n i;
  first_divergence = first_of-first_of q.first_divergence t u i;
  id_gaps = append_assoc q.id_gaps l k i;
}

module _ {S I O : Type 0} (g : Gate S I O) where
  -- What some steps add to a report.
  abbrev noted : GateReport → List (Recorded I O × O) → List (ℕ × ℕ) → GateReport
  noted report ps l = added report (length ps) (first_text g ps) l

  first_text-append :
      (ps qs : List (Recorded I O × O))
      → first_text g (ps ++ qs) ≡ first_of (first_text g ps) (first_text g qs)
  first_text-append [] qs = refl
  first_text-append ((r, o) ∷ ps) qs = refl

  noted-noted :
      (q : GateReport) (ps qs : List (Recorded I O × O)) (l k : List (ℕ × ℕ))
      → noted (noted q ps l) qs k ≡ noted q (ps ++ qs) (l ++ k)
  noted-noted q ps qs l k =
      added-added q (length ps) (length qs) (first_text g ps) (first_text g qs) l k
      ∙ ap₂ (λ n t. added q n t (l ++ k)) (sym (length-append ps qs))
          (sym (first_text-append ps qs))

  abbrev diverges : Recorded I O × O → List (Recorded I O × O)
  diverges p = if agrees g p then [] else p ∷ []

  compare_output_lem :
      (report : GateReport) (r : Recorded I O) (o : O)
      → compare_output g report r o ≡ noted report (diverges (r, o)) []
  unfolding compare_output
  compare_output_lem report r o = elim (Bool-cases (agrees g (r, o))) [
    | inl e ↦ rw e (sym (added-nothing report))
    | inr e ↦ rw e (λ i. record report {
      divergent = report.divergent + 1;
      first_divergence = first_of_two_lem report.first_divergence (divergence_text g r o) i;
      id_gaps = sym (append-nil report.id_gaps) i;
    })
  ]

  check_id-noted :
      (report : GateReport) (prev : Option ℕ) (id : ℕ)
      → check_id report prev id ≡ noted report [] (gap_of prev id)
  check_id-noted report prev id = check_id_lem report prev id ∙ λ i. record report {
    divergent = sym (add-zero report.divergent) i;
    first_divergence = sym (first_of-none report.first_divergence) i;
    id_gaps = report.id_gaps ++ gap_of prev id;
  }

  gate_loop_lem :
      (report : GateReport) (prev : Option ℕ) (s : S) (rs : List (Recorded I O))
      → gate_loop g report prev s rs
        ≡ noted report (divergences g (replayed g s rs)) (gaps_from prev (ids rs))
  unfolding gate_loop
  gate_loop_lem report none s [] = sym (added-nothing report)
  gate_loop_lem report (some p) s [] = sym (added-nothing report)
  gate_loop_lem report prev s (r ∷ rs) =
      let (s', o) = g.step s r.input in
      let later = divergences g (replayed g s' rs) in
      let gaps_later = gaps_from (some r.id) (ids rs) in
      gate_loop_lem (compare_output g (check_id report prev r.id) r o) (some r.id) s' rs
      ∙ ap (λ q. noted q later gaps_later)
          (ap (λ q. compare_output g q r o) (check_id-noted report prev r.id)
            ∙ compare_output_lem (noted report [] (gap_of prev r.id)) r o
            ∙ noted-noted report [] (diverges (r, o)) (gap_of prev r.id) [])
      ∙ noted-noted report (diverges (r, o)) later (gap_of prev r.id ++ []) gaps_later
      ∙ ap (noted report (diverges (r, o) ++ later)) (
          ap (λ l. l ++ gaps_later) (append-nil (gap_of prev r.id))
          ∙ sym (gaps_from-cons prev r.id (ids rs)))

  -- A replay reports as many steps as were recorded, as divergent exactly the steps at which the
  -- encoding of the replayed output differs from that of the recorded one (all of them are replayed,
  -- also after the first), the text of the first of these, and the id gaps between neighbours, in
  -- order.
  pub replay_gate-reports :
      (s : S) (rs : List (Recorded I O))
      → let report = replay_gate g s rs in
        let diverging = divergences g (replayed g s rs) in
        (report.steps ≡ length rs)
        × (report.divergent ≡ length diverging)
        × (report.first_divergence ≡ first_text g diverging)
        × (report.id_gaps ≡ gaps (ids rs))
  unfolding replay_gate
  replay_gate-reports s rs = rw (gate_loop_lem _ none s rs) (refl, zero-add _, refl, refl)
