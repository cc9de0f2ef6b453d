-- ===== src/Effects/Laws.antt =====
-- crates/msrs-core/src/effects.rs: emission order, and what the two ways to drain report.
use msrs.Shared.{
  ◌≤◌, ◌≡◌, refl, ◌∙◌, ◌↔◌, true, List, [], ◌∷◌, ◌++◌, Option, none, some, ok, err, length,
  append-nil, append_assoc, arith,
}
use msrs.Effects.{Effects, ExtraEmits, empty, emit, is_empty, take, take_one, emit_all}

outbox-emit_all {ℓ} :
    {Out : Type ℓ} (e : Effects Out) (vs : List Out) → (emit_all e vs).outbox ≡ e.outbox ++ vs
unfolding emit_all emit
outbox-emit_all e [] = rw append-nil
outbox-emit_all e (v ∷ vs) = outbox-emit_all (emit e v) vs ∙ append_assoc e.outbox (v ∷ []) vs

-- Draining returns what the buffer held and then every value emitted since, in emission order, and
-- leaves the buffer empty.
pub take-emit_all {ℓ} :
    {Out : Type ℓ} (e : Effects Out) (vs : List Out)
    → ((take (emit_all e vs)).0 ≡ e.outbox ++ vs) × (is_empty (take (emit_all e vs)).1 ≡ true)
unfolding take is_empty
take-emit_all e vs = (outbox-emit_all e vs, refl)

abbrev pub to_list {ℓ} : {A : Type ℓ} → Option A → List A
to_list none = []
to_list (some a) = a ∷ []

pub at_most_one_lem :
    {Out : Type 0} (vs : List Out) (o : Option Out) (x : ExtraEmits)
    → (((take_one (record { outbox = vs })).0 ≡ ok o) ↔ (vs ≡ to_list o))
      × (((take_one (record { outbox = vs })).0 ≡ err x)
          ↔ ((2 ≤ length vs) × (x.emitted ≡ length vs)))
unfolding take_one
at_most_one_lem [] o x =
    ((λ h. ground arith, λ h. ground arith), (λ h. ground arith, λ h. ground arith))
at_most_one_lem (v ∷ []) o x =
    ((λ h. ground arith, λ h. ground arith), (λ h. ground arith, λ h. ground arith))
at_most_one_lem (v ∷ w ∷ vs) o x =
    ((λ h. ground arith, λ h. ground arith), (λ h. ground arith, λ h. ground arith))

-- After the emissions `vs` of one step, `take_one` answers `Ok(o)` exactly when `vs` is the list of
-- the at most one value in `o`, answers the error exactly when there were two emissions or more,
-- with their number, and leaves the buffer empty in either case.
pub take_one-emit_all :
    {Out : Type 0} (vs : List Out) (o : Option Out) (x : ExtraEmits)
    → let r = take_one (emit_all empty vs) in
      ((r.0 ≡ ok o) ↔ (vs ≡ to_list o))
      × ((r.0 ≡ err x) ↔ ((2 ≤ length vs) × (x.emitted ≡ length vs)))
      × (is_empty r.1 ≡ true)
unfolding take_one is_empty empty
take_one-emit_all vs o x =
    let (fits, extra) = at_most_one_lem vs o x in rw (outbox-emit_all empty vs) (fits, extra, refl)
