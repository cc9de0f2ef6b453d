-- ===== src/Rt/Pinning.antt =====
-- crates/msrs-core/src/rt.rs: where a thread is pinned after `apply`. core_affinity's documented
-- effect, that a successful call pins the current thread to the one core given, is a hypothesis.
use Prim.Native.String.{◌++◌}
use msrs.Shared.{
  ℕ, ◌≡◌, refl, sym, ap, ◌∙◌, true, Option, none, some, List, [], ◌∷◌, String, ok, ◌==◌, ==_iff,
  to_decimal, Bool-cases, inl, inr,
}
use msrs.Shared.{◌++◌ as append, append-nil}
use msrs.Rt.{Platform, RtConfig, normal_policy, find_core, verdict, apply}
use msrs.Rt.Attempts.{first_failure, pin_attempt, pin_attempts, make_all, attempts, apply-make_all}

-- Normal scheduling, and several cores with a last one.
abbrev pub pinned_to : List ℕ → ℕ → RtConfig
pinned_to wants last = record { scheduler = normal_policy; affinity = append wants (last ∷ []) }

module _ (os : Platform) where
  open os use {Thread, CoreId, id, get_core_ids, set_for_current}

  id-find_core :
      (ids : List CoreId) (want : ℕ) (core : CoreId)
      → find_core os ids want ≡ some core
      → id core ≡ want
  unfolding find_core
  id-find_core [] want core h = cc
  id-find_core (c ∷ cs) want core h = elim (Bool-cases (id c == want)) [
    | inl hit ↦ let h' : some c ≡ some core = rw hit at h in cc ((==_iff (id c) want).0 hit)
    | inr miss ↦ id-find_core cs want core (rw miss at h)
  ]

  module _ (affinity : Thread → List ℕ)
      (pins : (core : CoreId) (th : Thread)
        → (set_for_current core th).0 ≡ true
        → affinity (set_for_current core th).1 ≡ id core ∷ []) where
    pin_attempt-affinity :
        (want : ℕ) (core : Option CoreId) (th : Thread)
        → ((c : CoreId) → core ≡ some c → id c ≡ want)
        → (pin_attempt os want core th).0 ≡ none
        → affinity (pin_attempt os want core th).1 ≡ want ∷ []
    pin_attempt-affinity want none th found h = cc
    pin_attempt-affinity want (some c) th found h = elim (Bool-cases (set_for_current c th).0) [
      | inl done ↦ pins c th done ∙ ap (λ n. n ∷ []) (found c refl)
      | inr failed ↦
          let h' : some ("failed to pin to core " ++ to_decimal want) ≡ none = rw failed at h in cc
    ]

    none_first :
        (f : Option String) (fs : List (Option String)) → first_failure (f ∷ fs) ≡ none → f ≡ none
    none_first none fs h = refl
    none_first (some e) fs h = cc

    none_rest :
        (f : Option String) (fs : List (Option String))
        → first_failure (f ∷ fs) ≡ none
        → first_failure fs ≡ none
    none_rest none fs h = h
    none_rest (some e) fs h = cc

    pin_attempts-affinity :
        (ids : List CoreId) (wants : List ℕ) (last : ℕ) (th : Thread)
        → let (failures, th') =
            make_all os (pin_attempts os (some ids) (append wants (last ∷ []))) th in
          first_failure failures ≡ none → affinity th' ≡ last ∷ []
    pin_attempts-affinity ids [] last th h =
        pin_attempt-affinity last (find_core os ids last) th (λ c. id-find_core ids last c)
          (none_first (pin_attempt os last (find_core os ids last) th).0 [] h)
    pin_attempts-affinity ids (want ∷ wants) last th h =
        let (f, th') = pin_attempt os want (find_core os ids want) th in
        let fs = (make_all os (pin_attempts os (some ids) (append wants (last ∷ []))) th').0 in
        pin_attempts-affinity ids wants last th' (none_rest f fs h)

    none_of_ok : (o : Option String) → verdict os o ≡ ok tt → o ≡ none
    none_of_ok none h = refl
    none_of_ok (some e) h = cc

    -- When `apply` succeeds on a configuration with normal scheduling and several cores, the thread
    -- ends pinned to the last of them alone: each call replaces the pinning of the one before.
    pub apply-affinity :
        (wants : List ℕ) (last : ℕ) (ids : List CoreId) (th : Thread)
        → get_core_ids th ≡ some ids
        → (apply os (pinned_to wants last) th).0 ≡ ok tt
        → affinity (apply os (pinned_to wants last) th).1 ≡ last ∷ []
    apply-affinity wants last ids th listed h =
        let pins_all = pin_attempts os (some ids) (append wants (last ∷ [])) in
        let same : attempts os (pinned_to wants last) th ≡ pins_all =
          append-nil (pin_attempts os (get_core_ids th) (append wants (last ∷ [])))
          ∙ ap (λ o. pin_attempts os o (append wants (last ∷ []))) listed in
        let failures = (make_all os pins_all th).0 in
        let whole : apply os (pinned_to wants last) th
            ≡ (verdict os (first_failure failures), (make_all os pins_all th).1) =
          apply-make_all os (pinned_to wants last) th
          ∙ ap (λ l. let (fs, t) = make_all os l th in (verdict os (first_failure fs), t)) same in
        ap (λ r. affinity r.1) whole
        ∙ pin_attempts-affinity ids wants last th
            (none_of_ok (first_failure failures) (sym (ap (λ r. r.0) whole) ∙ h))
