-- ===== src/Examples/Rt.antt =====
-- The theorems on scheduling, at concrete inputs.
use msrs.Shared.{ℕ, ◌≡◌, refl, true, some, List, [], ◌∷◌, ok, err}
use msrs.Rt.{Platform, fifo, RtConfig, verdict, apply, find_core, pin_each, pin_all}
use msrs.Rt.Attempts.{first_failure, attempts, make_all, apply-make_all}
use msrs.Rt.Pinning.{pinned_to, apply-affinity}

-- Three cores; the thread is the list of the cores that it may run on, and priorities may not be set.
abbrev pub three_cores : Platform
three_cores = record {
  Thread = List ℕ;
  CoreId = ℕ;
  id = λ c. c;
  get_core_ids = λ th. some (0 ∷ 1 ∷ 2 ∷ []);
  set_for_current = λ c th. (true, c ∷ []);
  Priority = ℕ;
  priority_of = λ n. ok n;
  set_priority = λ p th. (err "denied", th);
  is_linux = true;
}

abbrev pub fifo_on_9_and_1 : RtConfig
fifo_on_9_and_1 = record { scheduler = fifo 80; affinity = 9 ∷ 1 ∷ [] }

apply-make_all_example :
    let (failures, th') = make_all three_cores (attempts three_cores fifo_on_9_and_1 []) [] in
    apply three_cores fifo_on_9_and_1 [] ≡ (verdict three_cores (first_failure failures), th')
apply-make_all_example = apply-make_all three_cores fifo_on_9_and_1 []

apply-affinity_example : (apply three_cores (pinned_to (1 ∷ 0 ∷ []) 2) []).1 ≡ 2 ∷ []
unfolding apply pin_all find_core pin_each
apply-affinity_example =
    apply-affinity three_cores (λ th. th) (λ core th done. refl) (1 ∷ 0 ∷ []) 2 (0 ∷ 1 ∷ 2 ∷ []) []
      refl refl
