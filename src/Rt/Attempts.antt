-- ===== src/Rt/Attempts.antt =====
-- crates/msrs-core/src/rt.rs: `apply` attempts everything and reports the first failure.
use Prim.Native.String.{◌++◌}
use msrs.Shared.{
  ℕ, ◌≡◌, refl, sym, ap, ◌∙◌, Bool, true, false, Option, none, some, List, [], ◌∷◌, String, Result,
  ok, err, to_decimal, if◌then◌else◌,
}
use msrs.Shared.{◌++◌ as append}
use msrs.Rt.{
  Platform, RtConfig, SchedPolicy, normal_policy, fifo, get_or_insert, set_fifo, find_core,
  pin_found, pin_each, pin_among, pin_all, add_failure, schedule, verdict, apply,
}

-- The first failure of a list of outcomes.
abbrev pub first_failure : List (Option String) → Option String
first_failure [] = none
first_failure (none ∷ l) = first_failure l
first_failure (some e ∷ l) = some e

abbrev or_else : Option String → Option String → Option String
or_else none later = later
or_else (some e) later = some e

module _ (os : Platform) where
  open os use {Thread, CoreId, get_core_ids, set_for_current}

  -- One attempt: what it does to the thread, and its failure if it fails.
  abbrev pub Attempt : Type 0
  Attempt = Thread → Option String × Thread

  abbrev pub pin_attempt : ℕ → Option CoreId → Attempt
  pin_attempt want none th = (some ("core " ++ (to_decimal want ++ " not available")), th)
  pin_attempt want (some core) th =
      let (done, th') = set_for_current core th in
      (if done then none else some ("failed to pin to core " ++ to_decimal want), th')

  abbrev fifo_failure : Result String (Unit {0}) → Option String
  fifo_failure (ok _) = none
  fifo_failure (err e) = some e

  abbrev pub fifo_attempt : ℕ → Attempt
  fifo_attempt prio th = let (set, th') = set_fifo os prio th in (fifo_failure set, th')

  -- All the attempts of a configuration, in order: one for each core asked for, or one failure if
  -- the cores cannot be listed, and then the scheduler.
  abbrev pub pin_attempts : Option (List CoreId) → List ℕ → List Attempt
  pin_attempts ids [] = []
  pin_attempts none (want ∷ wants) = (λ th. (some "core ids unavailable", th)) ∷ []
  pin_attempts (some ids) (want ∷ wants) =
      pin_attempt want (find_core os ids want) ∷ pin_attempts (some ids) wants

  abbrev pub scheduler_attempts : SchedPolicy → List Attempt
  scheduler_attempts normal_policy = []
  scheduler_attempts (fifo prio) = fifo_attempt prio ∷ []

  abbrev pub attempts : RtConfig → Thread → List Attempt
  attempts config th =
      append (pin_attempts (get_core_ids th) config.affinity) (scheduler_attempts config.scheduler)

  -- Every attempt is made, whatever the ones before it did.
  abbrev pub make_all : List Attempt → Thread → List (Option String) × Thread
  make_all [] th = ([], th)
  make_all (a ∷ rest) th =
      let (failure, th') = a th in
      let (failures, th'') = make_all rest th' in (failure ∷ failures, th'')

or_else-none : (o : Option String) → or_else o none ≡ o
or_else-none none = refl
or_else-none (some e) = refl

or_else_insert : (o : Option String) (e : String) → get_or_insert o e ≡ or_else o (some e)
or_else_insert none e = refl
or_else_insert (some d) e = refl

or_else-first_failure :
    (o f : Option String) (fs : List (Option String))
    → or_else (or_else o f) (first_failure fs) ≡ or_else o (first_failure (f ∷ fs))
or_else-first_failure none none fs = refl
or_else-first_failure none (some e) fs = refl
or_else-first_failure (some d) none fs = refl
or_else-first_failure (some d) (some e) fs = refl

first_failure-append :
    (fs gs : List (Option String))
    → first_failure (append fs gs) ≡ or_else (first_failure fs) (first_failure gs)
first_failure-append [] gs = refl
first_failure-append (none ∷ fs) gs = first_failure-append fs gs
first_failure-append (some e ∷ fs) gs = refl

if_insert :
    (done : Bool) (o : Option String) (e : String)
    → (if done then o else get_or_insert o e) ≡ or_else o (if done then none else some e)
if_insert true o e = sym (or_else-none o)
if_insert false o e = or_else_insert o e

module _ (os : Platform) where
  open os use {Thread, CoreId, get_core_ids, set_for_current}

  -- The failure so far and what an attempt adds to it.
  abbrev noting : Option String → Option String × Thread → Option String × Thread
  noting o (failure, th) = (or_else o failure, th)

  abbrev noting_all : Option String → List (Option String) × Thread → Option String × Thread
  noting_all o (failures, th) = (or_else o (first_failure failures), th)

  pin_found_lem :
      (want : ℕ) (core : Option CoreId) (o : Option String) (th : Thread)
      → pin_found os want core o th ≡ noting o (pin_attempt os want core th)
  unfolding pin_found
  pin_found_lem want none o th =
      λ i. (or_else_insert o ("core " ++ (to_decimal want ++ " not available")) i, th)
  pin_found_lem want (some core) o th =
      let (done, th') = set_for_current core th in
      λ i. (if_insert done o ("failed to pin to core " ++ to_decimal want) i, th')

  pin_each_lem :
      (ids : List CoreId) (wants : List ℕ) (o : Option String) (th : Thread)
      → pin_each os ids wants o th
        ≡ noting_all o (make_all os (pin_attempts os (some ids) wants) th)
  unfolding pin_each
  pin_each_lem ids [] o th = λ i. (sym (or_else-none o) i, th)
  pin_each_lem ids (want ∷ wants) o th =
      let (f, th') = pin_attempt os want (find_core os ids want) th in
      let (fs, th'') = make_all os (pin_attempts os (some ids) wants) th' in
      ap (λ r. pin_each os ids wants r.0 r.1) (pin_found_lem want (find_core os ids want) o th)
      ∙ pin_each_lem ids wants (or_else o f) th'
      ∙ λ i. (or_else-first_failure o f fs i, th'')

  pin_among_lem :
      (ids : Option (List CoreId)) (want : ℕ) (wants : List ℕ) (th : Thread)
      → pin_among os ids (want ∷ wants) th
        ≡ noting_all none (make_all os (pin_attempts os ids (want ∷ wants)) th)
  unfolding pin_among
  pin_among_lem none want wants th = refl
  pin_among_lem (some ids) want wants th = pin_each_lem ids (want ∷ wants) none th

  pin_all_lem :
      (wants : List ℕ) (th : Thread)
      → pin_all os wants th
        ≡ noting_all none (make_all os (pin_attempts os (get_core_ids th) wants) th)
  unfolding pin_all
  pin_all_lem [] th = refl
  pin_all_lem (want ∷ wants) th = pin_among_lem (get_core_ids th) want wants th

  add_failure_lem :
      (o : Option String) (set : Result String (Unit {0}))
      → add_failure os o set ≡ or_else o (first_failure (fifo_failure os set ∷ []))
  add_failure_lem o (ok _) = sym (or_else-none o)
  add_failure_lem o (err e) = or_else_insert o e

  schedule_lem :
      (policy : SchedPolicy) (o : Option String) (th : Thread)
      → schedule os policy o th ≡ noting_all o (make_all os (scheduler_attempts os policy) th)
  unfolding schedule
  schedule_lem normal_policy o th = λ i. (sym (or_else-none o) i, th)
  schedule_lem (fifo prio) o th =
      let (set, th') = set_fifo os prio th in λ i. (add_failure_lem o set i, th')

  make_all-append :
      (l k : List (Attempt os)) (th : Thread)
      → make_all os (append l k) th ≡ (
          let (fs, th') = make_all os l th in
          let (gs, th'') = make_all os k th' in (append fs gs, th''))
  make_all-append [] k th = refl
  make_all-append (a ∷ l) k th =
      let (f, th') = a th in ap (λ r. (f ∷ r.0, r.1)) (make_all-append l k th')

  -- `apply` makes every attempt that the configuration asks for, in order, each on the thread that
  -- the previous ones left, whether or not they failed; it returns `Ok` when none failed and the
  -- text of the first failure otherwise. A configuration without affinities does not list the cores.
  pub apply-make_all :
      (config : RtConfig) (th : Thread)
      → let (failures, th') = make_all os (attempts os config th) th in
        apply os config th ≡ (verdict os (first_failure failures), th')
  unfolding apply
  apply-make_all config th =
      let pins = pin_attempts os (get_core_ids th) config.affinity in
      let rest = scheduler_attempts os config.scheduler in
      let (fs, th') = make_all os pins th in
      let (gs, th'') = make_all os rest th' in
      ap (λ r. let (o, t) = schedule os config.scheduler r.0 r.1 in (verdict os o, t))
        (pin_all_lem config.affinity th)
      ∙ ap (λ r. (verdict os r.0, r.1)) (schedule_lem config.scheduler (first_failure fs) th')
      ∙ (λ i. (verdict os (sym (first_failure-append fs gs) i), th''))
      ∙ ap (λ r. (verdict os (first_failure r.0), r.1)) (sym (make_all-append pins rest th))
