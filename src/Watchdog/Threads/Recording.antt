-- ===== src/Watchdog/Threads/Recording.antt =====
-- examples/watchdog/src/main.rs: one more copperlist at the end of a log.
use msrs.Shared.{
  ℕ, zero, suc, ◌+◌, ◌≡◌, refl, sym, ap, ◌∙◌, some, List, [], ◌∷◌, ◌++◌, append_assoc, Checked,
  returns, panics, arith,
}
use msrs.Copper.{CuMsg}
use msrs.Trigger.{message}
use msrs.Fsm.{run_step_all}
use msrs.Fsm.Batch.{Batch}
use msrs.Fsm.Forwarding.{batch_of}
use msrs.Tasks.{Cycle}
use msrs.Replay.Spec.{ids}
use msrs.Watchdog.{Feed, Alarm, Gate, WatchdogMachine, watchdog}
use msrs.Watchdog.Service.{CopperList, Step, step_of, and_then, collect_steps, alarms_in, alarms_of}
use msrs.Watchdog.Service.Control.{IsRecordOf}
use msrs.Watchdog.Service.Iteration.{ids_from}

pub alarms_of-append :
    (steps more : List Step) → alarms_of (steps ++ more) ≡ alarms_of steps ++ alarms_of more
alarms_of-append [] more = refl
alarms_of-append (s ∷ steps) more =
    ap (λ l. alarms_in s.output ++ l) (alarms_of-append steps more)
    ∙ sym (append_assoc (alarms_in s.output) (alarms_of steps) (alarms_of more))

pub ids-append : (steps more : List Step) → ids (steps ++ more) ≡ ids steps ++ ids more
ids-append [] more = refl
ids-append (s ∷ steps) more = ap (◌∷◌ s.id) (ids-append steps more)

pub ids_from-last : (n k : ℕ) → ids_from n k ++ (n + k) ∷ [] ≡ ids_from n (suc k)
ids_from-last n zero = let e : n + 0 ≡ n = omega arith in ap (λ i. i ∷ []) e
ids_from-last n (suc k) =
    let e : n + suc k ≡ suc n + k = omega arith in
    ap (λ i. n ∷ (ids_from (suc n) k ++ i ∷ [])) e ∙ ap (◌∷◌ n) (ids_from-last (suc n) k)

module _ (cycles : CuMsg (Cycle Feed)) (alarms : CuMsg (Batch Alarm)) where
  and_then-append :
      (s : Checked Step) (r : Checked (List Step)) (l : List Step) (last : Step)
      → and_then s r ≡ returns l
      → (q : Checked (List Step)) → ((k : List Step) → r ≡ returns k → q ≡ returns (k ++ last ∷ []))
      → and_then s q ≡ returns (l ++ last ∷ [])
  and_then-append (panics text) r l last h q more = cc
  and_then-append (returns s) (panics text) l last h q more = cc
  and_then-append (returns s) (returns k) l last h q more =
      ap (and_then (returns s)) (more k refl) ∙ ap (λ p. returns (p ++ last ∷ [])) (steps_of l h)
    where
      steps_or : Checked (List Step) → List Step
      steps_or (returns p) = p
      steps_or (panics text) = []

      steps_of : (p : List Step) → returns (s ∷ k) ≡ returns p → s ∷ k ≡ p
      steps_of p e = ap steps_or e

  pub collect_steps-append :
      (cls : List (CopperList cycles alarms)) (cl : CopperList cycles alarms) (c : Cycle Feed)
      (steps : List Step)
      → collect_steps cycles alarms cls ≡ returns steps
      → cycles.payload cl.ingress ≡ some c
      → collect_steps cycles alarms (cls ++ cl ∷ [])
        ≡ returns
            (steps ++ record { id = cl.id; input = c; output = alarms.payload cl.alarmed } ∷ [])
  unfolding collect_steps
  collect_steps-append [] cl c steps h e =
      ap (λ o. and_then (step_of cl.id o (alarms.payload cl.alarmed)) (returns [])) e
      ∙ ap (λ r. r_append r) h
    where
      r_append : Checked (List Step) → Checked (List Step)
      r_append (returns p) =
          returns (p ++ record { id = cl.id; input = c; output = alarms.payload cl.alarmed } ∷ [])
      r_append (panics text) = panics text
  collect_steps-append (d ∷ cls) cl c steps h e =
      and_then-append (step_of d.id (cycles.payload d.ingress) (alarms.payload d.alarmed))
        (collect_steps cycles alarms cls) steps _ h (collect_steps cycles alarms (cls ++ cl ∷ []))
        (λ k same. collect_steps-append cls cl c k same e)

module _ (gate : Gate) where
  -- The machine after some steps.
  abbrev pub after : WatchdogMachine gate → List Step → WatchdogMachine gate
  after m [] = m
  after m (s ∷ steps) = after (run_step_all (watchdog gate) m (message s.input)).0 steps

  pub after-append :
      (m : WatchdogMachine gate) (steps : List Step) (s : Step)
      → after m (steps ++ s ∷ [])
        ≡ (run_step_all (watchdog gate) (after m steps) (message s.input)).0
  after-append m [] s = refl
  after-append m (r ∷ steps) s =
      after-append (run_step_all (watchdog gate) m (message r.input)).0 steps s

  pub IsRecordOf-append :
      (m : WatchdogMachine gate) (steps : List Step) (s : Step)
      → IsRecordOf gate m steps
      → s.output ≡ batch_of (run_step_all (watchdog gate) (after m steps) (message s.input)).1
      → IsRecordOf gate m (steps ++ s ∷ [])
  IsRecordOf-append m [] s h e = (e, tt)
  IsRecordOf-append m (r ∷ steps) s (output, h) e =
      (output, IsRecordOf-append (run_step_all (watchdog gate) m (message r.input)).0 steps s h e)
