-- ===== src/Tasks/CycleIngress/Backlog.antt =====
-- crates/msrs-transport/src/tasks.rs: how long `CycleIngressTask` needs for a backlog.
use native.Mathlib.Nat.{zero-add}
use msrs.Shared.{
  ℕ, zero, suc, ◌+◌, ◌*◌, ◌≡◌, refl, sym, ap, ap₂, ◌∙◌, List, [], ◌∷◌, ◌++◌, length, take, drop,
  take-nil, All, arith,
}
use msrs.Copper.{CuMsg, Clock}
use msrs.Channel.{Channel}
use msrs.Channel.Drain.{quiet}
use msrs.Tasks.{Cycle}
use msrs.Tasks.CycleIngress.{CycleIngressTask, process}
use msrs.Tasks.CycleIngress.Sampling.{process-quiet}
use msrs.Tasks.CycleIngress.Lossless.{events_of, Turn, sample}

take-take-drop :
    {A : Type 0} (m n : ℕ) (l : List A) → take m l ++ take n (drop m l) ≡ take (m + n) l
take-take-drop zero n l = ap (λ k. take k l) (sym (zero-add n))
take-take-drop (suc m) n [] = take-nil n ∙ sym (take-nil (suc m + n))
take-take-drop (suc m) n (x ∷ l) =
    let same : suc (m + n) ≡ suc m + n = omega arith in
    ap (◌∷◌ x) (take-take-drop m n l) ∙ ap (λ k. take k (x ∷ l)) same

drop-nil : {A : Type 0} (n : ℕ) → drop {A = A} n [] ≡ []
drop-nil zero = refl
drop-nil (suc n) = refl

drop-drop : {A : Type 0} (m n : ℕ) (l : List A) → drop n (drop m l) ≡ drop (m + n) l
drop-drop zero n l = ap (λ k. drop k l) (sym (zero-add n))
drop-drop (suc m) n [] = drop-nil n ∙ sym (drop-nil (suc m + n))
drop-drop (suc m) n (x ∷ l) =
    let same : suc (m + n) ≡ suc m + n = omega arith in
    drop-drop m n l ∙ ap (λ k. drop k (x ∷ l)) same

module _ {T : Type 0} (ch : Channel T) (clock : Clock) (output : CuMsg (Cycle T)) where
  -- An iteration in which nothing arrives.
  abbrev pub IsQuiet : Turn ch clock output → Type 0
  IsQuiet t = t.env ≡ quiet ch

  module _ {Rx : Type 0} (task : CycleIngressTask Rx) where
    turn-quiet :
        (t : Turn ch clock output) (rx : ch.Chan)
        → IsQuiet t
        → let p = process ch clock output task t.env t.ctx rx t.msg in
          (events_of (output.payload p.output) ≡ take task.max_batch (ch.contents rx))
          × (ch.contents p.chan ≡ drop task.max_batch (ch.contents rx))
    turn-quiet t rx h =
        let (payload, left) = process-quiet ch clock output task t.ctx rx t.msg in
        (
          ap
                (λ env.
                  events_of
                    (output.payload (process ch clock output task env t.ctx rx t.msg).output))
                h
              ∙ ap events_of payload,
          ap (λ env. ch.contents (process ch clock output task env t.ctx rx t.msg).chan) h ∙ left,
        )

    -- Iterations in which nothing arrives hand on the oldest messages in order, `max_batch` in each
    -- of them until the backlog is gone: k iterations sample exactly the first k times `max_batch`
    -- messages, so a backlog of at most that many is gone after them.
    pub sample-quiet :
        (turns : List (Turn ch clock output)) (rx : ch.Chan)
        → All IsQuiet turns
        → let (events, rx') = sample ch clock output task turns rx in
          (events ≡ take (length turns * task.max_batch) (ch.contents rx))
          × (ch.contents rx' ≡ drop (length turns * task.max_batch) (ch.contents rx))
    unfolding sample
    sample-quiet [] rx h =
        let no_more : 0 ≡ 0 * task.max_batch = omega arith in
        (ap (λ k. take k (ch.contents rx)) no_more, ap (λ k. drop k (ch.contents rx)) no_more)
    sample-quiet (t ∷ turns) rx (q, h) =
        let max = task.max_batch in
        let xs = ch.contents rx in
        let p = process ch clock output task t.env t.ctx rx t.msg in
        let (first, left) = turn-quiet t rx q in
        let (rest, last) = sample-quiet turns p.chan h in
        let more = length turns * max in
        let count : max + more ≡ suc (length turns) * max = grind arith in
        (
          ap₂ ◌++◌ first (rest ∙ ap (take more) left)
              ∙ take-take-drop max more xs
              ∙ ap (λ k. take k xs) count,
          last ∙ ap (drop more) left ∙ drop-drop max more xs ∙ ap (λ k. drop k xs) count,
        )
