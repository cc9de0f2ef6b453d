-- ===== src/Channel/Drain.antt =====
-- Rust's `rx.try_iter().take(max).collect()`, with what the other end does between the calls.
use msrs.Shared.{
  ℕ, zero, suc, ◌+◌, ◌≤◌, ◌≡◌, refl, sym, ap, ◌∙◌, none, some, List, [], ◌∷◌, ◌++◌, append-nil,
  append_assoc, arith, ok?, length, take, drop,
}
use native.Mathlib.Nat.{add-zero}
use msrs.Channel.{Channel}

module _ {T : Type 0} (ch : Channel T) where
  -- What the driver thread does to the channel before its n-th call by the DAG.
  abbrev pub Interference : Type 0
  Interference = ℕ → ch.Chan → ch.Chan

  abbrev pub quiet : Interference
  quiet n c = c

  -- The other end only adds: `sent n` before the n-th call.
  abbrev pub Sends : Interference → (ℕ → List T) → Type 0
  Sends env sent = (n : ℕ) (c : ch.Chan) → ch.contents (env n c) ≡ ch.contents c ++ sent n

  -- The messages taken, the channel, and the number of the next call. `next` of the iterator is
  -- `try_recv().ok()`, and `take(0)` makes no call.
  unfoldable pub drain : ℕ → Interference → ℕ → ch.Chan → List T × ch.Chan × ℕ
  drain zero env n c = ([], c, n)
  drain (suc max) env n c =
      let (r, c') = ch.try_recv (env n c) in
      elim (ok? r) [
        | none ↦ ([], c', suc n)
        | some v ↦ let (vs, c'', n') = drain max env (suc n) c' in (v ∷ vs, c'', n')
      ]

  drain-empty :
      (max : ℕ) (env : Interference) (n : ℕ) (c : ch.Chan)
      → ok? (ch.try_recv (env n c)).0 ≡ none
      → drain (suc max) env n c ≡ ([], (ch.try_recv (env n c)).1, suc n)
  unfolding drain
  drain-empty max env n c e = rw (e, drain)

  drain-next :
      (max : ℕ) (env : Interference) (n : ℕ) (c : ch.Chan) (v : T)
      → ok? (ch.try_recv (env n c)).0 ≡ some v
      → let (vs, c'', n') = drain max env (suc n) (ch.try_recv (env n c)).1 in
        drain (suc max) env n c ≡ (v ∷ vs, c'', n')
  unfolding drain
  drain-next max env n c v e = rw (e, drain)

module _ {T : Type 0} where
  -- What arrives before the calls n, n + 1, …, n + k - 1.
  abbrev pub arrived : (ℕ → List T) → ℕ → ℕ → List T
  arrived sent n zero = []
  arrived sent n (suc k) = sent n ++ arrived sent (suc n) k

  pub arrived-suc :
      (sent : ℕ → List T) (n k : ℕ) → arrived sent n (suc k) ≡ arrived sent n k ++ sent (n + k)
  arrived-suc sent n zero = rw (append-nil, add-zero)
  arrived-suc sent n (suc k) =
      rw (arrived-suc sent (suc n) k, append_assoc)
        (ap (λ j. sent n ++ (arrived sent (suc n) k ++ sent j)) (omega arith))

-- A drained run of messages: `before` and what arrived in k calls is `events` and then `after`.
pub record Drained {T : Type 0} (max n : ℕ) (sent : ℕ → List T) (before events after : List T)
    (n' : ℕ) : Type 0 where
  pub calls : ℕ
  pub next : n' ≡ n + calls
  pub few : calls ≤ max
  pub many : length events ≤ calls
  pub bounded : length events ≤ max
  pub kept : events ++ after ≡ before ++ arrived sent n calls

module _ {T : Type 0} (ch : Channel T) (env : Interference ch) (sent : ℕ → List T)
    (adds : Sends ch env sent) where
  abbrev DrainsFrom : ℕ → ℕ → ch.Chan → Type 0
  DrainsFrom max n c =
      let (events, c', n') = drain ch max env n c in
      Drained max n sent (ch.contents c) events (ch.contents c') n'

  -- One call of the iterator, by what the channel holds when it is made.
  drain-step :
      (max n : ℕ) (c : ch.Chan) (xs : List T)
      → ((c' : ch.Chan) → DrainsFrom max (suc n) c')
      → ch.contents (env n c) ≡ xs
      → DrainsFrom (suc max) n c
  drain-step max n c [] ih e =
      let (r, left) = ch.try_recv-nil (env n c) e in
      rw (drain-empty ch max env n c r) (record {
        calls = 1;
        next = omega arith;
        few = omega arith;
        many = omega arith;
        bounded = omega arith;
        kept = left ∙ sym e ∙ adds n c ∙ ap (◌++◌ (ch.contents c)) (sym (append-nil (sent n)));
      })
  drain-step max n c (v ∷ vs) ih e =
      let (r, left) = ch.try_recv-cons (env n c) v vs e in
      let rest = ih (ch.try_recv (env n c)).1 in
      rw (drain-next ch max env n c v r) (record {
        calls = suc rest.calls;
        next = omega (arith, rest.next);
        few = omega (arith, rest.few);
        many = omega (arith, rest.many);
        bounded = omega (arith, rest.bounded);
        kept =
            ap (◌∷◌ v) rest.kept
            ∙ ap (λ l. v ∷ (l ++ arrived sent (suc n) rest.calls)) left
            ∙ ap (λ l. l ++ arrived sent (suc n) rest.calls) (sym e ∙ adds n c)
            ∙ append_assoc (ch.contents c) (sent n) (arrived sent (suc n) rest.calls);
      })

  pub drain-Drained : (max n : ℕ) (c : ch.Chan) → DrainsFrom max n c
  unfolding drain
  drain-Drained zero n c = record {
    calls = 0;
    next = omega arith;
    few = omega arith;
    many = omega arith;
    bounded = omega arith;
    kept = rw append-nil;
  }
  drain-Drained (suc max) n c =
      drain-step max n c (ch.contents (env n c)) (λ c'. drain-Drained max (suc n) c') refl

-- With nobody else at the channel the drain takes the oldest messages, up to the cap.
module _ {T : Type 0} (ch : Channel T) where
  drain-quiet_step :
      (max n : ℕ) (c : ch.Chan) (xs : List T)
      → ((m : ℕ) (c' : ch.Chan)
          → let (events, c'', n') = drain ch max (quiet ch) m c' in
            (events ≡ take max (ch.contents c')) × (ch.contents c'' ≡ drop max (ch.contents c')))
      → ch.contents c ≡ xs
      → let (events, c', n') = drain ch (suc max) (quiet ch) n c in
        (events ≡ take (suc max) xs) × (ch.contents c' ≡ drop (suc max) xs)
  drain-quiet_step max n c [] ih e =
      let (r, left) = ch.try_recv-nil c e in rw (drain-empty ch max (quiet ch) n c r) (refl, left)
  drain-quiet_step max n c (v ∷ vs) ih e =
      let (r, left) = ch.try_recv-cons c v vs e in
      let (events, kept) = ih (suc n) (ch.try_recv c).1 in
      rw (drain-next ch max (quiet ch) n c v r)
        (ap (◌∷◌ v) (events ∙ ap (take max) left), kept ∙ ap (drop max) left)

  pub drain-quiet :
      (max n : ℕ) (c : ch.Chan)
      → let (events, c', n') = drain ch max (quiet ch) n c in
        (events ≡ take max (ch.contents c)) × (ch.contents c' ≡ drop max (ch.contents c))
  unfolding drain
  drain-quiet zero n c = (refl, refl)
  drain-quiet (suc max) n c =
      drain-quiet_step max n c (ch.contents c) (λ m c'. drain-quiet max m c') refl
