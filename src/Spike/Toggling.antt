-- ===== src/Spike/Toggling.antt =====
-- spike/src/main.rs: the state, the count and what is printed after any number of events.
use Prim.Native.String.{◌++◌}
use msrs.Shared.{
  ℕ, zero, suc, ◌+◌, ◌%◌, ◌^◌, ◌≡◌, refl, sym, ap, ap₂, ◌∙◌, subst₂, arith, List, [], ◌∷◌, String,
  append_assoc, append-nil, to_decimal,
}
use msrs.Shared.{◌++◌ as append}
use msrs.Statig.{next}
use msrs.Spike.{
  toggle, next_count, State, closed, opened, World, println, transition_line, closed_handler,
  opened_handler, handler, Gate, toggle_once, toggle_times, run_statig,
}

-- The state after so many events, from a given one.
abbrev pub other : State → State
other closed = opened
other opened = closed

abbrev pub toggled : ℕ → State → State
toggled zero s = s
toggled (suc n) s = toggled n (other s)

abbrev pub moved : State → String
moved closed = "closed -> open"
moved opened = "open -> closed"

abbrev pub total_line : ℕ → String
total_line k = "[statig] total transitions recorded in context = " ++ to_decimal k

module _ (debug : State → String) where
  abbrev pub now_line : State → String
  now_line s = "[statig] now in state = " ++ debug s

  abbrev pub initial_line : State → String
  initial_line s = "[statig] initial state = " ++ debug s

  -- The two lines of the k-th event, which meets a given state.
  abbrev pub event_lines : ℕ → State → List String
  event_lines k s = transition_line (moved s) (k % 2 ^ 32) ∷ now_line (other s) ∷ []

  -- The lines of so many events, after k of them.
  abbrev pub machine_lines : ℕ → ℕ → State → List String
  machine_lines zero k s = []
  machine_lines (suc n) k s = append (event_lines (suc k) s) (machine_lines n (suc k) (other s))

  -- What `run_statig` prints.
  abbrev pub statig_lines : ℕ → List String
  statig_lines n =
      initial_line closed ∷ append (machine_lines n 0 closed) (total_line (n % 2 ^ 32) ∷ [])

-- What a handler makes of a world with so many transitions.
handler_lem :
    (s : State) (w : World) (k : ℕ)
    → w.ctx.transitions ≡ k % 2 ^ 32
    → (next s (handler s w toggle).0 ≡ other s)
      × ((handler s w toggle).1.ctx.transitions ≡ suc k % 2 ^ 32)
      × ((handler s w toggle).1.stdout
          ≡ append w.stdout (transition_line (moved s) (suc k % 2 ^ 32) ∷ []))
unfolding handler closed_handler opened_handler
handler_lem closed w k h =
    let counted : next_count w.ctx.transitions ≡ suc k % 2 ^ 32 = ap next_count h ∙ omega arith in
    (refl, counted, ap (λ n. append w.stdout (transition_line "closed -> open" n ∷ [])) counted)
handler_lem opened w k h =
    let counted : next_count w.ctx.transitions ≡ suc k % 2 ^ 32 = ap next_count h ∙ omega arith in
    (refl, counted, ap (λ n. append w.stdout (transition_line "open -> closed" n ∷ [])) counted)

module _ (gate : Gate) (debug : State → String) where
  -- A machine after k transitions, in a given state, with what was printed.
  Shows : gate.Machine × World → State → ℕ → List String → Type 0
  Shows (m, w) s k out = (gate.state m ≡ s) × (w.ctx.transitions ≡ k % 2 ^ 32) × (w.stdout ≡ out)

  toggle_once-Shows :
      (p : gate.Machine × World) (s : State) (k : ℕ) (out : List String)
      → Shows p s k out
      → Shows
          (toggle_once gate debug p)
          (other s)
          (suc k)
          (append out (event_lines debug (suc k) s))
  unfolding Shows toggle_once
  toggle_once-Shows (m, w) s k out (at, count, shown) =
      let (moves, counts, prints) = handler_lem (gate.state m) w k count in
      let world = gate.context-handle m toggle w in
      let now = now_line debug (gate.state (gate.handle_with_context m toggle w).0) in
      let reached = gate.state-handle m toggle w ∙ moves ∙ ap other at in
      (
        reached,
        ap (λ v. v.ctx.transitions) world ∙ counts,
        ap (λ v. append v.stdout (now ∷ [])) world
            ∙ ap (λ l. append l (now ∷ [])) prints
            ∙ append_assoc w.stdout _ _
            ∙ ap₂ append shown (
                ap₂ (λ t u. transition_line (moved t) (suc k % 2 ^ 32) ∷ now_line debug u ∷ []) at
                  reached),
      )

  toggle_times-Shows :
      (n k : ℕ) (p : gate.Machine × World) (s : State) (out : List String)
      → Shows p s k out
      → Shows
          (toggle_times gate debug n p)
          (toggled n s)
          (k + n)
          (append out (machine_lines debug n k s))
  unfolding toggle_times
  toggle_times-Shows zero k p s out shows =
      subst₂ (Shows p s) (omega arith) (sym (append-nil out)) shows
  toggle_times-Shows (suc n) k p s out shows =
      subst₂ (Shows (toggle_times gate debug n (toggle_once gate debug p)) (toggled n (other s)))
        (omega arith) (append_assoc out _ _)
        (toggle_times-Shows n (suc k) (toggle_once gate debug p) (other s)
          (append out (event_lines debug (suc k) s)) (toggle_once-Shows p s k out shows))

  -- After any number of events the machine of the spike is where that many moves between its two
  -- states lead from the closed one, its context has counted each of them (modulo 2^32), and the
  -- lines printed are the initial state, each move with its number and the state it leads to, in
  -- order, and the count.
  pub run_statig-toggled :
      (n : ℕ) (out : List String)
      → let (m, w) = run_statig gate debug n out in
        (gate.state m ≡ toggled n closed)
        × (w.ctx.transitions ≡ n % 2 ^ 32)
        × (w.stdout ≡ append out (statig_lines debug n))
  unfolding run_statig Shows
  run_statig-toggled n out =
      let start : World = record { ctx = record { transitions = 0 }; stdout = out } in
      let m = (gate.init_with_context start).0 in
      let w = (gate.init_with_context start).1 in
      let world = gate.context-init start in
      let (state, count, shown) =
        toggle_times-Shows n 0 (m, println w (initial_line debug (gate.state m))) closed
          (append out (initial_line debug closed ∷ []))
          (
            gate.state-init start,
            ap (λ v. v.ctx.transitions) world,
            ap₂ (λ v t. append v.stdout (initial_line debug t ∷ [])) world (gate.state-init start),
          ) in
      let counted = count ∙ ap (λ k. k % 2 ^ 32) (omega arith) in
      (
        state,
        counted,
        ap₂ (λ l k. append l (total_line k ∷ [])) shown counted
            ∙ append_assoc (append out (initial_line debug closed ∷ [])) _ _
            ∙ append_assoc out (initial_line debug closed ∷ []) _,
      )
