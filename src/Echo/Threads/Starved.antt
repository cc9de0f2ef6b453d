-- ===== src/Echo/Threads/Starved.antt =====
-- examples/echo/src/main.rs: a driver thread that starts late.
use msrs.Shared.{
  ℕ, zero, suc, ◌+◌, ◌≡◌, refl, sym, ap, ◌∙◌, subst, List, [], ◌∷◌, String, err, ok?-none, tail,
  length, false, true, ltb, lt→ltb, arith, ok,
}
use msrs.Copper.{CuMsg, Clock, Tov}
use msrs.Channel.{Channel}
use msrs.Tasks.Egress.Delivery.{Delivers}
use msrs.Echo.{EchoMsg, Gate}
use msrs.Echo.Feeder.{new_msg}
use msrs.Echo.Service.{Turn}
use msrs.Echo.Service.Iteration.{iteration-Iterates}
use msrs.Echo.Threads.{
  feeding, ended, iterating, gathering, joining, came_back, System, start, feeder_moves, main_moves,
  Reach, at_start, later, feeder_step, feeder_at, feed_one, leave, main_step, main_at, iterate,
  after_iteration, stop, gather_one, join_at,
}

module _ (gate : Gate) (ch : Channel EchoMsg) (texts : Channel String) (clock : Clock)
    (slot : CuMsg EchoMsg) (inputs : List String) (t : Turn ch clock slot) where
  -- The thread has not moved, and n iterations are left.
  record Waits (n : ℕ) (s : System gate ch texts) : Type 0 where
    feeder : s.feeder ≡ feeding inputs
    main : s.main ≡ iterating n
    nothing : ch.contents s.service.rx ≡ []
    delivering : Delivers ch s.service.tx
    no_results : texts.contents s.results ≡ []

  start-Waits : Waits (length inputs + 3) (start gate ch texts clock slot inputs)
  unfolding start
  start-Waits = record {
    feeder = refl;
    main = refl;
    nothing = ch.contents-unbounded;
    delivering = (ch.is_open-unbounded, ch.capacity-unbounded);
    no_results = texts.contents-unbounded;
  }

  -- An iteration that finds nothing is spent.
  iterate-Waits :
      (n : ℕ) (s : System gate ch texts)
      → Waits (suc n) s
      → Waits n (iterate gate ch texts clock slot n t s)
  unfolding iterate
  iterate-Waits n s w =
      let quiet = record t { arrive = λ c. c } in
      let i = iteration-Iterates gate ch clock slot (λ (tov : Tov). "") s.service quiet in
      record {
        feeder = w.feeder;
        main = ap (after_iteration gate ch texts clock slot n) (i.fine w.delivering);
        nothing = i.left ∙ ap tail w.nothing;
        delivering = i.open_still w.delivering;
        no_results = w.no_results;
      }

  main_step-iterate :
      (n : ℕ) (s : System gate ch texts)
      → s.main ≡ iterating (suc n)
      → main_step gate ch texts clock slot inputs t (ok tt) s
        ≡ iterate gate ch texts clock slot n t s
  unfolding main_step main_at
  main_step-iterate n s e = ap (λ m. main_at gate ch texts clock slot inputs m t (ok tt) s) e

  spend :
      (n : ℕ) {s : System gate ch texts}
      → Reach gate ch texts clock slot inputs s
      → Waits n s
      → (s' : System gate ch texts) × Reach gate ch texts clock slot inputs s' × Waits 0 s'
  spend zero {s} r w = (s, r, w)
  spend (suc n) {s} r w =
      spend n (later r (main_moves t (ok tt)))
        (subst (Waits n) (sym (main_step-iterate n s w.main)) (iterate-Waits n s w))

module _ (gate : Gate) (ch : Channel EchoMsg) (texts : Channel String) (clock : Clock)
    (slot : CuMsg EchoMsg) where
  -- A move of the main thread, from where it is.
  main_moved :
      (inputs : List String) (t : Turn ch clock slot) {s s' : System gate ch texts}
      → Reach gate ch texts clock slot inputs s
      → main_at gate ch texts clock slot inputs s.main t (ok tt) s ≡ s'
      → Reach gate ch texts clock slot inputs s'
  unfolding main_step
  main_moved inputs t r e =
      subst (Reach gate ch texts clock slot inputs) e (later r (main_moves t (ok tt)))

  feeder_moved :
      (inputs : List String) {s s' : System gate ch texts}
      → Reach gate ch texts clock slot inputs s
      → feeder_at inputs s.feeder s ≡ s'
      → Reach gate ch texts clock slot inputs s'
  unfolding feeder_step
  feeder_moved inputs r e = subst (Reach gate ch texts clock slot inputs) e (later r feeder_moves)

  gather_nothing :
      (msg : String) (msgs : List String) (t : Turn ch clock slot) (s : System gate ch texts)
      → texts.contents s.results ≡ []
      → main_at gate ch texts clock slot (msg ∷ msgs) (gathering []) t (ok tt) s
        ≡ record s { results = (texts.try_recv s.results).1; main = joining [] }
  unfolding main_at gather_one
  gather_nothing msg msgs t s e =
      let (_, late) = ok?-none (texts.try_recv s.results).0 (texts.try_recv-nil s.results e).0 in
      let more : ltb 0 (length (msg ∷ msgs)) ≡ true =
        lt→ltb 0 (length (msg ∷ msgs)) (omega arith) in
      rw more (rw (late, gather_one))

  -- The first send after the DAG is gone fails, and ends the thread.
  feed_closed :
      (s : System gate ch texts) (msg : String) (msgs : List String)
      → ch.is_open s.service.rx ≡ false
      → (text : String) × ((feed_one msg msgs s).feeder ≡ ended (err text))
        × ((feed_one msg msgs s).main ≡ s.main)
  unfolding feed_one leave
  feed_closed s msg msgs closed =
      let (text, refused) = (ch.send-closed s.service.rx (new_msg msg) closed).0 in
      (text, rw (refused, feed_one), rw (refused, feed_one))

  -- After the last iteration: the loop is left, nothing is gathered, and the first send fails.
  ending :
      (msg : String) (msgs : List String) (t : Turn ch clock slot) (s : System gate ch texts)
      → Reach gate ch texts clock slot (msg ∷ msgs) s
      → Waits gate ch texts clock slot (msg ∷ msgs) t 0 s
      → (s' : System gate ch texts) × Reach gate ch texts clock slot (msg ∷ msgs) s'
        × (s'.main ≡ came_back [])
  unfolding main_at feeder_at stop join_at
  ending msg msgs t s r w =
      let inputs = msg ∷ msgs in
      let stopped = stop (ok tt) s in
      let gone = record stopped { results = (texts.try_recv s.results).1; main = joining [] } in
      let (text, done, still) = feed_closed gone msg msgs (ch.is_open-drop_receiver s.service.rx) in
      let refused = feed_one msg msgs gone in
      let r1 =
        main_moved inputs t {s' = stopped} r
          (ap (λ m. main_at gate ch texts clock slot inputs m t (ok tt) s) w.main) in
      let r2 =
        main_moved inputs t {s' = gone} r1 (gather_nothing msg msgs t stopped w.no_results) in
      let r3 = feeder_moved inputs {s' = refused} r2 (ap (λ p. feeder_at inputs p gone) w.feeder) in
      let r4 = main_moved inputs t {s' = record refused { main = came_back [] }} r3 (
        ap (λ m. main_at gate ch texts clock slot inputs m t (ok tt) refused) still
        ∙ ap (λ p. join_at [] p refused) done) in
      (record refused { main = came_back [] }, r4, refl)

  -- A driver thread that starts late loses the run: for any inputs at all there is an interleaving in
  -- which `run_live` spends all its iterations before the first send, and comes back without a single
  -- echo.
  pub starved :
      (msg : String) (msgs : List String) (t : Turn ch clock slot)
      → (s : System gate ch texts) × Reach gate ch texts clock slot (msg ∷ msgs) s
        × (s.main ≡ came_back [])
  starved msg msgs t =
      let inputs = msg ∷ msgs in
      let (s, r, w) =
        spend gate ch texts clock slot inputs t (length inputs + 3) at_start
          (start-Waits gate ch texts clock slot inputs t) in
      ending msg msgs t s r w
