-- ===== src/Echo/Threads/Moves.antt =====
-- examples/echo/src/main.rs: what every move of either thread keeps.
use Prim.Native.String.{◌++◌ as ◌++text◌}
use msrs.Shared.{
  zero, suc, ◌≡◌, refl, sym, ap, ◌∙◌, subst, inl, inr, List, [], ◌∷◌, ◌++◌, append_assoc, map,
  String, ok, err, ok?-some, ok?-none, length, List-cases, Bool-cases, ltb, arith,
}
use msrs.Copper.{CuMsg, CuResult, Clock}
use msrs.Channel.{Channel}
use msrs.Tasks.Egress.Delivery.{Delivers}
use msrs.Echo.{EchoMsg, Gate}
use msrs.Echo.Feeder.{new_msg}
use msrs.Echo.Service.{Turn}
use msrs.Echo.Service.Iteration.{echoed}
use msrs.Echo.Threads.{
  Progress, feeding, collecting, ended, Main, iterating, gathering, joining, came_back, panicked,
  System, main_step, main_at, gather_one, join_at, stop, leave, feeder_at, feeder_step,
}
use msrs.Echo.Threads.Iterating.{iterate-Inv}
use msrs.Echo.Threads.Flow.{unfed, gathered, InFlow, InvAt, Inv}
use msrs.Echo.Threads.Feeding.{fed_all, feed_one-Inv}
use msrs.Echo.Threads.Collecting.{collect_one-Inv}

module _ (ch : Channel EchoMsg) (texts : Channel String) (inputs : List String) where
  module _ {gate : Gate} (s : System gate ch texts) where
    unmoved :
        {m : Main}
        → m ≡ s.main
        → InvAt ch texts inputs s.feeder m s.service.rx s.service.tx (echoed s.service) s.results
        → Inv ch texts inputs s
    unmoved e inv =
        subst
          (λ m.
            InvAt ch texts inputs s.feeder m s.service.rx s.service.tx (echoed s.service) s.results)
          e inv

    feeder_at-Inv :
        (p : Progress)
        → InvAt ch texts inputs p s.main s.service.rx s.service.tx (echoed s.service) s.results
        → s.feeder ≡ p
        → Inv ch texts inputs (feeder_at inputs p s)
    unfolding feeder_at leave
    feeder_at-Inv (feeding (msg ∷ msgs)) inv e = feed_one-Inv ch texts inputs s msg msgs inv
    feeder_at-Inv (feeding []) inv e = record {
      taken = inv.taken;
      received = inv.received;
      inflow =
          fed_all ch texts inputs inv.taken s.main (feeding []) (collecting (length inputs))
            s.service.rx refl inv.inflow;
      outflow = inv.outflow;
      tally = omega (arith, inv.tally);
      counted = inv.counted;
      passed_on = inv.passed_on;
      delivering = inv.delivering;
    }
    feeder_at-Inv (collecting (suc n)) inv e = collect_one-Inv ch texts inputs s n inv
    feeder_at-Inv (collecting zero) inv e = record {
      taken = inv.taken;
      received = inv.received;
      inflow =
          fed_all ch texts inputs inv.taken s.main (collecting 0) (ended (ok tt)) s.service.rx refl
            inv.inflow;
      outflow = (ch.contents s.service.tx, inv.outflow.0);
      tally = omega (arith, inv.tally);
      counted = inv.counted;
      passed_on = inv.passed_on;
      delivering = inv.delivering;
    }
    feeder_at-Inv (ended outcome) inv e =
        subst
          (λ p.
            InvAt ch texts inputs p s.main s.service.rx s.service.tx (echoed s.service) s.results)
          (sym e) inv

    -- Every move of the driver thread keeps the invariant.
    pub feeder_step-Inv : Inv ch texts inputs s → Inv ch texts inputs (feeder_step inputs s)
    unfolding feeder_step
    feeder_step-Inv inv = feeder_at-Inv s.feeder inv refl

    -- An echo is gathered from the results, oldest first, or the loop is left.
    gather_one-Inv :
        (live : List String)
        → InvAt ch texts inputs s.feeder
            (gathering live)
            s.service.rx
            s.service.tx
            (echoed s.service)
            s.results
        → Inv ch texts inputs (gather_one live s)
    unfolding gather_one
    gather_one-Inv live inv = elim (List-cases (texts.contents s.results)) [
      | inl e ↦
          let (got, left) = texts.try_recv-nil s.results e in
          let (_, late) = ok?-none (texts.try_recv s.results).0 got in
          rw (late, gather_one)
            (record {
              taken = inv.taken;
              received = inv.received;
              inflow = inv.inflow;
              outflow = inv.outflow;
              tally = inv.tally;
              counted = inv.counted;
              passed_on = inv.passed_on ∙ ap (λ l. live ++ l) (e ∙ sym left);
              delivering = try_recv-Delivers s.results inv.delivering;
            })
      | inr (v, vs, e) ↦
          let (got, left) = texts.try_recv-cons s.results v vs e in
          let there = ok?-some (texts.try_recv s.results).0 got in
          rw (there, gather_one)
            (record {
              taken = inv.taken;
              received = inv.received;
              inflow = inv.inflow;
              outflow = inv.outflow;
              tally = inv.tally;
              counted = inv.counted;
              passed_on =
                  inv.passed_on
                  ∙ ap (λ l. live ++ l) (e ∙ ap (◌∷◌ v) (sym left))
                  ∙ sym (append_assoc live (v ∷ []) (texts.contents (texts.try_recv s.results).1));
              delivering = try_recv-Delivers s.results inv.delivering;
            })
    ]
      where
        try_recv-Delivers :
            (c : texts.Chan) → Delivers texts c → Delivers texts (texts.try_recv c).1
        try_recv-Delivers c d = (texts.is_open-try_recv c ∙ d.0, texts.capacity-try_recv c ∙ d.1)

    -- Only the main thread has moved, within what it does after the loop, or out of it.
    moved_on :
        (m n : Main) (rx : ch.Chan)
        → gathered m ≡ gathered n
        → ((taken : List EchoMsg)
            → InFlow ch texts inputs taken m s.feeder s.service.rx
            → InFlow ch texts inputs taken n s.feeder rx)
        → InvAt ch texts inputs s.feeder m s.service.rx s.service.tx (echoed s.service) s.results
        → InvAt ch texts inputs s.feeder n rx s.service.tx (echoed s.service) s.results
    moved_on m n rx e flows inv = record {
      taken = inv.taken;
      received = inv.received;
      inflow = flows inv.taken inv.inflow;
      outflow = inv.outflow;
      tally = inv.tally;
      counted = inv.counted;
      passed_on = inv.passed_on ∙ ap (λ l. l ++ texts.contents s.results) e;
      delivering = inv.delivering;
    }

    join_at-Inv :
        (live : List String) (p : Progress)
        → InvAt ch texts inputs s.feeder
            (joining live)
            s.service.rx
            s.service.tx
            (echoed s.service)
            s.results
        → s.main ≡ joining live
        → Inv ch texts inputs (join_at live p s)
    unfolding join_at
    join_at-Inv live (feeding msgs) inv e = unmoved (sym e) inv
    join_at-Inv live (collecting n) inv e = unmoved (sym e) inv
    join_at-Inv live (ended outcome) inv e =
        moved_on (joining live) (came_back live) s.service.rx refl (λ taken h. h) inv

    -- Every move of the main thread keeps the invariant.
    main_at-Inv :
        (clock : Clock) (slot : CuMsg EchoMsg) (m : Main) (t : Turn ch clock slot)
        (a : CuResult (Unit {0}))
        → InvAt ch texts inputs s.feeder m s.service.rx s.service.tx (echoed s.service) s.results
        → s.main ≡ m
        → Inv ch texts inputs (main_at gate ch texts clock slot inputs m t a s)
    unfolding main_at stop
    main_at-Inv clock slot (iterating (suc n)) t a inv e =
        iterate-Inv gate ch texts clock slot inputs s n t inv
    main_at-Inv clock slot (iterating zero) t (ok _) inv e =
        moved_on (iterating 0) (gathering []) (ch.drop_receiver s.service.rx) refl
          (λ taken (h : InFlow ch texts inputs taken (iterating 0) s.feeder s.service.rx).
            (ch.contents s.service.rx ++ map new_msg (unfed s.feeder), h.0))
          inv
    main_at-Inv clock slot (iterating zero) t (err d) inv e =
        moved_on (iterating 0) (panicked ("stop_all_tasks failed: " ++text d))
          (ch.drop_receiver s.service.rx) refl
          (λ taken (h : InFlow ch texts inputs taken (iterating 0) s.feeder s.service.rx).
            (ch.contents s.service.rx ++ map new_msg (unfed s.feeder), h.0))
          inv
    main_at-Inv clock slot (gathering live) t a inv e =
        elim (Bool-cases (ltb (length live) (length inputs))) [
          | inl more ↦ rw more (gather_one-Inv live inv)
          | inr full ↦
              rw full
                (moved_on (gathering live) (joining live) s.service.rx refl (λ taken h. h) inv)
        ]
    main_at-Inv clock slot (joining live) t a inv e = join_at-Inv live s.feeder inv e
    main_at-Inv clock slot (came_back live) t a inv e = unmoved (sym e) inv
    main_at-Inv clock slot (panicked text) t a inv e = unmoved (sym e) inv

    pub main_step-Inv :
        (clock : Clock) (slot : CuMsg EchoMsg) (t : Turn ch clock slot) (a : CuResult (Unit {0}))
        → Inv ch texts inputs s
        → Inv ch texts inputs (main_step gate ch texts clock slot inputs t a s)
    unfolding main_step
    main_step-Inv clock slot t a inv = main_at-Inv clock slot s.main t a inv refl
