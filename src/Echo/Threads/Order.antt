-- ===== src/Echo/Threads/Order.antt =====
-- examples/echo/src/main.rs: what every interleaving of `run_live` and its driver thread gathers.
use mathlib.Core.List.{map-append}
use msrs.Shared.{refl, sym, ap, ◌∙◌, List, [], ◌++◌, append_assoc, map, String, IsPrefix}
use msrs.Copper.{CuMsg, Clock}
use msrs.Channel.{Channel}
use msrs.Echo.{EchoMsg, Gate}
use msrs.Echo.Numbering.{count-default}
use msrs.Echo.Feeder.{new_msg}
use msrs.Echo.Service.Replayed.{body_of}
use msrs.Echo.Threads.{
  Progress, feeding, collecting, ended, Main, iterating, gathering, joining, came_back, panicked,
  System, start, Step, feeder_moves, main_moves, Reach, at_start, later,
}
use msrs.Echo.Threads.Numbered.{numbered, all_echoes, numbered-append}
use msrs.Echo.Threads.Flow.{gathered, InFlow, OutFlow, Inv}
use msrs.Echo.Threads.Moves.{feeder_step-Inv, main_step-Inv}

IsPrefix-trans {ℓ} :
    {A : Type ℓ} (xs : List A) {ys zs : List A} → IsPrefix xs ys → IsPrefix ys zs → IsPrefix xs zs
IsPrefix-trans xs (r, e) (q, f) = (r ++ q, sym (append_assoc xs r q) ∙ ap (λ l. l ++ q) e ∙ f)

module _ (ch : Channel EchoMsg) (texts : Channel String) (inputs : List String) where
  taken-IsPrefix :
      (taken : List EchoMsg) (m : Main) (p : Progress) (rx : ch.Chan)
      → InFlow ch texts inputs taken m p rx
      → IsPrefix taken (map new_msg inputs)
  taken-IsPrefix taken (iterating n) p rx (e, d) = (_, e)
  taken-IsPrefix taken (gathering live) p rx h = h
  taken-IsPrefix taken (joining live) p rx h = h
  taken-IsPrefix taken (came_back live) p rx h = h
  taken-IsPrefix taken (panicked text) p rx h = h

  received-IsPrefix :
      (taken received : List EchoMsg) (p : Progress) (tx : ch.Chan)
      → OutFlow ch texts inputs taken received p tx
      → IsPrefix received (numbered 0 taken)
  received-IsPrefix taken received (feeding msgs) tx (e, d) = (_, e)
  received-IsPrefix taken received (collecting n) tx (e, d) = (_, e)
  received-IsPrefix taken received (ended outcome) tx h = h

  -- What the thread has received is first among the echoes of the inputs.
  received-in_order :
      (gate : Gate) (s : System gate ch texts) (inv : Inv ch texts inputs s)
      → IsPrefix inv.received (numbered 0 (map new_msg inputs))
  received-in_order gate s inv =
      let (lost, e) = taken-IsPrefix inv.taken s.main s.feeder s.service.rx inv.inflow in
      IsPrefix-trans inv.received
        (received-IsPrefix inv.taken inv.received s.feeder s.service.tx inv.outflow)
        (_, sym (numbered-append 0 inv.taken lost) ∙ ap (numbered 0) e)

module _ (gate : Gate) (ch : Channel EchoMsg) (texts : Channel String) (clock : Clock)
    (slot : CuMsg EchoMsg) (inputs : List String) where
  start-Inv : Inv ch texts inputs (start gate ch texts clock slot inputs)
  unfolding start
  start-Inv = record {
    taken = [];
    received = [];
    inflow = (
      ap (λ l. l ++ map new_msg inputs) ch.contents-unbounded,
      (ch.is_open-unbounded, ch.capacity-unbounded),
    );
    outflow = (ch.contents-unbounded, (ch.is_open-unbounded, ch.capacity-unbounded));
    tally = refl;
    counted = count-default gate;
    passed_on = sym texts.contents-unbounded;
    delivering = (texts.is_open-unbounded, texts.capacity-unbounded);
  }

  pub Step-Inv :
      {s t : System gate ch texts}
      → Step gate ch texts clock slot inputs s t
      → Inv ch texts inputs s
      → Inv ch texts inputs t
  Step-Inv {s} feeder_moves inv = feeder_step-Inv ch texts inputs s inv
  Step-Inv {s} (main_moves t a) inv = main_step-Inv ch texts inputs s clock slot t a inv

  pub Reach-Inv :
      {s : System gate ch texts} → Reach gate ch texts clock slot inputs s → Inv ch texts inputs s
  Reach-Inv at_start = start-Inv
  Reach-Inv (later r st) = Step-Inv st (Reach-Inv r)

  -- However the driver thread and `run_live` interleave, whatever the clocks read, and whether or not
  -- either of them gives up waiting: the echoes that `run_live` has gathered, followed by those that
  -- wait for it, are the first of the echoes of the inputs, each numbered by its position, in order.
  pub Reach-in_order :
      {s : System gate ch texts}
      → Reach gate ch texts clock slot inputs s
      → IsPrefix (gathered s.main ++ texts.contents s.results) (all_echoes inputs)
  Reach-in_order {s} r =
      let inv = Reach-Inv r in
      let (rest, e) = received-in_order ch texts inputs gate s inv in
      (
        map body_of rest,
        ap (λ l. l ++ map body_of rest) (sym inv.passed_on)
            ∙ sym (map-append body_of inv.received rest)
            ∙ ap (map body_of) e,
      )
