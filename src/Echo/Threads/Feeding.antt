-- ===== src/Echo/Threads/Feeding.antt =====
-- examples/echo/src/main.rs: an input that the driver thread sends.
use msrs.Shared.{
  ◌≡◌, ap, ◌∙◌, subst, inl, inr, List, [], ◌∷◌, ◌++◌, append_assoc, map, String, err, Result-cases,
}
use msrs.Channel.{Channel}
use msrs.Tasks.Egress.Delivery.{send-Delivers}
use msrs.Echo.{EchoMsg, Gate}
use msrs.Echo.Feeder.{new_msg}
use msrs.Echo.Service.Iteration.{echoed}
use msrs.Echo.Threads.{
  Progress, feeding, ended, Main, iterating, gathering, joining, came_back, panicked, System, leave,
  feed_one,
}
use msrs.Echo.Threads.Flow.{unfed, InFlow, InvAt, Inv}

module _ (ch : Channel EchoMsg) (texts : Channel String) (inputs : List String) where
  -- Before the receiver is dropped, every send of the thread goes through.
  feed_sent :
      (taken : List EchoMsg) (m : Main) (rx : ch.Chan) (msg : String) (msgs : List String)
      → InFlow ch texts inputs taken m (feeding (msg ∷ msgs)) rx
      → InFlow ch texts inputs taken m (feeding msgs) (ch.send rx (new_msg msg)).1
  feed_sent taken (iterating n) rx msg msgs (all, d) =
      let (sent, held, d') = send-Delivers ch rx (new_msg msg) d in
      (
        ap (λ l. taken ++ (l ++ map new_msg msgs)) held
            ∙ ap (λ l. taken ++ l)
                (append_assoc (ch.contents rx) (new_msg msg ∷ []) (map new_msg msgs))
            ∙ all,
        d',
      )
  feed_sent taken (gathering live) rx msg msgs h = h
  feed_sent taken (joining live) rx msg msgs h = h
  feed_sent taken (came_back live) rx msg msgs h = h
  feed_sent taken (panicked text) rx msg msgs h = h

  feed_refused :
      (taken : List EchoMsg) (m : Main) (rx : ch.Chan) (msg : String) (msgs : List String)
      (e : String)
      → InFlow ch texts inputs taken m (feeding (msg ∷ msgs)) rx
      → (ch.send rx (new_msg msg)).0 ≡ err e
      → InFlow ch texts inputs taken m (ended (err e)) (ch.send rx (new_msg msg)).1
  feed_refused taken (iterating n) rx msg msgs e (all, d) refused =
      let (sent, held, d') = send-Delivers ch rx (new_msg msg) d in absurd (cc)
  feed_refused taken (gathering live) rx msg msgs e h refused = h
  feed_refused taken (joining live) rx msg msgs e h refused = h
  feed_refused taken (came_back live) rx msg msgs e h refused = h
  feed_refused taken (panicked text) rx msg msgs e h refused = h

  -- Once nothing is left to send, the inflow does not look at the thread.
  pub fed_all :
      (taken : List EchoMsg) (m : Main) (p q : Progress) (rx : ch.Chan)
      → unfed p ≡ unfed q
      → InFlow ch texts inputs taken m p rx
      → InFlow ch texts inputs taken m q rx
  fed_all taken (iterating n) p q rx e (all, d) =
      (subst (λ l. taken ++ (ch.contents rx ++ map new_msg l) ≡ map new_msg inputs) e all, d)
  fed_all taken (gathering live) p q rx e h = h
  fed_all taken (joining live) p q rx e h = h
  fed_all taken (came_back live) p q rx e h = h
  fed_all taken (panicked text) p q rx e h = h

  module _ {gate : Gate} (s : System gate ch texts) where
    pub feed_one-Inv :
        (msg : String) (msgs : List String)
        → InvAt ch texts inputs
            (feeding (msg ∷ msgs))
            s.main
            s.service.rx
            s.service.tx
            (echoed s.service)
            s.results
        → Inv ch texts inputs (feed_one msg msgs s)
    unfolding feed_one leave
    feed_one-Inv msg msgs inv = elim (Result-cases (ch.send s.service.rx (new_msg msg)).0) [
      | inl (_, e) ↦
          rw (e, feed_one)
            (record {
              taken = inv.taken;
              received = inv.received;
              inflow = feed_sent inv.taken s.main s.service.rx msg msgs inv.inflow;
              outflow = inv.outflow;
              tally = inv.tally;
              counted = inv.counted;
              passed_on = inv.passed_on;
              delivering = inv.delivering;
            })
      | inr (text, e) ↦
          rw (e, feed_one)
            (record {
              taken = inv.taken;
              received = inv.received;
              inflow = feed_refused inv.taken s.main s.service.rx msg msgs text inv.inflow e;
              outflow = (ch.contents s.service.tx, inv.outflow.0);
              tally = tt;
              counted = inv.counted;
              passed_on = inv.passed_on;
              delivering = inv.delivering;
            })
    ]
