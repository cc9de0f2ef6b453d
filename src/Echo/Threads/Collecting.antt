-- ===== src/Echo/Threads/Collecting.antt =====
-- examples/echo/src/main.rs: an echo that the driver thread collects.
use mathlib.Core.List.{map-append}
use msrs.Shared.{
  ℕ, suc, ◌+◌, ◌≡◌, refl, sym, ap, ◌∙◌, inl, inr, List, [], ◌∷◌, ◌++◌, append_assoc, map, String,
  ok, err, ok?-some, ok?-none, length, length-append, List-cases, arith,
}
use msrs.Channel.{Channel}
use msrs.Tasks.Egress.Delivery.{Delivers, send-Delivers}
use msrs.Echo.{EchoMsg, Gate}
use msrs.Echo.Service.Replayed.{body_of}
use msrs.Echo.Service.Iteration.{echoed}
use msrs.Echo.Threads.{collecting, ended, System, leave, forward_one, collect_one}
use msrs.Echo.Threads.Numbered.{count_of, numbered}
use msrs.Echo.Threads.Flow.{gathered, InFlow, InvAt, Inv}
use msrs.Echo.Threads.Feeding.{fed_all}

module _ (ch : Channel EchoMsg) (texts : Channel String) (inputs : List String) where
  module _ {gate : Gate} (s : System gate ch texts) where
    forward_one-sent :
        (n : ℕ) (v : EchoMsg)
        → (texts.send s.results v.body).0 ≡ ok tt
        → forward_one n v s
          ≡ record s { results = (texts.send s.results v.body).1; feeder = collecting n }
    unfolding forward_one
    forward_one-sent n v e = rw (e, forward_one)

    -- The echo received, which was the oldest one queued, is passed on.
    forward_one-Inv :
        (n : ℕ) (v : EchoMsg) (taken received : List EchoMsg)
        → InFlow ch texts inputs taken s.main (collecting (suc n)) s.service.rx
        → (received ++ v ∷ ch.contents s.service.tx ≡ numbered 0 taken) × Delivers ch s.service.tx
        → length received + suc n ≡ length inputs
        → echoed s.service ≡ count_of 0 taken
        → map body_of received ≡ gathered s.main ++ texts.contents s.results
        → Delivers texts s.results
        → Inv ch texts inputs (forward_one n v s)
    forward_one-Inv n v taken received inflow (all, d) tally counted passed delivering =
        let (sent, held, d') = send-Delivers texts s.results v.body delivering in
        rw (forward_one-sent n v sent) (record {
          taken = taken;
          received = received ++ v ∷ [];
          inflow =
              fed_all ch texts inputs taken s.main (collecting (suc n)) (collecting n) s.service.rx
                refl inflow;
          outflow = (append_assoc received (v ∷ []) (ch.contents s.service.tx) ∙ all, d);
          tally = omega (arith, tally, length-append {0} received (v ∷ []));
          counted = counted;
          passed_on =
              map-append body_of received (v ∷ [])
              ∙ ap (λ l. l ++ v.body ∷ []) passed
              ∙ append_assoc (gathered s.main) (texts.contents s.results) (v.body ∷ [])
              ∙ ap (λ l. gathered s.main ++ l) (sym held);
          delivering = d';
        })

  module _ {gate : Gate} (s : System gate ch texts) where
    collect_one-received :
        (n : ℕ) (v : EchoMsg)
        → (ch.try_recv s.service.tx).0 ≡ ok v
        → collect_one n s
          ≡ forward_one n v
              (record s { service = record (s.service) { tx = (ch.try_recv s.service.tx).1 } })
    unfolding collect_one
    collect_one-received n v e = rw (e, collect_one)

    collect_one-late :
        (n : ℕ) (e : ch.RecvError)
        → (ch.try_recv s.service.tx).0 ≡ err e
        → collect_one n s
          ≡ leave
              (err "timed out waiting for echo")
              (record s { service = record (s.service) { tx = (ch.try_recv s.service.tx).1 } })
    unfolding collect_one
    collect_one-late n e h = rw (h, collect_one)

    pub collect_one-Inv :
        (n : ℕ)
        → InvAt ch texts inputs
            (collecting (suc n))
            s.main
            s.service.rx
            s.service.tx
            (echoed s.service)
            s.results
        → Inv ch texts inputs (collect_one n s)
    unfolding leave
    collect_one-Inv n inv = elim (List-cases (ch.contents s.service.tx)) [
      | inl e ↦
          let (_, late) = ok?-none (ch.try_recv s.service.tx).0 (ch.try_recv-nil _ e).0 in
          rw (collect_one-late n _ late) (record {
            taken = inv.taken;
            received = inv.received;
            inflow =
                fed_all ch texts inputs inv.taken s.main (collecting (suc n))
                  (ended (err "timed out waiting for echo")) s.service.rx refl inv.inflow;
            outflow = (ch.contents s.service.tx, inv.outflow.0);
            tally = tt;
            counted = inv.counted;
            passed_on = inv.passed_on;
            delivering = inv.delivering;
          })
      | inr (v, vs, e) ↦
          let (got, left) = ch.try_recv-cons s.service.tx v vs e in
          let tx = (ch.try_recv s.service.tx).1 in
          rw (collect_one-received n v (ok?-some (ch.try_recv s.service.tx).0 got)) (
            forward_one-Inv (record s { service = record (s.service) { tx = tx } }) n v inv.taken
              inv.received inv.inflow
              (
                ap (λ l. inv.received ++ v ∷ l) left
                    ∙ ap (λ l. inv.received ++ l) (sym e)
                    ∙ inv.outflow.0,
                (
                  ch.is_open-try_recv s.service.tx ∙ inv.outflow.1.0,
                  ch.capacity-try_recv s.service.tx ∙ inv.outflow.1.1,
                ),
              )
              inv.tally inv.counted inv.passed_on inv.delivering)
    ]
