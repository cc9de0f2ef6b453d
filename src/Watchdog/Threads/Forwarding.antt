-- ===== src/Watchdog/Threads/Forwarding.antt =====
-- examples/watchdog/src/main.rs: what the moves of the driver thread keep.
use msrs.Shared.{refl, Result-cases, ◌≡◌, inl, inr, List, [], ◌∷◌, ok?-some, ok?-none, List-cases}
use msrs.Copper.{CuMsg, Clock}
use msrs.Channel.{Channel}
use msrs.Fsm.Batch.{Batch}
use msrs.Tasks.{Cycle}
use msrs.Tasks.Egress.Delivery.{send-Delivers}
use msrs.Watchdog.{Feed, Alarm, Gate}
use msrs.Watchdog.Threads.{
  Forwarder, forwarding, at_feeder, ended, Main, iterating, joining, came_back, panicked, System,
  leave, forward_one, recv_empty, receive_one, forwarder_at, forwarder_step,
}
use msrs.Watchdog.Threads.Flow.{
  Flow, Flowing, InvAt, Inv, InvAt-Flow, passed_on, Flowing-next, Flowing-empty, Flowing-all,
}

module _ (gate : Gate) (ch : Channel Feed) (out results : Channel Alarm) (clock : Clock)
    (cycles : CuMsg (Cycle Feed)) (alarms : CuMsg (Batch Alarm)) where
  abbrev Sys : Type 0
  Sys = System gate ch out results clock cycles alarms

  abbrev Holds : Sys → Type 0
  Holds s = Inv gate ch out results clock cycles alarms s

  abbrev At : Forwarder → Main → Sys → Type 0
  At f m s = InvAt gate ch out results clock cycles alarms f m s.service s.collected s.log

  -- A system whose threads are at these places.
  abbrev placed : Forwarder → Main → Sys → Sys
  placed f m s = record s { forwarder = f; main = m }

  -- The receive loop takes an alarm and passes it on.
  receive_some :
      (m : Main) (s : Sys) (v : Alarm) (vs : List Alarm)
      → out.contents s.service.tx ≡ v ∷ vs
      → (inv : At forwarding m s)
      → Flowing gate ch out results clock cycles alarms inv.steps s.service.tx s.collected
      → ((tx : out.Chan) (c : results.Chan)
          → Flowing gate ch out results clock cycles alarms inv.steps tx c
          → Flow gate ch out results clock cycles alarms inv.steps forwarding m tx c)
      → Holds (receive_one gate ch out results clock cycles alarms (placed forwarding m s))
  unfolding receive_one forward_one
  receive_some m s v vs e inv flowing there =
      let (got, left) = out.try_recv-cons s.service.tx v vs e in
      let taken = ok?-some (out.try_recv s.service.tx).0 got in
      let (sent, held, d') = send-Delivers results s.collected v inv.delivering in
      let tx = (out.try_recv s.service.tx).1 in
      rw (taken, receive_one)
        (rw (sent, forward_one)
          (InvAt-Flow gate ch out results clock cycles alarms s.service.rx tx inv d' (
            there tx (results.send s.collected v).1 (
              passed_on gate ch out results clock cycles alarms inv.steps v tx s.collected
                (results.send s.collected v).1
                (Flowing-next gate ch out results clock cycles alarms inv.steps v vs s.service.tx
                  s.collected e flowing)
                held))))

  receive_nothing :
      (m : Main) (s : Sys)
      → out.contents s.service.tx ≡ []
      → receive_one gate ch out results clock cycles alarms (placed forwarding m s)
        ≡ recv_empty gate ch out results clock cycles alarms m (record (placed forwarding m s) {
          service = record (s.service) { tx = (out.try_recv s.service.tx).1 };
        })
  unfolding receive_one
  receive_nothing m s e =
      let (_, late) = ok?-none (out.try_recv s.service.tx).0 (out.try_recv-nil s.service.tx e).0 in
      rw (late, receive_one)

  forwarder_at-Inv :
      (f : Forwarder) (m : Main) (s : Sys)
      → At f m s
      → Holds (forwarder_at gate ch out results clock cycles alarms f (placed f m s))
  unfolding forwarder_at leave recv_empty
  forwarder_at-Inv forwarding iterating s inv = elim (List-cases (out.contents s.service.tx)) [
    | inl e ↦ rw (receive_nothing iterating s e) (
        InvAt-Flow gate ch out results clock cycles alarms s.service.rx _ inv inv.delivering (
          Flowing-empty gate ch out results clock cycles alarms inv.steps s.service.tx s.collected e
            inv.flow))
    | inr (v, vs, e) ↦ receive_some iterating s v vs e inv inv.flow (λ tx c h. h)
  ]
  forwarder_at-Inv forwarding joining s inv = elim (List-cases (out.contents s.service.tx)) [
    | inl e ↦ rw (receive_nothing joining s e) (
        InvAt-Flow gate ch out results clock cycles alarms s.service.rx _ inv inv.delivering (
          Flowing-all gate ch out results clock cycles alarms inv.steps s.service.tx s.collected e
            inv.flow))
    | inr (v, vs, e) ↦ receive_some joining s v vs e inv inv.flow (λ tx c h. h)
  ]
  forwarder_at-Inv forwarding (came_back live) s inv = absurd inv.flow
  forwarder_at-Inv forwarding (panicked text) s inv = absurd inv.flow
  forwarder_at-Inv at_feeder joining s inv =
      InvAt-Flow gate ch out results clock cycles alarms s.service.rx
        (out.drop_receiver s.service.tx) inv inv.delivering inv.flow
  forwarder_at-Inv at_feeder iterating s inv = absurd inv.flow
  forwarder_at-Inv at_feeder (came_back live) s inv = absurd inv.flow
  forwarder_at-Inv at_feeder (panicked text) s inv = absurd inv.flow
  forwarder_at-Inv (ended outcome) m s inv = inv

  pub forwarder_step-Inv :
      (s : Sys) → Holds s → Holds (forwarder_step gate ch out results clock cycles alarms s)
  unfolding forwarder_step
  forwarder_step-Inv s inv = forwarder_at-Inv s.forwarder s.main s inv

  forward_one-main :
      (v : Alarm) (s : Sys)
      → (forward_one gate ch out results clock cycles alarms v s).main ≡ s.main
  unfolding forward_one leave
  forward_one-main v s = elim (Result-cases (results.send s.collected v).0) [
    | inl (u, e) ↦ rw (e, forward_one) refl
    | inr (d, e) ↦ rw (e, forward_one) refl
  ]

  recv_empty-main :
      (m : Main) (s : Sys) → (recv_empty gate ch out results clock cycles alarms m s).main ≡ s.main
  unfolding recv_empty
  recv_empty-main iterating s = refl
  recv_empty-main joining s = refl
  recv_empty-main (came_back live) s = refl
  recv_empty-main (panicked text) s = refl

  receive_one-main :
      (s : Sys) → (receive_one gate ch out results clock cycles alarms s).main ≡ s.main
  unfolding receive_one
  receive_one-main s =
      let s' = record s { service = record (s.service) { tx = (out.try_recv s.service.tx).1 } } in
      elim (Result-cases (out.try_recv s.service.tx).0) [
        | inl (v, e) ↦ rw (e, receive_one) (forward_one-main v s')
        | inr (d, e) ↦ rw (e, receive_one) (recv_empty-main s.main s')
      ]

  forwarder_at-main :
      (f : Forwarder) (s : Sys)
      → (forwarder_at gate ch out results clock cycles alarms f s).main ≡ s.main
  unfolding forwarder_at leave
  forwarder_at-main forwarding s = receive_one-main s
  forwarder_at-main at_feeder s = refl
  forwarder_at-main (ended outcome) s = refl

  -- The driver thread leaves the other one where it is.
  pub forwarder_step-main :
      (s : Sys) → (forwarder_step gate ch out results clock cycles alarms s).main ≡ s.main
  unfolding forwarder_step
  forwarder_step-main s = forwarder_at-main s.forwarder s
