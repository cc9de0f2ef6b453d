-- ===== src/Watchdog/Threads/Flow.antt =====
-- examples/watchdog/src/main.rs: the alarms under way between the DAG and `run_live`.
use msrs.Shared.{
  ◌≡◌, sym, ap, ◌∙◌, List, [], ◌∷◌, ◌++◌, append-nil, append_assoc, ok, err, returns, length,
}
use msrs.Copper.{CuMsg, Clock}
use msrs.Channel.{Channel}
use msrs.Fsm.Batch.{Batch}
use msrs.Tasks.{Cycle}
use msrs.Tasks.Egress.Delivery.{Delivers}
use msrs.Replay.Spec.{ids}
use msrs.Watchdog.{Feed, Alarm, Gate, default}
use msrs.Watchdog.Service.{CopperList, Step, collect_steps, alarms_of, WatchdogService}
use msrs.Watchdog.Service.Control.{IsRecordOf}
use msrs.Watchdog.Service.Iteration.{ids_from, machine_of}
use msrs.Watchdog.Threads.{
  Forwarder, forwarding, at_feeder, ended, Main, iterating, joining, came_back, panicked, System,
}
use msrs.Watchdog.Threads.Recording.{after}

module _ (gate : Gate) (ch : Channel Feed) (out results : Channel Alarm) (clock : Clock)
    (cycles : CuMsg (Cycle Feed)) (alarms : CuMsg (Batch Alarm)) where
  abbrev Sys : Type 0
  Sys = System gate ch out results clock cycles alarms

  -- What was forwarded and what is queued are the alarms of the log.
  abbrev pub Flowing : List Step → out.Chan → results.Chan → Type 0
  Flowing steps tx c = (results.contents c ++ out.contents tx ≡ alarms_of steps) × Delivers out tx

  -- Where the two threads can be, and what is forwarded there. Neither of them ever fails.
  abbrev pub Flow : List Step → Forwarder → Main → out.Chan → results.Chan → Type 0
  Flow steps forwarding iterating tx c = Flowing steps tx c
  Flow steps forwarding joining tx c = Flowing steps tx c
  Flow steps forwarding (came_back live) tx c = ⊥
  Flow steps forwarding (panicked text) tx c = ⊥
  Flow steps at_feeder iterating tx c = ⊥
  Flow steps at_feeder joining tx c = results.contents c ≡ alarms_of steps
  Flow steps at_feeder (came_back live) tx c = ⊥
  Flow steps at_feeder (panicked text) tx c = ⊥
  Flow steps (ended (ok _)) iterating tx c = ⊥
  Flow steps (ended (ok _)) joining tx c = results.contents c ≡ alarms_of steps
  Flow steps (ended (ok _)) (came_back live) tx c = live ≡ alarms_of steps
  Flow steps (ended (ok _)) (panicked text) tx c = ⊥
  Flow steps (ended (err e)) m tx c = ⊥

  pub record InvAt (f : Forwarder) (m : Main) (s : WatchdogService gate ch out) (c : results.Chan)
      (log : List (CopperList cycles alarms)) : Type 0 where
    pub steps : List Step
    pub recovered : collect_steps cycles alarms log ≡ returns steps
    pub recorded : IsRecordOf gate (default gate) steps
    pub moved : machine_of gate ch out clock cycles alarms s ≡ after gate (default gate) steps
    pub numbered : ids steps ≡ ids_from 0 (length steps)
    pub next : s.next ≡ length steps
    pub counted : length log ≡ length steps
    pub delivering : Delivers results c
    pub flow : Flow steps f m s.tx c

  abbrev pub Inv : Sys → Type 0
  Inv s = InvAt s.forwarder s.main s.service s.collected s.log

  -- Only the alarms under way have moved.
  pub InvAt-Flow :
      {f f' : Forwarder} {m m' : Main} {s : WatchdogService gate ch out} {c c' : results.Chan}
      {log : List (CopperList cycles alarms)} (rx : ch.Chan) (tx : out.Chan)
      → (inv : InvAt f m s c log) → Delivers results c'
      → Flow inv.steps f' m' tx c'
      → InvAt f' m' (record s { rx = rx; tx = tx }) c' log
  InvAt-Flow rx tx inv d flow = record {
    steps = inv.steps;
    recovered = inv.recovered;
    recorded = inv.recorded;
    moved = inv.moved;
    numbered = inv.numbered;
    next = inv.next;
    counted = inv.counted;
    delivering = d;
    flow = flow;
  }

  -- The alarm that was the oldest one queued is passed on.
  pub passed_on :
      (steps : List Step) (v : Alarm) (tx : out.Chan) (c c' : results.Chan)
      → (results.contents c ++ v ∷ out.contents tx ≡ alarms_of steps) × Delivers out tx
      → results.contents c' ≡ results.contents c ++ v ∷ []
      → Flowing steps tx c'
  passed_on steps v tx c c' (all, d) held = (
    ap (λ l. l ++ out.contents tx) held
        ∙ append_assoc (results.contents c) (v ∷ []) (out.contents tx)
        ∙ all,
    d,
  )

  -- The oldest alarm of a channel that is not empty.
  pub Flowing-next :
      (steps : List Step) (v : Alarm) (vs : List Alarm) (tx : out.Chan) (c : results.Chan)
      → out.contents tx ≡ v ∷ vs
      → Flowing steps tx c
      → (results.contents c ++ v ∷ out.contents (out.try_recv tx).1 ≡ alarms_of steps)
        × Delivers out (out.try_recv tx).1
  Flowing-next steps v vs tx c e (all, d) =
      let (got, left) = out.try_recv-cons tx v vs e in
      (
        ap (λ l. results.contents c ++ v ∷ l) left
            ∙ ap (λ l. results.contents c ++ l) (sym e)
            ∙ all,
        (out.is_open-try_recv tx ∙ d.0, out.capacity-try_recv tx ∙ d.1),
      )

  pub Flowing-empty :
      (steps : List Step) (tx : out.Chan) (c : results.Chan)
      → out.contents tx ≡ []
      → Flowing steps tx c
      → Flowing steps (out.try_recv tx).1 c
  Flowing-empty steps tx c e (all, d) = (
    ap (λ l. results.contents c ++ l) ((out.try_recv-nil tx e).1 ∙ sym e) ∙ all,
    (out.is_open-try_recv tx ∙ d.0, out.capacity-try_recv tx ∙ d.1),
  )

  pub Flowing-all :
      (steps : List Step) (tx : out.Chan) (c : results.Chan)
      → out.contents tx ≡ []
      → Flowing steps tx c
      → results.contents c ≡ alarms_of steps
  Flowing-all steps tx c e (all, d) =
      sym (append-nil (results.contents c)) ∙ ap (λ l. results.contents c ++ l) (sym e) ∙ all
