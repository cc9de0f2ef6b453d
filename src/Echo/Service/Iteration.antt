-- ===== src/Echo/Service/Iteration.antt =====
-- examples/echo/src/main.rs: what one iteration of the DAG does.
use msrs.Shared.{
  ℕ, ◌≡◌, refl, ap, ap₂, ◌∙◌, Option, none, some, ◌++◌, String, ok, returns, head?, tail,
}
use msrs.Copper.{CuMsg, Clock, Tov, time}
use msrs.Trigger.{Trigger, tick, message}
use msrs.Effects.Laws.{to_list}
use msrs.Channel.{Channel}
use msrs.Fsm.{run_step}
use msrs.Fsm.Adapter.{trigger_of, trigger_for, tick_for}
use msrs.Fsm.Task
use msrs.Fsm.Recorded.{process_outcome, outcome_result, outcome_payload}
use msrs.Tasks.Ingress
use msrs.Tasks.Ingress.{process-contents}
use msrs.Tasks.Egress.Delivery.{Delivers, process-Delivers}
use msrs.Echo.{EchoMsg, Gate, echo_spec}
use msrs.Echo.Numbering.{answer, count_after, run_step-answer}
use msrs.Echo.Service.{recorded_input, Turn, EchoService, run_one_iteration}
use msrs.Echo.Service.Replayed.{input_of}

-- The trigger of a cycle that found a message, or nothing, at a time.
abbrev pub trigger_at : Option EchoMsg → ℕ → Trigger EchoMsg
trigger_at none t = tick t
trigger_at (some msg) t = message msg

trigger_of-trigger_at :
    (clock : Clock) (slot : CuMsg EchoMsg) (ctx : clock.Ctx) (o : Option EchoMsg) (t : ℕ)
    → (trigger_of clock slot ctx (time t) o).0 ≡ trigger_at o t
unfolding trigger_of tick_for
trigger_of-trigger_at clock slot ctx none t = refl
trigger_of-trigger_at clock slot ctx (some msg) t = refl

recorded_input-trigger_at :
    (debug : Tov → String) (o : Option EchoMsg) (t : ℕ)
    → recorded_input debug o (time t) ≡ returns (input_of (trigger_at o t))
unfolding recorded_input
recorded_input-trigger_at debug none t = refl
recorded_input-trigger_at debug (some msg) t = refl

abbrev pub echoed : {gate : Gate} {ch : Channel EchoMsg} → EchoService gate ch → ℕ
echoed s = s.task.machine.ctx.store.count

module _ (gate : Gate) (ch : Channel EchoMsg) (clock : Clock) (slot : CuMsg EchoMsg)
    (debug : Tov → String) where
  -- One iteration, after some echoes: its trigger, what it leaves in the inbound channel, what the log
  -- records of it, and what it sends where the outbound channel takes it.
  pub record Iterates (s : EchoService gate ch) (t : Turn ch clock slot) : Type 0 where
    pub trigger : Trigger EchoMsg
    pub found :
        trigger ≡ trigger_at (head? (ch.contents (t.arrive s.rx))) (clock.now t.ingress_ctx).0
    pub left :
        ch.contents (run_one_iteration gate ch clock slot s t).0.rx
        ≡ tail (ch.contents (t.arrive s.rx))
    pub fine : Delivers ch s.tx → (run_one_iteration gate ch clock slot s t).2 ≡ (ok tt, ok tt)
    pub input :
        let cl = (run_one_iteration gate ch clock slot s t).1 in
        recorded_input debug (slot.payload cl.ingress) (slot.tov cl.ingress)
        ≡ returns (input_of trigger)
    pub output :
        slot.payload (run_one_iteration gate ch clock slot s t).1.echoed ≡ answer (echoed s) trigger
    pub counted :
        echoed (run_one_iteration gate ch clock slot s t).0 ≡ count_after (echoed s) trigger
    pub sent :
        Delivers ch s.tx
        → ch.contents (run_one_iteration gate ch clock slot s t).0.tx
          ≡ ch.contents s.tx ++ to_list (answer (echoed s) trigger)
    pub open_still : Delivers ch s.tx → Delivers ch (run_one_iteration gate ch clock slot s t).0.tx

  pub iteration-Iterates : (s : EchoService gate ch) (t : Turn ch clock slot) → Iterates s t
  unfolding run_one_iteration trigger_for
  iteration-Iterates s t =
      let i = Ingress.process ch clock slot t.ingress_ctx (t.arrive s.rx) t.ingress_slot in
      let now = (clock.now t.ingress_ctx).0 in
      let o = head? (ch.contents (t.arrive s.rx)) in
      let (ok_in, payload, rest, stamped) =
        process-contents ch clock slot t.ingress_ctx (t.arrive s.rx) t.ingress_slot in
      let p =
        Task.process (echo_spec gate) clock slot slot s.task t.echo_ctx i.output t.echo_slot in
      let same : (trigger_for clock slot t.echo_ctx i.output).0 ≡ trigger_at o now =
        ap₂ (λ tov v. (trigger_of clock slot t.echo_ctx tov v).0) stamped payload
        ∙ trigger_of-trigger_at clock slot t.echo_ctx o now in
      let (machine, result, value) =
        process_outcome (echo_spec gate) clock slot slot s.task t.echo_ctx i.output t.echo_slot in
      let (outcome, counted) = run_step-answer gate s.task.machine (trigger_at o now) in
      let stepped = ap (run_step (echo_spec gate) s.task.machine) same in
      let answered : slot.payload p.output ≡ answer (echoed s) (trigger_at o now) =
        value ∙ ap (λ r. outcome_payload r.1) stepped ∙ ap outcome_payload outcome in
      let delivers = process-Delivers ch slot s.tx p.output in
      record {
        trigger = trigger_at o now;
        found = refl;
        left = rest;
        fine = λ d.
            ap₂ (λ a b. (a, b))
              (result ∙ ap (λ r. outcome_result r.1) stepped ∙ ap outcome_result outcome)
              (delivers d).0;
        input = ap₂ (recorded_input debug) payload stamped ∙ recorded_input-trigger_at debug o now;
        output = answered;
        counted =
            ap (λ m. m.ctx.store.count) machine ∙ ap (λ r. r.0.ctx.store.count) stepped ∙ counted;
        sent = λ d. (delivers d).1 ∙ ap (λ v. ch.contents s.tx ++ to_list v) answered;
        open_still = λ d. (delivers d).2;
      }
