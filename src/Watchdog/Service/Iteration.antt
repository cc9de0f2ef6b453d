-- ===== src/Watchdog/Service/Iteration.antt =====
-- examples/watchdog/src/main.rs: a run of iterations, the
-- steps that its log holds, and what it sends.
use msrs.Shared.{
  ℕ, zero, suc, ◌+◌, ◌<◌, ◌^◌, ◌≡◌, refl, sym, ap, ap₂, ◌∙◌, ◌≢◌, subst, Option, none, some, List,
  [], ◌∷◌, ◌++◌, append_assoc, append-nil, ok, Checked, returns, All, length, arith,
}
use msrs.Copper.{CuMsg, Clock}
use msrs.Trigger.{message}
use msrs.Channel.{Channel}
use msrs.Fsm.{run_step_all}
use msrs.Fsm.Adapter.{trigger_of, trigger_for}
use msrs.Fsm.Batch
use msrs.Fsm.Batch.{Batch}
use msrs.Fsm.Forwarding.{batch_of, process-run_step_all}
use msrs.Tasks.{Cycle, cycle_step}
use msrs.Tasks.CycleIngress
use msrs.Tasks.CycleIngress.{CycleIngressTask}
use msrs.Tasks.Egress.Delivery.{Delivers, batch_values, process_batch-Delivers}
use msrs.Replay.Spec.{ids}
use msrs.Replay.Verdict.{HasSuccessor, Contiguous}
use msrs.Watchdog.{Feed, Alarm, Gate, WatchdogMachine, watchdog}
use msrs.Watchdog.Service.{
  CopperList, Step, step_of, and_then, collect_steps, alarms_in, alarms_of, Turn, WatchdogService,
  run_one_iteration, and_run, run_iterations, Results,
}
use msrs.Watchdog.Service.Control.{IsRecordOf}

-- The ids of so many copperlists, the first of them given.
abbrev pub ids_from : ℕ → ℕ → List ℕ
ids_from n zero = []
ids_from n (suc k) = n ∷ ids_from (suc n) k

pub ids_from-Contiguous : (n k : ℕ) → Contiguous (ids_from n k)
ids_from-Contiguous n zero = tt
ids_from-Contiguous n (suc zero) = tt
ids_from-Contiguous n (suc (suc k)) = (omega arith, ids_from-Contiguous (suc n) (suc k))

pub ids_from-HasSuccessor : (n k : ℕ) → n + k < 2 ^ 64 → All HasSuccessor (ids_from n k)
ids_from-HasSuccessor n zero h = tt
ids_from-HasSuccessor n (suc k) h = (omega arith, ids_from-HasSuccessor (suc n) k (omega arith))

-- One more step in front.
and_then-returns :
    (id : ℕ) (o : Option (Cycle Feed)) (c : Cycle Feed) (a : Option (Batch Alarm))
    (rest : Checked (List Step)) (steps : List Step)
    → o ≡ some c
    → rest ≡ returns steps
    → and_then (step_of id o a) rest ≡ returns (record { id = id; input = c; output = a } ∷ steps)
and_then-returns id o c a rest steps e f = ap₂ (λ p r. and_then (step_of id p a) r) e f

pub not_nil : (steps : List Step) (n : ℕ) → length steps ≡ suc n → steps ≢ []
not_nil [] n e = absurd (omega arith)
not_nil (s ∷ steps) n e = cc

module _ (gate : Gate) (ch : Channel Feed) (out : Channel Alarm) (clock : Clock)
    (cycles : CuMsg (Cycle Feed)) (alarms : CuMsg (Batch Alarm)) where
  abbrev pub iterate :
      WatchdogService gate ch out
      → Turn ch clock cycles alarms
      → WatchdogService gate ch out
        × CopperList cycles alarms
        × Results gate ch out clock cycles alarms
  iterate s t = run_one_iteration gate ch out clock cycles alarms s t

  abbrev pub machine_of : WatchdogService gate ch out → WatchdogMachine gate
  machine_of s = s.task.machine

  -- One iteration: the cycle it samples, and what the log and the outbound channel get.
  pub record Iterates (s : WatchdogService gate ch out) (t : Turn ch clock cycles alarms)
      : Type 0 where
    pub sampled : Cycle Feed
    pub fine : (iterate s t).2 ≡ (ok tt, ok tt)
    pub input : cycles.payload (iterate s t).1.ingress ≡ some sampled
    pub output :
        alarms.payload (iterate s t).1.alarmed
        ≡ batch_of (run_step_all (watchdog gate) (machine_of s) (message sampled)).1
    pub moved :
        machine_of (iterate s t).0
        ≡ (run_step_all (watchdog gate) (machine_of s) (message sampled)).0
    pub sent :
        out.contents (iterate s t).0.tx
        ≡ out.contents s.tx ++ alarms_in (alarms.payload (iterate s t).1.alarmed)
    pub open_still : Delivers out (iterate s t).0.tx

  alarms_in-batch : (o : Option (Batch Alarm)) → batch_values o ≡ alarms_in o
  alarms_in-batch none = refl
  alarms_in-batch (some b) = refl

  -- Every cycle of the ingress task has a payload.
  ingress-some :
      (task : CycleIngressTask (Unit {0})) (t : Turn ch clock cycles alarms) (rx : ch.Chan)
      → (c : Cycle Feed) × (cycles.payload
            (CycleIngress.process ch clock cycles task t.env t.ingress_ctx rx t.cycle_slot).output
          ≡ some c)
  unfolding CycleIngress.process
  ingress-some task t rx = (
    record ((cycle_step ch t.env rx task.max_batch 0).0) {
      now_ns = (clock.now (t.ingress_ctx (cycle_step ch t.env rx task.max_batch 0).2)).0;
    },
    cycles.payload-set_tov _ _ ∙ cycles.payload-set_payload t.cycle_slot _,
  )

  trigger-message :
      (ctx : clock.Ctx) (msg : cycles.Msg) (c : Cycle Feed)
      → cycles.payload msg ≡ some c
      → (trigger_for clock cycles ctx msg).0 ≡ message c
  unfolding trigger_for trigger_of
  trigger-message ctx msg c e = ap (λ o. (trigger_of clock cycles ctx (cycles.tov msg) o).0) e

  pub iteration-Iterates :
      (s : WatchdogService gate ch out) (t : Turn ch clock cycles alarms)
      → Delivers out s.tx
      → Iterates s t
  unfolding run_one_iteration
  iteration-Iterates s t d =
      let i =
        CycleIngress.process ch clock cycles s.ingress t.env t.ingress_ctx s.rx t.cycle_slot in
      let p =
        Batch.process (watchdog gate) clock cycles alarms s.task t.watchdog_ctx i.output
          t.alarm_slot in
      let (c, payload) = ingress-some s.ingress t s.rx in
      let (moved, fine, output) =
        process-run_step_all (watchdog gate) clock cycles alarms s.task t.watchdog_ctx i.output
          t.alarm_slot in
      let stepped =
        ap (run_step_all (watchdog gate) (machine_of s))
          (trigger-message t.watchdog_ctx i.output c payload) in
      let (sent, held, d') = process_batch-Delivers out alarms s.tx p.output d in
      record {
        sampled = c;
        fine = ap₂ (λ a b. (a, b)) fine sent;
        input = payload;
        output = output ∙ ap (λ r. batch_of r.1) stepped;
        moved = moved ∙ ap (λ r. r.0) stepped;
        sent = held ∙ ap (◌++◌ (out.contents s.tx)) (alarms_in-batch (alarms.payload p.output));
        open_still = d';
      }

  -- A run: its steps as the service recovers them from its copperlists, and what it has sent.
  pub record Runs (s : WatchdogService gate ch out) (turns : List (Turn ch clock cycles alarms))
      : Type 0 where
    pub steps : List Step
    pub last : WatchdogService gate ch out
    pub copperlists : List (CopperList cycles alarms)
    pub comes_back :
        run_iterations gate ch out clock cycles alarms s turns ≡ returns (last, copperlists)
    pub recovered : collect_steps cycles alarms copperlists ≡ returns steps
    pub recorded : IsRecordOf gate (machine_of s) steps
    pub counted : length steps ≡ length turns
    pub numbered : ids steps ≡ ids_from s.next (length turns)
    pub sent : out.contents last.tx ≡ out.contents s.tx ++ alarms_of steps

  numbers :
      (s : WatchdogService gate ch out) (t : Turn ch clock cycles alarms) (steps : List Step)
      (n : ℕ)
      → ids steps ≡ ids_from (iterate s t).0.next n
      → (iterate s t).1.id ∷ ids steps ≡ ids_from s.next (suc n)
  unfolding run_one_iteration
  numbers s t steps n e = ap (◌∷◌ s.next) e

  pub run-Runs :
      (s : WatchdogService gate ch out) (turns : List (Turn ch clock cycles alarms))
      → Delivers out s.tx
      → Runs s turns
  unfolding run_iterations collect_steps
  run-Runs s [] d = record {
    steps = [];
    last = s;
    copperlists = [];
    comes_back = refl;
    recovered = refl;
    recorded = tt;
    counted = refl;
    numbered = refl;
    sent = sym (append-nil (out.contents s.tx));
  }
  run-Runs s (t ∷ turns) d =
      let i = iteration-Iterates s t d in
      let s' = (iterate s t).0 in
      let cl = (iterate s t).1 in
      let rest = run-Runs s' turns i.open_still in
      let output = alarms.payload cl.alarmed in
      record {
        steps = record { id = cl.id; input = i.sampled; output = output } ∷ rest.steps;
        last = rest.last;
        copperlists = cl ∷ rest.copperlists;
        comes_back = ap₂ (and_run gate ch out clock cycles alarms cl) i.fine rest.comes_back;
        recovered =
            and_then-returns cl.id (cycles.payload cl.ingress) i.sampled output
              (collect_steps cycles alarms rest.copperlists) rest.steps i.input rest.recovered;
        recorded = (i.output, subst (λ m. IsRecordOf gate m rest.steps) i.moved rest.recorded);
        counted = omega (arith, rest.counted);
        numbered = numbers s t rest.steps (length turns) rest.numbered;
        sent =
            rest.sent
            ∙ ap (λ l. l ++ alarms_of rest.steps) i.sent
            ∙ append_assoc (out.contents s.tx) (alarms_in output) (alarms_of rest.steps);
      }
