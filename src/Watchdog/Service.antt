-- ===== src/Watchdog/Service.antt =====
-- examples/watchdog/src/main.rs: an iteration of the DAG ingress → watchdog → egress, reading its log
-- back, the replay, and the perturbation of the negative control. copper is a parameter.
pub mod Control
pub mod Iteration
pub mod Live
use Prim.Native.String.{◌++◌}
use msrs.Shared.{
  ℕ, suc, Bool, true, false, ◌||◌, Option, none, some, List, [], ◌∷◌, String, Result, ok, err,
  Checked, returns, panics, if◌then◌else◌,
}
use msrs.Shared.{◌++◌ as append}
use msrs.Copper.{CuMsg, CuResult, Clock}
use msrs.Trigger.{message}
use msrs.Channel.{Channel}
use msrs.Channel.Drain.{Interference}
use msrs.Fsm.{run_step_all}
use msrs.Fsm.Batch
use msrs.Fsm.Batch.{FsmBatchTask, Batch}
use msrs.Tasks.{Cycle}
use msrs.Tasks.CycleIngress
use msrs.Tasks.CycleIngress.{CycleIngressTask}
use msrs.Tasks.Egress.{process_batch}
use msrs.Replay.{Recorded, GateReport, replay_gate}
use msrs.Replay
use msrs.Replay.Live.{replay_step}
use msrs.Replay.Log.{LogEnd, eof, failed, LogSource, read_copperlists}
use msrs.Watchdog.{
  Feed, Alarm, armed_alarm, tripped_alarm, recovered_alarm, Gate, WatchdogMachine, default,
  watchdog,
}

-- The slots of a copperlist that the service looks at, and its id.
pub record CopperList (cycles : CuMsg (Cycle Feed)) (alarms : CuMsg (Batch Alarm)) : Type 0 where
  pub id : ℕ
  pub ingress : cycles.Msg
  pub alarmed : alarms.Msg

abbrev pub Step : Type 0
Step = Recorded (Cycle Feed) (Option (Batch Alarm))

-- `payload().expect(..)` on the ingress slot of one copperlist.
abbrev pub step_of : ℕ → Option (Cycle Feed) → Option (Batch Alarm) → Checked Step
step_of id none output = panics "copperlist without a cycle"
step_of id (some cycle) output = returns (record { id = id; input = cycle; output = output })

-- `collect` of an iterator whose closure may panic.
abbrev pub and_then : Checked Step → Checked (List Step) → Checked (List Step)
and_then (panics text) rest = panics text
and_then (returns s) (panics text) = panics text
and_then (returns s) (returns steps) = returns (s ∷ steps)

-- What the service takes from copper to read a log back.
pub record LogReader (cycles : CuMsg (Cycle Feed)) (alarms : CuMsg (Batch Alarm)) : Type 1 where
  pub source : LogSource (CopperList cycles alarms)
  -- Whether `get_all_task_ids()` is ingress, watchdog, egress, and its text.
  pub in_order : Bool
  pub ids_text : String
  pub debug_error : String → String

module _ (cycles : CuMsg (Cycle Feed)) (alarms : CuMsg (Batch Alarm)) where
  -- The `map` over the copperlists.
  unfoldable pub collect_steps : List (CopperList cycles alarms) → Checked (List Step)
  collect_steps [] = returns []
  collect_steps (cl ∷ cls) =
      and_then (step_of cl.id (cycles.payload cl.ingress) (alarms.payload cl.alarmed))
        (collect_steps cls)

  module _ (log : LogReader cycles alarms) where
    open log use {source, in_order, ids_text, debug_error}

    -- The `assert_eq!` on how the log ended.
    abbrev pub steps_until : LogEnd → List (CopperList cycles alarms) → Checked (List Step)
    steps_until eof cls = collect_steps cls
    steps_until (failed text) cls = panics ("log did not end cleanly: " ++ text)

    -- `none` is fuel that ran out, which `read_copperlists` never does.
    unfoldable pub read_steps :
        CuResult (Option (List (CopperList cycles alarms) × LogEnd)) → Option (Checked (List Step))
    unfolding collect_steps
    read_steps (err e) = some (panics ("read unified log: " ++ debug_error e))
    read_steps (ok none) = none
    read_steps (ok (some (cls, end))) = some (steps_until end cls)

    unfoldable pub read_recorded : String → Option (Checked (List Step))
    unfolding read_steps
    read_recorded log_base =
        let steps = read_steps (read_copperlists source log_base) in
        if in_order then steps else some (panics ("unexpected copperlist slot order: " ++ ids_text))

-- The parts of the gate that the encoder and the `Debug` texts of the payloads give.
pub record Encoding : Type 0 where
  pub encode : Option (Batch Alarm) → Option (List ℕ)
  pub debug_cycle : Cycle Feed → String
  pub debug_alarms : Option (Batch Alarm) → String

module _ (gate : Gate) (enc : Encoding) where
  -- The closure of `replay`: `run_step_all` on the message, and a batch unless there is no output.
  abbrev pub replay_closure : Replay.Gate (WatchdogMachine gate) (Cycle Feed) (Option (Batch Alarm))
  replay_closure = record {
    encode = enc.encode;
    debug_input = enc.debug_cycle;
    debug_output = enc.debug_alarms;
    step = λ m c. replay_step (watchdog gate) m (message c);
  }

  unfoldable pub replay : List Step → GateReport
  replay recorded = replay_gate replay_closure (default gate) recorded

-- `b.0.contains(&Alarm::Armed)`.
abbrev pub has_armed : List Alarm → Bool
has_armed [] = false
has_armed (armed_alarm ∷ l) = true
has_armed (tripped_alarm n ∷ l) = has_armed l
has_armed (recovered_alarm ∷ l) = has_armed l

-- `is_some_and`.
abbrev pub arms_in : Option (Batch Alarm) → Bool
arms_in none = false
arms_in (some b) = has_armed b.values

-- `armed.input.events.clear()`.
abbrev pub clear_events : Step → Step
clear_events s = record s { input = record (s.input) { events = [] } }

abbrev pub push_step : Step → Checked (List Step) → Checked (List Step)
push_step s (panics text) = panics text
push_step s (returns steps) = returns (s ∷ steps)

-- The negative control's change of the recording: the first cycle that armed loses its feeds.
unfoldable pub perturb : List Step → Checked (List Step)
perturb [] = panics "a cycle that armed"
perturb (s ∷ steps) =
    let rest = perturb steps in
    if arms_in s.output then returns (clear_events s ∷ steps) else push_step s rest

-- The alarms of a recording, by `filter_map` and `flat_map`.
abbrev pub alarms_in : Option (Batch Alarm) → List Alarm
alarms_in none = []
alarms_in (some b) = b.values

abbrev pub alarms_of : List Step → List Alarm
alarms_of [] = []
alarms_of (s ∷ steps) = append (alarms_in s.output) (alarms_of steps)

-- `kinds`.
abbrev pub kind : Alarm → String
kind armed_alarm = "armed"
kind (tripped_alarm n) = "tripped"
kind recovered_alarm = "recovered"

-- One `run_one_iteration`: the three tasks in the order of the DAG; `env` is what the driver thread
-- does to the inbound channel during it.
pub record Turn (ch : Channel Feed) (clock : Clock) (cycles : CuMsg (Cycle Feed))
    (alarms : CuMsg (Batch Alarm)) : Type 0 where
  pub env : Interference ch
  -- By the number of calls that the ingress task has made on its channel.
  pub ingress_ctx : ℕ → clock.Ctx
  pub watchdog_ctx : clock.Ctx
  pub cycle_slot : cycles.Msg
  pub alarm_slot : alarms.Msg

-- The service between two iterations: its tasks, both channels, and the id of the next copperlist.
pub record WatchdogService (gate : Gate) (ch : Channel Feed) (out : Channel Alarm) : Type 0 where
  pub ingress : CycleIngressTask (Unit {0})
  pub task : FsmBatchTask (WatchdogMachine gate)
  pub rx : ch.Chan
  pub tx : out.Chan
  pub next : ℕ

module _ (gate : Gate) (ch : Channel Feed) (out : Channel Alarm) (clock : Clock)
    (cycles : CuMsg (Cycle Feed)) (alarms : CuMsg (Batch Alarm)) where
  abbrev pub Results : Type 0
  Results = CuResult (Unit {0}) × CuResult (Unit {0})

  unfoldable pub run_one_iteration :
      WatchdogService gate ch out
      → Turn ch clock cycles alarms
      → WatchdogService gate ch out × CopperList cycles alarms × Results
  run_one_iteration s t =
      let i =
        CycleIngress.process ch clock cycles s.ingress t.env t.ingress_ctx s.rx t.cycle_slot in
      let p =
        Batch.process (watchdog gate) clock cycles alarms s.task t.watchdog_ctx i.output
          t.alarm_slot in
      let (sent, tx) = process_batch out alarms s.tx p.output in
      (
        record { ingress = s.ingress; task = p.task; rx = i.chan; tx = tx; next = suc s.next },
        record { id = s.next; ingress = i.output; alarmed = p.output },
        (p.result, sent),
      )

  -- The loop of `run_live`; an error of a task is `expect`ed away, and ends it with a panic.
  abbrev pub and_run :
      CopperList cycles alarms
      → Results
      → Checked (WatchdogService gate ch out × List (CopperList cycles alarms))
      → Checked (WatchdogService gate ch out × List (CopperList cycles alarms))
  and_run cl (ok _, ok _) (returns (s, cls)) = returns (s, cl ∷ cls)
  and_run cl (ok _, ok _) (panics text) = panics text
  and_run cl (ok _, err e) rest = panics ("run_one_iteration failed: " ++ e)
  and_run cl (err e, _) rest = panics ("run_one_iteration failed: " ++ e)

  unfoldable pub run_iterations :
      WatchdogService gate ch out
      → List (Turn ch clock cycles alarms)
      → Checked (WatchdogService gate ch out × List (CopperList cycles alarms))
  unfolding run_one_iteration
  run_iterations s [] = returns (s, [])
  run_iterations s (t ∷ turns) =
      let (s', cl, results) = run_one_iteration s t in and_run cl results (run_iterations s' turns)
