-- ===== src/Echo/Service.antt =====
-- examples/echo/src/main.rs: an iteration of the DAG ingress → echo → egress, reading its log back,
-- and the replay. copper (the runtime, the log and the generated task ids) is a parameter.
pub mod Replayed
pub mod Reading
pub mod Iteration
pub mod Live
use Prim.Native.String.{◌++◌}
use msrs.Shared.{
  ℕ, zero, suc, Bool, Option, none, some, List, [], ◌∷◌, String, Result, ok, err, Checked, returns,
  panics, if◌then◌else◌,
}
use msrs.Shared.{◌++◌ as append}
use msrs.Copper.{CuMsg, CuResult, Clock, Tov, time, range, unset}
use msrs.Trigger.{Trigger, tick, message}
use msrs.Channel.{Channel}
use msrs.Fsm.{run_step}
use msrs.Fsm.Task
use msrs.Fsm.Task.{FsmTask}
use msrs.Tasks.Ingress
use msrs.Tasks.Egress
use msrs.Replay.Log.{UnifiedLogger, read, write, LogSource}
use msrs.Echo.{EchoMsg, Gate, EchoMachine, default, echo_spec}

-- One recorded ingress slot.
pub data RecordedInput : Type 0 where
  recorded_message : String → RecordedInput
  recorded_tick : ℕ → RecordedInput

pub record Recorded : Type 0 where
  pub ingress_inputs : List RecordedInput
  pub echo_outputs : List String

-- The text of a time of validity, as `{:?}` prints it, is a parameter.
unfoldable pub recorded_input : (Tov → String) → Option EchoMsg → Tov → Checked RecordedInput
recorded_input debug (some input) tov = returns (recorded_message input.body)
recorded_input debug none (time t) = returns (recorded_tick t)
recorded_input debug none (range r) =
    panics ("ingress cycle recorded without a time: " ++ debug (range r))
recorded_input debug none unset = panics ("ingress cycle recorded without a time: " ++ debug unset)

abbrev pub push_output : List String → Option EchoMsg → List String
push_output outputs none = outputs
push_output outputs (some out) = append outputs (out.body ∷ [])

abbrev pub push_input : Recorded → Option EchoMsg → Checked RecordedInput → Checked Recorded
push_input r out (panics text) = panics text
push_input r out (returns i) = returns (record {
  ingress_inputs = append r.ingress_inputs (i ∷ []);
  echo_outputs = push_output r.echo_outputs out;
})

module _ (slot : CuMsg EchoMsg) where
  -- The slots of a copperlist that the service looks at.
  pub record CopperList : Type 0 where
    pub ingress : slot.Msg
    pub echoed : slot.Msg

-- What the service takes from copper to read a log back.
pub record LogReader (slot : CuMsg EchoMsg) : Type 1 where
  pub source : LogSource (CopperList slot)
  -- Whether `get_all_task_ids()` is ingress, echo, egress, and its text.
  pub in_order : Bool
  pub ids_text : String
  pub debug_tov : Tov → String
  pub debug_error : String → String

module _ (slot : CuMsg EchoMsg) (log : LogReader slot) where
  open log use {source, in_order, ids_text, debug_tov, debug_error}
  open source use {Reader, build, decode, remaining}

  -- The body of the `while let`.
  unfoldable pub push_cycle : Recorded → CopperList slot → Checked Recorded
  push_cycle r cl =
      push_input r (slot.payload cl.echoed)
        (recorded_input debug_tov (slot.payload cl.ingress) (slot.tov cl.ingress))

  -- The `while let`, over what was read so far; `none` is fuel that ran out.
  unfoldable pub read_cycles : ℕ → Reader → Recorded → Option (Checked Recorded)
  unfolding push_cycle
  read_cycles zero reader r = none
  read_cycles (suc fuel) reader r =
      let (decoded, reader') = decode reader in
      elim decoded [
        | ok cl ↦ elim (push_cycle r cl) [
          | returns r' ↦ read_cycles fuel reader' r'
          | panics text ↦ some (panics text)
        ]
        | err e ↦ some (returns r)
      ]

  -- The rest of `read_recorded`, by the logger that was opened.
  unfoldable pub read_opened : Result String (UnifiedLogger Reader) → Option (Checked Recorded)
  unfolding read_cycles
  read_opened (err e) = some (panics ("open unified log for reading: " ++ debug_error e))
  read_opened (ok write) = some (panics "expected a read-only unified logger")
  read_opened (ok (read reader)) =
      read_cycles (suc (remaining reader)) reader
        (record { ingress_inputs = []; echo_outputs = [] })

  unfoldable pub read_recorded : String → Option (Checked Recorded)
  unfolding read_opened
  read_recorded log_base =
      let opened = read_opened (build log_base) in
      if in_order then opened else some (panics ("unexpected copperlist slot order: " ++ ids_text))

-- The trigger that `replay` builds.
abbrev pub trigger_of_input : RecordedInput → Trigger EchoMsg
trigger_of_input (recorded_message msg) = message (record { body = msg })
trigger_of_input (recorded_tick ns) = tick ns

-- `filter_map` and `map` on one outcome; a panic ends the replay.
abbrev pub collect : Checked (Option EchoMsg) → Checked (List String) → Checked (List String)
collect (panics text) rest = panics text
collect (returns none) rest = rest
collect (returns (some out)) (panics text) = panics text
collect (returns (some out)) (returns outs) = returns (out.body ∷ outs)

module _ (gate : Gate) where
  unfoldable pub replay_from : EchoMachine gate → List RecordedInput → Checked (List String)
  replay_from machine [] = returns []
  replay_from machine (i ∷ inputs) =
      let (machine', outcome) = run_step (echo_spec gate) machine (trigger_of_input i) in
      collect outcome (replay_from machine' inputs)

  unfoldable pub replay : List RecordedInput → Checked (List String)
  unfolding replay_from
  replay inputs = replay_from (default gate) inputs

-- One `run_one_iteration`: the three tasks in the order of the DAG. `arrive` is what the driver thread
-- does to the inbound channel before it.
pub record Turn (ch : Channel EchoMsg) (clock : Clock) (slot : CuMsg EchoMsg) : Type 0 where
  pub arrive : ch.Chan → ch.Chan
  pub ingress_ctx : clock.Ctx
  pub echo_ctx : clock.Ctx
  pub ingress_slot : slot.Msg
  pub echo_slot : slot.Msg

-- The service between two iterations: the echo task and both channels.
pub record EchoService (gate : Gate) (ch : Channel EchoMsg) : Type 0 where
  pub task : FsmTask (EchoMachine gate)
  pub rx : ch.Chan
  pub tx : ch.Chan

module _ (gate : Gate) (ch : Channel EchoMsg) (clock : Clock) (slot : CuMsg EchoMsg) where
  unfoldable pub run_one_iteration :
      EchoService gate ch
      → Turn ch clock slot
      → EchoService gate ch × CopperList slot × (CuResult (Unit {0}) × CuResult (Unit {0}))
  run_one_iteration s t =
      let i = Ingress.process ch clock slot t.ingress_ctx (t.arrive s.rx) t.ingress_slot in
      let p =
        Task.process (echo_spec gate) clock slot slot s.task t.echo_ctx i.output t.echo_slot in
      let (sent, tx) = Egress.process ch slot s.tx p.output in
      (
        record { task = p.task; rx = i.chan; tx = tx },
        record { ingress = i.output; echoed = p.output },
        (p.result, sent),
      )

  -- The loop of `run_live`; an error of a task is `expect`ed away, and ends it with a panic.
  abbrev pub and_run :
      CopperList slot
      → CuResult (Unit {0}) × CuResult (Unit {0})
      → Checked (EchoService gate ch × List (CopperList slot))
      → Checked (EchoService gate ch × List (CopperList slot))
  and_run cl (ok _, ok _) (returns (s, cls)) = returns (s, cl ∷ cls)
  and_run cl (ok _, ok _) (panics text) = panics text
  and_run cl (ok _, err e) rest = panics ("run_one_iteration failed: " ++ e)
  and_run cl (err e, _) rest = panics ("run_one_iteration failed: " ++ e)

  unfoldable pub run_iterations :
      EchoService gate ch
      → List (Turn ch clock slot)
      → Checked (EchoService gate ch × List (CopperList slot))
  unfolding run_one_iteration
  run_iterations s [] = returns (s, [])
  run_iterations s (t ∷ turns) =
      let (s', cl, results) = run_one_iteration s t in and_run cl results (run_iterations s' turns)
