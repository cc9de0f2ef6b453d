-- ===== src/Echo/Service/Replayed.antt =====
-- examples/echo/src/main.rs: what the replay of recorded inputs answers, and what reading gives back.
use msrs.Shared.{
  ℕ, ◌≡◌, refl, ap, ap₂, ◌∙◌, Option, none, some, List, [], ◌∷◌, ◌++◌, map, String, returns,
}
use msrs.Trigger.{Trigger, tick, message}
use msrs.Effects.Laws.{to_list}
use msrs.Fsm.{run_step}
use msrs.Echo.{EchoMsg, Gate, EchoMachine, default, echo_spec}
use msrs.Echo.Numbering.{answer, count_after, run_step-answer, count-default}
use msrs.Echo.Service.{
  RecordedInput, recorded_message, recorded_tick, Recorded, trigger_of_input, collect, replay_from,
  replay,
}

-- The answers to a run of triggers, after `count` echoes.
abbrev pub answers : ℕ → List (Trigger EchoMsg) → List EchoMsg
answers count [] = []
answers count (t ∷ ts) = to_list (answer count t) ++ answers (count_after count t) ts

abbrev pub body_of : EchoMsg → String
body_of m = m.body

module _ (gate : Gate) where
  replay_from-answers :
      (m : EchoMachine gate) (count : ℕ) (inputs : List RecordedInput)
      → m.ctx.store.count ≡ count
      → replay_from gate m inputs
        ≡ returns (map body_of (answers count (map trigger_of_input inputs)))
  unfolding replay_from
  replay_from-answers m count [] same = refl
  replay_from-answers m count (i ∷ inputs) same =
      let t = trigger_of_input i in
      let (outcome, after) = run_step-answer gate m t in
      let m' = (run_step (echo_spec gate) m t).0 in
      let rest =
        replay_from-answers m' (count_after count t) inputs
          (after ∙ ap (λ c. count_after c t) same) in
      ap₂ collect (outcome ∙ ap (λ c. returns (answer c t)) same) rest
      ∙ collected (answer count t) _
    where
      collected :
          (o : Option EchoMsg) (l : List EchoMsg)
          → collect (returns o) (returns (map body_of l)) ≡ returns (map body_of (to_list o ++ l))
      collected none l = refl
      collected (some out) l = refl

  -- The replay of any recorded inputs, messages and ticks, comes back without a panic, and its texts
  -- are the messages in order, numbered from 1 (modulo 2^64).
  pub replay-answers :
      (inputs : List RecordedInput)
      → replay gate inputs ≡ returns (map body_of (answers 0 (map trigger_of_input inputs)))
  unfolding replay
  replay-answers inputs = replay_from-answers (default gate) 0 inputs (count-default gate)

-- What the log records of a trigger.
abbrev pub input_of : Trigger EchoMsg → RecordedInput
input_of (tick t) = recorded_tick t
input_of (message msg) = recorded_message msg.body

abbrev pub recorded_of : ℕ → List (Trigger EchoMsg) → Recorded
recorded_of count ts = record {
  ingress_inputs = map input_of ts;
  echo_outputs = map body_of (answers count ts);
}

trigger-input : (ts : List (Trigger EchoMsg)) → map trigger_of_input (map input_of ts) ≡ ts
trigger-input [] = refl
trigger-input (tick t ∷ ts) = ap (◌∷◌ (tick t)) (trigger-input ts)
trigger-input (message m ∷ ts) = ap (◌∷◌ (message m)) (trigger-input ts)

-- Recording a run of triggers and replaying it gives the recorded outputs.
pub replay-recorded_of :
    (gate : Gate) (ts : List (Trigger EchoMsg))
    → replay gate (recorded_of 0 ts).ingress_inputs ≡ returns (recorded_of 0 ts).echo_outputs
replay-recorded_of gate ts =
    replay-answers gate (map input_of ts)
    ∙ ap (λ l. returns (map body_of (answers 0 l))) (trigger-input ts)
