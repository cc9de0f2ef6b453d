-- ===== src/Examples/Echo.antt =====
-- The theorems on the echo service, at concrete inputs.
use msrs.Shared.{
  to_decimal, ℕ, ◌≡◌, refl, true, none, some, List, [], ◌∷◌, ◌++◌, String, Result, ok, err, ok?,
  append-nil, ◌∙◌, ap, map, returns,
}
use text.Mathlib.Text.{◌==◌ as ◌=?◌}
use text.Mathlib.TextEquality.{eq_iff}
use msrs.Trigger.{tick, message}
use msrs.Channel.Queue.{Queue, queue}
use msrs.Fsm.{run_step}
use msrs.Replay.Log.{unexpected_end}
use msrs.Tasks.Egress
use msrs.Echo.{EchoMsg, running, handler, Gate, EchoMachine, echo_spec, default}
use msrs.Echo.Numbering.{nth_echo, run_step-answer}
use msrs.Channel.Blocking.{Blocking}
use msrs.Effects.Laws.{to_list}
use msrs.Echo.Feeder
use msrs.Echo.Feeder.{Feeder, Collects, run-Collects}
use msrs.Echo.Service.{
  recorded_message, recorded_tick, CopperList, LogReader, read_recorded, replay, Turn, EchoService,
  run_iterations, Recorded,
}
use msrs.Echo.Service.Replayed.{replay-answers}
use msrs.Echo.Main.{main, Files, live_line, replay_line, recovered_line}
use msrs.Echo.Main.Counts.{main-counts}
use msrs.Echo.Service.Live.{run_iterations-returns}
use msrs.Examples.Log.{source_holding, Holds-all}
use msrs.Examples.Plain.{plain_msg, message_at, empty_at, counting, plain_statig}

abbrev pub one_state : Gate
one_state = plain_statig running handler

abbrev says : String → EchoMsg
says body = record { body = body }

abbrev after_two : EchoMachine one_state
after_two = record { sm = running; ctx = record { store = record { count = 2 }; emitted = none } }

run_step-answer_example :
    let (m', outcome) = run_step (echo_spec one_state) after_two (message (says "hi")) in
    (outcome ≡ returns (some (nth_echo 3 "hi"))) × (m'.ctx.store.count ≡ 3)
run_step-answer_example = run_step-answer one_state after_two (message (says "hi"))

replay-answers_example :
    replay one_state (recorded_message "a" ∷ recorded_tick 5 ∷ recorded_message "b" ∷ [])
    ≡ returns ((nth_echo 1 "a").body ∷ (nth_echo 2 "b").body ∷ [])
replay-answers_example =
    replay-answers one_state (recorded_message "a" ∷ recorded_tick 5 ∷ recorded_message "b" ∷ [])

abbrev open_queue : List EchoMsg → Queue EchoMsg
open_queue l = record { items = l; cap = none; alive = true }

-- Two messages arrive before the first iteration, and a third iteration finds nothing.
abbrev at_start : EchoService one_state (queue EchoMsg)
at_start = record {
  task = record {
    machine = record {
      sm = running;
      ctx = record { store = record { count = 0 }; emitted = none };
    };
  };
  rx = open_queue (says "hello" ∷ says "world" ∷ []);
  tx = open_queue [];
}

abbrev pub turn_at : ℕ → Turn (queue EchoMsg) counting (plain_msg EchoMsg)
turn_at now = record {
  arrive = λ q. q;
  ingress_ctx = now;
  echo_ctx = now;
  ingress_slot = empty_at 0;
  echo_slot = empty_at 0;
}

abbrev three_turns : List (Turn (queue EchoMsg) counting (plain_msg EchoMsg))
three_turns = turn_at 10 ∷ turn_at 20 ∷ turn_at 30 ∷ []

abbrev Logged : Type 0
Logged = List (CopperList (plain_msg EchoMsg))

abbrev log_holding : Logged → LogReader (plain_msg EchoMsg)
log_holding cls = record {
  source = source_holding cls;
  in_order = true;
  ids_text = "";
  debug_tov = λ t. "";
  debug_error = λ e. e;
}

run_iterations-returns_example :
    (last : EchoService one_state (queue EchoMsg)) × (copperlists : Logged) × (run_iterations
        one_state
        (queue EchoMsg)
        counting
        (plain_msg EchoMsg)
        at_start
        three_turns
      ≡ returns (last, copperlists))
run_iterations-returns_example =
    run_iterations-returns one_state (queue EchoMsg) counting (plain_msg EchoMsg) (log_holding [])
      at_start three_turns (refl, refl)

abbrev three_copperlists : Logged
three_copperlists =
    record { ingress = message_at (says "hello") 10; echoed = message_at (nth_echo 1 "hello") 10 }
    ∷ record { ingress = message_at (says "world") 20; echoed = message_at (nth_echo 2 "world") 20 }
    ∷ record { ingress = empty_at 30; echoed = empty_at 0 }
    ∷ []

abbrev at_end : EchoService one_state (queue EchoMsg)
at_end = record {
  task = record {
    machine = record {
      sm = running;
      ctx = record { store = record { count = 2 }; emitted = none };
    };
  };
  rx = open_queue [];
  tx = open_queue (nth_echo 1 "hello" ∷ nth_echo 2 "world" ∷ []);
}

run_iterations-three :
    run_iterations one_state (queue EchoMsg) counting (plain_msg EchoMsg) at_start three_turns
    ≡ returns (at_end, three_copperlists)
unfolding run_iterations msrs.Fsm.Task.process msrs.Effects.take_one msrs.Echo.step
    msrs.Trigger.message? msrs.Fsm.Adapter.trigger_for msrs.Tasks.Ingress.process
    msrs.Tasks.ingress_step handler msrs.Effects.emit msrs.Effects.empty Egress.process
    msrs.Tasks.egress_step
run_iterations-three = refl

-- A receiver that takes what is there, and gives up at once where nothing is.
abbrev take_first : Queue EchoMsg → List EchoMsg → Result (Unit {0}) EchoMsg × Queue EchoMsg
take_first q [] = (err tt, q)
take_first q (v ∷ vs) = (ok v, record q { items = vs })

pub take_first-items :
    (q : Queue EchoMsg) (l : List EchoMsg)
    → q.items ≡ l
    → q.items ++ [] ≡ to_list (ok? (take_first q l).0) ++ (take_first q l).1.items
take_first-items q [] h = append-nil q.items
take_first-items q (v ∷ vs) h = append-nil q.items ∙ h

abbrev pub impatient : Blocking (queue EchoMsg)
impatient = record {
  TimeoutError = Unit {0};
  recv_timeout = λ secs q. take_first q q.items;
  recv_timeout-contents = λ secs q. ([], take_first-items q q.items refl);
}

abbrev two_inputs : Feeder
two_inputs = record { inputs = "hello" ∷ "world" ∷ [] }

abbrev no_texts : Queue String
no_texts = record { items = []; cap = none; alive = true }

run-Collects_example :
    let (outcome, rx_out', tx_in', results') =
      Feeder.run
        (queue EchoMsg)
        impatient
        (queue String)
        two_inputs
        (open_queue (nth_echo 1 "hello" ∷ []))
        (open_queue [])
        no_texts in
    (tx_in'.items ≡ says "hello" ∷ says "world" ∷ [])
    × Collects
        (queue EchoMsg)
        impatient
        (queue String)
        2
        (open_queue (nth_echo 1 "hello" ∷ []))
        rx_out'
        no_texts
        results'
        outcome
run-Collects_example =
    run-Collects (queue EchoMsg) impatient (queue String) two_inputs
      (open_queue (nth_echo 1 "hello" ∷ [])) (open_queue []) no_texts (refl, refl) (refl, refl)

-- A `diff` that compares the texts, and files that can be written.
abbrev working : Files
working = record {
  create_dir_all = ok tt;
  write_live = ok tt;
  write_replay = ok tt;
  diff = λ a b. ok (a =? b);
  diff_refl = λ a. ap ok ((eq_iff a a).1 refl);
}

abbrev two_echoes : List String
two_echoes = (nth_echo 1 "hello").body ∷ (nth_echo 2 "world").body ∷ []

main-counts_example :
    (recorded : Recorded) × (read_recorded (plain_msg EchoMsg) (log_holding three_copperlists) "log"
      ≡ some (returns recorded))
    × (main one_state working ("hello" ∷ "world" ∷ []) two_echoes (returns recorded) ≡ (
      map live_line two_echoes
          ++ recovered_line recorded
            ∷ (map replay_line two_echoes ++ "REPLAY DETERMINISM: OK (diff empty)" ∷ []),
      returns true,
    ))
main-counts_example =
    main-counts one_state working (queue EchoMsg) counting (plain_msg EchoMsg)
      (log_holding three_copperlists) ("hello" ∷ "world" ∷ []) at_start at_end three_turns
      three_copperlists "log" three_copperlists unexpected_end (refl, refl) refl refl
      run_iterations-three refl refl (Holds-all three_copperlists three_copperlists) refl refl refl

-- The line of a small recording, spelt out.
recovered_line-text :
    recovered_line (record {
      ingress_inputs = recorded_message "a" ∷ recorded_tick 3 ∷ recorded_message "b" ∷ [];
      echo_outputs = "echo 1" ∷ [];
    })
    ≡ "[replay] recovered 3 ingress cycle(s) (2 message(s)) and 1 echo output(s) from the log"
unfolding to_decimal
recovered_line-text = refl
