-- ===== src/Examples/Threads.antt =====
-- The theorems on the interleavings of the echo service, on schedules that are run.
use msrs.Shared.{◌≡◌, refl, Bool, true, false, List, [], ◌∷◌, ◌++◌, String, ok, IsPrefix}
use msrs.Channel.Queue.{queue}
use msrs.Echo.{EchoMsg}
use msrs.Echo.Numbering.{nth_echo}
use msrs.Echo.Threads.{
  gathering, came_back, System, start, Reach, at_start, later, feeder_moves, main_moves,
}
use msrs.Echo.Threads.Numbered.{all_echoes}
use msrs.Echo.Threads.Flow.{gathered}
use msrs.Echo.Threads.Order.{Reach-in_order}
use msrs.Echo.Threads.Starved.{starved}
use msrs.Examples.Plain.{plain_msg, counting}
use msrs.Examples.Echo.{one_state, turn_at}

abbrev Echoes : Type 0
Echoes = System one_state (queue EchoMsg) (queue String)

abbrev Reaches : List String → Echoes → Type 0
Reaches = Reach one_state (queue EchoMsg) (queue String) counting (plain_msg EchoMsg)

record Run (inputs : List String) : Type 0 where
  last : Echoes
  reach : Reaches inputs last

-- true: the driver thread moves; false: the main thread does.
follow : {inputs : List String} → Run inputs → List Bool → Run inputs
follow r [] = r
follow r (true ∷ moves) = follow (record { last = _; reach = later r.reach feeder_moves }) moves
follow r (false ∷ moves) =
    follow (record { last = _; reach = later r.reach (main_moves (turn_at 7) (ok tt)) }) moves

abbrev from_start : (inputs : List String) → List Bool → Run inputs
from_start inputs moves = follow (record { last = _; reach = at_start }) moves

-- Both inputs are sent, one of them is taken, and its echo is collected and passed on.
abbrev half_way : Run ("hello" ∷ "world" ∷ [])
half_way = from_start _ (true ∷ true ∷ true ∷ false ∷ true ∷ [])

Reach-in_order_example :
    IsPrefix {A = String}
      (gathered half_way.last.main ++ half_way.last.results.items)
      (all_echoes ("hello" ∷ "world" ∷ []))
Reach-in_order_example =
    Reach-in_order one_state (queue EchoMsg) (queue String) counting (plain_msg EchoMsg)
      ("hello" ∷ "world" ∷ []) half_way.reach

half_way_results : half_way.last.results.items ≡ (nth_echo 1 "hello").body ∷ []
unfolding follow start msrs.Echo.Threads.main_step msrs.Echo.Threads.feeder_step
    msrs.Tasks.Ingress.process msrs.Tasks.ingress_step msrs.Fsm.Task.process msrs.Effects.take_one
    msrs.Echo.step msrs.Trigger.message? msrs.Fsm.Adapter.trigger_for msrs.Effects.empty
    msrs.Tasks.Egress.process msrs.Tasks.egress_step msrs.Echo.handler msrs.Echo.default
    msrs.Effects.emit
half_way_results = refl

-- The whole run of one input, to its end.
abbrev whole : Run ("hello" ∷ [])
whole =
    from_start _ (
      false ∷ true ∷ true ∷ false ∷ true ∷ true ∷ false ∷ false ∷ false ∷ false ∷ false ∷ false
      ∷ [])

whole_main : whole.last.main ≡ came_back ((nth_echo 1 "hello").body ∷ [])
unfolding follow start msrs.Echo.Threads.main_step msrs.Echo.Threads.feeder_step
    msrs.Tasks.Ingress.process msrs.Tasks.ingress_step msrs.Fsm.Task.process msrs.Effects.take_one
    msrs.Echo.step msrs.Trigger.message? msrs.Fsm.Adapter.trigger_for msrs.Effects.empty
    msrs.Tasks.Egress.process msrs.Tasks.egress_step msrs.Echo.handler msrs.Echo.default
    msrs.Effects.emit
whole_main = refl

starved_example : (s : Echoes) × Reaches ("hello" ∷ "world" ∷ []) s × (s.main ≡ came_back [])
starved_example =
    starved one_state (queue EchoMsg) (queue String) counting (plain_msg EchoMsg) "hello"
      ("world" ∷ []) (turn_at 7)
