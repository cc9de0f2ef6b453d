-- ===== src/Examples/Tasks.antt =====
-- The theorems on the ingress and egress tasks, at concrete inputs.
use msrs.Shared.{
  ◌+◌, ℕ, ◌≡◌, refl, inl, true, false, none, some, List, [], ◌∷◌, ◌++◌, ok, err, returns, sym,
  append-nil, arith,
}
use msrs.Copper.{ComponentConfig, time}
use msrs.Channel.Drain.{quiet}
use msrs.Channel.Queue.{Queue, queue}
use msrs.Fsm.Batch.{Batch}
use msrs.Registry.{Registry}
use msrs.Tasks.{Cycle}
use msrs.Tasks.Ingress
use msrs.Tasks.Ingress.{process-contents}
use msrs.Tasks.CycleIngress
use msrs.Tasks.CycleIngress.{CycleIngressTask, configured_batch}
use msrs.Tasks.CycleIngress.Building.{new-new_after}
use msrs.Tasks.CycleIngress.Sampling.{Samples, process-Samples}
use msrs.Tasks.CycleIngress.Lossless.{Arrivals, Turn, sample, sample-lossless}
use msrs.Tasks.Egress
use msrs.Tasks.CycleIngress.Backlog.{sample-quiet}
use msrs.Tasks.Wiring.{install-new_both}
use msrs.Tasks.Egress.{process_batch}
use msrs.Tasks.Egress.Delivery.{process_batch-Delivers}
use msrs.Examples.Plain.{PlainMsg, plain_msg, message_at, empty_at, counting, types}

abbrev holding_three : Queue ℕ
holding_three = record { items = 1 ∷ 2 ∷ 3 ∷ []; cap = none; alive = true }

-- Before each call the other end sends the number of the call.
abbrev busy : ℕ → Queue ℕ → Queue ℕ
busy n q = record q { items = q.items ++ n ∷ [] }

abbrev call_number : ℕ → List ℕ
call_number n = n ∷ []

abbrev by_two : CycleIngressTask (Unit {0})
by_two = record { rx = tt; max_batch = 2 }

-- The clock moves on with each call on the channel.
abbrev from_forty : ℕ → ℕ
from_forty n = 40 + n

process-Samples_example :
    let p =
      CycleIngress.process
        (queue ℕ)
        counting
        (plain_msg (Cycle ℕ))
        by_two
        busy
        from_forty
        holding_three
        (empty_at 0) in
    (cycle : Cycle ℕ) × (calls : ℕ) × (p.result ≡ ok tt)
    × (p.output.held ≡ some cycle)
    × (p.output.stamp ≡ time (from_forty calls))
    × (cycle.now_ns ≡ from_forty calls)
    × Samples (queue ℕ) busy call_number 2 holding_three cycle p.chan calls
process-Samples_example =
    process-Samples (queue ℕ) counting (plain_msg (Cycle ℕ)) by_two busy call_number from_forty
      holding_three (empty_at 0) (λ n c. refl)

abbrev a_turn : ℕ → Turn (queue ℕ) counting (plain_msg (Cycle ℕ))
a_turn now = record {
  env = busy;
  sent = call_number;
  adds = λ n c. refl;
  ctx = λ n. now;
  msg = empty_at 0;
}

abbrev two_turns : List (Turn (queue ℕ) counting (plain_msg (Cycle ℕ)))
two_turns = a_turn 40 ∷ a_turn 50 ∷ []

sample-lossless_example :
    let (events, rx') =
      sample (queue ℕ) counting (plain_msg (Cycle ℕ)) by_two two_turns holding_three in
    (all : List ℕ) × Arrivals 2 (call_number ∷ call_number ∷ []) all
    × (events ++ rx'.items ≡ (1 ∷ 2 ∷ 3 ∷ []) ++ all)
sample-lossless_example =
    sample-lossless (queue ℕ) counting (plain_msg (Cycle ℕ)) by_two two_turns holding_three

abbrev a_batch : PlainMsg (Batch ℕ)
a_batch = message_at (record { values = 8 ∷ 9 ∷ [] }) 5

process_batch-Delivers_example :
    let (result, tx') = process_batch (queue ℕ) (plain_msg (Batch ℕ)) holding_three a_batch in
    (result ≡ ok tt)
    × (tx'.items ≡ 1 ∷ 2 ∷ 3 ∷ 8 ∷ 9 ∷ [])
    × ((tx'.alive ≡ true) × (tx'.cap ≡ none))
process_batch-Delivers_example =
    process_batch-Delivers (queue ℕ) (plain_msg (Batch ℕ)) holding_three a_batch (refl, refl)

abbrev hung_up : Queue ℕ
hung_up = record { items = 4 ∷ []; cap = none; alive = false }

abbrev pub capped_at : ℕ → ComponentConfig
capped_at n = record { get_u32 = λ name. ok (some n) }

abbrev no_channels : Registry types
no_channels = record { slots = λ k. none; held = false; poisoned = false }

-- The first attempt asks for no messages at all, the second for eight.
new-new_after_example :
    let (parked, outcome) = CycleIngress.install types 3 0 no_channels 11 in
    let (still, refused) = CycleIngress.new types 3 0 parked (some (capped_at 0)) in
    let (emptied, built) = CycleIngress.new types 3 0 still (some (capped_at 8)) in
    (outcome ≡ returns tt)
    × (refused ≡ err "CycleIngressTask max_batch must be > 0")
    × (built ≡ ok (record { rx = 11; max_batch = 8 }))
    × (emptied.slots 4 ≡ none)
new-new_after_example =
    new-new_after types 3 0 no_channels 4 (capped_at 0) (some (capped_at 8)) 11
      "CycleIngressTask max_batch must be > 0" 7 refl (inl (refl, refl)) (inl refl)

install-new_both_example :
    let (r1, first) = Ingress.install types 3 0 no_channels 11 in
    let (r2, second) = Egress.install types 4 0 r1 12 in
    let (r3, ingress) = Ingress.new types 3 0 r2 none in
    let (r4, egress) = Egress.new types 4 0 r3 none in
    (first ≡ returns tt)
    × (second ≡ returns tt)
    × (ingress ≡ ok (record { rx = 11 }))
    × (egress ≡ ok (record { tx = 12 }))
    × (r4.slots 3 ≡ none)
install-new_both_example =
    install-new_both types 3 4 0 0 no_channels 3 none none 11 12 (λ e. omega arith) refl refl

abbrev quiet_turn : ℕ → Turn (queue ℕ) counting (plain_msg (Cycle ℕ))
quiet_turn now = record {
  env = quiet (queue ℕ);
  sent = λ n. [];
  adds = λ n c. sym (append-nil c.items);
  ctx = λ n. now;
  msg = empty_at 0;
}

sample-quiet_example :
    let (events, rx') =
      sample
        (queue ℕ)
        counting
        (plain_msg (Cycle ℕ))
        by_two
        (quiet_turn 10 ∷ quiet_turn 20 ∷ [])
        holding_three in
    (events ≡ 1 ∷ 2 ∷ 3 ∷ []) × (rx'.items ≡ [])
sample-quiet_example =
    sample-quiet (queue ℕ) counting (plain_msg (Cycle ℕ)) by_two
      (quiet_turn 10 ∷ quiet_turn 20 ∷ []) holding_three (refl, (refl, tt))
