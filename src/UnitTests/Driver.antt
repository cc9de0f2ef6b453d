-- ===== src/UnitTests/Driver.antt =====
-- crates/msrs-transport/src/driver.rs: its unit tests, with the transports that they define. A thread
-- that the test lets run is run on the state that the test has prepared.
use msrs.Shared.{
  ℕ, zero, suc, ◌+◌, ◌*◌, ◌≡◌, refl, Bool, true, false, ◌&&◌, Option, none, some, List, [], ◌∷◌,
  ◌++◌, String, Result, ok, err, ok?, returns, length, ltb, if◌then◌else◌,
}
use msrs.Shared.Checks.{◌>>=◌, ◌>>◌}
use msrs.Channel.{Channel}
use msrs.Channel.Queue.{Queue, queue}
use msrs.Rt.{normal, apply}
use msrs.Driver.{Transport, spawn, spawn_bounded}
use msrs.UnitTests.Assert.{Test, assert_eq, assert_that, same_nat, is_ok, unwrap}
use msrs.Examples.Rt.{three_cores}

abbrev numbers : Channel ℕ
numbers = queue ℕ

-- Echo each outbound back inbound until the DAG side disconnects; the numbers of the test are not
-- negative, and far from the bounds of an i32.
loop_back : List ℕ → Queue ℕ → Result String (Unit {0}) × Queue ℕ
loop_back [] tx_in = (ok tt, tx_in)
loop_back (v ∷ vs) tx_in =
    let (sent, tx_in') = numbers.send tx_in (v * 10) in
    let rest = loop_back vs tx_in' in elim sent [ ok _ ↦ rest | err e ↦ (err e, tx_in') ]

abbrev loopback : Transport numbers numbers
unfolding loop_back
loopback = record {
  run = λ rx_out tx_in.
      let (outcome, tx_in') = loop_back rx_out.items tx_in in
      (outcome, record rx_out { items = [] }, tx_in');
}

loopback_round_trips : Test
loopback_round_trips = do
  let h = spawn numbers numbers three_cores loopback normal
  let (sent, to_transport) = numbers.send h.to_transport 5
  assert_that (is_ok sent)
  let (outcome, rx_out, from_transport) = loopback.run to_transport h.from_transport
  value ← unwrap (ok? (numbers.try_recv from_transport).0)
  assert_eq same_nat value 50
  assert_that (is_ok outcome)

loopback_round_trips_passes : loopback_round_trips ≡ returns tt
unfolding loopback_round_trips spawn loop_back
loopback_round_trips_passes = refl

-- `try_send`: whether the message fitted.
abbrev room_for : Option ℕ → ℕ → Bool
room_for none n = true
room_for (some cap) n = ltb n cap

abbrev try_send : Queue ℕ → ℕ → Bool × Queue ℕ
try_send q v =
    if q.alive && room_for q.cap (length q.items)
    then (true, record q { items = q.items ++ v ∷ [] })
    else (false, q)

-- Pushes the numbers from v on, n of them, and counts how many fit.
push_all : ℕ → ℕ → Queue ℕ → ℕ × Queue ℕ
push_all zero v tx_in = (0, tx_in)
push_all (suc n) v tx_in =
    let (fits, tx_in') = try_send tx_in v in
    let (count, tx_in'') = push_all n (v + 1) tx_in' in
    ((if fits then count + 1 else count), tx_in'')

-- The count goes to `accepted`, which nobody has closed; the test reads it from `push_all`.
abbrev burst : ℕ → Transport numbers numbers
unfolding push_all
burst n = record { run = λ rx_out tx_in. (ok tt, rx_out, (push_all n 0 tx_in).1) }

bounded_inbound_caps_backlog : Test
bounded_inbound_caps_backlog = do
  let h = spawn_bounded numbers numbers three_cores (burst 10) normal 4
  assert_eq same_nat (push_all 10 0 h.from_transport).0 4
  let (th, (outcome, rx_out, from_transport)) = h.join []
  assert_that (is_ok outcome)
  assert_eq same_nat (numbers.len from_transport) 4

bounded_inbound_caps_backlog_passes : bounded_inbound_caps_backlog ≡ returns tt
unfolding bounded_inbound_caps_backlog spawn_bounded push_all apply normal
bounded_inbound_caps_backlog_passes = refl
