-- ===== src/Echo/Threads/Flow.antt =====
-- examples/echo/src/main.rs: the messages under way between `run_live` and its driver thread.
use msrs.Shared.{ℕ, ◌+◌, ◌≡◌, List, [], ◌++◌, map, String, ok, err, length, IsPrefix}
use msrs.Channel.{Channel}
use msrs.Tasks.Egress.Delivery.{Delivers}
use msrs.Echo.{EchoMsg, Gate}
use msrs.Echo.Feeder.{new_msg}
use msrs.Echo.Service.Replayed.{body_of}
use msrs.Echo.Service.Iteration.{echoed}
use msrs.Echo.Threads.{
  Progress, feeding, collecting, ended, Main, iterating, gathering, joining, came_back, panicked,
  System,
}
use msrs.Echo.Threads.Numbered.{count_of, numbered}

-- The inputs that the thread has still to send.
abbrev pub unfed : Progress → List String
unfed (feeding msgs) = msgs
unfed (collecting n) = []
unfed (ended outcome) = []

-- The echoes that `run_live` has gathered.
abbrev pub gathered : Main → List String
gathered (iterating n) = []
gathered (gathering live) = live
gathered (joining live) = live
gathered (came_back live) = live
gathered (panicked text) = []

-- How many echoes the thread has received.
abbrev pub Tally : List String → List EchoMsg → Progress → Type 0
Tally inputs received (feeding msgs) = length received ≡ 0
Tally inputs received (collecting n) = length received + n ≡ length inputs
Tally inputs received (ended (ok _)) = length received ≡ length inputs
Tally inputs received (ended (err _)) = Unit {0}

module _ (ch : Channel EchoMsg) (texts : Channel String) (inputs : List String) where
  -- While the DAG runs, what it has taken, what is queued and what is not yet sent are the inputs.
  abbrev pub InFlow : List EchoMsg → Main → Progress → ch.Chan → Type 0
  InFlow taken (iterating n) p rx =
      (taken ++ (ch.contents rx ++ map new_msg (unfed p)) ≡ map new_msg inputs) × Delivers ch rx
  InFlow taken (gathering live) p rx = IsPrefix taken (map new_msg inputs)
  InFlow taken (joining live) p rx = IsPrefix taken (map new_msg inputs)
  InFlow taken (came_back live) p rx = IsPrefix taken (map new_msg inputs)
  InFlow taken (panicked text) p rx = IsPrefix taken (map new_msg inputs)

  -- While the thread runs, what it has received and what is queued are the echoes of what was taken.
  abbrev pub OutFlow : List EchoMsg → List EchoMsg → Progress → ch.Chan → Type 0
  OutFlow taken received (feeding msgs) tx =
      (received ++ ch.contents tx ≡ numbered 0 taken) × Delivers ch tx
  OutFlow taken received (collecting n) tx =
      (received ++ ch.contents tx ≡ numbered 0 taken) × Delivers ch tx
  OutFlow taken received (ended outcome) tx = IsPrefix received (numbered 0 taken)

  pub record InvAt (p : Progress) (m : Main) (rx tx : ch.Chan) (count : ℕ) (results : texts.Chan)
      : Type 0 where
    pub taken : List EchoMsg
    pub received : List EchoMsg
    pub inflow : InFlow taken m p rx
    pub outflow : OutFlow taken received p tx
    pub tally : Tally inputs received p
    pub counted : count ≡ count_of 0 taken
    pub passed_on : map body_of received ≡ gathered m ++ texts.contents results
    pub delivering : Delivers texts results

  abbrev pub Inv : {gate : Gate} → System gate ch texts → Type 0
  Inv s = InvAt s.feeder s.main s.service.rx s.service.tx (echoed s.service) s.results
