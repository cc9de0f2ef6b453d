-- ===== src/Echo/Threads.antt =====
-- examples/echo/src/main.rs: `run_live` beside the driver thread, one call on a channel at a time, in
-- any interleaving. `Echo.Feeder` has the transport as a whole, and `Echo.Service` the iterations.
pub mod Numbered
pub mod Flow
pub mod Feeding
pub mod Collecting
pub mod Iterating
pub mod Moves
pub mod Order
pub mod Starved
use Prim.Native.String.{◌++◌}
use msrs.Shared.{
  ℕ, zero, suc, ◌+◌, ◌≡◌, List, [], ◌∷◌, String, Result, ok, err, length, ltb, if◌then◌else◌,
}
use msrs.Shared.{◌++◌ as append}
use msrs.Copper.{CuMsg, CuResult, Clock}
use msrs.Channel.{Channel}
use msrs.Echo.{EchoMsg, Gate, default}
use msrs.Echo.Feeder.{new_msg}
use msrs.Echo.Service.{Turn, EchoService, run_one_iteration}

-- Where the driver thread is in `Feeder::run`: the inputs to send, the echoes to collect, or its end.
pub data Progress : Type 0 where
  feeding : List String → Progress
  collecting : ℕ → Progress
  ended : Result String (Unit {0}) → Progress

-- Where `run_live` is: the iterations left, the echoes gathered, at `join`, at its end, or in a panic.
pub data Main : Type 0 where
  iterating : ℕ → Main
  gathering : List String → Main
  joining : List String → Main
  came_back : List String → Main
  panicked : String → Main

-- Where the end of the loop leads.
abbrev pub after_stop : CuResult (Unit {0}) → Main
after_stop (ok _) = gathering []
after_stop (err e) = panicked ("stop_all_tasks failed: " ++ e)

pub record System (gate : Gate) (ch : Channel EchoMsg) (texts : Channel String) : Type 0 where
  pub feeder : Progress
  pub main : Main
  pub service : EchoService gate ch
  pub results : texts.Chan

module _ {gate : Gate} {ch : Channel EchoMsg} {texts : Channel String} where
  -- The thread ends: the receiver of the outbound channel is dropped with the transport.
  unfoldable pub leave : Result String (Unit {0}) → System gate ch texts → System gate ch texts
  leave outcome s = record s {
    feeder = ended outcome;
    service = record (s.service) { tx = ch.drop_receiver s.service.tx };
  }

  -- `send(..)?` in the first loop, on the inputs that are left.
  unfoldable pub feed_one : String → List String → System gate ch texts → System gate ch texts
  unfolding leave
  feed_one msg msgs s =
      let (sent, rx) = ch.send s.service.rx (new_msg msg) in
      let s' = record s { service = record (s.service) { rx = rx } } in
      elim sent [ ok _ ↦ record s' { feeder = feeding msgs } | err e ↦ leave (err e) s' ]

  -- `self.results.send(echoed.0)?` in the second loop.
  unfoldable pub forward_one : ℕ → EchoMsg → System gate ch texts → System gate ch texts
  unfolding leave
  forward_one n echoed s =
      let (sent, results) = texts.send s.results echoed.body in
      let s' = record s { results = results } in
      elim sent [ ok _ ↦ record s' { feeder = collecting n } | err e ↦ leave (err e) s' ]

  -- One round of the second loop. `recv_timeout` comes back with what is queued; where nothing is, it
  -- has waited until its deadline, and the other threads' steps in the meantime come before this one.
  unfoldable pub collect_one : ℕ → System gate ch texts → System gate ch texts
  unfolding forward_one
  collect_one n s =
      let (received, tx) = ch.try_recv s.service.tx in
      let s' = record s { service = record (s.service) { tx = tx } } in
      elim received [
        | ok echoed ↦ forward_one n echoed s'
        | err _ ↦ leave (err "timed out waiting for echo") s'
      ]

  unfoldable pub feeder_at : List String → Progress → System gate ch texts → System gate ch texts
  unfolding feed_one collect_one leave
  feeder_at inputs (feeding (msg ∷ msgs)) s = feed_one msg msgs s
  feeder_at inputs (feeding []) s = record s { feeder = collecting (length inputs) }
  feeder_at inputs (collecting (suc n)) s = collect_one n s
  feeder_at inputs (collecting zero) s = leave (ok tt) s
  feeder_at inputs (ended outcome) s = s

  -- The driver thread moves.
  unfoldable pub feeder_step : List String → System gate ch texts → System gate ch texts
  unfolding feeder_at
  feeder_step inputs s = feeder_at inputs s.feeder s

  -- The end of the loop, by what `stop_all_tasks` answers: `drop(application)`, or the panic, drops
  -- the tasks with their ends of the channels.
  unfoldable pub stop : CuResult (Unit {0}) → System gate ch texts → System gate ch texts
  stop stopped s = record s {
    main = after_stop stopped;
    service = record (s.service) { rx = ch.drop_receiver s.service.rx };
  }

  -- One round of the loop that collects the echoes, by what `recv_timeout` comes back with.
  unfoldable pub gather_one : List String → System gate ch texts → System gate ch texts
  gather_one live s =
      let (received, results) = texts.try_recv s.results in
      let s' = record s { results = results } in
      elim received [
        | ok v ↦ record s' { main = gathering (append live (v ∷ [])) }
        | err _ ↦ record s' { main = joining live }
      ]

  -- `handles.join.join()` waits for the end of the thread.
  unfoldable pub join_at : List String → Progress → System gate ch texts → System gate ch texts
  join_at live (feeding msgs) s = s
  join_at live (collecting n) s = s
  join_at live (ended outcome) s = record s { main = came_back live }

module _ (gate : Gate) (ch : Channel EchoMsg) (texts : Channel String) (clock : Clock)
    (slot : CuMsg EchoMsg) where
  -- An error of a task is `expect`ed away.
  abbrev pub after_iteration : ℕ → CuResult (Unit {0}) × CuResult (Unit {0}) → Main
  after_iteration n (ok _, ok _) = iterating n
  after_iteration n (ok _, err e) = panicked ("run_one_iteration failed: " ++ e)
  after_iteration n (err e, _) = panicked ("run_one_iteration failed: " ++ e)

  -- The thread's sends are steps of their own, so nothing arrives within an iteration.
  unfoldable pub iterate : ℕ → Turn ch clock slot → System gate ch texts → System gate ch texts
  unfolding run_one_iteration
  iterate n t s =
      let (service, cl, outcome) =
        run_one_iteration gate ch clock slot s.service (record t { arrive = λ c. c }) in
      record s { service = service; main = after_iteration n outcome }

  unfoldable pub main_at :
      List String
      → Main
      → Turn ch clock slot
      → CuResult (Unit {0})
      → System gate ch texts
      → System gate ch texts
  unfolding iterate stop gather_one join_at
  main_at inputs (iterating (suc n)) t a s = iterate n t s
  main_at inputs (iterating zero) t a s = stop a s
  main_at inputs (gathering live) t a s =
      if ltb (length live) (length inputs)
      then gather_one live s
      else record s { main = joining live }
  main_at inputs (joining live) t a s = join_at live s.feeder s
  main_at inputs (came_back live) t a s = s
  main_at inputs (panicked text) t a s = s

  -- The main thread moves; what the clocks read and what the slots held before is any turn's, and
  -- `a` is what `stop_all_tasks` answers where it is called.
  unfoldable pub main_step :
      List String
      → Turn ch clock slot
      → CuResult (Unit {0})
      → System gate ch texts
      → System gate ch texts
  unfolding main_at
  main_step inputs t a s = main_at inputs s.main t a s

  -- When the runtime is built, the thread may have done nothing yet; the tasks have these ends.
  unfoldable pub start_on : ch.Chan → ch.Chan → List String → System gate ch texts
  start_on rx tx inputs = record {
    feeder = feeding inputs;
    main = iterating (length inputs + 3);
    service = record { task = record { machine = default gate }; rx = rx; tx = tx };
    results = texts.unbounded;
  }

  -- On two fresh channels.
  unfoldable pub start : List String → System gate ch texts
  unfolding start_on
  start inputs = start_on ch.unbounded ch.unbounded inputs

  pub data Step (inputs : List String) (s : System gate ch texts)
      : System gate ch texts → Type 0 where
    feeder_moves : Step inputs s (feeder_step inputs s)
    main_moves :
        (t : Turn ch clock slot) (a : CuResult (Unit {0})) → Step inputs s (main_step inputs t a s)

  pub data Reach (inputs : List String) : System gate ch texts → Type 0 where
    at_start : Reach inputs (start inputs)
    later : {s t : System gate ch texts} → Reach inputs s → Step inputs s t → Reach inputs t
