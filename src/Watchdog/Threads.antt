-- ===== src/Watchdog/Threads.antt =====
-- examples/watchdog/src/main.rs: `run_live` beside the receive loop of its transport, one call on the
-- outbound channel at a time, in any interleaving. What the sending thread of the transport does to
-- the inbound channel is the interference of each iteration, and any is allowed.
pub mod Recording
pub mod Flow
pub mod Forwarding
pub mod Iterating
pub mod Outcome
use Prim.Native.String.{◌++◌}
use msrs.Shared.{ℕ, suc, List, [], ◌∷◌, String, Result, ok, err, length}
use msrs.Shared.{◌++◌ as append}
use msrs.Copper.{CuMsg, CuResult, Clock}
use msrs.Channel.{Channel}
use msrs.Channel.Drain.{drain, quiet}
use msrs.Fsm.Batch.{Batch}
use msrs.Tasks.{Cycle}
use msrs.Watchdog.{Feed, Alarm, Gate, default}
use msrs.Watchdog.Service.{CopperList, Turn, WatchdogService, run_one_iteration, Results}

-- Where the driver thread is in `Pulse::run`: in the loop, at `feeder.join()`, or at its end.
pub data Forwarder : Type 0 where
  forwarding : Forwarder
  at_feeder : Forwarder
  ended : Result String (Unit {0}) → Forwarder

-- Where `run_live` is: in the loop, at `handles.join.join()`, at its end, or in a panic.
pub data Main : Type 0 where
  iterating : Main
  joining : Main
  came_back : List Alarm → Main
  panicked : String → Main

module _ (gate : Gate) (ch : Channel Feed) (out results : Channel Alarm) (clock : Clock)
    (cycles : CuMsg (Cycle Feed)) (alarms : CuMsg (Batch Alarm)) where
  -- `log` is what copper has logged.
  pub record System : Type 0 where
    pub forwarder : Forwarder
    pub main : Main
    pub service : WatchdogService gate ch out
    pub collected : results.Chan
    pub log : List (CopperList cycles alarms)

  -- The thread ends, and drops the receiver of the outbound channel.
  unfoldable pub leave : Result String (Unit {0}) → System → System
  leave outcome s = record s {
    forwarder = ended outcome;
    service = record (s.service) { tx = out.drop_receiver s.service.tx };
  }

  -- `self.results.send(alarm)?`.
  unfoldable pub forward_one : Alarm → System → System
  unfolding leave
  forward_one alarm s =
      let (sent, collected) = results.send s.collected alarm in
      let s' = record s { collected = collected } in
      elim sent [ ok _ ↦ s' | err e ↦ leave (err e) s' ]

  -- `recv` on an empty channel waits while the application lives, and fails once it is dropped.
  unfoldable pub recv_empty : Main → System → System
  recv_empty iterating s = s
  recv_empty joining s = record s { forwarder = at_feeder }
  recv_empty (came_back live) s = record s { forwarder = at_feeder }
  recv_empty (panicked text) s = record s { forwarder = at_feeder }

  -- One round of the receive loop.
  unfoldable pub receive_one : System → System
  unfolding forward_one recv_empty
  receive_one s =
      let (received, tx) = out.try_recv s.service.tx in
      let s' = record s { service = record (s.service) { tx = tx } } in
      elim received [ ok alarm ↦ forward_one alarm s' | err _ ↦ recv_empty s.main s' ]

  unfoldable pub forwarder_at : Forwarder → System → System
  unfolding receive_one leave
  forwarder_at forwarding s = receive_one s
  forwarder_at at_feeder s = leave (ok tt) s
  forwarder_at (ended outcome) s = s

  -- The driver thread moves. The sending thread never panics, so `feeder.join()` comes back.
  unfoldable pub forwarder_step : System → System
  unfolding forwarder_at
  forwarder_step s = forwarder_at s.forwarder s

  -- A panic of `run_live` drops the application and the receiver of the alarms.
  unfoldable pub unwind : String → System → System
  unwind text s = record s {
    main = panicked text;
    service = record (s.service) { rx = ch.drop_receiver s.service.rx };
    collected = results.drop_receiver s.collected;
  }

  -- What an iteration comes to: an error of a task is `expect`ed away, and a copperlist is logged.
  unfoldable pub log_one :
      CopperList cycles alarms → Results gate ch out clock cycles alarms → System → System
  unfolding unwind
  log_one cl (ok _, ok _) s = record s { log = append s.log (cl ∷ []) }
  log_one cl (ok _, err e) s = unwind ("run_one_iteration failed: " ++ e) s
  log_one cl (err e, _) s = unwind ("run_one_iteration failed: " ++ e) s

  unfoldable pub iterate : Turn ch clock cycles alarms → System → System
  unfolding log_one
  iterate t s =
      let (service, cl, outcome) = run_one_iteration gate ch out clock cycles alarms s.service t in
      log_one cl outcome (record s { service = service })

  unfoldable pub iterate_at : Main → Turn ch clock cycles alarms → System → System
  unfolding iterate
  iterate_at iterating t s = iterate t s
  iterate_at joining t s = s
  iterate_at (came_back live) t s = s
  iterate_at (panicked text) t s = s

  -- The end of the loop, by what `stop_all_tasks` answers: the application is dropped.
  unfoldable pub stop_by : CuResult (Unit {0}) → System → System
  unfolding unwind
  stop_by (ok _) s = record s {
    main = joining;
    service = record (s.service) { rx = ch.drop_receiver s.service.rx };
  }
  stop_by (err e) s = unwind ("stop_all_tasks failed: " ++ e) s

  -- The loop ends whenever the time has passed.
  unfoldable pub stop_at : CuResult (Unit {0}) → Main → System → System
  unfolding stop_by
  stop_at stopped iterating s = stop_by stopped s
  stop_at stopped joining s = s
  stop_at stopped (came_back live) s = s
  stop_at stopped (panicked text) s = s

  -- `res_rx.try_iter().collect()`: no more than what is queued comes out.
  unfoldable pub try_iter : results.Chan → List Alarm
  try_iter c = (drain results (suc (results.len c)) (quiet results) 0 c).0

  -- `handles.join.join()` waits for the thread's end, and then the alarms are collected.
  unfoldable pub join_at : Main → Forwarder → System → System
  unfolding try_iter
  join_at joining (ended outcome) s = record s { main = came_back (try_iter s.collected) }
  join_at joining forwarding s = s
  join_at joining at_feeder s = s
  join_at iterating f s = s
  join_at (came_back live) f s = s
  join_at (panicked text) f s = s

  -- When the runtime is built, with the cap that its ingress task has, and these ends.
  unfoldable pub start_on : ch.Chan → out.Chan → ℕ → System
  start_on rx tx max_batch = record {
    forwarder = forwarding;
    main = iterating;
    service = record {
      ingress = record { rx = tt; max_batch = max_batch };
      task = record { machine = default gate };
      rx = rx;
      tx = tx;
      next = 0;
    };
    collected = results.unbounded;
    log = [];
  }

  -- On two fresh channels.
  unfoldable pub start : ℕ → System
  unfolding start_on
  start max_batch = start_on ch.unbounded out.unbounded max_batch

  -- `stopped` is what `stop_all_tasks` answers.
  pub data Step (stopped : CuResult (Unit {0})) (s : System) : System → Type 0 where
    forwards : Step stopped s (forwarder_step s)
    iterates : (t : Turn ch clock cycles alarms) → Step stopped s (iterate_at s.main t s)
    stops : Step stopped s (stop_at stopped s.main s)
    joins : Step stopped s (join_at s.main s.forwarder s)

  pub data Reach (max_batch : ℕ) (stopped : CuResult (Unit {0})) : System → Type 0 where
    at_start : Reach max_batch stopped (start max_batch)
    later :
        {s t : System} → Reach max_batch stopped s → Step stopped s t → Reach max_batch stopped t
