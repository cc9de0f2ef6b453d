-- ===== src/Lib.antt =====
-- msrs: deterministic state machines on the copper runtime, fed by transport threads. A service is a
-- machine (FsmSpec) that reacts to a trigger, a tick or a message, by changing its own store and
-- emitting into a buffer. Adapters run it inside copper's task graph; ingress and egress tasks move
-- messages between the graph and the channels of a driver thread, which they find in a registry; and
-- a replay gate runs a recorded log through a fresh machine and compares the outputs.
--
-- The files, and the code that each is about:
--   Copper, Statig, Channel: what the code uses of copper, of statig and of crossbeam-channel, none of
--     which is in the repository: interfaces whose laws are the documented behaviour of those crates.
--     Channel.Queue is a channel that meets its interface, Examples.Plain has the other instances.
--   Trigger, Effects: crates/msrs-core/src/trigger.rs and effects.rs, the input and the output of a step.
--     The buffer is a list; a drain returns the list and the empty buffer.
--   Fsm: crates/msrs-core/src/fsm_task.rs. FsmSpec, run_step and run_step_all (Fsm), trigger_for
--     (Fsm.Adapter), FsmTask (Fsm.Task) and FsmBatchTask (Fsm.Batch). A machine that code mutates is
--     passed in and returned; a panic is a value (Checked). A call of process leaves a record of the
--     task, the output slot, the clock's context and the result.
--   Replay: crates/msrs-core/src/replay.rs. The gate (Replay), and the log reader (Replay.Log).
--   Rt: crates/msrs-core/src/rt.rs. The state of the current thread is passed through.
--   Registry: crates/msrs-transport/src/registry.rs. The map with its lock; a guard is the field `held`,
--     and a panic with a guard alive poisons the lock.
--   Channel.Drain, Tasks: crates/msrs-transport/src/tasks.rs. The step helpers (Tasks), IngressTask
--     (Tasks.Ingress), CycleIngressTask (Tasks.CycleIngress), both sinks (Tasks.Egress). One value stands
--     for both ends of a channel; the other thread's part is an interference that may act before each
--     call of the task on the channel; time passes on its own, and CycleIngressTask reads the clock as it
--     stands after so many of these calls.
--   Watchdog: examples/watchdog/src/watchdog.rs, and its specification examples/watchdog/SPEC.md as a
--     function on a state and a time (Watchdog.Spec).
--   Driver: crates/msrs-transport/src/driver.rs and transport.rs. A spawned thread is a function of its
--     initial state.
--   Echo: examples/echo/src/echo.rs; Echo.Feeder and Echo.Service: examples/echo/src/main.rs, its
--     transport, the iterations of its DAG, reading back and replay.
--   Echo.Threads: examples/echo/src/main.rs, run_live and its driver thread as two threads of calls on
--     their channels, in any interleaving. A wait that ends empty-handed is a move like any other.
--   Echo.SetUp, Watchdog.SetUp: the two run_live up to their loops, over the registry with the two task
--     types of a service (Tasks.Ends). The channels that a driver makes are arguments, so that one can
--     be told from another. What stop_all_tasks answers is an argument of Echo.Threads' main_step and of
--     Watchdog.Threads' Reach.
--   Watchdog.Service: examples/watchdog/src/main.rs, the iterations of its DAG, reading back
--     and replay, and its negative control.
--   Echo.Main, Watchdog.Main: the two mains, with the checks that they make on a
--     live run and on what is read back, and the lines that they print (Shared.Printing).
--   Watchdog.Pulse, Watchdog.Threads: examples/watchdog/src/main.rs, the sending thread of its transport,
--     and run_live and the transport's receive loop as two threads, in any interleaving.
--   Spike: spike/src/main.rs, its counting source, its sink, its two-state machine, and its main with the
--     lines that it prints.
--   UnitTests: the unit tests of both crates and of the two examples, run on these definitions.
--
-- Numbers and fuel: u64, u32 and usize are natural numbers. Additions that can wrap are written with
-- their modulus (next_id and the next_count of Echo, 2^64; the next_count of Spike, 2^32), as a release
-- build computes them; saturating_sub is the subtraction of natural numbers. The log readers run on
-- fuel, one unit for each byte left and one for the end, and enough for every log.
--
-- Not modelled: copper's runtime and the code its macros generate (an iteration is the tasks in the order
-- of the DAG), freezing of tasks other than the spike's counter,
-- sleeps and elapsed time, and the removal of old logs.
-- A live run that the code ends by a clock may end after any iteration; a wait with a deadline may end
-- with nothing at any moment when nothing is there.
pub mod Shared
pub mod Copper
pub mod Trigger
pub mod Effects
pub mod Fsm
pub mod Channel
pub mod Registry
pub mod Tasks
pub mod Replay
pub mod Statig
pub mod Watchdog
pub mod Rt
pub mod Driver
pub mod Echo
pub mod Spike
pub mod Examples
pub mod UnitTests
