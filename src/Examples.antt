-- ===== src/Examples.antt =====
-- Concrete instances of the interfaces, and every theorem at an input where its hypotheses hold.
pub mod Plain
mod Log
mod Fsm
mod Replay
mod Watchdog
mod Registry
mod Tasks
pub mod Rt
mod Echo
mod Threads
mod WatchdogService
mod WatchdogThreads
mod Spike
mod SetUp
