-- ===== src/UnitTests.antt =====
-- The repository's own unit tests, run on the definitions: each test is its sequence of assertions,
-- which panic where they fail, and the theorem after it says that none does.
mod Core
mod FsmTask
mod Replay
mod Registry
mod Tasks
mod Driver
mod Watchdog
mod Echo
pub mod Assert
