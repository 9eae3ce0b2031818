-- ===== src/Log.antt =====
-- src/log.rs: the logger. Its state is one record; the mutex and the atomics are taken as taking
-- turns. The json text of an event, base64, the hint of a message and whether a file opens are the
-- fields of `Outside`. The console, the clock's text and `run_dir` are not modelled.
pub mod State
pub mod Events
pub mod Budget
pub mod Keys
pub mod Raw
pub mod Recorded
pub mod Runs
pub mod Lines
pub mod Summary
pub mod Counters
pub mod Calls
mod Tests
