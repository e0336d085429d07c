-- ===== src/Execute.antt =====
-- internal/execute: running the mutants.
pub mod Testlog
pub mod Attempts
pub mod Narrowing
pub mod Processes
pub mod Running
pub mod Schedule
pub mod Retry
