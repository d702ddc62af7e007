-- ===== src/Scheduler.antt =====
-- pkg/scheduler/scheduler.go.
pub mod Query
pub mod Normalize
pub mod Normal
pub mod Default
pub mod Core
pub mod Options
pub mod Execution
pub mod Retrying
pub mod Loops
pub mod InMemory
pub mod Agreement
pub mod Calls
pub mod Recovery
pub mod Filter
pub mod Pages
pub mod Runs
