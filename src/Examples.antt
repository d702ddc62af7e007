-- ===== src/Examples.antt =====
-- The theorems at concrete inputs, and tests of the definitions.
mod Pool
mod Errors
mod Calls
mod Jobs
mod Queries
mod Scheduling
mod Sqlite
mod Pruning
mod Loops
mod Execution
