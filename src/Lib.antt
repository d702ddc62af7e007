-- ===== src/Lib.antt =====
-- go-again is a retry helper (package again, in retrier.go, options.go, registry.go and timer.go) and a
-- job scheduler built on it (pkg/scheduler). This library models both and proves what they do.
--
-- Parts, and where they are modelled:
-- - Runtime: what the program takes from elsewhere, as a record of parameters: errors.Is, the wrappers
--   of ewrap, the sentinel errors, and float64 arithmetic. Unwraps has the laws of the wrappers.
-- - Registry (registry.go): the list of temporary errors. Registry/Membership relates its operations.
-- - TimerPool (timer.go): the channel of timers, with a receive that waits and a panic as outcomes.
--   TimerPool/Invariant has its invariant; TimerPool/Sharing is a step relation of several calls of
--   one Retrier on one pool, with its children Deadlock and Progress.
-- - Retrier (retrier.go, options.go): the Retrier, NewRetrier, Validate and ensureInitialized.
--   Retrier/Loop has Do (`retry_do`), DoWithContext (`retry_do_with_context`) and handleAttemptError,
--   Retrier/Backoff waitRetry, Retrier/Lifecycle Cancel, Stop and SetRegistry; the other children are
--   named for what they prove of these.
-- - Storage (pkg/scheduler/types.go and storage.go): the data of the scheduler; Storage/Memory has the
--   methods of InMemoryJobsStorage over the maps of Storage/Map, and Storage/Operations, History, Reuse
--   and Listing what holds of them.
-- - Storage/Sqlite (pkg/scheduler/storage_sqlite.go): the rows, the retention options and what is taken
--   from database/sql (`Database`, a function for each SQL statement) and from the JSON package
--   (`Codec`). Sqlite/Records has the transactions and their steps, Sqlite/Methods the methods that
--   write and prune, Sqlite/Queries those that read, Sqlite/Setup how it is opened. Sqlite/Laws says
--   what SQLite does to its tables and Sqlite/Promises when nothing fails; the other children are
--   proofs: Errors and Atomic on the error paths, RowCounts, Returned, Pruning and Retention on pruning, and the
--   rest, up to Agreement, on the tables that stand for an in-memory storage.
-- - Scheduler (pkg/scheduler/scheduler.go): Scheduler/Query has QueryJobStatuses and QueryJobHistory,
--   with Filter, Pages and Runs on them. Scheduler/Normalize has normalizeJob and its parts, and Normal
--   and Default what it accepts. Scheduler/Core has the Scheduler with Schedule, Remove, Stop,
--   cleanupJob, finalizeJobState and reconcileRecoveredState over a JobsStorage, which
--   Scheduler/InMemory fills; Agreement and Calls have its invariant, and Recovery the start-up.
--   Scheduler/Loops is a step relation of the goroutines of several jobs (runJob, enqueue), of their
--   executions on one semaphore, and of what Remove and Stop do to them meanwhile, and Scheduler/Options has options.go. Scheduler/Execution has one
--   attempt of execute with readBody and buildTemporaryErrors, and Scheduler/Retrying what they mean.
-- - Examples: tests, and each theorem at a concrete input.
--
-- How they interact: a Retrier owns a pool of MaxRetries+1 timers and a registry, which Do and
-- DoWithContext use through Get, Put, Len and IsTemporaryError; a scheduler normalizes
-- a job, keeps it in its own map and, with its status, in a storage, and its queries read what the
-- storage lists.
--
-- State and environment: each operation takes the state and returns the new one. A function that can
-- wait or panic returns an Outcome. What the retried function returns, what ends a wait and what the
-- random generator draws is an argument (`Env`), so the theorems hold for any of it. An integer of 64
-- bits wraps by `wrap64`; a time.Duration is such a number of nanoseconds; an instant is a natural
-- number of nanoseconds with 0 for the zero time.Time. A mutex makes each method of a registry and of
-- a storage one step. A method of the SQLite storage takes one instant for what time.Now returns in it,
-- also in RecordExecutionResult, which reads the clock a second time where MaxAge is set.
--
-- An IEEE comparison is a parameter too: the test of Validate on BackoffFactor is `le_one`, which is
-- false for a NaN. ResponseBody is a text; bytes that are no UTF-8, which readBody leaves where it cuts
-- a body inside a character and which JSON replaces, are left out.
--
-- Fuel: the loops of Do and DoWithContext run over the rounds that the test of the loop lets through,
-- MaxRetries+1 of them, so no bound is assumed. The loop of a job has no fuel: it is a relation.
--
-- Not modelled: logging; a retried function that panics; DoWithResult and Errors.Join, which wrap Do and
-- errors.Join; execute around its attempts; HTTP requests and callbacks (sendCallback), which are
-- calls of net/http; the examples and the tests of the repository.
pub mod Prelude
pub mod Runtime
pub mod Registry
pub mod TimerPool
pub mod Retrier
pub mod Storage
pub mod Scheduler
pub mod Examples
