-- ===== src/TimerPool/Sharing.antt =====
-- Calls of one Retrier that run at the same time and share its pool (retrier.go, Do, DoWithContext
-- and waitRetry). A call takes a timer for its timeout and keeps it to the end; waitRetry takes a
-- second one for the pause. Both are taken with Get, which waits for nothing but the pool.
pub mod Deadlock
pub mod Progress
use go_again.Prelude.{ℕ, suc, ◌<◌, ◌≡◌, List, [], ◌∷◌, ◌++◌, some, Outcome, done}
use go_again.TimerPool.{Timer, TimerPool, get, put}

pub record Shared : Type 0 where
  pub pool : TimerPool
  -- calls that have not started
  pub ready : ℕ
  -- the timeout timers of the calls whose function runs
  pub attempting : List Timer
  -- the timeout timers of the calls that enter waitRetry and have not got their second timer
  pub wanting : List Timer
  -- the timeout timer and the pause timer of the calls that pause
  pub sleeping : List (Timer × Timer)

-- One step of one call; any call may move.
pub data Step (s u : Shared) : Type 0 where
  begin :
      (k : ℕ) (t : Timer) (p : TimerPool)
      → s.ready ≡ suc k
      → get s.pool ≡ done (some t, p)
      → u ≡ record s { pool = p; ready = k; attempting = t ∷ s.attempting }
      → Step s u
  -- the function succeeded, or its error is final
  finish :
      (xs ys : List Timer) (t : Timer) (p : TimerPool)
      → s.attempting ≡ xs ++ t ∷ ys
      → put s.pool t ≡ done p
      → u ≡ record s { pool = p; attempting = xs ++ ys }
      → Step s u
  -- the function failed with an error to retry, and MaxRetries, the capacity less 1, is not 0
  fail :
      (xs ys : List Timer) (t : Timer)
      → s.attempting ≡ xs ++ t ∷ ys
      → 1 < s.pool.capacity
      → u ≡ record s { attempting = xs ++ ys; wanting = t ∷ s.wanting }
      → Step s u
  pause :
      (xs ys : List Timer) (t v : Timer) (p : TimerPool)
      → s.wanting ≡ xs ++ t ∷ ys
      → get s.pool ≡ done (some v, p)
      → u ≡ record s { pool = p; wanting = xs ++ ys; sleeping = (t, v) ∷ s.sleeping }
      → Step s u
  -- the pause is over
  retry :
      (xs ys : List (Timer × Timer)) (t v : Timer) (p : TimerPool)
      → s.sleeping ≡ xs ++ (t, v) ∷ ys
      → put s.pool v ≡ done p
      → u ≡ record s { pool = p; sleeping = xs ++ ys; attempting = t ∷ s.attempting }
      → Step s u
  -- a context or the timeout ends the pause and the call
  abort :
      (xs ys : List (Timer × Timer)) (t v : Timer) (p q : TimerPool)
      → s.sleeping ≡ xs ++ (t, v) ∷ ys
      → put s.pool v ≡ done p
      → put p t ≡ done q
      → u ≡ record s { pool = q; sleeping = xs ++ ys }
      → Step s u

pub data Reach : Shared → Shared → Type 0 where
  here : {s : Shared} → Reach s s
  next : {s t u : Shared} → Step s t → Reach t u → Reach s u

-- `n` calls about to start on a pool.
abbrev pub start : ℕ → TimerPool → Shared
start n p = record { pool = p; ready = n; attempting = []; wanting = []; sleeping = [] }
