-- ===== src/Retrier/Backoff.antt =====
-- retrier.go, waitRetry: the pause before the next attempt.
use go_again.Prelude.{
  ℕ, ℤ, pos, ◌+ℤ◌, leb_ℤ, wrap64, Option, none, some, Outcome, done, panicked, ◌>>=◌, if◌then◌else◌,
  [], ◌∷◌,
}
use go_again.Runtime.{Runtime, Arg}
use go_again.TimerPool.{Timer, TimerPool, get, put, reset}
use go_again.Retrier.{Retrier}

-- Which case of the select in waitRetry is taken: the caller's context is done, with its Err; the
-- retrier's context is done, with its cause; the timeout timer fires; or the pause is over.
pub data Wake (E : Type 0) : Type 0 where
  ctx_done retrier_done : E → Wake E
  timed_out elapsed : Wake E

module _ {E F : Type 0} (rt : Runtime E F) where
  -- backoffDuration + jitterDuration, with the number that Int64N drew
  unfoldable pub retry_interval : Retrier E F → ℕ → ℕ → ℤ
  retry_interval r attempt drawn =
      let backoff_interval =
        rt.mul (rt.of_int r.interval) (rt.pow r.backoff_factor (rt.of_int (pos attempt))) in
      wrap64 (rt.to_duration backoff_interval +ℤ pos drawn)

  -- The error that waitRetry returns.
  unfoldable pub wait_error : ℕ → E → Wake E → Option E
  wait_error attempt err (ctx_done e) = some (rt.wrap e "context done")
  wait_error attempt err (retrier_done cause) = some (rt.wrap cause "retrier context done")
  wait_error attempt err timed_out =
      some
        (rt.wrapf rt.timeout_reached "attempt %v: %v" (Arg.int (pos attempt) ∷ Arg.error err ∷ []))
  wait_error attempt err elapsed = none

  -- A method call on the timer; through a nil pointer it panics.
  unfoldable pub armed : Option Timer → ℤ → Outcome Timer
  armed none d = panicked
  armed (some t) d = done (reset t d)

  -- waitRetry: the error, the pool with the timer put back, and the pause. `randv2.Int64N` panics
  -- if its argument is not positive.
  unfoldable pub wait_retry :
      Retrier E F → ℕ → E → Wake E → ℕ → TimerPool → Outcome (Option E × TimerPool × ℤ)
  unfolding armed wait_error retry_interval
  wait_retry r attempt err wake drawn pool = if leb_ℤ r.jitter (pos 0) then panicked else do
    (found, lent) ← get pool
    timer ← armed found (retry_interval r attempt drawn)
    back ← put lent timer
    done (wait_error attempt err wake, back, retry_interval r attempt drawn)
