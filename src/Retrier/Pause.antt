-- ===== src/Retrier/Pause.antt =====
-- retrier.go, waitRetry: how long it pauses, and what it returns.
use go_again.Prelude.{ℕ, ◌*◌, ◌^◌, ◌<◌, pos, ◌≡◌, refl, Option, none, some, [], ◌∷◌}
use go_again.Runtime.{Runtime, Arg}
use go_again.TimerPool.{TimerPool}
use go_again.Retrier.{Retrier}
use go_again.Retrier.Backoff.{Wake, ctx_done, retrier_done, timed_out, elapsed, wait_error}

-- float64 arithmetic on whole numbers is exact as long as the result needs no more than 53 bits.
pub record IsExact {E F : Type 0} (rt : Runtime E F) : Type 0 where
  pub product :
      (m b k : ℕ)
      → 0 < m
      → m * b ^ k < 2 ^ 53
      → rt.to_duration (rt.mul (rt.of_int (pos m)) (rt.pow (rt.of_int (pos b)) (rt.of_int (pos k))))
        ≡ pos (m * b ^ k)

module _ {E F : Type 0} (rt : Runtime E F) where
  -- What a pause after an attempt ends with, by what ends it.
  abbrev pub pause_error : ℕ → E → Wake E → Option E
  pause_error k err (ctx_done cause) = some (rt.wrap cause "context done")
  pause_error k err (retrier_done cause) = some (rt.wrap cause "retrier context done")
  pause_error k err timed_out =
      some (rt.wrapf rt.timeout_reached "attempt %v: %v" (Arg.int (pos k) ∷ Arg.error err ∷ []))
  pause_error k err elapsed = none

  pub wait_error_lem : (k : ℕ) (err : E) (w : Wake E) → wait_error rt k err w ≡ pause_error k err w
  unfolding wait_error
  wait_error_lem k err (ctx_done cause) = refl
  wait_error_lem k err (retrier_done cause) = refl
  wait_error_lem k err timed_out = refl
  wait_error_lem k err elapsed = refl
