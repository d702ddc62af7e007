-- ===== src/Examples/Execution.antt =====
-- An execution whose policy has a status code and a temporary error.
use go_again.Prelude.{
  ℕ, ◌≡◌, ◌==◌, ◌&&◌, ◌||◌, pos, pos_part, [], ◌∷◌, none, some, true, not, if◌then◌else◌, length,
  wrap64, any_of, refl, done,
}
use go_again.Registry.{Registry}
use go_again.Retrier.{default_retrier}
use go_again.Retrier.Loop.{should_retry}
use go_again.Storage.{RetryPolicy}
use go_again.Scheduler.Execution.{
  new_execution_state, Body, answered, read_body, build_temporary_errors, attempt,
}
use go_again.Scheduler.Retrying.{should_retry-build}
use go_again.Examples.Errors.{numbers}
use go_again.Examples.Jobs.{hourly}

abbrev policy : RetryPolicy ℕ ℕ
policy = record { retrier = none; temporary_errors = 40 ∷ []; retry_status_codes = pos 503 ∷ [] }

abbrev known : Registry ℕ
known = record { storage = 41 ∷ [] }

should_retry-build_example :
    should_retry numbers (some known) 41 (
      build_temporary_errors numbers
        (record (default_retrier numbers) { registry = some known })
        policy)
    ≡ done (
        if (length policy.retry_status_codes == 0)
          && (length policy.temporary_errors == 0)
          && (length known.storage == 0)
        then true
        else (not (length policy.retry_status_codes == 0) && numbers.is 41 numbers.retryable_status)
          || any_of (numbers.is 41) policy.temporary_errors
          || any_of (numbers.is 41) known.storage)
should_retry-build_example = should_retry-build numbers (default_retrier numbers) known policy 41

abbrev long : Body ℕ
long = record { content = 1 ∷ 2 ∷ 3 ∷ []; read_error = none; drain_error = some 42 }

kept_of_long : (read_body numbers long true (pos 2)).0 ≡ 1 ∷ 2 ∷ []
unfolding read_body wrap64
kept_of_long = refl

-- A 404 is the error of the attempt, and the response is kept without its body: there is no callback.
not_found :
    attempt numbers (λ code. pos_part code) hourly (answered (pos 404) long) new_execution_state
    ≡ (record { attempts = 1; last_status = pos 404; last_body = [] }, some 404)
unfolding attempt
not_found = refl
