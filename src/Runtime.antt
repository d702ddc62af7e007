-- ===== src/Runtime.antt =====
-- What the module takes from outside the repository: error values with Go's `errors.Is` and the
-- wrappers of github.com/hyp3rd/ewrap, the sentinel errors, and `float64`. All of it is a parameter.
use go_again.Prelude.{String, ℤ, List, Bool, true, ◌≡◌}

-- An argument of a format string; `%v`, `%d`, `%s` and `%f` are not spelled out.
pub data Arg (E F : Type 0) : Type 0 where
  int : ℤ → Arg E F
  float : F → Arg E F
  error : E → Arg E F
  text : String → Arg E F

-- `E` is Go's `error` without nil, `F` is `float64`.
pub record Runtime (E F : Type 0) : Type 0 where
  -- errors.Is(err, target)
  pub is : E → E → Bool
  -- ewrap.Wrap(err, msg), ewrap.Wrapf(err, format, args...) and ewrap.New(msg)
  pub wrap : E → String → E
  pub wrapf : E → String → List (Arg E F) → E
  pub new : String → E
  -- retrier.go
  pub invalid_retrier : E
  pub max_retries_reached : E
  pub timeout_reached : E
  pub operation_stopped : E
  pub nil_retryable_func : E
  -- pkg/scheduler/errors.go and storage.go
  pub invalid_job : E
  pub storage_operation : E
  pub scheduler_stopped : E
  pub unsupported_method : E
  pub retryable_status : E
  pub job_already_exists : E
  -- context, net/http and net
  pub deadline_exceeded : E
  pub handler_timeout : E
  pub server_closed : E
  pub net_closed : E
  pub write_to_connected : E
  -- float64(n), x * y, math.Pow(x, y), x <= 1 and time.Duration(x)
  pub of_int : ℤ → F
  pub mul : F → F → F
  pub pow : F → F → F
  pub le_one : F → Bool
  pub to_duration : F → ℤ

-- What the documentation of `errors` and `ewrap` promises: an error is itself, and a wrapper unwraps
-- to the error that it was given.
pub record Unwraps {E F : Type 0} (rt : Runtime E F) : Type 0 where
  pub is_refl : (e : E) → rt.is e e ≡ true
  pub is-wrap : (e t : E) (m : String) → rt.is e t ≡ true → rt.is (rt.wrap e m) t ≡ true
  pub is-wrapf :
      (e t : E) (m : String) (xs : List (Arg E F))
      → rt.is e t ≡ true
      → rt.is (rt.wrapf e m xs) t ≡ true
