-- ===== src/Examples/Errors.antt =====
-- The registry, the validation and the lifecycle of a retrier, over errors that are numbers.
use go_again.Prelude.{
  ℕ, ◌+◌, ◌*◌, ◌^◌, inr, ◌<◌, ◌≡◌, ◌↔◌, refl, pos, ◌<ℤ◌, pos_part, [], ◌∷◌, none, some, true, ◌==◌,
  leb, done, arith, wrap64,
}
use go_again.Runtime.{Runtime, Unwraps}
use go_again.Registry.{Registry, register_temporary_errors, unregister_temporary_errors}
use go_again.Registry.Membership.{unregister-register}
use go_again.TimerPool.{TimerPool}
use go_again.TimerPool.Invariant.{Holds}
use go_again.Retrier.{
  Retrier, validate, default_retrier, configured, new_retrier, set_registry, apply_options,
}
use go_again.Retrier.Validation.{
  Accepts, validate_iff, validate_product, validate_overflow, new_retrier_lem,
}
use go_again.Retrier.Lifecycle.{
  cancels, stops, sets, cancel, stop, run, cause_of, first_stop_decides, first_registry_stays,
}

-- Errors are numbers, a wrapper adds nothing, and a float is a whole number.
abbrev pub numbers : Runtime ℕ ℕ
numbers = record {
  is = λ e t. e == t;
  wrap = λ e m. e;
  wrapf = λ e m xs. e;
  new = λ m. 99;
  invalid_retrier = 1;
  max_retries_reached = 2;
  timeout_reached = 3;
  operation_stopped = 4;
  nil_retryable_func = 5;
  invalid_job = 21;
  storage_operation = 22;
  scheduler_stopped = 23;
  unsupported_method = 24;
  retryable_status = 25;
  job_already_exists = 26;
  deadline_exceeded = 6;
  handler_timeout = 7;
  server_closed = 8;
  net_closed = 9;
  write_to_connected = 10;
  of_int = λ n. pos_part n;
  mul = λ x y. x * y;
  pow = λ x y. x ^ y;
  le_one = λ x. leb x 1;
  to_duration = λ x. pos x;
}

eq_self : (e : ℕ) → (e == e) ≡ true
eq_self e = ground arith

pub numbers-Unwraps : Unwraps numbers
numbers-Unwraps = record { is_refl = eq_self; is-wrap = λ e t m h. h; is-wrapf = λ e t m xs h. h }

abbrev pub one_error : Registry ℕ
one_error = record { storage = 40 ∷ [] }

unregister-register_example :
    unregister_temporary_errors numbers
      (register_temporary_errors numbers one_error (41 ∷ 42 ∷ []))
      (41 ∷ 42 ∷ [])
    ≡ one_error
unregister-register_example =
    unregister-register numbers one_error (41 ∷ 42 ∷ []) eq_self ((refl, tt), ((refl, tt), tt))

validate_iff_example :
    ((validate numbers (default_retrier numbers) ≡ none)
      ↔ Accepts numbers (default_retrier numbers))
    × ((e : ℕ)
        → validate numbers (default_retrier numbers) ≡ some e
        → numbers.is e numbers.invalid_retrier ≡ true)
validate_iff_example = validate_iff numbers (default_retrier numbers) numbers-Unwraps

default_accepted : validate numbers (default_retrier numbers) ≡ none
unfolding validate default_retrier wrap64
default_accepted = refl

validate_product_example : pos (500000000 * 5) <ℤ pos 20000000000
unfolding default_retrier
validate_product_example =
    validate_product numbers (default_retrier numbers) 500000000 5 refl refl (omega arith)
      default_accepted

-- One day between the attempts, two days in all, and 120000 retries.
abbrev patient : Retrier ℕ ℕ
unfolding default_retrier
patient = record (default_retrier numbers) {
  interval = pos 86400000000000;
  max_retries = pos 120000;
  timeout = pos 172800000000000;
}

validate_overflow_example :
    (validate numbers patient ≡ none) × (172800000000000 < 86400000000000 * 120000)
unfolding default_retrier
validate_overflow_example =
    validate_overflow numbers patient 86400000000000 120000 172800000000000 refl refl refl
      (omega arith) (omega arith) (omega arith) (omega arith) refl (omega arith) (omega arith)

new_retrier_lem_example :
    (pool : TimerPool) × (new_retrier numbers none []
      ≡ done (
        record (configured numbers []) { timer = some pool; ctx = some (record { cause = none }) },
        none,
      ))
    × Holds (5 + 1) (5 + 1) pool
    × (pool.duration ≡ (configured numbers []).timeout)
unfolding default_retrier apply_options validate wrap64
new_retrier_lem_example = (new_retrier_lem numbers none []).1 refl (omega arith)

first_stop_decides_example :
    (cause_of (run numbers (cancel numbers (default_retrier numbers)) (stops ∷ cancels ∷ []))
      ≡ some 4)
    × (cause_of (run numbers (stop numbers (default_retrier numbers)) (stops ∷ cancels ∷ []))
        ≡ some 4)
unfolding default_retrier
first_stop_decides_example =
    first_stop_decides numbers (default_retrier numbers) (stops ∷ cancels ∷ []) refl refl
      (inr (refl, refl))

first_registry_stays_example :
    (set_registry numbers (default_retrier numbers) none
      ≡ (default_retrier numbers, some (numbers.new "registry cannot be nil")))
    × ((run numbers
          (default_retrier numbers)
          (sets none ∷ sets (some one_error) ∷ cancels ∷ [])).registry
        ≡ some one_error)
    × ((set_registry numbers
          (run numbers (default_retrier numbers) (sets (some one_error) ∷ []))
          (some one_error)).1
        ≡ none)
unfolding default_retrier
first_registry_stays_example =
    first_registry_stays numbers (default_retrier numbers) one_error one_error (cancels ∷ []) refl
