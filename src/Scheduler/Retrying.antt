-- ===== src/Scheduler/Retrying.antt =====
-- Which errors of an execution are retried, and how much of a body is kept.
use go_again.Prelude.{
  ℕ, zero, suc, negsuc, ◌==◌, ltb, ℤ, pos, List, [], ◌∷◌, ◌++◌, Bool, true, not, ◌&&◌, ◌||◌, some,
  if◌then◌else◌, length, any_of, ◌≡◌, refl, ap, ◌∙◌, arith, any_of-append, done,
}
use go_again.Runtime.{Runtime}
use go_again.Registry.{Registry, len, list_temporary_errors, is_temporary_error}
use go_again.Retrier.{Retrier}
use go_again.Retrier.Loop.{should_retry, registry_decides}
use go_again.Storage.{RetryPolicy}
use go_again.Scheduler.Execution.{policy_errors, registry_errors, build_temporary_errors}

module _ {E F : Type 0} (rt : Runtime E F) where
  any_of-registry_errors :
      (p : E → Bool) (storage : List E)
      → any_of p (registry_errors rt (some (record { storage = storage }))) ≡ any_of p storage
  unfolding registry_errors len list_temporary_errors
  any_of-registry_errors p [] = refl
  any_of-registry_errors p (x ∷ xs) = ground arith

  decided :
      (reg : Registry E) (err : E) (temp : List E)
      → registry_decides rt reg err
          (if ltb 0 (length temp) then temp ++ registry_errors rt (some reg) else temp)
        ≡ (if (length temp == 0) && (len rt reg == 0)
            then true
            else any_of (rt.is err) temp || any_of (rt.is err) reg.storage)
  unfolding registry_decides is_temporary_error list_temporary_errors
  decided reg err [] = ground arith
  decided reg err (t ∷ ts) = ground (
    arith,
    any_of-append (rt.is err) ts (registry_errors rt (some reg)),
    any_of-registry_errors (rt.is err) reg.storage,
  )

  no_policy_errors :
      (policy : RetryPolicy E F)
      → (length (policy_errors rt policy) == 0)
        ≡ ((length policy.retry_status_codes == 0) && (length policy.temporary_errors == 0))
  unfolding policy_errors
  no_policy_errors policy = ground arith

  any_of-policy_errors :
      (p : E → Bool) (policy : RetryPolicy E F)
      → any_of p (policy_errors rt policy) ≡ (
          (not (length policy.retry_status_codes == 0) && p rt.retryable_status)
          || any_of p policy.temporary_errors)
  unfolding policy_errors
  any_of-policy_errors p policy = ground arith

  -- The errors that execute gives to its retrier have it retry an error exactly if it is, or wraps, a
  -- temporary error of the policy, ErrRetryableStatus where the policy has status codes, or an error
  -- of the registry; and every error where the policy and the registry have none.
  pub should_retry-build :
      (retrier : Retrier E F) (reg : Registry E) (policy : RetryPolicy E F) (err : E)
      → should_retry rt
          (some reg)
          err
          (build_temporary_errors rt (record retrier { registry = some reg }) policy)
        ≡ done (
            if (length policy.retry_status_codes == 0)
              && (length policy.temporary_errors == 0)
              && (length reg.storage == 0)
            then true
            else (not (length policy.retry_status_codes == 0) && rt.is err rt.retryable_status)
              || any_of (rt.is err) policy.temporary_errors
              || any_of (rt.is err) reg.storage)
  unfolding should_retry build_temporary_errors len
  should_retry-build retrier reg policy err =
      ap (λ b. done b)
        (decided reg err (policy_errors rt policy)
          ∙ ground (arith, no_policy_errors policy, any_of-policy_errors (rt.is err) policy))

-- What README.md says of MaxBodyBytes: itself where it is positive, and else the default, 4096.
abbrev pub most_bytes : ℤ → ℕ
most_bytes (pos zero) = 4096
most_bytes (pos (suc n)) = suc n
most_bytes (negsuc n) = 4096
