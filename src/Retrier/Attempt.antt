-- ===== src/Retrier/Attempt.antt =====
-- What one failed attempt does, on each branch of handleAttemptError.
use mathlib.Core.Path.{subst, sym}
use go_again.Prelude.{
  ℕ, suc, ◌-◌, ◌<◌, pos, ◌<ℤ◌, leb_ℤ, eq_ℤ, ◌≡◌, refl, ap, ◌∙◌, List, Bool, true, false, some, done,
  arith,
}
use go_again.Runtime.{Runtime}
use go_again.Registry.{Registry}
use go_again.TimerPool.{TimerPool, reset}
use go_again.TimerPool.Invariant.{Holds, get-put}
use go_again.Retrier.{Retrier}
use go_again.Retrier.Validation.{Accepts}
use go_again.Retrier.Backoff.{Wake, wait_retry, wait_error, retry_interval}
use go_again.Retrier.Loop.{
  Env, Run, AttemptOutcome, continues, stops, max_retries, set_last, add_attempt,
  handle_attempt_error, should_retry, registry_decides, after_wait, call_hook,
}

-- The state that an attempt leaves.
abbrev pub run_of : {E : Type 0} → AttemptOutcome E → Run E
run_of (continues s) = s
run_of (stops s) = s
run_of (max_retries s) = s

module _ {E F : Type 0} (rt : Runtime E F) where
  -- waitRetry on a pool that holds a timer returns at once in this model of the select, with the
  -- error of the case that was taken, and puts its timer back.
  pub wait_retry_lem :
      (r : Retrier E F) (attempt : ℕ) (err : E) (wake : Wake E) (drawn c m : ℕ) (pool : TimerPool)
      → pos 0 <ℤ r.jitter
      → Holds c (suc m) pool
      → (back : TimerPool) × (wait_retry rt r attempt err wake drawn pool
          ≡ done (wait_error rt attempt err wake, back, retry_interval rt r attempt drawn))
        × Holds c (suc m) back
  unfolding wait_retry
  wait_retry_lem r attempt err wake drawn c m pool j h =
      let delay = retry_interval rt r attempt drawn in
      let (t, q, back, got, _, returned, hb, _, _) = get-put c m pool (λ t. reset t delay) h in
      let drawable : leb_ℤ r.jitter (pos 0) ≡ false = ground arith in
      (back, rw (drawable, got, returned) refl, hb)

  -- A retrier that a call can be made of: Validate accepts it, its registry is `reg`, and its pool is
  -- open and holds MaxRetries+1 timers.
  pub record Prepared (n : ℕ) (reg : Registry E) (r : Retrier E F) : Type 0 where
    pub accepts : Accepts rt r
    pub retries : r.max_retries ≡ pos n
    pub has_registry : r.registry ≡ some reg
    pub pool : TimerPool
    pub has_pool : r.timer ≡ some pool
    pub holds : Holds (suc n) (suc n) pool

  -- The state in which an attempt with the error `err` is to be repeated, before the wait.
  abbrev pub recorded : Retrier E F → ℕ → E → Run E → Run E
  recorded r attempt err s = call_hook rt r attempt err (add_attempt rt err s)

  recorded_pool :
      (r : Retrier E F) (attempt : ℕ) (err : E) (s : Run E)
      → (recorded r attempt err s).pool ≡ s.pool
  unfolding call_hook
  recorded_pool r attempt err s = ground arith

  module _ {n : ℕ} {reg : Registry E} {r : Retrier E F} (p : Prepared n reg r) (env : Env E)
      (temps : List E) where
    decided :
        (err : E) (b : Bool)
        → registry_decides rt reg err temps ≡ b
        → should_retry rt r.registry err temps ≡ done b
    unfolding should_retry
    decided err b e = ap (λ reg. should_retry rt reg err temps) p.has_registry ∙ ap done e

    -- An error that is not to be retried stops the call and becomes its last error.
    pub attempt_final :
        (attempt : ℕ) (err : E) (s : Run E)
        → registry_decides rt reg err temps ≡ false
        → handle_attempt_error rt r env temps attempt err s
          ≡ done (stops (set_last rt (some err) (add_attempt rt err s)))
    unfolding handle_attempt_error
    attempt_final attempt err s final = rw (decided err false final) refl

    -- On the last attempt the loop is left.
    pub attempt_last :
        (err : E) (s : Run E)
        → registry_decides rt reg err temps ≡ true
        → handle_attempt_error rt r env temps n err s
          ≡ done (max_retries (set_last rt (some err) (add_attempt rt err s)))
    unfolding handle_attempt_error
    attempt_last err s again =
        let last : eq_ℤ (pos n) r.max_retries ≡ true = rw p.retries (ground arith) in
        rw (decided err true again, last) refl

    -- Otherwise the hook is called, and the wait decides between the next attempt and the end.
    pub attempt_again :
        (attempt : ℕ) (err : E) (s : Run E)
        → registry_decides rt reg err temps ≡ true
        → attempt < n
        → Holds (suc n) n s.pool
        → (back : TimerPool) × (handle_attempt_error rt r env temps attempt err s
            ≡ done (
                after_wait rt err (recorded r attempt err s) (
                  wait_error rt attempt err (env.wake attempt),
                  back,
                  retry_interval rt r attempt (env.drawn attempt),
                )))
          × Holds (suc n) n back
    unfolding handle_attempt_error
    attempt_again attempt err s again more h =
        let hooked = recorded r attempt err s in
        let kept : Holds (suc n) n hooked.pool =
          subst (Holds (suc n) n) (sym (recorded_pool r attempt err s)) h in
        let two : n ≡ suc (n - 1) = omega arith in
        let (back, waited, hb) =
          wait_retry_lem r attempt err (env.wake attempt) (env.drawn attempt) (suc n) (n - 1)
            hooked.pool p.accepts.jitter (subst (λ k. Holds (suc n) k hooked.pool) two kept) in
        let not_last : eq_ℤ (pos attempt) r.max_retries ≡ false = rw p.retries (ground arith) in
        (
          back,
          rw (decided err true again, not_last, waited) refl,
          subst (λ k. Holds (suc n) k back) (sym two) hb,
        )
