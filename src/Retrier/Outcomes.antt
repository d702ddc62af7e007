-- ===== src/Retrier/Outcomes.antt =====
-- What a call of Do or DoWithContext returns, by what ends it.
use mathlib.Core.List.{append-nil, append_assoc}
use go_again.Prelude.{
  ℕ, suc, ◌+◌, ◌-◌, ◌≤◌, ◌<◌, ◌≡◌, refl, sym, ap, ◌∙◌, List, [], ◌∷◌, ◌++◌, true, false, Option,
  none, some, Outcome, done, arith, length, length-append,
}
use go_again.Runtime.{Runtime, Arg}
use go_again.Registry.{Registry}
use go_again.TimerPool.Invariant.{Holds}
use go_again.Retrier.{Retrier, Errors}
use go_again.Retrier.Attempt.{Prepared, attempt_final, attempt_last, attempt_again, recorded}
use go_again.Retrier.Preparation.{taken}
use go_again.Retrier.Termination.{validated_runs}
use go_again.Retrier.Mirror.{do_mirror}
use go_again.Retrier.Prefix.{errors_from, Fails, recorded_lem, loop, many_fail}
use go_again.Retrier.Backoff.{retry_interval}
use go_again.Retrier.Pause.{pause_error, wait_error_lem}
use go_again.Retrier.Loop.{
  Env, Run, Report, Finish, max_retries, result, rounds, count_call, context_attempt,
  handle_attempt_error, registry_decides, after_wait, reached_max, start, report, take_errors,
  set_last, add_attempt, retry_do, retry_do_with_context,
}

module _ {E F : Type 0} (rt : Runtime E F) where
  -- The call returns with these attempts, this last error, this many calls of the function and this
  -- many pauses.
  abbrev pub Reports : Outcome (Retrier E F × Report E) → List E → Option E → ℕ → ℕ → Type 0
  Reports out attempts last calls pauses =
      (after : Retrier E F) × (rep : Report E) × (out ≡ done (after, rep))
      × (rep.errs ≡ record { attempts = attempts; last = last })
      × (rep.calls ≡ calls)
      × (length rep.pauses ≡ pauses)

  abbrev pub TailEnds : ℕ → Run E → List E → Option E → ℕ → Outcome (Run E) → Type 0
  TailEnds n s extra last d out =
      (u : Run E) × (out ≡ done u)
      × Holds (suc n) n u.pool
      × (u.errs ≡ record { attempts = s.errs.attempts ++ extra; last = last })
      × (u.calls ≡ suc s.calls)
      × (length u.pauses ≡ length s.pauses + d)

  pub call-Reports :
      {n : ℕ} {reg : Registry E} {r : Retrier E F} (p : Prepared rt n reg r) (env : Env E)
      (temps : List E) (g : ℕ → Finish E) (e : ℕ → E) (k m : ℕ) (extra : List E) (last : Option E)
      (d : ℕ) {attempts : List E} {pauses : ℕ}
      → k + suc m ≡ suc n
      → errors_from e 0 k ++ extra ≡ attempts
      → k + d ≡ pauses
      → Fails rt reg temps env g e 0 k
      → ((ready : Retrier E F)
          → Prepared rt n reg ready
          → (s : Run E) → Holds (suc n) n s.pool
          → TailEnds n s extra last d (loop rt ready env temps g (suc m) k s))
      → Reports (retry_do_with_context rt r env (some g) temps) attempts last (suc k) pauses
  unfolding retry_do_with_context
  call-Reports {n} {reg} {r} p env temps g e k m extra last d total es ps fails tail =
      let (empty, q, valid) = taken rt r p in
      let errs₀ = (take_errors rt r r.errors_pool).0 in
      let round =
        λ (ready : Retrier E F) (a : ℕ) (t : Run E). context_attempt rt ready env temps a (g a) t in
      let (ready, lent, h, held, return) = validated_runs rt errs₀ round q in
      let s₀ = start rt lent errs₀ in
      let (s, failed, hs, ats, cs, qs) =
        many_fail rt h env temps g e k (suc m) 0 s₀ fails (omega arith) held in
      let (u, ended, hu, errs, cu, pu) = tail ready h s hs in
      let whole : loop rt ready env temps g (suc n) 0 s₀ ≡ done u =
        ap (λ t. loop rt ready env temps g t 0 s₀) (sym total)
        ∙ failed
        ∙ ap (λ a. loop rt ready env temps g (suc m) a s) (omega arith)
        ∙ ended in
      let (after, returned, _) = return u whole hu in
      let before : s.errs.attempts ≡ errors_from e 0 k =
        ats ∙ ap (λ (l : Errors E). l.attempts ++ errors_from e 0 k) empty in
      (
        after,
        report rt u,
        rw valid returned,
        errs
            ∙ ap (λ l. record { attempts = l ++ extra; last = last }) before
            ∙ ap (λ l. record { attempts = l; last = last }) es,
        omega arith,
        omega arith,
      )

  -- A result that Do has, and DoWithContext where the function returns the same by itself.
  abbrev pub BothReport :
      Retrier E F → Env E → (ℕ → Option E) → List E → List E → Option E → ℕ → ℕ → Type 0
  BothReport r env f temps attempts last calls pauses =
      Reports (retry_do rt r env (some f) temps) attempts last calls pauses
      × Reports (retry_do_with_context rt r env (some (λ k. result (f k))) temps) attempts last
          calls pauses

  both :
      (r : Retrier E F) (env : Env E) (f : ℕ → Option E) (temps attempts : List E) (last : Option E)
      (calls pauses : ℕ)
      → Reports
          (retry_do_with_context rt r env (some (λ k. result (f k))) temps)
          attempts
          last
          calls
          pauses
      → BothReport r env f temps attempts last calls pauses
  both r env f temps attempts last calls pauses h = (rw (do_mirror rt r env (some f) temps) h, h)

  success_tail :
      (n : ℕ) (ready : Retrier E F) (env : Env E) (temps : List E) (g : ℕ → Finish E) (m k : ℕ)
      (s : Run E)
      → g k ≡ result none
      → Holds (suc n) n s.pool
      → TailEnds n s [] none 0 (loop rt ready env temps g (suc m) k s)
  unfolding rounds context_attempt
  success_tail n ready env temps g m k s ok h = (
    set_last rt none (count_call rt s),
    rw ok refl,
    h,
    ap (λ l. record { attempts = l; last = none }) (sym (append-nil s.errs.attempts)),
    refl,
    omega arith,
  )

  module _ {n : ℕ} {reg : Registry E} {ready : Retrier E F} (q : Prepared rt n reg ready)
      (env : Env E) (temps : List E) (g : ℕ → Finish E) (m k : ℕ) (err : E) (s : Run E)
      (failed : g k ≡ result (some err)) (h : Holds (suc n) n s.pool) where
    final_tail :
        registry_decides rt reg err temps ≡ false
        → TailEnds n s (err ∷ []) (some err) 0 (loop rt ready env temps g (suc m) k s)
    unfolding rounds context_attempt
    final_tail final = (
      set_last rt (some err) (add_attempt rt err (count_call rt s)),
      rw (failed, attempt_final rt q env temps k err (count_call rt s) final) refl,
      h,
      refl,
      refl,
      omega arith,
    )

    interrupted_tail :
        (reason : E)
        → k < n
        → registry_decides rt reg err temps ≡ true
        → pause_error rt k err (env.wake k) ≡ some reason
        → TailEnds n s (err ∷ []) (some reason) 1 (loop rt ready env temps g (suc m) k s)
    unfolding rounds context_attempt after_wait
    interrupted_tail reason lt again woken =
        let (back, handled, hb) = attempt_again rt q env temps k err (count_call rt s) again lt h in
        let hooked = recorded rt ready k err (count_call rt s) in
        let (attempts, calls, pauses) = recorded_lem rt ready k err (count_call rt s) in
        let pause = retry_interval rt ready k (env.drawn k) in
        let ended = wait_error_lem rt k err (env.wake k) ∙ woken in
        (
          set_last rt (some reason)
              (record hooked { pool = back; pauses = hooked.pauses ++ pause ∷ [] }),
          rw (failed, handled, ended) refl,
          hb,
          ap (λ l. record { attempts = l; last = some reason }) attempts,
          calls,
          length-append hooked.pauses (pause ∷ []) ∙ ap (λ l. length l + 1) pauses,
        )

    exhausted_tail :
        k ≡ n
        → registry_decides rt reg err temps ≡ true
        → TailEnds n s
            (err ∷ rt.wrapf err "%v" (Arg.error rt.max_retries_reached ∷ []) ∷ [])
            (some err)
            0
            (loop rt ready env temps g (suc m) k s)
    unfolding rounds context_attempt reached_max
    exhausted_tail last again =
        let stopped = set_last rt (some err) (add_attempt rt err (count_call rt s)) in
        let handled : handle_attempt_error rt ready env temps k err (count_call rt s)
            ≡ done (max_retries stopped) =
          ap (λ a. handle_attempt_error rt ready env temps a err (count_call rt s)) last
          ∙ attempt_last rt q env temps err (count_call rt s) again in
        (
          reached_max rt stopped,
          rw (failed, handled) refl,
          h,
          ap (λ l. record { attempts = l; last = some err })
              (append_assoc s.errs.attempts (err ∷ []) _),
          refl,
          omega arith,
        )

  module _ {n : ℕ} {reg : Registry E} {r : Retrier E F} (p : Prepared rt n reg r) (env : Env E)
      (temps : List E) (f : ℕ → Option E) (e : ℕ → E) (k : ℕ)
      (fails : Fails rt reg temps env (λ j. result (f j)) e 0 k) where
    -- On a retrier that Validate accepts, that has a registry and whose open pool holds
    -- MaxRetries+1 timers: if the first `k` attempts, of MaxRetries+1 at most, fail with errors to
    -- retry and the next one succeeds, the call ends there with no last error, the trace of the `k`
    -- errors in order, and one pause after each.
    pub success-Reports :
        k ≤ n → f k ≡ none → BothReport r env f temps (errors_from e 0 k) none (suc k) k
    success-Reports le ok = both r env f temps _ _ _ _ (
        call-Reports p env temps _ e k (n - k) [] none 0 (omega arith) (append-nil _) (omega arith)
          fails (λ ready q s h. success_tail n ready env temps _ (n - k) k s (ap result ok) h))

    -- On a retrier that Validate accepts, that has a registry and whose open pool holds
    -- MaxRetries+1 timers: after `k` attempts that failed with errors to retry, `k` at most
    -- MaxRetries, an error that is not to be retried ends the call at once: it is the last error
    -- and the last entry of the trace.
    pub final-Reports :
        (err : E)
        → k ≤ n
        → f k ≡ some err
        → registry_decides rt reg err temps ≡ false
        → BothReport r env f temps (errors_from e 0 k ++ err ∷ []) (some err) (suc k) k
    final-Reports err le failed final = both r env f temps _ _ _ _ (
        call-Reports p env temps _ e k (n - k) (err ∷ []) (some err) 0 (omega arith) refl
          (omega arith) fails
          (λ ready q s h. final_tail q env temps _ (n - k) k err s (ap result failed) h final))

    -- On a retrier that Validate accepts, that has a registry and whose open pool holds
    -- MaxRetries+1 timers: after `k` attempts that failed with errors to retry, `k` below
    -- MaxRetries, a context that is done, or the timeout, ends the call during the pause after the
    -- next such error: the last error is the error of the caller's context wrapped as "context
    -- done", the cause of the retrier's context wrapped as "retrier context done", or
    -- ErrTimeoutReached wrapped with the attempt and its error; the trace ends with the function's
    -- error, and the function is not called again.
    pub interrupted-Reports :
        (err reason : E)
        → k < n
        → f k ≡ some err
        → registry_decides rt reg err temps ≡ true
        → pause_error rt k err (env.wake k) ≡ some reason
        → BothReport r env f temps (errors_from e 0 k ++ err ∷ []) (some reason) (suc k) (k + 1)
    interrupted-Reports err reason lt failed again woken = both r env f temps _ _ _ _ (
        call-Reports p env temps _ e k (n - k) (err ∷ []) (some reason) 1 (omega arith) refl refl
          fails
          (λ ready q s h.
            interrupted_tail q env temps _ (n - k) k err s (ap result failed) h reason lt again
              woken))

  -- On a retrier that Validate accepts, that has a registry and whose open pool holds MaxRetries+1
  -- timers: if all MaxRetries+1 attempts fail with errors to retry and no pause is interrupted, the
  -- function has been called MaxRetries+1 times, the last error is that of the last attempt, and
  -- the trace is the errors in order with the last one once more, wrapped with
  -- ErrMaxRetriesReached.
  pub exhausted-Reports :
      {n : ℕ} {reg : Registry E} {r : Retrier E F} (p : Prepared rt n reg r) (env : Env E)
      (temps : List E) (f : ℕ → Option E) (e : ℕ → E)
      → Fails rt reg temps env (λ j. result (f j)) e 0 n
      → f n ≡ some (e n)
      → registry_decides rt reg (e n) temps ≡ true
      → BothReport r env f temps
          (errors_from e 0 n
            ++ e n ∷ rt.wrapf (e n) "%v" (Arg.error rt.max_retries_reached ∷ []) ∷ [])
          (some (e n))
          (suc n)
          n
  exhausted-Reports {n} {r = r} p env temps f e fails failed again = both r env f temps _ _ _ _ (
      call-Reports p env temps _ e n 0 _ (some (e n)) 0 (omega arith) refl (omega arith) fails
        (λ ready q s h. exhausted_tail q env temps _ 0 n (e n) s (ap result failed) h refl again))
