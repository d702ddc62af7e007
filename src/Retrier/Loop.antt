-- ===== src/Retrier/Loop.antt =====
-- retrier.go: Do and DoWithContext. The environment decides what the function returns and what ends
-- each wait, so a call is a function of it; the trace records what a caller can observe.
use mathlib.Core.Option
use go_again.Prelude.{
  ℕ, zero, suc, ℤ, pos, negsuc, List, [], ◌∷◌, ◌++◌, Bool, true, Option, none, some, ◌==◌, eq_ℤ,
  any_of, not, if◌then◌else◌, Outcome, done, panicked, ◌>>=◌,
}
use go_again.Runtime.{Runtime, Arg}
use go_again.Registry.{Registry, len, is_temporary_error}
use go_again.TimerPool.{TimerPool, get, put}
use go_again.Retrier.{Retrier, Errors, no_errors, reset_errors, validate, ensure_initialized}
use go_again.Retrier.Backoff.{Wake, wait_retry, armed}

-- What ends an attempt of DoWithContext: the function returns, the caller's context is done with
-- its Err, the retrier's context is done with its cause, or the timeout timer fires.
pub data Finish (E : Type 0) : Type 0 where
  result : Option E → Finish E
  ctx_done retrier_done : E → Finish E
  timed_out : Finish E

-- What happens outside, by attempt: what ends the wait after it, and the number that Int64N draws.
pub record Env (E : Type 0) : Type 0 where
  pub wake : ℕ → Wake E
  pub drawn : ℕ → ℕ

-- The state of a call: the pool, the result, and the calls of the function, the calls of OnRetry and
-- the pauses so far.
pub record Run (E : Type 0) : Type 0 where
  pub pool : TimerPool
  pub errs : Errors E
  pub calls : ℕ
  pub retried : List (ℕ × E)
  pub pauses : List ℤ

-- What a caller can observe of a call that has returned.
pub record Report (E : Type 0) : Type 0 where
  pub errs : Errors E
  pub calls : ℕ
  pub retried : List (ℕ × E)
  pub pauses : List ℤ

-- attemptOutcome, with the state that it leaves.
pub data AttemptOutcome (E : Type 0) : Type 0 where
  continues stops max_retries : Run E → AttemptOutcome E

module _ {E F : Type 0} (rt : Runtime E F) where
  abbrev pub set_last : Option E → Run E → Run E
  set_last err s = record s { errs = record s.errs { last = err } }

  abbrev pub add_attempt : E → Run E → Run E
  add_attempt err s = record s { errs = record s.errs { attempts = s.errs.attempts ++ err ∷ [] } }

  -- What DoWithContext records for a terminal error.
  unfoldable pub terminal : ℕ → E → Run E → Run E
  terminal attempt err s =
      set_last
        (some (
          if rt.is err rt.timeout_reached
          then rt.wrapf rt.timeout_reached "attempt %v" (Arg.int (pos attempt) ∷ [])
          else err))
        s

  unfoldable pub registry_decides : Registry E → E → List E → Bool
  registry_decides reg err [] = if len rt reg == 0 then true else is_temporary_error rt reg err none
  registry_decides reg err (t ∷ ts) = is_temporary_error rt reg err (some (t ∷ ts))

  -- shouldRetry. On a nil registry Len and List panic, and IsTemporaryError with a list of errors does
  -- not read the receiver.
  unfoldable pub should_retry : Option (Registry E) → E → List E → Outcome Bool
  unfolding registry_decides
  should_retry none err [] = panicked
  should_retry none err (t ∷ ts) = done (any_of (rt.is err) (t ∷ ts))
  should_retry (some reg) err temps = done (registry_decides reg err temps)

  -- reached_max: the tail of both loops. Wrapf of a nil error is nil; a loop never ends with one.
  unfoldable pub reached_max : Run E → Run E
  reached_max s = elim s.errs.last [
    | none ↦ s
    | some err ↦ add_attempt (rt.wrapf err "%v" (Arg.error rt.max_retries_reached ∷ [])) s
  ]

  -- The end of an attempt whose error is to be retried, with what waitRetry returned.
  unfoldable pub after_wait : E → Run E → Option E × TimerPool × ℤ → AttemptOutcome E
  after_wait err s (some wait_err, pool, pause) =
      stops (set_last (some wait_err) (record s { pool = pool; pauses = s.pauses ++ pause ∷ [] }))
  after_wait err s (none, pool, pause) =
      continues (set_last (some err) (record s { pool = pool; pauses = s.pauses ++ pause ∷ [] }))

  unfoldable pub call_hook : Retrier E F → ℕ → E → Run E → Run E
  call_hook r attempt err s =
      if r.on_retry then record s { retried = s.retried ++ (attempt, err) ∷ [] } else s

  -- handleAttemptError
  unfoldable pub handle_attempt_error :
      Retrier E F → Env E → List E → ℕ → E → Run E → Outcome (AttemptOutcome E)
  unfolding after_wait call_hook
  handle_attempt_error r env temps attempt err s₀ =
      let s = add_attempt err s₀ in
      do
        retry ← should_retry r.registry err temps
        if not retry
            then done (stops (set_last (some err) s))
            else if eq_ℤ (pos attempt) r.max_retries
            then done (max_retries (set_last (some err) s))
            else do
              let hooked = call_hook r attempt err s
              waited ←
                  wait_retry rt r attempt err (env.wake attempt) (env.drawn attempt) hooked.pool
              done (after_wait err hooked waited)

  -- The body of the loop in Do, once the function has returned.
  unfoldable pub do_attempt :
      Retrier E F → Env E → List E → ℕ → Option E → Run E → Outcome (AttemptOutcome E)
  unfolding after_wait call_hook
  do_attempt r env temps attempt none s = done (stops (set_last none s))
  do_attempt r env temps attempt (some err) s₀ =
      let s = add_attempt err s₀ in
      do
        retry ← should_retry r.registry err temps
        if not retry
            then done (stops (set_last (some err) s))
            else if eq_ℤ (pos attempt) r.max_retries
            then done (max_retries (set_last (some err) s))
            else do
              let hooked = call_hook r attempt err s
              waited ←
                  wait_retry rt r attempt err (env.wake attempt) (env.drawn attempt) hooked.pool
              done (after_wait err hooked waited)

  -- The body of the loop in DoWithContext, once runAttemptWithContext has returned.
  unfoldable pub context_attempt :
      Retrier E F → Env E → List E → ℕ → Finish E → Run E → Outcome (AttemptOutcome E)
  unfolding handle_attempt_error terminal
  context_attempt r env temps attempt (result none) s = done (stops (set_last none s))
  context_attempt r env temps attempt (result (some err)) s =
      handle_attempt_error r env temps attempt err s
  context_attempt r env temps attempt (ctx_done e) s =
      done (stops (terminal attempt (rt.wrap e "context done") s))
  context_attempt r env temps attempt (retrier_done cause) s =
      done (stops (terminal attempt (rt.wrap cause "retrier context done") s))
  context_attempt r env temps attempt timed_out s =
      done (stops (terminal attempt rt.timeout_reached s))

  -- What a round leaves to do: the next round, nothing, or the tail behind the loop.
  abbrev pub after_round : AttemptOutcome E → (Run E → Outcome (Run E)) → Outcome (Run E)
  after_round (continues s) next = next s
  after_round (stops s) next = done s
  after_round (max_retries s) next = done (reached_max s)

  abbrev pub count_call : Run E → Run E
  count_call s = record s { calls = suc s.calls }

  -- The loop `for attempt := 0; attempt <= r.MaxRetries; attempt++`, over the body `round` and with
  -- the rounds that the test still lets through.
  unfoldable pub rounds : (ℕ → Run E → Outcome (AttemptOutcome E)) → ℕ → ℕ → Run E → Outcome (Run E)
  unfolding reached_max
  rounds round zero attempt s = done (reached_max s)
  rounds round (suc n) attempt s = do
    outcome ← round attempt (count_call s)
    after_round outcome (rounds round n (suc attempt))

  abbrev pub rounds_of : ℤ → ℕ
  rounds_of (pos n) = suc n
  rounds_of (negsuc n) = 0

  -- errorsPool.Get and Reset, or a new object: empty either way.
  unfoldable pub take_errors : Retrier E F → List (Errors E) → Errors E × Retrier E F
  unfolding reset_errors
  take_errors r [] = (no_errors E, r)
  take_errors r (e ∷ es) = (reset_errors e, record r { errors_pool = es })

  -- PutErrors
  unfoldable pub put_errors : Retrier E F → Errors E → Retrier E F
  unfolding reset_errors
  put_errors r errs = record r { errors_pool = reset_errors errs ∷ r.errors_pool }

  -- The pool of an initialised retrier; a method call on a nil pool panics.
  unfoldable pub need_pool : Option TimerPool → Outcome TimerPool
  need_pool none = panicked
  need_pool (some pool) = done pool

  abbrev pub start : TimerPool → Errors E → Run E
  start pool errs = record { pool = pool; errs = errs; calls = 0; retried = []; pauses = [] }

  abbrev pub report : Run E → Report E
  report s = record { errs = s.errs; calls = s.calls; retried = s.retried; pauses = s.pauses }

  -- A call that returns before it calls the function.
  abbrev pub refusal : Errors E → E → Report E
  refusal errs err = record {
    errs = record errs { last = some err };
    calls = 0;
    retried = [];
    pauses = [];
  }

  -- The text that Do and DoWithContext share from Validate on, over the body `round` of their loops
  -- (`none` is a nil function) and what Validate returned.
  unfoldable pub validated :
      Retrier E F
      → Errors E
      → Option E
      → Option (Retrier E F → ℕ → Run E → Outcome (AttemptOutcome E))
      → Outcome (Retrier E F × Report E)
  unfolding rounds ensure_initialized need_pool
  validated r errs (some err) round = done (r, refusal errs err)
  validated r errs none none = done (r, refusal errs rt.nil_retryable_func)
  validated r errs none (some round) = do
    ready ← ensure_initialized rt r
    pool ← need_pool ready.timer
    (found, lent) ← get pool
    timer ← armed rt found ready.timeout
    s ← rounds (round ready) (rounds_of ready.max_retries) 0 (start lent errs)
    back ← put s.pool timer
    done (record ready { timer = some back }, report s)

  -- Do, with the function's result by attempt.
  unfoldable pub retry_do :
      Retrier E F → Env E → Option (ℕ → Option E) → List E → Outcome (Retrier E F × Report E)
  unfolding take_errors validated do_attempt
  retry_do r₀ env f temps =
      let (errs, r) = take_errors r₀ r₀.errors_pool in
      validated r errs (validate rt r)
        (Option.map (λ g. λ ready attempt s. do_attempt ready env temps attempt (g attempt) s) f)

  -- DoWithContext, with what ends each attempt.
  unfoldable pub retry_do_with_context :
      Retrier E F → Env E → Option (ℕ → Finish E) → List E → Outcome (Retrier E F × Report E)
  unfolding take_errors validated context_attempt
  retry_do_with_context r₀ env f temps =
      let (errs, r) = take_errors r₀ r₀.errors_pool in
      validated r errs (validate rt r) (
        Option.map (λ g. λ ready attempt s. context_attempt ready env temps attempt (g attempt) s)
          f)
