-- ===== src/Retrier/Cancellation.antt =====
-- What ends a call of DoWithContext while the function runs.
use mathlib.Core.List.{append-nil}
use go_again.Prelude.{
  ℕ, suc, ◌-◌, ◌≤◌, ◌≡◌, refl, sym, ap, List, [], ◌∷◌, Option, pos, none, some, done, arith,
  if◌then◌else◌,
}
use go_again.Runtime.{Runtime, Arg}
use go_again.Registry.{Registry}
use go_again.TimerPool.Invariant.{Holds}
use go_again.Retrier.{Retrier}
use go_again.Retrier.Attempt.{Prepared}
use go_again.Retrier.Prefix.{errors_from, Fails, loop}
use go_again.Retrier.Outcomes.{Reports, TailEnds, call-Reports}
use mathlib.Core.Option.{some-injective}
use go_again.Retrier.Loop.{
  Env, Run, Finish, stops, result, ctx_done, retrier_done, timed_out, rounds, count_call,
  context_attempt, terminal, set_last, retry_do_with_context,
}

module _ {E F : Type 0} (rt : Runtime E F) where
  -- The terminal error of runAttemptWithContext, if a context or the timeout ends the attempt.
  abbrev pub interruption : Finish E → Option E
  interruption (result out) = none
  interruption (ctx_done e) = some (rt.wrap e "context done")
  interruption (retrier_done cause) = some (rt.wrap cause "retrier context done")
  interruption timed_out = some rt.timeout_reached

  -- The error that DoWithContext makes of it.
  abbrev pub terminal_error : ℕ → E → E
  terminal_error attempt err =
      if rt.is err rt.timeout_reached
      then rt.wrapf rt.timeout_reached "attempt %v" (Arg.int (pos attempt) ∷ [])
      else err

  interrupted_attempt :
      (ready : Retrier E F) (env : Env E) (temps : List E) (k : ℕ) (w : Finish E) (err : E)
      (s : Run E)
      → interruption w ≡ some err
      → context_attempt rt ready env temps k w s
        ≡ done (stops (set_last rt (some (terminal_error k err)) s))
  unfolding context_attempt terminal
  interrupted_attempt ready env temps k (result out) err s e = cc
  interrupted_attempt ready env temps k (ctx_done c) err s e =
      ap (λ x. done (stops (set_last rt (some (terminal_error k x)) s))) (some-injective _ _ e)
  interrupted_attempt ready env temps k (retrier_done c) err s e =
      ap (λ x. done (stops (set_last rt (some (terminal_error k x)) s))) (some-injective _ _ e)
  interrupted_attempt ready env temps k timed_out err s e =
      ap (λ x. done (stops (set_last rt (some (terminal_error k x)) s))) (some-injective _ _ e)

  ended_tail :
      (n : ℕ) (ready : Retrier E F) (env : Env E) (temps : List E) (g : ℕ → Finish E) (m k : ℕ)
      (err : E) (s : Run E)
      → interruption (g k) ≡ some err
      → Holds (suc n) n s.pool
      → TailEnds rt n s [] (some (terminal_error k err)) 0 (loop rt ready env temps g (suc m) k s)
  unfolding rounds
  ended_tail n ready env temps g m k err s e h = (
    set_last rt (some (terminal_error k err)) (count_call rt s),
    rw (interrupted_attempt ready env temps k (g k) err (count_call rt s) e) refl,
    h,
    ap (λ l. record { attempts = l; last = some (terminal_error k err) })
        (sym (append-nil s.errs.attempts)),
    refl,
    omega arith,
  )

  -- On a retrier that Validate accepts, that has a registry and whose open pool holds MaxRetries+1
  -- timers: if the first `k` attempts fail with errors to retry and a context or the timeout ends
  -- the next one while the function runs, DoWithContext returns without a further call or pause;
  -- the last error is the terminal one, with the attempt's number where it is an ErrTimeoutReached,
  -- and the trace holds the `k` errors alone.
  pub ended-Reports :
      {n : ℕ} {reg : Registry E} {r : Retrier E F} (p : Prepared rt n reg r) (env : Env E)
      (temps : List E) (g : ℕ → Finish E) (e : ℕ → E) (k : ℕ) (err : E)
      → Fails rt reg temps env g e 0 k
      → k ≤ n
      → interruption (g k) ≡ some err
      → Reports rt
          (retry_do_with_context rt r env (some g) temps)
          (errors_from e 0 k)
          (some (terminal_error k err))
          (suc k)
          k
  ended-Reports {n} p env temps g e k err fails le w =
      call-Reports rt p env temps g e k (n - k) [] (some (terminal_error k err)) 0 (omega arith)
        (append-nil _) (omega arith) fails
        (λ ready q s h. ended_tail n ready env temps g (n - k) k err s w h)
