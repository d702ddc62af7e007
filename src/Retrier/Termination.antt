-- ===== src/Retrier/Termination.antt =====
-- Do and DoWithContext return: with a pool of their own they neither wait for ever nor panic.
use mathlib.Core.Path.{subst}
use native.Mathlib.Decide.{dec_le}
use go_again.Prelude.{
  ℕ, zero, suc, ◌+◌, ◌≤◌, ℤ, ◌≡◌, refl, sym, ap, ◌∙◌, List, Option, none, some, Outcome, done,
  arith, Bool-cases, inl, inr,
}
use go_again.Runtime.{Runtime}
use go_again.Registry.{Registry}
use go_again.TimerPool.{TimerPool, reset}
use go_again.TimerPool.Invariant.{Holds, get-put, put_lem}
use go_again.Retrier.{Retrier, Errors}
use go_again.Retrier.Attempt.{Prepared, attempt_final, attempt_last, attempt_again, recorded}
use go_again.Retrier.Preparation.{reframe, ensure_initialized_lem, taken}
use go_again.Retrier.Backoff.{armed}
use go_again.Retrier.Loop.{
  Env, Run, Report, Finish, AttemptOutcome, continues, stops, max_retries, rounds, count_call,
  after_round, call_hook, terminal, reached_max, do_attempt, context_attempt, handle_attempt_error,
  registry_decides, after_wait, validated, need_pool, start, report, retry_do,
  retry_do_with_context, result, ctx_done, retrier_done, timed_out,
}

-- The state that an attempt leaves.
abbrev pub run_of : {E : Type 0} → AttemptOutcome E → Run E
run_of (continues s) = s
run_of (stops s) = s
run_of (max_retries s) = s

module _ {E F : Type 0} (rt : Runtime E F) where
  -- An attempt that returns, keeps the timers and calls nothing more.
  abbrev pub Advances : ℕ → Run E → Outcome (AttemptOutcome E) → Type 0
  Advances n s out =
      (o : AttemptOutcome E) × (out ≡ done o)
      × Holds (suc n) n (run_of o).pool
      × ((run_of o).calls ≡ s.calls)

  after_wait-Holds :
      (n : ℕ) (err : E) (s : Run E) (w : Option E) (back : TimerPool) (pause : ℤ)
      → Holds (suc n) n back
      → Holds (suc n) n (run_of (after_wait rt err s (w, back, pause))).pool
        × ((run_of (after_wait rt err s (w, back, pause))).calls ≡ s.calls)
  unfolding after_wait
  after_wait-Holds n err s none back pause h = (h, refl)
  after_wait-Holds n err s (some e) back pause h = (h, refl)

  recorded_calls :
      (r : Retrier E F) (attempt : ℕ) (err : E) (s : Run E)
      → (recorded rt r attempt err s).calls ≡ s.calls
  unfolding call_hook
  recorded_calls r attempt err s = ground arith

  module _ {n : ℕ} {reg : Registry E} {r : Retrier E F} (p : Prepared rt n reg r) where
    handle-Advances :
        (env : Env E) (temps : List E) (attempt : ℕ) (err : E) (s : Run E)
        → attempt ≤ n
        → Holds (suc n) n s.pool
        → Advances n s (handle_attempt_error rt r env temps attempt err s)
    handle-Advances env temps attempt err s le h =
        elim (Bool-cases (registry_decides rt reg err temps)) [
          | inr final ↦ (_, attempt_final rt p env temps attempt err s final, h, refl)
          | inl again ↦ elim (dec_le n attempt) [
            | yes last ↦
                let same : attempt ≡ n = omega arith in
                (
                  _,
                  ap (λ k. handle_attempt_error rt r env temps k err s) same
                      ∙ attempt_last rt p env temps err s again,
                  h,
                  refl,
                )
            | no more ↦
                let (back, e, hb) =
                  attempt_again rt p env temps attempt err s again (omega arith) h in
                let (kept, calls) =
                  after_wait-Holds n err (recorded rt r attempt err s) _ back _ hb in
                (_, e, kept, calls ∙ recorded_calls r attempt err s)
          ]
        ]

    do-Advances :
        (env : Env E) (temps : List E) (attempt : ℕ) (out : Option E) (s : Run E)
        → attempt ≤ n
        → Holds (suc n) n s.pool
        → Advances n s (do_attempt rt r env temps attempt out s)
    unfolding do_attempt handle_attempt_error
    do-Advances env temps attempt none s le h = (_, refl, h, refl)
    do-Advances env temps attempt (some err) s le h = handle-Advances env temps attempt err s le h

    context-Advances :
        (env : Env E) (temps : List E) (attempt : ℕ) (out : Finish E) (s : Run E)
        → attempt ≤ n
        → Holds (suc n) n s.pool
        → Advances n s (context_attempt rt r env temps attempt out s)
    unfolding context_attempt terminal
    context-Advances env temps attempt (result none) s le h = (_, refl, h, refl)
    context-Advances env temps attempt (result (some err)) s le h =
        handle-Advances env temps attempt err s le h
    context-Advances env temps attempt (ctx_done e) s le h = (_, refl, h, refl)
    context-Advances env temps attempt (retrier_done e) s le h = (_, refl, h, refl)
    context-Advances env temps attempt timed_out s le h = (_, refl, h, refl)

  reached_max_keeps :
      (s : Run E) → ((reached_max rt s).pool ≡ s.pool) × ((reached_max rt s).calls ≡ s.calls)
  unfolding reached_max
  reached_max_keeps s = (ground arith, ground arith)

  -- A call that returns, keeps the timers and calls the function at most `k` times more.
  abbrev Ends : ℕ → ℕ → ℕ → Outcome (Run E) → Type 0
  Ends n calls k out = (u : Run E) × (out ≡ done u) × Holds (suc n) n u.pool × (u.calls ≤ calls + k)

  after_round_lem :
      (n calls k : ℕ) (next : Run E → Outcome (Run E)) (o : AttemptOutcome E)
      → Holds (suc n) n (run_of o).pool
      → (run_of o).calls ≡ suc calls
      → ((s : Run E) → Holds (suc n) n s.pool → Ends n s.calls k (next s))
      → Ends n calls (suc k) (after_round rt o next)
  after_round_lem n calls k next (continues u) h c more =
      let (v, e, hv, l) = more u h in (v, e, hv, omega arith)
  after_round_lem n calls k next (stops u) h c more = (u, refl, h, omega arith)
  after_round_lem n calls k next (max_retries u) h c more =
      let (p, d) = reached_max_keeps u in
      (reached_max rt u, refl, subst (Holds (suc n) n) (sym p) h, omega arith)

  -- The loop ends, whatever its body does, as long as the body ends.
  rounds_lem :
      (n : ℕ) (round : ℕ → Run E → Outcome (AttemptOutcome E))
      → ((attempt : ℕ) (s : Run E)
          → attempt ≤ n
          → Holds (suc n) n s.pool
          → Advances n s (round attempt s))
      → (k attempt : ℕ) (s : Run E) → attempt + k ≡ suc n
      → Holds (suc n) n s.pool
      → Ends n s.calls k (rounds rt round k attempt s)
  unfolding rounds
  rounds_lem n round body zero attempt s total h =
      let (p, c) = reached_max_keeps s in
      (reached_max rt s, refl, subst (Holds (suc n) n) (sym p) h, omega arith)
  rounds_lem n round body (suc k) attempt s total h =
      let (o, e, ho, c) = body attempt (count_call rt s) (omega arith) h in
      rw e (
        after_round_lem n s.calls k _ o ho c
          (λ u. rounds_lem n round body k (suc attempt) u (omega arith)))

  -- A call of a prepared retrier, over the body of its loop: it runs the loop on the pool without the
  -- timeout timer, and returns the report of the loop with that timer put back.
  pub validated_runs :
      {n : ℕ} {reg : Registry E} {r : Retrier E F} (errs : Errors E)
      (round : Retrier E F → ℕ → Run E → Outcome (AttemptOutcome E))
      → Prepared rt n reg r
      → (ready : Retrier E F) × (lent : TimerPool) × Prepared rt n reg ready
        × Holds (suc n) n lent
        × ((s : Run E)
            → rounds rt (round ready) (suc n) 0 (start rt lent errs) ≡ done s
            → Holds (suc n) n s.pool
            → (after : Retrier E F) × (validated rt r errs none (some round)
                ≡ done (after, report rt s))
              × Prepared rt n reg after)
  unfolding validated need_pool armed
  validated_runs {n} {reg} {r} errs round p =
      let (ready, made, q) = ensure_initialized_lem rt r p in
      let (t, lent, _, got, hl, _, _, _, _) =
        get-put (suc n) n q.pool (λ t. reset t ready.timeout) q.holds in
      (
        ready,
        lent,
        q,
        hl,
        λ s e hs.
            let (back, returned, vb, ob, size, _, cap) =
              put_lem s.pool (reset t ready.timeout) hs.valid hs.opened in
            let hb : Holds (suc n) (suc n) back = record {
              valid = vb;
              opened = ob;
              full = omega (arith, hs.full, hs.room);
              room = omega (arith, cap, hs.room);
            } in
            (
              record ready { timer = some back },
              rw (made, q.has_pool, got, q.retries, e, returned) refl,
              reframe rt q ready.init_once ready.ctx_once ready.logger ready.errors_pool_new
                  ready.errors_pool ready.ctx ready.registry (some back) back q.has_registry refl
                  hb,
            ),
      )

  -- A call that returns a report of at most `n + 1` calls of the function, and a prepared retrier.
  abbrev pub Returns : ℕ → Registry E → Outcome (Retrier E F × Report E) → Type 0
  Returns n reg out =
      (after : Retrier E F) × (rep : Report E) × (out ≡ done (after, rep))
      × Prepared rt n reg after
      × (rep.calls ≤ n + 1)

  runs-Returns :
      {n : ℕ} {reg : Registry E} {r : Retrier E F} (errs : Errors E)
      (round : Retrier E F → ℕ → Run E → Outcome (AttemptOutcome E))
      → ((ready : Retrier E F)
          → Prepared rt n reg ready
          → (attempt : ℕ) (s : Run E) → attempt ≤ n
          → Holds (suc n) n s.pool
          → Advances n s (round ready attempt s))
      → Prepared rt n reg r
      → Returns n reg (validated rt r errs none (some round))
  runs-Returns {n} errs round body p =
      let (ready, lent, q, h, return) = validated_runs errs round p in
      let (s, e, hs, calls) =
        rounds_lem n (round ready) (body ready q) (suc n) 0 (start rt lent errs) (omega arith) h in
      let (after, e', q') = return s e hs in (after, report rt s, e', q', omega arith)

  -- A call of Do or of DoWithContext on a retrier that Validate accepts, that has a registry and
  -- whose open pool holds MaxRetries+1 timers returns, without waiting for a timer of the pool and
  -- without a panic; it calls the function at most MaxRetries+1 times, and leaves the retrier as it
  -- requires it, so that the next call returns too. The function, the contexts and the random
  -- numbers are any.
  pub retry-Returns :
      (n : ℕ) (reg : Registry E) (r : Retrier E F) (env : Env E) (temps : List E)
      → Prepared rt n reg r
      → ((f : ℕ → Option E) → Returns n reg (retry_do rt r env (some f) temps))
        × ((g : ℕ → Finish E) → Returns n reg (retry_do_with_context rt r env (some g) temps))
  unfolding retry_do retry_do_with_context
  retry-Returns n reg r env temps p =
      let (empty, q, valid) = taken rt r p in
      (
        λ f. rw valid (
            runs-Returns _ _ (λ ready h attempt s. do-Advances h env temps attempt (f attempt) s)
              q),
        λ g. rw valid (
            runs-Returns _ _
              (λ ready h attempt s. context-Advances h env temps attempt (g attempt) s) q),
      )
