-- ===== src/Retrier/Prefix.antt =====
-- The attempts of a call that fail and are repeated, up to the one that ends the call.
use mathlib.Core.Path.{ap₂}
use mathlib.Core.List.{append-nil, append_assoc}
use go_again.Prelude.{
  ℕ, zero, suc, ◌+◌, ◌≤◌, ◌<◌, ◌≡◌, refl, sym, ap, ◌∙◌, List, [], ◌∷◌, ◌++◌, true, some, Outcome,
  arith, length, length-append,
}
use go_again.Runtime.{Runtime}
use go_again.Registry.{Registry}
use go_again.TimerPool.Invariant.{Holds}
use go_again.Retrier.{Retrier}
use go_again.Retrier.Attempt.{Prepared, attempt_again, recorded}
use go_again.Retrier.Backoff.{elapsed, wait_error, retry_interval}
use go_again.Retrier.Loop.{
  Env, Run, Finish, result, rounds, count_call, context_attempt, registry_decides, call_hook,
  after_wait, set_last,
}

-- e i, e (i + 1), ...: `k` errors.
abbrev pub errors_from : {E : Type 0} → (ℕ → E) → ℕ → ℕ → List E
errors_from e i zero = []
errors_from e i (suc k) = e i ∷ errors_from e (suc i) k

module _ {E F : Type 0} (rt : Runtime E F) where
  -- The attempts from `i` on up to `i + k` fail with errors to retry, and the pauses after them are
  -- not interrupted.
  abbrev pub Fails : Registry E → List E → Env E → (ℕ → Finish E) → (ℕ → E) → ℕ → ℕ → Type 0
  Fails reg temps env g e i zero = Unit {0}
  Fails reg temps env g e i (suc k) =
      (g i ≡ result (some (e i)))
      × (registry_decides rt reg (e i) temps ≡ true)
      × (env.wake i ≡ elapsed)
      × Fails reg temps env g e (suc i) k

  pub recorded_lem :
      (r : Retrier E F) (attempt : ℕ) (err : E) (s : Run E)
      → ((recorded rt r attempt err s).errs.attempts ≡ s.errs.attempts ++ err ∷ [])
        × ((recorded rt r attempt err s).calls ≡ s.calls)
        × ((recorded rt r attempt err s).pauses ≡ s.pauses)
  unfolding call_hook
  recorded_lem r attempt err s = (ground arith, ground arith, ground arith)

  -- One such attempt.
  one-Fails :
      {n : ℕ} {reg : Registry E} {r : Retrier E F} (p : Prepared rt n reg r) (env : Env E)
      (temps : List E) (g : ℕ → Finish E) (e : ℕ → E) (i k : ℕ) (s : Run E)
      → Fails reg temps env g e i 1
      → i < n
      → Holds (suc n) n s.pool
      → (u : Run E) × (rounds rt (λ a t. context_attempt rt r env temps a (g a) t) (suc k) i s
          ≡ rounds rt (λ a t. context_attempt rt r env temps a (g a) t) k (suc i) u)
        × Holds (suc n) n u.pool
        × (u.errs.attempts ≡ s.errs.attempts ++ e i ∷ [])
        × (u.calls ≡ suc s.calls)
        × (length u.pauses ≡ length s.pauses + 1)
  unfolding rounds context_attempt after_wait wait_error
  one-Fails {n} {reg} {r} p env temps g e i k s (ge, again, waits, _) lt h =
      let (back, handled, hb) = attempt_again rt p env temps i (e i) (count_call rt s) again lt h in
      let hooked = recorded rt r i (e i) (count_call rt s) in
      let (attempts, calls, pauses) = recorded_lem r i (e i) (count_call rt s) in
      let pause = retry_interval rt r i (env.drawn i) in
      let u =
        set_last rt (some (e i))
          (record hooked { pool = back; pauses = hooked.pauses ++ pause ∷ [] }) in
      (
        u,
        rw (ge, handled, waits) refl,
        hb,
        attempts,
        calls,
        length-append hooked.pauses (pause ∷ []) ∙ ap (λ l. length l + 1) pauses,
      )

  -- The loop of DoWithContext.
  abbrev pub loop : Retrier E F → Env E → List E → (ℕ → Finish E) → ℕ → ℕ → Run E → Outcome (Run E)
  loop r env temps g = rounds rt (λ a t. context_attempt rt r env temps a (g a) t)

  pub many_fail :
      {n : ℕ} {reg : Registry E} {r : Retrier E F} (p : Prepared rt n reg r) (env : Env E)
      (temps : List E) (g : ℕ → Finish E) (e : ℕ → E) (k m i : ℕ) (s : Run E)
      → Fails reg temps env g e i k
      → i + k ≤ n
      → Holds (suc n) n s.pool
      → (u : Run E) × (loop r env temps g (k + m) i s ≡ loop r env temps g m (i + k) u)
        × Holds (suc n) n u.pool
        × (u.errs.attempts ≡ s.errs.attempts ++ errors_from e i k)
        × (u.calls ≡ s.calls + k)
        × (length u.pauses ≡ length s.pauses + k)
  many_fail {r = r} p env temps g e zero m i s fs le h = (
    s,
    ap₂ (λ a b. loop r env temps g a b s) (omega arith) (omega arith),
    h,
    sym (append-nil s.errs.attempts),
    omega arith,
    omega arith,
  )
  many_fail {r = r} p env temps g e (suc k) m i s (f, a, w, fs) le h =
      let (u, step, hu, au, cu, pu) =
        one-Fails p env temps g e i (k + m) s (f, a, w, tt) (omega arith) h in
      let (v, steps, hv, av, cv, pv) =
        many_fail p env temps g e k m (suc i) u fs (omega arith) hu in
      (
        v,
        ap (λ t. loop r env temps g t i s) (omega arith)
            ∙ step
            ∙ steps
            ∙ ap (λ t. loop r env temps g m t v) (omega arith),
        hv,
        av
            ∙ ap (λ l. l ++ errors_from e (suc i) k) au
            ∙ append_assoc s.errs.attempts (e i ∷ []) (errors_from e (suc i) k),
        omega arith,
        omega arith,
      )
