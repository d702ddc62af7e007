-- ===== src/Retrier/Preparation.antt =====
-- ensureInitialized and errorsPool.Get leave a retrier that is ready for a call ready for it.
use go_again.Prelude.{
  ℕ, suc, ◌≡◌, refl, ap, List, [], ◌∷◌, Bool, true, Option, none, some, done, arith, Bool-cases,
  inl, inr, if_elim,
}
use go_again.Runtime.{Runtime}
use go_again.Registry.{Registry}
use go_again.TimerPool.{TimerPool}
use go_again.TimerPool.Invariant.{Holds}
use go_again.Retrier.{
  Retrier, Context, no_errors, reset_errors, Errors, validate, ensure_initialized, make_timer_pool,
  make_registry, ensure_context,
}
use go_again.Retrier.Validation.{validate-Accepts}
use go_again.Retrier.Attempt.{Prepared}
use go_again.Retrier.Loop.{take_errors}

module _ {E F : Type 0} (rt : Runtime E F) where
  -- The fields that the initialisation and the calls write do not matter to a prepared retrier, but
  -- for its registry and its pool.
  pub reframe :
      {n : ℕ} {reg : Registry E} {r : Retrier E F}
      → Prepared rt n reg r
      → (initialised ensured logs pooled : Bool) (free : List (Errors E)) (ctx : Option (Context E))
        (chosen : Option (Registry E)) (timer : Option TimerPool) (pool : TimerPool)
      → chosen ≡ some reg
      → timer ≡ some pool
      → Holds (suc n) (suc n) pool
      → Prepared rt n reg (record r {
        init_once = initialised;
        ctx_once = ensured;
        logger = logs;
        errors_pool_new = pooled;
        errors_pool = free;
        ctx = ctx;
        registry = chosen;
        timer = timer;
      })
  reframe p i e l n f c chosen timer pool rc rt h = record {
    accepts = record {
      max_retries = p.accepts.max_retries;
      interval = p.accepts.interval;
      jitter = p.accepts.jitter;
      timeout = p.accepts.timeout;
      interval_timeout = p.accepts.interval_timeout;
      product = p.accepts.product;
      factor = p.accepts.factor;
    };
    retries = p.retries;
    has_registry = rc;
    pool = pool;
    has_pool = rt;
    holds = h;
  }

  ensure_context-Prepared :
      {n : ℕ} {reg : Registry E} (q : Retrier E F)
      → Prepared rt n reg q
      → Prepared rt n reg (ensure_context rt q)
  unfolding ensure_context
  ensure_context-Prepared {n} {reg} q p = if_elim (Prepared rt n reg) q.ctx_once p (
      reframe p q.init_once true q.logger q.errors_pool_new q.errors_pool _ q.registry q.timer
        p.pool p.has_registry p.has_pool p.holds)

  -- ensureInitialized leaves a prepared retrier prepared.
  pub ensure_initialized_lem :
      {n : ℕ} {reg : Registry E} (r : Retrier E F)
      → Prepared rt n reg r
      → (ready : Retrier E F) × (ensure_initialized rt r ≡ done ready) × Prepared rt n reg ready
  unfolding ensure_initialized make_timer_pool make_registry
  ensure_initialized_lem {n} {reg} r p = elim (Bool-cases r.init_once) [
    | inl again ↦ (r, ground arith, p)
    | inr first ↦
        let made : make_timer_pool rt r r.timer ≡ done p.pool =
          ap (make_timer_pool rt r) p.has_pool in
        let chosen : make_registry rt r.registry ≡ reg = ap (make_registry rt) p.has_registry in
        let q = record r {
          init_once = true;
          registry = some reg;
          logger = true;
          errors_pool_new = true;
          timer = some p.pool;
        } in
        (
          ensure_context rt q,
          rw (first, made, chosen) refl,
          ensure_context-Prepared q (
              reframe p true r.ctx_once true true r.errors_pool r.ctx (some reg) (some p.pool)
                p.pool refl refl p.holds),
        )
  ]

  take_errors_lem :
      {n : ℕ} {reg : Registry E} (r : Retrier E F) (free : List (Errors E))
      → Prepared rt n reg r
      → ((take_errors rt r free).0 ≡ no_errors E) × Prepared rt n reg (take_errors rt r free).1
  unfolding take_errors reset_errors
  take_errors_lem r [] p = (refl, p)
  take_errors_lem r (e ∷ es) p = (
    refl,
    reframe p r.init_once r.ctx_once r.logger r.errors_pool_new es r.ctx r.registry r.timer p.pool
        p.has_registry p.has_pool p.holds,
  )

  -- What a call of a prepared retrier starts from: no errors, and a prepared retrier that Validate
  -- accepts.
  pub taken :
      {n : ℕ} {reg : Registry E} (r : Retrier E F)
      → Prepared rt n reg r
      → ((take_errors rt r r.errors_pool).0 ≡ no_errors E)
        × Prepared rt n reg (take_errors rt r r.errors_pool).1
        × (validate rt (take_errors rt r r.errors_pool).1 ≡ none)
  taken r p =
      let (empty, q) = take_errors_lem r r.errors_pool p in
      (empty, q, (validate-Accepts rt (take_errors rt r r.errors_pool).1).1 q.accepts)
