-- ===== src/Scheduler/Default.antt =====
-- normalizeJob as a whole: the default retrier that it gives to a job without one, and what it accepts.
use mathlib.Core.Path.{subst}
use go_again.TimerPool.{TimerPool}
use go_again.Prelude.{
  wrap64, pos, false, Option, none, some, done, ◌≡◌, refl, sym, ap, ◌∙◌, inl, inr, arith,
  Option-cases, [],
}
use go_again.Runtime.{Runtime, Unwraps}
use go_again.Registry.{load_defaults, new_registry}
use go_again.Retrier.{Retrier, validate, default_retrier, configured, apply_options}
use go_again.Retrier.Validation.{validate-Accepts, new_retrier_lem}
use go_again.Storage.{Job, RetryPolicy}
use go_again.Scheduler.Normalize.{
  Checked, accepted, refused, Web, created, ensure_retrier, prepare_job, normalize_job,
}
use go_again.Scheduler.Normal.{Ensures, IsRefusal, OfJob, IsTimely, prepare_job_lem}

module _ {E F : Type 0} (rt : Runtime E F) (web : Web E) where
  default_valid : rt.le_one (rt.of_int (pos 2)) ≡ false → validate rt (configured rt []) ≡ none
  unfolding default_retrier apply_options wrap64
  default_valid factor = (validate-Accepts rt (configured rt [])).1 (record {
    max_retries = omega arith;
    interval = omega arith;
    jitter = omega arith;
    timeout = omega arith;
    interval_timeout = omega arith;
    product = omega arith;
    factor = factor;
  })

  -- The default retrier of a job, with its pool.
  abbrev default_of : Option E → TimerPool → Retrier E F
  default_of parent pool = record (configured rt []) {
    timer = some pool;
    ctx = some (record { cause = parent });
    registry = some (load_defaults rt (new_registry E));
  }

  ensure_retrier_lem :
      (parent : Option E) (job : Job E F)
      → rt.le_one (rt.of_int (pos 2)) ≡ false
      → (r : Retrier E F) × (ensure_retrier rt web parent job
          ≡ done (
              accepted
                (record job { retry_policy = record job.retry_policy { retrier = some r } })))
  unfolding ensure_retrier
  ensure_retrier_lem parent job factor = elim (Option-cases job.retry_policy.retrier) [
    | inr (r, given) ↦ (r, rw given refl)
    | inl missing ↦
        let (pool, e, _, _) =
          (new_retrier_lem rt parent []).1 (default_valid factor)
            (unfold default_retrier apply_options in omega arith) in
        (
          default_of parent pool,
          rw (missing, ensure_retrier)
              (ap (created rt web job) e ∙ unfold created default_retrier apply_options in refl),
        )
  ]

  -- If errors.Is sees through ewrap's wrappers and 2 is above 1 as a float64, normalizeJob of any job,
  -- with any URL validator, returns without a panic. An error is an ErrInvalidJob or an
  -- ErrUnsupportedMethod. An accepted job has a positive interval, a limit of runs that is not
  -- negative, an end that is not before its start, a supported method for its request, and for its
  -- callback with a positive body limit if it has one, and a retrier; its ID, schedule, headers, bodies,
  -- timeouts and lists of retryable errors and codes are those of the job that was given.
  pub normalize_job_lem :
      (parent : Option E) (job : Job E F)
      → Unwraps rt
      → rt.le_one (rt.of_int (pos 2)) ≡ false
      → (c : Checked E (Job E F)) × (normalize_job rt web parent job ≡ done c)
        × Ensures (OfJob rt web job) (IsRefusal rt web) c
  unfolding normalize_job
  normalize_job_lem parent job u factor = go (prepare_job rt web job) refl
    where
      go :
          (p : Checked E (Job E F))
          → p ≡ prepare_job rt web job
          → (c : Checked E (Job E F)) × (normalize_job rt web parent job ≡ done c)
            × Ensures (OfJob rt web job) (IsRefusal rt web) c
      go (refused err) e = (
        refused err,
        rw (sym e, normalize_job) refl,
        rw (sym e) at (prepare_job_lem rt web job u),
      )
      go (accepted q) e =
          let (timely, request, callback, id, schedule, policy) =
            rw (sym e) at (prepare_job_lem rt web job u) in
          let (r, made) = ensure_retrier_lem parent q factor in
          (
            accepted (record q { retry_policy = record q.retry_policy { retrier = some r } }),
            rw (sym e, normalize_job) made,
            (
              record {
                schedule = subst IsTimely (sym schedule) timely;
                method = request.0;
                callback = callback.0;
                retrier = λ h. cc;
              },
              id,
              schedule,
              request,
              callback,
              ap (λ (x : RetryPolicy E F). x.temporary_errors) policy,
              ap (λ (x : RetryPolicy E F). x.retry_status_codes) policy,
            ),
          )
