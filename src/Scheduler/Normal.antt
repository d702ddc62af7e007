-- ===== src/Scheduler/Normal.antt =====
-- What a job that normalizeJob accepts looks like.
use go_again.Prelude.{
  pos, ltb, ◌≤ℤ◌, ◌<ℤ◌, String, true, false, ◌&&◌, ◌||◌, none, some, ◌≡◌, refl, ◌≢◌, inl, inr,
  arith, Bool-cases, Option-cases,
}
use go_again.Prelude.Text.{str_eq}
use go_again.Runtime.{Runtime, Unwraps}
use go_again.Storage.{Schedule, Request, Callback, Job}
use go_again.Scheduler.Normalize.{
  Checked, accepted, refused, and_then, Web, is_supported_method, validate_schedule, checked_url,
  normalize_url, normalize_method, normalize_request, normalize_callback, prepare_job,
}

-- `P` holds of an accepted result and `R` of the error of a refused one.
abbrev pub Ensures : {E A : Type 0} → (A → Type 0) → (E → Type 0) → Checked E A → Type 0
Ensures P R (accepted a) = P a
Ensures P R (refused err) = R err

and_then-Ensures :
    {E A B : Type 0} (P : B → Type 0) (R : E → Type 0) (m : Checked E A) (f : A → Checked E B)
    → ((a : A) → m ≡ accepted a → Ensures P R (f a))
    → ((err : E) → m ≡ refused err → R err)
    → Ensures P R (and_then m f)
and_then-Ensures P R (accepted a) f h k = h a refl
and_then-Ensures P R (refused err) f h k = k err refl

-- A schedule that validateSchedule allows.
pub record IsTimely (s : Schedule) : Type 0 where
  pub every : pos 0 <ℤ s.every
  pub max_runs : pos 0 ≤ℤ s.max_runs
  pub window : (ltb 0 s.end_at && (ltb 0 s.start_at && ltb s.end_at s.start_at)) ≡ false

-- A callback without a URL is not sent.
pub record IsSendable (c : Callback) : Type 0 where
  pub method : str_eq c.url "" ≡ false → is_supported_method c.method ≡ true
  pub max_body_bytes : str_eq c.url "" ≡ false → pos 0 <ℤ c.max_body_bytes

pub record IsNormal {E F : Type 0} (job : Job E F) : Type 0 where
  pub schedule : IsTimely job.schedule
  pub method : is_supported_method job.request.method ≡ true
  pub callback : IsSendable job.callback
  pub retrier : job.retry_policy.retrier ≢ none

module _ {E F : Type 0} (rt : Runtime E F) (web : Web E) where
  -- The errors of a refused job.
  abbrev pub IsRefusal : E → Type 0
  IsRefusal err = (rt.is err rt.invalid_job || rt.is err rt.unsupported_method) ≡ true

  validate_schedule-IsTimely : (s : Schedule) → validate_schedule rt web s ≡ none → IsTimely s
  unfolding validate_schedule
  validate_schedule-IsTimely s h = record {
    every = ground arith;
    max_runs = ground arith;
    window = ground arith;
  }

  normalize_method_lem :
      (default method : String) {upper : String}
      → normalize_method rt web default method ≡ accepted upper
      → is_supported_method upper ≡ true
  unfolding normalize_method
  normalize_method_lem default method h = ground arith

  normalize_method-IsRefusal :
      (default method : String) (err : E)
      → Unwraps rt
      → normalize_method rt web default method ≡ refused err
      → IsRefusal err
  unfolding normalize_method
  normalize_method-IsRefusal default method err u h = grind (arith, u.is-wrap, u.is_refl)

  checked_url-IsRefusal :
      (message : String) (c : Checked E String) (err : E)
      → Unwraps rt
      → checked_url rt web message c ≡ refused err
      → IsRefusal err
  unfolding checked_url
  checked_url-IsRefusal message (accepted url) err u h = cc
  checked_url-IsRefusal message (refused e) err u h = grind (arith, u.is-wrapf, u.is_refl)

  normalize_url-IsRefusal :
      (message url : String) (err : E)
      → Unwraps rt
      → normalize_url rt web message url ≡ refused err
      → IsRefusal err
  unfolding normalize_url
  normalize_url-IsRefusal message url err u h = elim (Option-cases web.url_validator) [
    | inl missing ↦ absurd (ground (arith, rw missing at h))
    | inr (validate, found) ↦ checked_url-IsRefusal message (validate url) err u (rw found at h)
  ]

  validate_schedule-IsRefusal :
      (s : Schedule) (err : E) → Unwraps rt → validate_schedule rt web s ≡ some err → IsRefusal err
  unfolding validate_schedule
  validate_schedule-IsRefusal s err u h = grind (arith, u.is-wrap, u.is_refl)

  -- Of a request only the method and the URL change.
  abbrev pub OfRequest : Request → Request → Type 0
  OfRequest q q' =
      (is_supported_method q'.method ≡ true)
      × (q'.headers ≡ q.headers)
      × (q'.body ≡ q.body)
      × (q'.timeout ≡ q.timeout)

  normalize_request_lem :
      (q : Request) → Unwraps rt → Ensures (OfRequest q) IsRefusal (normalize_request rt web q)
  unfolding normalize_request
  normalize_request_lem q u = elim (Bool-cases (str_eq q.url "")) [
    | inl empty ↦ rw empty (grind (arith, u.is-wrap, u.is_refl))
    | inr given ↦ rw given (
        and_then-Ensures (OfRequest q) IsRefusal (normalize_method rt web "GET" q.method) _
          (λ method em.
            and_then-Ensures (OfRequest q) IsRefusal
              (normalize_url rt web "request URL invalid: %v" q.url) _
              (λ url eu. (normalize_method_lem "GET" q.method em, refl, refl, refl))
              (λ err e. normalize_url-IsRefusal _ q.url err u e))
          (λ err e. normalize_method-IsRefusal _ q.method err u e))
  ]

  abbrev pub OfCallback : Callback → Callback → Type 0
  OfCallback c c' = IsSendable c' × (c'.headers ≡ c.headers) × (c'.timeout ≡ c.timeout)

  normalize_callback_lem :
      (c : Callback) → Unwraps rt → Ensures (OfCallback c) IsRefusal (normalize_callback rt web c)
  unfolding normalize_callback
  normalize_callback_lem c u = elim (Bool-cases (str_eq c.url "")) [
    | inl empty ↦ rw empty (
      record { method = λ given. absurd (cc); max_body_bytes = λ given. absurd (cc) },
      refl,
      refl,
    )
    | inr given ↦ rw given (
        and_then-Ensures (OfCallback c) IsRefusal (normalize_method rt web "POST" c.method) _
          (λ method em.
            and_then-Ensures (OfCallback c) IsRefusal
              (normalize_url rt web "callback URL invalid: %v" c.url) _
              (λ url eu. (
                record {
                  method = λ _. normalize_method_lem "POST" c.method em;
                  max_body_bytes = λ _. ground arith;
                },
                refl,
                refl,
              ))
              (λ err e. normalize_url-IsRefusal _ c.url err u e))
          (λ err e. normalize_method-IsRefusal _ c.method err u e))
  ]

  -- Of a job its ID, its schedule and its lists of retryable errors and codes stay as they are.
  abbrev pub OfJob : Job E F → Job E F → Type 0
  OfJob job job' =
      IsNormal job'
      × (job'.id ≡ job.id)
      × (job'.schedule ≡ job.schedule)
      × OfRequest job.request job'.request
      × OfCallback job.callback job'.callback
      × (job'.retry_policy.temporary_errors ≡ job.retry_policy.temporary_errors)
      × (job'.retry_policy.retry_status_codes ≡ job.retry_policy.retry_status_codes)

  -- The same before ensureRetrier.
  abbrev pub Prepares : Job E F → Job E F → Type 0
  Prepares job job' =
      IsTimely job.schedule
      × OfRequest job.request job'.request
      × OfCallback job.callback job'.callback
      × (job'.id ≡ job.id)
      × (job'.schedule ≡ job.schedule)
      × (job'.retry_policy ≡ job.retry_policy)

  pub prepare_job_lem :
      (job : Job E F) → Unwraps rt → Ensures (Prepares job) IsRefusal (prepare_job rt web job)
  unfolding prepare_job
  prepare_job_lem job u = elim (Option-cases (validate_schedule rt web job.schedule)) [
    | inr (err, found) ↦
        rw (found, prepare_job) (validate_schedule-IsRefusal job.schedule err u found)
    | inl timely ↦
        rw (timely, prepare_job)
          (and_then-Ensures (Prepares job) IsRefusal (normalize_request rt web job.request) _
            (λ request er.
              and_then-Ensures (Prepares job) IsRefusal (normalize_callback rt web job.callback) _
                (λ callback ec. (
                  validate_schedule-IsTimely job.schedule timely,
                  rw er at (normalize_request_lem job.request u),
                  rw ec at (normalize_callback_lem job.callback u),
                  refl,
                  refl,
                  refl,
                ))
                (λ err e. rw e at (normalize_callback_lem job.callback u)))
            (λ err e. rw e at (normalize_request_lem job.request u)))
  ]
