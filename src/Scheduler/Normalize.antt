-- ===== src/Scheduler/Normalize.antt =====
-- scheduler.go: normalizeJob and its parts, which Schedule runs before it registers a job. The Wrap of
-- a Sprintf is written as a Wrapf.
pub use go_again.Prelude.{Checked, accepted, refused, and_then}
use go_again.Prelude.{
  ℕ, ℤ, pos, leb_ℤ, ltb_ℤ, ltb, String, [], ◌∷◌, Bool, not, ◌&&◌, ◌||◌, Option, none, some,
  if◌then◌else◌, Outcome, done, panicked,
}
use go_again.Prelude.Text.{str_eq}
use go_again.Runtime.{Runtime, Arg}
use go_again.Registry.{load_defaults}
use go_again.Retrier.{Retrier, new_retrier}
use go_again.Storage.{Schedule, Request, Callback, Job}

-- strings.ToUpper, the text of fmt.Sprintf("job-%d", id), and the URL validator of github.com/hyp3rd/sectools, which may be nil: it returns
-- the normalized URL or an error.
pub record Web (E : Type 0) : Type 0 where
  pub to_upper : String → String
  pub job_name : ℕ → String
  pub url_validator : Option (String → Checked E String)

unfoldable pub is_supported_method : String → Bool
is_supported_method method = str_eq method "GET" || (str_eq method "POST" || str_eq method "PUT")

abbrev pub default_callback_max_body_size : ℤ
default_callback_max_body_size = pos 4096

module _ {E F : Type 0} (rt : Runtime E F) (web : Web E) where
  unfoldable pub validate_schedule : Schedule → Option E
  validate_schedule s =
      if leb_ℤ s.every (pos 0)
      then some (rt.wrap rt.invalid_job "schedule interval must be > 0")
      else if ltb_ℤ s.max_runs (pos 0)
      then some (rt.wrap rt.invalid_job "max runs must be >= 0")
      else if ltb 0 s.end_at && (ltb 0 s.start_at && ltb s.end_at s.start_at)
      then some (rt.wrap rt.invalid_job "end time precedes start time")
      else none

  -- What the validator returned, with the message for an URL that it refuses
  unfoldable pub checked_url : String → Checked E String → Checked E String
  checked_url message (accepted normalized) = accepted normalized
  checked_url message (refused err) = refused (rt.wrapf rt.invalid_job message (Arg.error err ∷ []))

  -- `if s.urlValidator != nil`
  unfoldable pub normalize_url : String → String → Checked E String
  unfolding checked_url
  normalize_url message url = elim web.url_validator [
    | none ↦ accepted url
    | some validate ↦ checked_url message (validate url)
  ]

  -- The method with its default, in capitals, if it is supported.
  unfoldable pub normalize_method : String → String → Checked E String
  unfolding is_supported_method
  normalize_method default method =
      let upper = web.to_upper (if str_eq method "" then default else method) in
      if not (is_supported_method upper)
      then refused (rt.wrap rt.unsupported_method upper)
      else accepted upper

  unfoldable pub normalize_request : Request → Checked E Request
  unfolding normalize_method normalize_url
  normalize_request request =
      if str_eq request.url ""
      then refused (rt.wrap rt.invalid_job "request URL is required")
      else and_then (normalize_method "GET" request.method) (λ method.
        and_then (normalize_url "request URL invalid: %v" request.url)
          (λ url. accepted (record request { method = method; url = url })))

  unfoldable pub normalize_callback : Callback → Checked E Callback
  unfolding normalize_method normalize_url
  normalize_callback callback =
      if str_eq callback.url ""
      then accepted callback
      else and_then (normalize_method "POST" callback.method) (λ method.
        and_then (normalize_url "callback URL invalid: %v" callback.url) (λ url.
          accepted (record callback {
            method = method;
            url = url;
            max_body_bytes =
                if leb_ℤ callback.max_body_bytes (pos 0)
                then default_callback_max_body_size
                else callback.max_body_bytes;
          })))

  -- What NewRetrier returned, with the defaults loaded into its registry; a method call on a nil
  -- registry panics.
  unfoldable pub created :
      Job E F → Outcome (Retrier E F × Option E) → Outcome (Checked E (Job E F))
  created job Outcome.blocked = Outcome.blocked
  created job panicked = panicked
  created job (done (retrier, some err)) =
      done (refused (rt.wrapf rt.invalid_job "failed to create retrier: %v" (Arg.error err ∷ [])))
  created job (done (retrier, none)) = elim retrier.registry [
    | none ↦ panicked
    | some registry ↦ done (
        accepted (record job {
          retry_policy = record job.retry_policy {
            retrier = some (record retrier { registry = some (load_defaults rt registry) });
          };
        }))
  ]

  -- ensureRetrier; `parent` is the cause of the scheduler's context, if that is done.
  unfoldable pub ensure_retrier : Option E → Job E F → Outcome (Checked E (Job E F))
  unfolding created
  ensure_retrier parent job = elim job.retry_policy.retrier [
    | some retrier ↦ done (accepted job)
    | none ↦ created job (new_retrier rt parent [])
  ]

  -- The steps of normalizeJob before ensureRetrier.
  unfoldable pub prepare_job : Job E F → Checked E (Job E F)
  unfolding validate_schedule normalize_request normalize_callback
  prepare_job job = elim (validate_schedule job.schedule) [
    | some err ↦ refused err
    | none ↦ and_then (normalize_request job.request) (λ request.
        and_then (normalize_callback job.callback)
          (λ callback. accepted (record job { request = request; callback = callback })))
  ]

  unfoldable pub normalize_job : Option E → Job E F → Outcome (Checked E (Job E F))
  unfolding prepare_job ensure_retrier
  normalize_job parent job = elim (prepare_job job) [
    | refused err ↦ done (refused err)
    | accepted prepared ↦ ensure_retrier parent prepared
  ]
