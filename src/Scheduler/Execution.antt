-- ===== src/Scheduler/Execution.antt =====
-- scheduler.go: one attempt of execute on a response, the body that it keeps, the errors that the
-- retrier is given, and the payload. What net/http returns is an argument.
use go_again.Prelude.{
  ℕ, suc, ◌==◌, ltb, ℤ, pos, pos_part, ltb_ℤ, leb_ℤ, eq_ℤ, ◌+ℤ◌, wrap64, String, List, [], ◌∷◌,
  ◌++◌, Bool, true, false, not, ◌&&◌, Option, none, some, if◌then◌else◌, length, take, any_of,
}
use go_again.Prelude.Text.{str_eq}
use go_again.Runtime.{Runtime, Arg}
use go_again.Registry.{Registry, len, list_temporary_errors}
use go_again.Retrier.{Retrier}
use go_again.Scheduler.Normalize.{default_callback_max_body_size}
use go_again.Storage.{Time, Job, RetryPolicy, CallbackPayload}

-- executionState, and its snapshot
pub record ExecutionState : Type 0 where
  pub attempts : ℕ
  pub last_status : ℤ
  pub last_body : List ℕ

abbrev pub new_execution_state : ExecutionState
new_execution_state = record { attempts = 0; last_status = pos 0; last_body = [] }

-- A response body: its bytes, and the errors of ReadAll and of the Copy that drains it.
pub record Body (E : Type 0) : Type 0 where
  pub content : List ℕ
  pub read_error : Option E
  pub drain_error : Option E

-- What becomes of a request
pub data Sent (E : Type 0) : Type 0 where
  not_created : E → Sent E
  not_sent : E → Sent E
  answered : ℤ → Body E → Sent E

unfoldable pub increment_attempts : ExecutionState → ExecutionState
increment_attempts s = record s { attempts = suc s.attempts }

unfoldable pub set_last_response : ℤ → List ℕ → ExecutionState → ExecutionState
set_last_response status body s = record s { last_status = status; last_body = body }

-- isRetryableStatus
unfoldable pub is_retryable_status : ℤ → List ℤ → Bool
is_retryable_status code statuses = any_of (eq_ℤ code) statuses

-- `if limit <= 0 { limit = defaultCallbackMaxBodySize }`
unfoldable pub body_limit : ℤ → ℤ
body_limit limit = if leb_ℤ limit (pos 0) then default_callback_max_body_size else limit

-- io.LimitReader(body, int64(limit)+1), read to its end, and cut to the limit
unfoldable pub limited : ℤ → List ℕ → List ℕ
limited limit content =
    let read = take (pos_part (wrap64 (limit +ℤ pos 1))) content in
    if ltb_ℤ limit (pos (length read)) then take (pos_part limit) read else read

module _ {E F : Type 0} (rt : Runtime E F) where
  -- The drain of a body, with the data that comes with it
  unfoldable pub drained : List ℕ → Option E → List ℕ × Option E
  drained content none = (content, none)
  drained content (some err) = (content, some (rt.wrap err "draining body failed"))

  unfoldable pub read_body : Body E → Bool → ℤ → List ℕ × Option E
  unfolding drained body_limit limited
  read_body body include limit =
      if not include then drained [] body.drain_error else elim body.read_error [
        | some err ↦ ([], some (rt.wrap err "reading body failed"))
        | none ↦ drained (limited (body_limit limit) body.content) body.drain_error
      ]

  -- buildTemporaryErrors
  unfoldable pub policy_errors : RetryPolicy E F → List E
  policy_errors policy =
      (if length policy.retry_status_codes == 0 then [] else rt.retryable_status ∷ [])
      ++ policy.temporary_errors

  -- `retrier.Registry != nil && retrier.Registry.Len() > 0`, and what is appended
  unfoldable pub registry_errors : Option (Registry E) → List E
  unfolding list_temporary_errors
  registry_errors none = []
  registry_errors (some reg) = if ltb 0 (len rt reg) then list_temporary_errors rt reg else []

  unfoldable pub build_temporary_errors : Retrier E F → RetryPolicy E F → List E
  unfolding policy_errors registry_errors
  build_temporary_errors retrier policy =
      let temp = policy_errors policy in
      if ltb 0 (length temp) then temp ++ registry_errors retrier.registry else temp

  -- The error of an attempt with this status; `status_error` is &StatusError{StatusCode: code}.
  unfoldable pub status_result : (ℤ → E) → List ℤ → ℤ → Option E
  unfolding is_retryable_status
  status_result status_error codes code =
      if leb_ℤ (pos 200) code && ltb_ℤ code (pos 300)
      then none
      else if is_retryable_status code codes
      then some (rt.wrapf rt.retryable_status "status %d" (Arg.int code ∷ []))
      else some (status_error code)

  -- The function that execute gives to DoWithContext
  unfoldable pub attempt : (ℤ → E) → Job E F → Sent E → ExecutionState → ExecutionState × Option E
  unfolding increment_attempts set_last_response status_result read_body
  attempt status_error job (not_created err) s = (
    increment_attempts s,
    some (
        rt.wrapf err "failed to create request for %s %s"
          (Arg.text job.request.method ∷ Arg.text job.request.url ∷ [])),
  )
  attempt status_error job (not_sent err) s =
      (increment_attempts s, some (rt.wrap err "request failed"))
  attempt status_error job (answered code body) s = (
    set_last_response code
        (read_body body (not (str_eq job.callback.url "")) job.callback.max_body_bytes).0
        (increment_attempts s),
    status_result status_error job.retry_policy.retry_status_codes code,
  )

  -- The payload, with errs.Last; `text` is err.Error(), and `decoded` is string(body).
  unfoldable pub execution_payload :
      (E → String)
      → (List ℕ → String)
      → Job E F
      → Time
      → Time
      → Time
      → ExecutionState
      → Option E
      → CallbackPayload
  execution_payload text decoded job scheduled_at started_at finished_at s last = record {
    job_id = job.id;
    scheduled_at = scheduled_at;
    started_at = started_at;
    finished_at = finished_at;
    attempts = s.attempts;
    success = elim last [ none ↦ true | some err ↦ false ];
    status_code = s.last_status;
    error = elim last [ none ↦ "" | some err ↦ text err ];
    response_body = decoded s.last_body;
  }
