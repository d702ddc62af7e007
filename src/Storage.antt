-- ===== src/Storage.antt =====
-- pkg/scheduler/types.go: the data of the scheduler, and the maps that storage.go keeps it in.
pub mod Map
pub mod Sorting
pub mod Memory
pub mod Operations
pub mod Entry
pub mod History
pub mod Reuse
pub mod Listing
pub mod Sqlite
use go_again.Retrier.{Retrier}
use go_again.Prelude.{ℕ, ℤ, String, List, Bool, Option}

-- An instant, in nanoseconds since the zero time.Time, which is `0`.
abbrev pub Time : Type 0
Time = ℕ

pub data JobState : Type 0 where
  scheduled running completed canceled removed stopped : JobState

pub record Schedule : Type 0 where
  pub every : ℤ
  pub start_at : Time
  pub end_at : Time
  pub max_runs : ℤ

-- Headers are the entries of the map; a body is a list of bytes.
pub record Request : Type 0 where
  pub method : String
  pub url : String
  pub headers : List (String × String)
  pub body : List ℕ
  pub timeout : ℤ

pub record Callback : Type 0 where
  pub url : String
  pub method : String
  pub headers : List (String × String)
  pub timeout : ℤ
  pub max_body_bytes : ℤ

-- A nil retrier is `none`.
pub record RetryPolicy (E F : Type 0) : Type 0 where
  pub retrier : Option (Retrier E F)
  pub temporary_errors : List E
  pub retry_status_codes : List ℤ

pub record Job (E F : Type 0) : Type 0 where
  pub id : String
  pub schedule : Schedule
  pub request : Request
  pub callback : Callback
  pub retry_policy : RetryPolicy E F

-- ResponseBody is a text; the source also puts bytes into it that are no UTF-8, if readBody cuts a body
-- inside a character.
pub record CallbackPayload : Type 0 where
  pub job_id : String
  pub scheduled_at : Time
  pub started_at : Time
  pub finished_at : Time
  pub attempts : ℕ
  pub success : Bool
  pub status_code : ℤ
  pub error : String
  pub response_body : String

pub record JobStatus : Type 0 where
  pub job_id : String
  pub state : JobState
  pub created_at : Time
  pub updated_at : Time
  pub runs : ℕ
  pub active_runs : ℕ
  pub last_run : Option CallbackPayload

pub record JobRun : Type 0 where
  pub sequence : ℕ
  pub payload : CallbackPayload

unfoldable pub JobState-discrete : Discrete JobState
JobState-discrete = hlevel
