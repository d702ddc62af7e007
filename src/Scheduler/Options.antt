-- ===== src/Scheduler/Options.antt =====
-- options.go: the options of a scheduler, on the fields that they set.
use go_again.Prelude.{ℕ, ℤ, pos, pos_part, ltb_ℤ, Bool, true, Option, none, some, if◌then◌else◌}

-- A nil pointer or interface is `none`; the semaphore is its capacity.
pub record Settings (Client Logger Storage Validator : Type 0) : Type 0 where
  pub client : Client
  pub logger : Option Logger
  pub sem : Option ℕ
  pub history_limit : ℤ
  pub jobs_storage : Storage
  pub url_validator : Option Validator
  pub url_validator_configured : Bool

module _ {Client Logger Storage Validator : Type 0} where
  unfoldable pub with_http_client :
      Option Client
      → Settings Client Logger Storage Validator
      → Settings Client Logger Storage Validator
  with_http_client none s = s
  with_http_client (some client) s = record s { client = client }

  unfoldable pub with_scheduler_logger :
      Option Logger
      → Settings Client Logger Storage Validator
      → Settings Client Logger Storage Validator
  with_scheduler_logger logger s = record s { logger = logger }

  unfoldable pub with_concurrency :
      ℤ → Settings Client Logger Storage Validator → Settings Client Logger Storage Validator
  with_concurrency n s = if ltb_ℤ (pos 0) n then record s { sem = some (pos_part n) } else s

  unfoldable pub with_history_limit :
      ℤ → Settings Client Logger Storage Validator → Settings Client Logger Storage Validator
  with_history_limit limit s = if ltb_ℤ (pos 0) limit then record s { history_limit = limit } else s

  unfoldable pub with_jobs_storage :
      Option Storage
      → Settings Client Logger Storage Validator
      → Settings Client Logger Storage Validator
  with_jobs_storage none s = s
  with_jobs_storage (some storage) s = record s { jobs_storage = storage }

  unfoldable pub with_url_validator :
      Option Validator
      → Settings Client Logger Storage Validator
      → Settings Client Logger Storage Validator
  with_url_validator validator s = record s {
    url_validator = validator;
    url_validator_configured = true;
  }
