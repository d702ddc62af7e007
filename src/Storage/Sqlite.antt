-- ===== src/Storage/Sqlite.antt =====
-- pkg/scheduler/storage_sqlite.go: the rows that SQLiteJobsStorage keeps, and what it takes from
-- database/sql, modernc.org/sqlite and goccy/go-json: a function for each SQL statement of the file.
pub mod Setup
pub mod Records
pub mod Methods
pub mod Queries
pub mod Laws
pub mod Calls
pub mod RowCounts
pub mod Returned
pub mod Pruning
pub mod Retention
pub mod Errors
pub mod Simulation
pub mod Changes
pub mod Scans
pub mod Reading
pub mod KeptRows
pub mod Recorded
pub mod Saving
pub mod Agreement
pub mod AsRows
pub mod Promises
pub mod Success
pub mod Trimming
pub mod Atomic
pub use go_again.Prelude.{Checked, accepted, refused, and_then}
use go_again.Prelude.{
  ℕ, ◌+◌, ◌*◌, ◌==◌, ℤ, pos, negsuc, ltb_ℤ, leb_ℤ, sub_ℕ, wrap64, String, List, [], ◌∷◌, Bool, true,
  Option, none, some, if◌then◌else◌,
}
use go_again.Storage.{Time, JobState, CallbackPayload, JobStatus}

-- The error of a method that returns nothing else; `none` is nil.
abbrev pub error_of : {E A : Type 0} → Checked E A → Option E
error_of (accepted a) = none
error_of (refused err) = some err

pub record SqliteHistoryRetentionOptions : Type 0 where
  pub max_age : ℤ
  pub max_rows_per_job : ℤ

abbrev pub no_retention : SqliteHistoryRetentionOptions
no_retention = record { max_age = pos 0; max_rows_per_job = pos 0 }

-- The options of the constructor, on the retention of the storage
unfoldable pub with_sqlite_history_max_age :
    ℤ → SqliteHistoryRetentionOptions → SqliteHistoryRetentionOptions
with_sqlite_history_max_age max_age s =
    if ltb_ℤ (pos 0) max_age then record s { max_age = max_age } else s

unfoldable pub with_sqlite_history_max_rows_per_job :
    ℤ → SqliteHistoryRetentionOptions → SqliteHistoryRetentionOptions
with_sqlite_history_max_rows_per_job max_rows s =
    if ltb_ℤ (pos 0) max_rows then record s { max_rows_per_job = max_rows } else s

unfoldable pub with_sqlite_history_retention :
    SqliteHistoryRetentionOptions → SqliteHistoryRetentionOptions → SqliteHistoryRetentionOptions
with_sqlite_history_retention retention s = record {
  max_age = if ltb_ℤ (pos 0) retention.max_age then retention.max_age else s.max_age;
  max_rows_per_job =
      if ltb_ℤ (pos 0) retention.max_rows_per_job
      then retention.max_rows_per_job
      else s.max_rows_per_job;
}

pub record SqliteStatusData : Type 0 where
  pub job_id : String
  pub state : JobState
  pub created_at : Time
  pub updated_at : Time
  pub runs : ℕ
  pub active_runs : ℕ
  pub last_run : Option CallbackPayload

-- sqliteStatusRecord; one that is not found is `none`.
pub record SqliteStatusRecord : Type 0 where
  pub status : SqliteStatusData
  pub active_runs : ℕ
  pub terminal : Bool
  pub last_sequence : ℕ

unfoldable pub sqlite_status_to_job_status : SqliteStatusData → ℕ → JobStatus
sqlite_status_to_job_status status active_runs = record {
  job_id = status.job_id;
  state = status.state;
  created_at = status.created_at;
  updated_at = status.updated_at;
  runs = status.runs;
  active_runs = active_runs;
  last_run = status.last_run;
}

unfoldable pub job_status_to_sqlite_status : JobStatus → SqliteStatusData
job_status_to_sqlite_status status = record {
  job_id = status.job_id;
  state = status.state;
  created_at = status.created_at;
  updated_at = status.updated_at;
  runs = status.runs;
  active_runs = status.active_runs;
  last_run = status.last_run;
}

-- time.Time.UnixNano of an instant, which is undefined outside an int64
abbrev pub unix_epoch : ℕ
unix_epoch = 62135596800 * 1000000000

-- payloadFinishedAtUnixNano
unfoldable pub payload_finished_at_unix_nano : CallbackPayload → ℤ
payload_finished_at_unix_nano payload =
    if payload.finished_at == 0 then pos 0 else wrap64 (sub_ℕ payload.finished_at unix_epoch)

-- mergeHistoryLimit
unfoldable pub merge_history_limit : ℤ → ℤ → ℤ
merge_history_limit limit max_rows =
    if leb_ℤ max_rows (pos 0)
    then limit
    else if leb_ℤ limit (pos 0)
    then max_rows
    else if leb_ℤ limit max_rows
    then limit
    else max_rows

-- A row of scheduler_job_status but its ID, and one of scheduler_job_history; `B` is a blob.
pub record StatusRow (B : Type 0) : Type 0 where
  pub status_json : B
  pub active_runs : ℕ
  pub terminal : ℕ
  pub last_sequence : ℕ

pub record HistoryRow (B : Type 0) : Type 0 where
  pub id : String
  pub sequence : ℕ
  pub payload_json : B
  pub finished_at_unix_nano : ℤ

-- json.Marshal and json.Unmarshal
pub record Codec (E B : Type 0) : Type 0 where
  pub encode_job : String → Checked E B
  pub encode_status : SqliteStatusData → Checked E B
  pub decode_status : B → Checked E SqliteStatusData
  pub encode_payload : CallbackPayload → Checked E B
  pub decode_payload : B → Checked E CallbackPayload

-- sql.Rows: what Scan returns for each row, and what Err returns behind the last one.
pub record Rows (E A : Type 0) : Type 0 where
  pub items : List (Checked E A)
  pub err : Option E

-- *sql.DB and *sql.Tx with states `D`: the statements of the file. Where RowsAffected is asked for,
-- its own result is inside that of ExecContext. `commit` and `rollback` take the database and the
-- state that the transaction has reached.
pub record Database (E D B : Type 0) : Type 0 where
  -- INSERT INTO scheduler_jobs, DELETE FROM scheduler_jobs WHERE id = ?
  pub insert_job : D → String → B → D × Option E
  pub delete_job : D → String → D × Checked E (Checked E ℕ)
  -- SELECT 1, COUNT(*) and id FROM scheduler_jobs
  pub select_job : D → String → Checked E ℕ
  pub count_jobs : D → Checked E ℕ
  pub select_ids : D → Checked E (Rows E String)
  -- FROM scheduler_job_status: a missing row, which is sql.ErrNoRows, is `none`
  pub select_status : D → String → Checked E (Option (StatusRow B))
  pub select_status_exists : D → String → Checked E ℕ
  pub select_statuses : D → Checked E (Rows E (String × B × ℕ))
  pub upsert_status : D → String → StatusRow B → D × Option E
  -- FROM scheduler_job_history WHERE id = ? ORDER BY sequence ASC
  pub select_history : D → String → Checked E (Rows E (ℕ × B))
  pub insert_history : D → HistoryRow B → D × Option E
  -- DELETE FROM scheduler_job_history by sequence, by age (of one job and of all), and by rank
  pub trim_history : D → String → ℤ → D × Option E
  pub prune_job_before : D → String → ℤ → D × Checked E (Checked E ℕ)
  pub prune_before : D → ℤ → D × Checked E (Checked E ℕ)
  pub prune_max_rows : D → ℤ → D × Checked E (Checked E ℕ)
  pub begin : D → Checked E D
  pub commit : D → D → D × Option E
  pub rollback : D → D → D
  -- isSQLiteUniqueViolation, by the text of the error
  pub is_unique_violation : E → Bool
