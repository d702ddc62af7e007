-- ===== src/Storage/Sqlite/Queries.antt =====
-- storage_sqlite.go: the methods of SQLiteJobsStorage that read. The deferred Close of the rows assigns
-- to a local variable behind the return, and has no effect on the result.
use go_again.Prelude.{
  ℕ, ◌==◌, String, List, [], ◌∷◌, Bool, false, Option, none, some, if◌then◌else◌,
}
use go_again.Runtime.{Runtime}
use go_again.Storage.{JobState, JobStatus, JobRun}
use go_again.Storage.Sqlite.{
  Checked, accepted, refused, and_then, SqliteStatusRecord, Codec, Rows, Database,
  sqlite_status_to_job_status,
}
use go_again.Storage.Sqlite.Records.{decode_sqlite_status, load_status_record_query_row}

-- The loop over sql.Rows: `none` if a row cannot be scanned or decoded.
unfoldable pub collect : {E A C : Type 0} → (A → Checked E C) → List (Checked E A) → Option (List C)
collect decode [] = some []
collect decode (refused err ∷ items) = none
collect decode (accepted a ∷ items) = elim (decode a) [
  | refused err ↦ none
  | accepted c ↦ elim (collect decode items) [ none ↦ none | some cs ↦ some (c ∷ cs) ]
]

-- A query with its loop and the test of rows.Err behind it.
unfoldable pub read_rows :
    {E A C : Type 0} → (A → Checked E C) → Checked E (Rows E A) → Option (List C)
unfolding collect
read_rows decode (refused err) = none
read_rows decode (accepted rows) = elim (collect decode rows.items) [
  | none ↦ none
  | some cs ↦ elim rows.err [ none ↦ some cs | some err ↦ none ]
]

-- A nil slice is empty.
abbrev pub or_nil : {C : Type 0} → Option (List C) → List C
or_nil none = []
or_nil (some cs) = cs

-- `Scan(&found)`, and found == 1
abbrev pub is_found : {E : Type 0} → Checked E ℕ → Bool
is_found (refused err) = false
is_found (accepted found) = found == 1

module _ {E F D B : Type 0} (rt : Runtime E F) (codec : Codec E B) (db : Database E D B) where
  unfoldable pub exists_job : D → String → Bool
  exists_job d id = is_found (db.select_job d id)

  unfoldable pub count_jobs : D → ℕ
  count_jobs d = elim (db.count_jobs d) [ refused err ↦ 0 | accepted count ↦ count ]

  unfoldable pub ids : D → List String
  unfolding read_rows
  ids d = or_nil (read_rows (λ id. accepted id) (db.select_ids d))

  -- loadStatusRecord
  unfoldable pub load_status_record : D → String → Option SqliteStatusRecord
  unfolding load_status_record_query_row
  load_status_record d id =
      elim (load_status_record_query_row rt codec db (db.select_status d id)) [
        | refused err ↦ none
        | accepted found ↦ found
      ]

  unfoldable pub state_of : D → String → Option JobState
  unfolding load_status_record
  state_of d id = elim (load_status_record d id) [ none ↦ none | some rec ↦ some rec.status.state ]

  unfoldable pub status_of : D → String → Option JobStatus
  unfolding load_status_record sqlite_status_to_job_status
  status_of d id = elim (load_status_record d id) [
    | none ↦ none
    | some rec ↦ some (sqlite_status_to_job_status rec.status rec.active_runs)
  ]

  -- The body of the loop of Statuses
  unfoldable pub read_status : String × B × ℕ → Checked E JobStatus
  unfolding decode_sqlite_status
  read_status (id, json, active_runs) =
      and_then (decode_sqlite_status rt codec db json active_runs)
        (λ status. accepted (record status { job_id = id }))

  unfoldable pub statuses : D → List JobStatus
  unfolding read_rows read_status
  statuses d = or_nil (read_rows read_status (db.select_statuses d))

  unfoldable pub status_exists : D → String → Bool
  status_exists d id = is_found (db.select_status_exists d id)

  -- The body of the loop of History
  unfoldable pub read_run : ℕ × B → Checked E JobRun
  read_run (sequence, json) =
      and_then (codec.decode_payload json)
        (λ payload. accepted (record { sequence = sequence; payload = payload }))

  -- `len(history) == 0`
  unfoldable pub known_history : Bool → List JobRun → Option (List JobRun)
  known_history known [] = if known then some [] else none
  known_history known (run ∷ runs) = some (run ∷ runs)

  unfoldable pub history_of : D → String → Option (List JobRun)
  unfolding read_rows read_run known_history status_exists
  history_of d id = elim (read_rows read_run (db.select_history d id)) [
    | none ↦ none
    | some history ↦ known_history (status_exists d id) history
  ]
