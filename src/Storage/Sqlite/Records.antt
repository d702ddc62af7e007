-- ===== src/Storage/Sqlite/Records.antt =====
-- storage_sqlite.go: transactions, and the steps that the methods make in one.
use go_again.Prelude.{
  ℕ, ◌+◌, ◌==◌, ◌-◌, ltb, ℤ, pos, leb_ℤ, sub_ℕ, pos_part, neg_part, String, [], ◌∷◌, Option, none,
  some, if◌then◌else◌,
}
use go_again.Runtime.{Runtime, Arg}
use go_again.Storage.{Time, CallbackPayload, JobStatus, scheduled, running}
use go_again.Storage.Sqlite.{
  Checked, accepted, refused, and_then, SqliteStatusRecord, StatusRow, Codec, Database,
  sqlite_status_to_job_status, job_status_to_sqlite_status, payload_finished_at_unix_nano,
}

-- A step of a transaction: it stops at the first error.
abbrev pub Tx : Type 0 → Type 0 → Type 0 → Type 0
Tx E D A = D → D × Checked E A

abbrev pub proceed : {E D A B : Type 0} → D × Checked E A → (A → Tx E D B) → D × Checked E B
proceed (d, accepted a) f = f a d
proceed (d, refused err) f = (d, refused err)

infixl 5 ◌>>=◌
abbrev pub ◌>>=◌ : {E D A B : Type 0} → Tx E D A → (A → Tx E D B) → Tx E D B
◌>>=◌ m f d = proceed (m d) f

abbrev pub pure : {E D A : Type 0} → A → Tx E D A
pure a d = (d, accepted a)

module _ {E F D B : Type 0} (rt : Runtime E F) (codec : Codec E B) (db : Database E D B) where
  storage_error : String → E → E
  storage_error message err = rt.wrapf rt.storage_operation message (Arg.error err ∷ [])

  -- The result of an ExecContext, with the message for its error
  unfoldable pub executed : String → D × Option E → D × Checked E (Unit {0})
  unfolding storage_error
  executed message (d, none) = (d, accepted tt)
  executed message (d, some err) = (d, refused (storage_error message err))

  -- rowsAffected of such a result
  unfoldable pub rows_affected : String → D × Checked E (Checked E ℕ) → D × Checked E ℕ
  unfolding storage_error
  rows_affected message (d, accepted (accepted n)) = (d, accepted n)
  rows_affected message (d, accepted (refused err)) =
      (d, refused (storage_error "rows affected failed: %v" err))
  rows_affected message (d, refused err) = (d, refused (storage_error message err))

  -- json.Marshal, with the message for its error
  unfoldable pub marshaled : String → Checked E B → Checked E B
  unfolding storage_error
  marshaled message (accepted b) = accepted b
  marshaled message (refused err) = refused (storage_error message err)

  unfoldable pub decode_sqlite_status : B → ℕ → Checked E JobStatus
  unfolding sqlite_status_to_job_status storage_error
  decode_sqlite_status json active_runs = elim (codec.decode_status json) [
    | refused err ↦ refused (storage_error "unmarshal status failed: %v" err)
    | accepted status ↦ accepted (sqlite_status_to_job_status status active_runs)
  ]

  unfoldable pub load_status_record_query_row :
      Checked E (Option (StatusRow B)) → Checked E (Option SqliteStatusRecord)
  unfolding decode_sqlite_status job_status_to_sqlite_status storage_error
  load_status_record_query_row (refused err) = refused (storage_error "load status failed: %v" err)
  load_status_record_query_row (accepted none) = accepted none
  load_status_record_query_row (accepted (some row)) =
      and_then (decode_sqlite_status row.status_json row.active_runs) (λ status. accepted (
        some (record {
          status = job_status_to_sqlite_status status;
          active_runs = row.active_runs;
          terminal = row.terminal == 1;
          last_sequence = row.last_sequence;
        })))

  unfoldable pub load_status_record_tx : String → Tx E D (Option SqliteStatusRecord)
  unfolding load_status_record_query_row
  load_status_record_tx id d = (d, load_status_record_query_row (db.select_status d id))

  unfoldable pub upsert_status_record_tx : String → SqliteStatusRecord → Tx E D (Unit {0})
  unfolding marshaled executed
  upsert_status_record_tx id rec d =
      proceed
        (
          d,
          marshaled "marshal status failed: %v" (
              codec.encode_status
                (record rec.status { job_id = id; active_runs = rec.active_runs })),
        )
        (λ json t. executed "upsert status failed: %v" (
          db.upsert_status t id (record {
            status_json = json;
            active_runs = rec.active_runs;
            terminal = if rec.terminal then 1 else 0;
            last_sequence = rec.last_sequence;
          })))

  unfoldable pub insert_history_tx : String → ℕ → CallbackPayload → Tx E D (Unit {0})
  unfolding marshaled executed
  insert_history_tx id sequence payload d =
      proceed (d, marshaled "marshal execution payload failed: %v" (codec.encode_payload payload))
        (λ json t. executed "insert execution history failed: %v" (
          db.insert_history t (record {
            id = id;
            sequence = sequence;
            payload_json = json;
            finished_at_unix_nano = payload_finished_at_unix_nano payload;
          })))

  unfoldable pub trim_history_tx : String → ℕ → ℤ → Tx E D (Unit {0})
  unfolding executed
  trim_history_tx id sequence limit d =
      let trim_before = sub_ℕ (sequence + neg_part limit) (pos_part limit) in
      if leb_ℤ trim_before (pos 0)
      then (d, accepted tt)
      else executed "trim execution history failed: %v" (db.trim_history d id trim_before)

  -- applyExecutionResult
  unfoldable pub apply_execution_result :
      Time → CallbackPayload → SqliteStatusRecord → SqliteStatusRecord
  apply_execution_result now payload rec =
      let active = if ltb 0 rec.active_runs then rec.active_runs - 1 else rec.active_runs in
      record rec {
        active_runs = active;
        status = record rec.status {
          runs = rec.last_sequence;
          last_run = some payload;
          active_runs = active;
          updated_at = now;
          state =
              if rec.terminal
              then rec.status.state
              else if ltb 0 active
              then running
              else scheduled;
        };
      }

  -- withWriteTx behind what Commit returned
  unfoldable pub committed : {A : Type 0} → String → A → D × Option E → D × Checked E A
  committed operation a (d, none) = (d, accepted a)
  committed operation a (d, some err) = (
    d,
    refused (
        rt.wrapf rt.storage_operation "commit %s failed: %v"
          (Arg.text operation ∷ Arg.error err ∷ [])),
  )

  -- withWriteTx behind fn: after an error of a step the deferred Rollback is what ends the transaction.
  unfoldable pub finish_tx : {A : Type 0} → String → D → D × Checked E A → D × Checked E A
  unfolding committed
  finish_tx operation d (t, refused err) = (db.rollback d t, refused err)
  finish_tx operation d (t, accepted a) = committed operation a (db.commit d t)

  unfoldable pub with_write_tx : {A : Type 0} → String → Tx E D A → D → D × Checked E A
  unfolding finish_tx
  with_write_tx operation fn d = elim (db.begin d) [
    | refused err ↦ (
      d,
      refused (
          rt.wrapf rt.storage_operation "begin %s tx failed: %v"
            (Arg.text operation ∷ Arg.error err ∷ [])),
    )
    | accepted t ↦ finish_tx operation d (fn t)
  ]
