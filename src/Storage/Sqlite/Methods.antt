-- ===== src/Storage/Sqlite/Methods.antt =====
-- storage_sqlite.go: the methods of SQLiteJobsStorage that write. `now` is what
-- time.Now returns in the method.
use go_again.Prelude.{
  ℕ, suc, ◌+◌, ltb, ℤ, pos, leb_ℤ, ltb_ℤ, sub_ℕ, pos_part, String, [], ◌∷◌, Bool, true, false,
  Option, none, some, if◌then◌else◌, wrap64, ◌&&◌,
}
use go_again.Runtime.{Runtime, Arg}
use go_again.Storage.{Time, JobState, running, removed, CallbackPayload, Job}
use go_again.Storage.Memory.{effective_limit}
use go_again.Storage.Sqlite.{
  Checked, accepted, refused, error_of, SqliteHistoryRetentionOptions, SqliteStatusRecord, Codec,
  Database, merge_history_limit, unix_epoch,
}
use go_again.Storage.Sqlite.Records.{
  Tx, ◌>>=◌, pure, proceed, rows_affected, load_status_record_tx, upsert_status_record_tx,
  insert_history_tx, trim_history_tx, apply_execution_result, with_write_tx,
}

module _ {E F D B : Type 0} (rt : Runtime E F) (codec : Codec E B) (db : Database E D B)
    (retention : SqliteHistoryRetentionOptions) where
  -- Save, with what ExecContext returned
  unfoldable pub inserted : String → D × Option E → D × Option E
  inserted id (d, none) = (d, none)
  inserted id (d, some err) = (
    d,
    some (
        if db.is_unique_violation err
        then rt.wrapf rt.job_already_exists "job ID: %s" (Arg.text id ∷ [])
        else rt.wrapf rt.storage_operation "insert job failed: %v" (Arg.error err ∷ [])),
  )

  unfoldable pub save : D → Job E F → D × Option E
  unfolding inserted
  save d job = elim (codec.encode_job job.id) [
    | refused err ↦
        (d, some (rt.wrapf rt.storage_operation "marshal job data failed: %v" (Arg.error err ∷ [])))
    | accepted json ↦ inserted job.id (db.insert_job d job.id json)
  ]

  -- `affected > 0`, without an error
  unfoldable pub any_affected : Checked E (Checked E ℕ) → Bool
  any_affected (refused err) = false
  any_affected (accepted (refused err)) = false
  any_affected (accepted (accepted n)) = ltb 0 n

  unfoldable pub delete_job : D → String → D × Bool
  unfolding any_affected
  delete_job d id = let (d', result) = db.delete_job d id in (d', any_affected result)

  -- The record that UpsertStatus writes, for the one that it found
  unfoldable pub upserted_record :
      String → JobState → Time → Option SqliteStatusRecord → SqliteStatusRecord
  upserted_record id state now none = record {
    status = record {
      job_id = id;
      state = state;
      created_at = now;
      updated_at = now;
      runs = 0;
      active_runs = 0;
      last_run = none;
    };
    active_runs = 0;
    terminal = false;
    last_sequence = 0;
  }
  upserted_record id state now (some rec) = record rec {
    status = record rec.status { state = state; updated_at = now };
  }

  unfoldable pub upsert_status : D → String → JobState → Time → D × Option E
  unfolding with_write_tx load_status_record_tx upserted_record upsert_status_record_tx
  upsert_status d id state now =
      let (d', result) =
        with_write_tx rt codec db "upsert status"
          (do
            found ← load_status_record_tx rt codec db id
            upsert_status_record_tx rt codec db id (upserted_record id state now found))
          d in
      (d', error_of result)

  -- The methods that change a record which is there: `none` leaves it as it is.
  unfoldable pub write_change :
      String
      → (SqliteStatusRecord → Option SqliteStatusRecord)
      → Option SqliteStatusRecord
      → Tx E D (Unit {0})
  unfolding upsert_status_record_tx
  write_change id change none = pure tt
  write_change id change (some rec) = elim (change rec) [
    | none ↦ pure tt
    | some changed ↦ upsert_status_record_tx rt codec db id changed
  ]

  unfoldable pub change_status :
      String → D → String → (SqliteStatusRecord → Option SqliteStatusRecord) → D × Option E
  unfolding with_write_tx load_status_record_tx write_change
  change_status operation d id change =
      let (d', result) =
        with_write_tx rt codec db operation
          (do found ← load_status_record_tx rt codec db id; write_change id change found) d in
      (d', error_of result)

  unfoldable pub removed_record : Time → SqliteStatusRecord → SqliteStatusRecord
  removed_record now rec = record rec {
    terminal = true;
    status = record rec.status { state = removed; active_runs = rec.active_runs; updated_at = now };
  }

  unfoldable pub mark_removed : D → String → Time → D × Option E
  unfolding change_status removed_record
  mark_removed d id now = change_status "mark removed" d id (λ rec. some (removed_record now rec))

  unfoldable pub terminal_record : JobState → Time → SqliteStatusRecord → Option SqliteStatusRecord
  terminal_record state now rec =
      if rec.terminal
      then none
      else some (record rec {
        terminal = true;
        status = record rec.status {
          state = state;
          active_runs = rec.active_runs;
          updated_at = now;
        };
      })

  unfoldable pub mark_terminal : D → String → JobState → Time → D × Option E
  unfolding change_status terminal_record
  mark_terminal d id state now = change_status "mark terminal" d id (terminal_record state now)

  unfoldable pub started_record : Time → SqliteStatusRecord → SqliteStatusRecord
  started_record now rec = record rec {
    active_runs = suc rec.active_runs;
    status = record rec.status {
      active_runs = suc rec.active_runs;
      updated_at = now;
      state = if rec.terminal then rec.status.state else running;
    };
  }

  unfoldable pub mark_execution_start : D → String → Time → D × Option E
  unfolding change_status started_record
  mark_execution_start d id now =
      change_status "mark execution start" d id (λ rec. some (started_record now rec))

  -- time.Now().Add(-maxAge).UnixNano()
  unfoldable pub cutoff_ns : Time → ℤ → ℤ
  cutoff_ns now max_age = wrap64 (sub_ℕ now (unix_epoch + pos_part max_age))

  -- `if s.historyRetention.MaxAge > 0`
  unfoldable pub prune_job_tx : String → Time → Tx E D (Unit {0})
  unfolding rows_affected cutoff_ns
  prune_job_tx id now d =
      if ltb_ℤ (pos 0) retention.max_age
      then proceed
          (rows_affected rt codec db "prune execution history by age for job failed: %v"
            (db.prune_job_before d id (cutoff_ns now retention.max_age)))
          (λ _. pure tt)
      else (d, accepted tt)

  -- The transaction of RecordExecutionResult behind its load
  unfoldable pub write_result :
      String → CallbackPayload → ℤ → Time → Option SqliteStatusRecord → Tx E D (Unit {0})
  unfolding insert_history_tx trim_history_tx prune_job_tx apply_execution_result
      upsert_status_record_tx effective_limit merge_history_limit
  write_result id payload limit now none = pure tt
  write_result id payload limit now (some rec) = do
    let sequence = suc rec.last_sequence
    _ ← insert_history_tx rt codec db id sequence payload
    _ ←
        trim_history_tx rt codec db id sequence
          (merge_history_limit (pos (effective_limit limit)) retention.max_rows_per_job)
    _ ← prune_job_tx id now
    upsert_status_record_tx rt codec db id
        (apply_execution_result rt codec db now payload (record rec { last_sequence = sequence }))

  unfoldable pub record_execution_result : D → String → CallbackPayload → ℤ → Time → D × Option E
  unfolding with_write_tx load_status_record_tx write_result
  record_execution_result d id payload limit now =
      let (d', result) =
        with_write_tx rt codec db "record execution result"
          (do found ← load_status_record_tx rt codec db id; write_result id payload limit now found)
          d in
      (d', error_of result)

  -- PruneHistoryWithRetention: the two steps, each if its option is set
  unfoldable pub prune_by_age : SqliteHistoryRetentionOptions → Time → Tx E D ℕ
  unfolding rows_affected cutoff_ns
  prune_by_age given now d =
      if ltb_ℤ (pos 0) given.max_age
      then rows_affected rt codec db "prune execution history by age failed: %v"
          (db.prune_before d (cutoff_ns now given.max_age))
      else (d, accepted 0)

  unfoldable pub prune_by_rows : SqliteHistoryRetentionOptions → Tx E D ℕ
  unfolding rows_affected
  prune_by_rows given d =
      if ltb_ℤ (pos 0) given.max_rows_per_job
      then rows_affected rt codec db "prune execution history by max rows failed: %v"
          (db.prune_max_rows d given.max_rows_per_job)
      else (d, accepted 0)

  unfoldable pub prune_history_with_retention :
      D → SqliteHistoryRetentionOptions → Time → D × Checked E ℕ
  unfolding with_write_tx prune_by_age prune_by_rows
  prune_history_with_retention d given now =
      if leb_ℤ given.max_age (pos 0) && leb_ℤ given.max_rows_per_job (pos 0)
      then (d, accepted 0)
      else with_write_tx rt codec db "prune history"
          (do
            by_age ← prune_by_age given now
            by_rows ← prune_by_rows given
            pure (by_age + by_rows))
          d

  unfoldable pub prune_history : D → Time → D × Checked E ℕ
  unfolding prune_history_with_retention
  prune_history d now = prune_history_with_retention d retention now
