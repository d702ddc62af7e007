-- ===== src/Storage/Sqlite/Atomic.antt =====
-- A write of SQLiteJobsStorage that returns an error has changed nothing.
use mathlib.Core.Path.{subst}
use go_again.Prelude.{
  ℤ, String, true, ◌⊎◌, Option, none, some, ◌≡◌, refl, arith, inl, inr, Bool-cases, Option-cases,
  Checked-cases,
}
use go_again.Runtime.{Runtime, Unwraps}
use go_again.Storage.{Time, JobState, CallbackPayload, Job}
use go_again.Storage.Map.{lookup, insert}
use go_again.Storage.Operations.{
  Call, saves, deletes, upserts, marks_removed, marks_terminal, starts, records,
}
use go_again.Storage.Sqlite.{
  Checked, accepted, refused, error_of, SqliteHistoryRetentionOptions, SqliteStatusRecord, Codec,
  Database,
}
use go_again.Storage.Sqlite.Records.{Tx, committed, finish_tx, with_write_tx}
use go_again.Storage.Sqlite.Methods.{
  inserted, upserted_record, save, upsert_status, change_status, mark_removed, mark_terminal,
  mark_execution_start, record_execution_result, removed_record, terminal_record, started_record,
}
use go_again.Storage.Sqlite.Laws.{Effect, Tables, IsSqlite}
use go_again.Storage.Sqlite.Errors.{
  Wraps, Sound, load_status_record_tx-Sound, upsert_status_record_tx-Sound, write_change-Sound,
  write_result-Sound, bound-Sound,
}
use go_again.Storage.Sqlite.Calls.{step}

module _ {E F D B : Type 0} (rt : Runtime E F) (codec : Codec E B) (db : Database E D B)
    (retention : SqliteHistoryRetentionOptions) (tables : D → Tables B)
    (lawful : IsSqlite db tables) (u : Unwraps rt) where
  -- An error comes with the tables as they were, and is an ErrStorageOperation.
  unfoldable Harmless : {A : Type 0} → D → D × Checked E A → Type 0
  Harmless d r =
      (err : E)
      → r.1 ≡ refused err
      → (tables r.0 ≡ tables d) × (rt.is err rt.storage_operation ≡ true)

  committed-Harmless :
      {A : Type 0} (operation : String) (d t : D) (a : A) (r : D × Option E)
      → Effect (tables d) (tables t) (tables r.0) r.1
      → Harmless d (committed rt codec db operation a r)
  unfolding Harmless committed
  committed-Harmless operation d t a (d', none) kept err h = cc
  committed-Harmless operation d t a (d', some e) kept err h =
      (kept, grind (arith, u.is-wrapf, u.is_refl))

  finish_tx-Harmless :
      {A : Type 0} (operation : String) (d : D) (r : D × Checked E A)
      → Wraps rt codec db retention r
      → Harmless d (finish_tx rt codec db operation d r)
  unfolding Wraps Harmless finish_tx
  finish_tx-Harmless operation d (t, refused e) w = λ err h. (lawful.rollback d t, w err h)
  finish_tx-Harmless operation d (t, accepted a) w =
      committed-Harmless operation d t a (db.commit d t) (lawful.commit d t)

  with_write_tx-Harmless :
      {A : Type 0} (operation : String) (fn : Tx E D A) (d : D)
      → Sound rt codec db retention fn
      → Harmless d (with_write_tx rt codec db operation fn d)
  unfolding Wraps Harmless with_write_tx
  with_write_tx-Harmless operation fn d s = elim (Checked-cases (db.begin d)) [
    | inl (t, e) ↦ rw (e, with_write_tx) (finish_tx-Harmless operation d (fn t) (s t))
    | inr (x, e) ↦ rw (e, with_write_tx) (λ err h. (refl, grind (arith, u.is-wrapf, u.is_refl)))
  ]

  -- The error of a method
  error_of-Harmless :
      {A : Type 0} (d : D) (r : D × Checked E A) (err : E)
      → Harmless d r
      → error_of r.1 ≡ some err
      → (tables r.0 ≡ tables d) × (rt.is err rt.storage_operation ≡ true)
  unfolding Harmless
  error_of-Harmless d (d', accepted a) err harmless h = cc
  error_of-Harmless d (d', refused e) err harmless h = harmless err cc

  change_status-Harmless :
      (operation : String) (d : D) (id : String)
      (change : SqliteStatusRecord → Option SqliteStatusRecord) (err : E)
      → (change_status rt codec db retention operation d id change).1 ≡ some err
      → (tables (change_status rt codec db retention operation d id change).0 ≡ tables d)
        × (rt.is err rt.storage_operation ≡ true)
  unfolding change_status
  change_status-Harmless operation d id change err = error_of-Harmless d _ err (
      with_write_tx-Harmless operation _ d (
        bound-Sound rt codec db retention _ _
          (load_status_record_tx-Sound rt codec db retention id u)
          (λ found. write_change-Sound rt codec db retention id change found u)))

  upsert_status-Harmless :
      (d : D) (id : String) (state : JobState) (now : Time) (err : E)
      → (upsert_status rt codec db retention d id state now).1 ≡ some err
      → (tables (upsert_status rt codec db retention d id state now).0 ≡ tables d)
        × (rt.is err rt.storage_operation ≡ true)
  unfolding upsert_status
  upsert_status-Harmless d id state now err = error_of-Harmless d _ err (
      with_write_tx-Harmless _ _ d (
        bound-Sound rt codec db retention _ _
          (load_status_record_tx-Sound rt codec db retention id u)
          (λ found.
            upsert_status_record_tx-Sound rt codec db retention id
              (upserted_record rt codec db retention id state now found) u)))

  record_result-Harmless :
      (d : D) (id : String) (payload : CallbackPayload) (limit : ℤ) (now : Time) (err : E)
      → (record_execution_result rt codec db retention d id payload limit now).1 ≡ some err
      → (tables (record_execution_result rt codec db retention d id payload limit now).0 ≡ tables d)
        × (rt.is err rt.storage_operation ≡ true)
  unfolding record_execution_result
  record_result-Harmless d id payload limit now err = error_of-Harmless d _ err (
      with_write_tx-Harmless _ _ d (
        bound-Sound rt codec db retention _ _
          (load_status_record_tx-Sound rt codec db retention id u)
          (λ found. write_result-Sound rt codec db retention id payload limit now found u)))

  inserted-Harmless :
      (id : String) (d : D) (r : D × Option E) (err : E)
      → ((e : E) → r.1 ≡ some e → tables r.0 ≡ tables d)
      → (inserted rt codec db retention id r).1 ≡ some err
      → (tables (inserted rt codec db retention id r).0 ≡ tables d)
        × ((rt.is err rt.storage_operation ≡ true) ⊎ (rt.is err rt.job_already_exists ≡ true))
  unfolding inserted
  inserted-Harmless id d (d', none) err kept h = cc
  inserted-Harmless id d (d', some e) err kept h = elim (Bool-cases (db.is_unique_violation e)) [
    | inl twice ↦ (kept e refl, inr (grind (arith, u.is-wrapf, u.is_refl)))
    | inr other ↦ (kept e refl, inl (grind (arith, u.is-wrapf, u.is_refl)))
  ]

  insert_fails-Harmless :
      (d : D) (id : String) (json : B) (e : E)
      → (db.insert_job d id json).1 ≡ some e
      → tables (db.insert_job d id json).0 ≡ tables d
  insert_fails-Harmless d id json e h = elim (Option-cases (lookup id (tables d).jobs)) [
    | inl missing ↦
        subst
          (λ r.
            Effect (tables d) (record (tables d) { jobs = insert id json (tables d).jobs })
              (tables (db.insert_job d id json).0) r)
          h (lawful.insert_job_new d id json missing)
    | inr (old, found) ↦ let (err, x, kept) = lawful.insert_job_again d id json old found in kept
  ]

  -- Save has no transaction.
  save-Harmless :
      (d : D) (job : Job E F) (err : E)
      → (save rt codec db retention d job).1 ≡ some err
      → (tables (save rt codec db retention d job).0 ≡ tables d)
        × ((rt.is err rt.storage_operation ≡ true) ⊎ (rt.is err rt.job_already_exists ≡ true))
  unfolding save
  save-Harmless d job err = elim (Checked-cases (codec.encode_job job.id)) [
    | inl (json, e) ↦
        rw (e, save)
          (inserted-Harmless job.id d (db.insert_job d job.id json) err
            (insert_fails-Harmless d job.id json))
    | inr (x, e) ↦ rw (e, save) (λ h. (refl, inl (grind (arith, u.is-wrapf, u.is_refl))))
  ]

  as_storage :
      {S : Type 0} (err : E)
      → S × (rt.is err rt.storage_operation ≡ true)
      → S × ((rt.is err rt.storage_operation ≡ true) ⊎ (rt.is err rt.job_already_exists ≡ true))
  as_storage err (kept, is) = (kept, inl is)

  -- A write of the SQLite storage that returns an error has left the three tables as they were, and
  -- the error is an ErrStorageOperation or an errJobAlreadyExists: for every write, and wherever in
  -- its transaction a statement, an encoder or the commit fails. It assumes that errors.Is finds
  -- the error that Wrapf is given, and of SQLite that a failing statement changes nothing and that
  -- a transaction which is rolled back, or fails to commit, leaves no trace.
  pub failed_write_changes_nothing :
      (d : D) (c : Time × Call E F) (err : E)
      → (step rt codec db retention d c).1 ≡ some err
      → (tables (step rt codec db retention d c).0 ≡ tables d)
        × ((rt.is err rt.storage_operation ≡ true) ⊎ (rt.is err rt.job_already_exists ≡ true))
  unfolding step mark_removed mark_terminal mark_execution_start
  failed_write_changes_nothing d (now, saves job) err h = save-Harmless d job err h
  failed_write_changes_nothing d (now, deletes id) err h = cc
  failed_write_changes_nothing d (now, upserts id state) err h =
      as_storage err (upsert_status-Harmless d id state now err h)
  failed_write_changes_nothing d (now, marks_removed id) err h = as_storage err (
      change_status-Harmless "mark removed" d id
        (λ rec. some (removed_record rt codec db retention now rec)) err h)
  failed_write_changes_nothing d (now, marks_terminal id state) err h = as_storage err (
      change_status-Harmless "mark terminal" d id (terminal_record rt codec db retention state now)
        err h)
  failed_write_changes_nothing d (now, starts id) err h = as_storage err (
      change_status-Harmless "mark execution start" d id
        (λ rec. some (started_record rt codec db retention now rec)) err h)
  failed_write_changes_nothing d (now, records id payload limit) err h =
      as_storage err (record_result-Harmless d id payload limit now err h)
