-- ===== src/Storage/Sqlite/Setup.antt =====
-- storage_sqlite.go: how the storage is opened and closed.
use go_again.Prelude.{
  String, List, [], ◌∷◌, Bool, true, false, ◌&&◌, Option, none, some, if◌then◌else◌,
}
use go_again.Prelude.Text.{str_eq}
use go_again.Runtime.{Runtime, Arg}
use go_again.Storage.Sqlite.{
  Checked, accepted, refused, SqliteHistoryRetentionOptions, no_retention,
}

-- The statements of bootstrap
pub data Statement : Type 0 where
  pragma_wal pragma_busy pragma_foreign : Statement
  create_jobs_table create_status_table create_history_table create_history_index : Statement
  alter_history_add_finished_at : Statement

-- database/sql and strings: `H` is the state of the handle.
pub record Driver (E H : Type 0) : Type 0 where
  pub open_handle : String → Checked E H
  pub set_max_open_conns_1 : H → H
  pub exec : H → Statement → H × Option E
  pub close : H → H × Option E
  -- isSQLiteDuplicateColumnError, by the text of the error
  pub is_duplicate_column : E → Bool
  -- errors.Join of two errors
  pub join : E → E → E
  -- strings.TrimSpace, strings.Contains(s, ":") and fmt.Sprintf("file:%s", s)
  pub trim_space : String → String
  pub has_colon : String → Bool
  pub file_dsn : String → String

abbrev pub statements : List Statement
statements =
    pragma_wal ∷ pragma_busy ∷ pragma_foreign ∷ create_jobs_table ∷ create_status_table
    ∷ create_history_table ∷ create_history_index ∷ alter_history_add_finished_at ∷ []

abbrev pub is_alter : Statement → Bool
is_alter alter_history_add_finished_at = true
is_alter pragma_wal = false
is_alter pragma_busy = false
is_alter pragma_foreign = false
is_alter create_jobs_table = false
is_alter create_status_table = false
is_alter create_history_table = false
is_alter create_history_index = false

-- SQLiteJobsStorage, without its mutex
pub record SqliteJobsStorage (H : Type 0) : Type 0 where
  pub db : H
  pub history_retention : SqliteHistoryRetentionOptions

module _ {E F H : Type 0} (rt : Runtime E F) (driver : Driver E H) where
  unfoldable pub normalize_sqlite_path : String → String
  normalize_sqlite_path path =
      let trimmed = driver.trim_space path in
      if str_eq trimmed ""
      then ":memory:"
      else if driver.has_colon trimmed
      then trimmed
      else driver.file_dsn trimmed

  -- The error of a statement, if it ends bootstrap
  unfoldable pub init_error : Statement → Option E → Option E
  init_error statement none = none
  init_error statement (some err) =
      if is_alter statement && driver.is_duplicate_column err
      then none
      else some
          (rt.wrapf rt.storage_operation "sqlite init statement failed: %v" (Arg.error err ∷ []))

  unfoldable pub execute_all : List Statement → H → H × Option E
  unfolding init_error
  execute_all [] h = (h, none)
  execute_all (statement ∷ rest) h =
      let (h', result) = driver.exec h statement in
      elim (init_error statement result) [ none ↦ execute_all rest h' | some err ↦ (h', some err) ]

  unfoldable pub bootstrap : H → H × Option E
  unfolding execute_all
  bootstrap h = execute_all statements h

  -- The options, each of which may be nil
  unfoldable pub apply_all :
      List (Option (SqliteHistoryRetentionOptions → SqliteHistoryRetentionOptions))
      → SqliteHistoryRetentionOptions
      → SqliteHistoryRetentionOptions
  apply_all [] s = s
  apply_all (none ∷ opts) s = apply_all opts s
  apply_all (some opt ∷ opts) s = apply_all opts (opt s)

  -- The error of a failed bootstrap, with what Close returned
  unfoldable pub init_failed : E → Option E → E
  init_failed err none = err
  init_failed err (some close_err) = driver.join err (
      rt.wrapf rt.storage_operation "close sqlite after init failure: %v"
        (Arg.error close_err ∷ []))

  -- Behind bootstrap
  unfoldable pub started_storage :
      SqliteHistoryRetentionOptions → H × Option E → H × Checked E (SqliteJobsStorage H)
  unfolding init_failed
  started_storage retention (h, none) =
      (h, accepted (record { db = h; history_retention = retention }))
  started_storage retention (h, some err) =
      let (h', closed) = driver.close h in (h', refused (init_failed err closed))

  -- A handle that could not be opened is `none`.
  unfoldable pub new_sqlite_jobs_storage_with_options :
      String
      → List (Option (SqliteHistoryRetentionOptions → SqliteHistoryRetentionOptions))
      → Option H × Checked E (SqliteJobsStorage H)
  unfolding normalize_sqlite_path bootstrap apply_all started_storage
  new_sqlite_jobs_storage_with_options path opts =
      elim (driver.open_handle (normalize_sqlite_path path)) [
        | refused err ↦ (
          none,
          refused (rt.wrapf rt.storage_operation "open sqlite failed: %v" (Arg.error err ∷ [])),
        )
        | accepted h ↦
            let (h', result) =
              started_storage (apply_all opts no_retention)
                (bootstrap (driver.set_max_open_conns_1 h)) in
            (some h', result)
      ]

  unfoldable pub new_sqlite_jobs_storage : String → Option H × Checked E (SqliteJobsStorage H)
  unfolding new_sqlite_jobs_storage_with_options
  new_sqlite_jobs_storage path = new_sqlite_jobs_storage_with_options path []

  unfoldable pub closed_error : Option E → Option E
  closed_error none = none
  closed_error (some err) =
      some (rt.wrapf rt.storage_operation "close sqlite failed: %v" (Arg.error err ∷ []))

  unfoldable pub close_storage : SqliteJobsStorage H → SqliteJobsStorage H × Option E
  unfolding closed_error
  close_storage s =
      let (h, result) = driver.close s.db in (record s { db = h }, closed_error result)
