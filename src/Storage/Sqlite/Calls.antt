-- ===== src/Storage/Sqlite/Calls.antt =====
-- Histories of calls of a SQLiteJobsStorage.
use go_again.Prelude.{List, [], ◌∷◌, Option, none}
use go_again.Runtime.{Runtime}
use go_again.Storage.{Time}
use go_again.Storage.Operations.{
  Call, saves, deletes, upserts, marks_removed, marks_terminal, starts, records,
}
use go_again.Storage.Sqlite.{SqliteHistoryRetentionOptions, Codec, Database}
use go_again.Storage.Sqlite.Methods.{
  save, delete_job, upsert_status, mark_removed, mark_terminal, mark_execution_start,
  record_execution_result,
}

module _ {E F D B : Type 0} (rt : Runtime E F) (codec : Codec E B) (db : Database E D B)
    (retention : SqliteHistoryRetentionOptions) where
  -- A call of the storage, with its error; Delete has none.
  unfoldable pub step : D → Time × Call E F → D × Option E
  step d (now, saves job) = save rt codec db retention d job
  step d (now, deletes id) = ((delete_job rt codec db retention d id).0, none)
  step d (now, upserts id state) = upsert_status rt codec db retention d id state now
  step d (now, marks_removed id) = mark_removed rt codec db retention d id now
  step d (now, marks_terminal id state) = mark_terminal rt codec db retention d id state now
  step d (now, starts id) = mark_execution_start rt codec db retention d id now
  step d (now, records id payload limit) =
      record_execution_result rt codec db retention d id payload limit now

  unfoldable pub run : D → List (Time × Call E F) → D
  unfolding step
  run d [] = d
  run d (c ∷ cs) = run (step d c).0 cs
