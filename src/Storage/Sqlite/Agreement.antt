-- ===== src/Storage/Sqlite/Agreement.antt =====
-- After the same calls SQLiteJobsStorage, without a retention, and InMemoryJobsStorage show the same.
use go_again.Prelude.{String, List, [], ◌∷◌, Option, none, ◌≡◌, refl, ap}
use go_again.Runtime.{Runtime}
use go_again.Storage.{Time}
use go_again.Storage.Map.{lookup, keys}
use go_again.Storage.Memory.{
  JobStatusEntry, InMemoryJobsStorage, modify, new_entry, upsert_entry, removed_entry,
  terminal_entry, started_entry,
}
use go_again.Storage.Sqlite.{no_retention, Codec, Database}
use go_again.Storage.Memory
use go_again.Storage.Sqlite.Methods
use go_again.Storage.Sqlite.Methods.{
  upserted_record, upsert_status, change_status, write_change, removed_record, terminal_record,
  started_record,
}
use go_again.Storage.Sqlite.Laws.{Tables, IsSqlite, of_job}
use go_again.Storage.Sqlite.Promises.{IsLossless, IsUp}
use go_again.Storage.Sqlite.Simulation.{Refines, Keeps}
use go_again.Storage.Operations.{Inv}
use go_again.Storage.Memory.{new_in_memory_jobs_storage}
use go_again.Storage.Operations
use go_again.Storage.Operations.{
  Call, saves, deletes, upserts, marks_removed, marks_terminal, starts, records, step-Inv, run-Inv,
}
use go_again.Storage.Sqlite.Calls
use go_again.Storage.Sqlite.Methods.{inserted, any_affected}
use go_again.Storage.Sqlite.Laws.{no_rows}
use go_again.Storage.Sqlite.Reading.{ShowsSame, reading-same}
use go_again.Storage.Sqlite.Changes.{
  upsert_status-Keeps, mark_removed-Keeps, mark_terminal-Keeps, mark_execution_start-Keeps,
}
use go_again.Storage.Sqlite.Recorded.{record_execution_result-Keeps}
use go_again.Storage.Sqlite.Saving.{save-Keeps, delete-Keeps}

-- The error of a write of the in-memory storage
abbrev pub error_in_memory :
    {E F : Type 0} → Runtime E F → InMemoryJobsStorage E F → Time × Call E F → Option E
error_in_memory rt m (now, saves job) = (Memory.save rt m job).1
error_in_memory rt m (now, deletes id) = none
error_in_memory rt m (now, upserts id state) = none
error_in_memory rt m (now, marks_removed id) = none
error_in_memory rt m (now, marks_terminal id state) = none
error_in_memory rt m (now, starts id) = none
error_in_memory rt m (now, records id payload limit) = none

module _ {E F D B : Type 0} (rt : Runtime E F) (codec : Codec E B) (db : Database E D B)
    (tables : D → Tables B) (lossless : IsLossless codec) (lawful : IsSqlite db tables)
    (up : IsUp db tables) where
  step-Keeps :
      (d : D) (m : InMemoryJobsStorage E F) (c : Time × Call E F)
      → Refines lossless (tables d) m
      → Inv m
      → Refines lossless
          (tables (Calls.step rt codec db no_retention d c).0)
          (Operations.step rt m c)
        × ((Calls.step rt codec db no_retention d c).1 ≡ error_in_memory rt m c)
  unfolding Calls.step Operations.step Keeps
  step-Keeps d m (now, saves job) refined inv =
      save-Keeps rt codec db tables lossless lawful up d job m refined
  step-Keeps d m (now, deletes id) refined inv =
      ((delete-Keeps rt codec db tables lossless lawful up d id m refined).0, refl)
  step-Keeps d m (now, upserts id state) refined inv =
      upsert_status-Keeps rt codec db tables lossless lawful up d id state now m refined
  step-Keeps d m (now, marks_removed id) refined inv =
      mark_removed-Keeps rt codec db tables lossless lawful up d id now m refined
  step-Keeps d m (now, marks_terminal id state) refined inv =
      mark_terminal-Keeps rt codec db tables lossless lawful up d id state now m refined
  step-Keeps d m (now, starts id) refined inv =
      mark_execution_start-Keeps rt codec db tables lossless lawful up d id now m refined
  step-Keeps d m (now, records id payload limit) refined inv =
      record_execution_result-Keeps rt codec db tables lossless lawful up d id payload limit now m
        refined (inv.entries id)

  run-Refines :
      (d : D) (m : InMemoryJobsStorage E F) (cs : List (Time × Call E F))
      → Refines lossless (tables d) m
      → Inv m
      → Refines lossless (tables (Calls.run rt codec db no_retention d cs)) (Operations.run rt m cs)
  unfolding Calls.run Operations.run
  run-Refines d m [] refined inv = refined
  run-Refines d m (c ∷ cs) refined inv =
      run-Refines (Calls.step rt codec db no_retention d c).0 (Operations.step rt m c) cs
        (step-Keeps d m c refined inv).0 (step-Inv rt m c inv)

  no_rows-Refines :
      (d : D) → tables d ≡ no_rows B → Refines lossless (tables d) (new_in_memory_jobs_storage E F)
  unfolding lookup
  no_rows-Refines d empty = record {
    jobs = ap (λ (t : Tables B). keys t.jobs) empty;
    status = ap (λ (t : Tables B). t.status) empty;
    history = λ id. ap (λ (t : Tables B). of_job id t.history) empty;
  }

  new-Inv : Inv (new_in_memory_jobs_storage E F)
  unfolding Operations.run
  new-Inv = run-Inv rt []

  -- After the same calls of an empty SQLite storage without a retention, and of a new in-memory
  -- storage, every method of the two returns the same: State, Status, History, Statuses, Exists,
  -- Count and IDs, the errors of the methods that write, and the result of Delete. It assumes that
  -- no statement fails but where a constraint makes it, that the statements do what SQLite
  -- documents, and that what is encoded can be decoded, which leaves out a response body that is
  -- cut inside a character: JSON replaces its last bytes.
  pub sqlite_refines_memory :
      (d : D) (cs : List (Time × Call E F))
      → tables d ≡ no_rows B
      → let d' = Calls.run rt codec db no_retention d cs in
        let m = Operations.run rt (new_in_memory_jobs_storage E F) cs in
        ShowsSame rt codec db tables lossless lawful up d' m
        × ((c : Time × Call E F)
            → (Calls.step rt codec db no_retention d' c).1 ≡ error_in_memory rt m c)
        × ((id : String)
            → (Methods.delete_job rt codec db no_retention d' id).1 ≡ (Memory.delete_job m id).1)
  sqlite_refines_memory d cs empty =
      let inv = run-Inv rt cs in
      let refined = run-Refines d _ cs (no_rows-Refines d empty) new-Inv in
      (
        reading-same rt codec db tables lossless lawful up _ _ refined inv,
        λ c. (step-Keeps _ _ c refined inv).1,
        λ id. (delete-Keeps rt codec db tables lossless lawful up _ id _ refined).1,
      )
