-- ===== src/Storage/Sqlite/Changes.antt =====
-- UpsertStatus, MarkRemoved, MarkTerminal and MarkExecutionStart of SQLiteJobsStorage do to the tables
-- what those of InMemoryJobsStorage do to the entries.
use mathlib.Core.Path.{subst}
use go_again.Prelude.{
  String, Option, none, some, ◌≡◌, refl, sym, ap, ◌∙◌, Option-cases, Bool-cases, inl, inr, ◌⊎◌,
}
use go_again.Runtime.{Runtime}
use go_again.Storage.{JobState, Time}
use go_again.Storage.Map.{lookup, insert}
use go_again.Storage.Memory.{
  JobStatusEntry, InMemoryJobsStorage, modify, new_entry, upsert_entry, removed_entry,
  terminal_entry, started_entry,
}
use go_again.Storage.Sqlite.{no_retention, SqliteStatusRecord, Codec, Database}
use go_again.Storage.Memory
use go_again.Storage.Sqlite.Methods
use go_again.Storage.Sqlite.Methods.{
  upserted_record, upsert_status, change_status, write_change, removed_record, terminal_record,
  started_record,
}
use go_again.Storage.Sqlite.Laws.{Tables, IsSqlite}
use go_again.Storage.Sqlite.AsRows.{insert-same}
use go_again.Storage.Sqlite.Promises.{IsLossless, IsUp}
use go_again.Storage.Sqlite.Success.{Ends, normal, status_row, upsert_status_record_tx-Ends}
use go_again.Storage.Sqlite.Simulation.{
  record_of, runs_of, entry_row, Refines, changed-Refines, Keeps, found-Keeps, missing-Keeps,
}

module _ {E F D B : Type 0} (rt : Runtime E F) (codec : Codec E B) (db : Database E D B)
    (tables : D → Tables B) (lossless : IsLossless codec) (lawful : IsSqlite db tables)
    (up : IsUp db tables) where
  -- What a change of the record is as a change of the entry
  unfoldable pub Follows :
      String
      → (SqliteStatusRecord → Option SqliteStatusRecord)
      → (JobStatusEntry → JobStatusEntry)
      → JobStatusEntry
      → Type 0
  Follows id change change_entry e =
      ((change_entry e).history ≡ e.history)
      × (((change (normal lossless id (record_of e)) ≡ none) × (change_entry e ≡ e))
          ⊎ ((rec : SqliteStatusRecord) × (change (normal lossless id (record_of e)) ≡ some rec)
              × (status_row lossless id rec ≡ entry_row lossless id (change_entry e))))

  write_change-Ends :
      (id : String) (change : SqliteStatusRecord → Option SqliteStatusRecord)
      (rec rec' : SqliteStatusRecord) (ts : Tables B) (t : D)
      → tables t ≡ ts
      → change rec ≡ some rec'
      → Ends tables
          (write_change rt codec db no_retention id change (some rec) t)
          (record ts { status = insert id (status_row lossless id rec') ts.status })
          tt
  unfolding write_change
  write_change-Ends id change rec rec' ts t same changed =
      rw (changed, write_change)
        (upsert_status_record_tx-Ends rt codec db tables lossless lawful up t ts id rec' same)

  write_nothing-Ends :
      (id : String) (change : SqliteStatusRecord → Option SqliteStatusRecord)
      (rec : SqliteStatusRecord) (ts : Tables B) (t : D)
      → tables t ≡ ts
      → change rec ≡ none
      → Ends tables (write_change rt codec db no_retention id change (some rec) t) ts tt
  unfolding write_change
  write_nothing-Ends id change rec ts t same unchanged = rw (unchanged, write_change) (same, refl)

  change_status-Keeps :
      (operation : String) (d : D) (id : String) (m : InMemoryJobsStorage E F)
      (change : SqliteStatusRecord → Option SqliteStatusRecord)
      (change_entry : JobStatusEntry → JobStatusEntry)
      → Refines lossless (tables d) m
      → ((e : JobStatusEntry) → Follows id change change_entry e)
      → Keeps rt codec db tables lossless lawful up
          (change_status rt codec db no_retention operation d id change)
          (modify id change_entry m)
  unfolding change_status modify Follows write_change
  change_status-Keeps operation d id m change change_entry refined follows =
      elim (Option-cases (lookup id m.status)) [
        | inl missing ↦
            rw (missing, modify)
              (missing-Keeps rt codec db tables lossless lawful up operation d id m m _ (tables d)
                tt refined missing (λ t same. (same, refl)) refined)
        | inr (e, found) ↦
            rw (found, modify)
              (elim (follows e).1 [
                | inl (unchanged, kept) ↦
                    found-Keeps rt codec db tables lossless lawful up operation d id e m _ _
                      (tables d) tt refined found
                      (λ t same. write_nothing-Ends id change _ (tables d) t same unchanged)
                      (subst (λ s. Refines lossless (tables d) (record m { status = s }))
                        (sym
                          (ap (λ f. insert id f m.status) kept ∙ insert-same id e m.status found))
                        refined)
                | inr (rec, changed, row) ↦
                    found-Keeps rt codec db tables lossless lawful up operation d id e m _ _ _ tt
                      refined found
                      (λ t same. write_change-Ends id change _ rec (tables d) t same changed)
                      (subst
                        (λ w.
                          Refines lossless
                            (record (tables d) { status = insert id w (tables d).status })
                            (record m { status = insert id (change_entry e) m.status }))
                        (sym row)
                        (changed-Refines lossless (tables d) m id (change_entry e) refined
                          ((follows e).0 ∙ ap runs_of (sym found))))
              ])
      ]

  pub mark_removed-Keeps :
      (d : D) (id : String) (now : Time) (m : InMemoryJobsStorage E F)
      → Refines lossless (tables d) m
      → Keeps rt codec db tables lossless lawful up
          (Methods.mark_removed rt codec db no_retention d id now)
          (Memory.mark_removed m id now)
  unfolding Methods.mark_removed Memory.mark_removed Follows record_of
  mark_removed-Keeps d id now m refined =
      change_status-Keeps "mark removed" d id m
        (λ rec. some (removed_record rt codec db no_retention now rec)) (removed_entry now) refined
        (λ e. (
          refl,
          inr (
            removed_record rt codec db no_retention now (normal lossless id (record_of e)),
            refl,
            refl,
          ),
        ))

  pub mark_execution_start-Keeps :
      (d : D) (id : String) (now : Time) (m : InMemoryJobsStorage E F)
      → Refines lossless (tables d) m
      → Keeps rt codec db tables lossless lawful up
          (Methods.mark_execution_start rt codec db no_retention d id now)
          (Memory.mark_execution_start m id now)
  unfolding Methods.mark_execution_start Memory.mark_execution_start Follows record_of started_entry
      started_record
  mark_execution_start-Keeps d id now m refined =
      change_status-Keeps "mark execution start" d id m
        (λ rec. some (started_record rt codec db no_retention now rec)) (started_entry now) refined
        (λ e. (
          refl,
          inr (
            started_record rt codec db no_retention now (normal lossless id (record_of e)),
            refl,
            refl,
          ),
        ))

  terminal-Follows :
      (id : String) (state : JobState) (now : Time) (e : JobStatusEntry)
      → Follows id (terminal_record rt codec db no_retention state now) (terminal_entry state now) e
  unfolding Follows terminal_record terminal_entry record_of
  terminal-Follows id state now e = elim (Bool-cases e.terminal) [
    | inl already ↦ rw (already, terminal_record, terminal_entry) (refl, inl (refl, refl))
    | inr open_ ↦ rw (open_, terminal_record, terminal_entry) (refl, inr (_, refl, refl))
  ]

  pub mark_terminal-Keeps :
      (d : D) (id : String) (state : JobState) (now : Time) (m : InMemoryJobsStorage E F)
      → Refines lossless (tables d) m
      → Keeps rt codec db tables lossless lawful up
          (Methods.mark_terminal rt codec db no_retention d id state now)
          (Memory.mark_terminal m id state now)
  unfolding Methods.mark_terminal Memory.mark_terminal
  mark_terminal-Keeps d id state now m refined =
      change_status-Keeps "mark terminal" d id m
        (terminal_record rt codec db no_retention state now) (terminal_entry state now) refined
        (terminal-Follows id state now)

  pub upsert_status-Keeps :
      (d : D) (id : String) (state : JobState) (now : Time) (m : InMemoryJobsStorage E F)
      → Refines lossless (tables d) m
      → Keeps rt codec db tables lossless lawful up
          (upsert_status rt codec db no_retention d id state now)
          (Memory.upsert_status m id state now)
  unfolding upsert_status Memory.upsert_status upserted_record record_of new_entry upsert_entry
  upsert_status-Keeps d id state now m refined = elim (Option-cases (lookup id m.status)) [
    | inl missing ↦
        rw (missing, Memory.upsert_status)
          (missing-Keeps rt codec db tables lossless lawful up "upsert status" d id m _ _ _ tt
            refined missing
            (λ t same.
              upsert_status_record_tx-Ends rt codec db tables lossless lawful up t (tables d) id
                (upserted_record rt codec db no_retention id state now none) same)
            (changed-Refines lossless (tables d) m id (new_entry id state now) refined
              (ap runs_of (sym missing))))
    | inr (e, found) ↦
        rw (found, Memory.upsert_status)
          (found-Keeps rt codec db tables lossless lawful up "upsert status" d id e m _ _ _ tt
            refined found
            (λ t same.
              upsert_status_record_tx-Ends rt codec db tables lossless lawful up t (tables d) id
                (upserted_record rt codec db no_retention id state now
                  (some (normal lossless id (record_of e))))
                same)
            (changed-Refines lossless (tables d) m id (upsert_entry state now e) refined
              (ap runs_of (sym found))))
  ]
