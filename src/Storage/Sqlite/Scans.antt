-- ===== src/Storage/Sqlite/Scans.antt =====
-- What SQLiteJobsStorage reads in a loop over rows: IDs, Statuses and History.
use mathlib.Core.List.{map-map, map-id}
use go_again.Prelude.{String, List, [], ◌∷◌, map, Bool, true, some, ◌≡◌, refl, sym, ap, ◌∙◌}
use go_again.Runtime.{Runtime}
use go_again.Storage.{JobRun}
use go_again.Storage.Map.{keys}
use go_again.Storage.Memory.{
  JobStatusEntry, InMemoryJobsStorage, modify, new_entry, upsert_entry, removed_entry,
  terminal_entry, started_entry,
}
use go_again.Storage.Sqlite.{Checked, accepted, StatusRow, HistoryRow, Codec, Database}
use go_again.Storage.Memory
use go_again.Storage.Sqlite.Records.{decode_sqlite_status}
use go_again.Storage.Sqlite.Laws.{Tables, IsSqlite, of_job}
use go_again.Storage.Sqlite.AsRows.{as_rows}
use go_again.Storage.Sqlite.Promises.{IsLossless, IsUp}
use go_again.Storage.Sqlite.Success.{normal}
use go_again.Storage.Sqlite.Simulation.{record_of, entry_row, run_row, Refines}
use go_again.Prelude.{leb, All}
use go_again.Prelude.Text.{str_leb}
use go_again.Storage.{JobStatus}
use go_again.Storage.Sorting.{sort_by, sort_by-map}
use go_again.Storage.Operations.{Inv}
use go_again.Storage.Entry.{IsValid}
use go_again.Storage.Sqlite.Queries
use go_again.Storage.Sqlite.Queries.{
  collect, read_rows, or_nil, is_found, load_status_record, status_exists, known_history, read_run,
  read_status,
}
use go_again.Storage.Sqlite.Laws.{in_order, scanned}
use go_again.Storage.Sqlite.Promises.{answer}
use go_again.Storage.Sqlite.AsRows.{All-entries}

-- A loop over rows that are all decoded
collect-scanned :
    {E A X C : Type 0} (decode : A → Checked E C) (f : X → A) (g : X → C) (xs : List X)
    → ((x : X) → decode (f x) ≡ accepted (g x))
    → collect decode (scanned {E = E} (map f xs)).items ≡ some (map g xs)
unfolding collect
collect-scanned decode f g [] h = refl
collect-scanned decode f g (x ∷ xs) h = rw (h x, collect-scanned decode f g xs h, collect) refl

read_rows-scanned :
    {E A X C : Type 0} (decode : A → Checked E C) (f : X → A) (g : X → C) (xs : List X)
    → ((x : X) → decode (f x) ≡ accepted (g x))
    → read_rows {E = E} decode (accepted (scanned (map f xs))) ≡ some (map g xs)
unfolding read_rows
read_rows-scanned decode f g xs h = rw (collect-scanned decode f g xs h, read_rows) refl

module _ {E F D B : Type 0} (rt : Runtime E F) (codec : Codec E B) (db : Database E D B)
    (tables : D → Tables B) (lossless : IsLossless codec) (lawful : IsSqlite db tables)
    (up : IsUp db tables) where
  pub ids-same :
      (d : D) (m : InMemoryJobsStorage E F)
      → Refines lossless (tables d) m
      → Queries.ids rt codec db d ≡ Memory.ids m
  unfolding Queries.ids Memory.ids
  ids-same d m refined =
      ap (λ rows. or_nil (read_rows (λ id. accepted id) rows))
        (answer _ _ (lawful.select_ids d) (up.select_ids d)
          ∙ ap (λ ks. accepted (scanned ks))
              (ap (sort_by str_leb) refined.jobs ∙ sym (map-id (sort_by str_leb (keys m.jobs)))))
      ∙ ap or_nil (
          read_rows-scanned (λ id. accepted id) (λ k. k) (λ k. k) (sort_by str_leb (keys m.jobs))
            (λ k. refl))
      ∙ map-id (sort_by str_leb (keys m.jobs))

  -- The rows of a job, as History reads them
  pub runs_read :
      (d : D) (m : InMemoryJobsStorage E F) (id : String) (h : List JobRun)
      → of_job id (tables d).history ≡ map (run_row lossless id) h
      → sort_by (λ (a b : JobRun). leb a.sequence b.sequence) h ≡ h
      → read_rows (read_run rt codec db) (db.select_history d id) ≡ some h
  unfolding read_run
  runs_read d m id h own sorted =
      let ordered : in_order (of_job id (tables d).history) ≡ map (run_row lossless id) h =
        ap in_order own
        ∙ sort_by-map (λ (a b : JobRun). leb a.sequence b.sequence) (run_row lossless id)
            (λ (a b : HistoryRow B). leb a.sequence b.sequence) (λ a b. refl) h
        ∙ ap (map (run_row lossless id)) sorted in
      ap (read_rows (read_run rt codec db)) (
        answer _ _ (lawful.select_history d id) (up.select_history d id)
        ∙ ap
            (λ rows.
              accepted (scanned (map (λ (r : HistoryRow B). (r.sequence, r.payload_json)) rows)))
            ordered
        ∙ ap (λ rows. accepted (scanned rows)) (map-map _ (run_row lossless id) h))
      ∙ read_rows-scanned (read_run rt codec db) _ (λ r. r) h
          (λ r. rw (lossless.decode_payload r.payload, read_run) refl)
      ∙ ap some (map-id h)

  pub known_lem : (h : List JobRun) → known_history rt codec db true h ≡ some h
  unfolding known_history
  known_lem [] = refl
  known_lem (r ∷ h) = refl

  -- The status of an entry, with the columns that are written beside it
  pub status_lem :
      (id : String) (e : JobStatusEntry)
      → IsValid id e
      → ◌≡◌ {A = JobStatus} (record e.status { job_id = id; active_runs = e.active_runs }) e.status
  status_lem id e v = rw (sym v.job, sym v.active) refl

  -- A status as it is listed for an ID
  listed : String × JobStatusEntry → JobStatus
  listed (id, e) = record e.status { job_id = id; active_runs = e.active_runs }

  listed_lem :
      (xs : List (String × JobStatusEntry))
      → All (λ p. IsValid p.0 p.1) xs
      → map listed xs ≡ map (λ p. p.1.status) xs
  unfolding listed
  listed_lem [] h = refl
  listed_lem ((id, e) ∷ xs) h = rw (status_lem id e h.0, listed_lem xs h.1) refl

  pub statuses-same :
      (d : D) (m : InMemoryJobsStorage E F)
      → Refines lossless (tables d) m
      → Inv m
      → Queries.statuses rt codec db d ≡ Memory.statuses m
  unfolding Queries.statuses Memory.statuses listed read_status decode_sqlite_status record_of
  statuses-same d m refined inv =
      let by_id : String × JobStatusEntry → String × JobStatusEntry → Bool =
        λ p q. str_leb p.0 q.0 in
      let in_rows : sort_by (λ (p q : String × StatusRow B). str_leb p.0 q.0) (tables d).status
          ≡ as_rows (entry_row lossless) (sort_by by_id m.status) =
        ap (sort_by (λ (p q : String × StatusRow B). str_leb p.0 q.0)) refined.status
        ∙ sort_by-map by_id (λ (p : String × JobStatusEntry). (p.0, entry_row lossless p.0 p.1))
            (λ (p q : String × StatusRow B). str_leb p.0 q.0) (λ p q. refl) m.status in
      ap (λ rows. or_nil (read_rows (read_status rt codec db) rows))
        (answer _ _ (lawful.select_statuses d) (up.select_statuses d)
          ∙ ap
              (λ rows. accepted (
                scanned (
                  map (λ (p : String × StatusRow B). (p.0, p.1.status_json, p.1.active_runs))
                    rows)))
              in_rows
          ∙ ap (λ rows. accepted (scanned rows)) (map-map _ _ (sort_by by_id m.status)))
      ∙ ap or_nil (
          read_rows-scanned (read_status rt codec db) _ listed (sort_by by_id m.status) (λ p.
            rw
              (
                lossless.decode_status (normal lossless p.0 (record_of p.1)).status,
                read_status,
                decode_sqlite_status,
              )
              refl))
      ∙ sym (
          sort_by-map by_id listed (λ (a b : JobStatus). str_leb a.job_id b.job_id) (λ p q. refl)
            m.status)
      ∙ ap (sort_by (λ (a b : JobStatus). str_leb a.job_id b.job_id))
          (listed_lem m.status (All-entries IsValid m.status inv.status inv.entries))
