-- ===== src/Storage/Sqlite/Reading.antt =====
-- SQLiteJobsStorage shows what InMemoryJobsStorage shows.
use mathlib.Core.Option
use go_again.Prelude.{
  String, [], map, Bool, true, false, Option, none, some, ◌≡◌, refl, sym, ap, ◌∙◌, Option-cases,
  inl, inr,
}
use go_again.Prelude.Text.{str_eq}
use go_again.Runtime.{Runtime}
use go_again.Storage.Map.{lookup}
use go_again.Storage.Memory.{
  JobStatusEntry, InMemoryJobsStorage, modify, new_entry, upsert_entry, removed_entry,
  terminal_entry, started_entry,
}
use go_again.Storage.Sqlite.{accepted, Codec, Database}
use go_again.Storage.Memory
use go_again.Storage.Sqlite.Records.{load_status_record_query_row}
use go_again.Storage.Sqlite.Laws.{Tables, IsSqlite}
use go_again.Storage.Sqlite.Promises.{IsLossless, IsUp}
use go_again.Storage.Sqlite.Success.{normal}
use go_again.Storage.Sqlite.Simulation.{record_of, runs_of, entry_row, run_row, Refines, row_found}
use go_again.Prelude.{length, length-map, any_of}
use go_again.Storage.Sorting.{sort_by-sorted}
use go_again.Storage.Operations.{Inv}
use go_again.Storage.Sqlite.Queries
use go_again.Storage.Sqlite.Queries.{
  collect, read_rows, or_nil, is_found, load_status_record, status_exists, known_history, read_run,
  read_status,
}
use go_again.Storage.Sqlite.Promises.{answer}
use go_again.Storage.Sqlite.Success.{query_row_lem}
use go_again.Storage.Sqlite.AsRows.{has_key_none, has_key_some}
use go_again.Storage.Sqlite.Trimming.{Numbered-IsSorted}
use go_again.Storage.Sqlite.Scans.{ids-same, runs_read, known_lem, status_lem, statuses-same}

abbrev is_there : {A : Type 0} → Option A → Bool
is_there none = false
is_there (some a) = true

module _ {E F D B : Type 0} (rt : Runtime E F) (codec : Codec E B) (db : Database E D B)
    (tables : D → Tables B) (lossless : IsLossless codec) (lawful : IsSqlite db tables)
    (up : IsUp db tables) where
  -- What the methods that read return, for each argument.
  pub record ShowsSame (d : D) (m : InMemoryJobsStorage E F) : Type 0 where
    pub state_of : (id : String) → Queries.state_of rt codec db d id ≡ Memory.state_of m id
    pub status_of : (id : String) → Queries.status_of rt codec db d id ≡ Memory.status_of m id
    pub history_of : (id : String) → Queries.history_of rt codec db d id ≡ Memory.history_of m id
    pub statuses : Queries.statuses rt codec db d ≡ Memory.statuses m
    pub exists_job : (id : String) → Queries.exists_job rt codec db d id ≡ Memory.exists_job m id
    pub count_jobs : Queries.count_jobs rt codec db d ≡ Memory.count_jobs m
    pub ids : Queries.ids rt codec db d ≡ Memory.ids m

  load_lem :
      (d : D) (m : InMemoryJobsStorage E F) (id : String)
      → Refines lossless (tables d) m
      → load_status_record rt codec db d id
        ≡ Option.map (λ e. normal lossless id (record_of e)) (lookup id m.status)
  unfolding load_status_record load_status_record_query_row
  load_lem d m id refined =
      let row =
        answer _ _ (lawful.select_status d id) (up.select_status d id)
        ∙ ap accepted (row_found lossless (tables d) m id refined) in
      elim (Option-cases (lookup id m.status)) [
        | inl missing ↦ rw (row, missing, load_status_record, load_status_record_query_row) refl
        | inr (e, found) ↦
            rw
              (
                row,
                found,
                load_status_record,
                query_row_lem rt codec db tables lossless lawful up id (record_of e),
              )
              refl
      ]

  state_of-same :
      (d : D) (m : InMemoryJobsStorage E F) (id : String)
      → Refines lossless (tables d) m
      → Queries.state_of rt codec db d id ≡ Memory.state_of m id
  unfolding Queries.state_of Memory.state_of record_of
  state_of-same d m id refined = elim (Option-cases (lookup id m.status)) [
    | inl missing ↦ rw (Queries.state_of, load_lem d m id refined, missing, Memory.state_of) refl
    | inr (e, found) ↦ rw (Queries.state_of, load_lem d m id refined, found, Memory.state_of) refl
  ]

  status_of-same :
      (d : D) (m : InMemoryJobsStorage E F) (id : String)
      → Refines lossless (tables d) m
      → Inv m
      → Queries.status_of rt codec db d id ≡ Memory.status_of m id
  unfolding Queries.status_of Memory.status_of record_of
  status_of-same d m id refined inv = elim (Option-cases (lookup id m.status)) [
    | inl missing ↦ rw (Queries.status_of, load_lem d m id refined, missing, Memory.status_of) refl
    | inr (e, found) ↦
        rw (Queries.status_of, load_lem d m id refined, found, Memory.status_of)
          (ap some (status_lem rt codec db tables lossless lawful up id e (inv.entries id e found)))
  ]

  exists_job-same :
      (d : D) (m : InMemoryJobsStorage E F) (id : String)
      → Refines lossless (tables d) m
      → Queries.exists_job rt codec db d id ≡ Memory.exists_job m id
  unfolding Queries.exists_job Memory.exists_job
  exists_job-same d m id refined = elim (Option-cases (lookup id m.jobs)) [
    | inl missing ↦
        let (err, e) =
          lawful.select_job_none d id
            (ap (any_of (λ k. str_eq k id)) refined.jobs ∙ has_key_none id m.jobs missing) in
        rw (Queries.exists_job, e, missing, Memory.exists_job) refl
    | inr (job, found) ↦
        let there =
          ap (any_of (λ k. str_eq k id)) refined.jobs ∙ has_key_some id job m.jobs found in
        rw
          (
            Queries.exists_job,
            answer _ _ (lawful.select_job d id there) (up.select_job d id there),
            found,
            Memory.exists_job,
          )
          refl
  ]

  count_jobs-same :
      (d : D) (m : InMemoryJobsStorage E F)
      → Refines lossless (tables d) m
      → Queries.count_jobs rt codec db d ≡ Memory.count_jobs m
  unfolding Queries.count_jobs Memory.count_jobs
  count_jobs-same d m refined =
      rw (Queries.count_jobs, answer _ _ (lawful.count_jobs d) (up.count_jobs d))
        (sym (length-map _ (tables d).jobs) ∙ ap length refined.jobs ∙ length-map _ m.jobs)

  status_exists-same :
      (d : D) (m : InMemoryJobsStorage E F) (id : String)
      → Refines lossless (tables d) m
      → status_exists rt codec db d id ≡ is_there (lookup id m.status)
  unfolding status_exists
  status_exists-same d m id refined =
      let row = row_found lossless (tables d) m id refined in
      elim (Option-cases (lookup id m.status)) [
        | inl missing ↦
            let (err, e) =
              lawful.select_status_exists_none d id
                (row ∙ ap (Option.map (entry_row lossless id)) missing) in
            rw (status_exists, e, missing) refl
        | inr (e, found) ↦
            let there = row ∙ ap (Option.map (entry_row lossless id)) found in
            rw
              (
                status_exists,
                answer _ _ (lawful.select_status_exists d id _ there)
                    (up.select_status_exists d id _ there),
                found,
              )
              refl
      ]

  history_of-same :
      (d : D) (m : InMemoryJobsStorage E F) (id : String)
      → Refines lossless (tables d) m
      → Inv m
      → Queries.history_of rt codec db d id ≡ Memory.history_of m id
  unfolding Queries.history_of Memory.history_of known_history
  history_of-same d m id refined inv =
      let known = status_exists-same d m id refined in
      elim (Option-cases (lookup id m.status)) [
        | inl missing ↦
            let read =
              runs_read rt codec db tables lossless lawful up d m id []
                (refined.history id ∙ ap (λ o. map (run_row lossless id) (runs_of o)) missing)
                (sort_by-sorted _ [] tt) in
            rw (Queries.history_of, read, known, missing, Memory.history_of) refl
        | inr (e, found) ↦
            let v = inv.entries id e found in
            let read =
              runs_read rt codec db tables lossless lawful up d m id e.history
                (refined.history id ∙ ap (λ o. map (run_row lossless id) (runs_of o)) found)
                (sort_by-sorted _ e.history (Numbered-IsSorted _ e.history v.numbered)) in
            rw (Queries.history_of, read, known, found, Memory.history_of)
              (known_lem rt codec db tables lossless lawful up e.history)
      ]

  pub reading-same :
      (d : D) (m : InMemoryJobsStorage E F) → Refines lossless (tables d) m → Inv m → ShowsSame d m
  reading-same d m refined inv = record {
    state_of = λ id. state_of-same d m id refined;
    status_of = λ id. status_of-same d m id refined inv;
    history_of = λ id. history_of-same d m id refined inv;
    statuses = statuses-same rt codec db tables lossless lawful up d m refined inv;
    exists_job = λ id. exists_job-same d m id refined;
    count_jobs = count_jobs-same d m refined;
    ids = ids-same rt codec db tables lossless lawful up d m refined;
  }
