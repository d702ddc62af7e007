-- ===== src/Storage/Sqlite/Recorded.antt =====
-- RecordExecutionResult of SQLiteJobsStorage, without a retention, keeps the rows of the runs that
-- InMemoryJobsStorage keeps.
use go_again.Prelude.{
  ℕ, suc, String, [], ◌∷◌, ◌++◌, map, false, some, ◌≡◌, refl, ap, ◌∙◌, arith, Option-cases,
  Bool-cases, inl, inr,
}
use go_again.Runtime.{Runtime}
use go_again.Storage.{Time, JobRun, CallbackPayload}
use go_again.Storage.Map.{lookup, insert}
use go_again.Storage.Memory.{
  JobStatusEntry, InMemoryJobsStorage, modify, new_entry, upsert_entry, removed_entry,
  terminal_entry, started_entry,
}
use go_again.Storage.Sqlite.{no_retention, SqliteStatusRecord, HistoryRow, Codec, Database}
use go_again.Storage.Memory
use go_again.Storage.Sqlite.Records.{upsert_status_record_tx}
use go_again.Storage.Sqlite.Laws.{Tables, IsSqlite}
use go_again.Storage.Sqlite.Promises.{IsLossless, IsUp}
use go_again.Storage.Sqlite.Success.{
  Ends, proceed-Ends, normal, status_row, history_row, upsert_status_record_tx-Ends,
}
use go_again.Storage.Sqlite.Simulation.{
  record_of, runs_of, run_row, Refines, written-Refines, Keeps, found-Keeps, missing-Keeps,
}
use go_again.Storage.Memory.{recorded_entry, effective_limit, trim}
use go_again.Storage.Entry.{IsValid, grown-Numbered, effective_limit_pos}
use go_again.Storage.Sqlite.Records.{trim_history_tx, apply_execution_result}
use go_again.Storage.Sqlite.Methods.{write_result, record_execution_result, prune_job_tx}
use go_again.Storage.Sqlite.Laws.{has_run}
use go_again.Storage.Sqlite.Trimming.{Numbered-fresh}
use go_again.Storage.Sqlite.AsRows.{any_of-filter_by, any_of-map}
use go_again.Storage.Sqlite.Success.{insert_history_tx-Ends, trim_history_tx-Ends}
use go_again.Prelude.{any_of, leb_ℤ, sub_ℕ, pos, ◌==◌, ◌-◌, length, ℤ}
use go_again.Storage.Sqlite.KeptRows.{trimmed, recorded_rows_lem}

module _ {E F D B : Type 0} (rt : Runtime E F) (codec : Codec E B) (db : Database E D B)
    (tables : D → Tables B) (lossless : IsLossless codec) (lawful : IsSqlite db tables)
    (up : IsUp db tables) where
  -- No row has the number that the next run gets.
  fresh_run :
      (t : Tables B) (m : InMemoryJobsStorage E F) (id : String) (e : JobStatusEntry)
      → Refines lossless t m
      → lookup id m.status ≡ some e
      → IsValid id e
      → has_run id (suc e.last_sequence) t.history ≡ false
  fresh_run t m id e refined found v =
      any_of-filter_by _ _ t.history
      ∙ ap (any_of (λ (r : HistoryRow B). r.sequence == suc e.last_sequence))
          (refined.history id ∙ ap (λ o. map (run_row lossless id) (runs_of o)) found)
      ∙ any_of-map _ (run_row lossless id) e.history
      ∙ Numbered-fresh (suc e.last_sequence) (e.last_sequence - length e.history) e.history
          (omega (arith, v.kept)) v.numbered

  trim-Ends :
      (id : String) (sequence limit : ℕ) (ts : Tables B) (t : D)
      → tables t ≡ ts
      → Ends tables
          (trim_history_tx rt codec db id sequence (pos limit) t)
          (record ts { history = trimmed id sequence limit ts.history })
          tt
  unfolding trimmed
  trim-Ends id sequence limit ts t same =
      let done =
        trim_history_tx-Ends rt codec db tables lossless lawful up t ts id sequence limit same in
      elim (Bool-cases (leb_ℤ (sub_ℕ sequence limit) (pos 0))) [
        | inl met ↦ rw (met, trimmed) (rw met at done)
        | inr unmet ↦ rw (unmet, trimmed) (rw unmet at done)
      ]

  prune_nothing-Ends :
      (id : String) (now : Time) (ts : Tables B) (t : D)
      → tables t ≡ ts
      → Ends tables (prune_job_tx rt codec db no_retention id now t) ts tt
  unfolding prune_job_tx
  prune_nothing-Ends id now ts t same = (same, refl)

  -- The steps of the transaction, in order
  write_result-Ends :
      (id : String) (payload : CallbackPayload) (limit : ℤ) (now : Time) (rec : SqliteStatusRecord)
      (ts : Tables B) (t : D)
      → tables t ≡ ts
      → has_run id (suc rec.last_sequence) ts.history ≡ false
      → Ends tables
          (write_result rt codec db no_retention id payload limit now (some rec) t)
          (record ts {
            history =
                trimmed id
                  (suc rec.last_sequence)
                  (effective_limit limit)
                  (ts.history ++ history_row lossless id (suc rec.last_sequence) payload ∷ []);
            status =
                insert id
                  (status_row lossless id (
                    apply_execution_result rt codec db now payload
                      (record rec { last_sequence = suc rec.last_sequence })))
                  ts.status;
          })
          tt
  unfolding write_result
  write_result-Ends id payload limit now rec ts t same fresh =
      let sequence = suc rec.last_sequence in
      let changed =
        apply_execution_result rt codec db now payload (record rec { last_sequence = sequence }) in
      let rows = ts.history ++ history_row lossless id sequence payload ∷ [] in
      let inserted = record ts { history = rows } in
      let cut = record ts { history = trimmed id sequence (effective_limit limit) rows } in
      proceed-Ends tables _ _ tt
        (insert_history_tx-Ends rt codec db tables lossless lawful up t ts id sequence payload same
          fresh)
        (λ t same.
          proceed-Ends tables _ _ tt (trim-Ends id sequence (effective_limit limit) inserted t same)
            (λ t same.
              proceed-Ends tables _ (λ _. upsert_status_record_tx rt codec db id changed) tt
                (prune_nothing-Ends id now cut t same)
                (λ t same.
                  upsert_status_record_tx-Ends rt codec db tables lossless lawful up t cut id
                    changed same)))

  pub record_execution_result-Keeps :
      (d : D) (id : String) (payload : CallbackPayload) (limit : ℤ) (now : Time)
      (m : InMemoryJobsStorage E F)
      → Refines lossless (tables d) m
      → ((e : JobStatusEntry) → lookup id m.status ≡ some e → IsValid id e)
      → Keeps rt codec db tables lossless lawful up
          (record_execution_result rt codec db no_retention d id payload limit now)
          (Memory.record_execution_result m id payload limit now)
  unfolding record_execution_result Memory.record_execution_result modify write_result
      apply_execution_result recorded_entry record_of
  record_execution_result-Keeps d id payload limit now m refined valid =
      elim (Option-cases (lookup id m.status)) [
        | inl missing ↦
            rw (missing, modify)
              (missing-Keeps rt codec db tables lossless lawful up _ d id m m _ (tables d) tt
                refined missing (λ t same. (same, refl)) refined)
        | inr (e, found) ↦
            let v = valid e found in
            let run : JobRun = record { sequence = suc e.last_sequence; payload = payload } in
            let grown = grown-Numbered (valid e found) now run refl in
            rw (found, modify)
              (found-Keeps rt codec db tables lossless lawful up _ d id e m _ _ _ tt refined found
                (λ t same.
                  write_result-Ends id payload limit now (normal lossless id (record_of e))
                    (tables d) t same (fresh_run (tables d) m id e refined found v))
                (written-Refines lossless (tables d) m id (recorded_entry payload limit now e)
                  (trimmed id (suc e.last_sequence) (effective_limit limit)
                    ((tables d).history ++ run_row lossless id run ∷ []))
                  refined
                  (λ j.
                    recorded_rows_lem lossless id j (suc e.last_sequence) (effective_limit limit)
                      (tables d).history e.history _ run
                      (refined.history id ∙ ap (λ o. map (run_row lossless id) (runs_of o)) found)
                      (refined.history j) (effective_limit_pos limit) grown.0 grown.1)))
      ]
