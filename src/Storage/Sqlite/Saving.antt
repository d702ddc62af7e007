-- ===== src/Storage/Sqlite/Saving.antt =====
-- Save and Delete of SQLiteJobsStorage do what those of InMemoryJobsStorage do.
use mathlib.Core.Path.{subst}
use go_again.Prelude.{
  ℕ, String, [], ◌∷◌, true, Option, none, some, ◌≡◌, refl, sym, ap, ◌∙◌, arith, Option-cases, inl,
  inr,
}
use go_again.Prelude.Text.{str_eq}
use go_again.Runtime.{Runtime}
use go_again.Storage.Map.{lookup, insert}
use go_again.Storage.Memory.{
  JobStatusEntry, InMemoryJobsStorage, modify, new_entry, upsert_entry, removed_entry,
  terminal_entry, started_entry,
}
use go_again.Storage.Sqlite.{Checked, accepted, no_retention, Codec, Database}
use go_again.Storage.Memory
use go_again.Storage.Sqlite.Methods
use go_again.Storage.Sqlite.Methods.{
  upserted_record, upsert_status, change_status, write_change, removed_record, terminal_record,
  started_record,
}
use go_again.Storage.Sqlite.Laws.{Tables, IsSqlite}
use go_again.Storage.Sqlite.Promises.{IsLossless, IsUp}
use go_again.Storage.Sqlite.Simulation.{Refines}
use go_again.Prelude.{any_of}
use go_again.Storage.{Job}
use go_again.Storage.Map.{delete}
use go_again.Storage.Sqlite.{refused}
use go_again.Storage.Sqlite.Laws.{number, Removal}
use go_again.Storage.Sqlite.Success.{effect-Ends}
use go_again.Storage.Sqlite.AsRows.{
  insert_key, delete_key, keys-insert, keys-delete, has_key_none, lookup_with_key, delete-missing,
  has_key_some, lookup_without_key,
}
use go_again.Prelude.{ltb}
use go_again.Runtime.{Arg}
use go_again.Storage.Memory.{new_in_memory_jobs_storage}
use go_again.Storage.Sqlite.Methods.{inserted, any_affected}

module _ {E F D B : Type 0} (rt : Runtime E F) (codec : Codec E B) (db : Database E D B)
    (tables : D → Tables B) (lossless : IsLossless codec) (lawful : IsSqlite db tables)
    (up : IsUp db tables) where
  -- Save
  inserted_new :
      (id : String) (r : D × Option E)
      → r.1 ≡ none
      → inserted rt codec db no_retention id r ≡ (r.0, none)
  unfolding inserted
  inserted_new id (d, none) h = refl
  inserted_new id (d, some err) h = absurd cc

  inserted_again :
      (id : String) (r : D × Option E) (err : E)
      → r.1 ≡ some err
      → db.is_unique_violation err ≡ true
      → inserted rt codec db no_retention id r
        ≡ (r.0, some (rt.wrapf rt.job_already_exists "job ID: %s" (Arg.text id ∷ [])))
  unfolding inserted
  inserted_again id (d, none) err h twice = absurd cc
  inserted_again id (d, some err') err h twice =
      let this : db.is_unique_violation err' ≡ true = ground (arith) in rw (this, inserted) refl

  pub save-Keeps :
      (d : D) (job : Job E F) (m : InMemoryJobsStorage E F)
      → Refines lossless (tables d) m
      → Refines lossless
          (tables (Methods.save rt codec db no_retention d job).0)
          (Memory.save rt m job).0
        × ((Methods.save rt codec db no_retention d job).1 ≡ (Memory.save rt m job).1)
  unfolding Methods.save Memory.save
  save-Keeps d job m refined =
      let id = job.id in
      let json = lossless.job_json id in
      let same_keys = ap (any_of (λ k. str_eq k id)) refined.jobs in
      elim (Option-cases (lookup id m.jobs)) [
        | inl missing ↦
            let new =
              lookup_without_key id (tables d).jobs (same_keys ∙ has_key_none id m.jobs missing) in
            let wrote =
              effect-Ends tables _ _ _ (lawful.insert_job_new d id json new)
                (up.insert_job d id json new) in
            rw
              (
                Methods.save,
                lossless.encode_job id,
                inserted_new id (db.insert_job d id json) (up.insert_job d id json new),
                missing,
                Memory.save,
              )
              (
                subst (λ t. Refines lossless t (record m { jobs = insert id job m.jobs }))
                    (sym wrote)
                    (record {
                      jobs =
                          keys-insert id json (tables d).jobs
                          ∙ ap (insert_key id) refined.jobs
                          ∙ sym (keys-insert id job m.jobs);
                      status = refined.status;
                      history = refined.history;
                    }),
                refl,
              )
        | inr (old, found) ↦
            let (row, there) =
              lookup_with_key id (tables d).jobs (same_keys ∙ has_key_some id old m.jobs found) in
            let (err, failed, kept) = lawful.insert_job_again d id json row there in
            rw
              (
                Methods.save,
                lossless.encode_job id,
                inserted_again id (db.insert_job d id json) err failed
                    (up.insert_job_again d id json row err there failed),
                found,
                Memory.save,
              )
              (subst (λ t. Refines lossless t m) (sym kept) refined, refl)
      ]

  removed_lem :
      (r : D × Checked E (Checked E ℕ)) (before wanted : Tables B) (n k : ℕ)
      → Removal before wanted n (tables r.0) r.1
      → r.1 ≡ accepted (accepted k)
      → (tables r.0 ≡ wanted) × (any_affected rt codec db no_retention r.1 ≡ ltb 0 n)
  unfolding any_affected
  removed_lem (d, refused err) before wanted n k law h = absurd cc
  removed_lem (d, accepted (refused err)) before wanted n k law h = absurd cc
  removed_lem (d, accepted (accepted x)) before wanted n k law h = (law.0, ap (ltb 0) law.1)

  pub delete-Keeps :
      (d : D) (id : String) (m : InMemoryJobsStorage E F)
      → Refines lossless (tables d) m
      → Refines lossless
          (tables (Methods.delete_job rt codec db no_retention d id).0)
          (Memory.delete_job m id).0
        × ((Methods.delete_job rt codec db no_retention d id).1 ≡ (Memory.delete_job m id).1)
  unfolding Methods.delete_job Memory.delete_job
  delete-Keeps d id m refined =
      let (k, fine) = up.delete_job d id in
      let (gone, answered) =
        removed_lem (db.delete_job d id) _ _ _ k (lawful.delete_job d id) fine in
      let same_keys = ap (any_of (λ k. str_eq k id)) refined.jobs in
      let after : Refines lossless (tables (db.delete_job d id).0)
          (record m { jobs = delete id m.jobs }) =
        subst (λ t. Refines lossless t (record m { jobs = delete id m.jobs })) (sym gone)
          (record {
            jobs =
                keys-delete id (tables d).jobs
                ∙ ap (delete_key id) refined.jobs
                ∙ sym (keys-delete id m.jobs);
            status = refined.status;
            history = refined.history;
          }) in
      elim (Option-cases (lookup id m.jobs)) [
        | inl missing ↦
            rw (missing, Memory.delete_job)
              (
                subst
                    (λ jobs.
                      Refines lossless (tables (db.delete_job d id).0) (record m { jobs = jobs }))
                    (delete-missing id m.jobs missing) after,
                answered ∙ ap (λ b. ltb 0 (number b)) (same_keys ∙ has_key_none id m.jobs missing),
              )
        | inr (job, found) ↦
            rw (found, Memory.delete_job)
              (
                after,
                answered
                    ∙ ap (λ b. ltb 0 (number b)) (same_keys ∙ has_key_some id job m.jobs found),
              )
      ]
