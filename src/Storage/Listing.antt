-- ===== src/Storage/Listing.antt =====
-- The active jobs of InMemoryJobsStorage: Save, Delete, Exists, Count and IDs.
use mathlib.Core.List.{Perm}
use go_again.Prelude.{
  ◌+◌, String, [], ◌∷◌, map, true, false, none, some, if◌then◌else◌, ◌≡◌, arith, Option-cases, inl,
  inr,
}
use go_again.Prelude.Text.{str_eq, eq_iff, str_leb, str_leb_total, str_leb_trans}
use go_again.Runtime.{Runtime, Arg}
use go_again.Storage.{Job, JobStatus}
use go_again.Storage.Map.{
  lookup, keys, Distinct, lookup-insert, lookup-delete, length-delete, length-insert,
}
use go_again.Storage.Sorting.{sort_by-perm, sort_by-IsSorted, IsSorted}
use go_again.Storage.Memory.{
  JobStatusEntry, InMemoryJobsStorage, save, delete_job, exists_job, count_jobs, ids, statuses,
}

module _ {E F : Type 0} (rt : Runtime E F) where
  -- Save of an ID that is not stored returns nil, adds one job, and makes Exists hold of that ID and
  -- of the IDs that it held of before; Save of a stored ID returns errJobAlreadyExists and changes
  -- nothing.
  pub save_lem :
      (s : InMemoryJobsStorage E F) (job : Job E F)
      → (exists_job s job.id ≡ false
          → ((save rt s job).1 ≡ none)
            × (count_jobs (save rt s job).0 ≡ count_jobs s + 1)
            × ((id : String)
                → exists_job (save rt s job).0 id
                  ≡ (if str_eq job.id id then true else exists_job s id)))
        × (exists_job s job.id ≡ true
            → save rt s job
              ≡ (s, some (rt.wrapf rt.job_already_exists "job ID: %s" (Arg.text job.id ∷ []))))
  unfolding save exists_job count_jobs
  save_lem s job = elim (Option-cases (lookup job.id s.jobs)) [
    | inl missing ↦ (
      λ fresh. (
        ground arith,
        ground (arith, length-insert job.id job s.jobs),
        λ id. ground (arith, lookup-insert job.id id job s.jobs),
      ),
      λ there. ground arith,
    )
    | inr (old, found) ↦ (λ fresh. absurd (ground arith), λ there. ground arith)
  ]

  -- Where no ID is stored twice, Delete reports whether the ID was stored; if so it takes exactly that
  -- job out, and otherwise it changes nothing that Exists and Count show.
  pub delete_job_lem :
      (s : InMemoryJobsStorage E F) (id : String)
      → Distinct s.jobs
      → ((delete_job s id).1 ≡ exists_job s id)
        × ((j : String)
            → exists_job (delete_job s id).0 j ≡ (if str_eq id j then false else exists_job s j))
        × (count_jobs s ≡ count_jobs (delete_job s id).0 + (if exists_job s id then 1 else 0))
  unfolding delete_job exists_job count_jobs
  delete_job_lem s id d = elim (Option-cases (lookup id s.jobs)) [
    | inl missing ↦ (ground arith, λ j. ground (arith, eq_iff id j), ground arith)
    | inr (job, found) ↦ (
      ground arith,
      λ j. ground (arith, lookup-delete id j s.jobs d),
      ground (arith, length-delete id s.jobs found),
    )
  ]

-- IDs are the keys of the stored jobs, each as often as it is a key, in the order of
-- strings.Compare; Statuses are those of the entries, in the order of their job IDs.
pub listings :
    {E F : Type 0} (s : InMemoryJobsStorage E F)
    → Perm (ids s) (keys s.jobs)
      × IsSorted str_leb (ids s)
      × Perm (statuses s) (map (λ (p : String × JobStatusEntry). p.1.status) s.status)
      × IsSorted (λ (a b : JobStatus). str_leb a.job_id b.job_id) (statuses s)
unfolding ids statuses
listings s = (
  sort_by-perm str_leb (keys s.jobs),
  sort_by-IsSorted str_leb str_leb_total str_leb_trans (keys s.jobs),
  sort_by-perm _ _,
  sort_by-IsSorted {A = JobStatus} (λ a b. str_leb a.job_id b.job_id)
      (λ a b. str_leb_total a.job_id b.job_id) (λ a b c. str_leb_trans a.job_id b.job_id c.job_id)
      (map (λ (p : String × JobStatusEntry). p.1.status) s.status),
)
