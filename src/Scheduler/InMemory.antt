-- ===== src/Scheduler/InMemory.antt =====
-- The scheduler over the in-memory storage: the jobs that both of them keep.
use go_again.Prelude.{
  [], ◌∷◌, Bool, true, false, none, some, String, if◌then◌else◌, ◌≡◌, refl, arith, Option-cases,
  Bool-cases, inl, inr, All,
}
use go_again.Prelude.Text.{str_eq, eq_iff}
use go_again.Runtime.{Runtime}
use go_again.Storage.{Time, JobState}
use go_again.Storage.Map.{
  Map, lookup, insert, delete, Distinct, lookup-insert, lookup-delete, delete-Distinct,
}
use go_again.Storage.Memory.{
  InMemoryJobsStorage, JobStatusEntry, modify, save, delete_job, exists_job, count_jobs, status_of,
  statuses, history_of, ids, upsert_status, mark_removed, mark_terminal, mark_execution_start,
  record_execution_result, state_of,
}
use go_again.Scheduler.Core.{JobsStorage, JobEntry}

-- The methods at one instant; they return nil errors but for Save.
abbrev pub in_memory :
    {E F : Type 0} → Runtime E F → Time → JobsStorage E F (InMemoryJobsStorage E F)
in_memory rt now = record {
  save = save rt;
  delete = delete_job;
  exists = exists_job;
  count = count_jobs;
  ids = ids;
  upsert_status = λ s id state. (upsert_status s id state now, none);
  mark_removed = λ s id. (mark_removed s id now, none);
  mark_terminal = λ s id state. (mark_terminal s id state now, none);
  mark_execution_start = λ s id. (mark_execution_start s id now, none);
  record_execution_result =
      λ s id payload limit. (record_execution_result s id payload limit now, none);
  state = state_of;
  status = status_of;
  statuses = statuses;
  history = history_of;
}

-- Whether a key is there.
abbrev pub has : {V : Type 0} → String → Map V → Bool
has k m = elim (lookup k m) [ none ↦ false | some _ ↦ true ]

pub has-insert :
    {V : Type 0} (k j : String) (v : V) (m : Map V)
    → has j (insert k v m) ≡ (if str_eq k j then true else has j m)
has-insert k j v m = ground (arith, lookup-insert k j v m)

pub has-delete :
    {V : Type 0} (k j : String) (m : Map V)
    → Distinct m
    → has j (delete k m) ≡ (if str_eq k j then false else has j m)
has-delete k j m d = ground (arith, lookup-delete k j m d)

module _ {E F : Type 0} where
  modify-jobs :
      (id : String) (change : JobStatusEntry → JobStatusEntry) (s : InMemoryJobsStorage E F)
      → (modify id change s).jobs ≡ s.jobs
  unfolding modify
  modify-jobs id change s = ground arith

  pub upsert_status-jobs :
      (s : InMemoryJobsStorage E F) (id : String) (state : JobState) (now : Time)
      → (upsert_status s id state now).jobs ≡ s.jobs
  unfolding upsert_status
  upsert_status-jobs s id state now = ground arith

  pub mark_removed-jobs :
      (s : InMemoryJobsStorage E F) (id : String) (now : Time)
      → (mark_removed s id now).jobs ≡ s.jobs
  unfolding mark_removed
  mark_removed-jobs s id now = modify-jobs id _ s

  pub mark_terminal-jobs :
      (s : InMemoryJobsStorage E F) (id : String) (state : JobState) (now : Time)
      → (mark_terminal s id state now).jobs ≡ s.jobs
  unfolding mark_terminal
  mark_terminal-jobs s id state now = modify-jobs id _ s

  pub delete_job-jobs :
      (s : InMemoryJobsStorage E F) (id : String)
      → Distinct s.jobs
      → ((j : String)
          → has j (delete_job s id).0.jobs ≡ (if str_eq id j then false else has j s.jobs))
        × Distinct (delete_job s id).0.jobs
  unfolding delete_job
  delete_job-jobs s id d = elim (Option-cases (lookup id s.jobs)) [
    | inl missing ↦ rw (missing, delete_job) (λ j. ground (arith, eq_iff id j), d)
    | inr (job, found) ↦
        rw (found, delete_job) (λ j. has-delete id j s.jobs d, delete-Distinct id s.jobs d)
  ]

-- Every entry stands under the ID of its job.
abbrev pub Own : {E F : Type 0} → Map (JobEntry E F) → Type 0
Own = All (λ p. p.1.job.id ≡ p.0)

pub insert-Own :
    {E F : Type 0} (entry : JobEntry E F) (m : Map (JobEntry E F))
    → Own m
    → Own (insert entry.job.id entry m)
unfolding insert
insert-Own entry [] o = (refl, tt)
insert-Own entry (p ∷ rest) o = elim (Bool-cases (str_eq p.0 entry.job.id)) [
  | inl same ↦ rw same (refl, o.1)
  | inr other ↦ rw other (o.0, insert-Own entry rest o.1)
]

pub delete-Own : {E F : Type 0} (id : String) (m : Map (JobEntry E F)) → Own m → Own (delete id m)
unfolding delete
delete-Own id [] o = tt
delete-Own id (p ∷ rest) o = elim (Bool-cases (str_eq p.0 id)) [
  | inl same ↦ rw same o.1
  | inr other ↦ rw other (o.0, delete-Own id rest o.1)
]
