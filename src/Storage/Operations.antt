-- ===== src/Storage/Operations.antt =====
-- Histories of calls of an InMemoryJobsStorage, and what holds after each.
use mathlib.Core.Path.{subst₂}
use mathlib.Core.Option.{some-injective}
use go_again.Prelude.{
  ℤ, String, List, [], ◌∷◌, some, ◌≡◌, refl, Option-cases, inl, inr, Bool-cases, sym, ◌∙◌,
}
use go_again.Prelude.Text.{str_eq, eq_iff}
use go_again.Runtime.{Runtime}
use go_again.Storage.{Time, JobState, CallbackPayload, Job}
use go_again.Storage.Map.{lookup, insert, Distinct, lookup-insert, insert-Distinct, delete-Distinct}
use go_again.Storage.Memory.{
  JobStatusEntry, InMemoryJobsStorage, new_in_memory_jobs_storage, new_entry, upsert_entry, modify,
  upsert_status, mark_removed, mark_terminal, mark_execution_start, record_execution_result, save,
  delete_job,
}
use go_again.Storage.Entry.{
  IsValid, new_entry-IsValid, upsert_entry-IsValid, removed_entry-IsValid, terminal_entry-IsValid,
  started_entry-IsValid, recorded_entry-IsValid,
}

-- The calls that change the storage.
pub data Call (E F : Type 0) : Type 0 where
  saves : Job E F → Call E F
  deletes : String → Call E F
  upserts : String → JobState → Call E F
  marks_removed : String → Call E F
  marks_terminal : String → JobState → Call E F
  starts : String → Call E F
  records : String → CallbackPayload → ℤ → Call E F

pub record Inv {E F : Type 0} (s : InMemoryJobsStorage E F) : Type 0 where
  pub jobs : Distinct s.jobs
  pub status : Distinct s.status
  pub entries : (id : String) (e : JobStatusEntry) → lookup id s.status ≡ some e → IsValid id e

module _ {E F : Type 0} (rt : Runtime E F) where
  unfoldable pub step : InMemoryJobsStorage E F → Time × Call E F → InMemoryJobsStorage E F
  step s (now, saves job) = (save rt s job).0
  step s (now, deletes id) = (delete_job s id).0
  step s (now, upserts id state) = upsert_status s id state now
  step s (now, marks_removed id) = mark_removed s id now
  step s (now, marks_terminal id state) = mark_terminal s id state now
  step s (now, starts id) = mark_execution_start s id now
  step s (now, records id payload limit) = record_execution_result s id payload limit now

  unfoldable pub run : InMemoryJobsStorage E F → List (Time × Call E F) → InMemoryJobsStorage E F
  unfolding step
  run s [] = s
  run s (c ∷ cs) = run (step s c) cs

  put-Inv :
      (s : InMemoryJobsStorage E F) (id : String) (e : JobStatusEntry)
      → Inv s
      → IsValid id e
      → Inv (record s { status = insert id e s.status })
  put-Inv s id e i v = record {
    jobs = i.jobs;
    status = insert-Distinct id e s.status i.status;
    entries = λ j f found. elim (Bool-cases (str_eq id j)) [
      | inl same ↦
          let here : some e ≡ some f =
            sym (rw (lookup-insert id j e s.status, same) refl) ∙ found in
          subst₂ IsValid ((eq_iff id j).0 same) (some-injective _ _ here) v
      | inr other ↦ i.entries j f (sym (rw (lookup-insert id j e s.status, other) refl) ∙ found)
    ];
  }

  modify-Inv :
      (s : InMemoryJobsStorage E F) (id : String) (change : JobStatusEntry → JobStatusEntry)
      → Inv s
      → ((e : JobStatusEntry) → IsValid id e → IsValid id (change e))
      → Inv (modify id change s)
  unfolding modify
  modify-Inv s id change i keep = elim (Option-cases (lookup id s.status)) [
    | inl missing ↦ rw (missing, modify) i
    | inr (e, found) ↦
        rw (found, modify) (put-Inv s id (change e) i (keep e (i.entries id e found)))
  ]

  upsert-Inv :
      (s : InMemoryJobsStorage E F) (id : String) (state : JobState) (now : Time)
      → Inv s
      → Inv (upsert_status s id state now)
  unfolding upsert_status
  upsert-Inv s id state now i = elim (Option-cases (lookup id s.status)) [
    | inl missing ↦
        rw (missing, upsert_status)
          (put-Inv s id (new_entry id state now) i (new_entry-IsValid id state now))
    | inr (e, found) ↦
        rw (found, upsert_status)
          (put-Inv s id (upsert_entry state now e) i
            (upsert_entry-IsValid (i.entries id e found) now state))
  ]

  save-Inv : (s : InMemoryJobsStorage E F) (job : Job E F) → Inv s → Inv (save rt s job).0
  unfolding save
  save-Inv s job i = elim (Option-cases (lookup job.id s.jobs)) [
    | inl missing ↦
        rw (missing, save)
          (record {
            jobs = insert-Distinct job.id job s.jobs i.jobs;
            status = i.status;
            entries = i.entries;
          })
    | inr (_, found) ↦ rw (found, save) i
  ]

  delete-Inv : (s : InMemoryJobsStorage E F) (id : String) → Inv s → Inv (delete_job s id).0
  unfolding delete_job
  delete-Inv s id i = elim (Option-cases (lookup id s.jobs)) [
    | inl missing ↦ rw (missing, delete_job) i
    | inr (_, found) ↦
        rw (found, delete_job)
          (record {
            jobs = delete-Distinct id s.jobs i.jobs;
            status = i.status;
            entries = i.entries;
          })
  ]

  pub step-Inv : (s : InMemoryJobsStorage E F) (c : Time × Call E F) → Inv s → Inv (step s c)
  unfolding step mark_removed mark_terminal mark_execution_start record_execution_result
  step-Inv s (now, saves job) i = save-Inv s job i
  step-Inv s (now, deletes id) i = delete-Inv s id i
  step-Inv s (now, upserts id state) i = upsert-Inv s id state now i
  step-Inv s (now, marks_removed id) i = modify-Inv s id _ i (λ e v. removed_entry-IsValid v now)
  step-Inv s (now, marks_terminal id state) i =
      modify-Inv s id _ i (λ e v. terminal_entry-IsValid v now state)
  step-Inv s (now, starts id) i = modify-Inv s id _ i (λ e v. started_entry-IsValid v now)
  step-Inv s (now, records id payload limit) i =
      modify-Inv s id _ i (λ e v. recorded_entry-IsValid v now payload limit)

  run_keeps-Inv :
      (s : InMemoryJobsStorage E F) (cs : List (Time × Call E F)) → Inv s → Inv (run s cs)
  unfolding run
  run_keeps-Inv s [] i = i
  run_keeps-Inv s (c ∷ cs) i = run_keeps-Inv (step s c) cs (step-Inv s c i)

  -- After any calls of a new storage no ID has two jobs or two status entries; every entry is about
  -- its own job, its counters agree with each other, its history is the latest runs numbered without
  -- a gap up to the last one, and LastRun is the payload of the last run of the history.
  pub run-Inv : (cs : List (Time × Call E F)) → Inv (run (new_in_memory_jobs_storage E F) cs)
  unfolding lookup
  run-Inv cs = run_keeps-Inv _ cs (record { jobs = tt; status = tt; entries = λ id e found. cc })
