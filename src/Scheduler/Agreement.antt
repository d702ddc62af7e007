-- ===== src/Scheduler/Agreement.antt =====
-- Schedule, Remove, Stop and the end of a job keep the scheduler and its storage in agreement.
use mathlib.Core.Path.{subst}
use go_again.Prelude.{
  ℕ, List, [], ◌∷◌, true, false, String, if◌then◌else◌, ◌≡◌, refl, sym, ap, ◌∙◌, arith,
  Option-cases, Bool-cases, inl, inr, ◌==◌,
}
use go_again.Prelude.Text.{str_eq, eq_iff}
use go_again.Runtime.{Runtime}
use go_again.Storage.{Time, JobState, scheduled, stopped, Job}
use go_again.Storage.Map.{Map, lookup, insert, delete, Distinct, insert-Distinct, delete-Distinct}
use go_again.Storage.Memory.{InMemoryJobsStorage, save, delete_job, mark_terminal}
use go_again.Scheduler.Normalize.{Web}
use go_again.Scheduler.Core.{
  JobEntry, Scheduler, remove, stop, stop_jobs, cleanup_job, finalize_job_state, admit, name_job,
}
use go_again.Scheduler.InMemory.{
  in_memory, has, has-insert, has-delete, upsert_status-jobs, mark_removed-jobs, mark_terminal-jobs,
  delete_job-jobs, Own, insert-Own, delete-Own,
}

pub record Agrees {E F : Type 0} (s : Scheduler E F (InMemoryJobsStorage E F)) : Type 0 where
  pub stored : (id : String) → has id s.jobs_storage.jobs ≡ has id s.jobs
  pub own : Own s.jobs
  pub entries : Distinct s.jobs
  pub kept : Distinct s.jobs_storage.jobs
  pub closed : s.stopped ≡ true → s.jobs ≡ []

module _ {E F : Type 0} (rt : Runtime E F) (web : Web E) where
  -- An ID leaves the scheduler and its storage.
  both_delete :
      (s : Scheduler E F (InMemoryJobsStorage E F)) (id : String) (after : InMemoryJobsStorage E F)
      → Agrees s
      → after.jobs ≡ (delete_job s.jobs_storage id).0.jobs
      → (calls : List ℕ)
      → Agrees (record s { canceled = calls; jobs = delete id s.jobs; jobs_storage = after })
  unfolding delete
  both_delete s id after a same calls =
      let (gone, kept) = delete_job-jobs s.jobs_storage id a.kept in
      record {
        stored = λ j.
            ap (has j) same
            ∙ gone j
            ∙ ap (λ b. if str_eq id j then false else b) (a.stored j)
            ∙ sym (has-delete id j s.jobs a.entries);
        own = delete-Own id s.jobs a.own;
        entries = delete-Distinct id s.jobs a.entries;
        kept = subst Distinct (sym same) kept;
        closed = λ h. ap (delete id) (a.closed h);
      }

  pub remove-Agrees :
      (now : Time) (s : Scheduler E F (InMemoryJobsStorage E F)) (id : String)
      → Agrees s
      → Agrees (remove rt web (in_memory rt now) s id).0
  unfolding remove
  remove-Agrees now s id a = elim (Option-cases (lookup id s.jobs)) [
    | inl missing ↦ rw (missing, remove) a
    | inr (entry, found) ↦
        rw (found, remove)
          (both_delete s id _ a (mark_removed-jobs _ id now) (entry.address ∷ s.canceled))
  ]

  pub cleanup_job-Agrees :
      (now : Time) (s : Scheduler E F (InMemoryJobsStorage E F)) (entry : JobEntry E F)
      → Agrees s
      → Agrees (cleanup_job rt web (in_memory rt now) s entry)
  unfolding cleanup_job
  cleanup_job-Agrees now s entry a = elim (Option-cases (lookup entry.job.id s.jobs)) [
    | inl missing ↦ rw (missing, cleanup_job) a
    | inr (current, found) ↦ elim (Bool-cases (current.address == entry.address)) [
      | inl same ↦ rw (found, cleanup_job, same) (both_delete s entry.job.id _ a refl s.canceled)
      | inr other ↦ rw (found, cleanup_job, other) a
    ]
  ]

  pub finalize-Agrees :
      (now : Time) (s : Scheduler E F (InMemoryJobsStorage E F)) (id : String) (state : JobState)
      → Agrees s
      → Agrees (finalize_job_state rt web (in_memory rt now) s id state)
  unfolding finalize_job_state
  finalize-Agrees now s id state a =
      let same = mark_terminal-jobs s.jobs_storage id state now in
      record {
        stored = λ j. ap (has j) same ∙ a.stored j;
        own = a.own;
        entries = a.entries;
        kept = subst Distinct (sym same) a.kept;
        closed = a.closed;
      }

  -- Stop takes the IDs of the entries out of the storage, and no others.
  stop_jobs-has :
      (now : Time) (storage : InMemoryJobsStorage E F) (m : Map (JobEntry E F)) (j : String)
      → Own m
      → Distinct storage.jobs
      → (has j (stop_jobs rt web (in_memory rt now) storage m).jobs
          ≡ (if has j m then false else has j storage.jobs))
        × Distinct (stop_jobs rt web (in_memory rt now) storage m).jobs
  unfolding stop_jobs lookup
  stop_jobs-has now storage [] j o d = (refl, d)
  stop_jobs-has now storage (p ∷ rest) j o d =
      let id = p.1.job.id in
      let (gone, kept) = delete_job-jobs storage id d in
      let same = mark_terminal-jobs (delete_job storage id).0 id stopped now in
      let (left, distinct) =
        stop_jobs-has now (mark_terminal (delete_job storage id).0 id stopped now) rest j o.1
          (subst Distinct (sym same) kept) in
      let here = ap (has j) same ∙ gone j in
      (
        left ∙ ap (λ b. if has j rest then false else b) here ∙ ground (arith, eq_iff id j, o.0),
        distinct,
      )

  pub stop-Agrees :
      (now : Time) (cause : E) (s : Scheduler E F (InMemoryJobsStorage E F))
      → Agrees s
      → Agrees (stop rt web (in_memory rt now) cause s)
  unfolding stop lookup
  stop-Agrees now cause s a = elim (Bool-cases s.stopped) [
    | inl before ↦
        rw (before, stop)
          (record {
            stored = a.stored;
            own = a.own;
            entries = a.entries;
            kept = a.kept;
            closed = λ _. a.closed before;
          })
    | inr live ↦
        rw (live, stop)
          (record {
            stored = λ j.
                (stop_jobs-has now s.jobs_storage s.jobs j a.own a.kept).0
                ∙ ground (arith, a.stored j);
            own = tt;
            entries = tt;
            kept = (stop_jobs-has now s.jobs_storage s.jobs "" a.own a.kept).1;
            closed = λ _. refl;
          })
  ]

  pub name_job-Agrees :
      (now : Time) (s : Scheduler E F (InMemoryJobsStorage E F)) (job : Job E F)
      → Agrees s
      → Agrees (name_job rt web (in_memory rt now) s job).0
        × ((name_job rt web (in_memory rt now) s job).0.stopped ≡ s.stopped)
  unfolding name_job
  name_job-Agrees now s job a = elim (Bool-cases (str_eq job.id "")) [
    | inl unnamed ↦
        rw (unnamed, name_job)
          (
            record {
              stored = a.stored;
              own = a.own;
              entries = a.entries;
              kept = a.kept;
              closed = a.closed;
            },
            refl,
          )
    | inr named ↦ rw (named, name_job) (a, refl)
  ]

  pub admit-Agrees :
      (now : Time) (s : Scheduler E F (InMemoryJobsStorage E F)) (job : Job E F)
      → s.stopped ≡ false
      → Agrees s
      → Agrees (admit rt web (in_memory rt now) s job).0
  unfolding admit save
  admit-Agrees now s job live a = elim (Option-cases (lookup job.id s.jobs)) [
    | inr (entry, found) ↦ rw (found, admit) a
    | inl missing ↦ elim (Option-cases (lookup job.id s.jobs_storage.jobs)) [
      | inr (old, found) ↦ absurd (ground (arith, a.stored job.id))
      | inl fresh ↦
          let storage = record s.jobs_storage { jobs = insert job.id job s.jobs_storage.jobs } in
          let same = upsert_status-jobs storage job.id scheduled now in
          rw (missing, fresh, admit, save)
            (record {
              stored = λ j.
                  ap (has j) same
                  ∙ has-insert job.id j job s.jobs_storage.jobs
                  ∙ ap (λ b. if str_eq job.id j then true else b) (a.stored j)
                  ∙ sym (has-insert job.id j _ s.jobs);
              own = insert-Own (record { address = s.allocated; job = job }) s.jobs a.own;
              entries = insert-Distinct job.id _ s.jobs a.entries;
              kept =
                  subst Distinct (sym same) (insert-Distinct job.id job s.jobs_storage.jobs a.kept);
              closed = λ h. cc;
            })
    ]
  ]
