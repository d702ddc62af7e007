-- ===== src/Scheduler/Calls.antt =====
-- Sequences of calls of a scheduler over the in-memory storage.
use go_again.Prelude.{
  pos, List, [], ◌∷◌, false, String, ◌≡◌, refl, ap, ◌∙◌, arith, Bool-cases, inl, inr, Outcome, done,
  ◌>>=◌, if◌then◌else◌,
}
use go_again.Runtime.{Runtime, Unwraps}
use go_again.Storage.{Time, JobState, Job}
use go_again.Storage.Map.{lookup}
use go_again.Storage.Memory.{InMemoryJobsStorage, new_in_memory_jobs_storage}
use go_again.Scheduler.Normalize.{Checked, accepted, refused, Web, normalize_job}
use go_again.Scheduler.Default.{normalize_job_lem}
use go_again.Scheduler.Core.{
  JobEntry, Scheduler, new_scheduler, schedule, remove, stop, cleanup_job, finalize_job_state,
  name_job, normalized,
}
use go_again.Scheduler.InMemory.{in_memory}
use go_again.Scheduler.Agreement.{
  Agrees, remove-Agrees, cleanup_job-Agrees, finalize-Agrees, stop-Agrees, name_job-Agrees,
  admit-Agrees,
}

-- What changes a scheduler, apart from the status of a job: the calls of its users, and cleanupJob and
-- finalizeJobState at the end of a job's goroutine.
pub data Op (E F : Type 0) : Type 0 where
  schedules : Job E F → Op E F
  removes : String → Op E F
  stops : E → Op E F
  cleans : JobEntry E F → Op E F
  finalizes : String → JobState → Op E F

module _ {E F : Type 0} (rt : Runtime E F) (web : Web E) where
  unfoldable pub step :
      Scheduler E F (InMemoryJobsStorage E F)
      → Time × Op E F
      → Outcome (Scheduler E F (InMemoryJobsStorage E F))
  step s (now, schedules job) = do (s', result) ← schedule rt web (in_memory rt now) s job; done s'
  step s (now, removes id) = done (remove rt web (in_memory rt now) s id).0
  step s (now, stops cause) = done (stop rt web (in_memory rt now) cause s)
  step s (now, cleans entry) = done (cleanup_job rt web (in_memory rt now) s entry)
  step s (now, finalizes id state) = done (finalize_job_state rt web (in_memory rt now) s id state)

  unfoldable pub run :
      Scheduler E F (InMemoryJobsStorage E F)
      → List (Time × Op E F)
      → Outcome (Scheduler E F (InMemoryJobsStorage E F))
  unfolding step
  run s [] = done s
  run s (c ∷ cs) = do s' ← step s c; run s' cs

  normalized-Agrees :
      (now : Time) (s : Scheduler E F (InMemoryJobsStorage E F)) (c : Checked E (Job E F))
      → s.stopped ≡ false
      → Agrees s
      → Agrees (normalized rt web (in_memory rt now) s c).0
  unfolding normalized
  normalized-Agrees now s (refused err) live a = a
  normalized-Agrees now s (accepted job) live a =
      let (named, same) = name_job-Agrees rt web now s job a in
      admit-Agrees rt web now _ (name_job rt web (in_memory rt now) s job).1 (same ∙ live) named

  schedule-Agrees :
      (now : Time) (s : Scheduler E F (InMemoryJobsStorage E F)) (job : Job E F)
      → Unwraps rt
      → rt.le_one (rt.of_int (pos 2)) ≡ false
      → Agrees s
      → (s' : Scheduler E F (InMemoryJobsStorage E F)) × (result : Checked E String) × (schedule rt
            web
            (in_memory rt now)
            s
            job
          ≡ done (s', result))
        × Agrees s'
  unfolding schedule
  schedule-Agrees now s job u factor a = elim (Bool-cases s.stopped) [
    | inl closed ↦ (s, refused rt.scheduler_stopped, ground arith, a)
    | inr live ↦
        let (c, e, _) = normalize_job_lem rt web s.ctx_cause job u factor in
        let (s', result) = normalized rt web (in_memory rt now) s c in
        (
          s',
          result,
          ap
                (λ b.
                  if b
                  then done (s, refused rt.scheduler_stopped)
                  else (normalize_job rt web s.ctx_cause job
                      >>= (λ c. done (normalized rt web (in_memory rt now) s c))))
                live
              ∙ ap (λ o. o >>= (λ c. done (normalized rt web (in_memory rt now) s c))) e,
          normalized-Agrees now s c live a,
        )
  ]

  step-Agrees :
      (s : Scheduler E F (InMemoryJobsStorage E F)) (c : Time × Op E F)
      → Unwraps rt
      → rt.le_one (rt.of_int (pos 2)) ≡ false
      → Agrees s
      → (s' : Scheduler E F (InMemoryJobsStorage E F)) × (step s c ≡ done s') × Agrees s'
  unfolding step
  step-Agrees s (now, schedules job) u f a =
      let (s', result, e, a') = schedule-Agrees now s job u f a in (s', rw e refl, a')
  step-Agrees s (now, removes id) u f a = (_, refl, remove-Agrees rt web now s id a)
  step-Agrees s (now, stops cause) u f a = (_, refl, stop-Agrees rt web now cause s a)
  step-Agrees s (now, cleans entry) u f a = (_, refl, cleanup_job-Agrees rt web now s entry a)
  step-Agrees s (now, finalizes id state) u f a = (_, refl, finalize-Agrees rt web now s id state a)

  run_keeps-Agrees :
      (s : Scheduler E F (InMemoryJobsStorage E F)) (cs : List (Time × Op E F))
      → Unwraps rt
      → rt.le_one (rt.of_int (pos 2)) ≡ false
      → Agrees s
      → (s' : Scheduler E F (InMemoryJobsStorage E F)) × (run s cs ≡ done s') × Agrees s'
  unfolding run
  run_keeps-Agrees s [] u f a = (s, refl, a)
  run_keeps-Agrees s (c ∷ cs) u f a =
      let (s', e, a') = step-Agrees s c u f a in
      let (s'', e', a'') = run_keeps-Agrees s' cs u f a' in
      (s'', ap (λ o. o >>= (λ x. run x cs)) e ∙ e', a'')

  -- If errors.Is sees through ewrap's wrappers and 2 is above 1 as a float64, then any sequence of
  -- Schedule, Remove and Stop and of cleanupJob and finalizeJobState, on a new scheduler with an
  -- in-memory storage and any URL validator, runs without a panic. After it the storage holds a job for
  -- exactly the IDs that the scheduler has an entry for; no ID is there twice, each entry stands under
  -- the ID of its job, and a stopped scheduler has none.
  pub calls-Agrees :
      (cs : List (Time × Op E F))
      → Unwraps rt
      → rt.le_one (rt.of_int (pos 2)) ≡ false
      → (s : Scheduler E F (InMemoryJobsStorage E F)) × (run
            (new_scheduler (new_in_memory_jobs_storage E F))
            cs
          ≡ done s)
        × Agrees s
  unfolding lookup
  calls-Agrees cs u f =
      run_keeps-Agrees _ cs u f
        (record { stored = λ id. refl; own = tt; entries = tt; kept = tt; closed = λ h. refl })
