-- ===== src/Examples/Scheduling.antt =====
-- The scheduler on one job.
use go_again.Prelude.{false, ◌==◌, if◌then◌else◌, ℕ, ◌≡◌, refl, none, [], ◌∷◌, List, done}
use go_again.Storage.{Time, Job}
use go_again.Storage.Memory.{exists_job, InMemoryJobsStorage, new_in_memory_jobs_storage}
use go_again.Scheduler.Core.{Scheduler, new_scheduler, reconcile_recovered_state}
use go_again.Scheduler.InMemory.{in_memory}
use go_again.Scheduler.Recovery.{reconcile_recovered_state_lem}
use go_again.Scheduler.Agreement.{Agrees}
use go_again.Scheduler.Calls.{Op, schedules, removes, stops, run, calls-Agrees}
use go_again.Scheduler.Normalize.{Checked, accepted, refused, Web, normalize_job, normalize_request}
use go_again.Scheduler.Normal.{Ensures, IsRefusal, OfJob}
use go_again.Scheduler.Default.{normalize_job_lem}
use go_again.Examples.Errors.{numbers, numbers-Unwraps}
use go_again.Examples.Jobs.{hourly, one_job}

-- All text is in capitals, and URLs are not validated.
abbrev pub no_validator : Web ℕ
no_validator = record {
  to_upper = λ s. s;
  job_name = λ n. if n == 1 then "job-1" else "job-n";
  url_validator = none;
}

patch_test :
    normalize_request numbers no_validator (record hourly.request { method = "PATCH" }) ≡ refused 24
unfolding normalize_request
patch_test = refl

default_method_test :
    normalize_request numbers no_validator (record hourly.request { method = "" })
    ≡ accepted hourly.request
unfolding normalize_request
default_method_test = refl

normalize_job_lem_example :
    (c : Checked ℕ (Job ℕ ℕ)) × (normalize_job numbers no_validator none hourly ≡ done c)
    × Ensures (OfJob numbers no_validator hourly) (IsRefusal numbers no_validator) c
normalize_job_lem_example = normalize_job_lem numbers no_validator none hourly numbers-Unwraps refl

abbrev days_work : List (Time × Op ℕ ℕ)
days_work = (1, schedules hourly) ∷ (2, removes "a") ∷ (3, schedules hourly) ∷ (9, stops 7) ∷ []

calls-Agrees_example :
    (s : Scheduler ℕ ℕ (InMemoryJobsStorage ℕ ℕ)) × (run numbers no_validator
        (new_scheduler (new_in_memory_jobs_storage ℕ ℕ))
        days_work
      ≡ done s)
    × Agrees s
calls-Agrees_example = calls-Agrees numbers no_validator days_work numbers-Unwraps refl

reconcile_recovered_state_lem_example :
    ((reconcile_recovered_state numbers no_validator (in_memory numbers 5) one_job).1 ≡ none)
    × (exists_job
          (reconcile_recovered_state numbers no_validator (in_memory numbers 5) one_job).0
          "a"
        ≡ false)
reconcile_recovered_state_lem_example =
    reconcile_recovered_state_lem numbers no_validator 5 one_job "a" (tt, tt)
