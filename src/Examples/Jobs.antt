-- ===== src/Examples/Jobs.antt =====
-- The in-memory storage on one job.
use go_again.Prelude.{
  ℕ, suc, ◌+◌, ◌≡◌, refl, pos, String, List, [], ◌∷◌, map, none, some, true, false, if◌then◌else◌,
  any_of,
}
use go_again.Prelude.Text.{str_eq, str_leb}
use go_again.Runtime.{Arg}
use mathlib.Core.List.{Perm}
use go_again.Storage.{Time, Job, JobStatus, scheduled, completed, removed, CallbackPayload}
use go_again.Storage.Map.{keys, lookup, insert}
use go_again.Storage.Sorting.{IsSorted}
use go_again.Storage.Memory.{
  JobStatusEntry, InMemoryJobsStorage, new_in_memory_jobs_storage, new_entry, upsert_entry,
  terminal_entry, save, delete_job, exists_job, count_jobs, ids, statuses, history_of, state_of,
  mark_terminal, record_execution_result, mark_execution_start, upsert_status,
}
use go_again.Storage.Operations.{Call, Inv, run, saves, upserts, run-Inv}
use go_again.Storage.History.{record_all, record_all_lem, runs_from, last_of}
use go_again.Storage.Reuse.{
  Event, happen_all, is_removal, IsLive, lifecycle, reused_id_stays_scheduled,
}
use go_again.Storage.Listing.{save_lem, delete_job_lem, listings}
use go_again.Examples.Errors.{numbers}

abbrev pub payload : ℕ → CallbackPayload
payload n = record {
  job_id = "a";
  scheduled_at = n;
  started_at = n;
  finished_at = suc n;
  attempts = 1;
  success = true;
  status_code = pos 200;
  error = "";
  response_body = "";
}

abbrev pub hourly : Job ℕ ℕ
hourly = record {
  id = "a";
  schedule = record { every = pos 3600; start_at = 0; end_at = 0; max_runs = pos 2 };
  request = record { method = "GET"; url = "http://a"; headers = []; body = []; timeout = pos 5 };
  callback = record {
    url = "";
    method = "";
    headers = [];
    timeout = pos 0;
    max_body_bytes = pos 0;
  };
  retry_policy = record { retrier = none; temporary_errors = []; retry_status_codes = [] };
}

abbrev pub one_job : InMemoryJobsStorage ℕ ℕ
one_job = record { jobs = ("a", hourly) ∷ []; status = ("a", new_entry "a" scheduled 1) ∷ [] }

abbrev two_runs : List (Time × CallbackPayload)
two_runs = (5, payload 4) ∷ (7, payload 6) ∷ []

abbrev calls : List (Time × Call ℕ ℕ)
calls =
    (1, saves hourly)
    ∷ (1, upserts "a" scheduled)
    ∷ (4, Call.starts "a")
    ∷ (5, Call.records "a" (payload 4) (pos 1))
    ∷ []

run-Inv_example : Inv (run numbers (new_in_memory_jobs_storage ℕ ℕ) calls)
run-Inv_example = run-Inv numbers calls

record_all_lem_example :
    ((record_all two_runs (pos 1) (new_entry "a" scheduled 1)).history
      ≡ last_of 1 (runs_from 0 two_runs))
    × ((record_all two_runs (pos 1) (new_entry "a" scheduled 1)).status.runs ≡ 2)
unfolding new_entry
record_all_lem_example = record_all_lem two_runs (pos 1) (new_entry "a" scheduled 1) [] refl refl

abbrev one_run : List (Time × Event)
one_run = (4, Event.starts) ∷ (5, Event.records (payload 4) (pos 1)) ∷ []

lifecycle_example :
    let e = happen_all (new_entry "a" scheduled 1) one_run in
    IsLive e
    × (e.terminal ≡ false
        → (happen_all (terminal_entry completed 6 e) one_run).status.state
          ≡ (if any_of is_removal one_run then removed else completed))
lifecycle_example = lifecycle "a" 1 6 completed one_run one_run

abbrev ended : JobStatusEntry
unfolding new_entry
ended = record (new_entry "a" completed 1) { terminal = true }

reused_id_stays_scheduled_example :
    (happen_all (upsert_entry scheduled 9 ended) one_run).status.state ≡ scheduled
unfolding ended
reused_id_stays_scheduled_example = reused_id_stays_scheduled ended 9 one_run refl refl

save_lem_example :
    save numbers one_job hourly
    ≡ (one_job, some (numbers.wrapf numbers.job_already_exists "job ID: %s" (Arg.text "a" ∷ [])))
unfolding exists_job lookup
save_lem_example = (save_lem numbers one_job hourly).1 refl

delete_job_lem_example :
    ((delete_job one_job "a").1 ≡ exists_job one_job "a")
    × ((j : String)
        → exists_job (delete_job one_job "a").0 j
          ≡ (if str_eq "a" j then false else exists_job one_job j))
    × (count_jobs one_job
        ≡ count_jobs (delete_job one_job "a").0 + (if exists_job one_job "a" then 1 else 0))
delete_job_lem_example = delete_job_lem numbers one_job "a" (tt, tt)

listings_example :
    Perm (ids one_job) (keys one_job.jobs)
    × IsSorted str_leb (ids one_job)
    × Perm (statuses one_job) (map (λ (p : String × JobStatusEntry). p.1.status) one_job.status)
    × IsSorted (λ (a b : JobStatus). str_leb a.job_id b.job_id) (statuses one_job)
listings_example = listings one_job

recorded_test :
    history_of
      (record_execution_result (mark_execution_start one_job "a" 4) "a" (payload 4) (pos 0) 5)
      "a"
    ≡ some (record { sequence = 1; payload = payload 4 } ∷ [])
unfolding history_of record_execution_result mark_execution_start new_entry lookup insert
recorded_test = refl

rescheduled_test :
    state_of (upsert_status (mark_terminal one_job "a" completed 6) "a" scheduled 8) "a"
    ≡ some scheduled
unfolding state_of upsert_status mark_terminal new_entry lookup insert
rescheduled_test = refl
