-- ===== src/Examples/Queries.antt =====
-- Queries of three statuses and of a history of three runs.
use go_again.Prelude.{
  wrap64, ℕ, ◌≡◌, refl, ℤ, pos, String, List, [], ◌∷◌, ◌++◌, none, some, arith, done, panicked,
  drop, filter_by,
}
use go_again.Storage.{JobState-discrete, JobState, JobStatus, JobRun, scheduled, completed}
use go_again.Storage.History.{last_of}
use go_again.Scheduler.Query.{
  JobStatusQuery, query_job_statuses, query_job_history, make_id_filter, make_state_filter, slice,
}
use go_again.Scheduler.Filter.{wanted}
use go_again.Scheduler.Pages.{
  page, query_job_statuses-page, query_job_statuses_rest, successive_pages,
  query_job_statuses_overflow,
}
use go_again.Scheduler.Runs.{query_job_history_lem}
use go_again.Examples.Jobs.{payload}

abbrev a_status : String → JobState → JobStatus
a_status id state = record {
  job_id = id;
  state = state;
  created_at = 1;
  updated_at = 1;
  runs = 0;
  active_runs = 0;
  last_run = none;
}

abbrev three : List JobStatus
three = a_status "a" scheduled ∷ a_status "b" completed ∷ a_status "c" scheduled ∷ []

-- The statuses of state scheduled.
abbrev asked : ℤ → ℤ → JobStatusQuery
asked offset limit = record { ids = []; states = scheduled ∷ []; offset = offset; limit = limit }

second_page_test :
    query_job_statuses three (asked (pos 1) (pos 1)) ≡ done (a_status "c" scheduled ∷ [])
unfolding JobState-discrete query_job_statuses make_id_filter make_state_filter slice wrap64
second_page_test = refl

query_job_statuses-page_example :
    query_job_statuses three (asked (pos 1) (pos 1))
    ≡ done (page 1 1 (filter_by (wanted (asked (pos 1) (pos 1))) three))
query_job_statuses-page_example =
    query_job_statuses-page three (asked (pos 1) (pos 1)) 1 1 refl refl (omega arith) (omega arith)

query_job_statuses_rest_example :
    query_job_statuses three (asked (pos 1) (pos 0))
    ≡ done (drop 1 (filter_by (wanted (asked (pos 1) (pos 0))) three))
query_job_statuses_rest_example =
    (query_job_statuses_rest three (asked (pos 1) (pos 0)) 1 (omega arith)).0 refl

successive_pages_example :
    (a b : List JobStatus) × (query_job_statuses three (asked (pos 0) (pos 1)) ≡ done a)
    × (query_job_statuses three (asked (pos 1) (pos 1)) ≡ done b)
    × (query_job_statuses three (asked (pos 0) (pos 2)) ≡ done (a ++ b))
successive_pages_example =
    successive_pages three (asked (pos 0) (pos 0)) 0 1 1 (omega arith) (omega arith) (omega arith)

query_job_statuses_overflow_example :
    query_job_statuses three (asked (pos 1) (pos 9223372036854775807)) ≡ panicked
unfolding JobState-discrete
query_job_statuses_overflow_example =
    query_job_statuses_overflow three (asked (pos 1) (pos 9223372036854775807)) 1
      9223372036854775807 refl refl (omega arith) (omega arith) (omega arith) (omega arith)
      (omega arith)

abbrev a_run : ℕ → JobRun
a_run n = record { sequence = n; payload = payload n }

abbrev runs : List JobRun
runs = a_run 4 ∷ a_run 5 ∷ a_run 6 ∷ []

query_job_history_lem_example :
    query_job_history (some runs) (record { from_sequence = pos 5; limit = pos 1 })
    ≡ some (last_of 1 (drop 1 runs))
query_job_history_lem_example =
    (query_job_history_lem 3 5 1 runs (record { from_sequence = pos 5; limit = pos 1 })
      (refl, (refl, (refl, tt))) (omega arith) (omega arith)).0
