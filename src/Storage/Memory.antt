-- ===== src/Storage/Memory.antt =====
-- storage.go: InMemoryJobsStorage. The mutex makes each method atomic, and a method that changes the
-- storage returns the new one. `now` is what time.Now returned. Counters do not wrap: they count runs.
use go_again.Prelude.{
  ℕ, suc, ◌-◌, ℤ, pos, leb_ℤ, pos_part, ltb, String, List, [], ◌∷◌, ◌++◌, Bool, true, false, Option,
  none, some, length, drop, map, if◌then◌else◌,
}
use go_again.Runtime.{Runtime, Arg}
use go_again.Storage.{
  Time, JobState, scheduled, running, removed, CallbackPayload, JobStatus, JobRun, Job,
}
use go_again.Storage.Map.{Map, lookup, insert, delete, keys}
use go_again.Storage.Sorting.{sort_by}
use go_again.Prelude.Text.{str_leb}

pub record JobStatusEntry : Type 0 where
  pub status : JobStatus
  pub history : List JobRun
  pub active_runs : ℕ
  pub terminal : Bool
  pub last_sequence : ℕ

pub record InMemoryJobsStorage (E F : Type 0) : Type 0 where
  pub jobs : Map (Job E F)
  pub status : Map JobStatusEntry

-- NewInMemoryJobsStorage
abbrev pub new_in_memory_jobs_storage : (E F : Type 0) → InMemoryJobsStorage E F
new_in_memory_jobs_storage E F = record { jobs = []; status = [] }

abbrev pub default_history_limit : ℕ
default_history_limit = 20

-- The methods on one entry.

-- UpsertStatus, for a new entry and for one that is there
unfoldable pub new_entry : String → JobState → Time → JobStatusEntry
new_entry id state now = record {
  status = record {
    job_id = id;
    state = state;
    created_at = now;
    updated_at = now;
    runs = 0;
    active_runs = 0;
    last_run = none;
  };
  history = [];
  active_runs = 0;
  terminal = false;
  last_sequence = 0;
}

unfoldable pub upsert_entry : JobState → Time → JobStatusEntry → JobStatusEntry
upsert_entry state now e = record e { status = record e.status { state = state; updated_at = now } }

-- MarkRemoved
unfoldable pub removed_entry : Time → JobStatusEntry → JobStatusEntry
removed_entry now e = record e {
  terminal = true;
  status = record e.status { state = removed; active_runs = e.active_runs; updated_at = now };
}

-- MarkTerminal
unfoldable pub terminal_entry : JobState → Time → JobStatusEntry → JobStatusEntry
terminal_entry state now e = if e.terminal then e else record e {
  terminal = true;
  status = record e.status { state = state; active_runs = e.active_runs; updated_at = now };
}

-- MarkExecutionStart
unfoldable pub started_entry : Time → JobStatusEntry → JobStatusEntry
started_entry now e = record e {
  active_runs = suc e.active_runs;
  status = record e.status {
    active_runs = suc e.active_runs;
    updated_at = now;
    state = if e.terminal then e.status.state else running;
  };
}

-- `if historyLimit <= 0 { historyLimit = defaultHistoryLimit }`
unfoldable pub effective_limit : ℤ → ℕ
effective_limit limit = if leb_ℤ limit (pos 0) then default_history_limit else pos_part limit

-- `history[len(history)-limit:]`, if it is longer than the limit
unfoldable pub trim : ℕ → List JobRun → List JobRun
trim limit history =
    if ltb limit (length history) then drop (length history - limit) history else history

-- RecordExecutionResult
unfoldable pub recorded_entry : CallbackPayload → ℤ → Time → JobStatusEntry → JobStatusEntry
unfolding effective_limit trim
recorded_entry payload limit now e =
    let sequence = suc e.last_sequence in
    let run : JobRun = record { sequence = sequence; payload = payload } in
    let active = if ltb 0 e.active_runs then e.active_runs - 1 else e.active_runs in
    record e {
      last_sequence = sequence;
      history = trim (effective_limit limit) (e.history ++ run ∷ []);
      active_runs = active;
      status = record e.status {
        runs = sequence;
        last_run = some payload;
        active_runs = active;
        updated_at = now;
        state = if e.terminal then e.status.state else if ltb 0 active then running else scheduled;
      };
    }

module _ {E F : Type 0} where
  -- `entry, ok := s.status[id]`, and a change of the entry that is found
  unfoldable pub modify :
      String → (JobStatusEntry → JobStatusEntry) → InMemoryJobsStorage E F → InMemoryJobsStorage E F
  modify id change s = elim (lookup id s.status) [
    | none ↦ s
    | some e ↦ record s { status = insert id (change e) s.status }
  ]

  unfoldable pub upsert_status :
      InMemoryJobsStorage E F → String → JobState → Time → InMemoryJobsStorage E F
  unfolding new_entry upsert_entry
  upsert_status s id state now = elim (lookup id s.status) [
    | none ↦ record s { status = insert id (new_entry id state now) s.status }
    | some e ↦ record s { status = insert id (upsert_entry state now e) s.status }
  ]

  unfoldable pub mark_removed : InMemoryJobsStorage E F → String → Time → InMemoryJobsStorage E F
  unfolding modify removed_entry
  mark_removed s id now = modify id (removed_entry now) s

  unfoldable pub mark_terminal :
      InMemoryJobsStorage E F → String → JobState → Time → InMemoryJobsStorage E F
  unfolding modify terminal_entry
  mark_terminal s id state now = modify id (terminal_entry state now) s

  unfoldable pub mark_execution_start :
      InMemoryJobsStorage E F → String → Time → InMemoryJobsStorage E F
  unfolding modify started_entry
  mark_execution_start s id now = modify id (started_entry now) s

  unfoldable pub record_execution_result :
      InMemoryJobsStorage E F → String → CallbackPayload → ℤ → Time → InMemoryJobsStorage E F
  unfolding modify recorded_entry
  record_execution_result s id payload limit now = modify id (recorded_entry payload limit now) s

  -- State, Status and History; the boolean of the Go result says whether the entry is there.
  unfoldable pub state_of : InMemoryJobsStorage E F → String → Option JobState
  state_of s id = elim (lookup id s.status) [ none ↦ none | some e ↦ some e.status.state ]

  unfoldable pub status_of : InMemoryJobsStorage E F → String → Option JobStatus
  status_of s id = elim (lookup id s.status) [ none ↦ none | some e ↦ some e.status ]

  unfoldable pub history_of : InMemoryJobsStorage E F → String → Option (List JobRun)
  history_of s id = elim (lookup id s.status) [ none ↦ none | some e ↦ some e.history ]

  -- Statuses: the statuses of the entries, sorted by job ID
  unfoldable pub statuses : InMemoryJobsStorage E F → List JobStatus
  unfolding sort_by
  statuses s =
      sort_by (λ a b. str_leb a.job_id b.job_id)
        (map (λ (p : String × JobStatusEntry). p.1.status) s.status)

  -- Save; `none` is a nil error
  unfoldable pub save :
      Runtime E F → InMemoryJobsStorage E F → Job E F → InMemoryJobsStorage E F × Option E
  save rt s job = elim (lookup job.id s.jobs) [
    | some _ ↦ (s, some (rt.wrapf rt.job_already_exists "job ID: %s" (Arg.text job.id ∷ [])))
    | none ↦ (record s { jobs = insert job.id job s.jobs }, none)
  ]

  unfoldable pub delete_job : InMemoryJobsStorage E F → String → InMemoryJobsStorage E F × Bool
  delete_job s id = elim (lookup id s.jobs) [
    | none ↦ (s, false)
    | some _ ↦ (record s { jobs = delete id s.jobs }, true)
  ]

  unfoldable pub exists_job : InMemoryJobsStorage E F → String → Bool
  exists_job s id = elim (lookup id s.jobs) [ none ↦ false | some _ ↦ true ]

  unfoldable pub count_jobs : InMemoryJobsStorage E F → ℕ
  count_jobs s = length s.jobs

  -- IDs: the keys, sorted
  unfoldable pub ids : InMemoryJobsStorage E F → List String
  unfolding sort_by
  ids s = sort_by str_leb (keys s.jobs)
