-- ===== src/Scheduler/Core.antt =====
-- scheduler.go: the Scheduler with Schedule, Remove and Stop, the start-up reconciliation, and what a
-- job's goroutine does at its end. The mutex makes each of them atomic. Waiting for the goroutines and
-- logging are left out.
use go_again.Prelude.{
  ℕ, ◌+◌, ◌%◌, ◌==◌, ℤ, pos, word, String, List, [], ◌∷◌, ◌++◌, Bool, true, false, ◌||◌, Option,
  none, some, if◌then◌else◌, Outcome, done, ◌>>=◌,
}
use go_again.Prelude.Text.{str_eq}
use go_again.Runtime.{Runtime, Arg}
use go_again.Storage.{
  JobState, scheduled, running, canceled, removed, stopped, Job, CallbackPayload, JobStatus, JobRun,
}
use go_again.Storage.Map.{Map, lookup, insert, delete}
use go_again.Storage.Memory.{default_history_limit}
use go_again.Scheduler.Normalize.{Checked, accepted, refused, Web, normalize_job}
use go_again.Scheduler.Query.{state_eq}

-- storage.go: a JobsStorage with states `S`; a nil error is `none`.
pub record JobsStorage (E F S : Type 0) : Type 0 where
  pub save : S → Job E F → S × Option E
  pub delete : S → String → S × Bool
  pub exists : S → String → Bool
  pub count : S → ℕ
  pub ids : S → List String
  pub upsert_status : S → String → JobState → S × Option E
  pub mark_removed : S → String → S × Option E
  pub mark_terminal : S → String → JobState → S × Option E
  pub mark_execution_start : S → String → S × Option E
  pub record_execution_result : S → String → CallbackPayload → ℤ → S × Option E
  pub state : S → String → Option JobState
  pub status : S → String → Option JobStatus
  pub statuses : S → List JobStatus
  pub history : S → String → Option (List JobRun)

-- An entry has a number in place of its address; its goroutine runs from Schedule on.
pub record JobEntry (E F : Type 0) : Type 0 where
  pub address : ℕ
  pub job : Job E F

-- `canceled` holds the entries that Remove and Stop have canceled.
pub record Scheduler (E F S : Type 0) : Type 0 where
  pub jobs : Map (JobEntry E F)
  pub jobs_storage : S
  pub history_limit : ℤ
  pub counter : ℕ
  pub stopped : Bool
  pub ctx_cause : Option E
  pub allocated : ℕ
  pub canceled : List ℕ

module _ {E F S : Type 0} (rt : Runtime E F) (web : Web E) (st : JobsStorage E F S) where
  abbrev pub keep : Scheduler E F S → S → Scheduler E F S
  keep s storage = record s { jobs_storage = storage }

  -- nextID, with the counter of 64 bits
  unfoldable pub next_id : Scheduler E F S → Scheduler E F S × String
  next_id s = let id = (s.counter + 1) % word in (record s { counter = id }, web.job_name id)

  -- `if normalized.ID == ""`
  unfoldable pub name_job : Scheduler E F S → Job E F → Scheduler E F S × Job E F
  unfolding next_id
  name_job s job =
      if str_eq job.id ""
      then (let (s', id) = next_id s in (s', record job { id = id }))
      else (s, job)

  -- The new entry of a job that is stored.
  unfoldable pub register : Scheduler E F S → Job E F → Scheduler E F S
  register s job = record s {
    allocated = s.allocated + 1;
    jobs = insert job.id (record { address = s.allocated; job = job }) s.jobs;
  }

  -- Schedule after Save and UpsertStatus, with what they returned
  unfoldable pub upserted :
      Scheduler E F S → Job E F → S × Option E → Scheduler E F S × Checked E String
  unfolding register
  upserted s job (storage, some err) = (
    keep s (st.delete storage job.id).0,
    refused (rt.wrapf rt.storage_operation "job status upsert failed: %v" (Arg.error err ∷ [])),
  )
  upserted s job (storage, none) = (register (keep s storage) job, accepted job.id)

  already_exists : String → E
  already_exists id = rt.wrapf rt.invalid_job "job id already exists: %s" (Arg.text id ∷ [])

  unfoldable pub saved :
      Scheduler E F S → Job E F → S × Option E → Scheduler E F S × Checked E String
  unfolding upserted already_exists
  saved s job (storage, some err) = (
    keep s storage,
    refused (
        if rt.is err rt.job_already_exists
        then already_exists job.id
        else rt.wrapf rt.storage_operation "job storage save failed: %v" (Arg.error err ∷ [])),
  )
  saved s job (storage, none) =
      upserted (keep s storage) job (st.upsert_status storage job.id scheduled)

  -- Schedule once the job is normalized and has its ID
  unfoldable pub admit : Scheduler E F S → Job E F → Scheduler E F S × Checked E String
  unfolding saved already_exists
  admit s job = elim (lookup job.id s.jobs) [
    | some entry ↦ (s, refused (already_exists job.id))
    | none ↦ saved s job (st.save s.jobs_storage job)
  ]

  -- Schedule with what normalizeJob returned
  unfoldable pub normalized :
      Scheduler E F S → Checked E (Job E F) → Scheduler E F S × Checked E String
  unfolding name_job admit
  normalized s (refused err) = (s, refused err)
  normalized s (accepted job) = let (s', named) = name_job s job in admit s' named

  unfoldable pub schedule : Scheduler E F S → Job E F → Outcome (Scheduler E F S × Checked E String)
  unfolding normalized
  schedule s job =
      if s.stopped
      then done (s, refused rt.scheduler_stopped)
      else do result ← normalize_job rt web s.ctx_cause job; done (normalized s result)

  -- Remove; the errors of the storage are ignored or logged.
  unfoldable pub remove : Scheduler E F S → String → Scheduler E F S × Bool
  remove s id = elim (lookup id s.jobs) [
    | none ↦ (s, false)
    | some entry ↦ (
      record s {
        canceled = entry.address ∷ s.canceled;
        jobs = delete id s.jobs;
        jobs_storage = (st.mark_removed (st.delete s.jobs_storage id).0 id).0;
      },
      true,
    )
  ]

  -- The loop of Stop over the entries
  unfoldable pub stop_jobs : S → Map (JobEntry E F) → S
  stop_jobs storage [] = storage
  stop_jobs storage ((id, entry) ∷ rest) =
      stop_jobs (st.mark_terminal (st.delete storage entry.job.id).0 entry.job.id stopped).0 rest

  abbrev pub addresses : Map (JobEntry E F) → List ℕ
  addresses [] = []
  addresses ((id, entry) ∷ rest) = entry.address ∷ addresses rest

  -- Stop, before it waits; `cause` is the error of the canceled context.
  unfoldable pub stop : E → Scheduler E F S → Scheduler E F S
  unfolding stop_jobs
  stop cause s = if s.stopped then s else record s {
    stopped = true;
    ctx_cause = some (elim s.ctx_cause [ none ↦ cause | some first ↦ first ]);
    canceled = addresses s.jobs ++ s.canceled;
    jobs_storage = stop_jobs s.jobs_storage s.jobs;
    jobs = [];
  }

  -- cleanupJob: the entry goes if it is still the one of its ID.
  unfoldable pub cleanup_job : Scheduler E F S → JobEntry E F → Scheduler E F S
  cleanup_job s entry = elim (lookup entry.job.id s.jobs) [
    | none ↦ s
    | some current ↦
        if current.address == entry.address
        then record s {
          jobs = delete entry.job.id s.jobs;
          jobs_storage = (st.delete s.jobs_storage entry.job.id).0;
        }
        else s
  ]

  -- finalizeJobState
  unfoldable pub finalize_job_state : Scheduler E F S → String → JobState → Scheduler E F S
  finalize_job_state s id state = keep s (st.mark_terminal s.jobs_storage id state).0

  unfoldable pub context_terminal_state : Scheduler E F S → String → JobState
  context_terminal_state s id = elim (st.state s.jobs_storage id) [
    | none ↦ if s.stopped then stopped else canceled
    | some state ↦
        if state_eq state removed then removed else if s.stopped then stopped else canceled
  ]

  -- reconcileRecoveredState: the error of its one step, and the loop, which ends at the first error
  unfoldable pub reconcile_status : S → String → Option JobState → S × Option E
  reconcile_status storage id none = (storage, none)
  reconcile_status storage id (some state) =
      if state_eq state scheduled || state_eq state running
      then st.mark_terminal storage id canceled
      else (storage, none)

  unfoldable pub reconcile : S → List String → S × Option E
  unfolding reconcile_status
  reconcile storage [] = (storage, none)
  reconcile storage (id ∷ ids) = elim (reconcile_status storage id (st.state storage id)).1 [
    | some err ↦ (
      (reconcile_status storage id (st.state storage id)).0,
      some (
          rt.wrapf rt.storage_operation "mark recovered job canceled failed: id=%s err=%v"
            (Arg.text id ∷ Arg.error err ∷ [])),
    )
    | none ↦ reconcile (st.delete (reconcile_status storage id (st.state storage id)).0 id).0 ids
  ]

  unfoldable pub reconcile_recovered_state : S → S × Option E
  unfolding reconcile
  reconcile_recovered_state storage = reconcile storage (st.ids storage)

-- The struct that NewSchedulerWithError makes, over a storage.
abbrev pub new_scheduler : {E F S : Type 0} → S → Scheduler E F S
new_scheduler storage = record {
  jobs = [];
  jobs_storage = storage;
  history_limit = pos default_history_limit;
  counter = 0;
  stopped = false;
  ctx_cause = none;
  allocated = 0;
  canceled = [];
}
