-- ===== src/Scheduler/Recovery.antt =====
-- What reconcileRecoveredState leaves of an in-memory storage.
use mathlib.Core.Path.{subst}
use go_again.Prelude.{
  List, [], ◌∷◌, false, ◌||◌, Option, none, some, String, any_of, if◌then◌else◌, ◌≡◌, refl, sym, ap,
  ◌∙◌, arith, Bool-cases, inl, inr,
}
use go_again.Prelude.Text.{str_eq, eq_iff, str_leb}
use go_again.Runtime.{Runtime}
use go_again.Storage.{Time, JobState, canceled, scheduled, running}
use go_again.Storage.Map.{Map, lookup, keys, Distinct}
use go_again.Storage.Memory.{InMemoryJobsStorage, delete_job, exists_job, ids, state_of}
use go_again.Storage.Sorting.{any_of-sort_by}
use go_again.Scheduler.Normalize.{Web}
use go_again.Scheduler.Query.{state_eq}
use go_again.Scheduler.Core.{reconcile, reconcile_status, reconcile_recovered_state}
use go_again.Scheduler.InMemory.{in_memory, has, mark_terminal-jobs, delete_job-jobs}

module _ {E F : Type 0} (rt : Runtime E F) (web : Web E) where
  reconcile_status_lem :
      (now : Time) (s : InMemoryJobsStorage E F) (id : String) (state : Option JobState)
      → ((reconcile_status rt web (in_memory rt now) s id state).1 ≡ none)
        × ((reconcile_status rt web (in_memory rt now) s id state).0.jobs ≡ s.jobs)
  unfolding reconcile_status
  reconcile_status_lem now s id none = (refl, refl)
  reconcile_status_lem now s id (some state) =
      elim (Bool-cases (state_eq state scheduled || state_eq state running)) [
        | inl active ↦ rw (active, reconcile_status) (refl, mark_terminal-jobs s id canceled now)
        | inr ended ↦ rw (ended, reconcile_status) (refl, refl)
      ]

  reconcile_lem :
      (now : Time) (s : InMemoryJobsStorage E F) (names : List String) (j : String)
      → Distinct s.jobs
      → ((reconcile rt web (in_memory rt now) s names).1 ≡ none)
        × (has j (reconcile rt web (in_memory rt now) s names).0.jobs
            ≡ (if any_of (str_eq j) names then false else has j s.jobs))
  unfolding reconcile
  reconcile_lem now s [] j d = (refl, refl)
  reconcile_lem now s (id ∷ names) j d =
      let step = reconcile_status rt web (in_memory rt now) s id (state_of s id) in
      let (fine, same) = reconcile_status_lem now s id (state_of s id) in
      let (gone, kept) = delete_job-jobs step.0 id (subst Distinct (sym same) d) in
      let (ok, left) = reconcile_lem now (delete_job step.0 id).0 names j kept in
      rw (fine, reconcile)
        (ok, left ∙ ground (arith, gone j, ap (has j) same, eq_iff id j, eq_iff j id))

  has-keys : {V : Type 0} (j : String) (m : Map V) → any_of (str_eq j) (keys m) ≡ has j m
  unfolding lookup
  has-keys j [] = refl
  has-keys j ((i, v) ∷ m) = ground (arith, has-keys j m, eq_iff i j, eq_iff j i)

  -- Over an in-memory storage that holds no ID twice, reconcileRecoveredState returns no error, and
  -- after it no job of any ID is active.
  pub reconcile_recovered_state_lem :
      (now : Time) (s : InMemoryJobsStorage E F) (id : String)
      → Distinct s.jobs
      → ((reconcile_recovered_state rt web (in_memory rt now) s).1 ≡ none)
        × (exists_job (reconcile_recovered_state rt web (in_memory rt now) s).0 id ≡ false)
  unfolding reconcile_recovered_state exists_job ids
  reconcile_recovered_state_lem now s id d =
      let (ok, left) = reconcile_lem now s (ids s) id d in
      let listed : any_of (str_eq id) (ids s) ≡ has id s.jobs =
        any_of-sort_by str_leb (str_eq id) (keys s.jobs) ∙ has-keys id s.jobs in
      (ok, left ∙ ground (arith, listed))
