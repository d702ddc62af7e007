-- ===== src/Scheduler/Loops.antt =====
-- scheduler.go: the goroutines of several jobs, runJob with enqueue, and of their executions, which
-- run at the same time and share the semaphore of WithConcurrency, beside the calls of Remove and Stop.
pub mod Invariant
pub mod Safety
use go_again.Prelude.{
  ℕ, suc, ◌-◌, ◌==◌, ltb, leb, ℤ, pos, ltb_ℤ, leb_ℤ, Bool, true, false, not, ◌&&◌, Option, none,
  some, if◌then◌else◌, List, [], ◌∷◌, ◌++◌, ◌≡◌,
}
use go_again.Storage.{JobState, completed, canceled, removed, stopped, Schedule}

-- Where the goroutine of a job is: in waitUntil, at the top of the loop, in front of the semaphore, in
-- the select beside the ticker, in the deferred Wait with its terminal state, and behind MarkTerminal.
pub data Phase : Type 0 where
  starting : Phase
  checking : Phase
  enqueuing : Phase
  selecting : Phase
  draining : JobState → Phase
  finalized : JobState → Phase

-- `executing` executions hold a token, `ending` ones have given it back and have not called Done;
-- `listed` is true while this job, and not a later one of the same ID, is in the map of the scheduler.
-- `started` counts the executions, and `written` has the terminal states that its goroutine, and the
-- call of Remove or Stop that took it off the map, have written; they are no variables of the program.
pub record Loop : Type 0 where
  pub schedule : Schedule
  pub phase : Phase
  pub runs : ℕ
  pub executing : ℕ
  pub ending : ℕ
  pub started : ℕ
  pub listed : Bool
  pub written : List JobState

abbrev pub new_loop : Schedule → Loop
new_loop schedule = record {
  schedule = schedule;
  phase = starting;
  runs = 0;
  executing = 0;
  ending = 0;
  started = 0;
  listed = true;
  written = [];
}

-- `held` tokens are in the channel.
pub record System : Type 0 where
  pub loops : List Loop
  pub held : ℕ

-- contextTerminalState
pub data Interrupted : JobState → Type 0 where
  as_removed : Interrupted removed
  as_stopped : Interrupted stopped
  as_canceled : Interrupted canceled

-- `job.Schedule.MaxRuns > 0 && runs >= job.Schedule.MaxRuns`
unfoldable pub reached_max_runs : Schedule → ℕ → Bool
reached_max_runs schedule runs =
    ltb_ℤ (pos 0) schedule.max_runs && leb_ℤ schedule.max_runs (pos runs)

-- A send to the semaphore: `none` while it is full. Without WithConcurrency it is nil and left out.
unfoldable pub acquire : Option ℕ → ℕ → Option ℕ
acquire none held = some held
acquire (some capacity) held = if ltb held capacity then some (suc held) else none

unfoldable pub release : Option ℕ → ℕ → ℕ
release none held = held
release (some capacity) held = held - 1

-- One step of the goroutine of a job, or of one of its executions. What the clock and the contexts
-- do is open.
pub data LoopStep (capacity : Option ℕ) (l : Loop) (held : ℕ) (l' : Loop) (held' : ℕ) : Type 0 where
  -- StartAt is zero, or waitUntil has returned true
  starts :
      l.phase ≡ starting
      → l' ≡ record l { phase = checking }
      → held' ≡ held
      → LoopStep capacity l held l' held'
  -- waitUntil has returned false
  canceled_before_start :
      (state : JobState)
      → l.phase ≡ starting
      → (l.schedule.start_at == 0) ≡ false
      → Interrupted state
      → l' ≡ record l { phase = draining state }
      → held' ≡ held
      → LoopStep capacity l held l' held'
  -- ctx.Err() != nil
  interrupted :
      (state : JobState)
      → l.phase ≡ checking
      → Interrupted state
      → l' ≡ record l { phase = draining state }
      → held' ≡ held
      → LoopStep capacity l held l' held'
  reaches_max_runs :
      l.phase ≡ checking
      → reached_max_runs l.schedule l.runs ≡ true
      → l' ≡ record l { phase = draining completed }
      → held' ≡ held
      → LoopStep capacity l held l' held'
  -- time.Now().After(job.Schedule.EndAt)
  reaches_end :
      l.phase ≡ checking
      → reached_max_runs l.schedule l.runs ≡ false
      → (l.schedule.end_at == 0) ≡ false
      → l' ≡ record l { phase = draining completed }
      → held' ≡ held
      → LoopStep capacity l held l' held'
  -- runs++
  proceeds :
      l.phase ≡ checking
      → reached_max_runs l.schedule l.runs ≡ false
      → l' ≡ record l { phase = enqueuing; runs = suc l.runs }
      → held' ≡ held
      → LoopStep capacity l held l' held'
  -- enqueue: the send, runsWg.Add(1) and the new goroutine
  enqueues :
      l.phase ≡ enqueuing
      → acquire capacity held ≡ some held'
      → l' ≡ record l { phase = selecting; executing = suc l.executing; started = suc l.started }
      → LoopStep capacity l held l' held'
  ticks :
      l.phase ≡ selecting
      → l' ≡ record l { phase = checking }
      → held' ≡ held
      → LoopStep capacity l held l' held'
  -- ctx.Done() beside the ticker
  canceled_between_runs :
      l.phase ≡ selecting
      → l' ≡ record l { phase = draining completed }
      → held' ≡ held
      → LoopStep capacity l held l' held'
  -- execute has returned, and the token is received back
  execution_ends :
      (k : ℕ)
      → l.executing ≡ suc k
      → l' ≡ record l { executing = k; ending = suc l.ending }
      → held' ≡ release capacity held
      → LoopStep capacity l held l' held'
  -- runsWg.Done()
  execution_is_done :
      (k : ℕ)
      → l.ending ≡ suc k
      → l' ≡ record l { ending = k }
      → held' ≡ held
      → LoopStep capacity l held l' held'
  -- runsWg.Wait() has returned, and finalizeJobState is called
  finalizes :
      (state : JobState)
      → l.phase ≡ draining state
      → l.executing ≡ 0
      → l.ending ≡ 0
      → l' ≡ record l { phase = finalized state; written = l.written ++ state ∷ [] }
      → held' ≡ held
      → LoopStep capacity l held l' held'
  -- cleanupJob
  cleans_up :
      (state : JobState)
      → l.phase ≡ finalized state
      → l' ≡ record l { listed = false }
      → held' ≡ held
      → LoopStep capacity l held l' held'

-- What Remove and Stop do to one job of the map, whatever its goroutine and its executions are doing:
-- it is taken off the map and its state is written. Stop does so to each job of the map; here it may
-- be interleaved between two of them.
pub data MarkStep (l l' : Loop) : Type 0 where
  -- Remove: MarkRemoved
  is_removed :
      l.listed ≡ true
      → l' ≡ record l { listed = false; written = l.written ++ removed ∷ [] }
      → MarkStep l l'
  -- Stop: MarkTerminal with JobStateStopped
  is_stopped :
      l.listed ≡ true
      → l' ≡ record l { listed = false; written = l.written ++ stopped ∷ [] }
      → MarkStep l l'

-- A step of the system: one of the jobs moves, Remove or Stop marks one, or Schedule starts another.
pub data SystemStep (capacity : Option ℕ) (s u : System) : Type 0 where
  moves :
      (xs ys : List Loop) (l l' : Loop)
      → s.loops ≡ xs ++ l ∷ ys
      → LoopStep capacity l s.held l' u.held
      → u.loops ≡ xs ++ l' ∷ ys
      → SystemStep capacity s u
  marks :
      (xs ys : List Loop) (l l' : Loop)
      → s.loops ≡ xs ++ l ∷ ys
      → MarkStep l l'
      → u.loops ≡ xs ++ l' ∷ ys
      → u.held ≡ s.held
      → SystemStep capacity s u
  schedules :
      (schedule : Schedule)
      → u ≡ record s { loops = new_loop schedule ∷ s.loops }
      → SystemStep capacity s u

pub data Runs (capacity : Option ℕ) : System → System → Type 0 where
  here : {s : System} → Runs capacity s s
  next : {s t u : System} → SystemStep capacity s t → Runs capacity t u → Runs capacity s u

abbrev pub no_jobs : System
no_jobs = record { loops = []; held = 0 }
