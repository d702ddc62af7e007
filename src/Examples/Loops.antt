-- ===== src/Examples/Loops.antt =====
-- A job with one run, under a semaphore of one token.
use go_again.Prelude.{refl, pos, some, [], ◌∷◌, All, false}
use go_again.Storage.{Schedule, removed}
use go_again.Scheduler.Loops.{
  Loop, System, checking, enqueuing, selecting, new_loop, starts, proceeds, enqueues, acquire,
  reached_max_runs, SystemStep, moves, marks, is_removed, schedules, Runs, here, next, no_jobs,
}
use go_again.Scheduler.Loops.Safety.{Within, total, IsBounded, Runs-IsBounded}

abbrev once : Schedule
once = record { every = pos 60; start_at = 0; end_at = 0; max_runs = pos 1 }

abbrev at_top : Loop
at_top = record (new_loop once) { phase = checking }

abbrev at_send : Loop
at_send = record at_top { phase = enqueuing; runs = 1 }

abbrev at_select : Loop
at_select = record at_send { phase = selecting; executing = 1; started = 1 }

abbrev one_running : System
one_running = record { loops = at_select ∷ []; held = 1 }

first_run : Runs (some 1) no_jobs one_running
unfolding acquire reached_max_runs
first_run = next {t = record { loops = new_loop once ∷ []; held = 0 }} (schedules once refl) (
    next {t = record { loops = at_top ∷ []; held = 0 }}
      (moves [] [] (new_loop once) at_top refl (starts refl refl refl) refl)
      (next {t = record { loops = at_send ∷ []; held = 0 }}
        (moves [] [] at_top at_send refl (proceeds refl refl refl refl) refl)
        (next {t = one_running} (moves [] [] at_send at_select refl (enqueues refl refl refl) refl)
          here)))

-- Remove does not wait for the execution, which records its result later.
abbrev removed_early : System
removed_early = record {
  loops = record at_select { listed = false; written = removed ∷ [] } ∷ [];
  held = 1;
}

remove_while_running : SystemStep (some 1) one_running removed_early
remove_while_running =
    marks [] [] at_select (record at_select { listed = false; written = removed ∷ [] }) refl
      (is_removed refl refl) refl refl

Runs-IsBounded_example : Within (some 1) (total one_running.loops) × All IsBounded one_running.loops
Runs-IsBounded_example = Runs-IsBounded (some 1) one_running first_run
