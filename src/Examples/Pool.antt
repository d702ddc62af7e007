-- ===== src/Examples/Pool.antt =====
-- The timer pool at concrete sizes.
use go_again.Prelude.{
  ℕ, ◌+◌, ◌≡◌, refl, pos, negsuc, [], ◌∷◌, none, some, false, done, panicked, arith, ◌>>=◌, ◌⊎◌,
}
use go_again.TimerPool.{Timer, TimerPool, new_timer_pool, get, put, reset}
use go_again.TimerPool.Invariant.{Holds, new_timer_pool_lem, get-put}
use go_again.TimerPool.Sharing.{Shared, Step, Reach, here, start}
use go_again.TimerPool.Sharing.Deadlock.{Deadlocked, sharing_deadlock}
use go_again.TimerPool.Sharing.Progress.{IsFinished, sharing_progress}

abbrev pub idle_timer : ℕ → Timer
idle_timer id = record { id = id; armed = none; fired = false }

-- The pool of a Retrier with MaxRetries 1.
abbrev pub two_timers : TimerPool
two_timers = record {
  capacity = 2;
  items = idle_timer 0 ∷ idle_timer 1 ∷ [];
  closed = false;
  duration = pos 20;
}

pub two_timers-Holds : Holds 2 2 two_timers
two_timers-Holds = record {
  valid = record { idle = ((refl, refl), ((refl, refl), tt)); fits = omega arith };
  opened = refl;
  full = refl;
  room = omega arith;
}

new_pool_test : new_timer_pool (pos 2) (pos 20) ≡ done two_timers
unfolding new_timer_pool
new_pool_test = refl

lend_and_return_test :
    (do (t, p) ← get two_timers; put p (idle_timer 7))
    ≡ done (record two_timers { items = idle_timer 1 ∷ idle_timer 7 ∷ [] })
unfolding get put
lend_and_return_test = refl

new_timer_pool_lem_example : new_timer_pool (negsuc 3) (pos 20) ≡ panicked
new_timer_pool_lem_example = (new_timer_pool_lem 3 (pos 20)).1

get-put_example :
    (t : Timer) × (q r : TimerPool) × (get two_timers ≡ done (some t, q))
    × Holds 2 1 q
    × (put q (reset t (pos 5)) ≡ done r)
    × Holds 2 2 r
    × (t.armed ≡ some (pos 20))
    × (q.capacity ≡ 2)
get-put_example = get-put 2 1 two_timers (λ t. reset t (pos 5)) two_timers-Holds

sharing_deadlock_example : (u : Shared) × Reach (start (2 + 1) two_timers) u × Deadlocked 2 u
sharing_deadlock_example = sharing_deadlock 2 1 two_timers (omega arith) two_timers-Holds

abbrev one_call : Shared
one_call = start 1 two_timers

sharing_progress_example : IsFinished one_call ⊎ ((u : Shared) × Step one_call u)
sharing_progress_example =
    sharing_progress 1 2 two_timers one_call two_timers-Holds (omega arith) here
