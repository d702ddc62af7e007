-- ===== src/Examples/Calls.antt =====
-- Calls of Do and DoWithContext on a retrier with one retry.
use go_again.Retrier.Loop.{registry_decides}
use go_again.Prelude.{wrap64, ℕ, zero, suc, ◌≡◌, refl, pos, [], ◌∷◌, none, some, arith, Option}
use go_again.Registry.{len, is_temporary_error}
use go_again.Retrier.{Retrier, default_retrier}
use go_again.Retrier.Attempt.{Prepared}
use go_again.Retrier.Termination.{Returns, retry-Returns}
use go_again.Retrier.Mirror.{do_mirror}
use go_again.Retrier.Outcomes.{
  Reports, BothReport, success-Reports, final-Reports, interrupted-Reports, exhausted-Reports,
}
use go_again.Retrier.Cancellation.{ended-Reports, terminal_error}
use go_again.Retrier.Backoff.{elapsed, timed_out}
use go_again.TimerPool.{TimerPool}
use go_again.Retrier.Loop.{Env, Finish, result, retrier_done, retry_do, retry_do_with_context}
use go_again.Examples.Errors.{numbers, one_error}
use go_again.Examples.Pool.{two_timers, two_timers-Holds}

-- Only error 40 is temporary.
abbrev one_retry : Retrier ℕ ℕ
unfolding default_retrier
one_retry = record (default_retrier numbers) {
  max_retries = pos 1;
  registry = some one_error;
  timer = some two_timers;
}

one_retry-Prepared : Prepared numbers 1 one_error one_retry
unfolding default_retrier wrap64
one_retry-Prepared = record {
  accepts = record {
    max_retries = omega arith;
    interval = omega arith;
    jitter = omega arith;
    timeout = omega arith;
    interval_timeout = omega arith;
    product = omega arith;
    factor = refl;
  };
  retries = refl;
  has_registry = refl;
  pool = two_timers;
  has_pool = refl;
  holds = two_timers-Holds;
}

abbrev quiet : Env ℕ
quiet = record { wake = λ k. elapsed; drawn = λ k. 7 }

abbrev late : Env ℕ
late = record { wake = λ k. timed_out; drawn = λ k. 7 }

-- Fails with the temporary error at first, and succeeds then; always fails; fails with another error.
abbrev second_succeeds : ℕ → Option ℕ
second_succeeds zero = some 40
second_succeeds (suc k) = none

abbrev always_fails : ℕ → Option ℕ
always_fails k = some 40

abbrev refuses : ℕ → Option ℕ
refuses k = some 41

abbrev stopped_at_once : ℕ → Finish ℕ
stopped_at_once k = retrier_done 4

abbrev same_error : ℕ → ℕ
same_error k = 40

retry-Returns_example :
    Returns numbers 1 one_error (retry_do numbers one_retry quiet (some always_fails) [])
retry-Returns_example =
    (retry-Returns numbers 1 one_error one_retry quiet [] one_retry-Prepared).0 always_fails

do_mirror_example :
    retry_do numbers one_retry late (some always_fails) []
    ≡ retry_do_with_context numbers one_retry late (some (λ k. result (always_fails k))) []
do_mirror_example = do_mirror numbers one_retry late (some always_fails) []

success-Reports_example : BothReport numbers one_retry quiet second_succeeds [] (40 ∷ []) none 2 1
unfolding registry_decides len is_temporary_error
success-Reports_example =
    success-Reports numbers one_retry-Prepared quiet [] second_succeeds same_error 1
      (refl, refl, refl, tt) (omega arith) refl

final-Reports_example : BothReport numbers one_retry quiet refuses [] (41 ∷ []) (some 41) 1 0
unfolding registry_decides len is_temporary_error
final-Reports_example =
    final-Reports numbers one_retry-Prepared quiet [] refuses same_error 0 tt 41 (omega arith) refl
      refl

interrupted-Reports_example :
    BothReport numbers one_retry late always_fails [] (40 ∷ []) (some 3) 1 1
unfolding registry_decides len is_temporary_error
interrupted-Reports_example =
    interrupted-Reports numbers one_retry-Prepared late [] always_fails same_error 0 tt 40 3
      (omega arith) refl refl refl

exhausted-Reports_example :
    BothReport numbers one_retry quiet always_fails [] (40 ∷ 40 ∷ 40 ∷ []) (some 40) 2 1
unfolding registry_decides len is_temporary_error
exhausted-Reports_example =
    exhausted-Reports numbers one_retry-Prepared quiet [] always_fails same_error
      (refl, refl, refl, tt) refl refl

ended-Reports_example :
    Reports numbers
      (retry_do_with_context numbers one_retry quiet (some stopped_at_once) [])
      []
      (some (terminal_error numbers 0 4))
      1
      0
ended-Reports_example =
    ended-Reports numbers one_retry-Prepared quiet [] stopped_at_once same_error 0 4 tt
      (omega arith) refl
