-- ===== src/Retrier/Validation.antt =====
-- What Validate accepts.
use go_again.Prelude.{
  ℕ, ◌+◌, ◌-◌, ◌*◌, ◌≤◌, ◌<◌, ℤ, pos, negsuc, pos_part, ◌*ℤ◌, ◌+ℤ◌, ◌≤ℤ◌, ◌<ℤ◌, wrap64, wrap64_fits,
  wrap64_over, mul_pos, add_pos, half_word, word, List, true, false, Option, none, some, ◌≡◌, refl,
  ◌↔◌, arith, ap, ◌∙◌, done,
}
use go_again.Runtime.{Runtime, Unwraps}
use go_again.TimerPool.{TimerPool}
use go_again.TimerPool.Invariant.{Holds, new_timer_pool_lem}
use go_again.Retrier.{Retrier, validate, new_retrier, configured, finish_retrier}

module _ {E F : Type 0} (rt : Runtime E F) where
  pub record Accepts (r : Retrier E F) : Type 0 where
    pub max_retries : pos 0 ≤ℤ r.max_retries
    pub interval : pos 0 <ℤ r.interval
    pub jitter : pos 0 <ℤ r.jitter
    pub timeout : pos 0 <ℤ r.timeout
    pub interval_timeout : r.interval <ℤ r.timeout
    pub product : wrap64 (r.interval *ℤ r.max_retries) <ℤ r.timeout
    pub factor : rt.le_one r.backoff_factor ≡ false

  pub validate-Accepts : (r : Retrier E F) → (validate rt r ≡ none) ↔ Accepts r
  unfolding validate
  validate-Accepts r = (λ h. ground arith, λ a. ground arith)

  -- Validate returns nil exactly when MaxRetries is not negative, Interval, Jitter and Timeout are
  -- positive, Interval and the 64-bit product of Interval and MaxRetries are below Timeout, and
  -- BackoffFactor is not at most 1, which a NaN also is not; if errors.Is sees through ewrap's
  -- wrappers, any error that it returns is an ErrInvalidRetrier.
  pub validate_iff :
      (r : Retrier E F)
      → Unwraps rt
      → ((validate rt r ≡ none) ↔ Accepts r)
        × ((e : E) → validate rt r ≡ some e → rt.is e rt.invalid_retrier ≡ true)
  unfolding validate
  validate_iff r u = (validate-Accepts r, λ e h. grind (arith, u.is-wrapf, u.is_refl))

  -- If Validate returns nil and the product of Interval and MaxRetries fits in an int64, that
  -- product is below Timeout, as the doc comment of Validate promises.
  pub validate_product :
      (r : Retrier E F) (i n : ℕ)
      → r.interval ≡ pos i
      → r.max_retries ≡ pos n
      → i * n < half_word
      → validate rt r ≡ none
      → pos (i * n) <ℤ r.timeout
  validate_product r i n ei en fits h =
      let a = (validate-Accepts r).0 h in
      let product : wrap64 (r.interval *ℤ r.max_retries) ≡ pos (i * n) =
        rw (ei, en, mul_pos) (wrap64_fits (i * n) fits) in
      rw product at a.product

  -- The product overflows: with a positive Jitter and a BackoffFactor that is not at most 1, every positive Interval
  -- below Timeout and every MaxRetries whose product lies between 2^63 and 2^64 is accepted, although
  -- the product is larger than any Timeout in an int64.
  pub validate_overflow :
      (r : Retrier E F) (i n t : ℕ)
      → r.interval ≡ pos i
      → r.max_retries ≡ pos n
      → r.timeout ≡ pos t
      → 0 < i
      → i < t
      → t < half_word
      → pos 0 <ℤ r.jitter
      → rt.le_one r.backoff_factor ≡ false
      → half_word ≤ i * n
      → i * n < word
      → (validate rt r ≡ none) × (t < i * n)
  validate_overflow r i n t ei en et lo lt small j f over under =
      let product : wrap64 (r.interval *ℤ r.max_retries) ≡ negsuc (word - 1 - i * n) =
        rw (ei, en, mul_pos) (wrap64_over (i * n) over under) in
      let accepts : Accepts r = record {
        max_retries = rw en (omega arith);
        interval = rw ei (omega arith);
        jitter = j;
        timeout = rw et (omega arith);
        interval_timeout = rw (ei, et) (omega arith);
        product = rw (product, et) (omega arith);
        factor = f;
      } in
      ((validate-Accepts r).1 accepts, omega arith)

  from_zero : (z : ℤ) → pos 0 ≤ℤ z → z ≡ pos (pos_part z)
  from_zero (pos n) h = refl
  from_zero (negsuc n) h = absurd (omega arith)

  -- If Validate refuses the retrier as configured, also for a negative MaxRetries, NewRetrier returns
  -- that error with the retrier as it is, and does not panic. If Validate returns nil and MaxRetries+1
  -- fits in an int64, it returns no error and a retrier of that configuration whose open pool holds
  -- MaxRetries+1 timers of the timeout and whose context is done only if the context that was passed
  -- in is.
  pub new_retrier_lem :
      (parent : Option E) (options : List (Retrier E F → Retrier E F))
      → ((e : E)
          → validate rt (configured rt options) ≡ some e
          → new_retrier rt parent options ≡ done (configured rt options, some e))
        × (validate rt (configured rt options) ≡ none
            → pos_part (configured rt options).max_retries + 1 < half_word
            → (pool : TimerPool) × (new_retrier rt parent options
                ≡ done (
                  record (configured rt options) {
                    timer = some pool;
                    ctx = some (record { cause = parent });
                  },
                  none,
                ))
              × (let size = pos_part (configured rt options).max_retries + 1 in
                  Holds size size pool)
              × (pool.duration ≡ (configured rt options).timeout))
  unfolding new_retrier finish_retrier
  new_retrier_lem parent options =
      let r = configured rt options in
      (
        λ e h. ap (finish_retrier rt parent r) h,
        λ h fits.
            let n = pos_part r.max_retries in
            let en = from_zero r.max_retries ((validate-Accepts r).0 h).max_retries in
            let (pool, made, holds, _, dur) = (new_timer_pool_lem (n + 1) r.timeout).0 in
            let size : wrap64 (r.max_retries +ℤ pos 1) ≡ pos (n + 1) =
              rw (en, add_pos) (wrap64_fits (n + 1) fits) in
            (pool, ap (finish_retrier rt parent r) h ∙ rw (size, made) refl, holds, dur),
      )
