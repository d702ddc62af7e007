-- ===== src/Retrier.antt =====
-- retrier.go and options.go: the configuration, its validation and its initialisation. The loops of
-- Do and DoWithContext are in Retrier/Loop, Cancel and Stop in Retrier/Lifecycle.
pub mod Validation
pub mod Lifecycle
pub mod Loop
pub mod Backoff
pub mod Prefix
pub mod Outcomes
pub mod Cancellation
pub mod Attempt
pub mod Pause
pub mod Preparation
pub mod Termination
pub mod Mirror
use go_again.Prelude.{
  ℕ, ◌+◌, ◌*◌, ◌^◌, ℤ, pos, negsuc, ◌+ℤ◌, ◌*ℤ◌, ltb_ℤ, leb_ℤ, wrap64, List, [], ◌∷◌, Bool, true,
  false, Option, none, some, if◌then◌else◌, Outcome, done, panicked, ◌>>=◌, String,
}
use go_again.Runtime.{Runtime, Arg}
use go_again.Registry.{Registry, new_registry}
use go_again.TimerPool.{TimerPool, new_timer_pool}

-- The `Errors` of a call; `none` is nil.
pub record Errors (E : Type 0) : Type 0 where
  pub attempts : List E
  pub last : Option E

abbrev pub no_errors : (E : Type 0) → Errors E
no_errors E = record { attempts = []; last = none }

-- Reset
unfoldable pub reset_errors : {E : Type 0} → Errors E → Errors E
reset_errors e = record { attempts = []; last = none }

-- The retrier's own context, from context.WithCancelCause: the cause, once it is done.
pub record Context (E : Type 0) : Type 0 where
  pub cause : Option E

-- The fields named `*_once` say that a sync.Once has run. The logger is there or not; what it
-- writes is not modelled. OnRetry is there or not; its calls are recorded by the loop.
pub record Retrier (E F : Type 0) : Type 0 where
  pub max_retries : ℤ
  pub jitter : ℤ
  pub backoff_factor : F
  pub interval : ℤ
  pub timeout : ℤ
  pub registry : Option (Registry E)
  pub registry_once : Bool
  pub cancel_once : Bool
  pub stop_once : Bool
  pub init_once : Bool
  pub ctx_once : Bool
  pub timer : Option TimerPool
  -- sync.Pool: the free objects, and whether New is set
  pub errors_pool : List (Errors E)
  pub errors_pool_new : Bool
  pub ctx : Option (Context E)
  pub logger : Bool
  pub on_retry : Bool

abbrev pub millisecond : ℕ
millisecond = 1000000

abbrev pub second : ℕ
second = 1000 * millisecond

module _ {E F : Type 0} where
  -- The options of options.go.
  unfoldable pub with_max_retries : ℤ → Retrier E F → Retrier E F
  with_max_retries num r = record r { max_retries = num }

  unfoldable pub with_jitter : ℤ → Retrier E F → Retrier E F
  with_jitter jitter r = record r { jitter = jitter }

  unfoldable pub with_backoff_factor : F → Retrier E F → Retrier E F
  with_backoff_factor factor r = record r { backoff_factor = factor }

  unfoldable pub with_interval : ℤ → Retrier E F → Retrier E F
  with_interval interval r = record r { interval = interval }

  unfoldable pub with_timeout : ℤ → Retrier E F → Retrier E F
  with_timeout timeout r = record r { timeout = timeout }

  unfoldable pub with_logger : Bool → Retrier E F → Retrier E F
  with_logger logger r = record r { logger = logger }

  unfoldable pub with_hooks : Bool → Retrier E F → Retrier E F
  with_hooks on_retry r = record r { on_retry = on_retry }

  unfoldable pub apply_options : Retrier E F → List (Retrier E F → Retrier E F) → Retrier E F
  apply_options r [] = r
  apply_options r (option ∷ options) = apply_options (option r) options

module _ {E F : Type 0} (rt : Runtime E F) where
  -- Validate; `none` is nil.
  unfoldable pub validate : Retrier E F → Option E
  validate r =
      if ltb_ℤ r.max_retries (pos 0)
      then invalid "invalid max retries: %d, the value should be greater than or equal to zero"
          (Arg.int r.max_retries ∷ [])
      else if leb_ℤ r.interval (pos 0)
      then invalid "invalid interval: %s, the value should be greater than zero"
          (Arg.int r.interval ∷ [])
      else if leb_ℤ r.jitter (pos 0)
      then invalid "invalid jitter: %s, the value should be greater than zero"
          (Arg.int r.jitter ∷ [])
      else if leb_ℤ r.timeout (pos 0)
      then invalid "invalid timeout: %s, the value should be greater than zero"
          (Arg.int r.timeout ∷ [])
      else if leb_ℤ r.timeout r.interval
      then invalid "the interval %s should be less than timeout %s"
          (Arg.int r.interval ∷ Arg.int r.timeout ∷ [])
      else if leb_ℤ r.timeout (wrap64 (r.interval *ℤ r.max_retries))
      then invalid "the interval %s multiplied by max retries %d should be less than timeout %s"
          (Arg.int r.interval ∷ Arg.int r.max_retries ∷ Arg.int r.timeout ∷ [])
      else if rt.le_one r.backoff_factor
      then invalid "invalid backoff factor: %f, the value should be greater than 1"
          (Arg.float r.backoff_factor ∷ [])
      else none
    where
      invalid : String → List (Arg E F) → Option E
      invalid format args = some (rt.wrapf rt.invalid_retrier format args)

  -- The defaults that NewRetrier starts from.
  unfoldable pub default_retrier : Retrier E F
  default_retrier = record {
    max_retries = pos 5;
    jitter = pos (1 * second);
    backoff_factor = rt.of_int (pos 2);
    interval = pos (500 * millisecond);
    timeout = pos (20 * second);
    registry = some (new_registry E);
    registry_once = false;
    cancel_once = false;
    stop_once = false;
    init_once = false;
    ctx_once = false;
    timer = none;
    errors_pool = [];
    errors_pool_new = false;
    ctx = none;
    logger = true;
    on_retry = false;
  }

  -- The first half of NewRetrier: the defaults, the options and the pool of Errors.
  abbrev pub configured : List (Retrier E F → Retrier E F) → Retrier E F
  configured options = record (apply_options default_retrier options) {
    errors_pool = [];
    errors_pool_new = true;
  }

  -- The second half, with what Validate returned.
  finish_retrier : Option E → Retrier E F → Option E → Outcome (Retrier E F × Option E)
  finish_retrier parent r (some err) = done (r, some err)
  finish_retrier parent r none = do
    pool ← new_timer_pool (wrap64 (r.max_retries +ℤ pos 1)) r.timeout
    done (record r { timer = some pool; ctx = some (record { cause = parent }) }, none)

  -- NewRetrier; `parent` is the cause of the context that is passed in, if that is done.
  unfoldable pub new_retrier :
      Option E → List (Retrier E F → Retrier E F) → Outcome (Retrier E F × Option E)
  unfolding apply_options finish_retrier
  new_retrier parent options = let r = configured options in finish_retrier parent r (validate r)

  or_background : Option (Context E) → Context E
  or_background none = record { cause = none }
  or_background (some ctx) = ctx

  -- ensureContext; context.WithCancelCause(context.Background()) is never done by its parent.
  unfoldable pub ensure_context : Retrier E F → Retrier E F
  unfolding or_background
  ensure_context r =
      if r.ctx_once then r else record r { ctx_once = true; ctx = some (or_background r.ctx) }

  unfoldable pub make_timer_pool : Retrier E F → Option TimerPool → Outcome TimerPool
  make_timer_pool r none = new_timer_pool (wrap64 (r.max_retries +ℤ pos 1)) r.timeout
  make_timer_pool r (some pool) = done pool

  unfoldable pub make_registry : Option (Registry E) → Registry E
  make_registry none = new_registry E
  make_registry (some reg) = reg

  -- ensureInitialized
  unfoldable pub ensure_initialized : Retrier E F → Outcome (Retrier E F)
  unfolding make_timer_pool make_registry ensure_context
  ensure_initialized r = if r.init_once then done r else do
    pool ← make_timer_pool r r.timer
    done (
        ensure_context (record r {
          init_once = true;
          registry = some (make_registry r.registry);
          logger = true;
          errors_pool_new = true;
          timer = some pool;
        }))

  -- SetRegistry; a nil registry is refused, and only the first call sets it.
  unfoldable pub set_registry : Retrier E F → Option (Registry E) → Retrier E F × Option E
  set_registry r none = (r, some (rt.new "registry cannot be nil"))
  set_registry r (some reg) =
      (if r.registry_once then r else record r { registry_once = true; registry = some reg }, none)
