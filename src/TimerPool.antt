-- ===== src/TimerPool.antt =====
-- timer.go. A channel is its capacity, the items in it and whether it is closed; a receive or a send
-- that would wait is `blocked`. A `*time.Timer` is its identity, the duration it was last armed with
-- if it is running, and whether an unread value is in its channel.
pub mod Invariant
pub mod Sharing
use go_again.Prelude.{
  ℕ, zero, suc, ◌<◌, ℤ, pos, negsuc, List, [], ◌∷◌, ◌++◌, Bool, true, false, Option, none, some,
  length, ltb, if◌then◌else◌, Outcome, done, blocked, panicked, ◌>>=◌,
}

pub record Timer : Type 0 where
  pub id : ℕ
  pub armed : Option ℤ
  pub fired : Bool

-- time.NewTimer(d) and timer.Reset(d); Reset of a timer clears what it left in its channel (Go 1.23).
abbrev pub new_timer : ℕ → ℤ → Timer
new_timer id d = record { id = id; armed = some d; fired = false }

abbrev pub reset : Timer → ℤ → Timer
reset t d = record t { armed = some d; fired = false }

-- timer.Stop(), and `select { case <-timer.C: default: }`
abbrev pub stop : Timer → Timer
stop t = record t { armed = none }

abbrev pub drain_channel : Timer → Timer
drain_channel t = record t { fired = false }

pub record TimerPool : Type 0 where
  pub capacity : ℕ
  pub items : List Timer
  pub closed : Bool
  pub duration : ℤ

-- `p.ch <- timer`
unfoldable pub send : TimerPool → Timer → Outcome TimerPool
send p t =
    if p.closed
    then panicked
    else if ltb (length p.items) p.capacity
    then done (record p { items = p.items ++ t ∷ [] })
    else blocked

-- The loop of NewTimerPool, with the rounds that are left and the number of timers made.
fill : ℕ → ℕ → TimerPool → Outcome TimerPool
unfolding send
fill zero id p = done p
fill (suc n) id p = do
  q ← send p (drain_channel (stop (new_timer id p.duration)))
  fill n (suc id) q

-- NewTimerPool; `make` of a channel panics on a negative size.
unfoldable pub new_timer_pool : ℤ → ℤ → Outcome TimerPool
unfolding fill
new_timer_pool (pos size) timeout =
    fill size 0 (record { capacity = size; items = []; closed = false; duration = timeout })
new_timer_pool (negsuc n) timeout = panicked

-- What a receive finds: a timer, nothing on a closed channel, or nothing for now.
receive : List Timer → TimerPool → Outcome (Option Timer × TimerPool)
receive (t ∷ ts) p = done (some (reset t p.duration), record p { items = ts })
receive [] p = if p.closed then done (none, p) else blocked

-- Get; `none` is a nil timer.
unfoldable pub get : TimerPool → Outcome (Option Timer × TimerPool)
unfolding receive
get p = receive p.items p

-- Put: the second select sends if there is room and discards the timer otherwise.
unfoldable pub put : TimerPool → Timer → Outcome TimerPool
put p t =
    if p.closed
    then panicked
    else if ltb (length p.items) p.capacity
    then done (record p { items = p.items ++ drain_channel (stop t) ∷ [] })
    else done p

-- Close; closing a closed channel panics.
unfoldable pub close : TimerPool → Outcome TimerPool
close p = if p.closed then panicked else done (record p { closed = true })

-- Drain: the range over the channel ends only when it is closed and empty.
unfoldable pub drain : TimerPool → Outcome TimerPool
drain p = if p.closed then done (record p { items = [] }) else blocked

unfoldable pub len : TimerPool → ℕ
len p = length p.items
