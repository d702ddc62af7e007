-- ===== src/TimerPool/Invariant.antt =====
-- The timers of a pool rest stopped and drained, and no operation makes or loses one unawares.
use mathlib.Core.Path.{subst}
use go_again.Prelude.{
  ltb, ltb→lt, Bool-cases, inl, inr, min, ◌<◌, sym, ◌∙◌, ap, negsuc, ℕ, zero, suc, ◌+◌, ◌≤◌, ℤ, pos,
  ◌≡◌, refl, List, [], ◌∷◌, ◌++◌, true, false, none, some, length, length-append, All, All-append,
  arith, done, blocked, panicked,
}
use go_again.TimerPool.{
  Timer, TimerPool, receive, send, fill, new_timer_pool, get, put, close, drain, reset, stop,
  drain_channel, new_timer,
}

-- A timer that cannot wake anybody.
abbrev pub IsIdle : Timer → Type 0
IsIdle t = (t.armed ≡ none) × (t.fired ≡ false)

pub record IsValid (p : TimerPool) : Type 0 where
  pub idle : All IsIdle p.items
  pub fits : length p.items ≤ p.capacity

-- The pool is open, holds `n` timers, and has room for `c`.
pub record Holds (c n : ℕ) (p : TimerPool) : Type 0 where
  pub valid : IsValid p
  pub opened : p.closed ≡ false
  pub full : length p.items ≡ n
  pub room : c ≤ p.capacity

fill_lem :
    (n id : ℕ) (p : TimerPool)
    → p.closed ≡ false
    → IsValid p
    → length p.items + n ≤ p.capacity
    → (q : TimerPool) × (fill n id p ≡ done q)
      × IsValid q
      × (q.closed ≡ false)
      × (length q.items ≡ length p.items + n)
      × (q.capacity ≡ p.capacity)
      × (q.duration ≡ p.duration)
unfolding fill send
fill_lem zero id p o v h = (p, refl, v, o, omega arith, refl, refl)
fill_lem (suc n) id p o v h =
    let t = drain_channel (stop (new_timer id p.duration)) in
    let q = record p { items = p.items ++ t ∷ [] } in
    let grown : length q.items ≡ length p.items + 1 = length-append p.items (t ∷ []) in
    let idle : All IsIdle q.items = All-append IsIdle p.items (t ∷ []) v.idle ((refl, refl), tt) in
    let (r, e, w, c, l, cap, dur) =
      fill_lem n (suc id) q o (record { idle = idle; fits = omega arith }) (omega arith) in
    (r, ground arith, w, c, omega arith, cap, dur)

-- NewTimerPool of a size that is not negative returns an open pool, which holds that many stopped
-- and drained timers, and has no room for more; a negative size panics.
pub new_timer_pool_lem :
    (size : ℕ) (timeout : ℤ)
    → ((p : TimerPool) × (new_timer_pool (pos size) timeout ≡ done p)
        × Holds size size p
        × (p.capacity ≡ size)
        × (p.duration ≡ timeout))
      × (new_timer_pool (negsuc size) timeout ≡ panicked)
unfolding new_timer_pool
new_timer_pool_lem size timeout =
    let empty : TimerPool = record {
      capacity = size;
      items = [];
      closed = false;
      duration = timeout;
    } in
    let (q, e, v, c, l, cap, dur) =
      fill_lem size 0 empty refl (record { idle = tt; fits = omega arith }) (omega arith) in
    (
      (q, e, record { valid = v; opened = c; full = omega arith; room = omega arith }, cap, dur),
      refl,
    )

-- A pool that holds a timer hands out its first one, armed with the pool's duration.
pub get_one :
    (p : TimerPool) (t : Timer) (ts : List Timer)
    → p.items ≡ t ∷ ts
    → get p ≡ done (some (reset t p.duration), record p { items = ts })
unfolding get receive
get_one p t ts e = rw (e, receive)

pub put_one :
    (p : TimerPool) (t : Timer)
    → p.closed ≡ false
    → length p.items < p.capacity
    → put p t ≡ done (record p { items = p.items ++ drain_channel (stop t) ∷ [] })
unfolding put
put_one p t o h = ground arith

-- Put of any timer, running or fired, into an open pool returns at once, keeps the pool valid, and
-- adds one timer exactly when there is room.
pub put_lem :
    (p : TimerPool) (t : Timer)
    → IsValid p
    → p.closed ≡ false
    → (q : TimerPool) × (put p t ≡ done q)
      × IsValid q
      × (q.closed ≡ false)
      × (length q.items ≡ min (length p.items + 1) p.capacity)
      × (q.duration ≡ p.duration)
      × (q.capacity ≡ p.capacity)
unfolding put
put_lem p t v o = elim (Bool-cases (ltb (length p.items) p.capacity)) [
  | inl room ↦
      let q = record p { items = p.items ++ drain_channel (stop t) ∷ [] } in
      let grown : length q.items ≡ length p.items + 1 = length-append p.items _ in
      let below : length p.items < p.capacity = ltb→lt _ _ room in
      let idle : All IsIdle q.items = All-append IsIdle p.items _ v.idle ((refl, refl), tt) in
      (q, ground arith, record { idle = idle; fits = omega arith }, o, omega arith, refl, refl)
  | inr none_left ↦ (p, ground arith, v, o, ground arith, refl, refl)
]

-- A pool that holds timers lends one without waiting, and Put then returns at once and leaves the
-- pool with as many timers as before, whatever became of the timer that was lent.
pub get-put :
    (c n : ℕ) (p : TimerPool) (used : Timer → Timer)
    → Holds c (suc n) p
    → (t : Timer) × (q r : TimerPool) × (get p ≡ done (some t, q))
      × Holds c n q
      × (put q (used t) ≡ done r)
      × Holds c (suc n) r
      × (t.armed ≡ some p.duration)
      × (q.capacity ≡ p.capacity)
get-put c n p used h = go p.items refl
  where
    go :
        (xs : List Timer)
        → p.items ≡ xs
        → (t : Timer) × (q r : TimerPool) × (get p ≡ done (some t, q))
          × Holds c n q
          × (put q (used t) ≡ done r)
          × Holds c (suc n) r
          × (t.armed ≡ some p.duration)
          × (q.capacity ≡ p.capacity)
    go [] e = absurd (omega (arith, ap length e, h.full))
    go (t ∷ ts) e =
        let q = record p { items = ts } in
        let idle : All IsIdle (t ∷ ts) = subst (All IsIdle) e h.valid.idle in
        let short : suc (length ts) ≡ suc n = sym (ap length e) ∙ h.full in
        let fits : length ts < p.capacity = omega (arith, ap length e, h.valid.fits) in
        let v : IsValid q = record { idle = idle.1; fits = omega arith } in
        let (r, er, vr, o, l, _, same) = put_lem q (used (reset t p.duration)) v h.opened in
        (
          reset t p.duration,
          q,
          r,
          get_one p t ts e,
          record { valid = v; opened = h.opened; full = omega arith; room = h.room },
          er,
          record { valid = vr; opened = o; full = omega arith; room = omega (arith, same, h.room) },
          refl,
          refl,
        )

-- With nothing in the pool Get waits while the pool is open, and returns nil once it is closed; a
-- second Close and a Put after Close panic; Drain returns on a closed pool only, and leaves it empty.
pub closing :
    (p : TimerPool) (t : Timer)
    → p.items ≡ []
    → (p.closed ≡ false
        → (get p ≡ blocked) × (drain p ≡ blocked) × (close p ≡ done (record p { closed = true })))
      × (p.closed ≡ true
          → (get p ≡ done (none, p))
            × (put p t ≡ panicked)
            × (close p ≡ panicked)
            × (drain p ≡ done p))
unfolding get receive put close drain
closing p t e = (
  λ o. (rw (e, receive) (ground arith), ground arith, ground arith),
  λ c. (rw (e, receive) (ground arith), ground arith, ground arith, ground arith),
)
