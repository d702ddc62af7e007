-- ===== src/TimerPool/Sharing/Deadlock.antt =====
-- As many concurrent calls as the pool has timers can wait for each other for ever.
use go_again.Prelude.{
  ℕ, ◌+◌, ◌<◌, ◌≡◌, refl, sym, ap, ◌∙◌, List, [], ◌∷◌, ◌++◌, false, none, length, arith, blocked,
}
use go_again.TimerPool.{Timer, TimerPool, get, reset}
use go_again.TimerPool.Invariant.{Holds, get_one, closing}
use go_again.TimerPool.Sharing.{
  Shared, Step, begin, finish, fail, pause, retry, abort, Reach, here, next, start,
}

-- No call can move, though `k` of them hold a timer and none has returned.
pub record Deadlocked (k : ℕ) (s : Shared) : Type 0 where
  pub holding : length s.wanting ≡ k
  pub stuck : (u : Shared) → ¬ Step s u

-- Every call takes its timeout timer and fails once.
crowd :
    (m : ℕ) (xs : List Timer) (s : Shared)
    → s.pool.items ≡ xs
    → s.ready ≡ length xs + m
    → s.attempting ≡ []
    → 1 < s.pool.capacity
    → (u : Shared) × Reach s u
      × (u.pool.items ≡ [])
      × (u.pool.closed ≡ s.pool.closed)
      × (u.attempting ≡ [])
      × (u.sleeping ≡ s.sleeping)
      × (u.ready ≡ m)
      × (length u.wanting ≡ length s.wanting + length xs)
crowd m [] s e r a c = (s, here, e, refl, a, refl, omega arith, omega arith)
crowd m (t ∷ ts) s e r a c =
    let v = reset t s.pool.duration in
    let p = record s.pool { items = ts } in
    let s₁ = record s { pool = p; ready = length ts + m; attempting = v ∷ s.attempting } in
    let s₂ = record s {
      pool = p;
      ready = length ts + m;
      wanting = v ∷ s.wanting;
      attempting = [];
    } in
    let (u, reach, empty, same, none_left, asleep, rest, held) = crowd m ts s₂ refl refl refl c in
    (
      u,
      next {t = s₁} (begin (length ts + m) v p (omega arith) (get_one s.pool t ts e) refl)
          (next {t = s₂} (fail [] [] v (ap (◌∷◌ v) a) c refl) reach),
      empty,
      same,
      none_left,
      asleep,
      rest,
      omega arith,
    )

empty_blocks : (p : TimerPool) → p.items ≡ [] → p.closed ≡ false → get p ≡ blocked
empty_blocks p e o = ((closing p (record { id = 0; armed = none; fired = false }) e).0 o).0

nil≢middle {ℓ} : {A : Type ℓ} (xs ys : List A) (x : A) → ¬ (◌≡◌ {A = List A} [] (xs ++ x ∷ ys))
nil≢middle [] ys x e = cc
nil≢middle (y ∷ xs) ys x e = cc

drained_stuck :
    (s u : Shared) → get s.pool ≡ blocked → s.attempting ≡ [] → s.sleeping ≡ [] → ¬ Step s u
drained_stuck s u g a z (begin k t p r e _) = cc
drained_stuck s u g a z (finish xs ys t p e _ _) = nil≢middle xs ys t (sym a ∙ e)
drained_stuck s u g a z (fail xs ys t e _ _) = nil≢middle xs ys t (sym a ∙ e)
drained_stuck s u g a z (pause xs ys t v p e h _) = cc
drained_stuck s u g a z (retry xs ys t v p e _ _) = nil≢middle xs ys (t, v) (sym z ∙ e)
drained_stuck s u g a z (abort xs ys t v p q e _ _ _) = nil≢middle xs ys (t, v) (sym z ∙ e)

-- From any open pool that holds `n` timers, at least two and no more than it has room for, `n` or more
-- calls that share it can reach a state in which no call can take a step: `n` of them hold their
-- timeout timer and wait in waitRetry for a second one. A Retrier's pool holds MaxRetries+1 timers.
pub sharing_deadlock :
    (n m : ℕ) (p : TimerPool)
    → 1 < n
    → Holds n n p
    → (u : Shared) × Reach (start (n + m) p) u × Deadlocked n u
sharing_deadlock n m p two h =
    let (u, reach, empty, same, a, z, _, held) =
      crowd m p.items (start (n + m) p) refl (omega (arith, h.full)) refl (omega (arith, h.room)) in
    (
      u,
      reach,
      record {
        holding = omega (arith, h.full);
        stuck = λ w. drained_stuck u w (empty_blocks u.pool empty (same ∙ h.opened)) a z;
      },
    )
