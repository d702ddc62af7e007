-- ===== src/TimerPool/Sharing/Progress.antt =====
-- Fewer calls than the pool has timers never wait for each other.
use go_again.Prelude.{
  ℕ, zero, suc, ◌+◌, ◌*◌, ◌≤◌, ◌<◌, ◌≡◌, refl, ap, ◌⊎◌, inl, inr, List, [], ◌∷◌, ◌++◌, false, some,
  length, length-append, arith, All, min, done,
}
use mathlib.Core.Path.{subst}
use go_again.TimerPool.{Timer, TimerPool, get, put, receive}
use go_again.TimerPool.Invariant.{Holds, IsValid, IsIdle, get_one, put_lem}
use go_again.TimerPool.Sharing.{
  Shared, Step, begin, finish, fail, pause, retry, abort, Reach, here, next, start,
}

-- `c` calls, and `n` timers that are in the pool or held by a call.
pub record Inv (c n : ℕ) (s : Shared) : Type 0 where
  pub valid : IsValid s.pool
  pub opened : s.pool.closed ≡ false
  pub room : n ≤ s.pool.capacity
  pub calls : s.ready + length s.attempting + length s.wanting + length s.sleeping ≤ c
  pub timers :
      length s.pool.items + length s.attempting + length s.wanting + 2 * length s.sleeping ≡ n

-- What a successful Get and Put leave of a pool.
record Change (p q : TimerPool) : Type 0 where
  valid : IsValid q
  opened : q.closed ≡ false
  same : q.capacity ≡ p.capacity

get_inv :
    (p q : TimerPool) (t : Timer)
    → IsValid p
    → p.closed ≡ false
    → get p ≡ done (some t, q)
    → Change p q × (length p.items ≡ suc (length q.items))
unfolding get
get_inv p q t v o e = go p.items refl
  where
    go : (xs : List Timer) → p.items ≡ xs → Change p q × (length p.items ≡ suc (length q.items))
    go [] i = absurd (cc (rw (i, receive, o) at e))
    go (x ∷ xs) i =
        let h : q ≡ record p { items = xs } = ground (arith, get_one p x xs i) in
        let idle : All IsIdle (x ∷ xs) = subst (All IsIdle) i v.idle in
        let size = ap length i in
        let w : IsValid (record p { items = xs }) = record {
          idle = idle.1;
          fits = omega (arith, v.fits);
        } in
        (rw h (record { valid = w; opened = o; same = refl }), rw h (omega arith))

put_inv :
    (p q : TimerPool) (t : Timer)
    → IsValid p
    → p.closed ≡ false
    → put p t ≡ done q
    → Change p q × (length q.items ≡ min (length p.items + 1) p.capacity)
put_inv p q t v o e =
    let (r, er, w, c, l, _, cap) = put_lem p t v o in
    let same : q ≡ r = cc in rw same (record { valid = w; opened = c; same = cap }, l)

middle {ℓ} :
    {A : Type ℓ} (l xs ys : List A) (x : A) → l ≡ xs ++ x ∷ ys → length l ≡ suc (length (xs ++ ys))
middle l xs ys x e = omega (arith, ap length e, length-append xs (x ∷ ys), length-append xs ys)

module _ {c n : ℕ} {s : Shared} (i : Inv c n s) where
  get-Inv :
      (p : TimerPool) (t : Timer)
      → get s.pool ≡ done (some t, p)
      → Change s.pool p × (length s.pool.items ≡ suc (length p.items))
  get-Inv p t e = get_inv s.pool p t i.valid i.opened e

  put-Inv :
      (p : TimerPool) (t : Timer)
      → put s.pool t ≡ done p
      → Change s.pool p × (length p.items ≡ min (length s.pool.items + 1) s.pool.capacity)
  put-Inv p t e = put_inv s.pool p t i.valid i.opened e

  Step-Inv : (u : Shared) → Step s u → Inv c n u
  Step-Inv u (begin k t p r e h) =
      let (ch, l) = get-Inv p t e in
      rw h (record {
        valid = ch.valid;
        opened = ch.opened;
        room = omega (arith, ch.same, i.room);
        calls = omega (arith, i.calls);
        timers = omega (arith, i.timers);
      })
  Step-Inv u (finish xs ys t p m e h) =
      let (ch, l) = put-Inv p t e in
      let m' = middle s.attempting xs ys t m in
      rw h (record {
        valid = ch.valid;
        opened = ch.opened;
        room = omega (arith, ch.same, i.room);
        calls = omega (arith, i.calls);
        timers = omega (arith, i.timers, i.room);
      })
  Step-Inv u (fail xs ys t m _ h) =
      let m' = middle s.attempting xs ys t m in
      rw h (record {
        valid = i.valid;
        opened = i.opened;
        room = i.room;
        calls = omega (arith, i.calls);
        timers = omega (arith, i.timers);
      })
  Step-Inv u (pause xs ys t v p m e h) =
      let (ch, l) = get-Inv p v e in
      let m' = middle s.wanting xs ys t m in
      rw h (record {
        valid = ch.valid;
        opened = ch.opened;
        room = omega (arith, ch.same, i.room);
        calls = omega (arith, i.calls);
        timers = omega (arith, i.timers);
      })
  Step-Inv u (retry xs ys t v p m e h) =
      let (ch, l) = put-Inv p v e in
      let m' = middle s.sleeping xs ys (t, v) m in
      rw h (record {
        valid = ch.valid;
        opened = ch.opened;
        room = omega (arith, ch.same, i.room);
        calls = omega (arith, i.calls);
        timers = omega (arith, i.timers, i.room);
      })
  Step-Inv u (abort xs ys t v p q m e f h) =
      let (ch, l) = put-Inv p v e in
      let (dh, k) = put_inv p q t ch.valid ch.opened f in
      let m' = middle s.sleeping xs ys (t, v) m in
      rw h (record {
        valid = dh.valid;
        opened = dh.opened;
        room = omega (arith, dh.same, ch.same, i.room);
        calls = omega (arith, i.calls);
        timers = omega (arith, i.timers, i.room, ch.same);
      })

Reach-Inv : {c n : ℕ} {s u : Shared} → Inv c n s → Reach s u → Inv c n u
Reach-Inv i here = i
Reach-Inv i (next {t = t} st r) = Reach-Inv (Step-Inv i t st) r

-- All calls have returned.
abbrev pub IsFinished : Shared → Type 0
IsFinished s = (s.ready ≡ 0) × (s.attempting ≡ []) × (s.wanting ≡ []) × (s.sleeping ≡ [])

get_ready :
    (p : TimerPool)
    → 0 < length p.items
    → (t : Timer) × (q : TimerPool) × (get p ≡ done (some t, q))
get_ready p h = go p.items refl
  where
    go :
        (xs : List Timer)
        → p.items ≡ xs
        → (t : Timer) × (q : TimerPool) × (get p ≡ done (some t, q))
    go [] e = absurd (omega (arith, ap length e))
    go (t ∷ ts) e = (_, _, get_one p t ts e)

progress :
    {c n : ℕ} {s : Shared}
    → Inv c n s
    → c < n
    → (r : ℕ) (bs ws : List Timer) (zs : List (Timer × Timer)) → s.ready ≡ r
    → s.attempting ≡ bs
    → s.wanting ≡ ws
    → s.sleeping ≡ zs
    → IsFinished s ⊎ ((u : Shared) × Step s u)
progress i lt r (a ∷ bs) ws zs er ea ew ez =
    let (q, e, _, _, _, _, _) = put_lem _ a i.valid i.opened in inr (_, finish [] bs a q ea e refl)
progress i lt r [] ws ((z, v) ∷ zs) er ea ew ez =
    let (q, e, _, _, _, _, _) = put_lem _ v i.valid i.opened in inr (_, retry [] zs z v q ez e refl)
progress i lt r [] (w ∷ ws) [] er ea ew ez =
    let (t, q, e) =
      get_ready _ (omega (arith, i.calls, i.timers, ap length ea, ap length ew, ap length ez)) in
    inr (_, pause [] ws w t q ew e refl)
progress i lt (suc r) [] [] [] er ea ew ez =
    let (t, q, e) =
      get_ready _ (omega (arith, i.calls, i.timers, ap length ea, ap length ew, ap length ez)) in
    inr (_, begin r t q er e refl)
progress i lt zero [] [] [] er ea ew ez = inl (er, ea, ew, ez)

-- If fewer calls than the `n` timers that the open pool holds share it, then in every state that
-- they can reach either all have returned or some call can take a step.
pub sharing_progress :
    (c n : ℕ) (p : TimerPool) (s : Shared)
    → Holds n n p
    → c < n
    → Reach (start c p) s
    → IsFinished s ⊎ ((u : Shared) × Step s u)
sharing_progress c n p s h lt reach =
    progress (Reach-Inv begun reach) lt s.ready s.attempting s.wanting s.sleeping refl refl refl
      refl
  where
    begun : Inv c n (start c p)
    begun = record {
      valid = h.valid;
      opened = h.opened;
      room = omega (arith, h.full, h.valid.fits);
      calls = omega arith;
      timers = omega (arith, h.full);
    }
