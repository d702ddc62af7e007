-- ===== src/Scheduler/Loops/Safety.antt =====
-- What holds of the jobs of a scheduler at every moment.
use mathlib.Core.Path.{subst}
use mathlib.Core.Option.{some-injective}
use go_again.Prelude.{
  ℕ, suc, ◌+◌, ◌≤◌, ltb, pos, pos_part, ltb_ℤ, Option, none, some, if◌then◌else◌, List, [], ◌∷◌,
  ◌++◌, ◌≡◌, refl, sym, ap, ◌∙◌, All, arith, Bool-cases, ltb→lt, inl, inr,
}
use go_again.Scheduler.Loops.{
  Loop, System, acquire, release, LoopStep, starts, canceled_before_start, interrupted,
  reaches_max_runs, reaches_end, proceeds, enqueues, ticks, canceled_between_runs, execution_ends,
  execution_is_done, finalizes, cleans_up, MarkStep, is_removed, is_stopped, SystemStep, moves,
  marks, schedules, Runs, here, next, no_jobs,
}
use go_again.Scheduler.Loops.Invariant.{
  Quiet, LoopInv, new_loop-LoopInv, step-LoopInv, mark-LoopInv,
}

-- The executions that run
abbrev pub total : List Loop → ℕ
total [] = 0
total (l ∷ ls) = l.executing + total ls

abbrev pub Within : Option ℕ → ℕ → Type 0
Within none n = Unit
Within (some capacity) n = n ≤ capacity

-- What a token count is for
abbrev pub Counts : Option ℕ → ℕ → ℕ → Type 0
Counts none held n = Unit
Counts (some capacity) held n = (held ≡ n) × (n ≤ capacity)

none_some : {A : Type 0} {a : A} {X : Type 0} → ◌≡◌ {A = Option A} none (some a) → X
none_some h = absurd cc

taken-Counts :
    (capacity : Option ℕ) (held held' n : ℕ)
    → acquire capacity held ≡ some held'
    → Counts capacity held n
    → Counts capacity held' (suc n)
unfolding acquire
taken-Counts none held held' n got c = tt
taken-Counts (some capacity) held held' n got (same, le) = elim (Bool-cases (ltb held capacity)) [
  | inl room ↦
      let value : suc held ≡ held' = some-injective _ _ (rw (room, acquire) at got) in
      (omega (arith, value, same), omega (arith, ltb→lt _ _ room, same))
  | inr full ↦ none_some (rw (full, acquire) at got)
]

given_back-Counts :
    (capacity : Option ℕ) (held n : ℕ)
    → Counts capacity held (suc n)
    → Counts capacity (release capacity held) n
unfolding release
given_back-Counts none held n c = tt
given_back-Counts (some capacity) held n (same, le) = (omega (arith, same), omega (arith, le))

module _ (capacity : Option ℕ) (l l' : Loop) (held held' rest : ℕ) where
  same-Counts :
      held' ≡ held
      → l'.executing ≡ l.executing
      → Counts capacity held (l.executing + rest)
      → Counts capacity held' (l'.executing + rest)
  same-Counts h e c = rw (h, e) c

  pub step-Counts :
      LoopStep capacity l held l' held'
      → Counts capacity held (l.executing + rest)
      → Counts capacity held' (l'.executing + rest)
  step-Counts (starts at_ e h) = same-Counts h (ap (λ (k : Loop). k.executing) e)
  step-Counts (canceled_before_start state at_ set why e h) =
      same-Counts h (ap (λ (k : Loop). k.executing) e)
  step-Counts (interrupted state at_ why e h) = same-Counts h (ap (λ (k : Loop). k.executing) e)
  step-Counts (reaches_max_runs at_ max e h) = same-Counts h (ap (λ (k : Loop). k.executing) e)
  step-Counts (reaches_end at_ more set e h) = same-Counts h (ap (λ (k : Loop). k.executing) e)
  step-Counts (proceeds at_ more e h) = same-Counts h (ap (λ (k : Loop). k.executing) e)
  step-Counts (enqueues at_ got e) = λ c.
      subst (Counts capacity held') (sym (ap (λ (k : Loop). k.executing + rest) e ∙ omega arith))
        (taken-Counts capacity held held' (l.executing + rest) got c)
  step-Counts (ticks at_ e h) = same-Counts h (ap (λ (k : Loop). k.executing) e)
  step-Counts (canceled_between_runs at_ e h) = same-Counts h (ap (λ (k : Loop). k.executing) e)
  step-Counts (execution_ends k busy e h) = λ c.
      rw (h, ap (λ (k : Loop). k.executing) e)
        (given_back-Counts capacity held (k + rest)
          (subst (Counts capacity held) (ap (λ n. n + rest) busy ∙ omega arith) c))
  step-Counts (execution_is_done k busy e h) = same-Counts h (ap (λ (k : Loop). k.executing) e)
  step-Counts (finalizes state at_ none_left all_done e h) =
      same-Counts h (ap (λ (k : Loop). k.executing) e)
  step-Counts (cleans_up state at_ e h) = same-Counts h (ap (λ (k : Loop). k.executing) e)

  mark-Counts :
      MarkStep l l'
      → held' ≡ held
      → Counts capacity held (l.executing + rest)
      → Counts capacity held' (l'.executing + rest)
  mark-Counts (is_removed on e) h = same-Counts h (ap (λ (k : Loop). k.executing) e)
  mark-Counts (is_stopped on e) h = same-Counts h (ap (λ (k : Loop). k.executing) e)

total-append : (xs ys : List Loop) → total (xs ++ ys) ≡ total xs + total ys
total-append [] ys = omega arith
total-append (x ∷ xs) ys = omega (arith, total-append xs ys)

total-middle :
    (l : Loop) (xs ys : List Loop) → total (xs ++ l ∷ ys) ≡ l.executing + (total xs + total ys)
total-middle l xs ys = omega (arith, total-append xs (l ∷ ys))

All-middle :
    (P : Loop → Type 0) (xs ys : List Loop) (l l' : Loop)
    → (P l → P l')
    → All P (xs ++ l ∷ ys)
    → All P (xs ++ l' ∷ ys)
All-middle P [] ys l l' f h = (f h.0, h.1)
All-middle P (x ∷ xs) ys l l' f h = (h.0, All-middle P xs ys l l' f h.1)

-- What holds at every moment
pub record Inv (capacity : Option ℕ) (s : System) : Type 0 where
  pub loops : All LoopInv s.loops
  pub tokens : Counts capacity s.held (total s.loops)

step-Inv :
    {capacity : Option ℕ} {s u : System} → SystemStep capacity s u → Inv capacity s → Inv capacity u
step-Inv {capacity} {s} {u} (moves xs ys l l' before step after) i = record {
  loops = subst (All LoopInv) (sym after) (
      All-middle LoopInv xs ys l l' (λ v. step-LoopInv v step)
        (subst (All LoopInv) before i.loops));
  tokens = subst (Counts capacity u.held) (sym (ap total after ∙ total-middle l' xs ys)) (
      step-Counts capacity l l' s.held u.held (total xs + total ys) step
        (subst (Counts capacity s.held) (ap total before ∙ total-middle l xs ys) i.tokens));
}
step-Inv {capacity} {s} {u} (marks xs ys l l' before step after held) i = record {
  loops = subst (All LoopInv) (sym after) (
      All-middle LoopInv xs ys l l' (λ v. mark-LoopInv v step)
        (subst (All LoopInv) before i.loops));
  tokens = subst (Counts capacity u.held) (sym (ap total after ∙ total-middle l' xs ys)) (
      mark-Counts capacity l l' s.held u.held (total xs + total ys) step held
        (subst (Counts capacity s.held) (ap total before ∙ total-middle l xs ys) i.tokens));
}
step-Inv {capacity} {s} {u} (schedules schedule e) i = rw e (record {
  loops = (new_loop-LoopInv schedule, i.loops);
  tokens = subst (Counts capacity s.held) (omega arith) i.tokens;
})

Runs-Inv :
    {capacity : Option ℕ} {s u : System} → Runs capacity s u → Inv capacity s → Inv capacity u
Runs-Inv here i = i
Runs-Inv (next step rest) i = Runs-Inv rest (step-Inv step i)

no_tokens : (capacity : Option ℕ) → Counts capacity 0 0
no_tokens none = tt
no_tokens (some capacity) = (refl, omega arith)

-- What a job may rely on
abbrev pub IsBounded : Loop → Type 0
IsBounded l =
    ((if ltb_ℤ (pos 0) l.schedule.max_runs then l.started else 0) ≤ pos_part l.schedule.max_runs)
    × (l.executing + l.ending ≤ l.started)
    × Quiet l.phase (l.executing + l.ending) l.listed l.written

LoopInv-IsBounded : (l : Loop) → LoopInv l → IsBounded l
LoopInv-IsBounded l v = (ground (arith, v.counted, v.most), v.open_runs, v.quiet)

All-IsBounded : (ls : List Loop) → All LoopInv ls → All IsBounded ls
All-IsBounded [] h = tt
All-IsBounded (l ∷ ls) h = (LoopInv-IsBounded l h.0, All-IsBounded ls h.1)

Counts-Within : (capacity : Option ℕ) (held n : ℕ) → Counts capacity held n → Within capacity n
Counts-Within none held n c = tt
Counts-Within (some capacity) held n c = c.1

-- However the jobs of a scheduler, their executions and the calls of Remove and Stop are interleaved,
-- and whenever a context is canceled: the executions that run at one time are at most as many as
-- WithConcurrency allows; a job with MaxRuns starts at most that many executions; a job whose
-- goroutine has written its terminal state has no execution left; and before that, while executions
-- may run, no terminal state of it is written as long as it is in the map of the scheduler, and only
-- that of the Remove or Stop that took it off. A later job of the same ID is a job of its own here.
pub Runs-IsBounded :
    (capacity : Option ℕ) (s : System)
    → Runs capacity no_jobs s
    → Within capacity (total s.loops) × All IsBounded s.loops
Runs-IsBounded capacity s runs =
    let i = Runs-Inv runs (record { loops = tt; tokens = no_tokens capacity }) in
    (Counts-Within capacity s.held (total s.loops) i.tokens, All-IsBounded s.loops i.loops)
