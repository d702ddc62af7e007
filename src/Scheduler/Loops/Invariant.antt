-- ===== src/Scheduler/Loops/Invariant.antt =====
-- What every step of a job keeps of its counters.
use mathlib.Core.Path.{subst}
use go_again.Prelude.{
  ℕ, suc, ◌+◌, ◌≤◌, pos, pos_part, ltb_ℤ, Bool, true, false, Option, if◌then◌else◌, List, [], ◌∷◌,
  ◌++◌, ◌≡◌, refl, sym, ap, arith,
}
use go_again.Storage.{JobState, removed, stopped, Schedule}
use go_again.Scheduler.Loops.{
  Phase, starting, checking, enqueuing, selecting, draining, finalized, Loop, new_loop,
  reached_max_runs, LoopStep, starts, canceled_before_start, interrupted, reaches_max_runs,
  reaches_end, proceeds, enqueues, ticks, canceled_between_runs, execution_ends, execution_is_done,
  finalizes, cleans_up, MarkStep, is_removed, is_stopped,
}

-- The terminal states that can have been written while the goroutine of the job is not through: none
-- as long as the job is in the map, and then that of Remove or that of Stop.
pub data Early : Bool → List JobState → Type 0 where
  not_marked : Early true []
  marked_removed : Early false (removed ∷ [])
  marked_stopped : Early false (stopped ∷ [])

-- Behind its own MarkTerminal the goroutine has left no execution, of which `busy` are under way.
abbrev pub Quiet : Phase → ℕ → Bool → List JobState → Type 0
Quiet (finalized state) busy listed written = busy ≡ 0
Quiet starting busy listed written = Early listed written
Quiet checking busy listed written = Early listed written
Quiet enqueuing busy listed written = Early listed written
Quiet selecting busy listed written = Early listed written
Quiet (draining state) busy listed written = Early listed written

-- The run that is counted and not yet started
abbrev pub pending : Phase → ℕ
pending enqueuing = 1
pending starting = 0
pending checking = 0
pending selecting = 0
pending (draining state) = 0
pending (finalized state) = 0

pub record LoopInv (l : Loop) : Type 0 where
  pub counted : l.started + pending l.phase ≡ l.runs
  pub open_runs : l.executing + l.ending ≤ l.started
  pub most :
      (if ltb_ℤ (pos 0) l.schedule.max_runs then l.runs else 0) ≤ pos_part l.schedule.max_runs
  pub quiet : Quiet l.phase (l.executing + l.ending) l.listed l.written

pub new_loop-LoopInv : (schedule : Schedule) → LoopInv (new_loop schedule)
new_loop-LoopInv schedule = record {
  counted = refl;
  open_runs = omega arith;
  most = ground arith;
  quiet = not_marked;
}

quiet_busy :
    (p : Phase) (busy busy' n : ℕ) (listed : Bool) (written : List JobState)
    → Quiet p busy listed written
    → busy ≡ suc n
    → Quiet p busy' listed written
quiet_busy starting busy busy' n listed written q e = q
quiet_busy checking busy busy' n listed written q e = q
quiet_busy enqueuing busy busy' n listed written q e = q
quiet_busy selecting busy busy' n listed written q e = q
quiet_busy (draining state) busy busy' n listed written q e = q
quiet_busy (finalized state) busy busy' n listed written q e = absurd (omega (arith, q, e))

removed-Early :
    (written : List JobState) → Early true written → Early false (written ++ removed ∷ [])
removed-Early [] not_marked = marked_removed
removed-Early (state ∷ rest) e = elim e [ ]

stopped-Early :
    (written : List JobState) → Early true written → Early false (written ++ stopped ∷ [])
stopped-Early [] not_marked = marked_stopped
stopped-Early (state ∷ rest) e = elim e [ ]

-- A terminal state written from outside
marked-Quiet :
    (p : Phase) (busy : ℕ) (written : List JobState) (state : JobState)
    → (Early true written → Early false (written ++ state ∷ []))
    → Quiet p busy true written
    → Quiet p busy false (written ++ state ∷ [])
marked-Quiet starting busy written state f q = f q
marked-Quiet checking busy written state f q = f q
marked-Quiet enqueuing busy written state f q = f q
marked-Quiet selecting busy written state f q = f q
marked-Quiet (draining state') busy written state f q = f q
marked-Quiet (finalized state') busy written state f q = q

module _ {l : Loop} (v : LoopInv l) where
  quiet_at : (p : Phase) → l.phase ≡ p → Quiet p (l.executing + l.ending) l.listed l.written
  quiet_at p at_ = subst (λ q. Quiet q (l.executing + l.ending) l.listed l.written) at_ v.quiet

  -- A step that starts and ends no execution
  moved-LoopInv :
      (p p' : Phase)
      → l.phase ≡ p
      → pending p ≡ pending p'
      → Quiet p' (l.executing + l.ending) l.listed l.written
      → LoopInv (record l { phase = p' })
  moved-LoopInv p p' at_ same quiet = record {
    counted = omega (arith, v.counted, ap pending at_, same);
    open_runs = v.open_runs;
    most = v.most;
    quiet = quiet;
  }

  proceeds-LoopInv :
      l.phase ≡ checking
      → reached_max_runs l.schedule l.runs ≡ false
      → LoopInv (record l { phase = enqueuing; runs = suc l.runs })
  unfolding reached_max_runs
  proceeds-LoopInv at_ more = record {
    counted = omega (arith, v.counted, ap pending at_);
    open_runs = v.open_runs;
    most = ground (arith, v.most);
    quiet = quiet_at checking at_;
  }

  enqueues-LoopInv :
      l.phase ≡ enqueuing
      → LoopInv
          (record l { phase = selecting; executing = suc l.executing; started = suc l.started })
  enqueues-LoopInv at_ = record {
    counted = omega (arith, v.counted, ap pending at_);
    open_runs = omega (arith, v.open_runs);
    most = v.most;
    quiet = quiet_at enqueuing at_;
  }

  ends-LoopInv :
      (k : ℕ) → l.executing ≡ suc k → LoopInv (record l { executing = k; ending = suc l.ending })
  ends-LoopInv k e = record {
    counted = v.counted;
    open_runs = omega (arith, v.open_runs, e);
    most = v.most;
    quiet = quiet_busy l.phase _ _ (k + l.ending) _ _ v.quiet (omega (arith, e));
  }

  done-LoopInv : (k : ℕ) → l.ending ≡ suc k → LoopInv (record l { ending = k })
  done-LoopInv k e = record {
    counted = v.counted;
    open_runs = omega (arith, v.open_runs, e);
    most = v.most;
    quiet = quiet_busy l.phase _ _ (l.executing + k) _ _ v.quiet (omega (arith, e));
  }

  finalizes-LoopInv :
      (state : JobState)
      → l.phase ≡ draining state
      → l.executing ≡ 0
      → l.ending ≡ 0
      → LoopInv (record l { phase = finalized state; written = l.written ++ state ∷ [] })
  finalizes-LoopInv state at_ none_left all_done = record {
    counted = omega (arith, v.counted, ap pending at_);
    open_runs = v.open_runs;
    most = v.most;
    quiet = omega arith;
  }

  cleans_up-LoopInv :
      (state : JobState) → l.phase ≡ finalized state → LoopInv (record l { listed = false })
  cleans_up-LoopInv state at_ = record {
    counted = v.counted;
    open_runs = v.open_runs;
    most = v.most;
    quiet =
        subst (λ q. Quiet q (l.executing + l.ending) false l.written) (sym at_)
          (quiet_at (finalized state) at_);
  }

  pub step-LoopInv :
      {capacity : Option ℕ} {held held' : ℕ} {l' : Loop}
      → LoopStep capacity l held l' held'
      → LoopInv l'
  step-LoopInv (starts at_ e h) =
      rw e (moved-LoopInv starting checking at_ refl (quiet_at starting at_))
  step-LoopInv (canceled_before_start state at_ set why e h) =
      rw e (moved-LoopInv starting (draining state) at_ refl (quiet_at starting at_))
  step-LoopInv (interrupted state at_ why e h) =
      rw e (moved-LoopInv checking (draining state) at_ refl (quiet_at checking at_))
  step-LoopInv (reaches_max_runs at_ max e h) =
      rw e (moved-LoopInv checking (draining _) at_ refl (quiet_at checking at_))
  step-LoopInv (reaches_end at_ more set e h) =
      rw e (moved-LoopInv checking (draining _) at_ refl (quiet_at checking at_))
  step-LoopInv (proceeds at_ more e h) = rw e (proceeds-LoopInv at_ more)
  step-LoopInv (enqueues at_ got e) = rw e (enqueues-LoopInv at_)
  step-LoopInv (ticks at_ e h) =
      rw e (moved-LoopInv selecting checking at_ refl (quiet_at selecting at_))
  step-LoopInv (canceled_between_runs at_ e h) =
      rw e (moved-LoopInv selecting (draining _) at_ refl (quiet_at selecting at_))
  step-LoopInv (execution_ends k some_ e h) = rw e (ends-LoopInv k some_)
  step-LoopInv (execution_is_done k some_ e h) = rw e (done-LoopInv k some_)
  step-LoopInv (finalizes state at_ none_left all_done e h) =
      rw e (finalizes-LoopInv state at_ none_left all_done)
  step-LoopInv (cleans_up state at_ e h) = rw e (cleans_up-LoopInv state at_)

  is_marked-LoopInv :
      (state : JobState)
      → l.listed ≡ true
      → (Early true l.written → Early false (l.written ++ state ∷ []))
      → LoopInv (record l { listed = false; written = l.written ++ state ∷ [] })
  is_marked-LoopInv state on f = record {
    counted = v.counted;
    open_runs = v.open_runs;
    most = v.most;
    quiet =
        marked-Quiet l.phase (l.executing + l.ending) l.written state f
          (subst (λ b. Quiet l.phase (l.executing + l.ending) b l.written) on v.quiet);
  }

  pub mark-LoopInv : {l' : Loop} → MarkStep l l' → LoopInv l'
  mark-LoopInv (is_removed on e) = rw e (is_marked-LoopInv removed on (removed-Early l.written))
  mark-LoopInv (is_stopped on e) = rw e (is_marked-LoopInv stopped on (stopped-Early l.written))
