-- ===== src/Scheduler/Runs.antt =====
-- What QueryJobHistory returns of a history whose runs are numbered without a gap.
use native.Mathlib.Decide.{dec_le, dec_lt}
use go_again.Prelude.{
  ℕ, suc, ◌-◌, ◌<◌, pos, ◌≤ℤ◌, leb_ℤ, ltb_ℤ, List, [], ◌∷◌, true, false, none, some, length, drop,
  drop_all, filter_by, ◌≡◌, refl, sym, ap, ◌∙◌, arith, ◌&&◌,
}
use go_again.Storage.{JobRun}
use go_again.Storage.Entry.{Numbered}
use go_again.Storage.History.{last_of}
use go_again.Scheduler.Query.{JobHistoryQuery, from_sequence, at_most, query_job_history}

filter-Numbered :
    (from i : ℕ) (h : List JobRun)
    → Numbered i h
    → filter_by (λ (run : JobRun). leb_ℤ (pos from) (pos run.sequence)) h ≡ drop (from - suc i) h
filter-Numbered from i [] n = sym (drop_all (from - suc i) [] (omega arith))
filter-Numbered from i (r ∷ rs) n = elim (dec_le from (suc i)) [
  | yes reached ↦
      let kept : leb_ℤ (pos from) (pos r.sequence) ≡ true = ground (arith, n.0) in
      let all : from - suc i ≡ 0 = omega arith in
      let rest : from - suc (suc i) ≡ 0 = omega arith in
      rw (kept, all) (ap (◌∷◌ r) (filter-Numbered from (suc i) rs n.1 ∙ ap (λ k. drop k rs) rest))
  | no before ↦
      let skipped : leb_ℤ (pos from) (pos r.sequence) ≡ false = ground (arith, n.0) in
      let more : from - suc i ≡ suc (from - suc (suc i)) = omega arith in
      rw (skipped, more) (filter-Numbered from (suc i) rs n.1)
]

at_most-last_of :
    (limit : ℕ) (h : List JobRun) → 0 < limit → at_most (pos limit) h ≡ last_of limit h
unfolding at_most
at_most-last_of limit h p = elim (dec_lt limit (length h)) [
  | yes long ↦
      let over : (ltb_ℤ (pos 0) (pos limit) && ltb_ℤ (pos limit) (pos (length h))) ≡ true =
        ground arith in
      rw over refl
  | no short ↦
      let under : (ltb_ℤ (pos 0) (pos limit) && ltb_ℤ (pos limit) (pos (length h))) ≡ false =
        ground arith in
      let none_over : ◌≡◌ {A = ℕ} 0 (length h - limit) = omega arith in
      rw under (ap (λ k. drop k h) none_over)
]

-- Of a history whose runs are numbered i + 1, i + 2, ... without a gap, QueryJobHistory with a
-- positive FromSequence and a positive Limit returns the last Limit of the runs from number
-- FromSequence on, in their order; with both at 0 or below it returns the whole history; and for an
-- unknown job it reports that there is none.
pub query_job_history_lem :
    (i from limit : ℕ) (h : List JobRun) (q : JobHistoryQuery)
    → Numbered i h
    → 0 < from
    → 0 < limit
    → (query_job_history (some h) (record { from_sequence = pos from; limit = pos limit })
        ≡ some (last_of limit (drop (from - suc i) h)))
      × (q.from_sequence ≤ℤ pos 0 → q.limit ≤ℤ pos 0 → query_job_history (some h) q ≡ some h)
      × (query_job_history none q ≡ none)
unfolding query_job_history from_sequence
query_job_history_lem i from limit h q n pf pl =
    let given : ltb_ℤ (pos 0) (pos from) ≡ true = ground arith in
    (
      rw given (
          ap some (
            ap (at_most (pos limit)) (filter-Numbered from i h n)
            ∙ at_most-last_of limit (drop (from - suc i) h) pl)),
      λ f l. unfold at_most in ground arith,
      refl,
    )
