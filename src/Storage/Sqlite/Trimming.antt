-- ===== src/Storage/Sqlite/Trimming.antt =====
-- The history of a job as rows: which of them trimHistoryTx and applyExecutionResult keep.
use go_again.Prelude.{
  ℕ, suc, ◌+◌, ◌-◌, ◌≤◌, ◌<◌, leb, ltb, ◌==◌, pos, leb_ℤ, sub_ℕ, List, [], ◌∷◌, true, false, not,
  if◌then◌else◌, length, drop, drop_all, ltb→lt, filter_by, any_of, All, ◌≡◌, refl, ap, sym, ◌∙◌,
  arith, Bool-cases, inl, inr,
}
use go_again.Storage.{JobRun}
use go_again.Storage.Sorting.{IsSorted}
use go_again.Storage.Sqlite.AsRows.{filter_by-agree}
use go_again.Storage.Memory.{trim}
use go_again.Storage.Entry.{Numbered}

pub trim-drop : (limit : ℕ) (h : List JobRun) → trim limit h ≡ drop (length h - limit) h
unfolding trim
trim-drop limit h = elim (Bool-cases (ltb limit (length h))) [
  | inl long ↦ rw (long, trim) refl
  | inr short ↦
      let none_over : length h - limit ≡ 0 = ground (arith) in rw (short, none_over, trim) refl
]

-- The rows above a sequence number, of consecutive ones.
pub filter_by-Numbered :
    (b i : ℕ) (h : List JobRun)
    → Numbered i h
    → filter_by (λ (r : JobRun). not (leb r.sequence b)) h ≡ drop (b - i) h
filter_by-Numbered b i [] n = sym (drop_all (b - i) [] (omega arith))
filter_by-Numbered b i (x ∷ h) n = elim (Bool-cases (leb x.sequence b)) [
  | inl low ↦
      let more : b - i ≡ suc (b - suc i) = ground (arith, n.0) in
      rw (low, more) (filter_by-Numbered b (suc i) h n.1)
  | inr high ↦
      let here : b - i ≡ 0 = ground (arith, n.0) in
      let next : b - suc i ≡ 0 = ground (arith, n.0) in
      rw (high, here) (ap (λ rest. x ∷ rest) (rw next at (filter_by-Numbered b (suc i) h n.1)))
]

-- They stand in the order of their numbers, and none has a number beyond the last.
All-Numbered :
    (x i : ℕ) (h : List JobRun)
    → x ≤ i
    → Numbered i h
    → All (λ (r : JobRun). leb x r.sequence ≡ true) h
All-Numbered x i [] le n = tt
All-Numbered x i (y ∷ h) le n = (ground (arith, n.0), All-Numbered x (suc i) h (omega arith) n.1)

pub Numbered-IsSorted :
    (i : ℕ) (h : List JobRun)
    → Numbered i h
    → IsSorted (λ (a b : JobRun). leb a.sequence b.sequence) h
Numbered-IsSorted i [] n = tt
Numbered-IsSorted i (x ∷ h) n =
    (All-Numbered x.sequence (suc i) h (omega (arith, n.0)) n.1, Numbered-IsSorted (suc i) h n.1)

pub Numbered-fresh :
    (s i : ℕ) (h : List JobRun)
    → i + length h < s
    → Numbered i h
    → any_of (λ (r : JobRun). r.sequence == s) h ≡ false
Numbered-fresh s i [] lt n = refl
Numbered-fresh s i (x ∷ h) lt n = ground (arith, n.0, Numbered-fresh s (suc i) h (omega arith) n.1)

-- The DELETE of trimHistoryTx keeps what the in-memory storage keeps.
pub trimmed_lem :
    (limit last : ℕ) (h : List JobRun)
    → 0 < limit
    → length h ≤ last
    → Numbered (last - length h) h
    → (if leb_ℤ (sub_ℕ last limit) (pos 0)
        then h
        else filter_by (λ (r : JobRun). not (leb_ℤ (pos r.sequence) (sub_ℕ last limit))) h)
      ≡ trim limit h
trimmed_lem limit last h positive le n = elim (Bool-cases (ltb limit last)) [
  | inl over ↦
      let value : sub_ℕ last limit ≡ pos (last - limit) = ground arith in
      let rest : leb_ℤ (pos (last - limit)) (pos 0) ≡ false = ground arith in
      let count : last - limit - (last - length h) ≡ length h - limit =
        omega (arith, ltb→lt _ _ over) in
      rw (value, rest)
        (filter_by-agree _ _ h (λ r. ground arith)
          ∙ filter_by-Numbered (last - limit) (last - length h) h n
          ∙ ap (λ k. drop k h) count
          ∙ sym (trim-drop limit h))
  | inr under ↦
      let all : leb_ℤ (sub_ℕ last limit) (pos 0) ≡ true = ground arith in
      let short : length h - limit ≡ 0 = ground arith in rw (all, trim-drop limit h, short) refl
]
