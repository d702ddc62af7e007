-- ===== src/Storage/Sqlite/RowCounts.antt =====
-- How many rows the DELETE statements leave.
use mathlib.Core.Path.{subst}
use go_again.Prelude.{
  ℕ, ◌+◌, ◌≤◌, leb, ltb, String, List, [], ◌∷◌, Bool, true, not, length, filter_by, All, ◌≡◌, refl,
  ap, sym, ◌∙◌, arith, Bool-cases, inl, inr,
}
use go_again.Prelude.Text.{str_eq, eq_iff}
use go_again.Storage.Sqlite.{HistoryRow}
use go_again.Storage.Sqlite.AsRows.{filter_by-swap}
use go_again.Storage.Sqlite.Laws.{of_job, row_number}

module _ {A : Type 0} where
  pub length-filter_by-not :
      (p : A → Bool) (xs : List A)
      → length xs ≡ length (filter_by (λ x. not (p x)) xs) + length (filter_by p xs)
  length-filter_by-not p [] = refl
  length-filter_by-not p (x ∷ xs) = ground (arith, length-filter_by-not p xs)

  pub length-filter_by-le : (p : A → Bool) (xs : List A) → length (filter_by p xs) ≤ length xs
  length-filter_by-le p [] = omega arith
  length-filter_by-le p (x ∷ xs) = ground (arith, length-filter_by-le p xs)

  pub All-filter_by : (p : A → Bool) (xs : List A) → All (λ x. p x ≡ true) (filter_by p xs)
  All-filter_by p [] = tt
  All-filter_by p (x ∷ xs) = elim (Bool-cases (p x)) [
    | inl passes ↦ rw passes (passes, All-filter_by p xs)
    | inr fails ↦ rw fails (All-filter_by p xs)
  ]

  pub All-filter_by-keeps :
      (P : A → Type 0) (p : A → Bool) (xs : List A) → All P xs → All P (filter_by p xs)
  All-filter_by-keeps P p [] h = tt
  All-filter_by-keeps P p (x ∷ xs) h = elim (Bool-cases (p x)) [
    | inl passes ↦ rw passes (h.0, All-filter_by-keeps P p xs h.1)
    | inr fails ↦ rw fails (All-filter_by-keeps P p xs h.1)
  ]

  pub length-filter_by-All :
      (p : A → Bool) (xs : List A) → All (λ x. p x ≡ true) xs → length (filter_by p xs) ≡ length xs
  length-filter_by-All p [] h = refl
  length-filter_by-All p (x ∷ xs) h = ground (arith, h.0, length-filter_by-All p xs h.1)

  pub All-weaken : (P Q : A → Type 0) (xs : List A) → ((x : A) → P x → Q x) → All P xs → All Q xs
  All-weaken P Q [] f h = tt
  All-weaken P Q (x ∷ xs) f h = (f x h.0, All-weaken P Q xs f h.1)

  All-pair : (P Q : A → Type 0) (xs : List A) → All P xs → All Q xs → All (λ x. P x × Q x) xs
  All-pair P Q [] p q = tt
  All-pair P Q (x ∷ xs) p q = ((p.0, q.0), All-pair P Q xs p.1 q.1)

  -- An element with the least key, of a list that is not empty.
  least :
      (key : A → ℕ) (P : A → Type 0) (x : A) (xs : List A)
      → P x
      → All P xs
      → (y : A) × P y × All (λ z. leb (key y) (key z) ≡ true) (x ∷ xs)
  least key P x [] px h = (x, px, (ground arith, tt))
  least key P x (x' ∷ xs) px h =
      let (y, py, below) = least key P x' xs h.0 h.1 in
      elim (Bool-cases (leb (key y) (key x))) [
        | inl le ↦ (y, py, (le, below))
        | inr gt ↦ (x, px, (ground arith, All-weaken _ _ (x' ∷ xs) (λ z above. ground arith) below))
      ]

module _ {B : Type 0} where
  abbrev pub is_late : ℕ → HistoryRow B → Bool
  is_late from r = leb from r.sequence

  late_rows_le :
      (n : ℕ) (p : HistoryRow B → Bool) (rows kept : List (HistoryRow B)) (y : HistoryRow B)
      → kept ≡ filter_by p (of_job y.id rows)
      → All (λ z. is_late y.sequence z ≡ true) kept
      → row_number rows y ≤ n
      → length kept ≤ n
  late_rows_le n p rows kept y e below le =
      let q = is_late y.sequence in
      let here : length (filter_by q kept) ≡ length kept = length-filter_by-All q kept below in
      let moved : filter_by q kept ≡ filter_by p (filter_by q (of_job y.id rows)) =
        ap (filter_by q) e ∙ filter_by-swap q p (of_job y.id rows) in
      let fewer = length-filter_by-le p (filter_by q (of_job y.id rows)) in
      omega (arith, here, ap length moved, fewer, le)

  -- Rows whose number does not go beyond `n`: each job has at most `n`.
  numbered : ℕ → List (HistoryRow B) → HistoryRow B → Bool
  numbered n rows r = not (ltb n (row_number rows r))

  numbered_kept_le :
      (n : ℕ) (id : String) (rows kept : List (HistoryRow B))
      → of_job id (filter_by (numbered n rows) rows) ≡ kept
      → length kept ≤ n
  unfolding numbered
  numbered_kept_le n id rows [] e = omega arith
  numbered_kept_le n id rows (x ∷ xs) e =
      let p = numbered n rows in
      let Fits : HistoryRow B → Type 0 = λ y. (str_eq y.id id ≡ true) × (p y ≡ true) in
      let fit : All Fits (x ∷ xs) = subst (All Fits) e (
        All-pair _ _ _ (All-filter_by (λ r. str_eq r.id id) (filter_by p rows)) (
          All-filter_by-keeps (λ r. p r ≡ true) (λ r. str_eq r.id id) (filter_by p rows)
            (All-filter_by p rows))) in
      let (y, fits, below) = least (λ r. r.sequence) Fits x xs fit.0 fit.1 in
      let at_id : x ∷ xs ≡ filter_by p (of_job id rows) =
        sym e ∙ filter_by-swap (λ r. str_eq r.id id) p rows in
      late_rows_le n p rows (x ∷ xs) y
        (subst (λ k. x ∷ xs ≡ filter_by p (of_job k rows)) (sym ((eq_iff y.id id).0 fits.0)) at_id)
        below (ground (arith, fits.1))

  pub length-numbered-le :
      (n : ℕ) (id : String) (rows : List (HistoryRow B))
      → length (of_job id (filter_by (λ r. not (ltb n (row_number rows r))) rows)) ≤ n
  unfolding numbered
  length-numbered-le n id rows = numbered_kept_le n id rows _ refl
