-- ===== src/Storage/Sqlite/KeptRows.antt =====
-- The rows of the history table after a run has been inserted and the history been trimmed.
use mathlib.Core.Path.{subst}
use mathlib.Core.List.{append-nil}
use go_again.Prelude.{
  ℕ, String, List, [], ◌∷◌, ◌++◌, map, false, if◌then◌else◌, ◌≡◌, refl, sym, ap, ◌∙◌, arith,
  Bool-cases, inl, inr,
}
use go_again.Prelude.Text.{str_eq, eq_iff, eq_refl}
use go_again.Storage.{JobRun}
use go_again.Storage.Sqlite.{HistoryRow, Codec}
use go_again.Storage.Sqlite.Laws.{of_job}
use go_again.Storage.Sqlite.Promises.{IsLossless}
use go_again.Storage.Sqlite.Simulation.{run_row}
use go_again.Storage.Memory.{trim}
use go_again.Storage.Entry.{Numbered}
use go_again.Storage.Sqlite.Laws.{is_trimmed}
use go_again.Storage.Sqlite.Trimming.{trimmed_lem}
use go_again.Storage.Sqlite.AsRows.{
  filter_by-append, filter_by-swap, filter_by-all, filter_by-agree, filter_by-map, map-append,
}
use go_again.Prelude.{filter_by, leb_ℤ, sub_ℕ, pos, not, ◌≤◌, ◌<◌, ◌-◌, length}

-- The rows of a trimmed history table
unfoldable pub trimmed : {B : Type 0} → String → ℕ → ℕ → List (HistoryRow B) → List (HistoryRow B)
trimmed id last limit rows =
    if leb_ℤ (sub_ℕ last limit) (pos 0)
    then rows
    else filter_by (λ r. not (is_trimmed id (sub_ℕ last limit) r)) rows

module _ {E B : Type 0} {codec : Codec E B} (lossless : IsLossless codec) where
  of_job-trimmed_other :
      (id j : String) (last limit : ℕ) (rows : List (HistoryRow B)) (h : List JobRun)
      → str_eq id j ≡ false
      → of_job j rows ≡ map (run_row lossless j) h
      → of_job j (trimmed id last limit rows) ≡ of_job j rows
  unfolding trimmed
  of_job-trimmed_other id j last limit rows h other e =
      elim (Bool-cases (leb_ℤ (sub_ℕ last limit) (pos 0))) [
        | inl met ↦ rw (met, trimmed) refl
        | inr unmet ↦
            rw (unmet, trimmed)
              (filter_by-swap _ _ rows
                ∙ rw e (
                    filter_by-map _ (run_row lossless j) h
                    ∙ ap (map (run_row lossless j))
                        (filter_by-all _ h (λ r. ground (arith, eq_iff id j, eq_iff j id)))))
      ]

  of_job-trimmed_own :
      (id : String) (last limit : ℕ) (rows : List (HistoryRow B)) (h : List JobRun)
      → of_job id rows ≡ map (run_row lossless id) h
      → 0 < limit
      → length h ≤ last
      → Numbered (last - length h) h
      → of_job id (trimmed id last limit rows) ≡ map (run_row lossless id) (trim limit h)
  unfolding trimmed
  of_job-trimmed_own id last limit rows h e positive le n =
      let cut = trimmed_lem limit last h positive le n in
      elim (Bool-cases (leb_ℤ (sub_ℕ last limit) (pos 0))) [
        | inl met ↦ rw (met, trimmed) (e ∙ ap (map (run_row lossless id)) (rw met at cut))
        | inr unmet ↦
            let kept : (r : JobRun)
                → not (is_trimmed id (sub_ℕ last limit) (run_row lossless id r))
                  ≡ not (leb_ℤ (pos r.sequence) (sub_ℕ last limit)) =
              λ r. ground (arith, eq_refl id) in
            rw (unmet, trimmed)
              (filter_by-swap _ _ rows
                ∙ rw e (
                    filter_by-map _ (run_row lossless id) h
                    ∙ ap (map (run_row lossless id))
                        (filter_by-agree _ _ h kept ∙ (rw unmet at cut))))
      ]

  -- The rows with the row of a new run
  of_job-append :
      (id j : String) (rows : List (HistoryRow B)) (r : JobRun)
      → of_job j (rows ++ run_row lossless id r ∷ [])
        ≡ (if str_eq id j then of_job j rows ++ run_row lossless id r ∷ [] else of_job j rows)
  of_job-append id j rows r =
      filter_by-append _ rows (run_row lossless id r ∷ []) ∙ elim (Bool-cases (str_eq id j)) [
        | inl same ↦ rw same refl
        | inr other ↦ rw other (append-nil (of_job j rows))
      ]

  pub recorded_rows_lem :
      (id j : String) (last limit : ℕ) (rows : List (HistoryRow B)) (h h' : List JobRun)
      (r : JobRun)
      → of_job id rows ≡ map (run_row lossless id) h
      → of_job j rows ≡ map (run_row lossless j) h'
      → 0 < limit
      → length (h ++ r ∷ []) ≤ last
      → Numbered (last - length (h ++ r ∷ [])) (h ++ r ∷ [])
      → of_job j (trimmed id last limit (rows ++ run_row lossless id r ∷ [])) ≡ (
          if str_eq id j
          then map (run_row lossless id) (trim limit (h ++ r ∷ []))
          else of_job j rows)
  recorded_rows_lem id j last limit rows h h' r e e' positive le n =
      elim (Bool-cases (str_eq id j)) [
        | inl same ↦
            let own : of_job id (rows ++ run_row lossless id r ∷ [])
                ≡ map (run_row lossless id) (h ++ r ∷ []) =
              of_job-append id id rows r
              ∙ rw (eq_refl id) (
                  ap (λ xs. xs ++ run_row lossless id r ∷ []) e
                  ∙ sym (map-append (run_row lossless id) h (r ∷ []))) in
            rw same (
              subst
                (λ k.
                  of_job k (trimmed id last limit (rows ++ run_row lossless id r ∷ []))
                  ≡ map (run_row lossless id) (trim limit (h ++ r ∷ [])))
                ((eq_iff id j).0 same)
                (of_job-trimmed_own id last limit _ (h ++ r ∷ []) own positive le n))
        | inr other ↦
            let same_rows : of_job j (rows ++ run_row lossless id r ∷ []) ≡ of_job j rows =
              of_job-append id j rows r ∙ rw other refl in
            rw other (of_job-trimmed_other id j last limit _ h' other (same_rows ∙ e') ∙ same_rows)
      ]
