-- ===== src/Storage/Sqlite/Pruning.antt =====
-- storage_sqlite.go: what PruneHistoryWithRetention leaves of the history table.
use mathlib.Core.Path.{subst}
use go_again.Prelude.{
  ℕ, ◌+◌, ◌≤◌, ◌<◌, ltb, sub_ℕ, half_word, wrap64-sub_ℕ, ℤ, pos, negsuc, pos_part, ltb_ℤ, String,
  List, Bool, true, false, not, ◌&&◌, length, ◌≡◌, refl, ap, sym, ◌∙◌, arith, Bool-cases, inl, inr,
}
use go_again.Runtime.{Runtime}
use go_again.Storage.{Time}
use go_again.Storage.Sqlite.{
  Checked, accepted, refused, SqliteHistoryRetentionOptions, HistoryRow, Codec, Database,
  unix_epoch,
}
use go_again.Storage.Sqlite.Records.{rows_affected}
use go_again.Storage.Sqlite.Methods.{cutoff_ns, prune_by_age, prune_by_rows}
use go_again.Storage.Sqlite.Laws.{
  Tables, IsSqlite, Removal, is_older, row_number, without, matching,
}
use go_again.Storage.Sqlite.Success.{accepted-injective}
use go_again.Storage.Sqlite.AsRows.{filter_by-all, filter_by-agree}
use go_again.Storage.Sqlite.RowCounts.{length-filter_by-not}

-- The rows that each step takes out: those with an end that is longer ago than the age, and those that
-- have too many rows of their job from themselves on.
unfoldable pub by_age : {B : Type 0} → SqliteHistoryRetentionOptions → Time → HistoryRow B → Bool
by_age given now r =
    ltb_ℤ (pos 0) given.max_age
    && ltb_ℤ (pos 0) r.finished_at_unix_nano
    && ltb (unix_epoch + pos_part r.finished_at_unix_nano + pos_part given.max_age) now

unfoldable pub by_number :
    {B : Type 0} → SqliteHistoryRetentionOptions → List (HistoryRow B) → HistoryRow B → Bool
by_number given rows r =
    ltb_ℤ (pos 0) given.max_rows_per_job
    && ltb (pos_part given.max_rows_per_job) (row_number rows r)

-- The moment is one of an int64 of nanoseconds since 1970, and MaxAge is an int64.
pub record IsInRange (given : SqliteHistoryRetentionOptions) (now : Time) : Type 0 where
  pub epoch : unix_epoch ≤ now
  pub representable : now < unix_epoch + half_word
  pub age : pos_part given.max_age < half_word

ended_before :
    (now epoch age : ℕ) (z : ℤ)
    → (ltb_ℤ (pos 0) z && ltb_ℤ z (sub_ℕ now (epoch + age)))
      ≡ (ltb_ℤ (pos 0) z && ltb (epoch + pos_part z + age) now)
ended_before now epoch age (pos n) = ground arith
ended_before now epoch age (negsuc n) = ground arith

module _ {E F D B : Type 0} (rt : Runtime E F) (codec : Codec E B) (db : Database E D B)
    (retention : SqliteHistoryRetentionOptions) (tables : D → Tables B)
    (lawful : IsSqlite db tables) where
  -- A DELETE that returns its number of rows
  rows_affected-accepted :
      (message : String) (r : D × Checked E (Checked E ℕ)) (before wanted : Tables B) (n k : ℕ)
      → Removal before wanted n (tables r.0) r.1
      → (rows_affected rt codec db message r).1 ≡ accepted k
      → (tables (rows_affected rt codec db message r).0 ≡ wanted) × (k ≡ n)
  unfolding rows_affected
  rows_affected-accepted message (d, refused err) before wanted n k law h = absurd cc
  rows_affected-accepted message (d, accepted (refused err)) before wanted n k law h = absurd cc
  rows_affected-accepted message (d, accepted (accepted x)) before wanted n k law h = (law.0, cc)

  -- A step has taken out the rows that pass a test, and counted them.
  unfoldable pub Takes : (HistoryRow B → Bool) → Tables B → Tables B → ℕ → Type 0
  Takes p before after n = (after ≡ without p before) × (n ≡ matching p before)

  Takes-agree :
      (p q : HistoryRow B → Bool) (before after : Tables B) (n : ℕ)
      → ((r : HistoryRow B) → q r ≡ p r)
      → Takes q before after n
      → Takes p before after n
  unfolding Takes
  Takes-agree p q before after n same (e, c) = (
    e
        ∙ ap (λ rows. record before { history = rows })
            (filter_by-agree _ _ before.history (λ r. ap not (same r))),
    c ∙ ap length (filter_by-agree _ _ before.history same),
  )

  pub Takes-nothing :
      (p : HistoryRow B → Bool) (t : Tables B) → ((r : HistoryRow B) → p r ≡ false) → Takes p t t 0
  unfolding Takes
  Takes-nothing p t none_of =
      let kept = filter_by-all (λ r. not (p r)) t.history (λ r. ap not (none_of r)) in
      (
        sym (ap (λ rows. record t { history = rows }) kept),
        omega (arith, length-filter_by-not p t.history, ap length kept),
      )

  removed-Takes :
      (message : String) (r : D × Checked E (Checked E ℕ)) (p q : HistoryRow B → Bool)
      (before : Tables B) (k : ℕ)
      → Removal before (without q before) (matching q before) (tables r.0) r.1
      → ((x : HistoryRow B) → q x ≡ p x)
      → (rows_affected rt codec db message r).1 ≡ accepted k
      → Takes p before (tables (rows_affected rt codec db message r).0) k
  unfolding Takes
  removed-Takes message r p q before k law same h =
      Takes-agree p q before _ k same (rows_affected-accepted message r before _ _ k law h)

  by_age_on :
      (given : SqliteHistoryRetentionOptions) (now : Time) (r : HistoryRow B)
      → IsInRange given now
      → ltb_ℤ (pos 0) given.max_age ≡ true
      → is_older (cutoff_ns rt codec db retention now given.max_age) r ≡ by_age given now r
  unfolding by_age cutoff_ns
  by_age_on given now r range on =
      let age = pos_part given.max_age in
      let cutoff =
        wrap64-sub_ℕ now (unix_epoch + age) (omega (arith, range.representable))
          (omega (arith, range.epoch, range.age)) in
      rw on
        (ap (λ z. is_older z r) cutoff ∙ ended_before now unix_epoch age r.finished_at_unix_nano)

  pub by_age_off :
      (given : SqliteHistoryRetentionOptions) (now : Time) (r : HistoryRow B)
      → ltb_ℤ (pos 0) given.max_age ≡ false
      → by_age given now r ≡ false
  unfolding by_age
  by_age_off given now r off = rw off refl

  pub prune_by_age-Takes :
      (given : SqliteHistoryRetentionOptions) (now : Time) (d : D) (k : ℕ)
      → IsInRange given now
      → (prune_by_age rt codec db retention given now d).1 ≡ accepted k
      → Takes
          (by_age given now)
          (tables d)
          (tables (prune_by_age rt codec db retention given now d).0)
          k
  unfolding prune_by_age
  prune_by_age-Takes given now d k range = elim (Bool-cases (ltb_ℤ (pos 0) given.max_age)) [
    | inl on ↦
        rw (on, prune_by_age)
          (removed-Takes "prune execution history by age failed: %v"
            (db.prune_before d (cutoff_ns rt codec db retention now given.max_age))
            (by_age given now) _ (tables d) k
            (lawful.prune_before d (cutoff_ns rt codec db retention now given.max_age))
            (λ r. by_age_on given now r range on))
    | inr off ↦
        rw (off, prune_by_age)
          (λ h.
            subst (Takes (by_age given now) (tables d) (tables d)) (accepted-injective 0 k h)
              (Takes-nothing (by_age given now) (tables d) (λ r. by_age_off given now r off)))
  ]

  pub by_number_on :
      (given : SqliteHistoryRetentionOptions) (rows : List (HistoryRow B)) (r : HistoryRow B)
      → ltb_ℤ (pos 0) given.max_rows_per_job ≡ true
      → ltb (pos_part given.max_rows_per_job) (row_number rows r) ≡ by_number given rows r
  unfolding by_number
  by_number_on given rows r on = rw on refl

  pub by_number_off :
      (given : SqliteHistoryRetentionOptions) (rows : List (HistoryRow B)) (r : HistoryRow B)
      → ltb_ℤ (pos 0) given.max_rows_per_job ≡ false
      → by_number given rows r ≡ false
  unfolding by_number
  by_number_off given rows r off = rw off refl

  positive : (z : ℤ) → ltb_ℤ (pos 0) z ≡ true → z ≡ pos (pos_part z)
  positive (pos n) h = refl
  positive (negsuc n) h = absurd (ground arith)

  pub prune_by_rows-Takes :
      (given : SqliteHistoryRetentionOptions) (d : D) (k : ℕ)
      → (prune_by_rows rt codec db retention given d).1 ≡ accepted k
      → Takes
          (by_number given (tables d).history)
          (tables d)
          (tables (prune_by_rows rt codec db retention given d).0)
          k
  unfolding prune_by_rows
  prune_by_rows-Takes given d k = elim (Bool-cases (ltb_ℤ (pos 0) given.max_rows_per_job)) [
    | inl on ↦
        let law =
          subst
            (λ z.
              Removal (tables d)
                (without
                  (λ r. ltb (pos_part given.max_rows_per_job) (row_number (tables d).history r))
                  (tables d))
                (matching
                  (λ r. ltb (pos_part given.max_rows_per_job) (row_number (tables d).history r))
                  (tables d))
                (tables (db.prune_max_rows d z).0) (db.prune_max_rows d z).1)
            (sym (positive given.max_rows_per_job on))
            (lawful.prune_max_rows d (pos_part given.max_rows_per_job)) in
        rw (on, prune_by_rows)
          (removed-Takes "prune execution history by max rows failed: %v"
            (db.prune_max_rows d given.max_rows_per_job) (by_number given (tables d).history) _
            (tables d) k law (λ r. by_number_on given (tables d).history r on))
    | inr off ↦
        rw (off, prune_by_rows)
          (λ h.
            subst (Takes (by_number given (tables d).history) (tables d) (tables d))
              (accepted-injective 0 k h)
              (Takes-nothing _ (tables d) (λ r. by_number_off given (tables d).history r off)))
  ]
