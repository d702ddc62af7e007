-- ===== src/Storage/Sqlite/Retention.antt =====
-- storage_sqlite.go: PruneHistory and PruneHistoryWithRetention.
use mathlib.Core.Path.{subst}
use go_again.Prelude.{
  ℕ, ◌+◌, ◌≤◌, pos, pos_part, ltb_ℤ, leb_ℤ, String, Bool, true, false, not, ◌&&◌, if◌then◌else◌,
  length, filter_by, All, ◌≡◌, refl, ap, sym, ◌∙◌, arith, Bool-cases, inl, inr,
}
use go_again.Runtime.{Runtime}
use go_again.Storage.{Time}
use go_again.Storage.Sqlite.{
  accepted, SqliteHistoryRetentionOptions, HistoryRow, Checked, refused, Codec, Database,
}
use go_again.Storage.Sqlite.Records.{Tx, ◌>>=◌, pure}
use go_again.Storage.Sqlite.Methods.{
  prune_by_age, prune_by_rows, prune_history_with_retention, prune_history,
}
use go_again.Storage.Sqlite.Laws.{Tables, IsSqlite, of_job}
use go_again.Storage.Sqlite.Success.{accepted-injective}
use go_again.Storage.Sqlite.AsRows.{filter_by-agree}
use go_again.Storage.Sqlite.RowCounts.{
  All-weaken, length-filter_by-not, All-filter_by, All-filter_by-keeps, length-numbered-le,
}
use go_again.Storage.Sqlite.Returned.{
  with_write_tx-accepted, with_write_tx-refused, proceed-accepted,
}
use go_again.Storage.Sqlite.Pruning.{
  by_age, by_number, by_number_on, by_age_off, by_number_off, Takes-nothing, Takes, IsInRange,
  prune_by_age-Takes, prune_by_rows-Takes,
}

-- What both steps together have done
pub record Pruned {B : Type 0} (given : SqliteHistoryRetentionOptions) (now : Time)
    (before after : Tables B) (n : ℕ) : Type 0 where
  pub jobs : after.jobs ≡ before.jobs
  pub status : after.status ≡ before.status
  pub kept :
      let young_rows = filter_by (λ r. not (by_age given now r)) before.history in
      after.history ≡ filter_by (λ r. not (by_number given young_rows r)) young_rows
  pub count : length before.history ≡ length after.history + n
  pub young : All (λ r. by_age given now r ≡ false) after.history
  pub few :
      (id : String)
      → (if ltb_ℤ (pos 0) given.max_rows_per_job then length (of_job id after.history) else 0)
        ≤ pos_part given.max_rows_per_job

-- The calls that prune: PruneHistory, and PruneHistoryWithRetention with its options.
pub data PruneCall : Type 0 where
  prunes : PruneCall
  prunes_with : SqliteHistoryRetentionOptions → PruneCall

-- What a call of either has done, by what it returns.
abbrev pub PruneResult :
    {E B : Type 0}
    → SqliteHistoryRetentionOptions
    → Time
    → Tables B
    → Tables B
    → Checked E ℕ
    → Type 0
PruneResult given now before after (accepted n) = Pruned given now before after n
PruneResult given now before after (refused err) = after ≡ before

module _ {E F D B : Type 0} (rt : Runtime E F) (codec : Codec E B) (db : Database E D B)
    (retention : SqliteHistoryRetentionOptions) (tables : D → Tables B)
    (lawful : IsSqlite db tables) where
  Takes-counts :
      (p : HistoryRow B → Bool) (before after : Tables B) (n : ℕ)
      → Takes rt codec db retention tables lawful p before after n
      → (after.history ≡ filter_by (λ r. not (p r)) before.history)
        × (length before.history ≡ length after.history + n)
  unfolding Takes
  Takes-counts p before after n (e, c) =
      let rows = ap (λ (t : Tables B). t.history) e in
      (rows, omega (arith, length-filter_by-not p before.history, ap length rows, c))

  both-Pruned :
      (given : SqliteHistoryRetentionOptions) (now : Time) (t t1 t2 : Tables B) (a b n : ℕ)
      → Takes rt codec db retention tables lawful (by_age given now) t t1 a
      → Takes rt codec db retention tables lawful (by_number given t1.history) t1 t2 b
      → a + b ≡ n
      → Pruned given now t t2 n
  unfolding Takes
  both-Pruned given now t t1 t2 a b n first second sum =
      let Young : HistoryRow B → Type 0 = λ r. by_age given now r ≡ false in
      let (rows1, count1) = Takes-counts _ t t1 a first in
      let (rows2, count2) = Takes-counts _ t1 t2 b second in
      record {
        jobs = ap (λ (t : Tables B). t.jobs) second.0 ∙ ap (λ (t : Tables B). t.jobs) first.0;
        status = ap (λ (t : Tables B). t.status) second.0 ∙ ap (λ (t : Tables B). t.status) first.0;
        kept = rows2 ∙ ap (λ rows. filter_by (λ r. not (by_number given rows r)) rows) rows1;
        count = omega (arith, count1, count2, sum);
        young = subst (All Young) (sym rows2) (
            All-filter_by-keeps Young _ t1.history (
              subst (All Young) (sym rows1)
                (All-weaken _ Young _ (λ r h. ground arith) (All-filter_by _ t.history))));
        few = λ id. elim (Bool-cases (ltb_ℤ (pos 0) given.max_rows_per_job)) [
          | inl on ↦
              let most = pos_part given.max_rows_per_job in
              let same = filter_by-agree _ _ t1.history (λ r.
                ap not
                  (sym (by_number_on rt codec db retention tables lawful given t1.history r on))) in
              rw on (
                subst (λ rows. length (of_job id rows) ≤ most) (sym (rows2 ∙ same))
                  (length-numbered-le most id t1.history))
          | inr off ↦ rw off (omega arith)
        ];
      }

  begun_on :
      (given : SqliteHistoryRetentionOptions) (now : Time) (before : Tables B) (t : D)
      (after : Tables B) (n : ℕ)
      → tables t ≡ before
      → Pruned given now (tables t) after n
      → Pruned given now before after n
  begun_on given now before t after n begun p = subst (λ b. Pruned given now b after n) begun p

  -- Neither option is set.
  unset-Pruned :
      (given : SqliteHistoryRetentionOptions) (now : Time) (t : Tables B)
      → (leb_ℤ given.max_age (pos 0) && leb_ℤ given.max_rows_per_job (pos 0)) ≡ true
      → Pruned given now t t 0
  unset-Pruned given now t unset =
      both-Pruned given now t t t 0 0 0
        (Takes-nothing rt codec db retention tables lawful _ t
          (λ r. by_age_off rt codec db retention tables lawful given now r (ground arith)))
        (Takes-nothing rt codec db retention tables lawful _ t
          (λ r. by_number_off rt codec db retention tables lawful given t.history r (ground arith)))
        refl

  steps-Pruned :
      (given : SqliteHistoryRetentionOptions) (now : Time) (t : D) (n : ℕ)
      → IsInRange given now
      → let steps : Tx E D ℕ = prune_by_age rt codec db retention given now >>= (λ by_age.
        prune_by_rows rt codec db retention given >>= (λ by_rows. pure (by_age + by_rows))) in
        (steps t).1 ≡ accepted n → Pruned given now (tables t) (tables (steps t).0) n
  steps-Pruned given now t n range h =
      let first = prune_by_age rt codec db retention given now t in
      let second = prune_by_rows rt codec db retention given first.0 in
      let (a, ran, rest, same) =
        proceed-accepted rt codec db retention tables lawful first
          (λ by_age.
            prune_by_rows rt codec db retention given >>= (λ by_rows. pure (by_age + by_rows)))
          n h in
      let (b, ran', sum, same') =
        proceed-accepted rt codec db retention tables lawful second (λ by_rows. pure (a + by_rows))
          n rest in
      subst (λ d. Pruned given now (tables t) (tables d) n) (sym (same ∙ same'))
        (both-Pruned given now (tables t) (tables first.0) (tables second.0) a b n
          (prune_by_age-Takes rt codec db retention tables lawful given now t a range ran)
          (prune_by_rows-Takes rt codec db retention tables lawful given first.0 b ran')
          (accepted-injective (a + b) n sum))

  accepted-Pruned :
      (d : D) (given : SqliteHistoryRetentionOptions) (now : Time) (n : ℕ)
      → IsInRange given now
      → (prune_history_with_retention rt codec db retention d given now).1 ≡ accepted n
      → Pruned given now
          (tables d)
          (tables (prune_history_with_retention rt codec db retention d given now).0)
          n
  unfolding prune_history_with_retention
  accepted-Pruned d given now n range =
      elim (Bool-cases (leb_ℤ given.max_age (pos 0) && leb_ℤ given.max_rows_per_job (pos 0))) [
        | inl unset ↦
            rw (unset, prune_history_with_retention)
              (λ h.
                subst (Pruned given now (tables d) (tables d)) (accepted-injective 0 n h)
                  (unset-Pruned given now (tables d) unset))
        | inr set ↦
            rw (set, prune_history_with_retention)
              (λ h.
                let (t, begun, ran, kept) =
                  with_write_tx-accepted rt codec db retention tables lawful "prune history" _ n d
                    h in
                subst (λ after. Pruned given now (tables d) after n) (sym kept)
                  (begun_on given now (tables d) t _ n begun
                    (steps-Pruned given now t n range ran)))
      ]

  refused-Pruned :
      (d : D) (given : SqliteHistoryRetentionOptions) (now : Time) (err : E)
      → (prune_history_with_retention rt codec db retention d given now).1 ≡ refused err
      → tables (prune_history_with_retention rt codec db retention d given now).0 ≡ tables d
  unfolding prune_history_with_retention
  refused-Pruned d given now err =
      elim (Bool-cases (leb_ℤ given.max_age (pos 0) && leb_ℤ given.max_rows_per_job (pos 0))) [
        | inl unset ↦ rw (unset, prune_history_with_retention) (λ h. refl)
        | inr set ↦
            rw (set, prune_history_with_retention)
              (with_write_tx-refused rt codec db retention tables lawful "prune history" _ d err)
      ]

  either-PruneResult :
      (given : SqliteHistoryRetentionOptions) (now : Time) (before : Tables B) (r : D × Checked E ℕ)
      → ((n : ℕ) → r.1 ≡ accepted n → Pruned given now before (tables r.0) n)
      → ((err : E) → r.1 ≡ refused err → tables r.0 ≡ before)
      → PruneResult given now before (tables r.0) r.1
  either-PruneResult given now before (d, accepted n) f g = f n refl
  either-PruneResult given now before (d, refused err) f g = g err refl

  -- The options that a call goes by, and the call itself
  abbrev pub options_of : PruneCall → SqliteHistoryRetentionOptions
  options_of prunes = retention
  options_of (prunes_with given) = given

  abbrev pub pruned_by : PruneCall → D → Time → D × Checked E ℕ
  pruned_by prunes d now = prune_history rt codec db retention d now
  pruned_by (prunes_with given) d now =
      prune_history_with_retention rt codec db retention d given now

  -- PruneHistory, with the retention of the storage, and PruneHistoryWithRetention, with its
  -- argument: if the call returns an error, the tables are as they were; otherwise the jobs and the
  -- statuses are, and of the history exactly the rows are left that did not end longer ago than
  -- MaxAge, where it is positive, or have no end, and, of these, the latest of each job, as many as
  -- MaxRowsPerJob, where it is positive; and the number that the call returns is the number of rows
  -- that are gone. It assumes that the statements do what SQLite documents, that MaxAge is an
  -- int64, and that the moment of the call is one of nanoseconds since 1970.
  pub prune_history-Pruned :
      (call : PruneCall) (d : D) (now : Time)
      → IsInRange (options_of call) now
      → PruneResult
          (options_of call)
          now
          (tables d)
          (tables (pruned_by call d now).0)
          (pruned_by call d now).1
  unfolding prune_history
  prune_history-Pruned prunes d now range =
      either-PruneResult retention now (tables d) _ (λ n. accepted-Pruned d retention now n range)
        (λ err. refused-Pruned d retention now err)
  prune_history-Pruned (prunes_with given) d now range =
      either-PruneResult given now (tables d) _ (λ n. accepted-Pruned d given now n range)
        (λ err. refused-Pruned d given now err)
