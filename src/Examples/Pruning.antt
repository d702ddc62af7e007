-- ===== src/Examples/Pruning.antt =====
-- PruneHistory on a history of two rows.
use go_again.Prelude.{◌+◌, arith, wrap64, ℕ, ◌≡◌, refl, pos, [], ◌∷◌, map}
use go_again.Storage.Sqlite.{
  accepted, HistoryRow, no_retention, unix_epoch, SqliteHistoryRetentionOptions,
}
use go_again.Storage.Sqlite.Laws.{Tables}
use go_again.Storage.Sqlite.Methods.{prune_history, prune_history_with_retention}
use go_again.Storage.Sqlite.Pruning.{IsInRange}
use go_again.Storage.Sqlite.Retention.{PruneResult, prunes_with, prune_history-Pruned}
use go_again.Examples.Errors.{numbers}
use go_again.Examples.Jobs.{payload}
use go_again.Examples.Sqlite.{Blob, a_payload, blobs, tables, tables-IsSqlite}

-- Two runs of a job, one of which is kept.
abbrev two_rows : Tables Blob
two_rows = record {
  jobs = [];
  status = [];
  history =
      record {
        id = "a";
        sequence = 1;
        payload_json = a_payload (payload 4);
        finished_at_unix_nano = pos 5;
      }
      ∷ record {
        id = "a";
        sequence = 2;
        payload_json = a_payload (payload 6);
        finished_at_unix_nano = pos 7;
      }
      ∷ [];
}

-- Rows of up to 100 nanoseconds, and one of each job
abbrev one_each : SqliteHistoryRetentionOptions
one_each = record { max_age = pos 100; max_rows_per_job = pos 1 }

abbrev soon : ℕ
soon = unix_epoch + 9

soon-IsInRange : IsInRange one_each soon
soon-IsInRange = record { epoch = omega arith; representable = omega arith; age = omega arith }

prune_history-Pruned_example :
    PruneResult one_each soon two_rows
      (prune_history_with_retention numbers blobs tables no_retention two_rows one_each soon).0
      (prune_history_with_retention numbers blobs tables no_retention two_rows one_each soon).1
prune_history-Pruned_example =
    prune_history-Pruned numbers blobs tables no_retention (λ t. t) tables-IsSqlite
      (prunes_with one_each) two_rows soon soon-IsInRange

pruned_one :
    (prune_history_with_retention numbers blobs tables no_retention two_rows one_each soon).1
    ≡ accepted 1
unfolding prune_history_with_retention wrap64
pruned_one = refl

-- Of the two rows the one of sequence 1 ended more than 3 nanoseconds ago.
pruned_old :
    (prune_history numbers blobs tables
      (record { max_age = pos 3; max_rows_per_job = pos 0 })
      two_rows
      soon).1
    ≡ accepted 1
unfolding prune_history wrap64
pruned_old = refl

left_of_two :
    map
      (λ (r : HistoryRow Blob). r.sequence)
      (prune_history_with_retention numbers blobs tables no_retention two_rows one_each
        soon).0.history
    ≡ 2 ∷ []
unfolding prune_history_with_retention wrap64
left_of_two = refl
