-- ===== src/Examples/Sqlite.antt =====
-- A database that holds its tables and never fails, and the SQLite storage on it.
use mathlib.Core.Option.{some-injective}
use go_again.Prelude.{
  arith, ℕ, ◌≡◌, refl, sym, pos, pos_part, ltb, List, String, [], ◌∷◌, ◌++◌, map, none, some, Bool,
  true, ◌&&◌, ◌==◌, length, any_of, ◌⊎◌, if◌then◌else◌,
}
use go_again.Prelude.Text.{str_eq, str_leb}
use go_again.Storage.{CallbackPayload, Time, scheduled}
use go_again.Storage.Map.{lookup, insert, delete, keys}
use go_again.Storage.Sorting.{sort_by}
use go_again.Storage.Operations.{Call, saves, deletes, upserts, starts, records}
use go_again.Storage.Sqlite.{
  Checked, accepted, refused, SqliteStatusData, StatusRow, HistoryRow, Codec, Database,
  no_retention,
}
use go_again.Storage.Sqlite.Laws.{
  Tables, no_rows, IsSqlite, scanned, number, of_job, has_run, in_order, is_trimmed, is_older,
  row_number, without, matching,
}
use go_again.Storage.Sqlite.Promises.{IsLossless, IsUp}
use go_again.Storage.Sqlite.AsRows.{has_key_some, has_key_none}
use go_again.Storage.Memory
use go_again.Storage.Memory.{new_in_memory_jobs_storage}
use go_again.Storage.Operations
use go_again.Storage.Sqlite.Calls
use go_again.Storage.Sqlite.Methods.{prune_history, prune_history_with_retention}
use go_again.Storage.Sqlite.Methods
use go_again.Storage.Sqlite.Atomic.{failed_write_changes_nothing}
use go_again.Storage.Sqlite.Reading.{ShowsSame}
use go_again.Storage.Sqlite.Agreement.{error_in_memory, sqlite_refines_memory}
use go_again.Examples.Errors.{numbers, numbers-Unwraps}
use go_again.Examples.Jobs.{payload, hourly}

pub data Blob : Type 0 where
  a_job : String → Blob
  a_status : SqliteStatusData → Blob
  a_payload : CallbackPayload → Blob

abbrev read_status : Blob → Checked ℕ SqliteStatusData
read_status (a_job id) = refused 51
read_status (a_status status) = accepted status
read_status (a_payload p) = refused 51

abbrev read_payload : Blob → Checked ℕ CallbackPayload
read_payload (a_job id) = refused 52
read_payload (a_status status) = refused 52
read_payload (a_payload p) = accepted p

abbrev pub blobs : Codec ℕ Blob
blobs = record {
  encode_job = λ id. accepted (a_job id);
  encode_status = λ status. accepted (a_status status);
  decode_status = read_status;
  encode_payload = λ p. accepted (a_payload p);
  decode_payload = read_payload;
}

blobs-IsLossless : IsLossless blobs
blobs-IsLossless = record {
  job_json = a_job;
  encode_job = λ id. refl;
  status_json = a_status;
  encode_status = λ status. refl;
  decode_status = λ status. refl;
  payload_json = a_payload;
  encode_payload = λ p. refl;
  decode_payload = λ p. refl;
}

abbrev stored : String → Tables Blob → Bool
stored id t = any_of (λ k. str_eq k id) (keys t.jobs)

abbrev stored_status : String → Tables Blob → Bool
stored_status id t = any_of (λ k. str_eq k id) (keys t.status)

abbrev deleted : (HistoryRow Blob → Bool) → Tables Blob → Tables Blob × Checked ℕ (Checked ℕ ℕ)
deleted p t = (without p t, accepted (accepted (matching p t)))

abbrev pub tables : Database ℕ (Tables Blob) Blob
tables = record {
  insert_job = λ t id json.
      if stored id t then (t, some 61) else (record t { jobs = insert id json t.jobs }, none);
  delete_job =
      λ t id. (record t { jobs = delete id t.jobs }, accepted (accepted (number (stored id t))));
  select_job = λ t id. if stored id t then accepted 1 else refused 62;
  count_jobs = λ t. accepted (length t.jobs);
  select_ids = λ t. accepted (scanned (sort_by str_leb (keys t.jobs)));
  select_status = λ t id. accepted (lookup id t.status);
  select_status_exists = λ t id. if stored_status id t then accepted 1 else refused 62;
  select_statuses = λ t. accepted (
      scanned (
        map (λ (p : String × StatusRow Blob). (p.0, p.1.status_json, p.1.active_runs))
          (sort_by (λ (p q : String × StatusRow Blob). str_leb p.0 q.0) t.status)));
  upsert_status = λ t id row. (record t { status = insert id row t.status }, none);
  select_history = λ t id. accepted (
      scanned (
        map (λ (r : HistoryRow Blob). (r.sequence, r.payload_json))
          (in_order (of_job id t.history))));
  insert_history = λ t row.
      if has_run row.id row.sequence t.history
      then (t, some 61)
      else (record t { history = t.history ++ row ∷ [] }, none);
  trim_history = λ t id bound. (without (is_trimmed id bound) t, none);
  prune_job_before = λ t id cutoff. deleted (λ r. str_eq r.id id && is_older cutoff r) t;
  prune_before = λ t cutoff. deleted (is_older cutoff) t;
  prune_max_rows = λ t n. deleted (λ r. ltb (pos_part n) (row_number t.history r)) t;
  begin = λ t. accepted t;
  commit = λ d t. (t, none);
  rollback = λ d t. d;
  is_unique_violation = λ err. err == 61;
}

accepted_same :
    (d t : Tables Blob) → ◌≡◌ {A = Checked ℕ (Tables Blob)} (accepted d) (accepted t) → d ≡ t
accepted_same d t h = cc

pub tables-IsSqlite : IsSqlite tables (λ t. t)
tables-IsSqlite = record {
  insert_job_new = λ t id json h. rw (has_key_none id t.jobs h) refl;
  insert_job_again = λ t id json old h. rw (has_key_some id old t.jobs h) (61, refl, refl);
  delete_job = λ t id. (refl, refl);
  select_job = λ t id h. rw h refl;
  select_job_none = λ t id h. rw h (62, refl);
  count_jobs = λ t. refl;
  select_ids = λ t. refl;
  select_status = λ t id. refl;
  select_status_exists = λ t id row h. rw (has_key_some id row t.status h) refl;
  select_status_exists_none = λ t id h. rw (has_key_none id t.status h) (62, refl);
  select_statuses = λ t. refl;
  upsert_status = λ t id row. refl;
  select_history = λ t id. refl;
  insert_history = λ t row h. rw h refl;
  trim_history = λ t id bound. refl;
  prune_job_before = λ t id cutoff. (refl, refl);
  prune_before = λ t cutoff. (refl, refl);
  prune_max_rows = λ t n. (refl, refl);
  begin = λ d t h. sym (accepted_same d t h);
  commit = λ d t. refl;
  rollback = λ d t. refl;
}

violated :
    (t : Tables Blob) (id : String) (json old : Blob) (err : ℕ)
    → lookup id t.jobs ≡ some old
    → (tables.insert_job t id json).1 ≡ some err
    → tables.is_unique_violation err ≡ true
violated t id json old err h e =
    let this : 61 ≡ err = some-injective _ _ (rw (has_key_some id old t.jobs h) at e) in
    ground (arith, this)

tables-IsUp : IsUp tables (λ t. t)
tables-IsUp = record {
  insert_job = λ t id json h. rw (has_key_none id t.jobs h) refl;
  insert_job_again = λ t id json old err h e. violated t id json old err h e;
  delete_job = λ t id. (_, refl);
  select_job = λ t id h. rw h (1, refl);
  count_jobs = λ t. (_, refl);
  select_ids = λ t. (_, refl);
  select_status = λ t id. (_, refl);
  select_status_exists = λ t id row h. rw (has_key_some id row t.status h) (1, refl);
  select_statuses = λ t. (_, refl);
  upsert_status = λ t id row. refl;
  select_history = λ t id. (_, refl);
  insert_history = λ t row h. rw h refl;
  trim_history = λ t id bound. refl;
  begin = λ t. (t, refl);
  commit = λ d t. refl;
}

abbrev calls : List (Time × Call ℕ ℕ)
calls =
    (1, saves hourly)
    ∷ (1, upserts "a" scheduled)
    ∷ (5, starts "a")
    ∷ (6, records "a" (payload 4) (pos 1))
    ∷ (7, records "a" (payload 6) (pos 1))
    ∷ []

sqlite_refines_memory_example :
    let d = Calls.run numbers blobs tables no_retention (no_rows Blob) calls in
    let m = Operations.run numbers (new_in_memory_jobs_storage ℕ ℕ) calls in
    ShowsSame numbers blobs tables (λ t. t) blobs-IsLossless tables-IsSqlite tables-IsUp d m
    × ((c : Time × Call ℕ ℕ)
        → (Calls.step numbers blobs tables no_retention d c).1 ≡ error_in_memory numbers m c)
    × ((id : String)
        → (Methods.delete_job numbers blobs tables no_retention d id).1
          ≡ (Memory.delete_job m id).1)
sqlite_refines_memory_example =
    sqlite_refines_memory numbers blobs tables (λ t. t) blobs-IsLossless tables-IsSqlite tables-IsUp
      (no_rows Blob) calls refl

-- A second Save of the same job fails.
abbrev saved : Tables Blob
saved = record { jobs = ("a", a_job "a") ∷ []; status = []; history = [] }

second_save : (Calls.step numbers blobs tables no_retention saved (2, saves hourly)).1 ≡ some 26
unfolding Calls.step insert lookup Methods.save
second_save = refl

failed_write_changes_nothing_example :
    ((Calls.step numbers blobs tables no_retention saved (2, saves hourly)).0 ≡ saved)
    × ((numbers.is 26 numbers.storage_operation ≡ true)
        ⊎ (numbers.is 26 numbers.job_already_exists ≡ true))
failed_write_changes_nothing_example =
    failed_write_changes_nothing numbers blobs tables no_retention (λ t. t) tables-IsSqlite
      numbers-Unwraps saved (2, saves hourly) 26 second_save
