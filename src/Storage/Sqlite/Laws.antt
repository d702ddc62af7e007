-- ===== src/Storage/Sqlite/Laws.antt =====
-- What the code relies on in SQLite: the tables that a database holds, and what each statement of
-- storage_sqlite.go does to them or reads from them. A statement that fails changes nothing.
use go_again.Prelude.{
  ℕ, ◌==◌, leb, ltb, ℤ, pos, leb_ℤ, ltb_ℤ, String, List, [], ◌∷◌, ◌++◌, map, Bool, true, false, not,
  ◌&&◌, Option, none, some, if◌then◌else◌, length, filter_by, any_of, ◌≡◌,
}
use go_again.Prelude.Text.{str_eq, str_leb}
use go_again.Storage.Map.{Map, lookup, insert, delete, keys}
use go_again.Storage.Sorting.{sort_by}
use go_again.Storage.Sqlite.{Checked, accepted, refused, StatusRow, HistoryRow, Rows, Database}

-- The rows of the three tables, in any order.
pub record Tables (B : Type 0) : Type 0 where
  pub jobs : Map B
  pub status : Map (StatusRow B)
  pub history : List (HistoryRow B)

abbrev pub no_rows : (B : Type 0) → Tables B
no_rows B = record { jobs = []; status = []; history = [] }

-- A statement either fails and changes nothing, or does what it says.
abbrev pub Effect : {E B : Type 0} → Tables B → Tables B → Tables B → Option E → Type 0
Effect before wanted after none = after ≡ wanted
Effect before wanted after (some err) = after ≡ before

-- The same for a DELETE, which reports how many rows it took out.
abbrev pub Removal :
    {E B : Type 0} → Tables B → Tables B → ℕ → Tables B → Checked E (Checked E ℕ) → Type 0
Removal before wanted n after (refused err) = after ≡ before
Removal before wanted n after (accepted (refused err)) = after ≡ wanted
Removal before wanted n after (accepted (accepted k)) = (after ≡ wanted) × (k ≡ n)

-- A query that succeeds returns the value.
abbrev pub Reads : {E A : Type 0} → Checked E A → A → Type 0
Reads (refused err) a = Unit
Reads (accepted b) a = b ≡ a

-- Rows that are all scanned without an error.
abbrev pub scanned : {E A : Type 0} → List A → Rows E A
scanned as_read = record { items = map (λ a. accepted a) as_read; err = none }

abbrev pub number : Bool → ℕ
number b = if b then 1 else 0

module _ {B : Type 0} where
  -- WHERE id = ?
  abbrev pub of_job : String → List (HistoryRow B) → List (HistoryRow B)
  of_job id rows = filter_by (λ (r : HistoryRow B). str_eq r.id id) rows

  -- PRIMARY KEY (id, sequence)
  abbrev pub has_run : String → ℕ → List (HistoryRow B) → Bool
  has_run id sequence rows =
      any_of (λ (r : HistoryRow B). str_eq r.id id && (r.sequence == sequence)) rows

  abbrev pub in_order : List (HistoryRow B) → List (HistoryRow B)
  in_order rows = sort_by (λ (a b : HistoryRow B). leb a.sequence b.sequence) rows

  -- id = ? AND sequence <= ?
  abbrev pub is_trimmed : String → ℤ → HistoryRow B → Bool
  is_trimmed id bound r = str_eq r.id id && leb_ℤ (pos r.sequence) bound

  -- finished_at_unix_nano > 0 AND finished_at_unix_nano < ?
  abbrev pub is_older : ℤ → HistoryRow B → Bool
  is_older cutoff r = ltb_ℤ (pos 0) r.finished_at_unix_nano && ltb_ℤ r.finished_at_unix_nano cutoff

  -- ROW_NUMBER() OVER (PARTITION BY id ORDER BY sequence DESC)
  abbrev pub row_number : List (HistoryRow B) → HistoryRow B → ℕ
  row_number rows r =
      length (filter_by (λ (q : HistoryRow B). leb r.sequence q.sequence) (of_job r.id rows))

  abbrev pub without : (HistoryRow B → Bool) → Tables B → Tables B
  without p t = record t { history = filter_by (λ r. not (p r)) t.history }

  abbrev pub matching : (HistoryRow B → Bool) → Tables B → ℕ
  matching p t = length (filter_by p t.history)

module _ {E D B : Type 0} (db : Database E D B) (tables : D → Tables B) where
  -- A database holds its tables, and a transaction sees those that it has reached.
  pub record IsSqlite : Type 0 where
    pub insert_job_new :
        (d : D) (id : String) (json : B)
        → lookup id (tables d).jobs ≡ none
        → Effect
            (tables d)
            (record (tables d) { jobs = insert id json (tables d).jobs })
            (tables (db.insert_job d id json).0)
            (db.insert_job d id json).1
    pub insert_job_again :
        (d : D) (id : String) (json old : B)
        → lookup id (tables d).jobs ≡ some old
        → (err : E) × ((db.insert_job d id json).1 ≡ some err)
          × (tables (db.insert_job d id json).0 ≡ tables d)
    pub delete_job :
        (d : D) (id : String)
        → Removal
            (tables d)
            (record (tables d) { jobs = delete id (tables d).jobs })
            (number (any_of (λ k. str_eq k id) (keys (tables d).jobs)))
            (tables (db.delete_job d id).0)
            (db.delete_job d id).1
    pub select_job :
        (d : D) (id : String)
        → any_of (λ k. str_eq k id) (keys (tables d).jobs) ≡ true
        → Reads (db.select_job d id) 1
    pub select_job_none :
        (d : D) (id : String)
        → any_of (λ k. str_eq k id) (keys (tables d).jobs) ≡ false
        → (err : E) × (db.select_job d id ≡ refused err)
    pub count_jobs : (d : D) → Reads (db.count_jobs d) (length (tables d).jobs)
    pub select_ids :
        (d : D) → Reads (db.select_ids d) (scanned (sort_by str_leb (keys (tables d).jobs)))
    pub select_status :
        (d : D) (id : String) → Reads (db.select_status d id) (lookup id (tables d).status)
    pub select_status_exists :
        (d : D) (id : String) (row : StatusRow B)
        → lookup id (tables d).status ≡ some row
        → Reads (db.select_status_exists d id) 1
    pub select_status_exists_none :
        (d : D) (id : String)
        → lookup id (tables d).status ≡ none
        → (err : E) × (db.select_status_exists d id ≡ refused err)
    pub select_statuses :
        (d : D)
        → Reads (db.select_statuses d) (
            scanned (
              map
                (λ (p : String × StatusRow B). (p.0, p.1.status_json, p.1.active_runs))
                (sort_by (λ (p q : String × StatusRow B). str_leb p.0 q.0) (tables d).status)))
    pub upsert_status :
        (d : D) (id : String) (row : StatusRow B)
        → Effect
            (tables d)
            (record (tables d) { status = insert id row (tables d).status })
            (tables (db.upsert_status d id row).0)
            (db.upsert_status d id row).1
    pub select_history :
        (d : D) (id : String)
        → Reads (db.select_history d id) (
            scanned (
              map
                (λ (r : HistoryRow B). (r.sequence, r.payload_json))
                (in_order (of_job id (tables d).history))))
    pub insert_history :
        (d : D) (row : HistoryRow B)
        → has_run row.id row.sequence (tables d).history ≡ false
        → Effect
            (tables d)
            (record (tables d) { history = (tables d).history ++ row ∷ [] })
            (tables (db.insert_history d row).0)
            (db.insert_history d row).1
    pub trim_history :
        (d : D) (id : String) (bound : ℤ)
        → Effect
            (tables d)
            (without (is_trimmed id bound) (tables d))
            (tables (db.trim_history d id bound).0)
            (db.trim_history d id bound).1
    pub prune_job_before :
        (d : D) (id : String) (cutoff : ℤ)
        → Removal
            (tables d)
            (without (λ r. str_eq r.id id && is_older cutoff r) (tables d))
            (matching (λ r. str_eq r.id id && is_older cutoff r) (tables d))
            (tables (db.prune_job_before d id cutoff).0)
            (db.prune_job_before d id cutoff).1
    pub prune_before :
        (d : D) (cutoff : ℤ)
        → Removal
            (tables d)
            (without (is_older cutoff) (tables d))
            (matching (is_older cutoff) (tables d))
            (tables (db.prune_before d cutoff).0)
            (db.prune_before d cutoff).1
    pub prune_max_rows :
        (d : D) (n : ℕ)
        → Removal
            (tables d)
            (without (λ r. ltb n (row_number (tables d).history r)) (tables d))
            (matching (λ r. ltb n (row_number (tables d).history r)) (tables d))
            (tables (db.prune_max_rows d (pos n)).0)
            (db.prune_max_rows d (pos n)).1
    pub begin : (d t : D) → db.begin d ≡ accepted t → tables t ≡ tables d
    pub commit :
        (d t : D) → Effect (tables d) (tables t) (tables (db.commit d t).0) (db.commit d t).1
    pub rollback : (d t : D) → tables (db.rollback d t) ≡ tables d
