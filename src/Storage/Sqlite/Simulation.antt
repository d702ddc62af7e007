-- ===== src/Storage/Sqlite/Simulation.antt =====
-- SQLiteJobsStorage as an implementation of InMemoryJobsStorage: the tables that stand for an
-- in-memory storage, and what a change of one job's status does to them.
use mathlib.Core.Path.{subst}
use mathlib.Core.Option
use go_again.Prelude.{
  String, List, [], map, Option, none, some, if◌then◌else◌, ◌≡◌, refl, sym, ap, ◌∙◌, Bool-cases,
  inl, inr,
}
use go_again.Prelude.Text.{str_eq, eq_iff}
use go_again.Runtime.{Runtime}
use go_again.Storage.{JobRun}
use go_again.Storage.Map.{lookup, insert, keys, lookup-insert}
use go_again.Storage.Memory.{JobStatusEntry, InMemoryJobsStorage}
use go_again.Storage.Sqlite.{
  Checked, error_of, SqliteStatusRecord, StatusRow, HistoryRow, Codec, Database,
  job_status_to_sqlite_status,
}
use go_again.Storage.Sqlite.Records.{Tx, ◌>>=◌, load_status_record_tx, with_write_tx}
use go_again.Storage.Sqlite.Laws.{Tables, IsSqlite, of_job}
use go_again.Storage.Sqlite.AsRows.{as_rows, lookup-as_rows, insert-as_rows}
use go_again.Storage.Sqlite.Promises.{IsLossless, IsUp}
use go_again.Storage.Sqlite.Success.{
  Ends, proceed-Ends, normal, status_row, history_row, load_none-Ends, load_some-Ends,
  with_write_tx-Ends,
}

-- The record of an entry, and the history of an ID
unfoldable pub record_of : JobStatusEntry → SqliteStatusRecord
unfolding job_status_to_sqlite_status
record_of e = record {
  status = job_status_to_sqlite_status e.status;
  active_runs = e.active_runs;
  terminal = e.terminal;
  last_sequence = e.last_sequence;
}

abbrev pub runs_of : Option JobStatusEntry → List JobRun
runs_of none = []
runs_of (some e) = e.history

module _ {E B : Type 0} {codec : Codec E B} (lossless : IsLossless codec) where
  abbrev pub entry_row : String → JobStatusEntry → StatusRow B
  entry_row id e = status_row lossless id (record_of e)

  abbrev pub run_row : String → JobRun → HistoryRow B
  run_row id r = history_row lossless id r.sequence r.payload

  -- The tables hold the same job IDs, one row for each status entry, and the runs of each entry.
  pub record Refines {F : Type 0} (t : Tables B) (m : InMemoryJobsStorage E F) : Type 0 where
    pub jobs : keys t.jobs ≡ keys m.jobs
    pub status : t.status ≡ as_rows entry_row m.status
    pub history :
        (id : String) → of_job id t.history ≡ map (run_row id) (runs_of (lookup id m.status))

  -- A written entry, with the history table behind it
  pub written-Refines :
      {F : Type 0} (t : Tables B) (m : InMemoryJobsStorage E F) (id : String) (e : JobStatusEntry)
      (rows : List (HistoryRow B))
      → Refines t m
      → ((j : String)
          → of_job j rows
            ≡ (if str_eq id j then map (run_row id) e.history else of_job j t.history))
      → Refines
          (record t { status = insert id (entry_row id e) t.status; history = rows })
          (record m { status = insert id e m.status })
  written-Refines t m id e rows r own = record {
    jobs = r.jobs;
    status = ap (insert id (entry_row id e)) r.status ∙ insert-as_rows entry_row id e m.status;
    history = λ j. own j ∙ elim (Bool-cases (str_eq id j)) [
      | inl same ↦
          rw (lookup-insert id j e m.status, same)
            (ap (λ k. map (run_row k) e.history) ((eq_iff id j).0 same))
      | inr other ↦ rw (lookup-insert id j e m.status, other) (r.history j)
    ];
  }

  pub row_found :
      {F : Type 0} (t : Tables B) (m : InMemoryJobsStorage E F) (id : String)
      → Refines t m
      → lookup id t.status ≡ Option.map (entry_row id) (lookup id m.status)
  row_found t m id r = ap (lookup id) r.status ∙ lookup-as_rows entry_row id m.status

  -- An entry that keeps the runs
  pub changed-Refines :
      {F : Type 0} (t : Tables B) (m : InMemoryJobsStorage E F) (id : String) (e : JobStatusEntry)
      → Refines t m
      → e.history ≡ runs_of (lookup id m.status)
      → Refines
          (record t { status = insert id (entry_row id e) t.status })
          (record m { status = insert id e m.status })
  changed-Refines t m id e r same_runs = written-Refines t m id e t.history r (λ j.
      elim (Bool-cases (str_eq id j)) [
        | inl same ↦ rw same (
            subst (λ k. of_job k t.history ≡ map (run_row id) e.history) ((eq_iff id j).0 same)
              (r.history id ∙ ap (map (run_row id)) (sym same_runs)))
        | inr other ↦ rw other refl
      ])

module _ {E F D B : Type 0} (rt : Runtime E F) (codec : Codec E B) (db : Database E D B)
    (tables : D → Tables B) (lossless : IsLossless codec) (lawful : IsSqlite db tables)
    (up : IsUp db tables) where
  -- A method has left the tables of the storage, and returns nil.
  unfoldable pub Keeps : D × Option E → InMemoryJobsStorage E F → Type 0
  Keeps r m = Refines lossless (tables r.0) m × (r.1 ≡ none)

  pub Ends-Keeps :
      {A : Type 0} (r : D × Checked E A) (ts : Tables B) (a : A) (m : InMemoryJobsStorage E F)
      → Ends tables r ts a
      → Refines lossless ts m
      → Keeps (r.0, error_of r.1) m
  unfolding Keeps
  Ends-Keeps r ts a m (kept, fine) refined =
      (subst (λ t. Refines lossless t m) (sym kept) refined, ap error_of fine)

  -- A transaction that loads the record of a job and then writes
  pub found-Keeps :
      {A : Type 0} (operation : String) (d : D) (id : String) (e : JobStatusEntry)
      (m m' : InMemoryJobsStorage E F) (f : Option SqliteStatusRecord → Tx E D A) (ts : Tables B)
      (a : A)
      → Refines lossless (tables d) m
      → lookup id m.status ≡ some e
      → ((t : D)
          → tables t ≡ tables d
          → Ends tables (f (some (normal lossless id (record_of e))) t) ts a)
      → Refines lossless ts m'
      → let r =
          with_write_tx rt codec db operation (load_status_record_tx rt codec db id >>= f) d in
        Keeps (r.0, error_of r.1) m'
  found-Keeps operation d id e m m' f ts a refined found steps after =
      let here =
        row_found lossless (tables d) m id refined
        ∙ ap (Option.map (entry_row lossless id)) found in
      Ends-Keeps _ ts a m'
        (with_write_tx-Ends rt codec db tables lossless lawful up operation _ d (λ t same.
          proceed-Ends tables _ f _
            (load_some-Ends rt codec db tables lossless lawful up t (tables d) id (record_of e) same
              here)
            steps))
        after

  pub missing-Keeps :
      {A : Type 0} (operation : String) (d : D) (id : String) (m m' : InMemoryJobsStorage E F)
      (f : Option SqliteStatusRecord → Tx E D A) (ts : Tables B) (a : A)
      → Refines lossless (tables d) m
      → lookup id m.status ≡ none
      → ((t : D) → tables t ≡ tables d → Ends tables (f none t) ts a)
      → Refines lossless ts m'
      → let r =
          with_write_tx rt codec db operation (load_status_record_tx rt codec db id >>= f) d in
        Keeps (r.0, error_of r.1) m'
  missing-Keeps operation d id m m' f ts a refined missing steps after =
      let here =
        row_found lossless (tables d) m id refined
        ∙ ap (Option.map (entry_row lossless id)) missing in
      Ends-Keeps _ ts a m'
        (with_write_tx-Ends rt codec db tables lossless lawful up operation _ d (λ t same.
          proceed-Ends tables _ f _
            (load_none-Ends rt codec db tables lossless lawful up t (tables d) id same here) steps))
        after
