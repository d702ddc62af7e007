-- ===== src/Storage/Sqlite/Success.antt =====
-- storage_sqlite.go where no statement fails: what the steps of a transaction do to the tables.
use mathlib.Core.Path.{subst}
use go_again.Prelude.{
  ℕ, ◌==◌, pos, leb_ℤ, sub_ℕ, ◌+◌, String, ◌++◌, [], ◌∷◌, Bool, true, false, Option, none, some,
  if◌then◌else◌, ◌≡◌, refl, sym, ap, ◌∙◌, arith, Bool-cases, inl, inr,
}
use go_again.Runtime.{Runtime}
use go_again.Storage.{CallbackPayload}
use go_again.Storage.Map.{lookup, insert}
use go_again.Storage.Sqlite.{
  Checked, accepted, refused, SqliteStatusRecord, StatusRow, HistoryRow, Codec, Database,
  payload_finished_at_unix_nano,
}
use go_again.Storage.Sqlite.Records.{
  Tx, proceed, executed, marshaled, decode_sqlite_status, load_status_record_query_row,
  load_status_record_tx, upsert_status_record_tx, insert_history_tx, trim_history_tx, committed,
  finish_tx, with_write_tx,
}
use go_again.Storage.Sqlite.Laws.{Tables, IsSqlite, Effect, has_run, is_trimmed, without}
use go_again.Storage.Sqlite.Promises.{IsLossless, IsUp, answer}

pub accepted-injective :
    {E A : Type 0} (a b : A) → ◌≡◌ {A = Checked E A} (accepted a) (accepted b) → a ≡ b
accepted-injective a b h = cc

module _ {E D B : Type 0} (tables : D → Tables B) where
  -- A step, or a method, returns the value and leaves the tables.
  abbrev pub Ends : {A : Type 0} → D × Checked E A → Tables B → A → Type 0
  Ends r after a = (tables r.0 ≡ after) × (r.1 ≡ accepted a)

  pub proceed-Ends :
      {A C : Type 0} (r : D × Checked E A) (f : A → Tx E D C) {middle after : Tables B} (a : A)
      {c : C}
      → Ends r middle a
      → ((d : D) → tables d ≡ middle → Ends (f a d) after c)
      → Ends (proceed r f) after c
  proceed-Ends (d, accepted x) f {middle} {after} a {c} (m, e) next =
      subst (λ y. Ends (f y d) after c) (accepted-injective a x (sym e)) (next d m)
  proceed-Ends (d, refused err) f a (m, e) next = absurd cc

  pub effect-Ends :
      (r : D × Option E) (before wanted : Tables B)
      → Effect before wanted (tables r.0) r.1
      → r.1 ≡ none
      → tables r.0 ≡ wanted
  effect-Ends (d, none) before wanted effect h = effect
  effect-Ends (d, some err) before wanted effect h = absurd cc

-- The row that upsertStatusRecordTx writes for a record, and the record that is read from it.
module _ {E B : Type 0} {codec : Codec E B} (lossless : IsLossless codec) where
  abbrev pub normal : String → SqliteStatusRecord → SqliteStatusRecord
  normal id rec = record rec {
    status = record rec.status { job_id = id; active_runs = rec.active_runs };
  }

  abbrev pub status_row : String → SqliteStatusRecord → StatusRow B
  status_row id rec = record {
    status_json =
        lossless.status_json (record rec.status { job_id = id; active_runs = rec.active_runs });
    active_runs = rec.active_runs;
    terminal = if rec.terminal then 1 else 0;
    last_sequence = rec.last_sequence;
  }

  abbrev pub history_row : String → ℕ → CallbackPayload → HistoryRow B
  history_row id sequence payload = record {
    id = id;
    sequence = sequence;
    payload_json = lossless.payload_json payload;
    finished_at_unix_nano = payload_finished_at_unix_nano payload;
  }

module _ {E F D B : Type 0} (rt : Runtime E F) (codec : Codec E B) (db : Database E D B)
    (tables : D → Tables B) (lossless : IsLossless codec) (lawful : IsSqlite db tables)
    (up : IsUp db tables) where
  executed-Ends :
      (message : String) (r : D × Option E) {wanted : Tables B}
      → tables r.0 ≡ wanted
      → r.1 ≡ none
      → Ends tables (executed rt codec db message r) wanted tt
  unfolding executed
  executed-Ends message (d, none) e h = (e, refl)
  executed-Ends message (d, some err) e h = absurd cc

  terminal_lem : (b : Bool) → ((if b then 1 else 0) == 1) ≡ b
  terminal_lem true = refl
  terminal_lem false = refl

  -- What is read of a row that the storage has written
  pub query_row_lem :
      (id : String) (rec : SqliteStatusRecord)
      → load_status_record_query_row rt codec db (accepted (some (status_row lossless id rec)))
        ≡ accepted (some (normal lossless id rec))
  unfolding load_status_record_query_row decode_sqlite_status
  query_row_lem id rec =
      rw
        (
          lossless.decode_status (normal lossless id rec).status,
          terminal_lem rec.terminal,
          load_status_record_query_row,
          decode_sqlite_status,
        )
        refl

  pub load_none-Ends :
      (d : D) (ts : Tables B) (id : String)
      → tables d ≡ ts
      → lookup id ts.status ≡ none
      → Ends tables (load_status_record_tx rt codec db id d) ts none
  unfolding load_status_record_tx load_status_record_query_row
  load_none-Ends d ts id e h = (
    e,
    rw
        (
          answer _ _ (lawful.select_status d id) (up.select_status d id),
          e,
          h,
          load_status_record_query_row,
        )
        refl,
  )

  pub load_some-Ends :
      (d : D) (ts : Tables B) (id : String) (rec : SqliteStatusRecord)
      → tables d ≡ ts
      → lookup id ts.status ≡ some (status_row lossless id rec)
      → Ends tables (load_status_record_tx rt codec db id d) ts (some (normal lossless id rec))
  unfolding load_status_record_tx
  load_some-Ends d ts id rec e h = (
    e,
    rw (answer _ _ (lawful.select_status d id) (up.select_status d id), e, h)
        (query_row_lem id rec),
  )

  pub upsert_status_record_tx-Ends :
      (d : D) (ts : Tables B) (id : String) (rec : SqliteStatusRecord)
      → tables d ≡ ts
      → Ends tables
          (upsert_status_record_tx rt codec db id rec d)
          (record ts { status = insert id (status_row lossless id rec) ts.status })
          tt
  unfolding upsert_status_record_tx marshaled
  upsert_status_record_tx-Ends d ts id rec e =
      let wrote =
        effect-Ends tables _ _ _ (lawful.upsert_status d id (status_row lossless id rec))
          (up.upsert_status d id _) in
      rw lossless.encode_status (
        executed-Ends "upsert status failed: %v"
          (db.upsert_status d id (status_row lossless id rec)) (rw e at wrote)
          (up.upsert_status d id _))

  pub insert_history_tx-Ends :
      (d : D) (ts : Tables B) (id : String) (sequence : ℕ) (payload : CallbackPayload)
      → tables d ≡ ts
      → has_run id sequence ts.history ≡ false
      → Ends tables
          (insert_history_tx rt codec db id sequence payload d)
          (record ts { history = ts.history ++ history_row lossless id sequence payload ∷ [] })
          tt
  unfolding insert_history_tx marshaled
  insert_history_tx-Ends d ts id sequence payload e fresh =
      let row = history_row lossless id sequence payload in
      let new = ap (λ (t : Tables B). has_run id sequence t.history) e ∙ fresh in
      let wrote =
        effect-Ends tables _ _ _ (lawful.insert_history d row new) (up.insert_history d row new) in
      rw lossless.encode_payload (
        executed-Ends "insert execution history failed: %v" (db.insert_history d row)
          (rw e at wrote) (up.insert_history d row new))

  pub trim_history_tx-Ends :
      (d : D) (ts : Tables B) (id : String) (sequence limit : ℕ)
      → tables d ≡ ts
      → Ends tables
          (trim_history_tx rt codec db id sequence (pos limit) d)
          (if leb_ℤ (sub_ℕ sequence limit) (pos 0)
            then ts
            else without (is_trimmed id (sub_ℕ sequence limit)) ts)
          tt
  unfolding trim_history_tx
  trim_history_tx-Ends d ts id sequence limit e =
      let plus : sequence + 0 ≡ sequence = omega arith in
      elim (Bool-cases (leb_ℤ (sub_ℕ sequence limit) (pos 0))) [
        | inl met ↦ rw (plus, met, trim_history_tx) (e, refl)
        | inr unmet ↦
            let bound = sub_ℕ sequence limit in
            let did =
              effect-Ends tables _ _ _ (lawful.trim_history d id bound)
                (up.trim_history d id bound) in
            rw (plus, unmet, trim_history_tx)
              (executed-Ends "trim execution history failed: %v" (db.trim_history d id bound)
                (rw e at did) (up.trim_history d id bound))
      ]

  committed-Ends :
      {A : Type 0} (operation : String) (a : A) (r : D × Option E) {ts : Tables B}
      → tables r.0 ≡ ts
      → r.1 ≡ none
      → Ends tables (committed rt codec db operation a r) ts a
  unfolding committed
  committed-Ends operation a (d, none) e h = (e, refl)
  committed-Ends operation a (d, some err) e h = absurd cc

  finish_tx-Ends :
      {A : Type 0} (operation : String) (d : D) (r : D × Checked E A) {ts : Tables B} {a : A}
      → Ends tables r ts a
      → Ends tables (finish_tx rt codec db operation d r) ts a
  unfolding finish_tx
  finish_tx-Ends operation d (t, accepted x) {ts} {a} (e, h) =
      subst (λ y. Ends tables (committed rt codec db operation y (db.commit d t)) ts a)
        (accepted-injective a x (sym h))
        (committed-Ends operation a (db.commit d t)
          (effect-Ends tables _ _ _ (lawful.commit d t) (up.commit d t) ∙ e) (up.commit d t))
  finish_tx-Ends operation d (t, refused err) (e, h) = absurd cc

  pub with_write_tx-Ends :
      {A : Type 0} (operation : String) (fn : Tx E D A) (d : D) {ts : Tables B} {a : A}
      → ((t : D) → tables t ≡ tables d → Ends tables (fn t) ts a)
      → Ends tables (with_write_tx rt codec db operation fn d) ts a
  unfolding with_write_tx
  with_write_tx-Ends operation fn d {ts} {a} steps =
      let (t, begun) = up.begin d in
      rw (begun, with_write_tx)
        (finish_tx-Ends operation d (fn t) (steps t (lawful.begin d t begun)))
