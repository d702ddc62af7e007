-- ===== src/Storage/Sqlite/Promises.antt =====
-- storage_sqlite.go where nothing fails: encoders that accept every value, and statements that
-- succeed wherever no constraint forbids it.
use go_again.Prelude.{ℕ, ℤ, String, true, false, none, some, ◌≡◌, ap, any_of}
use go_again.Prelude.Text.{str_eq}
use go_again.Storage.{CallbackPayload}
use go_again.Storage.Map.{lookup, keys}
use go_again.Storage.Sqlite.{
  Checked, accepted, refused, SqliteStatusData, StatusRow, HistoryRow, Codec, Database,
}
use go_again.Storage.Sqlite.Laws.{Tables, Reads, has_run}

-- json.Marshal encodes every value that the storage writes, and json.Unmarshal reads it back. A response
-- body is a text here, as it is in JSON; bytes that are no UTF-8, as readBody leaves where it cuts a
-- body inside a character, are replaced by json.Marshal and are left out.
pub record IsLossless {E B : Type 0} (codec : Codec E B) : Type 0 where
  pub job_json : String → B
  pub encode_job : (id : String) → codec.encode_job id ≡ accepted (job_json id)
  pub status_json : SqliteStatusData → B
  pub encode_status :
      (data_ : SqliteStatusData) → codec.encode_status data_ ≡ accepted (status_json data_)
  pub decode_status :
      (data_ : SqliteStatusData) → codec.decode_status (status_json data_) ≡ accepted data_
  pub payload_json : CallbackPayload → B
  pub encode_payload :
      (payload : CallbackPayload) → codec.encode_payload payload ≡ accepted (payload_json payload)
  pub decode_payload :
      (payload : CallbackPayload) → codec.decode_payload (payload_json payload) ≡ accepted payload

-- A query that succeeds
abbrev pub Answers : {E A : Type 0} → Checked E A → Type 0
Answers {E} {A} c = (a : A) × (c ≡ accepted a)

-- The disk and the connection work: a statement fails where it must, and nowhere else.
pub record IsUp {E D B : Type 0} (db : Database E D B) (tables : D → Tables B) : Type 0 where
  pub insert_job :
      (d : D) (id : String) (json : B)
      → lookup id (tables d).jobs ≡ none
      → (db.insert_job d id json).1 ≡ none
  -- PRIMARY KEY
  pub insert_job_again :
      (d : D) (id : String) (json old : B) (err : E)
      → lookup id (tables d).jobs ≡ some old
      → (db.insert_job d id json).1 ≡ some err
      → db.is_unique_violation err ≡ true
  pub delete_job :
      (d : D) (id : String) → (n : ℕ) × ((db.delete_job d id).1 ≡ accepted (accepted n))
  pub select_job :
      (d : D) (id : String)
      → any_of (λ k. str_eq k id) (keys (tables d).jobs) ≡ true
      → Answers (db.select_job d id)
  pub count_jobs : (d : D) → Answers (db.count_jobs d)
  pub select_ids : (d : D) → Answers (db.select_ids d)
  pub select_status : (d : D) (id : String) → Answers (db.select_status d id)
  pub select_status_exists :
      (d : D) (id : String) (row : StatusRow B)
      → lookup id (tables d).status ≡ some row
      → Answers (db.select_status_exists d id)
  pub select_statuses : (d : D) → Answers (db.select_statuses d)
  pub upsert_status :
      (d : D) (id : String) (row : StatusRow B) → (db.upsert_status d id row).1 ≡ none
  pub select_history : (d : D) (id : String) → Answers (db.select_history d id)
  pub insert_history :
      (d : D) (row : HistoryRow B)
      → has_run row.id row.sequence (tables d).history ≡ false
      → (db.insert_history d row).1 ≡ none
  pub trim_history : (d : D) (id : String) (bound : ℤ) → (db.trim_history d id bound).1 ≡ none
  pub begin : (d : D) → Answers (db.begin d)
  pub commit : (d t : D) → (db.commit d t).1 ≡ none

-- A query that answers returns what it reads.
pub answer : {E A : Type 0} (c : Checked E A) (a : A) → Reads c a → Answers c → c ≡ accepted a
answer (accepted b) a r (x, h) = ap accepted r
answer (refused err) a r (x, h) = absurd cc
