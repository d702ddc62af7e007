-- ===== src/Storage/Sqlite/Errors.antt =====
-- storage_sqlite.go: which errors the steps of a transaction return.
use go_again.Prelude.{
  ℕ, ◌+◌, ℤ, pos, leb_ℤ, ltb_ℤ, String, true, Option, none, some, ◌≡◌, refl, ap, sub_ℕ, neg_part,
  pos_part, arith, inl, inr, Bool-cases, Option-cases,
}
use go_again.Runtime.{Runtime, Unwraps}
use go_again.Storage.{Time, CallbackPayload}
use go_again.Storage.Sqlite.{
  Checked, accepted, refused, and_then, SqliteHistoryRetentionOptions, SqliteStatusData,
  SqliteStatusRecord, StatusRow, Codec, Database,
}
use go_again.Storage.Sqlite.Records.{
  Tx, ◌>>=◌, proceed, executed, rows_affected, marshaled, decode_sqlite_status,
  load_status_record_query_row, load_status_record_tx, upsert_status_record_tx, insert_history_tx,
  trim_history_tx,
}
use go_again.Storage.Sqlite.Methods.{write_change, prune_job_tx, write_result}

module _ {E F D B : Type 0} (rt : Runtime E F) (codec : Codec E B) (db : Database E D B)
    (retention : SqliteHistoryRetentionOptions) where
  abbrev pub IsStorageError : E → Type 0
  IsStorageError err = rt.is err rt.storage_operation ≡ true

  -- Every error of a result, and of a step of a transaction, is an ErrStorageOperation.
  unfoldable pub Wraps : {A : Type 0} → D × Checked E A → Type 0
  Wraps r = (err : E) → r.1 ≡ refused err → IsStorageError err

  abbrev pub Sound : {A : Type 0} → Tx E D A → Type 0
  Sound m = (d : D) → Wraps (m d)

  pub proceed-Wraps :
      {A C : Type 0} (r : D × Checked E A) (f : A → Tx E D C)
      → Wraps r
      → ((a : A) → Sound (f a))
      → Wraps (proceed r f)
  unfolding Wraps
  proceed-Wraps (d, accepted a) f m s err h = s a d err h
  proceed-Wraps (d, refused e) f m s err h = m err (cc)

  pub bound-Sound :
      {A C : Type 0} (m : Tx E D A) (f : A → Tx E D C)
      → Sound m
      → ((a : A) → Sound (f a))
      → Sound (m >>= f)
  bound-Sound m f s t d = proceed-Wraps _ _ (s d) t

  pub accepted-Wraps : {A : Type 0} (d : D) (a : A) → Wraps (d, accepted a)
  unfolding Wraps
  accepted-Wraps d a err h = cc

  executed-Wraps :
      (message : String) (r : D × Option E) → Unwraps rt → Wraps (executed rt codec db message r)
  unfolding Wraps executed
  executed-Wraps message (d, none) u err h = cc
  executed-Wraps message (d, some e) u err h = grind (arith, u.is-wrapf, u.is_refl)

  pub rows_affected-Wraps :
      (message : String) (r : D × Checked E (Checked E ℕ))
      → Unwraps rt
      → Wraps (rows_affected rt codec db message r)
  unfolding Wraps rows_affected
  rows_affected-Wraps message (d, accepted (accepted n)) u err h = cc
  rows_affected-Wraps message (d, accepted (refused e)) u err h =
      grind (arith, u.is-wrapf, u.is_refl)
  rows_affected-Wraps message (d, refused e) u err h = grind (arith, u.is-wrapf, u.is_refl)

  marshaled-Wraps :
      (message : String) (c : Checked E B) (d : D)
      → Unwraps rt
      → Wraps (d, marshaled rt codec db message c)
  unfolding Wraps marshaled
  marshaled-Wraps message (accepted json) d u err h = cc
  marshaled-Wraps message (refused e) d u err h = grind (arith, u.is-wrapf, u.is_refl)

  decode_sqlite_status-Wraps :
      (json : B) (n : ℕ) (err : E)
      → Unwraps rt
      → decode_sqlite_status rt codec db json n ≡ refused err
      → IsStorageError err
  unfolding decode_sqlite_status
  decode_sqlite_status-Wraps json n err u h = go (codec.decode_status json) refl
    where
      go : (c : Checked E SqliteStatusData) → codec.decode_status json ≡ c → IsStorageError err
      go (accepted x) e = cc (rw (e, decode_sqlite_status) at h)
      go (refused x) e = grind (arith, u.is-wrapf, u.is_refl)

  refused-injective : {A : Type 0} (x y : E) → ◌≡◌ {A = Checked E A} (refused x) (refused y) → x ≡ y
  refused-injective x y h = cc

  and_then-Wraps :
      {A C : Type 0} (c : Checked E A) (f : A → Checked E C)
      → ((err : E) → c ≡ refused err → IsStorageError err)
      → ((a : A) (err : E) → f a ≡ refused err → IsStorageError err)
      → (err : E) → and_then c f ≡ refused err
      → IsStorageError err
  and_then-Wraps (accepted a) f m s err h = s a err h
  and_then-Wraps (refused e) f m s err h = m err (ap refused (refused-injective _ _ h))

  never_refused :
      {A : Type 0} (a : A) (err : E)
      → ◌≡◌ {A = Checked E A} (accepted a) (refused err)
      → IsStorageError err
  never_refused a err h = cc

  query_row-Wraps :
      (r : Checked E (Option (StatusRow B))) (err : E)
      → Unwraps rt
      → load_status_record_query_row rt codec db r ≡ refused err
      → IsStorageError err
  unfolding load_status_record_query_row
  query_row-Wraps (refused e) err u h = grind (arith, u.is-wrapf, u.is_refl)
  query_row-Wraps (accepted none) err u h = cc
  query_row-Wraps (accepted (some row)) err u h =
      and_then-Wraps _ _ (λ e q. decode_sqlite_status-Wraps _ _ e u q) (λ a. never_refused _) err h

  pub load_status_record_tx-Sound :
      (id : String) → Unwraps rt → Sound (load_status_record_tx rt codec db id)
  unfolding Wraps load_status_record_tx
  load_status_record_tx-Sound id u d err h = query_row-Wraps _ err u h

  pub upsert_status_record_tx-Sound :
      (id : String) (rec : SqliteStatusRecord)
      → Unwraps rt
      → Sound (upsert_status_record_tx rt codec db id rec)
  unfolding upsert_status_record_tx
  upsert_status_record_tx-Sound id rec u d =
      search (proceed-Wraps, marshaled-Wraps, executed-Wraps, u)

  insert_history_tx-Sound :
      (id : String) (sequence : ℕ) (payload : CallbackPayload)
      → Unwraps rt
      → Sound (insert_history_tx rt codec db id sequence payload)
  unfolding insert_history_tx
  insert_history_tx-Sound id sequence payload u d =
      search (proceed-Wraps, marshaled-Wraps, executed-Wraps, u)

  trim_history_tx-Sound :
      (id : String) (sequence : ℕ) (limit : ℤ)
      → Unwraps rt
      → Sound (trim_history_tx rt codec db id sequence limit)
  unfolding trim_history_tx
  trim_history_tx-Sound id sequence limit u d =
      elim (Bool-cases (leb_ℤ (sub_ℕ (sequence + neg_part limit) (pos_part limit)) (pos 0))) [
        | inl met ↦ rw (met, trim_history_tx) (accepted-Wraps d tt)
        | inr unmet ↦
            rw (unmet, trim_history_tx)
              (executed-Wraps "trim execution history failed: %v"
                (db.trim_history d id (sub_ℕ (sequence + neg_part limit) (pos_part limit))) u)
      ]

  pub prune_job_tx-Sound :
      (id : String) (now : Time) → Unwraps rt → Sound (prune_job_tx rt codec db retention id now)
  unfolding prune_job_tx
  prune_job_tx-Sound id now u d = elim (Bool-cases (ltb_ℤ (pos 0) retention.max_age)) [
    | inl met ↦
        rw (met, prune_job_tx) (search (proceed-Wraps, rows_affected-Wraps, accepted-Wraps, u))
    | inr unmet ↦ rw (unmet, prune_job_tx) (accepted-Wraps d tt)
  ]

  pub write_change-Sound :
      (id : String) (change : SqliteStatusRecord → Option SqliteStatusRecord)
      (found : Option SqliteStatusRecord)
      → Unwraps rt
      → Sound (write_change rt codec db retention id change found)
  unfolding write_change
  write_change-Sound id change none u d = accepted-Wraps d tt
  write_change-Sound id change (some rec) u d = elim (Option-cases (change rec)) [
    | inl e ↦ rw (e, write_change) (accepted-Wraps d tt)
    | inr (changed, e) ↦ rw (e, write_change) (upsert_status_record_tx-Sound id changed u d)
  ]

  pub write_result-Sound :
      (id : String) (payload : CallbackPayload) (limit : ℤ) (now : Time)
      (found : Option SqliteStatusRecord)
      → Unwraps rt
      → Sound (write_result rt codec db retention id payload limit now found)
  unfolding write_result
  write_result-Sound id payload limit now none u d = accepted-Wraps d tt
  write_result-Sound id payload limit now (some rec) u d = search (
    proceed-Wraps, insert_history_tx-Sound, trim_history_tx-Sound, prune_job_tx-Sound,
    upsert_status_record_tx-Sound, u,
  )
