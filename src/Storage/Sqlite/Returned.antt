-- ===== src/Storage/Sqlite/Returned.antt =====
-- storage_sqlite.go: what a transaction has done, by what it returns.

use go_again.Prelude.{String, Option, none, some, ◌≡◌, refl, ap, Checked-cases, inl, inr}
use go_again.Runtime.{Runtime}
use go_again.Storage.Sqlite.{
  Checked, accepted, refused, SqliteHistoryRetentionOptions, Codec, Database,
}
use go_again.Storage.Sqlite.Records.{Tx, proceed, committed, finish_tx, with_write_tx}
use go_again.Storage.Sqlite.Laws.{Tables, IsSqlite, Effect}

module _ {E F D B : Type 0} (rt : Runtime E F) (codec : Codec E B) (db : Database E D B)
    (retention : SqliteHistoryRetentionOptions) (tables : D → Tables B)
    (lawful : IsSqlite db tables) where
  -- A transaction that returns a value has run its steps on the tables, and committed them.
  committed-accepted :
      {A : Type 0} (operation : String) (a b : A) (d t : D) (r : D × Option E)
      → Effect (tables d) (tables t) (tables r.0) r.1
      → (committed rt codec db operation a r).1 ≡ accepted b
      → (a ≡ b) × (tables (committed rt codec db operation a r).0 ≡ tables t)
  unfolding committed
  committed-accepted operation a b d t (d', none) effect h = (cc, effect)
  committed-accepted operation a b d t (d', some err) effect h = absurd cc

  finish_tx-accepted :
      {A : Type 0} (operation : String) (b : A) (d : D) (r : D × Checked E A)
      → (finish_tx rt codec db operation d r).1 ≡ accepted b
      → (r.1 ≡ accepted b) × (tables (finish_tx rt codec db operation d r).0 ≡ tables r.0)
  unfolding finish_tx
  finish_tx-accepted operation b d (t, accepted a) h =
      let (same, kept) =
        committed-accepted operation a b d t (db.commit d t) (lawful.commit d t) h in
      (ap accepted same, kept)
  finish_tx-accepted operation b d (t, refused err) h = absurd cc

  pub with_write_tx-accepted :
      {A : Type 0} (operation : String) (fn : Tx E D A) (b : A) (d : D)
      → (with_write_tx rt codec db operation fn d).1 ≡ accepted b
      → (t : D) × (tables t ≡ tables d)
        × ((fn t).1 ≡ accepted b)
        × (tables (with_write_tx rt codec db operation fn d).0 ≡ tables (fn t).0)
  unfolding with_write_tx
  with_write_tx-accepted operation fn b d = elim (Checked-cases (db.begin d)) [
    | inl (t, e) ↦
        rw (e, with_write_tx)
          (λ h.
            let (same, kept) = finish_tx-accepted operation b d (fn t) h in
            (t, lawful.begin d t e, same, kept))
    | inr (x, e) ↦ rw (e, with_write_tx) (λ h. absurd cc)
  ]

  committed-refused :
      {A : Type 0} (operation : String) (a : A) (d t : D) (r : D × Option E) (err : E)
      → Effect (tables d) (tables t) (tables r.0) r.1
      → (committed rt codec db operation a r).1 ≡ refused err
      → tables (committed rt codec db operation a r).0 ≡ tables d
  unfolding committed
  committed-refused operation a d t (d', none) err effect h = absurd cc
  committed-refused operation a d t (d', some e) err effect h = effect

  finish_tx-refused :
      {A : Type 0} (operation : String) (d : D) (r : D × Checked E A) (err : E)
      → (finish_tx rt codec db operation d r).1 ≡ refused err
      → tables (finish_tx rt codec db operation d r).0 ≡ tables d
  unfolding finish_tx
  finish_tx-refused operation d (t, accepted a) err h =
      committed-refused operation a d t (db.commit d t) err (lawful.commit d t) h
  finish_tx-refused operation d (t, refused e) err h = lawful.rollback d t

  pub with_write_tx-refused :
      {A : Type 0} (operation : String) (fn : Tx E D A) (d : D) (err : E)
      → (with_write_tx rt codec db operation fn d).1 ≡ refused err
      → tables (with_write_tx rt codec db operation fn d).0 ≡ tables d
  unfolding with_write_tx
  with_write_tx-refused operation fn d err = elim (Checked-cases (db.begin d)) [
    | inl (t, e) ↦ rw (e, with_write_tx) (λ h. finish_tx-refused operation d (fn t) err h)
    | inr (x, e) ↦ rw (e, with_write_tx) (λ h. refl)
  ]

  pub proceed-accepted :
      {A C : Type 0} (r : D × Checked E A) (f : A → Tx E D C) (c : C)
      → (proceed r f).1 ≡ accepted c
      → (a : A) × (r.1 ≡ accepted a) × ((f a r.0).1 ≡ accepted c) × ((proceed r f).0 ≡ (f a r.0).0)
  proceed-accepted (d, accepted a) f c h = (a, refl, h, refl)
  proceed-accepted (d, refused err) f c h = absurd cc
