-- ===== src/EventStore/Insert/Never.antt =====
-- Lemmas on `bulk_insert_events_optimized` of src/infrastructure/event_store.rs: which inserts can
-- succeed.
use banking_es_feature_redis.Prelude.{
  ℕ, zero, suc, ◌≡◌, refl, Option, none, some, List, ◌∷◌, I64, Outcome, ok, err, panic, arith,
}
use banking_es_feature_redis.Domain.{Uuid}
use banking_es_feature_redis.EventStore.Types.{Event, DbError}
use banking_es_feature_redis.EventStore.Database.{
  Postgres, HasVersion, IsLatest, HasVersion-not-IsUnique,
}
use banking_es_feature_redis.EventStore.Insert.{
  Session, Action, after_insert, with_version, insert_loop, bulk_insert_events_optimized,
  last_version,
}

-- The action never answers `Ok`.
abbrev pub NeverOk : {Tx : Type 0} → Action Tx (Unit {0}) → Type 0
NeverOk {Tx} m = (s : Session Tx) → (m s).0 ≡ ok tt → ⊥

abbrev NextNeverOk : {Tx : Type 0} → Option (Action Tx (Unit {0})) → Type 0
NextNeverOk none = Unit
NextNeverOk (some m) = NeverOk m

module _ {Tx Json : Type 0} (db : Postgres Tx Json) where
  after_insert-ne-ok :
      (i : Uuid) (expected current last : I64) (retry : Option (Action Tx (Unit {0})))
      (answer : Outcome DbError (Unit {0})) (s : Session Tx)
      → NextNeverOk retry
      → (answer ≡ ok tt → ⊥)
      → (after_insert db i expected current last retry answer s).0 ≡ ok tt
      → ⊥
  unfolding after_insert
  after_insert-ne-ok i expected current last retry (ok tt) s n refused h = refused refl
  after_insert-ne-ok i expected current last none (err e) s n refused h = ground arith
  after_insert-ne-ok i expected current last (some again) (err e) s n refused h =
      ground (arith, n s)
  after_insert-ne-ok i expected current last retry panic s n refused h = cc

  module _ (first : Event Json) (events : List (Event Json)) where
    -- The first row has the version of the last row of its aggregate: the constraint refuses it.
    pub refused :
        (s : Session Tx)
        → HasVersion first.aggregate_id first.version (db.rows s.tx)
        → (db.insert_rows (first ∷ events) s.tx).0 ≡ ok tt
        → ⊥
    refused s h e =
        HasVersion-not-IsUnique first (db.rows s.tx) events h
          (db.insert_rows_ok (first ∷ events) s.tx e).1

    with_version-ne-ok :
        (last : I64) (retry : Option (Action Tx (Unit {0}))) (answer : Outcome DbError I64)
        (s : Session Tx)
        → NextNeverOk retry
        → ((v : I64) → answer ≡ ok v → IsLatest first.aggregate_id v (db.rows s.tx))
        → (with_version db first.aggregate_id first.version last (first ∷ events) retry answer s).0
          ≡ ok tt
        → ⊥
    unfolding with_version
    with_version-ne-ok last retry (ok current) s n latest h =
        let (answer, tx) = db.insert_rows (first ∷ events) s.tx in
        ground (
          arith,
          λ (e : current ≡ first.version).
              after_insert-ne-ok first.aggregate_id first.version current last retry answer
                (record s { tx = tx }) n (refused s (rw e at ((latest current refl).0))),
        )
    with_version-ne-ok last retry (err e) s n latest h = cc
    with_version-ne-ok last retry panic s n latest h = cc

    pub IsLatest-after :
        (s : Session Tx) (v : I64)
        → (db.select_version first.aggregate_id s.tx).0 ≡ ok v
        → IsLatest first.aggregate_id v (db.rows (db.select_version first.aggregate_id s.tx).1)
    IsLatest-after s v e =
        rw ((db.select_version_rows first.aggregate_id s.tx).0)
          (db.select_version_ok first.aggregate_id v s.tx e)

    insert_loop-NeverOk :
        (last : I64) (left : ℕ)
        → NeverOk (insert_loop db first.aggregate_id first.version last (first ∷ events) left)
    unfolding insert_loop
    insert_loop-NeverOk last zero s h =
        let (answer, tx) = db.select_version first.aggregate_id s.tx in
        with_version-ne-ok last none answer (record s { tx = tx }) tt (IsLatest-after s) h
    insert_loop-NeverOk last (suc left) s h =
        let (answer, tx) = db.select_version first.aggregate_id s.tx in
        with_version-ne-ok last
          (some (insert_loop db first.aggregate_id first.version last (first ∷ events) left)) answer
          (record s { tx = tx }) (insert_loop-NeverOk last left) (IsLatest-after s) h

  -- The insert never succeeds: the version that it demands of the last row is the version that it
  -- gives to the first new one.
  pub bulk_insert-NeverOk :
      (first : Event Json) (events : List (Event Json))
      → NeverOk (bulk_insert_events_optimized db (first ∷ events))
  unfolding bulk_insert_events_optimized
  bulk_insert-NeverOk first events s h =
      let (answer, tx) = db.set_serializable s.tx in
      ground (
        arith,
        insert_loop-NeverOk first events (last_version first.version events) 3
            (record s { tx = tx }),
      )
