-- ===== src/EventStore/Insert/Keeps.antt =====
-- Lemmas on `bulk_insert_events_optimized` of src/infrastructure/event_store.rs: the rows of the
-- transaction.
use banking_es_feature_redis.Prelude.{
  ℕ, zero, suc, ◌≡◌, refl, ◌∙◌, inl, inr, Option, none, some, List, [], ◌∷◌, I64, Outcome, ok, err,
  panic, arith,
}
use banking_es_feature_redis.Domain.{Uuid}
use banking_es_feature_redis.EventStore.Types.{Event, DbError}
use banking_es_feature_redis.EventStore.Database.{Postgres, HasVersion, IsLatest}
use banking_es_feature_redis.EventStore.Insert.{
  Session, Action, after_insert, with_version, insert_loop, bulk_insert_events_optimized,
  last_version,
}
use banking_es_feature_redis.EventStore.Insert.Never.{refused, IsLatest-after}

module _ {Tx Json : Type 0} (db : Postgres Tx Json) where
  -- The transaction sees the same rows, and goes back to the same rows.
  abbrev pub SameRows : Tx → Tx → Type 0
  SameRows t u = (db.rows u ≡ db.rows t) × (db.base u ≡ db.base t)

  abbrev pub Keeps : Action Tx (Unit {0}) → Type 0
  Keeps m = (s : Session Tx) → SameRows s.tx (m s).1.tx

  abbrev NextKeeps : Option (Action Tx (Unit {0})) → Type 0
  NextKeeps none = Unit
  NextKeeps (some m) = Keeps m

  pub SameRows-trans : (t u v : Tx) → SameRows t u → SameRows u v → SameRows t v
  SameRows-trans t u v p q = (q.0 ∙ p.0, q.1 ∙ p.1)

  after_insert-Keeps :
      (i : Uuid) (expected current last : I64) (retry : Option (Action Tx (Unit {0})))
      (answer : Outcome DbError (Unit {0})) (s : Session Tx)
      → NextKeeps retry
      → SameRows s.tx (after_insert db i expected current last retry answer s).1.tx
  unfolding after_insert
  after_insert-Keeps i expected current last retry (ok tt) s n = (refl, refl)
  after_insert-Keeps i expected current last none (err e) s n = ground arith
  after_insert-Keeps i expected current last (some again) (err e) s n = ground (arith, n s)
  after_insert-Keeps i expected current last retry panic s n = (refl, refl)

  module _ (first : Event Json) (events : List (Event Json)) where
    insert_rows-SameRows :
        (s : Session Tx)
        → HasVersion first.aggregate_id first.version (db.rows s.tx)
        → SameRows s.tx (db.insert_rows (first ∷ events) s.tx).1
    insert_rows-SameRows s h = elim (db.insert_rows_err (first ∷ events) s.tx) [
      | inl done ↦ absurd (refused db first events s h done)
      | inr same ↦ (same, db.insert_rows_base (first ∷ events) s.tx)
    ]

    with_version-Keeps :
        (last : I64) (retry : Option (Action Tx (Unit {0}))) (answer : Outcome DbError I64)
        (s : Session Tx)
        → NextKeeps retry
        → ((v : I64) → answer ≡ ok v → IsLatest first.aggregate_id v (db.rows s.tx))
        → SameRows s.tx
            (with_version db first.aggregate_id first.version last
              (first ∷ events)
              retry
              answer
              s).1.tx
    unfolding with_version
    with_version-Keeps last retry (ok current) s n latest =
        let (answer, tx) = db.insert_rows (first ∷ events) s.tx in
        ground (
          arith,
          λ (e : current ≡ first.version).
              insert_rows-SameRows s (rw e at ((latest current refl).0)),
          after_insert-Keeps first.aggregate_id first.version current last retry answer
              (record s { tx = tx }) n,
        )
    with_version-Keeps last retry (err e) s n latest = (refl, refl)
    with_version-Keeps last retry panic s n latest = (refl, refl)

    insert_loop-Keeps :
        (last : I64) (left : ℕ)
        → Keeps (insert_loop db first.aggregate_id first.version last (first ∷ events) left)
    unfolding insert_loop
    insert_loop-Keeps last zero s =
        let (answer, tx) = db.select_version first.aggregate_id s.tx in
        SameRows-trans s.tx tx _ (db.select_version_rows first.aggregate_id s.tx) (
          with_version-Keeps last none answer (record s { tx = tx }) tt
            (IsLatest-after db first events s))
    insert_loop-Keeps last (suc left) s =
        let (answer, tx) = db.select_version first.aggregate_id s.tx in
        SameRows-trans s.tx tx _ (db.select_version_rows first.aggregate_id s.tx) (
          with_version-Keeps last
            (some (insert_loop db first.aggregate_id first.version last (first ∷ events) left))
            answer (record s { tx = tx }) (insert_loop-Keeps last left)
            (IsLatest-after db first events s))

  -- The insert adds no row, whatever the database answers.
  pub bulk_insert-Keeps :
      (events : List (Event Json)) → Keeps (bulk_insert_events_optimized db events)
  unfolding bulk_insert_events_optimized
  bulk_insert-Keeps [] s = (refl, refl)
  bulk_insert-Keeps (first ∷ events) s =
      let (answer, tx) = db.set_serializable s.tx in
      ground (
        arith,
        db.set_serializable_rows s.tx,
        insert_loop-Keeps first events (last_version first.version events) 3 (record s { tx = tx }),
      )
