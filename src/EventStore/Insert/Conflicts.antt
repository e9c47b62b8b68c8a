-- ===== src/EventStore/Insert/Conflicts.antt =====
-- Lemmas on `bulk_insert_events_optimized` of src/infrastructure/event_store.rs: the conflict
-- branch.
use banking_es_feature_redis.Prelude.{
  ◌≡◌, ◌≢◌, none, some, List, ◌∷◌, I64, add64, nat_eq, lookup, lookup-remove, ok, err, arith,
}
use banking_es_feature_redis.EventStore.Types.{Event, optimistic_concurrency_conflict}
use banking_es_feature_redis.EventStore.Database.{Postgres}
use banking_es_feature_redis.EventStore.Insert.{Session, bulk_insert_events_optimized}

module _ {Tx Json : Type 0} (db : Postgres Tx Json) (first : Event Json)
    (events : List (Event Json)) (s : Session Tx) where
  -- If the aggregate's current version is not that of the first new row,
  -- `bulk_insert_events_optimized` refuses with a conflict that names both, counts the failure
  -- once, and forgets the cached version of the aggregate.
  pub bulk_insert-conflict :
      (current : I64)
      → (db.set_serializable s.tx).0 ≡ ok tt
      → (db.select_version first.aggregate_id (db.set_serializable s.tx).1).0 ≡ ok current
      → current ≢ first.version
      → let (answer, s') = bulk_insert_events_optimized db (first ∷ events) s in
        (answer
          ≡ err (optimistic_concurrency_conflict first.aggregate_id first.version (some current)))
        × (s'.metrics.occ_failures ≡ add64 s.metrics.occ_failures 1)
        × (lookup first.aggregate_id s'.version_cache ≡ none)
  unfolding bulk_insert_events_optimized
  bulk_insert-conflict current set_ok select_ok differs =
      ground (arith, lookup-remove first.aggregate_id first.aggregate_id s.version_cache)
