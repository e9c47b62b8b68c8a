-- ===== src/EventStore/Database.antt =====
-- The statements that src/infrastructure/event_store.rs sends to PostgreSQL, which is not its own
-- code, over the events table of migrations/001 and 007. `EventStore/Memory.antt` is an instance.
use banking_es_feature_redis.Prelude.{
  ◌≡◌, sym, ◌⊎◌, inl, inr, false, List, [], ◌∷◌, ◌++◌, I64, Outcome, ok, All, signed_ltb,
}
use banking_es_feature_redis.Domain.{Uuid}
use banking_es_feature_redis.EventStore.Types.{Event, DbError}

module _ {Json : Type 0} where
  -- The table has a row with this aggregate and this version.
  abbrev pub HasVersion : Uuid → I64 → List (Event Json) → Type 0
  HasVersion i v [] = ⊥
  HasVersion i v (r ∷ rows) = ((r.aggregate_id ≡ i) × (r.version ≡ v)) ⊎ HasVersion i v rows

  -- The constraint `unique_aggregate_id_version` of migrations/007.
  abbrev pub IsUnique : List (Event Json) → Type 0
  IsUnique [] = Unit
  IsUnique (r ∷ rows) = (¬ HasVersion r.aggregate_id r.version rows) × IsUnique rows

  -- The greatest version of an aggregate.
  abbrev pub IsLatest : Uuid → I64 → List (Event Json) → Type 0
  IsLatest i v rows =
      HasVersion i v rows
      × All (λ (r : Event Json). r.aggregate_id ≡ i → signed_ltb v r.version ≡ false) rows

  pub HasVersion-append :
      (i : Uuid) (v : I64) (rows more : List (Event Json))
      → HasVersion i v more
      → HasVersion i v (rows ++ more)
  HasVersion-append i v [] more h = h
  HasVersion-append i v (r ∷ rows) more h = inr (HasVersion-append i v rows more h)

  -- A row whose aggregate and version are in the table cannot be added.
  pub HasVersion-not-IsUnique :
      (r : Event Json) (rows more : List (Event Json))
      → HasVersion r.aggregate_id r.version rows
      → IsUnique (rows ++ r ∷ more)
      → ⊥
  HasVersion-not-IsUnique r [] more h u = h
  HasVersion-not-IsUnique r (q ∷ rows) more (inl (same_id, same_version)) u = u.0 (
      HasVersion-append q.aggregate_id q.version rows (r ∷ more)
        (inl (sym same_id, sym same_version)))
  HasVersion-not-IsUnique r (q ∷ rows) more (inr h) u = HasVersion-not-IsUnique r rows more h u.1

-- A transaction of type `Tx`, its statements, and their documented behaviour.
pub record Postgres (Tx Json : Type 0) : Type 0 where
  -- the rows as the transaction sees them, and as they were when it began
  pub rows : Tx → List (Event Json)
  pub base : Tx → List (Event Json)
  pub begin : List (Event Json) → Outcome DbError Tx
  -- SET TRANSACTION ISOLATION LEVEL SERIALIZABLE
  pub set_serializable : Tx → Outcome DbError (Unit {0}) × Tx
  -- the version of the last row of the aggregate, FOR UPDATE, by `fetch_one`
  pub select_version : Uuid → Tx → Outcome DbError I64 × Tx
  -- INSERT INTO events
  pub insert_rows : List (Event Json) → Tx → Outcome DbError (Unit {0}) × Tx
  pub commit : Tx → Outcome DbError (List (Event Json))
  pub begin_rows :
      (t : List (Event Json)) (tx : Tx) → begin t ≡ ok tx → (rows tx ≡ t) × (base tx ≡ t)
  pub set_serializable_rows :
      (tx : Tx)
      → (rows (set_serializable tx).1 ≡ rows tx) × (base (set_serializable tx).1 ≡ base tx)
  pub select_version_rows :
      (i : Uuid) (tx : Tx)
      → (rows (select_version i tx).1 ≡ rows tx) × (base (select_version i tx).1 ≡ base tx)
  -- `fetch_one` has an answer only if there is a row
  pub select_version_ok :
      (i : Uuid) (v : I64) (tx : Tx) → (select_version i tx).0 ≡ ok v → IsLatest i v (rows tx)
  pub insert_rows_ok :
      (es : List (Event Json)) (tx : Tx)
      → (insert_rows es tx).0 ≡ ok tt
      → (rows (insert_rows es tx).1 ≡ rows tx ++ es) × IsUnique (rows tx ++ es)
  -- a statement that fails changes no row
  pub insert_rows_err :
      (es : List (Event Json)) (tx : Tx)
      → ((insert_rows es tx).0 ≡ ok tt) ⊎ (rows (insert_rows es tx).1 ≡ rows tx)
  pub insert_rows_base : (es : List (Event Json)) (tx : Tx) → base (insert_rows es tx).1 ≡ base tx
  -- a transaction is committed whole, or rolled back because a statement in it had failed
  pub commit_ok :
      (tx : Tx) (t : List (Event Json)) → commit tx ≡ ok t → (t ≡ rows tx) ⊎ (t ≡ base tx)
