-- ===== src/Projections/Batches.antt =====
-- src/infrastructure/projections.rs: `update_processor` and `flush_batches`.
use banking_es_feature_redis.Prelude.{
  ◌-◌, ◌*◌, String, Bool, false, ◌||◌, List, [], ◌∷◌, ◌++◌, U64, add64, leb, eqb, if◌then◌else◌,
  Outcome, ok, err, HashMap, insert, remove, nat_eq, length, ◌≡◌, ◌⊎◌, inl, inr,
}
use banking_es_feature_redis.Prelude.Actions.{Action, ◌>>=◌, ◌>>◌, lift, modify}
use banking_es_feature_redis.Domain.{Uuid}
use banking_es_feature_redis.EventStore.{Instant}
use banking_es_feature_redis.Projections.{AccountProjection, TransactionProjection}
use banking_es_feature_redis.Projections.Store.{CacheEntry, Tables, ProjectionStore, send}

pub data ProjectionUpdate (D : Type 0) : Type 0 where
  account_batch : List (AccountProjection D) → ProjectionUpdate D
  transaction_batch : List (TransactionProjection D) → ProjectionUpdate D

-- The task `update_processor`, which has a version and metrics of its own.
pub record Processor (D : Type 0) : Type 0 where
  pub store : ProjectionStore D
  pub accounts : List (AccountProjection D)
  pub transactions : List (TransactionProjection D)
  pub last_flush : Instant
  pub version : U64
  pub batch_updates : U64

-- What the columns of `account_projections` make of a row that is bound to a statement: they round
-- its values to their own precision, or PostgreSQL refuses them. The identifier stays.
pub record Columns (D : Type 0) : Type 0 where
  pub stored : AccountProjection D → String ⊎ AccountProjection D
  pub id_kept : (a row : AccountProjection D) → stored a ≡ inr row → row.id ≡ a.id

module _ {D : Type 0} where
  abbrev pub has_id : Uuid → List (AccountProjection D) → Bool
  has_id i [] = false
  has_id i (a ∷ rows) = eqb a.id i || has_id i rows

  abbrev pub repeats : List (AccountProjection D) → Bool
  repeats [] = false
  repeats (a ∷ rows) = has_id a.id rows || repeats rows

  -- `ON CONFLICT (id) DO UPDATE SET …`
  abbrev pub overwrite : AccountProjection D → AccountProjection D → AccountProjection D
  overwrite excluded row = record row {
    owner_name = excluded.owner_name;
    balance = excluded.balance;
    is_active = excluded.is_active;
    updated_at = excluded.updated_at;
  }

  unfoldable pub upsert :
      AccountProjection D → List (AccountProjection D) → List (AccountProjection D)
  upsert a [] = a ∷ []
  upsert a (row ∷ rows) = if eqb row.id a.id then overwrite a row ∷ rows else row ∷ upsert a rows

  unfoldable pub upsert_all :
      List (AccountProjection D) → List (AccountProjection D) → List (AccountProjection D)
  upsert_all [] rows = rows
  upsert_all (a ∷ batch) rows = upsert_all batch (upsert a rows)

  -- A statement of the store's connection.
  abbrev pub statement : Action (Processor D) String (Unit {0})
  statement p = let (r, store') = send p.store in (r, record p { store = store' })

  abbrev pub cache_all :
      Instant
      → U64
      → List (AccountProjection D)
      → HashMap Uuid (CacheEntry (AccountProjection D))
      → HashMap Uuid (CacheEntry (AccountProjection D))
  cache_all now version [] cache = cache
  cache_all now version (a ∷ batch) cache = cache_all now version batch (
      insert a.id (record { entry = a; last_accessed = now; version = version; ttl = 300 * 1000 })
        cache)

  -- The accounts go into the cache and out of the batch.
  abbrev pub drain_accounts : Instant → Processor D → Processor D
  drain_accounts now p = record p {
    store = record p.store {
      account_cache = cache_all now p.version p.accounts p.store.account_cache;
    };
    accounts = [];
    version = add64 p.version 1;
    batch_updates = add64 p.batch_updates 1;
  }

  abbrev pub uncache_all :
      {T : Type 0} → List (TransactionProjection D) → HashMap Uuid T → HashMap Uuid T
  uncache_all [] cache = cache
  uncache_all (t ∷ batch) cache = uncache_all batch (remove t.account_id cache)

  abbrev pub drain_transactions : Processor D → Processor D
  drain_transactions p = record p {
    store = record p.store {
      transaction_cache = uncache_all p.transactions p.store.transaction_cache;
    };
    transactions = [];
    batch_updates = add64 p.batch_updates 1;
  }

  abbrev pub commit : Tables D → Action (Processor D) String (Unit {0})
  commit tx = do statement; modify (λ p. record p { store = record p.store { tables = tx } })

  -- The task that `from_pool_with_config` spawns, unless `RUST_TEST` is set.
  abbrev pub spawned : Instant → ProjectionStore D → Processor D
  spawned now store = record {
    store = store;
    accounts = [];
    transactions = [];
    last_flush = now;
    version = 0;
    batch_updates = 0;
  }

  abbrev pub extended : ProjectionUpdate D → Processor D → Processor D
  extended (account_batch accounts) p = record p { accounts = p.accounts ++ accounts }
  extended (transaction_batch transactions) p = record p {
    transactions = p.transactions ++ transactions;
  }

  abbrev pub is_due : Instant → Processor D → Bool
  is_due now p =
      leb p.store.config.batch_size (length p.accounts)
      || leb p.store.config.batch_size (length p.transactions)
      || leb p.store.config.batch_timeout_ms (now - p.last_flush)

  -- The statement of `bulk_insert_transactions`. PostgreSQL refuses every one with rows: the table
  -- is partitioned by the timestamp and has no unique index on `id` alone.
  unfoldable pub bulk_insert_transactions :
      List (TransactionProjection D) → Tables D → Outcome String (Tables D)
  bulk_insert_transactions [] tx = ok tx
  bulk_insert_transactions (t ∷ batch) tx =
      err "there is no unique or exclusion constraint matching the ON CONFLICT specification"

  unfoldable pub flush_transactions :
      List (TransactionProjection D) → Tables D → Action (Processor D) String (Tables D)
  unfolding bulk_insert_transactions
  flush_transactions [] tx = lift (ok tx)
  flush_transactions (t ∷ batch) tx = do
    statement
    tx' ← lift (bulk_insert_transactions (t ∷ batch) tx)
    modify drain_transactions
    lift (ok tx')

module _ {D : Type 0} (columns : Columns D) where
  unfoldable pub stored_rows : List (AccountProjection D) → String ⊎ List (AccountProjection D)
  stored_rows [] = inr []
  stored_rows (a ∷ batch) = elim (columns.stored a) [
    | inl refused ↦ inl refused
    | inr row ↦ elim (stored_rows batch) [ inl refused ↦ inl refused | inr rows ↦ inr (row ∷ rows) ]
  ]

  -- The upsert of the rows as the columns store them.
  unfoldable pub upsert_stored :
      String ⊎ List (AccountProjection D) → Tables D → Outcome String (Tables D)
  unfolding upsert_all
  upsert_stored (inl refused) tx = err refused
  upsert_stored (inr rows) tx = ok (record tx { accounts = upsert_all rows tx.accounts })

  -- The statement of `bulk_upsert_accounts`; PostgreSQL refuses to update a row twice in a statement.
  unfoldable pub bulk_upsert_accounts :
      List (AccountProjection D) → Tables D → Outcome String (Tables D)
  unfolding stored_rows upsert_stored
  bulk_upsert_accounts batch tx =
      if repeats batch
      then err "ON CONFLICT DO UPDATE command cannot affect row a second time"
      else upsert_stored (stored_rows batch) tx

  unfoldable pub flush_accounts :
      Instant → List (AccountProjection D) → Tables D → Action (Processor D) String (Tables D)
  unfolding bulk_upsert_accounts
  flush_accounts now [] tx = lift (ok tx)
  flush_accounts now (a ∷ batch) tx = do
    statement
    tx' ← lift (bulk_upsert_accounts (a ∷ batch) tx)
    modify (drain_accounts now)
    lift (ok tx')

  -- `flush_batches`; a transaction that is not committed leaves the tables as they were.
  unfoldable pub flush_batches : Instant → Action (Processor D) String (Unit {0})
  unfolding flush_accounts flush_transactions
  flush_batches now p =
      (do
        statement
        tx ← flush_accounts now p.accounts p.store.tables
        tx' ← flush_transactions p.transactions tx
        commit tx')
        p

  -- A round of `update_processor`; the error of a flush is only logged.
  unfoldable pub process_update : Instant × ProjectionUpdate D → Processor D → Processor D
  unfolding flush_batches
  process_update (now, update) p =
      let q = extended update p in
      let flushed = (flush_batches now q).1 in
      if is_due now q then record flushed { last_flush = now } else q

  -- `update_processor`, by the updates that it receives and when.
  unfoldable pub update_processor : List (Instant × ProjectionUpdate D) → Processor D → Processor D
  unfolding process_update
  update_processor [] p = p
  update_processor (update ∷ updates) p = update_processor updates (process_update update p)
