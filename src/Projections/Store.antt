-- ===== src/Projections/Store.antt =====
-- src/infrastructure/projections.rs: `ProjectionStore`, its tables, caches and queries.
use banking_es_feature_redis.Prelude.{
  ℕ, zero, suc, ◌-◌, ◌*◌, String, Bool, Option, none, some, List, [], ◌∷◌, U64, add64, ltb, eqb,
  if◌then◌else◌, ok, err, HashMap, lookup, insert, nat_eq, retain, find,
}
use banking_es_feature_redis.Prelude.Actions.{Action, ◌>>◌, lift, modify}
use banking_es_feature_redis.Domain.{Uuid}
use banking_es_feature_redis.EventStore.{Instant}
use banking_es_feature_redis.Projections.{AccountProjection, TransactionProjection}

-- Times and durations are in milliseconds, and a call reads the clock once.
pub record CacheEntry (T : Type 0) : Type 0 where
  pub entry : T
  pub last_accessed : Instant
  pub version : U64
  pub ttl : ℕ

pub record ProjectionConfig : Type 0 where
  pub cache_ttl_secs : ℕ
  pub batch_size : ℕ
  pub batch_timeout_ms : ℕ
  pub max_connections : ℕ
  pub min_connections : ℕ
  pub acquire_timeout_secs : ℕ
  pub idle_timeout_secs : ℕ
  pub max_lifetime_secs : ℕ

abbrev pub default_config : ProjectionConfig
default_config = record {
  cache_ttl_secs = 300;
  batch_size = 5000;
  batch_timeout_ms = 20;
  max_connections = 100;
  min_connections = 20;
  acquire_timeout_secs = 30;
  idle_timeout_secs = 600;
  max_lifetime_secs = 1800;
}

pub record ProjectionMetrics : Type 0 where
  pub cache_hits : U64
  pub cache_misses : U64
  pub batch_updates : U64
  pub events_processed : U64
  pub errors : U64
  pub query_duration : U64

abbrev pub default_metrics : ProjectionMetrics
default_metrics = record {
  cache_hits = 0;
  cache_misses = 0;
  batch_updates = 0;
  events_processed = 0;
  errors = 0;
  query_duration = 0;
}

-- The tables `account_projections` and `transaction_projections`.
pub record Tables (D : Type 0) : Type 0 where
  pub accounts : List (AccountProjection D)
  pub transactions : List (TransactionProjection D)

-- The store, with the tables behind its pool. What the connection makes of the next statements is
-- in `faults`: `some e` fails with `e` and changes nothing, and with no more faults all are run.
pub record ProjectionStore (D : Type 0) : Type 0 where
  pub tables : Tables D
  pub faults : List (Option String)
  pub account_cache : HashMap Uuid (CacheEntry (AccountProjection D))
  pub transaction_cache : HashMap Uuid (CacheEntry (List (TransactionProjection D)))
  pub cache_version : U64
  pub metrics : ProjectionMetrics
  pub config : ProjectionConfig

-- `from_pool_with_config`, on tables and a connection that are there already. The task
-- `update_processor` that it spawns is `Batches.spawned`.
abbrev pub from_pool_with_config :
    {D : Type 0} → Tables D → List (Option String) → ProjectionConfig → ProjectionStore D
from_pool_with_config tables faults config = record {
  tables = tables;
  faults = faults;
  account_cache = [];
  transaction_cache = [];
  cache_version = 0;
  metrics = default_metrics;
  config = config;
}

abbrev pub new : {D : Type 0} → Tables D → List (Option String) → ProjectionStore D
new tables faults = from_pool_with_config tables faults default_config

abbrev pub new_test : {D : Type 0} → Tables D → List (Option String) → ProjectionStore D
new_test tables faults =
    from_pool_with_config tables faults
      (record default_config { batch_size = 1; batch_timeout_ms = 0 })

-- `ORDER BY key DESC`
abbrev pub insert_by : {A : Type 0} → (A → ℕ) → A → List A → List A
insert_by key x [] = x ∷ []
insert_by key x (y ∷ ys) =
    let rest = insert_by key x ys in if ltb (key x) (key y) then y ∷ rest else x ∷ y ∷ ys

abbrev pub descending : {A : Type 0} → (A → ℕ) → List A → List A
descending key [] = []
descending key (x ∷ xs) = insert_by key x (descending key xs)

-- `LIMIT n`
abbrev pub limit : {A : Type 0} → ℕ → List A → List A
limit zero xs = []
limit (suc n) [] = []
limit (suc n) (x ∷ xs) = x ∷ limit n xs

abbrev pub is_fresh : {T : Type 0} → Instant → CacheEntry T → Bool
is_fresh now e = ltb (now - e.last_accessed) e.ttl

abbrev pub hit : ProjectionMetrics → ProjectionMetrics
hit m = record m { cache_hits = add64 m.cache_hits 1 }

abbrev pub missed : ProjectionMetrics → ProjectionMetrics
missed m = record m { cache_misses = add64 m.cache_misses 1 }

-- A query that took so many microseconds.
abbrev pub timed : ℕ → ProjectionMetrics → ProjectionMetrics
timed took m = record m { query_duration = add64 m.query_duration took }

module _ {D : Type 0} where
  -- A statement, by the faults that are to come.
  abbrev pub send_with : List (Option String) → Action (ProjectionStore D) String (Unit {0})
  send_with [] s = (ok tt, s)
  send_with (none ∷ later) s = (ok tt, record s { faults = later })
  send_with (some e ∷ later) s = (err e, record s { faults = later })

  abbrev pub send : Action (ProjectionStore D) String (Unit {0})
  send s = send_with s.faults s

  abbrev pub count :
      (ProjectionMetrics → ProjectionMetrics) → Action (ProjectionStore D) String (Unit {0})
  count f = modify (λ s. record s { metrics = f s.metrics })

  -- `SELECT … FROM account_projections WHERE id = $1`
  abbrev pub row_of : Uuid → List (AccountProjection D) → Option (AccountProjection D)
  row_of account_id rows = find (λ a. eqb a.id account_id) rows

  abbrev pub entry_for : {T : Type 0} → Instant → T → ProjectionStore D → CacheEntry T
  entry_for now value s = record {
    entry = value;
    last_accessed = now;
    version = s.cache_version;
    ttl = s.config.cache_ttl_secs * 1000;
  }

  abbrev pub cache_found :
      Instant → Uuid → Option (AccountProjection D) → Action (ProjectionStore D) String (Unit {0})
  cache_found now account_id none = lift (ok tt)
  cache_found now account_id (some account) = modify (λ s. record s {
    account_cache = insert account_id (entry_for now account s) s.account_cache;
  })

  -- The query of `get_account`, and its entry in the cache.
  unfoldable pub load_account :
      Instant → (took : ℕ) → Uuid → Action (ProjectionStore D) String (Option (AccountProjection D))
  load_account now took account_id s =
      (do
        count missed
        send
        cache_found now account_id (row_of account_id s.tables.accounts)
        count (timed took)
        lift (ok (row_of account_id s.tables.accounts)))
        s

  abbrev pub account_or_load :
      Instant
      → (took : ℕ) → Uuid
      → Option (CacheEntry (AccountProjection D))
      → Action (ProjectionStore D) String (Option (AccountProjection D))
  account_or_load now took account_id none = load_account now took account_id
  account_or_load now took account_id (some e) =
      if is_fresh now e
      then (count hit >> lift (ok (some e.entry)))
      else load_account now took account_id

  -- `get_account`
  unfoldable pub get_account :
      Instant → (took : ℕ) → Uuid → Action (ProjectionStore D) String (Option (AccountProjection D))
  unfolding load_account
  get_account now took account_id s =
      account_or_load now took account_id (lookup account_id s.account_cache) s

  -- `SELECT … WHERE account_id = $1 ORDER BY timestamp DESC LIMIT 1000`
  abbrev pub rows_of : Uuid → List (TransactionProjection D) → List (TransactionProjection D)
  rows_of account_id rows =
      limit 1000 (descending (λ t. t.timestamp) (retain (λ t. eqb t.account_id account_id) rows))

  unfoldable pub load_transactions :
      Instant
      → (took : ℕ) → Uuid
      → Action (ProjectionStore D) String (List (TransactionProjection D))
  load_transactions now took account_id s =
      (do
        count missed
        send
        modify (λ t. record t {
          transaction_cache =
              insert account_id (entry_for now (rows_of account_id s.tables.transactions) t)
                t.transaction_cache;
        })
        count (timed took)
        lift (ok (rows_of account_id s.tables.transactions)))
        s

  abbrev pub transactions_or_load :
      Instant
      → (took : ℕ) → Uuid
      → Option (CacheEntry (List (TransactionProjection D)))
      → Action (ProjectionStore D) String (List (TransactionProjection D))
  transactions_or_load now took account_id none = load_transactions now took account_id
  transactions_or_load now took account_id (some e) =
      if is_fresh now e
      then (count hit >> lift (ok e.entry))
      else load_transactions now took account_id

  -- `get_account_transactions`
  unfoldable pub get_account_transactions :
      Instant
      → (took : ℕ) → Uuid
      → Action (ProjectionStore D) String (List (TransactionProjection D))
  unfolding load_transactions
  get_account_transactions now took account_id s =
      transactions_or_load now took account_id (lookup account_id s.transaction_cache) s

  -- `get_all_accounts`
  unfoldable pub get_all_accounts :
      (took : ℕ) → Action (ProjectionStore D) String (List (AccountProjection D))
  get_all_accounts took s =
      (do
        send
        count (timed took)
        lift (
            ok (
              limit 10000
                (descending (λ a. a.created_at) (retain (λ a. a.is_active) s.tables.accounts)))))
        s

  -- A round of `cache_cleanup_worker`.
  unfoldable pub cleanup : Instant → ProjectionStore D → ProjectionStore D
  cleanup now s =
      let cutoff = now - 1800 * 1000 in
      record s {
        account_cache =
            retain (λ (e : Uuid × CacheEntry (AccountProjection D)). ltb cutoff e.1.last_accessed)
              s.account_cache;
        transaction_cache =
            retain
              (λ (e : Uuid × CacheEntry (List (TransactionProjection D))).
                ltb cutoff e.1.last_accessed)
              s.transaction_cache;
      }
