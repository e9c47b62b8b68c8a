-- ===== src/Cache/Service.antt =====
-- src/infrastructure/cache_service.rs: the operations of `CacheService`.
use banking_es_feature_redis.Prelude.{
  ℕ, zero, suc, ◌/◌, Option, none, some, List, [], ◌∷◌, map, String, I64, add64, length, Outcome,
  ok, err, panic, map_err, lookup, insert, remove, nat_eq, if◌then◌else◌,
}
use banking_es_feature_redis.Prelude.Actions.{Action, ◌>>=◌, ◌>>◌, lift, modify, map_error, matched}
use banking_es_feature_redis.Domain.{Uuid, Account, AccountEvent}
use banking_es_feature_redis.EventStore.{Instant}
use banking_es_feature_redis.Cache.Types.{
  Duration, CacheMetrics, CacheEntry, Failure, redis_error, serde_error, blocked, account_key,
  events_key, RedisValue, bytes, other, Libraries, CacheService,
}
use banking_es_feature_redis.Cache.Memory.{
  is_expired, get_shard_index, read_shard, remove_from_shard, update_in_memory_cache,
}

abbrev pub hit : CacheMetrics → CacheMetrics
hit m = record m { hits = add64 m.hits 1 }

abbrev pub missed : CacheMetrics → CacheMetrics
missed m = record m { misses = add64 m.misses 1 }

abbrev pub evicted : CacheMetrics → CacheMetrics
evicted m = record m { evictions = add64 m.evictions 1 }

abbrev pub failed : CacheMetrics → CacheMetrics
failed m = record m { errors = add64 m.errors 1 }

abbrev pub warmed : CacheMetrics → CacheMetrics
warmed m = record m { warmups = add64 m.warmups 1 }

abbrev pub shard_hit : CacheMetrics → CacheMetrics
shard_hit m = record m { shard_hits = add64 m.shard_hits 1 }

abbrev pub shard_missed : CacheMetrics → CacheMetrics
shard_missed m = record m { shard_misses = add64 m.shard_misses 1 }

-- `[T]::chunks`, of which a size of zero panics; the fuel is the length.
unfoldable pub split_at : {A : Type 0} → ℕ → List A → List A × List A
split_at zero xs = ([], xs)
split_at (suc n) [] = ([], [])
split_at (suc n) (x ∷ xs) = let (front, back) = split_at n xs in (x ∷ front, back)

unfoldable pub chunks_from : {A : Type 0} → ℕ → ℕ → List A → List (List A)
chunks_from zero size xs = []
chunks_from (suc fuel) size [] = []
chunks_from (suc fuel) size (x ∷ xs) =
    let (front, back) = split_at size (x ∷ xs) in front ∷ chunks_from fuel size back

abbrev pub chunks : {A : Type 0} → ℕ → List A → Outcome Failure (List (List A))
chunks zero xs = panic
chunks (suc n) xs = ok (chunks_from (length xs) (suc n) xs)

module _ {R Bytes D : Type 0} (libraries : Libraries R Bytes D) where
  -- A call of the Redis client.
  abbrev pub on_redis : {E A : Type 0} → Action R E A → Action (CacheService R D) E A
  on_redis action s = let (r, redis') = action s.redis in (r, record s { redis = redis' })

  abbrev pub count : (CacheMetrics → CacheMetrics) → Action (CacheService R D) Failure (Unit {0})
  count f = modify (λ s. record s { metrics = f s.metrics })

  -- `get_connection().await?`
  abbrev pub connect : Action (CacheService R D) Failure (Unit {0})
  connect = map_error redis_error (on_redis libraries.get_connection)

  -- What `get_account` makes of the bytes that Redis has.
  unfoldable pub found_account :
      Instant
      → Uuid
      → Outcome String (Account D)
      → Action (CacheService R D) Failure (Option (Account D))
  found_account now account_id (ok account) = do
    count hit
    update_in_memory_cache now account_id account
    lift (ok (some account))
  found_account now account_id (err _) = do count failed; lift (ok none)
  found_account now account_id panic = lift panic

  abbrev pub answered_account :
      Instant → Uuid → RedisValue Bytes → Action (CacheService R D) Failure (Option (Account D))
  answered_account now account_id (bytes b) =
      found_account now account_id (libraries.account_from_slice b)
  answered_account now account_id other = do count missed; lift (ok none)

  abbrev pub redis_failed : {A : Type 0} → String → Action (CacheService R D) Failure A
  redis_failed e = do count failed; lift (err (redis_error e))

  -- `get_account` behind the shards
  unfoldable pub fetch_account :
      Instant → Uuid → Action (CacheService R D) Failure (Option (Account D))
  unfolding found_account
  fetch_account now account_id = do
    count shard_missed
    connect
    matched (on_redis (libraries.get (account_key account_id))) (answered_account now account_id)
        redis_failed

  -- What the shard has: an expired entry is removed while it is referred to.
  abbrev pub entry_or_fetch :
      Instant
      → Uuid
      → Option (CacheEntry (Account D))
      → Action (CacheService R D) Failure (Option (Account D))
  entry_or_fetch now account_id none = fetch_account now account_id
  entry_or_fetch now account_id (some entry) =
      if is_expired now entry
      then lift (err blocked)
      else (do count shard_hit; lift (ok (some entry.value)))

  -- `get_account`
  unfoldable pub get_account :
      Instant → Uuid → Action (CacheService R D) Failure (Option (Account D))
  unfolding fetch_account
  get_account now account_id = do
    i ← get_shard_index account_id
    shard ← read_shard i
    entry_or_fetch now account_id (lookup account_id shard)

  abbrev pub or_default : Option Duration → CacheService R D → Duration
  or_default none s = s.config.default_ttl
  or_default (some ttl) s = ttl

  unfoldable pub set_account_for :
      Instant → Account D → (seconds : ℕ) → Action (CacheService R D) Failure (Unit {0})
  set_account_for now account seconds = do
    connect
    value ← lift (map_err serde_error (libraries.account_to_vec account))
    map_error redis_error (on_redis (libraries.set_ex (account_key account.id) value seconds))
    update_in_memory_cache now account.id account

  -- `set_account`
  unfoldable pub set_account :
      Instant → Account D → Option Duration → Action (CacheService R D) Failure (Unit {0})
  unfolding set_account_for
  set_account now account ttl s = set_account_for now account (or_default ttl s / 1000) s

  -- `delete_account`
  unfoldable pub delete_account : Uuid → Action (CacheService R D) Failure (Unit {0})
  delete_account account_id = do
    connect
    map_error redis_error (on_redis (libraries.del (account_key account_id)))
    count evicted

  abbrev pub event_of : I64 × AccountEvent D → AccountEvent D
  event_of e = e.1

  abbrev pub cache_events :
      Uuid → List (I64 × AccountEvent D) → Action (CacheService R D) Failure (Unit {0})
  cache_events account_id events =
      modify (λ s. record s { event_cache = insert account_id events s.event_cache })

  unfoldable pub found_events :
      Uuid
      → Outcome String (List (I64 × AccountEvent D))
      → Action (CacheService R D) Failure (Option (List (AccountEvent D)))
  found_events account_id (ok events) = do
    count hit
    cache_events account_id events
    lift (ok (some (map event_of events)))
  found_events account_id (err _) = do count failed; lift (ok none)
  found_events account_id panic = lift panic

  abbrev pub answered_events :
      Uuid → RedisValue Bytes → Action (CacheService R D) Failure (Option (List (AccountEvent D)))
  answered_events account_id (bytes b) = found_events account_id (libraries.events_from_slice b)
  answered_events account_id other = do count missed; lift (ok none)

  -- `get_account_events` behind the cache in memory
  unfoldable pub fetch_events :
      Uuid → Action (CacheService R D) Failure (Option (List (AccountEvent D)))
  unfolding found_events
  fetch_events account_id = do
    connect
    matched (on_redis (libraries.get (events_key account_id))) (answered_events account_id)
        redis_failed

  abbrev pub events_or_fetch :
      Uuid
      → Option (List (I64 × AccountEvent D))
      → Action (CacheService R D) Failure (Option (List (AccountEvent D)))
  events_or_fetch account_id (some events) = lift (ok (some (map event_of events)))
  events_or_fetch account_id none = fetch_events account_id

  -- `get_account_events`
  unfoldable pub get_account_events :
      Uuid → Action (CacheService R D) Failure (Option (List (AccountEvent D)))
  unfolding fetch_events
  get_account_events account_id s = events_or_fetch account_id (lookup account_id s.event_cache) s

  unfoldable pub set_account_events_for :
      Uuid
      → List (I64 × AccountEvent D)
      → (seconds : ℕ) → Action (CacheService R D) Failure (Unit {0})
  set_account_events_for account_id events seconds = do
    connect
    value ← lift (map_err serde_error (libraries.events_to_vec events))
    map_error redis_error (on_redis (libraries.set_ex (events_key account_id) value seconds))
    cache_events account_id events

  -- `set_account_events`
  unfoldable pub set_account_events :
      Uuid
      → List (I64 × AccountEvent D)
      → Option Duration
      → Action (CacheService R D) Failure (Unit {0})
  unfolding set_account_events_for
  set_account_events account_id events ttl s =
      set_account_events_for account_id events (or_default ttl s / 1000) s

  -- `delete_account_events`
  unfoldable pub delete_account_events : Uuid → Action (CacheService R D) Failure (Unit {0})
  delete_account_events account_id = do
    connect
    map_error redis_error (on_redis (libraries.del (events_key account_id)))
    count evicted

  -- The part of `invalidate_account` that goes to Redis.
  abbrev pub invalidate_redis : Uuid → Action (CacheService R D) Failure (Unit {0})
  invalidate_redis account_id = do
    connect
    map_error redis_error (on_redis (libraries.del (account_key account_id)))
    map_error redis_error (on_redis (libraries.del (events_key account_id)))
    count evicted

  -- `invalidate_account`
  unfoldable pub invalidate_account : Uuid → Action (CacheService R D) Failure (Unit {0})
  invalidate_account account_id = do
    remove_from_shard account_id
    modify (λ s. record s { event_cache = remove account_id s.event_cache })
    invalidate_redis account_id
