-- ===== src/Cache/Types.antt =====
-- src/infrastructure/cache_service.rs: the data of the cache, and the Redis connection, which is not
-- its own code.
use banking_es_feature_redis.Prelude.{
  ℕ, ◌*◌, String, Bool, Option, List, HashMap, I64, U64, Outcome,
}
use banking_es_feature_redis.Prelude.Actions.{Action}
use banking_es_feature_redis.Domain.{Uuid, Account, AccountEvent}
use banking_es_feature_redis.EventStore.{Instant}

-- A `Duration`, in milliseconds, as the ticks of an `Instant` are here.
abbrev pub Duration : Type 0
Duration = ℕ

pub data EvictionPolicy : Type 0 where
  lru : EvictionPolicy
  lfu : EvictionPolicy
  ttl : EvictionPolicy

pub record CacheConfig : Type 0 where
  pub default_ttl : Duration
  pub max_size : ℕ
  pub shard_count : ℕ
  pub warmup_batch_size : ℕ
  pub warmup_interval : Duration
  pub eviction_policy : EvictionPolicy

-- `CacheConfig::default`
abbrev pub default_config : CacheConfig
default_config = record {
  default_ttl = 3600 * 1000;
  max_size = 10000;
  shard_count = 16;
  warmup_batch_size = 100;
  warmup_interval = 300 * 1000;
  eviction_policy = lru;
}

pub record CacheMetrics : Type 0 where
  pub hits : U64
  pub misses : U64
  pub evictions : U64
  pub errors : U64
  pub warmups : U64
  pub shard_hits : U64
  pub shard_misses : U64

-- `CacheMetrics::default`
abbrev pub default_metrics : CacheMetrics
default_metrics = record {
  hits = 0;
  misses = 0;
  evictions = 0;
  errors = 0;
  warmups = 0;
  shard_hits = 0;
  shard_misses = 0;
}

pub record CacheEntry (T : Type 0) : Type 0 where
  pub value : T
  pub created_at : Instant
  pub last_accessed : Instant
  pub access_count : U64
  pub time_to_live : Duration

-- How a call fails: with an error of Redis or of serde, or because it never returns. A call is
-- `blocked` where it waits for a lock that it holds itself: the documentation of `DashMap` has its
-- methods deadlock while a reference into the map is held.
pub data Failure : Type 0 where
  redis_error : String → Failure
  serde_error : String → Failure
  blocked : Failure

-- The keys `account:{id}` and `events:{id}`, and `test`.
pub data RedisKey : Type 0 where
  account_key : Uuid → RedisKey
  events_key : Uuid → RedisKey
  test_key : RedisKey

-- `redis::Value`: bytes, or anything else.
pub data RedisValue (Bytes : Type 0) : Type 0 where
  bytes : Bytes → RedisValue Bytes
  other : RedisValue Bytes

-- What the cache calls of the redis and serde libraries, on a server of state `R`.
pub record Libraries (R Bytes D : Type 0) : Type 0 where
  pub get_connection : Action R String (Unit {0})
  pub get : RedisKey → Action R String (RedisValue Bytes)
  pub set_ex : RedisKey → Bytes → (seconds : ℕ) → Action R String (Unit {0})
  pub del : RedisKey → Action R String (Unit {0})
  -- a pipeline of `GET`s
  pub query : List RedisKey → Action R String (List (RedisValue Bytes))
  pub account_to_vec : Account D → Outcome String Bytes
  pub account_from_slice : Bytes → Outcome String (Account D)
  pub events_to_vec : List (I64 × AccountEvent D) → Outcome String Bytes
  pub events_from_slice : Bytes → Outcome String (List (I64 × AccountEvent D))
  -- the slice `&[]`
  pub no_bytes : Bytes

pub record WarmingState : Type 0 where
  pub is_warming : Bool
  pub last_warmup : Option Instant
  pub accounts_to_warm : List Uuid

abbrev pub Shard : Type 0 → Type 0
Shard D = HashMap Uuid (CacheEntry (Account D))

-- `CacheService`, with the server that its client reaches.
pub record CacheService (R D : Type 0) : Type 0 where
  pub redis : R
  pub config : CacheConfig
  pub metrics : CacheMetrics
  pub shards : List (Shard D)
  pub event_cache : HashMap Uuid (List (I64 × AccountEvent D))
  pub warming_state : WarmingState
