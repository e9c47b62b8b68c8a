-- ===== src/Cache/Warmup.antt =====
-- src/infrastructure/cache_service.rs: `initialize` and `warmup_cache`.
use banking_es_feature_redis.Prelude.{
  ℕ, ◌*◌, ◌+◌, true, false, none, some, List, [], ◌∷◌, String, I64, get_elem?, Outcome, ok, panic,
  if◌then◌else◌,
}
use banking_es_feature_redis.Prelude.Actions.{Action, ◌>>=◌, ◌>>◌, lift, modify, map_error, matched}
use banking_es_feature_redis.Domain.{Uuid, Account, AccountEvent}
use banking_es_feature_redis.EventStore.{Instant}
use banking_es_feature_redis.Cache.Types.{
  Failure, redis_error, RedisKey, account_key, events_key, test_key, RedisValue, bytes, other,
  Libraries, WarmingState, CacheService,
}
use banking_es_feature_redis.Cache.Memory.{update_in_memory_cache}
use banking_es_feature_redis.Cache.Service.{on_redis, count, connect, cache_events, warmed, chunks}

abbrev pub warming_for : List Uuid → WarmingState → WarmingState
warming_for account_ids w = record w { is_warming = true; accounts_to_warm = account_ids }

abbrev pub warm_at : Instant → WarmingState → WarmingState
warm_at now w = record w { is_warming = false; last_warmup = some now; accounts_to_warm = [] }

module _ {R Bytes D : Type 0} (libraries : Libraries R Bytes D) where
  abbrev pub set_warming :
      (WarmingState → WarmingState) → Action (CacheService R D) Failure (Unit {0})
  set_warming f = modify (λ s. record s { warming_state = f s.warming_state })

  unfoldable pub start : Action (CacheService R D) Failure (Unit {0})
  start = do
    connect libraries
    matched (on_redis libraries (libraries.get test_key)) (λ _. lift (ok tt)) (λ _. lift (ok tt))
    set_warming (warming_for [])

  -- `initialize`; what the read of `test` gives is ignored.
  unfoldable pub initialize : Action (CacheService R D) Failure (Unit {0})
  unfolding start
  initialize s = if s.warming_state.is_warming then (ok tt, s) else start s

  -- The keys that a pipeline asks for.
  abbrev pub keys : List Uuid → List RedisKey
  keys [] = []
  keys (account_id ∷ ids) = account_key account_id ∷ events_key account_id ∷ keys ids

  abbrev pub bytes_or_none : RedisValue Bytes → Bytes
  bytes_or_none (bytes b) = b
  bytes_or_none other = libraries.no_bytes

  -- `&results[i]`
  abbrev pub result_at : List (RedisValue Bytes) → ℕ → Outcome Failure Bytes
  result_at results i = elim (get_elem? results i) [
    | none ↦ panic
    | some value ↦ ok (bytes_or_none value)
  ]

  -- An account of which both values are read goes into memory.
  unfoldable pub warm_account :
      Instant
      → Uuid
      → Outcome String (Account D)
      → Outcome String (List (I64 × AccountEvent D))
      → Action (CacheService R D) Failure (Unit {0})
  warm_account now account_id (ok account) (ok events) = do
    update_in_memory_cache now account_id account
    cache_events libraries account_id events
    count libraries warmed
  warm_account now account_id panic _ = lift panic
  warm_account now account_id _ panic = lift panic
  warm_account now account_id _ _ = lift (ok tt)

  -- The `i`-th account of a chunk, and what comes after it.
  abbrev pub warm_next :
      Instant
      → List (RedisValue Bytes)
      → ℕ
      → Uuid
      → Action (CacheService R D) Failure (Unit {0})
      → Action (CacheService R D) Failure (Unit {0})
  warm_next now results i account_id rest = do
    account_bytes ← lift (result_at results (i * 2))
    events_bytes ← lift (result_at results (i * 2 + 1))
    warm_account now account_id (libraries.account_from_slice account_bytes)
        (libraries.events_from_slice events_bytes)
    rest

  -- The accounts of a chunk, from the `i`-th on.
  unfoldable pub warm_chunk :
      Instant
      → List (RedisValue Bytes)
      → ℕ
      → List Uuid
      → Action (CacheService R D) Failure (Unit {0})
  unfolding warm_account
  warm_chunk now results i [] = lift (ok tt)
  warm_chunk now results i (account_id ∷ ids) =
      warm_next now results i account_id (warm_chunk now results (i + 1) ids)

  abbrev pub warm_part :
      Instant
      → List Uuid
      → Action (CacheService R D) Failure (Unit {0})
      → Action (CacheService R D) Failure (Unit {0})
  warm_part now chunk rest = do
    results ← map_error redis_error (on_redis libraries (libraries.query (keys chunk)))
    warm_chunk now results 0 chunk
    rest

  unfoldable pub warm_chunks :
      Instant → List (List Uuid) → Action (CacheService R D) Failure (Unit {0})
  unfolding warm_chunk
  warm_chunks now [] = lift (ok tt)
  warm_chunks now (chunk ∷ rest) = warm_part now chunk (warm_chunks now rest)

  -- The warm-up behind the first writing of its state.
  unfoldable pub warm_rest :
      (batch_size : ℕ) → Instant → List Uuid → Action (CacheService R D) Failure (Unit {0})
  unfolding warm_chunks
  warm_rest batch_size now account_ids = do
    connect libraries
    parts ← lift (chunks batch_size account_ids)
    warm_chunks now parts
    set_warming (warm_at now)

  unfoldable pub warm_in :
      (batch_size : ℕ) → Instant → List Uuid → Action (CacheService R D) Failure (Unit {0})
  unfolding warm_rest
  warm_in batch_size now account_ids s =
      warm_rest batch_size now account_ids
        (record s { warming_state = warming_for account_ids s.warming_state })

  -- `warmup_cache`
  unfoldable pub warmup_cache : Instant → List Uuid → Action (CacheService R D) Failure (Unit {0})
  unfolding warm_in
  warmup_cache now account_ids s =
      if s.warming_state.is_warming
      then (ok tt, s)
      else warm_in s.config.warmup_batch_size now account_ids s
