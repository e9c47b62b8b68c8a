-- ===== src/Cache/Frame.antt =====
-- What the operations of src/infrastructure/cache_service.rs keep.
use banking_es_feature_redis.Prelude.{
  ℕ, ◌+◌, ◌/◌, Option, none, some, List, [], ◌∷◌, String, I64, Outcome, ok, err, panic, insert,
  remove, lookup, HashMap, nat_eq, inl, inr, Bool-cases,
}
use banking_es_feature_redis.Prelude.Actions.{Action, modify}
use banking_es_feature_redis.Prelude.Invariants.{Keeps, Keeps-lift, Keeps-map_error, keeps_rules}
use banking_es_feature_redis.Domain.{Uuid, Account, AccountEvent}
use banking_es_feature_redis.EventStore.{Instant}
use banking_es_feature_redis.Cache.Types.{
  Duration, CacheMetrics, CacheEntry, Failure, redis_error, RedisValue, bytes, other, Libraries,
  WarmingState, CacheService,
}
use banking_es_feature_redis.Cache.Memory.{
  get_shard_index, read_shard, update_in_memory_cache, remove_from_shard,
}
use banking_es_feature_redis.Cache.Service.{
  on_redis, count, connect, found_account, answered_account, fetch_account, entry_or_fetch,
  get_account, set_account, set_account_for, set_account_events_for, delete_account, cache_events,
  found_events, answered_events, fetch_events, events_or_fetch, get_account_events,
  set_account_events, delete_account_events, invalidate_account, or_default,
}
use banking_es_feature_redis.Cache.Warmup.{
  initialize, start, set_warming, warming_for, warm_account, warm_next, warm_part, warm_chunk,
  warm_chunks, warm_rest, warm_in, warmup_cache,
}
use banking_es_feature_redis.Cache.Update.{get_shard_index-same, read_shard-same}

-- A property of the cache that its parts which every operation writes do not touch.
pub record IsStable {R D : Type 0} (P : CacheService R D → Type 0) : Type 0 where
  pub redis_kept : (s : CacheService R D) (redis : R) → P s → P (record s { redis = redis })
  pub metrics_kept :
      (s : CacheService R D) (metrics : CacheMetrics) → P s → P (record s { metrics = metrics })
  pub events_kept :
      (s : CacheService R D) (events : HashMap Uuid (List (I64 × AccountEvent D)))
      → P s
      → P (record s { event_cache = events })
  pub update_kept :
      (now : Instant) (i : Uuid) (account : Account D)
      → Keeps P (update_in_memory_cache now i account)
  pub remove_kept : (i : Uuid) → Keeps P (remove_from_shard i)

module _ {R Bytes D : Type 0} (libraries : Libraries R Bytes D) {P : CacheService R D → Type 0}
    (stable : IsStable P) where
  pub Keeps-on_redis :
      {E A : Type 0} (action : Action R E A) → Keeps P (on_redis libraries {E = E} {A = A} action)
  Keeps-on_redis action = record { at = λ s h. stable.redis_kept s (action s.redis).1 h }

  Keeps-count : (f : CacheMetrics → CacheMetrics) → Keeps P (count libraries f)
  Keeps-count f = record { at = λ s h. stable.metrics_kept s (f s.metrics) h }

  pub Keeps-connect : Keeps P (connect libraries)
  Keeps-connect =
      Keeps-map_error redis_error (on_redis libraries libraries.get_connection)
        (Keeps-on_redis libraries.get_connection)

  Keeps-cache_events :
      (i : Uuid) (events : List (I64 × AccountEvent D)) → Keeps P (cache_events libraries i events)
  Keeps-cache_events i events = record {
    at = λ s h. stable.events_kept s (insert i events s.event_cache) h;
  }

  Keeps-forget_events :
      (i : Uuid)
      → Keeps P (
          modify {E = Failure}
            (λ (s : CacheService R D). record s { event_cache = remove i s.event_cache }))
  Keeps-forget_events i = record { at = λ s h. stable.events_kept s (remove i s.event_cache) h }

  update_kept :
      (now : Instant) (i : Uuid) (account : Account D)
      → Keeps P (update_in_memory_cache now i account)
  update_kept = stable.update_kept

  remove_kept : (i : Uuid) → Keeps P (remove_from_shard i)
  remove_kept = stable.remove_kept

  ruleset cache_rules = (
    keeps_rules, Keeps-count, Keeps-connect, Keeps-on_redis, Keeps-cache_events,
    Keeps-forget_events, update_kept, remove_kept,
  )

  same_index : (i : Uuid) → Keeps P (get_shard_index {R = R} {D = D} i)
  same_index i = record { at = λ s h. rw (get_shard_index-same i s) h }

  same_shard : (i : ℕ) → Keeps P (read_shard {R = R} {D = D} i)
  same_shard i = record { at = λ s h. rw (read_shard-same i s) h }

  Keeps-found_account :
      (now : Instant) (i : Uuid) (answer : Outcome String (Account D))
      → Keeps P (found_account libraries now i answer)
  unfolding found_account
  Keeps-found_account now i (ok account) = search (cache_rules)
  Keeps-found_account now i (err _) = search (cache_rules)
  Keeps-found_account now i panic = search (cache_rules)

  Keeps-answered_account :
      (now : Instant) (i : Uuid) (value : RedisValue Bytes)
      → Keeps P (answered_account libraries now i value)
  Keeps-answered_account now i (bytes b) =
      Keeps-found_account now i (libraries.account_from_slice b)
  Keeps-answered_account now i other = search (cache_rules)

  Keeps-fetch_account : (now : Instant) (i : Uuid) → Keeps P (fetch_account libraries now i)
  unfolding fetch_account
  Keeps-fetch_account now i = search (cache_rules, Keeps-answered_account)

  Keeps-entry_or_fetch :
      (now : Instant) (i : Uuid) (found : Option (CacheEntry (Account D)))
      → Keeps P (entry_or_fetch libraries now i found)
  Keeps-entry_or_fetch now i none = Keeps-fetch_account now i
  Keeps-entry_or_fetch now i (some entry) = search (cache_rules)

  pub Keeps-get_account : (now : Instant) (i : Uuid) → Keeps P (get_account libraries now i)
  unfolding get_account
  Keeps-get_account now i = search (cache_rules, same_index, same_shard, Keeps-entry_or_fetch)

  pub Keeps-delete_account : (i : Uuid) → Keeps P (delete_account libraries i)
  unfolding delete_account
  Keeps-delete_account i = search (cache_rules)

  Keeps-found_events :
      (i : Uuid) (answer : Outcome String (List (I64 × AccountEvent D)))
      → Keeps P (found_events libraries i answer)
  unfolding found_events
  Keeps-found_events i (ok events) = search (cache_rules)
  Keeps-found_events i (err _) = search (cache_rules)
  Keeps-found_events i panic = search (cache_rules)

  Keeps-answered_events :
      (i : Uuid) (value : RedisValue Bytes) → Keeps P (answered_events libraries i value)
  Keeps-answered_events i (bytes b) = Keeps-found_events i (libraries.events_from_slice b)
  Keeps-answered_events i other = search (cache_rules)

  Keeps-fetch_events : (i : Uuid) → Keeps P (fetch_events libraries i)
  unfolding fetch_events
  Keeps-fetch_events i = search (cache_rules, Keeps-answered_events)

  Keeps-events_or_fetch :
      (i : Uuid) (found : Option (List (I64 × AccountEvent D)))
      → Keeps P (events_or_fetch libraries i found)
  Keeps-events_or_fetch i (some events) = search (cache_rules)
  Keeps-events_or_fetch i none = Keeps-fetch_events i

  pub Keeps-get_account_events : (i : Uuid) → Keeps P (get_account_events libraries i)
  unfolding get_account_events
  Keeps-get_account_events i = record {
    at = λ s h. (Keeps-events_or_fetch i (lookup i s.event_cache)).at s h;
  }

  Keeps-set_account_for :
      (now : Instant) (account : Account D) (seconds : ℕ)
      → Keeps P (set_account_for libraries now account seconds)
  unfolding set_account_for
  Keeps-set_account_for now account seconds = search cache_rules

  pub Keeps-set_account :
      (now : Instant) (account : Account D) (ttl : Option Duration)
      → Keeps P (set_account libraries now account ttl)
  unfolding set_account
  Keeps-set_account now account ttl = record {
    at = λ s h. (Keeps-set_account_for now account (or_default libraries ttl s / 1000)).at s h;
  }

  Keeps-set_account_events_for :
      (i : Uuid) (events : List (I64 × AccountEvent D)) (seconds : ℕ)
      → Keeps P (set_account_events_for libraries i events seconds)
  unfolding set_account_events_for
  Keeps-set_account_events_for i events seconds = search cache_rules

  pub Keeps-set_account_events :
      (i : Uuid) (events : List (I64 × AccountEvent D)) (ttl : Option Duration)
      → Keeps P (set_account_events libraries i events ttl)
  unfolding set_account_events
  Keeps-set_account_events i events ttl = record {
    at = λ s h. (Keeps-set_account_events_for i events (or_default libraries ttl s / 1000)).at s h;
  }

  pub Keeps-delete_account_events : (i : Uuid) → Keeps P (delete_account_events libraries i)
  unfolding delete_account_events
  Keeps-delete_account_events i = search cache_rules

  pub Keeps-invalidate_account : (i : Uuid) → Keeps P (invalidate_account libraries i)
  unfolding invalidate_account
  Keeps-invalidate_account i = search cache_rules depth 9

  Keeps-warm_account :
      (now : Instant) (i : Uuid) (account : Outcome String (Account D))
      (events : Outcome String (List (I64 × AccountEvent D)))
      → Keeps P (warm_account libraries now i account events)
  unfolding warm_account
  Keeps-warm_account now i (ok account) (ok events) = search cache_rules
  Keeps-warm_account now i (ok account) (err _) = search cache_rules
  Keeps-warm_account now i (ok account) panic = search cache_rules
  Keeps-warm_account now i (err _) (ok events) = search cache_rules
  Keeps-warm_account now i (err _) (err _) = search cache_rules
  Keeps-warm_account now i (err _) panic = search cache_rules
  Keeps-warm_account now i panic events = search cache_rules

  Keeps-warm_next :
      (now : Instant) (results : List (RedisValue Bytes)) (i : ℕ) (account_id : Uuid)
      (rest : Action (CacheService R D) Failure (Unit {0}))
      → Keeps P rest
      → Keeps P (warm_next libraries now results i account_id rest)
  Keeps-warm_next now results i account_id rest kept = search (cache_rules, Keeps-warm_account)

  Keeps-warm_chunk :
      (now : Instant) (results : List (RedisValue Bytes)) (i : ℕ) (ids : List Uuid)
      → Keeps P (warm_chunk libraries now results i ids)
  unfolding warm_chunk
  Keeps-warm_chunk now results i [] = Keeps-lift (ok tt)
  Keeps-warm_chunk now results i (account_id ∷ ids) =
      Keeps-warm_next now results i account_id (warm_chunk libraries now results (i + 1) ids)
        (Keeps-warm_chunk now results (i + 1) ids)

  Keeps-warm_part :
      (now : Instant) (chunk : List Uuid) (rest : Action (CacheService R D) Failure (Unit {0}))
      → Keeps P rest
      → Keeps P (warm_part libraries now chunk rest)
  Keeps-warm_part now chunk rest kept = search (cache_rules, Keeps-warm_chunk)

  pub Keeps-warm_chunks :
      (now : Instant) (parts : List (List Uuid)) → Keeps P (warm_chunks libraries now parts)
  unfolding warm_chunks
  Keeps-warm_chunks now [] = Keeps-lift (ok tt)
  Keeps-warm_chunks now (chunk ∷ parts) =
      Keeps-warm_part now chunk (warm_chunks libraries now parts) (Keeps-warm_chunks now parts)

  -- A property that the state of the warm-up does not touch either.
  module _
      (warming_kept : (s : CacheService R D) (w : WarmingState)
        → P s
        → P (record s { warming_state = w })) where
    Keeps-set_warming : (f : WarmingState → WarmingState) → Keeps P (set_warming libraries f)
    Keeps-set_warming f = record { at = λ s h. warming_kept s (f s.warming_state) h }

    Keeps-start : Keeps P (start libraries)
    unfolding start
    Keeps-start = search (cache_rules, Keeps-set_warming)

    Keeps-warm_rest :
        (size : ℕ) (now : Instant) (ids : List Uuid) → Keeps P (warm_rest libraries size now ids)
    unfolding warm_rest
    Keeps-warm_rest size now ids = search (cache_rules, Keeps-set_warming, Keeps-warm_chunks)

    Keeps-warm_in :
        (size : ℕ) (now : Instant) (ids : List Uuid) → Keeps P (warm_in libraries size now ids)
    unfolding warm_in
    Keeps-warm_in size now ids = record {
      at = λ s h.
          (Keeps-warm_rest size now ids).at
            (record s { warming_state = warming_for ids s.warming_state })
            (warming_kept s (warming_for ids s.warming_state) h);
    }

    pub Keeps-initialize : Keeps P (initialize libraries)
    unfolding initialize
    Keeps-initialize = record {
      at = λ s h. elim (Bool-cases s.warming_state.is_warming) [
        | inl e ↦ simp e h
        | inr e ↦ simp e (Keeps-start.at s h)
      ];
    }

    pub Keeps-warmup_cache :
        (now : Instant) (ids : List Uuid) → Keeps P (warmup_cache libraries now ids)
    unfolding warmup_cache
    Keeps-warmup_cache now ids = record {
      at = λ s h. elim (Bool-cases s.warming_state.is_warming) [
        | inl e ↦ simp e h
        | inr e ↦ simp e ((Keeps-warm_in s.config.warmup_batch_size now ids).at s h)
      ];
    }
