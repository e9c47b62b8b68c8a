-- ===== src/Cache/Memory.antt =====
-- src/infrastructure/cache_service.rs: the shards in memory.
use banking_es_feature_redis.Prelude.{
  ℕ, zero, suc, ◌-◌, ◌%◌, Bool, Option, none, some, List, [], ◌∷◌, length, get_elem?, set, retain,
  map, not, ltb, leb, eqb, if◌then◌else◌, ok, err, panic, insert, remove, nat_eq,
}
use banking_es_feature_redis.Prelude.Actions.{Action, ◌>>=◌, ◌>>◌, lift, modify}
use banking_es_feature_redis.Domain.{Uuid, Account}
use banking_es_feature_redis.EventStore.{Instant}
use banking_es_feature_redis.Cache.Types.{
  EvictionPolicy, lru, lfu, ttl, CacheConfig, default_metrics, CacheEntry, Failure, blocked, Shard,
  CacheService,
}

-- `CacheEntry::is_expired`, of the cleanup
abbrev pub is_past : {T : Type 0} → Instant → CacheEntry T → Bool
is_past now entry = ltb entry.time_to_live (now - entry.last_accessed)

-- `CacheService::is_expired`
abbrev pub is_expired : {T : Type 0} → Instant → CacheEntry T → Bool
is_expired now entry = leb entry.time_to_live (now - entry.last_accessed)

-- `Iterator::min_by_key`: the first of the least.
abbrev pub least_from : {A : Type 0} → (A → ℕ) → A → List A → A
least_from key x [] = x
least_from key x (y ∷ ys) = least_from key (if ltb (key y) (key x) then y else x) ys

abbrev pub min_by_key : {A : Type 0} → (A → ℕ) → List A → Option A
min_by_key key [] = none
min_by_key key (x ∷ xs) = some (least_from key x xs)

abbrev pub replicate : {A : Type 0} → ℕ → A → List A
replicate zero x = []
replicate (suc n) x = x ∷ replicate n x

abbrev pub policy_key : {D : Type 0} → EvictionPolicy → Uuid × CacheEntry (Account D) → ℕ
policy_key lru e = e.1.last_accessed
policy_key lfu e = e.1.access_count
policy_key ttl e = e.1.created_at

module _ {R D : Type 0} where
  -- `new`, without the tasks that it spawns
  unfoldable pub new_service : R → CacheConfig → CacheService R D
  new_service redis config = record {
    redis = redis;
    config = config;
    metrics = default_metrics;
    shards = replicate config.shard_count [];
    event_cache = [];
    warming_state = record { is_warming = Bool.false; last_warmup = none; accounts_to_warm = [] };
  }

  -- A round of the cleanup task.
  unfoldable pub cleanup : Instant → CacheService R D → CacheService R D
  cleanup now s = record s {
    shards = map (retain (λ (e : Uuid × CacheEntry (Account D)). not (is_past now e.1))) s.shards;
  }

  -- `get_shard_index`; a remainder by zero panics.
  unfoldable pub get_shard_index : Uuid → Action (CacheService R D) Failure ℕ
  get_shard_index account_id s =
      if eqb s.config.shard_count 0 then (panic, s) else (ok (account_id % s.config.shard_count), s)

  -- `self.shards[i]`
  unfoldable pub read_shard : ℕ → Action (CacheService R D) Failure (Shard D)
  read_shard i s = elim (get_elem? s.shards i) [ none ↦ (panic, s) | some shard ↦ (ok shard, s) ]

  abbrev pub write_shard : ℕ → Shard D → Action (CacheService R D) Failure (Unit {0})
  write_shard i shard = modify (λ s. record s { shards = set s.shards i shard })

  -- `remove(entry.key())` while `entry` refers into the map.
  abbrev pub remove_held :
      Option (Uuid × CacheEntry (Account D)) → Action (CacheService R D) Failure (Unit {0})
  remove_held none = lift (ok tt)
  remove_held (some _) = lift (err blocked)

  -- `evict_entries`
  unfoldable pub evict_entries : ℕ → Action (CacheService R D) Failure (Unit {0})
  evict_entries i s =
      (read_shard i >>= λ shard.
      remove_held (min_by_key (policy_key s.config.eviction_policy) shard))
        s

  abbrev pub evict_if_full : ℕ → Shard D → Action (CacheService R D) Failure (Unit {0})
  evict_if_full i shard s =
      (if leb s.config.max_size (length shard) then evict_entries i else lift (ok tt)) s

  -- The eviction before an insertion.
  unfoldable pub make_room : ℕ → Action (CacheService R D) Failure (Unit {0})
  make_room i = read_shard i >>= evict_if_full i

  abbrev pub new_entry : Instant → Account D → CacheService R D → CacheEntry (Account D)
  new_entry now account s = record {
    value = account;
    created_at = now;
    last_accessed = now;
    access_count = 1;
    time_to_live = s.config.default_ttl;
  }

  abbrev pub insert_into :
      Instant → Uuid → Account D → ℕ → Shard D → Action (CacheService R D) Failure (Unit {0})
  insert_into now account_id account i shard s =
      write_shard i (insert account_id (new_entry now account s) shard) s

  unfoldable pub insert_entry :
      Instant → Uuid → Account D → ℕ → Action (CacheService R D) Failure (Unit {0})
  insert_entry now account_id account i = read_shard i >>= insert_into now account_id account i

  abbrev pub insert_in_shard :
      Instant → Uuid → Account D → ℕ → Action (CacheService R D) Failure (Unit {0})
  insert_in_shard now account_id account i = make_room i >> insert_entry now account_id account i

  -- `update_in_memory_cache`
  unfoldable pub update_in_memory_cache :
      Instant → Uuid → Account D → Action (CacheService R D) Failure (Unit {0})
  update_in_memory_cache now account_id account =
      get_shard_index account_id >>= insert_in_shard now account_id account

  abbrev pub remove_in : Uuid → ℕ → Shard D → Action (CacheService R D) Failure (Unit {0})
  remove_in account_id i shard = write_shard i (remove account_id shard)

  abbrev pub remove_at : Uuid → ℕ → Action (CacheService R D) Failure (Unit {0})
  remove_at account_id i = read_shard i >>= remove_in account_id i

  -- `self.shards[i].remove(&account_id)`
  unfoldable pub remove_from_shard : Uuid → Action (CacheService R D) Failure (Unit {0})
  remove_from_shard account_id = get_shard_index account_id >>= remove_at account_id
