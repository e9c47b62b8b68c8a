-- ===== src/Cache/Requests.antt =====
-- Requests to the cache of src/infrastructure/cache_service.rs, and what they keep.
use banking_es_feature_redis.Prelude.{
  ℕ, zero, suc, ◌+◌, refl, Option, List, [], ◌∷◌, I64, nat_eq, inl, inr, arith,
}
use banking_es_feature_redis.Prelude.Invariants.{Keeps}
use banking_es_feature_redis.Domain.{Uuid, Account, AccountEvent}
use banking_es_feature_redis.EventStore.{Instant}
use banking_es_feature_redis.Cache.Types.{Duration, CacheConfig, Libraries, CacheService}
use banking_es_feature_redis.Cache.Memory.{
  update_in_memory_cache, cleanup, new_service, replicate, remove_from_shard,
}
use banking_es_feature_redis.Cache.Service.{
  get_account, set_account, delete_account, get_account_events, set_account_events,
  delete_account_events, invalidate_account,
}
use banking_es_feature_redis.Cache.Warmup.{initialize, warmup_cache}
use banking_es_feature_redis.Cache.Update.{
  update_in_memory_cache-Updated, Updated, Removed, remove_from_shard-Removed, index,
}
use banking_es_feature_redis.Cache.Frame.{
  IsStable, Keeps-get_account, Keeps-set_account, Keeps-delete_account, Keeps-get_account_events,
  Keeps-set_account_events, Keeps-delete_account_events, Keeps-invalidate_account, Keeps-initialize,
  Keeps-warmup_cache,
}
use banking_es_feature_redis.Cache.Bounds.{AllFit, AllFit-insert, AllFit-remove, AllFit-retain}

pub data Request (D : Type 0) : Type 0 where
  get : Instant → Uuid → Request D
  put : Instant → Account D → Option Duration → Request D
  delete : Uuid → Request D
  get_events : Uuid → Request D
  put_events : Uuid → List (I64 × AccountEvent D) → Option Duration → Request D
  delete_events : Uuid → Request D
  invalidate : Uuid → Request D
  initialise : Request D
  warm_up : Instant → List Uuid → Request D
  clean : Instant → Request D

module _ {R Bytes D : Type 0} (libraries : Libraries R Bytes D) where
  -- The cache after a request, and after requests one by one.
  unfoldable pub perform : Request D → CacheService R D → CacheService R D
  perform (get now i) s = (get_account libraries now i s).1
  perform (put now account ttl) s = (set_account libraries now account ttl s).1
  perform (delete i) s = (delete_account libraries i s).1
  perform (get_events i) s = (get_account_events libraries i s).1
  perform (put_events i events ttl) s = (set_account_events libraries i events ttl s).1
  perform (delete_events i) s = (delete_account_events libraries i s).1
  perform (invalidate i) s = (invalidate_account libraries i s).1
  perform initialise s = (initialize libraries s).1
  perform (warm_up now ids) s = (warmup_cache libraries now ids s).1
  perform (clean now) s = cleanup now s

  unfoldable pub perform_all : List (Request D) → CacheService R D → CacheService R D
  perform_all [] s = s
  perform_all (request ∷ requests) s = perform_all requests (perform request s)

  -- Each shard is small enough and has its own keys only.
  abbrev pub IsBounded : CacheService R D → Type 0
  IsBounded s = AllFit s.config 0 s.shards

  update-IsBounded :
      (now : Instant) (i : Uuid) (account : Account D)
      → Keeps IsBounded (update_in_memory_cache now i account)
  update-IsBounded now i account = record {
    at = λ s h. kept s h (update_in_memory_cache-Updated now i account s);
  }
    where
      kept :
          (s : CacheService R D)
          → IsBounded s
          → Updated now i account s (update_in_memory_cache now i account s)
          → IsBounded (update_in_memory_cache now i account s).1
      kept s h (inl (fails, same)) = rw same h
      kept s h (inr (shard, (some_shards, here), room, e)) =
          rw e (AllFit-insert s.config (index i s) i _ s.shards shard here room refl h)

  remove-IsBounded : (i : Uuid) → Keeps IsBounded (remove_from_shard {R = R} {D = D} i)
  remove-IsBounded i = record { at = λ s h. kept s h (remove_from_shard-Removed i s) }
    where
      kept :
          (s : CacheService R D)
          → IsBounded s
          → Removed i s (remove_from_shard i s).1
          → IsBounded (remove_from_shard i s).1
      kept s h (inl same) = rw same h
      kept s h (inr (shard, (some_shards, here), e)) =
          rw e (AllFit-remove s.config (index i s) i s.shards shard here h)

  IsBounded-IsStable : IsStable IsBounded
  IsBounded-IsStable = record {
    redis_kept = λ s redis h. h;
    metrics_kept = λ s metrics h. h;
    events_kept = λ s events h. h;
    update_kept = update-IsBounded;
    remove_kept = remove-IsBounded;
  }

  perform-IsBounded :
      (request : Request D) (s : CacheService R D) → IsBounded s → IsBounded (perform request s)
  unfolding perform cleanup
  perform-IsBounded (get now i) s h = (Keeps-get_account libraries IsBounded-IsStable now i).at s h
  perform-IsBounded (put now account ttl) s h =
      (Keeps-set_account libraries IsBounded-IsStable now account ttl).at s h
  perform-IsBounded (delete i) s h = (Keeps-delete_account libraries IsBounded-IsStable i).at s h
  perform-IsBounded (get_events i) s h =
      (Keeps-get_account_events libraries IsBounded-IsStable i).at s h
  perform-IsBounded (put_events i events ttl) s h =
      (Keeps-set_account_events libraries IsBounded-IsStable i events ttl).at s h
  perform-IsBounded (delete_events i) s h =
      (Keeps-delete_account_events libraries IsBounded-IsStable i).at s h
  perform-IsBounded (invalidate i) s h =
      (Keeps-invalidate_account libraries IsBounded-IsStable i).at s h
  perform-IsBounded initialise s h =
      (Keeps-initialize libraries IsBounded-IsStable (λ s w h. h)).at s h
  perform-IsBounded (warm_up now ids) s h =
      (Keeps-warmup_cache libraries IsBounded-IsStable (λ s w h. h) now ids).at s h
  perform-IsBounded (clean now) s h = AllFit-retain s.config 0 _ s.shards h

  pub perform_all-IsBounded :
      (requests : List (Request D)) (s : CacheService R D)
      → IsBounded s
      → IsBounded (perform_all requests s)
  unfolding perform_all
  perform_all-IsBounded [] s h = h
  perform_all-IsBounded (request ∷ requests) s h =
      perform_all-IsBounded requests (perform request s) (perform-IsBounded request s h)

AllFit-replicate :
    (D : Type 0) (config : CacheConfig) (i n : ℕ) → AllFit {D = D} config i (replicate n [])
AllFit-replicate D config i zero = tt
AllFit-replicate D config i (suc n) = ((omega arith, tt), AllFit-replicate D config (i + 1) n)

-- After any requests to a new cache, its rounds of cleanup included, each shard has at most
-- `max_size` entries, or one if that is zero, and the `i`-th shard only keys whose remainder by
-- the number of shards is `i`.
pub perform_all-new_service :
    {R Bytes D : Type 0} (libraries : Libraries R Bytes D) (redis : R) (config : CacheConfig)
    (requests : List (Request D))
    → IsBounded libraries (perform_all libraries requests (new_service redis config))
unfolding new_service
perform_all-new_service libraries redis config requests =
    perform_all-IsBounded libraries requests (new_service redis config)
      (AllFit-replicate _ config 0 config.shard_count)
