-- ===== src/Cache/Warming.antt =====
-- The warm-up flag of src/infrastructure/cache_service.rs.
use banking_es_feature_redis.Prelude.{
  ℕ, ◌≡◌, ◌≢◌, refl, ◌∙◌, true, List, [], ◌∷◌, Outcome, ok, inl, inr, Bool-cases, ap,
}
use banking_es_feature_redis.Prelude.Actions.{lift, matched}
use banking_es_feature_redis.Prelude.Invariants.{
  Keeps, Keeps-lift, Ensures, Ensures-bind, FailsIn, FailsIn-bind, FailsIn-modify,
}
use banking_es_feature_redis.Domain.{Uuid, Account}
use banking_es_feature_redis.EventStore.{Instant}
use banking_es_feature_redis.Cache.Types.{Failure, test_key, Libraries, CacheService}
use banking_es_feature_redis.Cache.Memory.{cleanup, update_in_memory_cache, remove_from_shard}
use banking_es_feature_redis.Cache.Service.{on_redis, connect, chunks}
use banking_es_feature_redis.Cache.Warmup.{
  initialize, start, set_warming, warming_for, warm_chunks, warm_at, warm_rest, warm_in,
  warmup_cache,
}
use banking_es_feature_redis.Cache.Update.{
  Updated, update_in_memory_cache-Updated, Removed, remove_from_shard-Removed,
}
use banking_es_feature_redis.Cache.Frame.{
  IsStable, Keeps-connect, Keeps-get_account, Keeps-set_account, Keeps-delete_account,
  Keeps-get_account_events, Keeps-set_account_events, Keeps-delete_account_events,
  Keeps-invalidate_account, Keeps-warm_chunks,
}
use banking_es_feature_redis.Cache.Requests.{
  Request, get, put, delete, get_events, put_events, delete_events, invalidate, initialise, warm_up,
  clean, perform, perform_all,
}

module _ {R D : Type 0} where
  abbrev pub IsWarming : CacheService R D → Type 0
  IsWarming s = s.warming_state.is_warming ≡ true

  update-IsWarming :
      (now : Instant) (i : Uuid) (account : Account D)
      → Keeps IsWarming (update_in_memory_cache now i account)
  update-IsWarming now i account = record {
    at = λ s h. kept s h (update_in_memory_cache-Updated now i account s);
  }
    where
      kept :
          (s : CacheService R D)
          → IsWarming s
          → Updated now i account s (update_in_memory_cache now i account s)
          → IsWarming (update_in_memory_cache now i account s).1
      kept s h (inl (fails, same)) = rw same h
      kept s h (inr (shard, here, room, e)) = rw e h

  remove-IsWarming : (i : Uuid) → Keeps IsWarming (remove_from_shard {R = R} {D = D} i)
  remove-IsWarming i = record { at = λ s h. kept s h (remove_from_shard-Removed i s) }
    where
      kept :
          (s : CacheService R D)
          → IsWarming s
          → Removed i s (remove_from_shard i s).1
          → IsWarming (remove_from_shard i s).1
      kept s h (inl same) = rw same h
      kept s h (inr (shard, here, e)) = rw e h

  IsWarming-IsStable : IsStable IsWarming
  IsWarming-IsStable = record {
    redis_kept = λ s redis h. h;
    metrics_kept = λ s metrics h. h;
    events_kept = λ s events h. h;
    update_kept = update-IsWarming;
    remove_kept = remove-IsWarming;
  }

module _ {R Bytes D : Type 0} (libraries : Libraries R Bytes D) where
  initialize-warming : (s : CacheService R D) → IsWarming s → initialize libraries s ≡ (ok tt, s)
  unfolding initialize
  initialize-warming s h = simp h refl

  warmup_cache-warming :
      (now : Instant) (ids : List Uuid) (s : CacheService R D)
      → IsWarming s
      → warmup_cache libraries now ids s ≡ (ok tt, s)
  unfolding warmup_cache
  warmup_cache-warming now ids s h = simp h refl

  perform-IsWarming :
      (request : Request D) (s : CacheService R D)
      → IsWarming s
      → IsWarming (perform libraries request s)
  unfolding perform cleanup
  perform-IsWarming (get now i) s h = (Keeps-get_account libraries IsWarming-IsStable now i).at s h
  perform-IsWarming (put now account ttl) s h =
      (Keeps-set_account libraries IsWarming-IsStable now account ttl).at s h
  perform-IsWarming (delete i) s h = (Keeps-delete_account libraries IsWarming-IsStable i).at s h
  perform-IsWarming (get_events i) s h =
      (Keeps-get_account_events libraries IsWarming-IsStable i).at s h
  perform-IsWarming (put_events i events ttl) s h =
      (Keeps-set_account_events libraries IsWarming-IsStable i events ttl).at s h
  perform-IsWarming (delete_events i) s h =
      (Keeps-delete_account_events libraries IsWarming-IsStable i).at s h
  perform-IsWarming (invalidate i) s h =
      (Keeps-invalidate_account libraries IsWarming-IsStable i).at s h
  perform-IsWarming initialise s h =
      ap (λ (x : Outcome Failure (Unit {0}) × CacheService R D). x.1.warming_state.is_warming)
        (initialize-warming s h)
      ∙ h
  perform-IsWarming (warm_up now ids) s h =
      ap (λ (x : Outcome Failure (Unit {0}) × CacheService R D). x.1.warming_state.is_warming)
        (warmup_cache-warming now ids s h)
      ∙ h
  perform-IsWarming (clean now) s h = h

  perform_all-IsWarming :
      (requests : List (Request D)) (s : CacheService R D)
      → IsWarming s
      → IsWarming (perform_all libraries requests s)
  unfolding perform_all
  perform_all-IsWarming [] s h = h
  perform_all-IsWarming (request ∷ requests) s h =
      perform_all-IsWarming requests (perform libraries request s) (perform-IsWarming request s h)

  -- The warm-up behind the writing of the flag.
  warm_rest-FailsIn :
      (size : ℕ) (now : Instant) (ids : List Uuid)
      → FailsIn IsWarming (warm_rest libraries size now ids)
  unfolding warm_rest
  warm_rest-FailsIn size now ids =
      FailsIn-bind (connect libraries) _ (Keeps-connect libraries IsWarming-IsStable) λ _.
        FailsIn-bind (lift (chunks size ids)) _ (Keeps-lift (chunks size ids)) λ parts.
          FailsIn-bind (warm_chunks libraries now parts) _
            (Keeps-warm_chunks libraries IsWarming-IsStable now parts)
            λ _. FailsIn-modify (λ s. record s { warming_state = warm_at now s.warming_state })

  warmup_cache-fails :
      (now : Instant) (ids : List Uuid) (s : CacheService R D)
      → (warmup_cache libraries now ids s).0 ≢ ok tt
      → IsWarming (warmup_cache libraries now ids s).1
  unfolding warmup_cache warm_in
  warmup_cache-fails now ids s fails = elim (Bool-cases s.warming_state.is_warming) [
    | inl e ↦ simp e refl
    | inr e ↦
        let fails' = simp e at fails in
        simp e (
          (warm_rest-FailsIn s.config.warmup_batch_size now ids).at
            (record s { warming_state = warming_for ids s.warming_state }) refl (λ _. fails'))
  ]

  start-IsWarming : Ensures (λ _. Unit {0}) (start libraries) (λ _. IsWarming)
  unfolding start
  start-IsWarming =
      Ensures-bind (connect libraries) _ (record { at = λ s h. h })
        λ _.
          Ensures-bind
            (matched (on_redis libraries (libraries.get test_key)) (λ _. lift (ok tt))
              (λ _. lift (ok tt)))
            (λ _. set_warming libraries (warming_for [])) (record { at = λ s h. h })
            λ _. record { at = λ s h a e. refl }

  pub initialize-IsWarming :
      (s : CacheService R D)
      → (initialize libraries s).0 ≡ ok tt
      → IsWarming (initialize libraries s).1
  unfolding initialize
  initialize-IsWarming s succeeds = elim (Bool-cases s.warming_state.is_warming) [
    | inl e ↦ simp e refl
    | inr e ↦ simp e (start-IsWarming.at s tt tt (simp e at succeeds))
  ]

  -- After a warm-up that fails, and any requests after it, every later warm-up answers success
  -- and changes nothing.
  pub warmup_cache-disabled :
      (now : Instant) (ids : List Uuid) (s : CacheService R D)
      → (warmup_cache libraries now ids s).0 ≢ ok tt
      → (requests : List (Request D)) (later : Instant) (others : List Uuid)
      → let t = perform_all libraries requests (warmup_cache libraries now ids s).1 in
        warmup_cache libraries later others t ≡ (ok tt, t)
  warmup_cache-disabled now ids s fails requests later others =
      warmup_cache-warming later others
        (perform_all libraries requests (warmup_cache libraries now ids s).1)
        (perform_all-IsWarming requests (warmup_cache libraries now ids s).1
          (warmup_cache-fails now ids s fails))
