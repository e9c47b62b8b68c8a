-- ===== src/Cache/Reads.antt =====
-- What src/infrastructure/cache_service.rs reads after a write.
use banking_es_feature_redis.Prelude.{
  ℕ, ◌-◌, ◌/◌, ◌≤◌, ◌≡◌, ◌≢◌, refl, sym, ◌∙◌, true, Option, none, some, [], length, set, leb,
  if◌then◌else◌, String, Outcome, ok, err, map_err, insert, remove, lookup, nat_eq, inl, inr, arith,
  ap, lookup-insert_self, lookup-remove, get_elem?-set_self,
}
use banking_es_feature_redis.Prelude.Actions.{Action, ◌>>=◌, ◌>>◌, lift, modify, map_error, bind-ok}
use banking_es_feature_redis.Prelude.Invariants.{
  Keeps, Keeps-bind, Keeps-lift, Keeps-map_error, Ensures, Ensures-bind,
}
use banking_es_feature_redis.Domain.{Uuid, Account}
use banking_es_feature_redis.EventStore.{Instant}
use banking_es_feature_redis.Cache.Types.{
  Duration, CacheEntry, Failure, redis_error, serde_error, blocked, Libraries, Shard, CacheService,
  account_key, events_key,
}
use banking_es_feature_redis.Cache.Memory.{
  get_shard_index, read_shard, update_in_memory_cache, remove_from_shard, new_entry, is_expired,
}
use banking_es_feature_redis.Cache.Service.{
  on_redis, count, connect, evicted, fetch_account, entry_or_fetch, get_account, set_account,
  set_account_for, delete_account, invalidate_account, invalidate_redis, fetch_events,
  events_or_fetch, get_account_events, or_default,
}
use banking_es_feature_redis.Cache.Update.{
  index, HasShard, Updated, update_in_memory_cache-Updated, update_in_memory_cache-full,
  get_shard_index_known, read_shard_known, remove_from_shard_known,
}

-- The entry that is made at this time.
abbrev pub entry_at : {D : Type 0} → Instant → Account D → Duration → CacheEntry (Account D)
entry_at now account ttl = record {
  value = account;
  created_at = now;
  last_accessed = now;
  access_count = 1;
  time_to_live = ttl;
}

module _ {R D : Type 0} where
  -- The memory of the cache has this entry of the account.
  abbrev pub HasEntry : Uuid → CacheEntry (Account D) → CacheService R D → Type 0
  HasEntry account_id entry s =
      (shard : Shard D) × HasShard account_id shard s × (lookup account_id shard ≡ some entry)

  update-HasEntry :
      (now : Instant) (account_id : Uuid) (account : Account D) (ttl : Duration)
      → Ensures
          (λ (s : CacheService R D). s.config.default_ttl ≡ ttl)
          (update_in_memory_cache now account_id account)
          (λ _. HasEntry account_id (entry_at now account ttl))
  update-HasEntry now account_id account ttl = record {
    at = λ s h a e. found s h e (update_in_memory_cache-Updated now account_id account s);
  }
    where
      found :
          (s : CacheService R D)
          → s.config.default_ttl ≡ ttl
          → (update_in_memory_cache now account_id account s).0 ≡ ok tt
          → Updated now account_id account s (update_in_memory_cache now account_id account s)
          → HasEntry account_id
              (entry_at now account ttl)
              (update_in_memory_cache now account_id account s).1
      found s h e (inl (fails, same)) = absurd (fails e)
      found s h e (inr (shard, (some_shards, here), room, done)) = rw done (
        insert account_id (new_entry now account s) shard,
        (
          some_shards,
          get_elem?-set_self s.shards (index account_id s)
              (insert account_id (new_entry now account s) shard) shard here,
        ),
        lookup-insert_self account_id (new_entry now account s) shard
            ∙ ap (λ t. some (entry_at now account t)) h,
      )

module _ {R Bytes D : Type 0} (libraries : Libraries R Bytes D) where
  abbrev from_shard :
      Instant → Uuid → Shard D → Action (CacheService R D) Failure (Option (Account D))
  from_shard now account_id shard =
      entry_or_fetch libraries now account_id (lookup account_id shard)

  abbrev from_index : Instant → Uuid → ℕ → Action (CacheService R D) Failure (Option (Account D))
  from_index now account_id i = read_shard i >>= from_shard now account_id

  get_account_known :
      (now : Instant) (account_id : Uuid) (shard : Shard D) (s : CacheService R D)
      → HasShard account_id shard s
      → get_account libraries now account_id s
        ≡ entry_or_fetch libraries now account_id (lookup account_id shard) s
  unfolding get_account
  get_account_known now account_id shard s (some_shards, here) =
      let i = index account_id s in
      bind-ok (get_shard_index account_id) (from_index now account_id) s s i
        (get_shard_index_known account_id s some_shards)
      ∙ bind-ok (read_shard i) (from_shard now account_id) s s shard
          (read_shard_known i shard s here)

  -- A fresh entry is read, and one that has expired is never got past.
  get_account-HasEntry :
      (now : Instant) (account_id : Uuid) (entry : CacheEntry (Account D)) (s : CacheService R D)
      → HasEntry account_id entry s
      → (get_account libraries now account_id s).0
        ≡ (if is_expired now entry then err blocked else ok (some entry.value))
  get_account-HasEntry now account_id entry s (shard, has, here) =
      ap (λ (x : Outcome Failure (Option (Account D)) × CacheService R D). x.0)
        (get_account_known now account_id shard s has)
      ∙ rw (here, entry_or_fetch) (ground arith)

  set_account_for-HasEntry :
      (now : Instant) (account : Account D) (seconds : ℕ) (ttl : Duration)
      → Ensures
          (λ (s : CacheService R D). s.config.default_ttl ≡ ttl)
          (set_account_for libraries now account seconds)
          (λ _. HasEntry account.id (entry_at now account ttl))
  unfolding set_account_for
  set_account_for-HasEntry now account seconds ttl =
      Ensures-bind (connect libraries) _
        (Keeps-map_error redis_error (on_redis libraries libraries.get_connection)
          (record { at = λ s h. h }))
        λ _.
          Ensures-bind (lift (map_err serde_error (libraries.account_to_vec account))) _
            (record { at = λ s h. h })
            λ value.
              Ensures-bind
                (map_error redis_error
                  (on_redis libraries (libraries.set_ex (account_key account.id) value seconds)))
                _
                (Keeps-map_error redis_error
                  (on_redis libraries (libraries.set_ex (account_key account.id) value seconds))
                  (record { at = λ s h. h }))
                λ _. update-HasEntry now account.id account ttl

  set_account-HasEntry :
      (now : Instant) (account : Account D) (ttl : Option Duration) (s : CacheService R D)
      → (set_account libraries now account ttl s).0 ≡ ok tt
      → HasEntry account.id
          (entry_at now account s.config.default_ttl)
          (set_account libraries now account ttl s).1
  unfolding set_account
  set_account-HasEntry now account ttl s done =
      (set_account_for-HasEntry now account (or_default libraries ttl s / 1000)
          s.config.default_ttl).at
        s refl tt done

  -- After a `set_account` that succeeds, with whatever time to live, `get_account` gives that
  -- account until the default time to live has passed, and from then on does not return.
  pub get_account-set_account :
      (now later : Instant) (account : Account D) (ttl : Option Duration) (s : CacheService R D)
      → (set_account libraries now account ttl s).0 ≡ ok tt
      → (get_account libraries later account.id (set_account libraries now account ttl s).1).0
        ≡ (if leb s.config.default_ttl (later - now) then err blocked else ok (some account))
  get_account-set_account now later account ttl s done =
      get_account-HasEntry later account.id (entry_at now account s.config.default_ttl)
        (set_account libraries now account ttl s).1 (set_account-HasEntry now account ttl s done)

  delete_account-HasEntry :
      (account_id i : Uuid) (entry : CacheEntry (Account D))
      → Keeps (HasEntry account_id entry) (delete_account libraries i)
  unfolding delete_account
  delete_account-HasEntry account_id i entry =
      Keeps-bind (connect libraries) _
        (Keeps-map_error redis_error (on_redis libraries libraries.get_connection)
          (record { at = λ s h. h }))
        λ _.
          Keeps-bind (map_error redis_error (on_redis libraries (libraries.del (account_key i))))
            (λ _. count libraries evicted)
            (Keeps-map_error redis_error (on_redis libraries (libraries.del (account_key i)))
              (record { at = λ s h. h }))
            λ _. record { at = λ s h. h }

  -- After a `set_account` that succeeds and then a `delete_account`, whatever it answers,
  -- `get_account` still gives the account until the default time to live has passed, and from
  -- then on does not return.
  pub get_account-delete_account :
      (now later : Instant) (account : Account D) (ttl : Option Duration) (s : CacheService R D)
      → (set_account libraries now account ttl s).0 ≡ ok tt
      → let t =
          (delete_account libraries account.id (set_account libraries now account ttl s).1).1 in
        (get_account libraries later account.id t).0
        ≡ (if leb s.config.default_ttl (later - now) then err blocked else ok (some account))
  get_account-delete_account now later account ttl s done =
      let t = (set_account libraries now account ttl s).1 in
      let entry = entry_at now account s.config.default_ttl in
      get_account-HasEntry later account.id entry (delete_account libraries account.id t).1 (
        (delete_account-HasEntry account.id account.id entry).at t
          (set_account-HasEntry now account ttl s done))

  -- The memory of the cache has nothing of the account.
  abbrev Forgotten : Uuid → CacheService R D → Type 0
  Forgotten account_id s =
      ((shard : Shard D) × HasShard account_id shard s × (lookup account_id shard ≡ none))
      × (lookup account_id s.event_cache ≡ none)

  asked-Forgotten :
      (account_id : Uuid) (action : Action R String (Unit {0}))
      → Keeps (Forgotten account_id) (map_error redis_error (on_redis libraries action))
  asked-Forgotten account_id action =
      Keeps-map_error redis_error (on_redis libraries action) (record { at = λ s h. h })

  invalidate_redis-Forgotten :
      (account_id : Uuid) → Keeps (Forgotten account_id) (invalidate_redis libraries account_id)
  invalidate_redis-Forgotten account_id =
      Keeps-bind (connect libraries) _ (asked-Forgotten account_id libraries.get_connection) λ _.
        Keeps-bind _ _ (asked-Forgotten account_id (libraries.del (account_key account_id))) λ _.
          Keeps-bind _ (λ _. count libraries evicted)
            (asked-Forgotten account_id (libraries.del (events_key account_id)))
            λ _. record { at = λ s h. h }

  -- The memory without the account.
  abbrev without : Uuid → Shard D → CacheService R D → CacheService R D
  without account_id shard s = record s {
    shards = set s.shards (index account_id s) (remove account_id shard);
    event_cache = remove account_id s.event_cache;
  }

  without-Forgotten :
      (account_id : Uuid) (shard : Shard D) (s : CacheService R D)
      → HasShard account_id shard s
      → Forgotten account_id (without account_id shard s)
  without-Forgotten account_id shard s (some_shards, here) = (
    (
      remove account_id shard,
      (
        some_shards,
        get_elem?-set_self s.shards (index account_id s) (remove account_id shard) shard here,
      ),
      lookup-remove account_id account_id shard ∙ ground arith,
    ),
    lookup-remove account_id account_id s.event_cache ∙ ground arith,
  )

  invalidate_account_known :
      (account_id : Uuid) (shard : Shard D) (s : CacheService R D)
      → HasShard account_id shard s
      → invalidate_account libraries account_id s
        ≡ invalidate_redis libraries account_id (without account_id shard s)
  unfolding invalidate_account
  invalidate_account_known account_id shard s has =
      bind-ok (remove_from_shard account_id)
        (λ _.
          modify
            (λ (t : CacheService R D). record t { event_cache = remove account_id t.event_cache })
          >> invalidate_redis libraries account_id)
        s (record s { shards = set s.shards (index account_id s) (remove account_id shard) }) tt
        (remove_from_shard_known account_id shard s has)

  Forgotten-fetch :
      (now : Instant) (account_id : Uuid) (t : CacheService R D)
      → Forgotten account_id t
      → (get_account libraries now account_id t ≡ fetch_account libraries now account_id t)
        × (get_account_events libraries account_id t ≡ fetch_events libraries account_id t)
  unfolding get_account_events
  Forgotten-fetch now account_id t ((shard, has, gone), no_events) = (
    get_account_known now account_id shard t has ∙ rw (gone, entry_or_fetch) refl,
    rw (no_events, events_or_fetch) refl,
  )

  -- After `invalidate_account` on an account that has a shard, even if Redis fails, `get_account`
  -- and `get_account_events` find nothing in memory and ask Redis.
  pub get_account-invalidate_account :
      (now : Instant) (account_id : Uuid) (shard : Shard D) (s : CacheService R D)
      → HasShard account_id shard s
      → let t = (invalidate_account libraries account_id s).1 in
        (get_account libraries now account_id t ≡ fetch_account libraries now account_id t)
        × (get_account_events libraries account_id t ≡ fetch_events libraries account_id t)
  get_account-invalidate_account now account_id shard s has =
      Forgotten-fetch now account_id (invalidate_account libraries account_id s).1 (
        rw (invalidate_account_known account_id shard s has) (
          (invalidate_redis-Forgotten account_id).at (without account_id shard s)
            (without-Forgotten account_id shard s has)))

  -- The account's shard, which is full.
  abbrev IsFull : Uuid → Shard D → CacheService R D → Type 0
  IsFull account_id shard s =
      HasShard account_id shard s × (leb s.config.max_size (length shard) ≡ true)

  asked-IsFull :
      (account_id : Uuid) (shard : Shard D) (action : Action R String (Unit {0}))
      → Keeps (IsFull account_id shard) (map_error redis_error (on_redis libraries action))
  asked-IsFull account_id shard action =
      Keeps-map_error redis_error (on_redis libraries action) (record { at = λ s h. h })

  update-IsFull :
      (now : Instant) (account : Account D) (shard : Shard D)
      → shard ≢ []
      → Ensures (IsFull account.id shard) (update_in_memory_cache now account.id account) (λ _ _. ⊥)
  update-IsFull now account shard nonempty = record {
    at = λ s h a e. absurd (
        blocked_ne_ok (
          sym (
            ap (λ (x : Outcome Failure (Unit {0}) × CacheService R D). x.0)
              (update_in_memory_cache-full now account.id account shard s h.0 h.1 nonempty))
          ∙ e));
  }
    where
      blocked_ne_ok : {a : Unit {0}} → ◌≡◌ {A = Outcome Failure (Unit {0})} (err blocked) (ok a) → ⊥
      blocked_ne_ok e = ground arith

  set_account_for-IsFull :
      (now : Instant) (account : Account D) (seconds : ℕ) (shard : Shard D)
      → shard ≢ []
      → Ensures (IsFull account.id shard) (set_account_for libraries now account seconds) (λ _ _. ⊥)
  unfolding set_account_for
  set_account_for-IsFull now account seconds shard nonempty =
      Ensures-bind (connect libraries) _ (asked-IsFull account.id shard libraries.get_connection)
        λ _.
          Ensures-bind (lift (map_err serde_error (libraries.account_to_vec account))) _
            (Keeps-lift (map_err serde_error (libraries.account_to_vec account)))
            λ value.
              Ensures-bind _ _
                (asked-IsFull account.id shard
                  (libraries.set_ex (account_key account.id) value seconds))
                λ _. update-IsFull now account shard nonempty

  -- If the shard of an account has an entry and at least `max_size` of them, `set_account` does
  -- not succeed, whatever Redis answers.
  pub set_account-full :
      (now : Instant) (account : Account D) (ttl : Option Duration) (shard : Shard D)
      (s : CacheService R D)
      → HasShard account.id shard s
      → s.config.max_size ≤ length shard
      → shard ≢ []
      → (set_account libraries now account ttl s).0 ≢ ok tt
  unfolding set_account
  set_account-full now account ttl shard s has full nonempty done =
      (set_account_for-IsFull now account (or_default libraries ttl s / 1000) shard nonempty).at s
        (has, ground arith) tt done
