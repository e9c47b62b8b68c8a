-- ===== src/Cache/Update.antt =====
-- Lemmas on `update_in_memory_cache` of src/infrastructure/cache_service.rs: its two outcomes.
use banking_es_feature_redis.Prelude.{
  ℕ, ◌%◌, ◌≡◌, ◌≢◌, refl, ◌∙◌, true, false, Option, none, some, [], ◌∷◌, length, get_elem?, set,
  leb, eqb, Outcome, ok, err, panic, insert, remove, nat_eq, arith, Bool-cases, Option-cases, inl,
  inr, ◌⊎◌, ap,
}
use banking_es_feature_redis.Prelude.Actions.{bind-ok, bind-err, bind-panic}
use banking_es_feature_redis.Domain.{Uuid, Account}
use banking_es_feature_redis.EventStore.{Instant}
use banking_es_feature_redis.Cache.Types.{CacheEntry, Failure, blocked, Shard, CacheService}
use banking_es_feature_redis.Cache.Memory.{
  get_shard_index, read_shard, evict_entries, update_in_memory_cache, remove_held, min_by_key,
  policy_key, evict_if_full, make_room, new_entry, insert_into, insert_entry, insert_in_shard,
  remove_in, remove_at, remove_from_shard,
}

module _ {R D : Type 0} where
  abbrev pub index : Uuid → CacheService R D → ℕ
  index account_id s = account_id % s.config.shard_count

  -- A shard takes another entry if it is not full, or has none at all.
  abbrev pub HasRoom : Shard D → CacheService R D → Type 0
  HasRoom shard s = (leb s.config.max_size (length shard) ≡ false) ⊎ (shard ≡ [])

  abbrev pub entered : Instant → Uuid → Account D → Shard D → CacheService R D → CacheService R D
  entered now account_id account shard s = record s {
    shards = set s.shards (index account_id s) (insert account_id (new_entry now account s) shard);
  }

  -- The shard of the account, if there is one.
  abbrev pub HasShard : Uuid → Shard D → CacheService R D → Type 0
  HasShard account_id shard s =
      (eqb s.config.shard_count 0 ≡ false) × (get_elem? s.shards (index account_id s) ≡ some shard)

  pub get_shard_index_known :
      (account_id : Uuid) (s : CacheService R D)
      → eqb s.config.shard_count 0 ≡ false
      → get_shard_index account_id s ≡ (ok (index account_id s), s)
  unfolding get_shard_index
  get_shard_index_known account_id s some_shards = rw some_shards refl

  pub read_shard_known :
      (i : ℕ) (shard : Shard D) (s : CacheService R D)
      → get_elem? s.shards i ≡ some shard
      → read_shard i s ≡ (ok shard, s)
  unfolding read_shard
  read_shard_known i shard s here =
      ap (λ (o : Option (Shard D)). (elim o [ none ↦ (panic, s) | some x ↦ (ok x, s) ])) here

  -- The shard may take another entry.
  make_room_known :
      (i : ℕ) (shard : Shard D) (s : CacheService R D)
      → get_elem? s.shards i ≡ some shard
      → HasRoom shard s
      → make_room i s ≡ (ok tt, s)
  unfolding make_room evict_entries
  make_room_known i shard s here (inl below) =
      bind-ok (read_shard i) (evict_if_full i) s s shard (read_shard_known i shard s here)
      ∙ rw below refl
  make_room_known i [] s here (inr empty) =
      bind-ok (read_shard i) (evict_if_full i) s s [] (read_shard_known i [] s here)
      ∙ elim (Bool-cases (leb s.config.max_size 0)) [
        | inl full ↦ rw full (
            bind-ok (read_shard i)
              (λ sh. remove_held (min_by_key (policy_key s.config.eviction_policy) sh)) s s []
              (read_shard_known i [] s here))
        | inr below ↦ rw below refl
      ]
  make_room_known i (e ∷ shard) s here (inr empty) = absurd (ground arith)

  make_room-full :
      (i : ℕ) (e : Uuid × CacheEntry (Account D)) (shard : Shard D) (s : CacheService R D)
      → get_elem? s.shards i ≡ some (e ∷ shard)
      → leb s.config.max_size (length (e ∷ shard)) ≡ true
      → make_room i s ≡ (err blocked, s)
  unfolding make_room evict_entries
  make_room-full i e shard s here full =
      bind-ok (read_shard i) (evict_if_full i) s s (e ∷ shard)
        (read_shard_known i (e ∷ shard) s here)
      ∙ rw full (
          bind-ok (read_shard i)
            (λ sh. remove_held (min_by_key (policy_key s.config.eviction_policy) sh)) s s
            (e ∷ shard) (read_shard_known i (e ∷ shard) s here))

  insert_entry_known :
      (now : Instant) (account_id : Uuid) (account : Account D) (i : ℕ) (shard : Shard D)
      (s : CacheService R D)
      → get_elem? s.shards i ≡ some shard
      → insert_entry now account_id account i s ≡ (
        ok tt,
        record s { shards = set s.shards i (insert account_id (new_entry now account s) shard) },
      )
  unfolding insert_entry
  insert_entry_known now account_id account i shard s here =
      bind-ok (read_shard i) (insert_into now account_id account i) s s shard
        (read_shard_known i shard s here)

  pub update_in_memory_cache-room :
      (now : Instant) (account_id : Uuid) (account : Account D) (shard : Shard D)
      (s : CacheService R D)
      → HasShard account_id shard s
      → HasRoom shard s
      → update_in_memory_cache now account_id account s
        ≡ (ok tt, entered now account_id account shard s)
  unfolding update_in_memory_cache
  update_in_memory_cache-room now account_id account shard s (some_shards, here) room =
      let i = index account_id s in
      bind-ok (get_shard_index account_id) (insert_in_shard now account_id account) s s i
        (get_shard_index_known account_id s some_shards)
      ∙ bind-ok (make_room i) (λ _. insert_entry now account_id account i) s s tt
          (make_room_known i shard s here room)
      ∙ insert_entry_known now account_id account i shard s here

  pub update_in_memory_cache-full :
      (now : Instant) (account_id : Uuid) (account : Account D) (shard : Shard D)
      (s : CacheService R D)
      → HasShard account_id shard s
      → leb s.config.max_size (length shard) ≡ true
      → shard ≢ []
      → update_in_memory_cache now account_id account s ≡ (err blocked, s)
  unfolding update_in_memory_cache
  update_in_memory_cache-full now account_id account [] s (some_shards, here) full nonempty =
      absurd (nonempty refl)
  update_in_memory_cache-full now account_id account (e ∷ shard) s (some_shards, here) full
        nonempty =
      let i = index account_id s in
      bind-ok (get_shard_index account_id) (insert_in_shard now account_id account) s s i
        (get_shard_index_known account_id s some_shards)
      ∙ bind-err (make_room i) (λ _. insert_entry now account_id account i) s s blocked
          (make_room-full i e shard s here full)

  get_shard_index-panic :
      (account_id : Uuid) (s : CacheService R D)
      → eqb s.config.shard_count 0 ≡ true
      → get_shard_index account_id s ≡ (panic, s)
  unfolding get_shard_index
  get_shard_index-panic account_id s zero_shards = rw zero_shards refl

  read_shard-panic :
      (i : ℕ) (s : CacheService R D) → get_elem? s.shards i ≡ none → read_shard i s ≡ (panic, s)
  unfolding read_shard
  read_shard-panic i s gone =
      ap (λ (o : Option (Shard D)). (elim o [ none ↦ (panic, s) | some x ↦ (ok x, s) ])) gone

  pub get_shard_index-same :
      (account_id : Uuid) (s : CacheService R D) → (get_shard_index account_id s).1 ≡ s
  get_shard_index-same account_id s = elim (Bool-cases (eqb s.config.shard_count 0)) [
    | inl e ↦
        ap (λ (x : Outcome Failure ℕ × CacheService R D). x.1)
          (get_shard_index-panic account_id s e)
    | inr e ↦
        ap (λ (x : Outcome Failure ℕ × CacheService R D). x.1)
          (get_shard_index_known account_id s e)
  ]

  pub read_shard-same : (i : ℕ) (s : CacheService R D) → (read_shard i s).1 ≡ s
  read_shard-same i s = elim (Option-cases (get_elem? s.shards i)) [
    | inl e ↦
        ap (λ (x : Outcome Failure (Shard D) × CacheService R D). x.1) (read_shard-panic i s e)
    | inr (shard, e) ↦
        ap (λ (x : Outcome Failure (Shard D) × CacheService R D). x.1)
          (read_shard_known i shard s e)
  ]

  no_shards :
      (now : Instant) (account_id : Uuid) (account : Account D) (s : CacheService R D)
      → eqb s.config.shard_count 0 ≡ true
      → update_in_memory_cache now account_id account s ≡ (panic, s)
  unfolding update_in_memory_cache
  no_shards now account_id account s zero_shards =
      bind-panic (get_shard_index account_id) (insert_in_shard now account_id account) s s
        (get_shard_index-panic account_id s zero_shards)

  no_shard :
      (now : Instant) (account_id : Uuid) (account : Account D) (s : CacheService R D)
      → eqb s.config.shard_count 0 ≡ false
      → get_elem? s.shards (index account_id s) ≡ none
      → update_in_memory_cache now account_id account s ≡ (panic, s)
  unfolding update_in_memory_cache make_room
  no_shard now account_id account s some_shards gone =
      let i = index account_id s in
      bind-ok (get_shard_index account_id) (insert_in_shard now account_id account) s s i
        (get_shard_index_known account_id s some_shards)
      ∙ bind-panic (make_room i) (λ _. insert_entry now account_id account i) s s
          (bind-panic (read_shard i) (evict_if_full i) s s (read_shard-panic i s gone))

  -- The call fails and leaves the cache as it is, or the cache has the entry.
  abbrev pub Updated :
      Instant
      → Uuid
      → Account D
      → CacheService R D
      → Outcome Failure (Unit {0}) × CacheService R D
      → Type 0
  Updated now account_id account s x =
      ((x.0 ≢ ok tt) × (x.1 ≡ s))
      ⊎ ((shard : Shard D) × HasShard account_id shard s
          × HasRoom shard s
          × (x ≡ (ok tt, entered now account_id account shard s)))

  not_updated :
      (now : Instant) (account_id : Uuid) (account : Account D) (s : CacheService R D)
      (r : Outcome Failure (Unit {0})) (x : Outcome Failure (Unit {0}) × CacheService R D)
      → r ≢ ok tt
      → x ≡ (r, s)
      → Updated now account_id account s x
  not_updated now account_id account s r x fails e = inl (rw e fails, rw e refl)

  pub update_in_memory_cache-Updated :
      (now : Instant) (account_id : Uuid) (account : Account D) (s : CacheService R D)
      → Updated now account_id account s (update_in_memory_cache now account_id account s)
  update_in_memory_cache-Updated now account_id account s =
      elim (Bool-cases (eqb s.config.shard_count 0)) [
        | inl zero_shards ↦
            not_updated now account_id account s panic _ (λ h. ground arith)
              (no_shards now account_id account s zero_shards)
        | inr some_shards ↦ elim (Option-cases (get_elem? s.shards (index account_id s))) [
          | inl gone ↦
              not_updated now account_id account s panic _ (λ h. ground arith)
                (no_shard now account_id account s some_shards gone)
          | inr (shard, here) ↦ with_shard shard (some_shards, here)
        ]
      ]
    where
      with_shard :
          (shard : Shard D)
          → HasShard account_id shard s
          → Updated now account_id account s (update_in_memory_cache now account_id account s)
      with_shard [] has = inr (
        [],
        has,
        inr refl,
        update_in_memory_cache-room now account_id account [] s has (inr refl),
      )
      with_shard (e ∷ shard) has = elim (Bool-cases (leb s.config.max_size (length (e ∷ shard)))) [
        | inl full ↦
            not_updated now account_id account s (err blocked) _ (λ h. ground arith)
              (update_in_memory_cache-full now account_id account (e ∷ shard) s has full
                (λ h. ground arith))
        | inr below ↦ inr (
          e ∷ shard,
          has,
          inl below,
          update_in_memory_cache-room now account_id account (e ∷ shard) s has (inl below),
        )
      ]

  -- The cache stays as it is, or the account's shard has no entry of it.
  abbrev pub Removed : Uuid → CacheService R D → CacheService R D → Type 0
  Removed account_id s t =
      (t ≡ s)
      ⊎ ((shard : Shard D) × HasShard account_id shard s
          × (t ≡ record s { shards = set s.shards (index account_id s) (remove account_id shard) }))

  pub remove_from_shard_known :
      (account_id : Uuid) (shard : Shard D) (s : CacheService R D)
      → HasShard account_id shard s
      → remove_from_shard account_id s
        ≡ (ok tt, record s { shards = set s.shards (index account_id s) (remove account_id shard) })
  unfolding remove_from_shard
  remove_from_shard_known account_id shard s (some_shards, here) =
      let i = index account_id s in
      bind-ok (get_shard_index account_id) (remove_at account_id) s s i
        (get_shard_index_known account_id s some_shards)
      ∙ bind-ok (read_shard i) (remove_in account_id i) s s shard (read_shard_known i shard s here)

  remove-no_shards :
      (account_id : Uuid) (s : CacheService R D)
      → eqb s.config.shard_count 0 ≡ true
      → remove_from_shard account_id s ≡ (panic, s)
  unfolding remove_from_shard
  remove-no_shards account_id s zero_shards =
      bind-panic (get_shard_index account_id) (remove_at account_id) s s
        (get_shard_index-panic account_id s zero_shards)

  remove-no_shard :
      (account_id : Uuid) (s : CacheService R D)
      → eqb s.config.shard_count 0 ≡ false
      → get_elem? s.shards (index account_id s) ≡ none
      → remove_from_shard account_id s ≡ (panic, s)
  unfolding remove_from_shard
  remove-no_shard account_id s some_shards gone =
      let i = index account_id s in
      bind-ok (get_shard_index account_id) (remove_at account_id) s s i
        (get_shard_index_known account_id s some_shards)
      ∙ bind-panic (read_shard i) (remove_in account_id i) s s (read_shard-panic i s gone)

  pub remove_from_shard-Removed :
      (account_id : Uuid) (s : CacheService R D)
      → Removed account_id s (remove_from_shard account_id s).1
  remove_from_shard-Removed account_id s = elim (Bool-cases (eqb s.config.shard_count 0)) [
    | inl zero_shards ↦ inl (ap state (remove-no_shards account_id s zero_shards))
    | inr some_shards ↦ elim (Option-cases (get_elem? s.shards (index account_id s))) [
      | inl gone ↦ inl (ap state (remove-no_shard account_id s some_shards gone))
      | inr (shard, here) ↦ inr (
        shard,
        (some_shards, here),
        ap state (remove_from_shard_known account_id shard s (some_shards, here)),
      )
    ]
  ]
    where
      state : Outcome Failure (Unit {0}) × CacheService R D → CacheService R D
      state x = x.1
