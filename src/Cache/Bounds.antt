-- ===== src/Cache/Bounds.antt =====
-- Lemmas on src/infrastructure/cache_service.rs: how large a shard gets, and whose entries it has.
use banking_es_feature_redis.Prelude.{
  ℕ, zero, suc, ◌+◌, ◌-◌, ◌%◌, ◌≤◌, ◌⊎◌, ◌≡◌, Bool, false, some, List, [], ◌∷◌, length, get_elem?,
  set, retain, map, leb, eqb, insert, remove, nat_eq, All, arith, Bool-cases, inl, inr,
  length-retain-le, ap,
}
use banking_es_feature_redis.Domain.{Uuid, Account}
use banking_es_feature_redis.Cache.Types.{CacheConfig, CacheEntry, Shard}

-- A shard has at most `max_size` entries, or one if that is zero.
abbrev pub capacity : CacheConfig → ℕ
capacity config = config.max_size + (1 - config.max_size)

module _ {D : Type 0} where
  abbrev pub IsOwn : CacheConfig → ℕ → Shard D → Type 0
  IsOwn config i shard =
      All (λ (e : Uuid × CacheEntry (Account D)). e.0 % config.shard_count ≡ i) shard

  -- The `i`-th shard: small enough, and with its own keys only.
  abbrev pub IsFit : CacheConfig → ℕ → Shard D → Type 0
  IsFit config i shard = (length shard ≤ capacity config) × IsOwn config i shard

  abbrev pub AllFit : CacheConfig → ℕ → List (Shard D) → Type 0
  AllFit config i [] = Unit
  AllFit config i (shard ∷ shards) = IsFit config i shard × AllFit config (i + 1) shards

  AllFit-get :
      (config : CacheConfig) (i k : ℕ) (shards : List (Shard D)) (shard : Shard D)
      → AllFit config i shards
      → get_elem? shards k ≡ some shard
      → IsFit config (i + k) shard
  AllFit-get config i k [] shard all e = absurd (ground arith)
  AllFit-get config i zero (x ∷ xs) shard (first, rest) e =
      let same : x ≡ shard = cc in let index : i + 0 ≡ i = omega arith in rw (index, ← same) first
  AllFit-get config i (suc k) (x ∷ xs) shard (first, rest) e =
      let index : i + suc k ≡ i + 1 + k = omega arith in
      rw index (AllFit-get config (i + 1) k xs shard rest e)

  AllFit-set :
      (config : CacheConfig) (i k : ℕ) (shards : List (Shard D)) (shard : Shard D)
      → AllFit config i shards
      → IsFit config (i + k) shard
      → AllFit config i (set shards k shard)
  AllFit-set config i k [] shard all fit = tt
  AllFit-set config i zero (x ∷ xs) shard (first, rest) fit =
      let index : i + 0 ≡ i = omega arith in ((rw index at fit), rest)
  AllFit-set config i (suc k) (x ∷ xs) shard (first, rest) fit =
      let index : i + suc k ≡ i + 1 + k = omega arith in
      (first, AllFit-set config (i + 1) k xs shard rest (rw index at fit))

  length-insert :
      (k : Uuid) (v : CacheEntry (Account D)) (shard : Shard D)
      → length (insert k v shard) ≤ length shard + 1
  unfolding insert
  length-insert k v [] = omega arith
  length-insert k v (e ∷ shard) = ground (arith, length-insert k v shard)

  IsOwn-insert :
      (config : CacheConfig) (i k : ℕ) (v : CacheEntry (Account D)) (shard : Shard D)
      → k % config.shard_count ≡ i
      → IsOwn config i shard
      → IsOwn config i (insert k v shard)
  unfolding insert
  IsOwn-insert config i k v [] own all = (own, tt)
  IsOwn-insert config i k v ((j, w) ∷ shard) own (first, rest) = elim (Bool-cases (eqb j k)) [
    | inl same ↦ rw same (own, rest)
    | inr differs ↦ rw differs (first, IsOwn-insert config i k v shard own rest)
  ]

  length-remove-le : (k : Uuid) (shard : Shard D) → length (remove k shard) ≤ length shard
  unfolding remove
  length-remove-le k [] = omega arith
  length-remove-le k (e ∷ shard) = ground (arith, length-remove-le k shard)

  IsOwn-remove :
      (config : CacheConfig) (i k : ℕ) (shard : Shard D)
      → IsOwn config i shard
      → IsOwn config i (remove k shard)
  unfolding remove
  IsOwn-remove config i k [] all = tt
  IsOwn-remove config i k ((j, w) ∷ shard) (first, rest) = elim (Bool-cases (eqb j k)) [
    | inl same ↦ rw same (IsOwn-remove config i k shard rest)
    | inr differs ↦ rw differs (first, IsOwn-remove config i k shard rest)
  ]

  IsOwn-retain :
      (config : CacheConfig) (i : ℕ) (test : Uuid × CacheEntry (Account D) → Bool) (shard : Shard D)
      → IsOwn config i shard
      → IsOwn config i (retain test shard)
  IsOwn-retain config i test [] all = tt
  IsOwn-retain config i test (e ∷ shard) (first, rest) = elim (Bool-cases (test e)) [
    | inl stays ↦ rw stays (first, IsOwn-retain config i test shard rest)
    | inr goes ↦ rw goes (IsOwn-retain config i test shard rest)
  ]

  pub AllFit-retain :
      (config : CacheConfig) (i : ℕ) (test : Uuid × CacheEntry (Account D) → Bool)
      (shards : List (Shard D))
      → AllFit config i shards
      → AllFit config i (map (retain test) shards)
  AllFit-retain config i test [] all = tt
  AllFit-retain config i test (shard ∷ shards) ((small, own), rest) = (
    (omega (arith, length-retain-le test shard), IsOwn-retain config i test shard own),
    AllFit-retain config (i + 1) test shards rest,
  )

  pub AllFit-remove :
      (config : CacheConfig) (i : ℕ) (k : Uuid) (shards : List (Shard D)) (shard : Shard D)
      → get_elem? shards i ≡ some shard
      → AllFit config 0 shards
      → AllFit config 0 (set shards i (remove k shard))
  AllFit-remove config i k shards shard here all =
      let (small, own) = AllFit-get config 0 i shards shard all here in
      AllFit-set config 0 i shards (remove k shard) all
        (omega (arith, length-remove-le k shard), IsOwn-remove config (0 + i) k shard own)

  pub AllFit-insert :
      (config : CacheConfig) (i : ℕ) (k : Uuid) (v : CacheEntry (Account D))
      (shards : List (Shard D)) (shard : Shard D)
      → get_elem? shards i ≡ some shard
      → (leb config.max_size (length shard) ≡ false) ⊎ (shard ≡ [])
      → k % config.shard_count ≡ i
      → AllFit config 0 shards
      → AllFit config 0 (set shards i (insert k v shard))
  AllFit-insert config i k v shards shard here room own all =
      let (small, owns) = AllFit-get config 0 i shards shard all here in
      AllFit-set config 0 i shards (insert k v shard) all
        (fits room, IsOwn-insert config (0 + i) k v shard (omega (arith, own)) owns)
    where
      fits :
          (leb config.max_size (length shard) ≡ false) ⊎ (shard ≡ [])
          → length (insert k v shard) ≤ capacity config
      fits (inl below) = ground (arith, length-insert k v shard)
      fits (inr empty) =
          let none_yet : length shard ≡ 0 = ap length empty in
          omega (arith, none_yet, length-insert k v shard)
