-- ===== src/Sharding/Ranges.antt =====
-- The hash ranges of the shards of src/infrastructure/sharding.rs: every hash has one shard.
use banking_es_feature_redis.Prelude.{
  ℕ, zero, suc, ◌+◌, ◌*◌, ◌-◌, ◌^◌, ◌<◌, ◌≤◌, ◌≡◌, ◌≢◌, refl, sym, ◌∙◌, String, true, some, List,
  [], ◌∷◌, U64, leb, leb→le, find-cons_true, find-cons_false, Outcome, ok, err, panic, inl, inr,
  ◌⊎◌, Bool-cases, arith, IsWord,
}
use mathlib.Core.Option
use mathlib.Core.Option.{some-injective}
use native.Mathlib.Nat.{mul-le-mul_right, mul-div-le, le-div_iff_mul-le}
use banking_es_feature_redis.Sharding.{
  ShardInfo, range_size, shard_at, shards_from, initialize_shards, owns, get_shard_for_key,
  assign_shard,
}

-- The start of a range does not wrap around.
range-small : (count i : ℕ) → i ≤ count → i * range_size count ≤ 2 ^ 64 - 1
unfolding range_size
range-small count i h =
    let m = mul-le-mul_right (range_size count) h in
    let d = mul-div-le (2 ^ 64 - 1) count in omega (arith, m, d)

range-pos : (count : ℕ) → 0 < count → count < 2 ^ 64 → 0 < range_size count
unfolding range_size
range-pos count h small = (le-div_iff_mul-le h).1 (omega arith)

-- The hash is in the range of the shard's number: not before its start, and before the start of the
-- next one, if it is not the last.
abbrev pub InRange : ℕ → U64 → ℕ → Type 0
InRange count hash i =
    (i * range_size count ≤ hash) × ((i ≡ count - 1) ⊎ (hash < suc i * range_size count))

owns-InRange :
    (now count hash i : ℕ)
    → 0 < count
    → count < 2 ^ 64
    → IsWord hash
    → i < count
    → owns hash (shard_at now count i) ≡ true
    → InRange count hash i
unfolding shard_at
owns-InRange now count hash i pos small word h own = ground (
  arith,
  range-small count i (omega arith),
  range-small count (suc i) (omega arith),
  range-pos count pos small,
)

InRange-owns :
    (now count hash i : ℕ)
    → 0 < count
    → count < 2 ^ 64
    → IsWord hash
    → i < count
    → InRange count hash i
    → owns hash (shard_at now count i) ≡ true
unfolding shard_at
InRange-owns now count hash i pos small word h (low, high) = ground (
  arith,
  range-small count i (omega arith),
  range-small count (suc i) (omega arith),
  range-pos count pos small,
)

-- A hash is in the range of no later shard.
InRange-not_later :
    (count hash i j : ℕ) → j < count → InRange count hash i → InRange count hash j → i < j → ⊥
InRange-not_later count hash i j hj (li, ri) (lj, rj) later =
    let m = mul-le-mul_right {m = suc i} {n = j} (range_size count) (omega arith) in
    ground (arith, m)

-- No hash is in the ranges of two shards.
InRange-unique :
    (count hash i j : ℕ)
    → i < count
    → j < count
    → InRange count hash i
    → InRange count hash j
    → i ≡ j
InRange-unique count hash i j hi hj ri rj =
    ground
      (arith, InRange-not_later count hash i j hj ri rj, InRange-not_later count hash j i hi rj ri)

-- The search finds the shard whose range the hash is in.
abbrev pub Finds : (now count : ℕ) → U64 → List ShardInfo → Type 0
Finds now count hash shards =
    (j : ℕ) × (j < count)
    × InRange count hash j
    × (get_shard_for_key hash shards ≡ some (shard_at now count j))

-- The search stops at a shard whose range the hash is in.
find-here :
    (now count hash i left : ℕ)
    → 0 < count
    → count < 2 ^ 64
    → IsWord hash
    → i < count
    → InRange count hash i
    → Finds now count hash (shards_from now count i (suc left))
unfolding shards_from get_shard_for_key
find-here now count hash i left pos small word h range = (
  i,
  h,
  range,
  find-cons_true (owns hash) (shard_at now count i) _
      (InRange-owns now count hash i pos small word h range),
)

-- It goes on at a shard that ends before the hash.
find-later :
    (now count hash i left : ℕ)
    → 0 < count
    → count < 2 ^ 64
    → IsWord hash
    → i < count
    → i ≢ count - 1
    → suc i * range_size count ≤ hash
    → Finds now count hash (shards_from now count (suc i) left)
    → Finds now count hash (shards_from now count i (suc left))
unfolding shards_from get_shard_for_key
find-later now count hash i left pos small word h more above (j, hj, range, found) = (
  j,
  hj,
  range,
  elim (Bool-cases (owns hash (shard_at now count i))) [
    | inl own ↦
        (let (low, high) = owns-InRange now count hash i pos small word h own in
          absurd (ground (arith, high)))
    | inr not_own ↦ find-cons_false (owns hash) (shard_at now count i) _ not_own ∙ found
  ],
)

-- The search from shard `i` on, when the hash is not before the shard's start.
find-shards_from :
    (now count hash i left : ℕ)
    → 0 < count
    → count < 2 ^ 64
    → IsWord hash
    → i + suc left ≡ count
    → i * range_size count ≤ hash
    → Finds now count hash (shards_from now count i (suc left))
find-shards_from now count hash i zero pos small word total low =
    find-here now count hash i zero pos small word (omega arith) (low, inl (omega arith))
find-shards_from now count hash i (suc left) pos small word total low =
    elim (Bool-cases (leb (suc i * range_size count) hash)) [
      | inl above ↦
          (let a = leb→le (suc i * range_size count) hash above in
            find-later now count hash i (suc left) pos small word (omega arith) (λ e. omega arith) a
              (find-shards_from now count hash (suc i) left pos small word (omega arith) a))
      | inr below ↦
          find-here now count hash i (suc left) pos small word (omega arith)
            (low, inr (ground arith))
    ]

-- With at least one and fewer than 2^64 shards, for every hash of 64 bits `get_shard_for_key`
-- finds a shard that `initialize_shards` made, and the range of no other shard contains the hash.
pub get_shard_for_key-initialize_shards :
    (now count hash : ℕ) (shards : List ShardInfo)
    → 0 < count
    → count < 2 ^ 64
    → IsWord hash
    → initialize_shards now count ≡ some shards
    → (i : ℕ) × (i < count)
      × (get_shard_for_key hash shards ≡ some (shard_at now count i))
      × ((j : ℕ) → j < count → owns hash (shard_at now count j) ≡ true → j ≡ i)
unfolding initialize_shards
get_shard_for_key-initialize_shards now zero hash shards pos small word made = absurd (omega arith)
get_shard_for_key-initialize_shards now (suc n) hash shards pos small word made =
    let (i, h, range, found) =
      find-shards_from now (suc n) hash 0 n pos small word (omega arith) (omega arith) in
    (
      i,
      h,
      rw (sym (some-injective _ _ made)) found,
      λ j hj own.
          InRange-unique (suc n) hash j i hj h
            (owns-InRange now (suc n) hash j pos small word hj own) range,
    )

-- After `assign_shard`, whatever its lock answers, `get_shard_for_key` finds the shard of the
-- same number as before.
pub assign_shard-get_shard_for_key :
    (acquire release : Outcome String (Unit {0})) (now shard_id hash : ℕ) (instance_id : String)
    (shards : List ShardInfo)
    → Option.map
        (λ (shard : ShardInfo). shard.id)
        (get_shard_for_key hash (assign_shard acquire release now shard_id instance_id shards).1)
      ≡ Option.map (λ (shard : ShardInfo). shard.id) (get_shard_for_key hash shards)
unfolding assign_shard get_shard_for_key
assign_shard-get_shard_for_key (ok tt) release now shard_id hash instance_id [] = refl
assign_shard-get_shard_for_key (ok tt) release now shard_id hash instance_id (shard ∷ shards) =
    let rest =
      assign_shard-get_shard_for_key (ok tt) release now shard_id hash instance_id shards in
    ground (arith, rest)
assign_shard-get_shard_for_key (err e) release now shard_id hash instance_id shards = refl
assign_shard-get_shard_for_key panic release now shard_id hash instance_id shards = refl
