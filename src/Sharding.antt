-- ===== src/Sharding.antt =====
-- src/infrastructure/sharding.rs: the shards of `ShardManager` and their assignment. A shard's
-- identifier, the text `shard-{i}`, is its number here. The hash of a key is `DefaultHasher`'s.
pub mod Ranges
use banking_es_feature_redis.Prelude.{
  ℕ, zero, suc, ◌+◌, ◌*◌, ◌-◌, ◌/◌, ◌%◌, ◌^◌, String, Bool, ◌&&◌, Option, none, some, List, [], ◌∷◌,
  U64, leb, eqb, find, if◌then◌else◌, map, Outcome, ok, err,
}
use banking_es_feature_redis.Prelude.Actions.{Action}

pub data ShardStatus : Type 0 where
  available : ShardStatus
  assigned : ShardStatus
  rebalancing : ShardStatus
  failed : ShardStatus

pub record ShardInfo : Type 0 where
  pub id : ℕ
  pub range_start : U64
  pub range_end : U64
  pub instance_id : Option String
  pub status : ShardStatus
  pub last_updated : ℕ

-- `u64::MAX / self.config.shard_count as u64`
unfoldable pub range_size : ℕ → U64
range_size shard_count = (2 ^ 64 - 1) / shard_count

-- The body of the loop of `initialize_shards`.
unfoldable pub shard_at : (now shard_count i : ℕ) → ShardInfo
shard_at now shard_count i = record {
  id = i;
  range_start = i * range_size shard_count % 2 ^ 64;
  range_end =
      if eqb i (shard_count - 1)
      then 2 ^ 64 - 1
      else ((i + 1) * range_size shard_count + (2 ^ 64 - 1)) % 2 ^ 64;
  instance_id = none;
  status = available;
  last_updated = now;
}

-- The loop from number `i`, with so many rounds left.
unfoldable pub shards_from : (now shard_count i left : ℕ) → List ShardInfo
unfolding shard_at
shards_from now shard_count i zero = []
shards_from now shard_count i (suc left) =
    shard_at now shard_count i ∷ shards_from now shard_count (suc i) left

-- `initialize_shards`, on an empty map; `none` is the panic of a division by zero.
unfoldable pub initialize_shards : (now shard_count : ℕ) → Option (List ShardInfo)
unfolding shards_from
initialize_shards now zero = none
initialize_shards now (suc n) = some (shards_from now (suc n) 0 (suc n))

-- `hash >= shard.range_start && hash <= shard.range_end`
abbrev pub owns : U64 → ShardInfo → Bool
owns hash shard = leb shard.range_start hash && leb hash shard.range_end

-- `get_shard_for_key`, on the key's hash
unfoldable pub get_shard_for_key : U64 → List ShardInfo → Option ShardInfo
get_shard_for_key hash shards = find (owns hash) shards

-- `assign_shard`, with what taking and giving back the distributed lock answers. The shard is
-- assigned by then, whatever the lock's release answers.
unfoldable pub assign_shard :
    (acquire_lock release_lock : Outcome String (Unit {0})) (now shard_id : ℕ)
    (instance_id : String)
    → Action (List ShardInfo) String (Unit {0})
assign_shard (ok tt) release_lock now shard_id instance_id shards = (
  release_lock,
  map
      (λ shard.
        if eqb shard.id shard_id
        then record shard { instance_id = some instance_id; status = assigned; last_updated = now }
        else shard)
      shards,
)
assign_shard acquire_lock release_lock now shard_id instance_id shards = (acquire_lock, shards)
