-- ===== src/Tests/CacheRuns.antt =====
-- Runs of the cache.
use banking_es_feature_redis.Prelude.{
  ℕ, ◌-◌, ◌≡◌, ◌≢◌, refl, Bool, true, false, none, some, List, [], ◌∷◌, arith, leb, if◌then◌else◌,
  ok, err,
}
use banking_es_feature_redis.Domain.{Account}
use banking_es_feature_redis.Decimal.Cents.{ℤ}
use banking_es_feature_redis.Cache.Types.{
  CacheConfig, default_config, default_metrics, CacheEntry, blocked, other, Libraries, Shard,
  CacheService,
}
use banking_es_feature_redis.Cache.Memory.{
  new_service, update_in_memory_cache, get_shard_index, make_room, read_shard, insert_entry,
}
use banking_es_feature_redis.Cache.Service.{
  set_account, get_account, delete_account, invalidate_account, fetch_account, fetch_events,
  get_account_events, chunks_from, split_at,
}
use banking_es_feature_redis.Cache.Warmup.{warmup_cache}
use banking_es_feature_redis.Cache.Requests.{
  Request, get, put, clean, perform_all, perform_all-new_service, IsBounded,
}
use banking_es_feature_redis.Cache.Warming.{warmup_cache-disabled}
use banking_es_feature_redis.Cache.Reads.{
  get_account-set_account, get_account-delete_account, get_account-invalidate_account,
  set_account-full,
}
use banking_es_feature_redis.Tests.Samples.{alice}

-- A server that has nothing and that can be reached or not.
abbrev server : Libraries Bool ℕ ℤ
server = record {
  get_connection = λ up. (if up then ok tt else err "unreachable", up);
  get = λ key up. (ok other, up);
  set_ex = λ key value seconds up. (ok tt, up);
  del = λ key up. (ok tt, up);
  query = λ keys up. (ok [], up);
  account_to_vec = λ account. ok 1;
  account_from_slice = λ b. err "no account";
  events_to_vec = λ events. ok 1;
  events_from_slice = λ b. err "no events";
  no_bytes = 0;
}

abbrev small : CacheConfig
small = record default_config { shard_count = 2; max_size = 1; default_ttl = 10 }

abbrev alices_entry : CacheEntry (Account ℤ)
alices_entry = record {
  value = alice;
  created_at = 0;
  last_accessed = 0;
  access_count = 1;
  time_to_live = 10;
}

abbrev alices_shard : Shard ℤ
alices_shard = (7, alices_entry) ∷ []

-- Alice's shard is the second one.
abbrev alices_cache : CacheService Bool ℤ
alices_cache = record {
  redis = true;
  config = small;
  metrics = default_metrics;
  shards = [] ∷ alices_shard ∷ [];
  event_cache = [];
  warming_state = record { is_warming = false; last_warmup = none; accounts_to_warm = [] };
}

abbrev empty_cache : CacheService Bool ℤ
empty_cache = record alices_cache { shards = [] ∷ [] ∷ [] }

abbrev some_requests : List (Request ℤ)
some_requests = put 3 alice none ∷ get 5 7 ∷ put 6 (record alice { id = 9 }) none ∷ clean 50 ∷ []

perform_all-new_service_example :
    IsBounded server (perform_all server some_requests (new_service true small))
perform_all-new_service_example = perform_all-new_service server true small some_requests

alice_is_set : (set_account server 3 alice none empty_cache).0 ≡ ok tt
unfolding set_account update_in_memory_cache new_service get_shard_index make_room read_shard
    insert_entry
alice_is_set = refl

get_account-set_account_example :
    (get_account server 8 7 (set_account server 3 alice none empty_cache).1).0
    ≡ (if leb 10 (8 - 3) then err blocked else ok (some alice))
get_account-set_account_example =
    get_account-set_account server 3 8 alice none empty_cache alice_is_set

get_account-delete_account_example :
    (get_account server 8 7
      (delete_account server 7 (set_account server 3 alice none empty_cache).1).1).0
    ≡ (if leb 10 (8 - 3) then err blocked else ok (some alice))
get_account-delete_account_example =
    get_account-delete_account server 3 8 alice none empty_cache alice_is_set

get_account-invalidate_account_run :
    let t = (invalidate_account server 7 alices_cache).1 in
    (get_account server 1 7 t ≡ fetch_account server 1 7 t)
    × (get_account_events server 7 t ≡ fetch_events server 7 t)
get_account-invalidate_account_run =
    get_account-invalidate_account server 1 7 alices_shard alices_cache (refl, refl)

set_account-full_example :
    (set_account server 1 (record alice { id = 9 }) none alices_cache).0 ≢ ok tt
set_account-full_example =
    set_account-full server 1 (record alice { id = 9 }) none alices_shard alices_cache (refl, refl)
      (omega arith) (λ e. ground arith)

abbrev unreachable : CacheService Bool ℤ
unreachable = record alices_cache { redis = false }

not_warm : (warmup_cache server 1 (7 ∷ []) unreachable).0 ≢ ok tt
unfolding warmup_cache
not_warm e = ground arith

warmup_cache-disabled_example :
    let t = perform_all server some_requests (warmup_cache server 1 (7 ∷ []) unreachable).1 in
    warmup_cache server 60 (7 ∷ []) t ≡ (ok tt, t)
warmup_cache-disabled_example =
    warmup_cache-disabled server 1 (7 ∷ []) unreachable not_warm some_requests 60 (7 ∷ [])

abbrev five : List ℕ
five = 1 ∷ 2 ∷ 3 ∷ 4 ∷ 5 ∷ []

five_in_twos : chunks_from 5 2 five ≡ (1 ∷ 2 ∷ []) ∷ (3 ∷ 4 ∷ []) ∷ (5 ∷ []) ∷ []
unfolding chunks_from split_at
five_in_twos = refl
