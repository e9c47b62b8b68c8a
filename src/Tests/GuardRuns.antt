-- ===== src/Tests/GuardRuns.antt =====
-- Runs of the breaker, the load shedder, the rate limiters, the shards and the dead-letter queue.
use banking_es_feature_redis.Prelude.{
  ℕ, ◌+◌, ◌*◌, ◌-◌, ◌^◌, ◌<◌, ◌≤◌, ◌≡◌, refl, String, true, false, some, List, [], ◌∷◌, arith,
  length, add64, lookup, insert, string_eq, ok, err, panic, none,
}
use mathlib.Core.Option
use banking_es_feature_redis.Domain.{money_deposited}
use banking_es_feature_redis.Kafka.DeadLetters.{
  DeadLetterMessage, DeadLetterQueue, DlqConfig, Turn, process_dlq, process_turn, handle,
}
use banking_es_feature_redis.Kafka.DeadLetters.Progress.{
  Accounted, all_retries, process_dlq-all_retries, process_dlq-Accounted,
}
use banking_es_feature_redis.Redis.Breaker.{
  CircuitBreaker, closed, opened, Inner, inner_ok, inner_err, circuit_is_open, passed, guarded_call,
  run_calls, IsValid, run_calls-IsValid, guarded_call-opened, run_calls-counts,
}
use banking_es_feature_redis.Redis.Shedder.{
  Load, Operation, acquire, drop_last, run_operations, run_operations-available, admitted,
  run_operations-current_load,
}
use banking_es_feature_redis.Limits.Counted.{
  RateLimitConfig, check_rate_limit, admitted as let_through,
}
use banking_es_feature_redis.Limits.Counted.Window.{counted, IsCounted, admitted-span}
use banking_es_feature_redis.Limits.Sliding.{
  ask, note, Call, answers, RateLimitConfig as SlidingConfig,
}
use banking_es_feature_redis.Limits.Sliding.History.{expected, answers-expected}
use banking_es_feature_redis.Sharding.{
  ShardInfo, shards_from, shard_at, initialize_shards, owns, get_shard_for_key, assign_shard,
}
use banking_es_feature_redis.Sharding.Ranges.{
  get_shard_for_key-initialize_shards, assign_shard-get_shard_for_key,
}

abbrev breaker : CircuitBreaker
breaker = record { state = closed; failure_count = 0; failure_threshold = 3; reset_timeout = 60 }

abbrev redis_calls : List (ℕ × Inner String ℕ)
redis_calls = (0, inner_err "down") ∷ (1, inner_ok 5) ∷ (2, inner_err "down") ∷ []

run_calls-IsValid_example : IsValid (run_calls breaker redis_calls)
run_calls-IsValid_example =
    run_calls-IsValid breaker redis_calls (omega arith, omega arith, λ h. omega arith)

abbrev open_breaker : CircuitBreaker
open_breaker = record breaker { state = opened 10 }

abbrev reply : Inner String ℕ
reply = inner_ok 5

guarded_call-opened_run :
    (20 - 10 < 60 → guarded_call open_breaker 20 reply ≡ (circuit_is_open, open_breaker))
    × (60 ≤ 20 - 10 → (guarded_call open_breaker 20 reply).0 ≡ passed reply)
guarded_call-opened_run = guarded_call-opened open_breaker 10 20 reply refl

run_calls-counts_run : run_calls breaker redis_calls ≡ record breaker { failure_count = 2 }
run_calls-counts_run = run_calls-counts breaker redis_calls refl (omega arith) (omega arith)

abbrev load : Load
load = record {
  shedder = record { available = 2; current_load = 0; rejected_requests = 0 };
  held = [];
}

abbrev operations : List Operation
operations = acquire false ∷ drop_last ∷ acquire false ∷ []

run_operations-available_run :
    (run_operations load operations).shedder.available
      + length (run_operations load operations).held
    ≡ 2 + 0
run_operations-available_run = run_operations-available load operations

run_operations-current_load_example :
    (run_operations load operations).shedder.current_load ≡ add64 0 (admitted load operations)
run_operations-current_load_example = run_operations-current_load load operations (omega arith)

abbrev limit : RateLimitConfig
limit = record { requests_per_minute = 2; burst_size = 1; window_size = 60 }

abbrev client_calls : List (ℕ × String)
client_calls = (5, "a") ∷ (6, "b") ∷ (7, "a") ∷ (8, "a") ∷ []

-- The third request of the client is refused; the second passes a burst of one.
two_pass : let_through limit "a" client_calls [] ≡ 2
unfolding let_through check_rate_limit lookup insert
two_pass = refl

no_entry : IsCounted limit "a" []
unfolding lookup
no_entry info h = ground arith

admitted-span_example : let_through limit "a" client_calls [] + counted "a" [] ≤ 2 * 2
admitted-span_example =
    admitted-span limit "a" 5 client_calls [] (omega arith) (omega arith) no_entry
      (omega arith, (omega arith, (omega arith, (omega arith, tt))))
      (omega arith, (omega arith, (omega arith, (omega arith, tt))))

abbrev sliding : SlidingConfig
sliding = record { requests_per_second = 1; window_size = 10; burst_size = 1 }

abbrev key_calls : List Call
key_calls = note 0 "k" ∷ ask 5 "k" ∷ ask 20 "k" ∷ []

answers-expected_example : answers sliding key_calls [] ≡ expected sliding key_calls (λ key. [])
answers-expected_example =
    answers-expected sliding 0 key_calls (omega arith, (omega arith, (omega arith, tt)))

abbrev four_shards : List ShardInfo
four_shards = shards_from 0 4 0 4

four-made : initialize_shards 0 4 ≡ some four_shards
unfolding initialize_shards
four-made = refl

get_shard_for_key-initialize_shards_example :
    (i : ℕ) × (i < 4)
    × (get_shard_for_key (2 ^ 63) four_shards ≡ some (shard_at 0 4 i))
    × ((j : ℕ) → j < 4 → owns (2 ^ 63) (shard_at 0 4 j) ≡ true → j ≡ i)
get_shard_for_key-initialize_shards_example =
    get_shard_for_key-initialize_shards 0 4 (2 ^ 63) four_shards (omega arith) (omega arith)
      (omega arith) four-made

assign_shard-get_shard_for_key_run :
    Option.map
      (λ (shard : ShardInfo). shard.id)
      (get_shard_for_key 9 (assign_shard (ok tt) (err "late") 1 2 "node" four_shards).1)
    ≡ Option.map (λ (shard : ShardInfo). shard.id) (get_shard_for_key 9 four_shards)
assign_shard-get_shard_for_key_run =
    assign_shard-get_shard_for_key (ok tt) (err "late") 1 2 9 "node" four_shards

abbrev dead_letter : DeadLetterMessage ℕ
dead_letter = record {
  account_id = 4;
  events = money_deposited 4 25 9 ∷ [];
  version = 3;
  original_timestamp = 0;
  failure_reason = "timeout";
  retry_count = 1;
  last_retry = none;
}

abbrev dead_letters : DeadLetterQueue ℕ
dead_letters = record {
  topic = dead_letter ∷ record dead_letter { retry_count = 0 } ∷ [];
  metrics = record {
    dlq_messages = 2;
    dlq_retries = 1;
    dlq_retry_success = 0;
    dlq_retry_failures = 1;
  };
  slept = [];
}

abbrev dlq_config : DlqConfig
dlq_config = record { max_retries = 2; initial_retry_delay = 100 }

-- A turn whose retry fails.
abbrev failing_turn : Turn
failing_turn = record {
  now = 7;
  poll_dlq_message = ok true;
  send_event_batch = err "timeout";
  send_dlq_message = ok tt;
}

abbrev failing_turns : List Turn
failing_turns = failing_turn ∷ failing_turn ∷ failing_turn ∷ failing_turn ∷ failing_turn ∷ []

process_dlq-slept :
    (process_dlq dlq_config failing_turns dead_letters).1.slept ≡ 200 ∷ 100 ∷ 200 ∷ []
unfolding process_dlq process_turn handle
process_dlq-slept = refl

-- The messages have three retries left.
process_dlq-all_retries_example :
    all_retries 2 (process_dlq dlq_config failing_turns dead_letters).1 ≤ all_retries 2 dead_letters
process_dlq-all_retries_example =
    process_dlq-all_retries dlq_config failing_turns dead_letters (omega arith)

process_dlq-Accounted_run : Accounted (process_dlq dlq_config failing_turns dead_letters).1.metrics
process_dlq-Accounted_run =
    let calm : ¬ (failing_turn.send_event_batch ≡ panic) = λ h. ground arith in
    process_dlq-Accounted dlq_config failing_turns dead_letters
      (calm, (calm, (calm, (calm, (calm, tt))))) refl
