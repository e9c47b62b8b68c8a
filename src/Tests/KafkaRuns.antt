-- ===== src/Tests/KafkaRuns.antt =====
-- Runs of the Kafka client, the recovery and its strategies.
use banking_es_feature_redis.Prelude.{
  String, ◌≡◌, refl, sym, ap, true, false, not, Option, none, some, List, [], ◌∷◌, ◌++◌, eqb,
  Outcome, ok, err, arith, All, add64, ℕ, suc,
}
use banking_es_feature_redis.Decimal.Cents.{ℤ, pos, cents, cents_add}
use banking_es_feature_redis.Domain.{
  Uuid, AccountEvent, account_created, money_deposited, Account, default,
}
use banking_es_feature_redis.Domain.{apply_event, apply_fields}
use banking_es_feature_redis.EventStore.{Event}
use banking_es_feature_redis.EventStore.Read.{replay}
use banking_es_feature_redis.Kafka.Types.{
  EventBatch, default_kafka, Json, Polled, nothing, message, Libraries,
}
use banking_es_feature_redis.Kafka.Client.{
  KafkaProducer, KafkaConsumer, send_json, send_event_batch, poll_events,
}
use banking_es_feature_redis.Kafka.Client.Delivery.{poll_events-send_event_batch}
use banking_es_feature_redis.Kafka.Recovery.{
  Services, new_recovery, reconstruct, start_recovery, trait_start_recovery, send_each,
}
use banking_es_feature_redis.Kafka.Recovery.Flag.{
  own, by_trait, start_all, start_all-trait_start_recovery, start_recovery-is_recovering, is_ok,
}
use banking_es_feature_redis.Kafka.Strategies.{replay_fully, replay_selectively, send_runs}
use banking_es_feature_redis.Kafka.Strategies.Sent.{Logs, replay_selectively-replay_fully}
use banking_es_feature_redis.Kafka.Processor.{
  Collaborators, KafkaEventProcessor, Times, process_batch, process_turn, process_turns,
  start_processing,
}
use banking_es_feature_redis.Kafka.Processor.Letters.{logged, with_log, start_processing-letters}
use banking_es_feature_redis.Tests.Samples.{plain, alice, created_row}

-- A broker that has one message at most, and JSON that keeps a batch as it is.
abbrev Broker : Type 0
Broker = Option (EventBatch ℤ)

abbrev polled_from : Broker → Polled (EventBatch ℤ) × Broker
polled_from none = (nothing, none)
polled_from (some batch) = (message (some batch), none)

no_json :
    {A : Type 0} (a : A) (b : EventBatch ℤ)
    → ◌≡◌ {A = Outcome String (EventBatch ℤ)} (err "no JSON") (ok b)
    → ◌≡◌ {A = Outcome String A} (err "no JSON") (ok a)
no_json a b h = absurd (ground arith)

abbrev only_batches : {A : Type 0} → Json (EventBatch ℤ) A
only_batches = record {
  to_vec = λ a. err "no JSON";
  from_slice = λ b. err "no JSON";
  from_slice-to_vec = no_json;
}

abbrev broker : Libraries Broker (EventBatch ℤ) ℤ
broker = record {
  rdkafka = record {
    create_producer = λ config k. (ok tt, k);
    create_consumer = λ config k. (ok tt, k);
    send = λ topic key payload k. (ok tt, some payload);
    subscribe = λ topic k. (ok tt, k);
    assign = λ topic k. (ok tt, k);
    next = polled_from;
    stream = λ k. [];
  };
  batches = record {
    to_vec = λ a. ok a;
    from_slice = λ b. ok b;
    from_slice-to_vec = λ a b h. sym h;
  };
  accounts = only_batches;
  dead_letters = only_batches;
  invalidations = only_batches;
}

abbrev creation : List (AccountEvent ℤ)
creation = account_created 7 "Alice" (pos 500) ∷ []

abbrev creation_batch : EventBatch ℤ
creation_batch = record { account_id = 7; events = creation; version = 1; timestamp = 3 }

abbrev producer : KafkaProducer
producer = record { connected = true; config = default_kafka }

abbrev consumer : KafkaConsumer
consumer = record { connected = true; config = default_kafka }

sent_creation : send_event_batch broker producer 3 7 creation 1 none ≡ (ok tt, some creation_batch)
unfolding send_event_batch send_json
sent_creation = refl

delivered :
    (topic : String) (key : Uuid) (payload : EventBatch ℤ)
    → ◌≡◌ {A = Outcome String (Unit {0}) × Broker}
        (ok tt, some payload)
        (ok tt, some creation_batch)
    → (polled_from (some creation_batch)).0 ≡ message (some payload)
delivered topic key payload h = ap (λ x. (polled_from x.1).0) (sym h)

poll_events-send_event_batch_run :
    (poll_events broker consumer (some creation_batch)).0 ≡ ok (some creation_batch)
poll_events-send_event_batch_run =
    poll_events-send_event_batch broker producer consumer 3 7 creation 1 none (some creation_batch)
      (refl, refl) (refl, refl) delivered sent_creation

abbrev deposit_row : Event (AccountEvent ℤ)
deposit_row = record created_row { event_data = money_deposited 7 (pos 50) 3; version = 3 }

abbrev stored : List (Event (AccountEvent ℤ))
stored = created_row ∷ deposit_row ∷ []

not_self : (a : Account ℤ) → not (eqb a.version a.version) ≡ false
not_self a = ground arith

-- Services over a log of the events that were sent; the queue of dead letters cannot be reached.
abbrev services : Services (List (AccountEvent ℤ)) ℤ (AccountEvent ℤ)
services = record {
  get_all_projections = λ log. (err "no projections", log);
  get_events = λ i from log. (ok stored, log);
  get_account = λ i log. (ok (some alice), log);
  get_all_accounts = λ log. (ok (alice ∷ []), log);
  send_event_batch = λ i events version log. (ok tt, log ++ events);
  send_cache_update = λ i account log. (ok tt, log);
  send_to_dlq = λ i events version reason log. (err "unreachable", log);
  get_last_processed_version = λ i log. (ok 0, log);
  process_dlq = λ log. (ok tt, log);
  account_ne = λ a b. not (eqb a.version b.version);
  account_ne_self = not_self;
}

start_all-trait_start_recovery_example :
    All
      (λ answer. answer ≡ ok tt)
      (start_all services
        (own 1 ∷ by_trait 2 ∷ [])
        (trait_start_recovery services 0 (new_recovery [])).1).0
    × ((start_all services
          (own 1 ∷ by_trait 2 ∷ [])
          (trait_start_recovery services 0 (new_recovery [])).1).1
        ≡ (trait_start_recovery services 0 (new_recovery [])).1)
start_all-trait_start_recovery_example =
    start_all-trait_start_recovery services 0 (own 1 ∷ by_trait 2 ∷ []) (new_recovery [])

start_recovery-is_recovering_example :
    (start_recovery services 0 (new_recovery [])).1.recovery_state.is_recovering
    ≡ not (is_ok (start_recovery services 0 (new_recovery [])).0)
start_recovery-is_recovering_example =
    start_recovery-is_recovering services 0 (new_recovery []) refl

abbrev richer_alice : Account ℤ
richer_alice = record alice { balance = pos 550; version = 2 }

rebuilt : reconstruct services 7 stored ≡ ok richer_alice
unfolding reconstruct replay default apply_event apply_fields cents_add
rebuilt = refl

logs : Logs services (λ log. log)
logs = record { send_appends = λ i events version log h. refl; read_keeps = λ i from log. refl }

selected : (replay_selectively services alice []).0 ≡ ok tt
unfolding replay_selectively send_runs
selected = refl

replayed : (replay_fully services alice []).0 ≡ ok tt
unfolding replay_fully send_each
replayed = refl

replay_selectively-replay_fully_example :
    (replay_selectively services alice []).1 ≡ (replay_fully services alice []).1
replay_selectively-replay_fully_example =
    replay_selectively-replay_fully services logs alice [] selected replayed

-- Collaborators over the number of dead letters: the store saves nothing.
abbrev collaborators : Collaborators ℕ ℤ
collaborators = record {
  subscribe_to_events = λ n. (ok tt, n);
  poll_events = λ n. (ok (some creation_batch), n);
  save_events = λ i events version n. (err "no events saved", n);
  set_account_events = λ i events ttl n. (ok tt, n);
  get_account = λ i n. (ok none, n);
  set_account = λ account ttl n. (ok tt, n);
  send_cache_update = λ i account n. (ok tt, n);
  send_to_dlq = λ i events version reason n. (ok tt, suc n);
  start_recovery = λ n. (ok tt, n);
}

abbrev event_processor : KafkaEventProcessor ℕ
event_processor = record {
  metrics = record {
    messages_sent = 0;
    send_errors = 0;
    messages_consumed = 0;
    consume_errors = 0;
    consume_latency = 0;
    consumer_lag = 0;
    events_processed = 0;
    processing_errors = 0;
    processing_latency = 0;
    cache_updates = 0;
  };
  world = 0;
}

abbrev two_turns : List Times
two_turns = record { polling = 1; processing = 2 } ∷ record { polling = 1; processing = 2 } ∷ []

turns_done :
    (start_processing (logged collaborators) two_turns (with_log event_processor)).0 ≡ ok tt
unfolding start_processing process_turns process_turn process_batch
turns_done = refl

two_letters_run : (start_processing collaborators two_turns event_processor).1.world ≡ 2
unfolding start_processing process_turns process_turn process_batch
two_letters_run = refl

start_processing-letters_example :
    (start_processing
      (logged collaborators)
      two_turns
      (with_log event_processor)).1.metrics.processing_errors
    ≡ add64 0
        (start_processing (logged collaborators) two_turns (with_log event_processor)).1.world.1
start_processing-letters_example =
    start_processing-letters collaborators two_turns event_processor (omega arith) turns_done
