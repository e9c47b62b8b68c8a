-- ===== src/Kafka/Client.antt =====
-- src/infrastructure/kafka_abstraction.rs: `KafkaProducer` and `KafkaConsumer`.
pub mod Delivery
use banking_es_feature_redis.Prelude.{
  ℕ, String, Bool, true, false, not, ◌||◌, Option, none, some, List, [], ◌∷◌, I64, eqb,
  if◌then◌else◌, Outcome, ok, err, panic, map_err,
}
use banking_es_feature_redis.Prelude.Actions.{Action, ◌>>=◌, ◌>>◌, lift, map_error}
use banking_es_feature_redis.Domain.{Uuid, Account, AccountEvent}
use banking_es_feature_redis.EventStore.{Instant}
use banking_es_feature_redis.Kafka.DeadLetters.{DeadLetterMessage}
use banking_es_feature_redis.Kafka.Types.{
  BankingKafkaError, producer_error, consumer_error, serialization_error, KafkaError, from_kafka,
  text_of, KafkaConfig, EventBatch, CacheInvalidationType, CacheInvalidationMessage, Json, Polled,
  nothing, message, failed, Streamed, arrived, broken, ended, Libraries,
}
use Prim.Native.String.{◌++◌ as concat}

-- `connected` says whether there is a client of the library.
pub record KafkaProducer : Type 0 where
  pub connected : Bool
  pub config : KafkaConfig

pub record KafkaConsumer : Type 0 where
  pub connected : Bool
  pub config : KafkaConfig

module _ {K Bytes D : Type 0} (libraries : Libraries K Bytes D) where
  -- `KafkaProducer::new`
  unfoldable pub new_producer : KafkaConfig → Action K BankingKafkaError KafkaProducer
  new_producer config =
      if not config.enabled
      then lift (ok (record { connected = false; config = config }))
      else (map_error from_kafka (libraries.rdkafka.create_producer config)
          >> lift (ok (record { connected = true; config = config })))

  -- The tail of each `send_…`: nothing is sent without a client.
  unfoldable pub send_json :
      {A : Type 0}
      → KafkaProducer
      → Json Bytes A
      → (topic : String) (key : Uuid) → A
      → Action K BankingKafkaError (Unit {0})
  send_json producer json topic key value =
      if not producer.config.enabled || not producer.connected then lift (ok tt) else (do
        payload ← lift (map_err serialization_error (json.to_vec value))
        map_error producer_error (libraries.rdkafka.send topic key payload))

  abbrev pub events_topic : KafkaConfig → String
  events_topic config = concat config.topic_prefix "-events"

  abbrev pub cache_topic : KafkaConfig → String
  cache_topic config = concat config.topic_prefix "-cache"

  abbrev pub dlq_topic : KafkaConfig → String
  dlq_topic config = concat config.topic_prefix "-dlq"

  unfoldable pub send_event_batch :
      KafkaProducer
      → (now : Instant) → Uuid
      → List (AccountEvent D)
      → I64
      → Action K BankingKafkaError (Unit {0})
  unfolding send_json
  send_event_batch producer now account_id events version =
      send_json producer libraries.batches (events_topic producer.config) account_id
        (record { account_id = account_id; events = events; version = version; timestamp = now })

  unfoldable pub send_cache_update :
      KafkaProducer → Uuid → Account D → Action K BankingKafkaError (Unit {0})
  unfolding send_json
  send_cache_update producer account_id account =
      send_json producer libraries.accounts (cache_topic producer.config) account_id account

  unfoldable pub send_dlq_message :
      KafkaProducer → DeadLetterMessage D → Action K BankingKafkaError (Unit {0})
  unfolding send_json
  send_dlq_message producer letter =
      send_json producer libraries.dead_letters (dlq_topic producer.config) letter.account_id letter

  unfoldable pub send_cache_invalidation :
      KafkaProducer
      → (now : Instant) → Uuid
      → CacheInvalidationType
      → String
      → Action K BankingKafkaError (Unit {0})
  unfolding send_json
  send_cache_invalidation producer now account_id invalidation_type reason =
      send_json producer libraries.invalidations producer.config.cache_invalidation_topic account_id
        (record {
          account_id = account_id;
          invalidation_type = invalidation_type;
          timestamp = now;
          reason = reason;
        })

  -- `KafkaConsumer::new`
  unfoldable pub new_consumer : KafkaConfig → Action K BankingKafkaError KafkaConsumer
  new_consumer config =
      if not config.enabled
      then lift (ok (record { connected = false; config = config }))
      else (map_error from_kafka (libraries.rdkafka.create_consumer config)
          >> lift (ok (record { connected = true; config = config })))

  abbrev pub subscribe_to : KafkaConsumer → String → Action K BankingKafkaError (Unit {0})
  subscribe_to consumer topic =
      if not consumer.config.enabled || not consumer.connected
      then lift (ok tt)
      else map_error from_kafka (libraries.rdkafka.subscribe topic)

  unfoldable pub subscribe_to_events : KafkaConsumer → Action K BankingKafkaError (Unit {0})
  subscribe_to_events consumer = subscribe_to consumer (events_topic consumer.config)

  unfoldable pub subscribe_to_cache : KafkaConsumer → Action K BankingKafkaError (Unit {0})
  subscribe_to_cache consumer = subscribe_to consumer (cache_topic consumer.config)

  -- The version after a message: that of a batch of the account, if it is one.
  abbrev pub version_of_batch : I64 → Outcome String (EventBatch D) → I64
  version_of_batch version (ok batch) = batch.version
  version_of_batch version (err e) = version
  version_of_batch version panic = version

  abbrev pub version_after : Uuid → I64 → Option Uuid → Option Bytes → I64
  version_after account_id version (some key) (some payload) =
      if eqb key account_id
      then version_of_batch version (libraries.batches.from_slice payload)
      else version
  version_after account_id version none payload = version
  version_after account_id version (some key) none = version

  -- The loop of `get_last_processed_version`; `none` is a loop that waits for the next message.
  unfoldable pub read_versions :
      Uuid → I64 → List (Streamed Bytes) → Option (Outcome BankingKafkaError I64)
  read_versions account_id version [] = none
  read_versions account_id version (arrived key payload ∷ items) =
      read_versions account_id (version_after account_id version key payload) items
  read_versions account_id version (broken e ∷ items) = some (err (from_kafka e))
  read_versions account_id version (ended ∷ items) = some (ok version)

  abbrev pub versions_of :
      Uuid
      → Outcome KafkaError (Unit {0})
      → List (Streamed Bytes)
      → Option (Outcome BankingKafkaError I64)
  versions_of account_id (ok _) items = read_versions account_id 0 items
  versions_of account_id (err e) items = some (err (from_kafka e))
  versions_of account_id panic items = some panic

  unfoldable pub get_last_processed_version :
      KafkaConsumer → Uuid → K → Option (Outcome BankingKafkaError I64) × K
  unfolding read_versions
  get_last_processed_version consumer account_id k =
      let (answer, k') = libraries.rdkafka.assign (events_topic consumer.config) k in
      if not consumer.config.enabled || not consumer.connected
      then (some (ok 0), k)
      else (versions_of account_id answer (libraries.rdkafka.stream k'), k')

  -- What a poll makes of an answer of the stream.
  abbrev pub read_payload :
      {A : Type 0}
      → (KafkaError → BankingKafkaError)
      → (String → BankingKafkaError)
      → Json Bytes A
      → Polled Bytes
      → Outcome BankingKafkaError (Option A)
  read_payload on_error on_json json nothing = ok none
  read_payload on_error on_json json (message none) = err (consumer_error "Empty message payload")
  read_payload on_error on_json json (message (some payload)) = elim (json.from_slice payload) [
    | ok value ↦ ok (some value)
    | err e ↦ err (on_json e)
    | panic ↦ panic
  ]
  read_payload on_error on_json json (failed e) = err (on_error e)

  -- Each `poll_…`, by the errors that it makes of those of the stream and of JSON.
  abbrev pub poll :
      {A : Type 0}
      → KafkaConsumer
      → (KafkaError → BankingKafkaError)
      → (String → BankingKafkaError)
      → Json Bytes A
      → Action K BankingKafkaError (Option A)
  poll consumer on_error on_json json k =
      let (answer, k') = libraries.rdkafka.next k in
      if not consumer.config.enabled || not consumer.connected
      then (ok none, k)
      else (read_payload on_error on_json json answer, k')

  abbrev pub not_json : String → BankingKafkaError
  not_json e = consumer_error "Failed to deserialize message"

  abbrev pub not_consumed : KafkaError → BankingKafkaError
  not_consumed e = consumer_error (text_of e)

  unfoldable pub poll_events : KafkaConsumer → Action K BankingKafkaError (Option (EventBatch D))
  poll_events consumer = poll consumer from_kafka not_json libraries.batches

  unfoldable pub poll_cache_updates :
      KafkaConsumer → Action K BankingKafkaError (Option (Account D))
  poll_cache_updates consumer = poll consumer not_consumed not_json libraries.accounts

  unfoldable pub poll_cache_invalidations :
      KafkaConsumer → Action K BankingKafkaError (Option CacheInvalidationMessage)
  poll_cache_invalidations consumer =
      poll consumer not_consumed serialization_error libraries.invalidations

  unfoldable pub poll_dlq_message :
      KafkaConsumer → Action K BankingKafkaError (Option (DeadLetterMessage D))
  poll_dlq_message consumer = poll consumer not_consumed serialization_error libraries.dead_letters
