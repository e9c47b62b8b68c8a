-- ===== src/Kafka/Types.antt =====
-- src/infrastructure/kafka_abstraction.rs: the errors, the configuration and the messages of the
-- Kafka client, and what it uses of the libraries rdkafka and serde_json.
use banking_es_feature_redis.Prelude.{
  ℕ, String, ◌≡◌, Bool, true, Option, none, List, I64, Outcome, ok,
}
use banking_es_feature_redis.Prelude.Actions.{Action}
use banking_es_feature_redis.Domain.{Uuid, Account, AccountEvent}
use banking_es_feature_redis.EventStore.{Instant}
use banking_es_feature_redis.Kafka.DeadLetters.{DeadLetterMessage}

pub data BankingKafkaError : Type 0 where
  connection_error : String → BankingKafkaError
  producer_error : String → BankingKafkaError
  consumer_error : String → BankingKafkaError
  serialization_error : String → BankingKafkaError
  deserialization_error : String → BankingKafkaError
  cache_invalidation_error : String → BankingKafkaError
  event_processing_error : String → BankingKafkaError
  configuration_error : String → BankingKafkaError
  timeout_error : String → BankingKafkaError
  unknown : String → BankingKafkaError

-- The errors of rdkafka that the client tells apart, by their texts.
pub data KafkaError : Type 0 where
  client_creation : String → KafkaError
  message_production : String → KafkaError
  message_consumption : String → KafkaError
  other : String → KafkaError

-- `From<rdkafka::error::KafkaError>`
abbrev pub from_kafka : KafkaError → BankingKafkaError
from_kafka (client_creation e) = connection_error e
from_kafka (message_production e) = producer_error e
from_kafka (message_consumption e) = consumer_error e
from_kafka (other e) = unknown e

-- `KafkaError::to_string`
abbrev pub text_of : KafkaError → String
text_of (client_creation e) = e
text_of (message_production e) = e
text_of (message_consumption e) = e
text_of (other e) = e

-- The numbers are only handed on to rdkafka.
pub record KafkaConfig : Type 0 where
  pub enabled : Bool
  pub bootstrap_servers : String
  pub group_id : String
  pub topic_prefix : String
  pub producer_acks : ℕ
  pub producer_retries : ℕ
  pub consumer_max_poll_interval_ms : ℕ
  pub consumer_session_timeout_ms : ℕ
  pub consumer_max_poll_records : ℕ
  pub security_protocol : String
  pub sasl_mechanism : String
  pub ssl_ca_location : Option String
  pub auto_offset_reset : String
  pub cache_invalidation_topic : String
  pub event_topic : String

abbrev pub default_kafka : KafkaConfig
default_kafka = record {
  enabled = true;
  bootstrap_servers = "localhost:9092";
  group_id = "banking-es-group";
  topic_prefix = "banking-es";
  producer_acks = 1;
  producer_retries = 3;
  consumer_max_poll_interval_ms = 300000;
  consumer_session_timeout_ms = 10000;
  consumer_max_poll_records = 500;
  security_protocol = "PLAINTEXT";
  sasl_mechanism = "PLAIN";
  ssl_ca_location = none;
  auto_offset_reset = "earliest";
  cache_invalidation_topic = "banking-es-cache-invalidation";
  event_topic = "banking-es-events";
}

pub record EventBatch (D : Type 0) : Type 0 where
  pub account_id : Uuid
  pub events : List (AccountEvent D)
  pub version : I64
  pub timestamp : Instant

pub data CacheInvalidationType : Type 0 where
  account_update : CacheInvalidationType
  transaction_update : CacheInvalidationType
  full_invalidation : CacheInvalidationType
  partial_invalidation : CacheInvalidationType

pub record CacheInvalidationMessage : Type 0 where
  pub account_id : Uuid
  pub invalidation_type : CacheInvalidationType
  pub timestamp : Instant
  pub reason : String

-- JSON of a type, by serde_json: what is written is read back.
pub record Json (Bytes A : Type 0) : Type 0 where
  pub to_vec : A → Outcome String Bytes
  pub from_slice : Bytes → Outcome String A
  pub from_slice-to_vec : (a : A) (bytes : Bytes) → to_vec a ≡ ok bytes → from_slice bytes ≡ ok a

-- What a poll of the stream has within its 100 milliseconds: no message, one that may have no
-- payload, or an error.
pub data Polled (Bytes : Type 0) : Type 0 where
  nothing : Polled Bytes
  message : Option Bytes → Polled Bytes
  failed : KafkaError → Polled Bytes

-- An item of the stream, as far as the loop of `get_last_processed_version` looks at it.
pub data Streamed (Bytes : Type 0) : Type 0 where
  arrived : (key : Option Uuid) (payload : Option Bytes) → Streamed Bytes
  broken : KafkaError → Streamed Bytes
  ended : Streamed Bytes

-- rdkafka, on a state of its own: the clients' creation, `FutureProducer::send` of a keyed payload
-- to a partition of a topic, `StreamConsumer::subscribe`, `assign` and a poll of its stream, and what
-- the stream gives for as long as it is read.
pub record Rdkafka (K Bytes : Type 0) : Type 0 where
  pub create_producer : KafkaConfig → Action K KafkaError (Unit {0})
  pub create_consumer : KafkaConfig → Action K KafkaError (Unit {0})
  pub send : (topic : String) (key : Uuid) → Bytes → Action K String (Unit {0})
  pub subscribe : (topic : String) → Action K KafkaError (Unit {0})
  pub assign : (topic : String) → Action K KafkaError (Unit {0})
  pub next : K → Polled Bytes × K
  pub stream : K → List (Streamed Bytes)

-- The libraries of the client.
pub record Libraries (K Bytes D : Type 0) : Type 0 where
  pub rdkafka : Rdkafka K Bytes
  pub batches : Json Bytes (EventBatch D)
  pub accounts : Json Bytes (Account D)
  pub dead_letters : Json Bytes (DeadLetterMessage D)
  pub invalidations : Json Bytes CacheInvalidationMessage
