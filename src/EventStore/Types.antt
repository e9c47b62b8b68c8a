-- ===== src/EventStore/Types.antt =====
-- src/infrastructure/event_store.rs: the data of the event store.
use banking_es_feature_redis.Prelude.{
  ℕ, ◌≡◌, String, Bool, Option, none, some, List, [], HashMap, I64, U64, Outcome,
}
use banking_es_feature_redis.Domain.{Uuid, AccountEvent}

-- An instant of `chrono` or `std::time`, as a count of its ticks.
abbrev pub Instant : Type 0
Instant = ℕ

-- What the service uses of `serde_json` for a type `A`: it writes a value, which may fail, and
-- reads it back.
pub record Serde (A Json : Type 0) : Type 0 where
  pub to_value : A → Option Json
  pub from_value : Json → Option A
  -- what was written is read back
  pub from_value-to_value : (a : A) (j : Json) → to_value a ≡ some j → from_value j ≡ some a

pub record EventMetadata : Type 0 where
  pub correlation_id : Option Uuid
  pub causation_id : Option Uuid
  pub user_id : Option String
  pub source : String
  pub schema_version : String
  pub tags : List String

-- `EventMetadata::default`
abbrev pub default_metadata : EventMetadata
default_metadata = record {
  correlation_id = none;
  causation_id = none;
  user_id = none;
  source = "system";
  schema_version = "1.0";
  tags = [];
}

-- A row of the events table.
pub record Event (Json : Type 0) : Type 0 where
  pub id : Uuid
  pub aggregate_id : Uuid
  pub event_type : String
  pub event_data : Json
  pub version : I64
  pub timestamp : Instant
  pub metadata : EventMetadata

-- The texts of a validation, by what they say.
pub data Complaint : Type 0 where
  event_type_empty : Complaint
  version_not_positive : Complaint
  invalid_version_sequence : (expected got : I64) → Complaint

pub record EventValidationResult : Type 0 where
  pub is_valid : Bool
  pub errors : List Complaint
  pub warnings : List Complaint

-- `sqlx::Error`: an answer of the server has a code and may name a constraint.
pub data DbError : Type 0 where
  row_not_found : DbError
  database : (code : String) (constraint : Option String) → DbError
  unavailable : DbError

pub data EventStoreError : Type 0 where
  optimistic_concurrency_conflict :
      (aggregate_id : Uuid) (expected : I64) (actual : Option I64) → EventStoreError
  database_error : DbError → EventStoreError
  serialization_error : EventStoreError
  validation_error : List Complaint → EventStoreError
  response_send_error : EventStoreError
  internal_error : String → EventStoreError
  event_handling_error :
      (event_type : String) (aggregate_id : Uuid) → EventStoreError → EventStoreError

pub data EventPriority : Type 0 where
  low normal high critical : EventPriority

-- A request to save, without the channel for its answer.
pub record BatchedEvent (D : Type 0) : Type 0 where
  pub aggregate_id : Uuid
  pub events : List (AccountEvent D)
  pub expected_version : I64
  pub created_at : Instant
  pub priority : EventPriority

-- The counters that the modelled code writes.
pub record EventStoreMetrics : Type 0 where
  pub events_processed : U64
  pub events_failed : U64
  pub occ_failures : U64

-- An `EventHandler` that a client registers.
abbrev pub EventHandler : Type 0 → Type 0
EventHandler Json = Event Json → Outcome EventStoreError (Unit {0})

abbrev pub VersionCache : Type 0
VersionCache = HashMap Uuid I64
