-- ===== src/EventStore/Prepare.antt =====
-- src/infrastructure/event_store.rs: from a request to rows, and the validation of a row.
use banking_es_feature_redis.Prelude.{
  ℕ, suc, String, ◌==◌, string_eq, not, ◌&&◌, Option, none, some, List, [], ◌∷◌, ◌++◌, I64, add64,
  signed_ltb, lookup, HashMap, if◌then◌else◌, Outcome, ok, ◌>>◌, map_err,
}
use banking_es_feature_redis.Domain.{Uuid, AccountEvent, event_type}
use banking_es_feature_redis.EventStore.Types.{
  Instant, Serde, Event, event_type_empty, version_not_positive, EventValidationResult,
  EventStoreError, event_handling_error, BatchedEvent, EventHandler,
}

-- What `Uuid::new_v4` and `Utc::now` give to a row.
pub record Stamp : Type 0 where
  pub new_v4 : Uuid
  pub now : Instant

module _ {D Json : Type 0} ⦃s : Serde (AccountEvent D) Json⦄ where
  -- The row of one event.
  unfoldable pub row_of : Uuid → I64 → Stamp → AccountEvent D → Json → Event Json
  row_of aggregate version stamp event json = record {
    id = stamp.new_v4;
    aggregate_id = aggregate;
    event_type = event_type event;
    event_data = json;
    version = version;
    timestamp = stamp.now;
    metadata = record {
      correlation_id = none;
      causation_id = none;
      user_id = none;
      source = "event_store";
      schema_version = "1.0";
      tags = [];
    };
  }

  -- The loop of `prepare_events_for_insert_optimized`, at event `i`; `version` is the variable of
  -- that name before the event.
  unfoldable pub prepare_from :
      Uuid → (ℕ → Stamp) → ℕ → I64 → List (AccountEvent D) → Option (List (Event Json))
  unfolding row_of
  prepare_from aggregate stamps i version [] = some []
  prepare_from aggregate stamps i version (event ∷ events) = elim (s.to_value event) [
    | none ↦ none
    | some json ↦ elim (prepare_from aggregate stamps (suc i) (add64 version 1) events) [
      | none ↦ none
      | some rest ↦ some (row_of aggregate (add64 version 1) (stamps i) event json ∷ rest)
    ]
  ]

  -- `prepare_events_for_insert_optimized`; `none` is an error of `serde_json`.
  unfoldable pub prepare_events_for_insert_optimized :
      (ℕ → Stamp) → BatchedEvent D → Option (List (Event Json))
  unfolding prepare_from
  prepare_events_for_insert_optimized stamps b =
      prepare_from b.aggregate_id stamps 0 b.expected_version b.events

module _ {Json : Type 0} where
  -- `validate_event`: `version <= 0` is a test of signed words.
  unfoldable pub validate_event : Event Json → EventValidationResult
  validate_event event =
      let no_type = event.event_type == "" in
      let no_version = not (signed_ltb 0 event.version) in
      record {
        is_valid = not no_type && not no_version;
        errors =
            (if no_type then event_type_empty ∷ [] else [])
            ++ (if no_version then version_not_positive ∷ [] else []);
        warnings = [];
      }

  -- The loop over the handlers of an event's type.
  unfoldable pub call_handlers :
      Event Json → List (EventHandler Json) → Outcome EventStoreError (Unit {0})
  call_handlers event [] = ok tt
  call_handlers event (handle ∷ handlers) =
      map_err (event_handling_error event.event_type event.aggregate_id) (handle event)
      >> call_handlers event handlers

  -- `handle_event`
  unfoldable pub handle_event :
      Event Json → HashMap String (List (EventHandler Json)) → Outcome EventStoreError (Unit {0})
  unfolding call_handlers
  handle_event event event_handlers = elim (lookup event.event_type event_handlers) [
    | none ↦ ok tt
    | some handlers ↦ call_handlers event handlers
  ]
