-- ===== src/Kafka/Processor.antt =====
-- src/infrastructure/kafka_event_processor.rs: `KafkaEventProcessor`, without its tracing and the
-- two tasks that it spawns.
pub mod Letters
use banking_es_feature_redis.Prelude.{
  ℕ, zero, suc, ◌*◌, String, Bool, true, false, ◌&&◌, ◌||◌, Option, none, some, List, [], ◌∷◌, I64,
  U64, add64, ltb, length, if◌then◌else◌, Outcome, ok, err, panic, or_panic,
}
use banking_es_feature_redis.Prelude.Actions.{Action, ◌>>=◌, ◌>>◌, lift, modify, matched}
use banking_es_feature_redis.Decimal.{Decimal}
use banking_es_feature_redis.Domain.{Uuid, Account, AccountEvent}
use banking_es_feature_redis.Projections.{AccountProjection, apply_event}
use banking_es_feature_redis.Kafka.Types.{EventBatch}
use Prim.Native.String.{◌++◌ as concat}

-- What the processor calls, on a state of its own.
pub record Collaborators (W D : Type 0) : Type 0 where
  pub subscribe_to_events : Action W String (Unit {0})
  pub poll_events : Action W String (Option (EventBatch D))
  pub save_events : Uuid → List (AccountEvent D) → I64 → Action W String (Unit {0})
  pub set_account_events :
      Uuid → List (I64 × AccountEvent D) → Option ℕ → Action W String (Unit {0})
  pub get_account : Uuid → Action W String (Option (AccountProjection D))
  pub set_account : Account D → Option ℕ → Action W String (Unit {0})
  pub send_cache_update : Uuid → Account D → Action W String (Unit {0})
  pub send_to_dlq : Uuid → List (AccountEvent D) → I64 → String → Action W String (Unit {0})
  pub start_recovery : Action W String (Unit {0})

-- The counters of `KafkaMetrics` that the processor reads and writes, with those of its error rate.
pub record KafkaMetrics : Type 0 where
  pub messages_sent : U64
  pub send_errors : U64
  pub messages_consumed : U64
  pub consume_errors : U64
  pub consume_latency : U64
  pub consumer_lag : U64
  pub events_processed : U64
  pub processing_errors : U64
  pub processing_latency : U64
  pub cache_updates : U64

pub record KafkaEventProcessor (W : Type 0) : Type 0 where
  pub metrics : KafkaMetrics
  pub world : W

-- How long a turn takes: to poll, and to process its batch.
pub record Times : Type 0 where
  pub polling : ℕ
  pub processing : ℕ

module _ {W : Type 0} where
  abbrev pub calls : {E A : Type 0} → Action W E A → Action (KafkaEventProcessor W) E A
  calls action p = let (answer, world') = action p.world in (answer, record p { world = world' })

  abbrev pub counts :
      {E : Type 0} → (KafkaMetrics → KafkaMetrics) → Action (KafkaEventProcessor W) E (Unit {0})
  counts f = modify (λ p. record p { metrics = f p.metrics })

abbrev pub consumed : ℕ → KafkaMetrics → KafkaMetrics
consumed took m = record m {
  messages_consumed = add64 m.messages_consumed 1;
  consume_latency = add64 m.consume_latency took;
}

abbrev pub processed : ℕ → KafkaMetrics → KafkaMetrics
processed n m = record m { events_processed = add64 m.events_processed n }

abbrev pub not_processed : KafkaMetrics → KafkaMetrics
not_processed m = record m { processing_errors = add64 m.processing_errors 1 }

abbrev pub not_consumed : KafkaMetrics → KafkaMetrics
not_consumed m = record m { consume_errors = add64 m.consume_errors 1 }

abbrev pub cache_updated : KafkaMetrics → KafkaMetrics
cache_updated m = record m { cache_updates = add64 m.cache_updates 1 }

abbrev pub took_processing : ℕ → KafkaMetrics → KafkaMetrics
took_processing took m = record m { processing_latency = add64 m.processing_latency took }

-- `errors as f64 / total as f64 > 0.1`, of numbers that are small enough to be exact.
abbrev pub error_rate_is_high : KafkaMetrics → Bool
error_rate_is_high m =
    let errors = add64 (add64 m.send_errors m.consume_errors) m.processing_errors in
    let total = add64 (add64 m.messages_sent m.messages_consumed) m.events_processed in
    ltb 0 total && ltb total (10 * errors)

unfoldable pub should_trigger_recovery : KafkaMetrics → Bool
should_trigger_recovery m = error_rate_is_high m || ltb 1000 m.consumer_lag

module _ {D : Type 0} where
  -- `batch.version + i as i64` for each event
  abbrev pub versioned : I64 → List (AccountEvent D) → List (I64 × AccountEvent D)
  versioned version [] = []
  versioned version (event ∷ events) = (version, event) ∷ versioned (add64 version 1) events

  -- The loop that applies the batch to the projection; an amount that overflows panics.
  abbrev pub apply_latest :
      ⦃d : Decimal D⦄ → AccountProjection D → List (AccountEvent D) → Option (AccountProjection D)
  apply_latest projection [] = some projection
  apply_latest projection (event ∷ events) = elim (apply_event projection event) [
    | none ↦ none
    | some projection' ↦ apply_latest projection' events
  ]

  -- The account that the projection shows, with the version after the batch.
  abbrev pub account_of : EventBatch D → AccountProjection D → Account D
  account_of batch p = record {
    id = p.id;
    owner_name = p.owner_name;
    balance = p.balance;
    is_active = p.is_active;
    version = add64 batch.version (length batch.events);
  }

module _ {W D : Type 0} ⦃d : Decimal D⦄ (collaborators : Collaborators W D) where
  abbrev pub update_caches :
      EventBatch D → Account D → Action (KafkaEventProcessor W) String (Unit {0})
  update_caches batch account = do
    calls (collaborators.set_account account (some 3600))
    calls (collaborators.send_cache_update batch.account_id account)
    counts cache_updated

  abbrev pub update_projected :
      EventBatch D → Option (AccountProjection D) → Action (KafkaEventProcessor W) String (Unit {0})
  update_projected batch none = lift (ok tt)
  update_projected batch (some projection) =
      lift (or_panic (apply_latest projection batch.events)) >>= λ latest.
      update_caches batch (account_of batch latest)

  -- `process_batch`
  unfoldable pub process_batch :
      (took : ℕ) → EventBatch D → Action (KafkaEventProcessor W) String (Unit {0})
  process_batch took batch = do
    calls (collaborators.save_events batch.account_id batch.events batch.version)
    calls (
        collaborators.set_account_events batch.account_id (versioned batch.version batch.events)
          none)
    account ← calls (collaborators.get_account batch.account_id)
    update_projected batch account
    counts (took_processing took)

  -- A batch that failed goes to the dead-letter queue.
  abbrev pub to_dead_letters :
      EventBatch D → String → Action (KafkaEventProcessor W) String (Unit {0})
  to_dead_letters batch e = do
    counts not_processed
    calls (
        collaborators.send_to_dlq batch.account_id batch.events batch.version
          (concat "Batch processing failed: " e))

  abbrev pub process_polled :
      Times → Option (EventBatch D) → Action (KafkaEventProcessor W) String (Unit {0})
  process_polled times none = lift (ok tt)
  process_polled times (some batch) = do
    counts (consumed times.polling)
    matched (process_batch times.processing batch) (λ _. counts (processed (length batch.events)))
        (λ e. to_dead_letters batch e)

  -- The error of a recovery is only logged.
  abbrev pub recover_if : Bool → Action (KafkaEventProcessor W) String (Unit {0})
  recover_if true =
      matched (calls collaborators.start_recovery) (λ _. lift (ok tt)) (λ _. lift (ok tt))
  recover_if false = lift (ok tt)

  abbrev pub recover_if_needed : Action (KafkaEventProcessor W) String (Unit {0})
  recover_if_needed p = recover_if (should_trigger_recovery p.metrics) p

  -- A turn of the loop of `start_processing`.
  unfoldable pub process_turn : Times → Action (KafkaEventProcessor W) String (Unit {0})
  unfolding process_batch should_trigger_recovery
  process_turn times =
      matched (calls collaborators.poll_events) (λ polled. process_polled times polled)
        (λ _. counts not_consumed >> recover_if_needed)

  -- The loop for a number of turns: only an error of the dead-letter queue or a panic ends it.
  unfoldable pub process_turns : List Times → Action (KafkaEventProcessor W) String (Unit {0})
  unfolding process_turn
  process_turns [] = lift (ok tt)
  process_turns (times ∷ turns) = process_turn times >> process_turns turns

  -- `start_processing`
  unfoldable pub start_processing : List Times → Action (KafkaEventProcessor W) String (Unit {0})
  unfolding process_turns
  start_processing turns = calls collaborators.subscribe_to_events >> process_turns turns
