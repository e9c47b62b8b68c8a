-- ===== src/EventStore/Flush.antt =====
-- src/infrastructure/event_store.rs, `flush_batch` and `save_events`: one transaction for a batch
-- of requests, and the answer that each of them gets.
pub mod Unsaved
use banking_es_feature_redis.Prelude.{
  ℕ, suc, String, true, false, Bool, Option, none, some, List, [], ◌∷◌, add64, length, HashMap,
  Outcome, ok, err, panic, map, ◌++◌,
}
use banking_es_feature_redis.Domain.{Uuid, AccountEvent}
use banking_es_feature_redis.EventStore.Types.{
  Instant, Serde, Event, DbError, EventStoreError, database_error, serialization_error,
  validation_error, response_send_error, BatchedEvent, EventPriority, normal, EventStoreMetrics,
  EventHandler, VersionCache,
}
use banking_es_feature_redis.EventStore.Database.{Postgres}
use banking_es_feature_redis.EventStore.Prepare.{
  Stamp, prepare_events_for_insert_optimized, validate_event, handle_event,
}
use banking_es_feature_redis.EventStore.Insert.{Session, Action, bulk_insert_events_optimized}

-- What a request is sent; `none` if its channel is dropped unanswered.
abbrev pub Response : Type 0
Response = Option (Outcome EventStoreError (Unit {0}))

abbrev count_failed : {Tx : Type 0} → Session Tx → Session Tx
count_failed s =
    let m = s.metrics in record s { metrics = record m { events_failed = add64 m.events_failed 1 } }

-- The count of what was inserted.
unfoldable pub count_processed : {Tx : Type 0} → ℕ → Action Tx (Unit {0}) → Action Tx (Unit {0})
count_processed n insert s =
    let (answer, s') = insert s in
    let m = s'.metrics in
    (
      answer,
      elim answer [
        | ok _ ↦ record s' { metrics = record m { events_processed = add64 m.events_processed n } }
        | err e ↦ s'
        | panic ↦ s'
      ],
    )

module _ {Tx Json : Type 0} where
  -- The loop over `validate_event`, up to the first event that is not valid.
  unfoldable pub validate_events : List (Event Json) → Action Tx (Unit {0})
  validate_events [] s = (ok tt, s)
  validate_events (event ∷ events) s = elim ((validate_event event).is_valid) [
    | true ↦ validate_events events s
    | false ↦ (err (validation_error (validate_event event).errors), count_failed s)
  ]

  -- The loop over `handle_event`, up to the first failure.
  unfoldable pub handle_events :
      HashMap String (List (EventHandler Json)) → List (Event Json) → Action Tx (Unit {0})
  handle_events handlers [] s = (ok tt, s)
  handle_events handlers (event ∷ events) s = elim (handle_event event handlers) [
    | ok _ ↦ handle_events handlers events s
    | err e ↦ (err e, count_failed s)
    | panic ↦ (panic, s)
  ]

module _ {Tx Json : Type 0} (db : Postgres Tx Json) where
  -- Validation, handlers and insert of one request's rows: its `insert_result`.
  unfoldable pub insert_result :
      HashMap String (List (EventHandler Json)) → List (Event Json) → Action Tx (Unit {0})
  unfolding count_processed
  insert_result handlers event_data s =
      let (valid, s₁) = validate_events event_data s in
      elim valid [
        | err e ↦ (err e, s₁)
        | panic ↦ (panic, s₁)
        | ok _ ↦
            let (handled, s₂) = handle_events handlers event_data s₁ in
            elim handled [
              | err e ↦ (err e, s₂)
              | panic ↦ (panic, s₂)
              | ok _ ↦
                  count_processed (length event_data) (bulk_insert_events_optimized db event_data)
                    s₂
            ]
      ]

-- The end of a turn of `flush_batch`'s loop: the answer is sent, and the loop goes on to what it does
-- with the rest, unless the task has panicked.
unfoldable pub after_answer :
    {Tx D : Type 0}
    → Outcome EventStoreError (Unit {0})
    → List (BatchedEvent D)
    → Session Tx
    → Outcome EventStoreError (Unit {0}) × List Response × Session Tx
    → Outcome EventStoreError (Unit {0}) × List Response × Session Tx
after_answer (ok _) batch st (end, answers, st') = (end, some (ok tt) ∷ answers, st')
after_answer (err e) batch st (end, answers, st') = (end, some (err e) ∷ answers, st')
after_answer panic batch st rest = (panic, none ∷ map (λ _. none) batch, st)

module _ {Tx D Json : Type 0} (db : Postgres Tx Json) ⦃s : Serde (AccountEvent D) Json⦄ where
  -- The loop of `flush_batch` at request `i`: how the loop ends, and what each request is sent. A
  -- request that cannot be written as JSON ends the loop, and a panic ends the task.
  unfoldable pub flush_loop :
      HashMap String (List (EventHandler Json))
      → (ℕ → ℕ → Stamp)
      → ℕ
      → List (BatchedEvent D)
      → Session Tx
      → Outcome EventStoreError (Unit {0}) × List Response × Session Tx
  unfolding insert_result after_answer
  flush_loop handlers stamps i [] st = (ok tt, [], st)
  flush_loop handlers stamps i (b ∷ batch) st =
      elim (prepare_events_for_insert_optimized (stamps i) b) [
        | none ↦ (err serialization_error, none ∷ map (λ _. none) batch, st)
        | some event_data ↦
            let (answer, st') = insert_result db handlers event_data st in
            after_answer answer batch st' (flush_loop handlers stamps (suc i) batch st')
      ]

-- What a batch leaves behind: how the task ends, the answers, and the shared state.
pub record Flushed (Json : Type 0) : Type 0 where
  pub result : Outcome EventStoreError (Unit {0})
  pub responses : List Response
  pub table : List (Event Json)
  pub metrics : EventStoreMetrics
  pub version_cache : VersionCache

-- The end of the transaction, with the table that it leaves.
unfoldable pub closed :
    {Tx Json : Type 0}
    → Outcome EventStoreError (Unit {0})
    → List Response
    → List (Event Json)
    → Session Tx
    → Flushed Json
closed r answers rows st = record {
  result = r;
  responses = answers;
  table = rows;
  metrics = st.metrics;
  version_cache = st.version_cache;
}

-- The state that the store's tasks share.
pub record Shared (Json : Type 0) : Type 0 where
  pub table : List (Event Json)
  pub metrics : EventStoreMetrics
  pub version_cache : VersionCache
  pub event_handlers : HashMap String (List (EventHandler Json))

module _ {Tx Json : Type 0} (db : Postgres Tx Json) where
  -- The commit, if the loop got to its end; a transaction that is not committed is rolled back.
  unfoldable pub finish :
      Outcome EventStoreError (Unit {0})
      → List Response
      → List (Event Json)
      → Session Tx
      → Flushed Json
  unfolding closed
  finish (err e) answers table st = closed (err e) answers table st
  finish panic answers table st = closed panic answers table st
  finish (ok _) answers table st = elim (db.commit st.tx) [
    | err e ↦ closed (err (database_error e)) answers table st
    | panic ↦ closed panic answers table st
    | ok rows ↦ closed (ok tt) answers rows st
  ]

module _ {Tx D Json : Type 0} (db : Postgres Tx Json) ⦃s : Serde (AccountEvent D) Json⦄ where
  -- The batch, once the transaction has begun or failed to.
  unfoldable pub flush_in :
      (ℕ → ℕ → Stamp) → List (BatchedEvent D) → Shared Json → Outcome DbError Tx → Flushed Json
  unfolding finish
  flush_in stamps batch sh (err e) = record {
    result = err (database_error e);
    responses = map (λ _. none) batch;
    table = sh.table;
    metrics = sh.metrics;
    version_cache = sh.version_cache;
  }
  flush_in stamps batch sh panic = record {
    result = panic;
    responses = map (λ _. none) batch;
    table = sh.table;
    metrics = sh.metrics;
    version_cache = sh.version_cache;
  }
  flush_in stamps batch sh (ok tx) =
      let st : Session Tx = record {
        tx = tx;
        metrics = sh.metrics;
        version_cache = sh.version_cache;
      } in
      let (end, answers, st') = flush_loop db sh.event_handlers stamps 0 batch st in
      finish db end answers sh.table st'

  -- `flush_batch`. The answers are sent before the commit.
  unfoldable pub flush_batch : (ℕ → ℕ → Stamp) → List (BatchedEvent D) → Shared Json → Flushed Json
  unfolding flush_in
  flush_batch stamps batch sh = flush_in stamps batch sh (db.begin sh.table)

-- What `save_events` returns for what its channel brings.
unfoldable pub received : Response → Outcome EventStoreError (Unit {0})
received none = err response_send_error
received (some answer) = answer

-- The answer to the request behind `before`.
abbrev pub response_at : {A : Type 0} → List A → List Response → Response
response_at before [] = none
response_at [] (r ∷ rs) = r
response_at (_ ∷ before) (_ ∷ rs) = response_at before rs

module _ {Tx D Json : Type 0} (db : Postgres Tx Json) ⦃s : Serde (AccountEvent D) Json⦄ where
  -- `save_events_with_priority`, where the batch processor puts the request between the requests
  -- `before` and `after` of other callers.
  unfoldable pub save_events_with_priority :
      (ℕ → ℕ → Stamp)
      → (before after : List (BatchedEvent D)) → Shared Json
      → Instant
      → Uuid
      → List (AccountEvent D)
      → ℕ
      → EventPriority
      → Outcome EventStoreError (Unit {0})
  unfolding received
  save_events_with_priority stamps before after sh now aggregate [] expected priority = ok tt
  save_events_with_priority stamps before after sh now aggregate (e ∷ es) expected priority =
      let b : BatchedEvent D = record {
        aggregate_id = aggregate;
        events = e ∷ es;
        expected_version = expected;
        created_at = now;
        priority = priority;
      } in
      received (response_at before (flush_batch db stamps (before ++ b ∷ after) sh).responses)

  -- `save_events` is the same code at the priority `Normal`.
  unfoldable pub save_events :
      (ℕ → ℕ → Stamp)
      → (before after : List (BatchedEvent D)) → Shared Json
      → Instant
      → Uuid
      → List (AccountEvent D)
      → ℕ
      → Outcome EventStoreError (Unit {0})
  unfolding save_events_with_priority
  save_events stamps before after sh now aggregate events expected =
      save_events_with_priority stamps before after sh now aggregate events expected normal
