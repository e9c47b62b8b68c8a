-- ===== src/Tests/StoreRuns.antt =====
-- Runs of src/infrastructure/event_store.rs and of the repository over it.
use banking_es_feature_redis.Prelude.{
  ℕ, ◌≡◌, ◌≢◌, ◌<◌, refl, String, true, false, none, some, List, [], ◌∷◌, ◌++◌, arith, ok, err,
  or_panic, ◌>>=◌, length, add64, lookup, nat_eq, signed_ltb, minus_one, All,
}
use mathlib.Core.List.Permᴰ.{swap}
use banking_es_feature_redis.Decimal.Cents.{ℤ, pos, cents}
use banking_es_feature_redis.Domain.{
  AccountEvent, account_created, money_deposited, deposit_money, default, apply_events, event_type,
}
use banking_es_feature_redis.EventStore.{
  Event, EventStoreError, optimistic_concurrency_conflict, HasVersion, prepare_from, Session,
  bulk_insert_events_optimized, flush_batch, flush_loop, prepare_events_for_insert_optimized,
  validate_events, validate_event, handle_events, handle_event, save_events, request, timeout,
  Signal, run_processor, requests, joined, get_events, get_account, queried_events,
}
use banking_es_feature_redis.EventStore.Memory.{Transaction, memory}
use banking_es_feature_redis.EventStore.Insert.Conflicts.{bulk_insert-conflict}
use banking_es_feature_redis.EventStore.Flush.Unsaved.{
  Unsaved, flush_batch-Unsaved, save_events-ne-ok,
}
use banking_es_feature_redis.EventStore.Processor.{run_processor-joined, run_processor-length}
use banking_es_feature_redis.EventStore.Read.Query.{Answers, IsAscending, get_events_complete}
use banking_es_feature_redis.EventStore.Read.RoundTrip.{get_account-prepare_from}
use banking_es_feature_redis.AccountRepository.{Surroundings, account_repository}
use banking_es_feature_redis.AccountRepository.Journal.{account_repository-Journalled}
use banking_es_feature_redis.AccountRepository.Refusals.{
  handle_on_account-never, handle_create_account-never,
}
use banking_es_feature_redis.Application.{Journalled, handle_on_account, handle_create_account}
use banking_es_feature_redis.Tests.Samples.{
  plain, stamp, stamps, no_metrics, created_row, shared, deposit_request,
}

-- The request of a deposit at the version that the account has is a conflict.
deposit_conflicts :
    (flush_batch memory stamps (deposit_request ∷ []) shared).responses
    ≡ some (err (optimistic_concurrency_conflict 7 2 (some 1))) ∷ []
unfolding flush_batch memory flush_loop prepare_events_for_insert_optimized validate_events
    validate_event event_type handle_events handle_event lookup bulk_insert_events_optimized
deposit_conflicts = refl

flush_batch-Unsaved_example :
    ((flush_batch memory stamps (deposit_request ∷ []) shared).table ≡ created_row ∷ [])
    × Unsaved
        (deposit_request ∷ [])
        (flush_batch memory stamps (deposit_request ∷ []) shared).responses
flush_batch-Unsaved_example = flush_batch-Unsaved memory stamps (deposit_request ∷ []) shared

save_events-ne-ok_example :
    save_events memory stamps [] [] shared 0 7 (money_deposited 7 (pos 100) 1 ∷ []) 1 ≢ ok tt
save_events-ne-ok_example =
    save_events-ne-ok memory stamps [] [] shared 0 7 (money_deposited 7 (pos 100) 1 ∷ []) 1
      (λ h. cc)

abbrev session : Session (Transaction (AccountEvent ℤ))
session = record {
  tx = record { now = created_row ∷ []; before = created_row ∷ []; failed = false };
  metrics = no_metrics;
  version_cache = (7, 1) ∷ [];
}

abbrev second_row : Event (AccountEvent ℤ)
second_row = record created_row { event_type = "MoneyDeposited"; version = 2 }

select-second : (memory.select_version 7 session.tx).0 ≡ ok 1
unfolding memory
select-second = refl

set-second : (memory.set_serializable session.tx).0 ≡ ok tt
unfolding memory
set-second = refl

select-behind_set : (memory.select_version 7 (memory.set_serializable session.tx).1).0 ≡ ok 1
unfolding memory
select-behind_set = refl

bulk_insert-conflict_run :
    let (answer, s') = bulk_insert_events_optimized memory (second_row ∷ []) session in
    (answer ≡ err (optimistic_concurrency_conflict 7 2 (some 1)))
    × (s'.metrics.occ_failures ≡ add64 0 1)
    × (lookup 7 s'.version_cache ≡ none)
bulk_insert-conflict_run =
    bulk_insert-conflict memory second_row [] session 1 set-second select-behind_set
      (λ h. omega arith)

abbrev signals : List (Signal ℕ)
signals = request 1 ∷ request 2 ∷ timeout ∷ request 3 ∷ []

run_processor-joined_example :
    let (last, flushed) = run_processor 2 [] signals in
    joined flushed ++ last ≡ [] ++ requests signals
run_processor-joined_example = run_processor-joined 2 [] signals

run_processor-length_run : length (run_processor 2 [] signals).0 < 2
run_processor-length_run = run_processor-length 2 [] signals (omega arith)

-- All events of the account are read.
created_read :
    get_events none (created_row ∷ []) 7 none ≡ ok (queried_events (created_row ∷ []) 7 none)
unfolding get_events
created_read = refl

get_events_complete_example :
    All (Answers 7 minus_one) (queried_events (created_row ∷ []) 7 none)
    × IsAscending (queried_events (created_row ∷ []) 7 none)
    × ((v : ℕ)
        → HasVersion 7 v (created_row ∷ [])
        → signed_ltb minus_one v ≡ true
        → HasVersion 7 v (queried_events (created_row ∷ []) 7 none))
get_events_complete_example =
    get_events_complete none (created_row ∷ []) (queried_events (created_row ∷ []) 7 none) 7 none
      created_read

abbrev creation : AccountEvent ℤ
creation = account_created 7 "Alice" (pos 500)

abbrev deposited : AccountEvent ℤ
deposited = money_deposited 7 (pos 100) 1

abbrev deposited_row : Event (AccountEvent ℤ)
deposited_row = record created_row {
  id = 1;
  event_type = "MoneyDeposited";
  event_data = deposited;
  version = 2;
}

-- The rows of the account come last first, with a row of another between them.
abbrev mixed : List (Event (AccountEvent ℤ))
mixed = deposited_row ∷ record created_row { aggregate_id = 8 } ∷ created_row ∷ []

both-prepared :
    prepare_from 7 stamp 0 0 (creation ∷ deposited ∷ []) ≡ some (created_row ∷ deposited_row ∷ [])
unfolding prepare_from event_type
both-prepared = refl

get_account-prepare_from_example : get_account none mixed 9 7 ≡ (do
  account ← or_panic (apply_events (record (default 9) { id = 7 }) (creation ∷ deposited ∷ []))
  ok (some account))
get_account-prepare_from_example =
    get_account-prepare_from 7 9 stamp 0 creation (deposited ∷ [])
      (created_row ∷ deposited_row ∷ []) mixed both-prepared (omega arith) (swap refl refl)

abbrev env : Surroundings ℤ
env = record { stamps = stamps; before = []; after = []; now = 0; fault = none; new_v4 = 9 }

abbrev describe : EventStoreError → String
describe e = "failed"

account_repository-Journalled_example :
    Journalled (account_repository {Json = AccountEvent ℤ} memory describe env)
account_repository-Journalled_example = account_repository-Journalled memory describe env

handle_on_account-never_run :
    (handle_on_account
      (account_repository {Json = AccountEvent ℤ} memory describe env)
      7
      3
      (deposit_money 7 (pos 100))
      shared).0
    ≢ ok (money_deposited 7 (pos 100) 3 ∷ [])
handle_on_account-never_run =
    handle_on_account-never memory describe env 7 3 (deposit_money 7 (pos 100)) shared
      (money_deposited 7 (pos 100) 3 ∷ [])

handle_create_account-never_run :
    (handle_create_account
      (account_repository {Json = AccountEvent ℤ} memory describe env)
      8
      9
      3
      "Bob"
      (pos 100)
      shared).0
    ≢ ok 8
handle_create_account-never_run =
    handle_create_account-never memory describe env 8 9 3 "Bob" (pos 100) shared 8
