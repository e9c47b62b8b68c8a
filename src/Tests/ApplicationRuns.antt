-- ===== src/Tests/ApplicationRuns.antt =====
-- Runs of src/application/handlers.rs and src/application/services.rs over a repository in memory.
use banking_es_feature_redis.Prelude.{
  ◌≡◌, ◌↔◌, ◌∙◌, refl, none, some, [], ◌∷◌, arith, ok, err, lookup,
}
use banking_es_feature_redis.Decimal.Cents.{ℤ, pos, cents, cents_add}
use banking_es_feature_redis.Domain.{
  money_deposited, AccountCommand, deposit_money, withdraw_money, Account, insufficient_funds,
  not_found, infrastructure_error, default, apply_events, apply_event, handle_command,
}
use banking_es_feature_redis.Domain.Decide.{Accepts, recorded}
use banking_es_feature_redis.Application.{handle_on_account, handle_create_account}
use banking_es_feature_redis.Application.Handlers.Success.{
  handle_on_account-ok_iff, handle_on_account-not_found, handle_on_account-refused,
}
use banking_es_feature_redis.Application.Handlers.Solvent.{
  AllSolvent, handle_on_account-AllSolvent, handle_create_account-AllSolvent,
}
use banking_es_feature_redis.Application.Service.{
  Cache, ServiceState, is_duplicate_command, update_projections_from_events, create_account_service,
}
use banking_es_feature_redis.Application.Service.Frame.{Framed}
use banking_es_feature_redis.Application.Service.Orphans.{SameJournal, create_account-journal}
use banking_es_feature_redis.Application.Service.Requests.{
  create, deposit, withdraw, perform, perform_all, perform-again,
}
use banking_es_feature_redis.Application.Service.Solvency.{SameJournals, Solvent}
use banking_es_feature_redis.Application.Service.SolventRuns.{perform_all-Solvent}
use banking_es_feature_redis.Projections.{ProjectionStore}
use banking_es_feature_redis.Tests.Samples.{
  alice, Journals, journals, journals-Journalled, get_in_memory, no_journal, alices_journal,
}

abbrev deposit_command : AccountCommand ℤ
deposit_command = deposit_money 7 (pos 100)

alice-found : (journals.get_by_id 7 alices_journal).0 ≡ ok (some alice)
unfolding journals get_in_memory apply_events apply_event default
alice-found = refl

handle_on_account-ok_iff_example :
    ((handle_on_account journals 7 3 deposit_command alices_journal).0
      ≡ ok (money_deposited 7 (pos 100) 3 ∷ []))
    ↔ ((a : Account ℤ) × ((journals.get_by_id 7 alices_journal).0 ≡ ok (some a))
        × Accepts a deposit_command
        × (money_deposited 7 (pos 100) 3 ∷ [] ≡ recorded deposit_command 3 ∷ [])
        × ((journals.save a
              (money_deposited 7 (pos 100) 3 ∷ [])
              (journals.get_by_id 7 alices_journal).1).0
            ≡ ok tt))
handle_on_account-ok_iff_example =
    handle_on_account-ok_iff journals 7 3 deposit_command alices_journal
      (money_deposited 7 (pos 100) 3 ∷ [])

bob-missing : (journals.get_by_id 8 alices_journal).0 ≡ ok none
unfolding journals get_in_memory
bob-missing = refl

handle_on_account-not_found_run :
    handle_on_account journals 8 3 deposit_command alices_journal
    ≡ (err not_found, (journals.get_by_id 8 alices_journal).1)
handle_on_account-not_found_run =
    handle_on_account-not_found journals 8 3 deposit_command alices_journal bob-missing

abbrev overdraft_command : AccountCommand ℤ
overdraft_command = withdraw_money 7 (pos 501)

overdraft-refused :
    handle_command alice overdraft_command 3 ≡ err (insufficient_funds (pos 500) (pos 501))
unfolding handle_command
overdraft-refused = refl

handle_on_account-refused_run :
    handle_on_account journals 7 3 overdraft_command alices_journal
    ≡ (err (insufficient_funds (pos 500) (pos 501)), (journals.get_by_id 7 alices_journal).1)
handle_on_account-refused_run =
    handle_on_account-refused journals 7 3 overdraft_command alices_journal alice
      (insufficient_funds (pos 500) (pos 501)) alice-found overdraft-refused

-- The journals in memory begin with solvent accounts.
no_journal-AllSolvent : AllSolvent journals journals-Journalled no_journal
unfolding journals-Journalled apply_events default
no_journal-AllSolvent i a h = ground arith

created-AllSolvent :
    AllSolvent journals journals-Journalled
      (handle_create_account journals 7 9 3 "Alice" (pos 500) no_journal).1
created-AllSolvent =
    handle_create_account-AllSolvent journals journals-Journalled 7 9 3 "Alice" (pos 500) no_journal
      no_journal-AllSolvent

handle_create_account-AllSolvent_run :
    AllSolvent journals journals-Journalled
      (handle_create_account journals 7 9 3 "Alice" (pos 500) no_journal).1
handle_create_account-AllSolvent_run =
    handle_create_account-AllSolvent journals journals-Journalled 7 9 3 "Alice" (pos 500) no_journal
      no_journal-AllSolvent

handle_on_account-AllSolvent_example :
    AllSolvent journals journals-Journalled
      (handle_on_account journals 7 4 deposit_command
        (handle_create_account journals 7 9 3 "Alice" (pos 500) no_journal).1).1
handle_on_account-AllSolvent_example =
    handle_on_account-AllSolvent journals journals-Journalled 7 4 deposit_command
      (handle_create_account journals 7 9 3 "Alice" (pos 500) no_journal).1 created-AllSolvent

-- Projections and a cache that keep nothing.
abbrev no_projections : ProjectionStore Journals ℤ
no_projections = record {
  get_account = λ i s. (ok none, s);
  get_all_accounts = λ s. (ok [], s);
  get_account_transactions = λ i s. (ok [], s);
  upsert_accounts_batch = λ ps s. (ok tt, s);
  insert_transactions_batch = λ ts s. (ok tt, s);
}

abbrev no_cache : Cache Journals ℤ
no_cache = record {
  get_account = λ i s. (ok none, s);
  set_account = λ a s. (ok tt, s);
  get_account_events = λ i s. (ok none, s);
}

abbrev service : ServiceState Journals
service = record {
  store = alices_journal;
  metrics = record {
    commands_processed = 0;
    commands_failed = 0;
    projection_updates = 0;
    projection_errors = 0;
    cache_hits = 0;
    cache_misses = 0;
  };
  command_cache = [];
}

-- A first deposit succeeds.
first_deposit :
    (perform journals no_projections no_cache (deposit 0 7 3 (λ n. n) (pos 100)) service).0 ≡ ok tt
unfolding perform is_duplicate_command lookup journals apply_events apply_event handle_command
    cents_add update_projections_from_events
first_deposit = refl

perform-again_example :
    let t =
      perform_all journals no_projections no_cache
        (deposit 0 7 3 (λ n. n) (pos 100) ∷ [])
        service in
    perform journals no_projections no_cache (withdraw 1 7 4 (λ n. n) (pos 20)) t
    ≡ (err (infrastructure_error "Duplicate withdraw command"), t)
perform-again_example =
    perform-again journals no_projections no_cache (deposit 0 7 3 (λ n. n) (pos 100))
      (withdraw 1 7 4 (λ n. n) (pos 20)) [] service refl

-- A creation succeeds.
bob_created :
    (create_account_service journals no_projections no_cache 0 8 9 3 "Bob" (pos 10) service).0
    ≡ ok 8
unfolding create_account_service is_duplicate_command lookup handle_command default journals
bob_created = refl

bob-Framed :
    Framed no_projections no_cache
      (SameJournal journals journals-Journalled no_projections no_cache 8)
bob-Framed = record {
  order = record { same = λ s. refl; trans = λ s t u p q. cc };
  counts = λ f s. refl;
  inserts = λ ts s. refl;
  upserts = λ ps s. refl;
  reads = λ i s. refl;
  sets = λ a s. refl;
}

create_account-journal_example :
    journals-Journalled.journal
      (create_account_service journals no_projections no_cache 0 8 9 3 "Bob"
        (pos 10)
        service).1.store
      8
    ≡ journals-Journalled.journal alices_journal 8
create_account-journal_example =
    create_account-journal journals journals-Journalled no_projections no_cache 0 8 9 3 "Bob"
      (pos 10) service (λ h. omega arith) bob-Framed

no_debt-Framed :
    Framed no_projections no_cache
      (SameJournals journals journals-Journalled no_projections no_cache)
no_debt-Framed = record {
  order = record { same = λ s i. refl; trans = λ s t u p q i. p i ∙ q i };
  counts = λ f s i. refl;
  inserts = λ ts s i. refl;
  upserts = λ ps s i. refl;
  reads = λ k s i. refl;
  sets = λ a s i. refl;
}

abbrev new_service : ServiceState Journals
new_service = record service { store = no_journal }

perform_all-Solvent_example : Solvent journals journals-Journalled no_projections no_cache (
    perform_all journals no_projections no_cache
      (create 0 7 9 3 "Alice" (pos 500) ∷ withdraw 1 9 4 (λ n. n) (pos 700) ∷ [])
      new_service)
perform_all-Solvent_example =
    perform_all-Solvent journals journals-Journalled no_projections no_cache no_debt-Framed
      (create 0 7 9 3 "Alice" (pos 500) ∷ withdraw 1 9 4 (λ n. n) (pos 700) ∷ []) new_service
      no_journal-AllSolvent
