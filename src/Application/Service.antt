-- ===== src/Application/Service.antt =====
-- src/application/services.rs: `AccountService` over the repository, the projections and the cache.
-- The identifiers that `Uuid::new_v4` gives and the times are arguments.
pub mod Frame
pub mod Bodies
pub mod Orphans
pub mod Duplicates
pub mod Requests
pub mod Solvency
pub mod SolventRuns
use banking_es_feature_redis.Prelude.{
  ℕ, suc, ◌+◌, String, Bool, true, false, Option, none, some, List, [], ◌∷◌, map, Outcome, ok, err,
  panic, ok_or, or_panic, U64, add64, HashMap, lookup, insert, nat_eq,
}
use banking_es_feature_redis.Prelude.Actions.{Action, ◌>>=◌, ◌>>◌, lift, modify, map_error}
use banking_es_feature_redis.Decimal.{Decimal}
use banking_es_feature_redis.Domain.{
  Uuid, AccountEvent, money_deposited, money_withdrawn, aggregate_id, event_type, AccountCommand,
  create_account, deposit_money, withdraw_money, Account, AccountError, not_found,
  infrastructure_error, default, handle_command, apply_events,
}
use banking_es_feature_redis.EventStore.{Instant}
use banking_es_feature_redis.Projections.{AccountProjection, TransactionProjection, ProjectionStore}
use banking_es_feature_redis.Application.Interface.{Repository}

pub record ServiceMetrics : Type 0 where
  pub commands_processed : U64
  pub commands_failed : U64
  pub projection_updates : U64
  pub projection_errors : U64
  pub cache_hits : U64
  pub cache_misses : U64

-- What of `CacheServiceTrait` the service calls.
pub record Cache (S D : Type 0) : Type 0 where
  pub get_account : Uuid → Action S String (Option (Account D))
  pub set_account : Account D → Action S String (Unit {0})
  pub get_account_events : Uuid → Action S String (Option (List (AccountEvent D)))

-- The service's own state, and the state `store` of what it calls.
pub record ServiceState (S : Type 0) : Type 0 where
  pub store : S
  pub metrics : ServiceMetrics
  pub command_cache : HashMap Uuid Instant

-- A call of the repository, the projections or the cache.
abbrev pub call : {S E A : Type 0} → Action S E A → Action (ServiceState S) E A
call action s = let (r, store') = action s.store in (r, record s { store = store' })

-- `fetch_add(1)` on a counter
abbrev pub count :
    {S E : Type 0} → (ServiceMetrics → ServiceMetrics) → Action (ServiceState S) E (Unit {0})
count f = modify (λ s. record s { metrics = f s.metrics })

abbrev pub processed : ServiceMetrics → ServiceMetrics
processed m = record m { commands_processed = add64 m.commands_processed 1 }

abbrev pub failed : ServiceMetrics → ServiceMetrics
failed m = record m { commands_failed = add64 m.commands_failed 1 }

abbrev pub updated : ServiceMetrics → ServiceMetrics
updated m = record m { projection_updates = add64 m.projection_updates 1 }

abbrev pub not_updated : ServiceMetrics → ServiceMetrics
not_updated m = record m { projection_errors = add64 m.projection_errors 1 }

abbrev pub hit : ServiceMetrics → ServiceMetrics
hit m = record m { cache_hits = add64 m.cache_hits 1 }

abbrev pub missed : ServiceMetrics → ServiceMetrics
missed m = record m { cache_misses = add64 m.cache_misses 1 }

-- What the service does first where a call has failed; the error stays.
abbrev pub on_error : {S E A : Type 0} → (E → Action S E (Unit {0})) → Action S E A → Action S E A
on_error handler action s =
    let (r, s') = action s in
    elim r [ ok a ↦ (ok a, s') | err e ↦ (err e, (handler e s').1) | panic ↦ (panic, s') ]

-- A call of which only the counters show the result: `if let Err(e) = … { … } else { … }`.
abbrev pub observed :
    {S E F : Type 0} → Action (ServiceState S) F (Unit {0}) → Action (ServiceState S) E (Unit {0})
observed action s =
    let (r, s') = action s in
    elim r [ ok _ ↦ count updated s' | err _ ↦ count not_updated s' | panic ↦ (panic, s') ]

-- `is_duplicate_command`
unfoldable pub is_duplicate_command :
    {S E : Type 0} → Instant → Uuid → Action (ServiceState S) E Bool
is_duplicate_command now command_id s = elim (lookup command_id s.command_cache) [
  | some _ ↦ (ok true, s)
  | none ↦ (ok false, record s { command_cache = insert command_id now s.command_cache })
]

abbrev pub refusal : {D : Type 0} → String → Bool → Outcome (AccountError D) (Unit {0})
refusal message duplicate = elim duplicate [
  | true ↦ err (infrastructure_error message)
  | false ↦ ok tt
]

-- The check that the commands begin with.
abbrev pub refuse_duplicate :
    {S D : Type 0} → Instant → Uuid → String → Action (ServiceState S) (AccountError D) (Unit {0})
refuse_duplicate now command_id message = do
  duplicate ← is_duplicate_command now command_id
  lift (refusal message duplicate)

-- `event.aggregate_id()`, the amount and the type of an event, as a transaction.
unfoldable pub into_transaction :
    {D : Type 0} ⦃d : Decimal D⦄ → Instant → Uuid → AccountEvent D → TransactionProjection D
into_transaction ⦃d⦄ now new_v4 event = record {
  id = new_v4;
  account_id = aggregate_id event;
  transaction_type = event_type event;
  amount = elim event [
    | money_deposited _ amount _ ↦ amount
    | money_withdrawn _ amount _ ↦ amount
    | _ ↦ d.zero
  ];
  timestamp = now;
}

module _ {S D : Type 0} ⦃d : Decimal D⦄ (projections : ProjectionStore S D)
    (cache : Cache S D) where
  -- `insert_transactions_batch` for one event, with the counts of its failure and success.
  abbrev pub insert_transaction :
      Instant → Uuid → AccountEvent D → Action (ServiceState S) (AccountError D) (Unit {0})
  insert_transaction now new_v4 event =
      on_error (λ e. count not_updated)
        (map_error infrastructure_error
          (call (projections.insert_transactions_batch (into_transaction now new_v4 event ∷ []))))
      >> count updated

  -- `set_account` with the projection's account, if there is one.
  abbrev pub cache_projection :
      Option (AccountProjection D) → Action (ServiceState S) (AccountError D) (Unit {0})
  cache_projection none = lift (ok tt)
  cache_projection (some p) = map_error infrastructure_error (
      call (
        cache.set_account (record {
          id = p.id;
          owner_name = p.owner_name;
          balance = p.balance;
          is_active = p.is_active;
          version = 0;
        })))

  abbrev pub refresh_cache : Uuid → Action (ServiceState S) (AccountError D) (Unit {0})
  refresh_cache account_id = do
    found ← map_error infrastructure_error (call (projections.get_account account_id))
    cache_projection found

  -- `update_projections_from_events`; the events' transactions have the identifiers `new_v4 0`,
  -- `new_v4 1` and so on.
  unfoldable pub update_projections_from_events :
      Instant
      → (ℕ → Uuid)
      → List (AccountEvent D)
      → Action (ServiceState S) (AccountError D) (Unit {0})
  update_projections_from_events now new_v4 [] = lift (ok tt)
  update_projections_from_events now new_v4 (event ∷ events) = do
    insert_transaction now (new_v4 0) event
    refresh_cache (aggregate_id event)
    update_projections_from_events now (λ n. new_v4 (suc n)) events

module _ {S D : Type 0} ⦃d : Decimal D⦄ (repo : Repository S D) (projections : ProjectionStore S D)
    (cache : Cache S D) where
  -- `self.repository.save(…)`, with the count of a failure.
  abbrev pub save_counted :
      Account D → List (AccountEvent D) → Action (ServiceState S) (AccountError D) (Unit {0})
  save_counted account events =
      on_error (λ e. count failed)
        (map_error infrastructure_error (call (repo.save account events)))

  -- `create_account` behind the check for a duplicate; `new_v4` is the identifier of
  -- `Account::default()`.
  unfoldable pub create_unchecked :
      Instant
      → (account_id new_v4 transaction : Uuid) → String
      → D
      → Action (ServiceState S) (AccountError D) Uuid
  create_unchecked now account_id new_v4 transaction owner_name initial_balance = do
    events ← lift (
        handle_command (default new_v4) (create_account account_id owner_name initial_balance)
          transaction)
    save_counted (default new_v4) events
    observed (
        call (
          projections.upsert_accounts_batch (
            record {
              id = account_id;
              owner_name = owner_name;
              balance = initial_balance;
              is_active = true;
              created_at = now;
              updated_at = now;
            }
            ∷ [])))
    count processed
    lift (ok account_id)

  -- `create_account`
  unfoldable pub create_account_service :
      Instant
      → (account_id new_v4 transaction : Uuid) → String
      → D
      → Action (ServiceState S) (AccountError D) Uuid
  unfolding create_unchecked
  create_account_service now account_id new_v4 transaction owner_name initial_balance = do
    refuse_duplicate now account_id "Duplicate create account command"
    create_unchecked now account_id new_v4 transaction owner_name initial_balance

  -- The body that `deposit_money` and `withdraw_money` share, behind the check for a duplicate.
  unfoldable pub transact_unchecked :
      Instant
      → Uuid
      → Uuid
      → (ℕ → Uuid)
      → AccountCommand D
      → Action (ServiceState S) (AccountError D) (Unit {0})
  transact_unchecked now account_id transaction new_v4 command = do
    found ← call (repo.get_by_id account_id)
    account ← lift (ok_or not_found found)
    events ← lift (handle_command account command transaction)
    account' ← lift (or_panic (apply_events account events))
    save_counted account' events
    observed (update_projections_from_events projections cache now new_v4 events)
    count processed

  unfoldable pub transact :
      Instant
      → Uuid
      → Uuid
      → (ℕ → Uuid)
      → String
      → AccountCommand D
      → Action (ServiceState S) (AccountError D) (Unit {0})
  unfolding transact_unchecked
  transact now account_id transaction new_v4 message command = do
    refuse_duplicate now account_id message
    transact_unchecked now account_id transaction new_v4 command

  unfoldable pub deposit_money_service :
      Instant → Uuid → Uuid → (ℕ → Uuid) → D → Action (ServiceState S) (AccountError D) (Unit {0})
  unfolding transact
  deposit_money_service now account_id transaction new_v4 amount =
      transact now account_id transaction new_v4 "Duplicate deposit command"
        (deposit_money account_id amount)

  unfoldable pub withdraw_money_service :
      Instant → Uuid → Uuid → (ℕ → Uuid) → D → Action (ServiceState S) (AccountError D) (Unit {0})
  unfolding transact
  withdraw_money_service now account_id transaction new_v4 amount =
      transact now account_id transaction new_v4 "Duplicate withdraw command"
        (withdraw_money account_id amount)

  -- `get_account`: the cache first.
  unfoldable pub get_account :
      Instant → Uuid → Action (ServiceState S) (AccountError D) (Option (AccountProjection D))
  get_account now account_id = do
    cached ← map_error infrastructure_error (call (cache.get_account account_id))
    elim cached [
      | some account ↦
          count hit
          >> lift (
              ok (
                some (record {
                  id = account.id;
                  owner_name = account.owner_name;
                  balance = account.balance;
                  is_active = account.is_active;
                  created_at = now;
                  updated_at = now;
                })))
      | none ↦
          count missed >> map_error infrastructure_error (call (projections.get_account account_id))
    ]

  unfoldable pub get_all_accounts :
      Action (ServiceState S) (AccountError D) (List (AccountProjection D))
  get_all_accounts = map_error infrastructure_error (call projections.get_all_accounts)

  -- `get_account_transactions`, with the identifier and time that a cached event is given.
  unfoldable pub get_account_transactions :
      Instant
      → (AccountEvent D → Uuid)
      → Uuid
      → Action (ServiceState S) (AccountError D) (List (TransactionProjection D))
  get_account_transactions now new_v4 account_id = do
    cached ← map_error infrastructure_error (call (cache.get_account_events account_id))
    elim cached [
      | some events ↦ count hit >> lift (ok (map (λ e. into_transaction now (new_v4 e) e) events))
      | none ↦
          count missed
          >> map_error infrastructure_error (call (projections.get_account_transactions account_id))
    ]
