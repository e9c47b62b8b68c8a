-- ===== src/Kafka/Strategies.antt =====
-- src/infrastructure/kafka_recovery_strategies.rs: `RecoveryStrategies`. Its waits are left out.
pub mod Sent
use banking_es_feature_redis.Prelude.{
  ℕ, String, Bool, true, false, not, ◌&&◌, Option, none, some, List, [], ◌∷◌, ◌++◌, I64, add64, eqb,
  if◌then◌else◌, Outcome, ok, err, panic, ok_or,
}
use banking_es_feature_redis.Prelude.Actions.{Action, ◌>>=◌, ◌>>◌, lift}
use banking_es_feature_redis.Decimal.{Decimal}
use banking_es_feature_redis.Domain.{Uuid, Account, AccountEvent}
use banking_es_feature_redis.EventStore.{Serde, Event}
use banking_es_feature_redis.Kafka.Recovery.{Services, event_of, send_each}

pub data RecoveryStrategy : Type 0 where
  full_replay : RecoveryStrategy
  incremental_replay : RecoveryStrategy
  selective_replay : RecoveryStrategy
  cache_only : RecoveryStrategy
  dlq_only : RecoveryStrategy

module _ {W D Json : Type 0} ⦃d : Decimal D⦄ ⦃s : Serde (AccountEvent D) Json⦄
    (services : Services W D Json) where
  -- The account of the identifier, or all. The text of the error has no identifier here.
  unfoldable pub accounts_for : Option Uuid → Action W String (List (Account D))
  accounts_for none = services.get_all_accounts
  accounts_for (some i) = services.get_account i >>= λ account.
      lift (ok_or "Account not found" account) >>= λ found. lift (ok (found ∷ []))

  -- `for account in accounts`
  abbrev pub for_each :
      (Account D → Action W String (Unit {0})) → List (Account D) → Action W String (Unit {0})
  for_each body [] = lift (ok tt)
  for_each body (account ∷ accounts) = body account >> for_each body accounts

  unfoldable pub replay_fully : Account D → Action W String (Unit {0})
  unfolding send_each
  replay_fully account = services.get_events account.id none >>= send_each services account.id

  unfoldable pub replay_since : Account D → Action W String (Unit {0})
  unfolding send_each
  replay_since account = do
    last_processed_version ← services.get_last_processed_version account.id
    events ← services.get_events account.id (some last_processed_version)
    send_each services account.id events

  -- A batch that is not empty is sent.
  abbrev pub send_batch : Uuid → List (AccountEvent D) → I64 → Action W String (Unit {0})
  send_batch i [] version = lift (ok tt)
  send_batch i (event ∷ batch) version = services.send_event_batch i (event ∷ batch) version

  -- At a gap the batch is sent and emptied.
  abbrev pub send_before_gap :
      Uuid → Bool → List (AccountEvent D) → I64 → Action W String (List (AccountEvent D))
  send_before_gap i true batch version = lift (ok batch)
  send_before_gap i false batch version = send_batch i batch version >> lift (ok [])

  -- The loop of `selective_replay` over the events, with its batch and its current version.
  unfoldable pub send_runs :
      Uuid → List (AccountEvent D) → I64 → List (Event Json) → Action W String (Unit {0})
  send_runs i batch current_version [] = send_batch i batch current_version
  send_runs i batch current_version (row ∷ rows) =
      send_before_gap i (eqb row.version (add64 current_version 1)) batch current_version
      >>= λ kept. lift (event_of services row) >>= λ event.
          send_runs i (kept ++ event ∷ []) row.version rows

  unfoldable pub replay_selectively : Account D → Action W String (Unit {0})
  unfolding send_runs
  replay_selectively account = services.get_events account.id none >>= send_runs account.id [] 0

  -- `execute_recovery`
  unfoldable pub execute_recovery : RecoveryStrategy → Option Uuid → Action W String (Unit {0})
  unfolding accounts_for replay_fully replay_since replay_selectively
  execute_recovery full_replay account_id = accounts_for account_id >>= for_each replay_fully
  execute_recovery incremental_replay account_id = accounts_for account_id >>= for_each replay_since
  execute_recovery selective_replay account_id =
      accounts_for account_id >>= for_each replay_selectively
  execute_recovery cache_only account_id =
      accounts_for account_id
      >>= for_each (λ account. services.send_cache_update account.id account)
  execute_recovery dlq_only account_id = services.process_dlq
