-- ===== src/Kafka/Recovery.antt =====
-- src/infrastructure/kafka_recovery.rs: `KafkaRecovery`. Its waits are left out.
pub mod Flag
use banking_es_feature_redis.Prelude.{
  ℕ, zero, suc, ◌-◌, String, ◌≡◌, ◌≢◌, Bool, true, false, not, Option, none, some, List, [], ◌∷◌,
  ◌++◌, I64, eqb, retain, if◌then◌else◌, Outcome, ok, err, panic, map_err,
}
use banking_es_feature_redis.Prelude.Actions.{Action, ◌>>=◌, ◌>>◌, lift, modify, matched}
use banking_es_feature_redis.Decimal.{Decimal}
use banking_es_feature_redis.Domain.{Uuid, Account, AccountEvent, default}
use banking_es_feature_redis.EventStore.{Instant, Serde, Event}
use banking_es_feature_redis.EventStore.Read.{replay}
use banking_es_feature_redis.Projections.{AccountProjection}
use Prim.Native.String.{◌++◌ as concat}

-- What the recovery calls, on a state of its own: the projections, the event store, the Kafka
-- clients and the dead-letter queue.
pub record Services (W D Json : Type 0) : Type 0 where
  pub get_all_projections : Action W String (List (AccountProjection D))
  pub get_events : Uuid → Option I64 → Action W String (List (Event Json))
  pub get_account : Uuid → Action W String (Option (Account D))
  pub get_all_accounts : Action W String (List (Account D))
  pub send_event_batch : Uuid → List (AccountEvent D) → I64 → Action W String (Unit {0})
  pub send_cache_update : Uuid → Account D → Action W String (Unit {0})
  pub send_to_dlq : Uuid → List (AccountEvent D) → I64 → String → Action W String (Unit {0})
  pub get_last_processed_version : Uuid → Action W String I64
  pub process_dlq : Action W String (Unit {0})
  -- `PartialEq` of accounts
  pub account_ne : Account D → Account D → Bool
  pub account_ne_self : (a : Account D) → account_ne a a ≡ false

pub record RecoveryState : Type 0 where
  pub is_recovering : Bool
  pub last_processed_offset : I64
  pub recovery_start_time : Option Instant
  pub accounts_in_recovery : List Uuid

-- The recovery, with what it calls.
pub record KafkaRecovery (W : Type 0) : Type 0 where
  pub recovery_state : RecoveryState
  pub world : W

-- `KafkaRecovery::new`
abbrev pub new_recovery : {W : Type 0} → W → KafkaRecovery W
new_recovery world = record {
  recovery_state = record {
    is_recovering = false;
    last_processed_offset = 0;
    recovery_start_time = none;
    accounts_in_recovery = [];
  };
  world = world;
}

module _ {W : Type 0} where
  abbrev pub on_world : {E A : Type 0} → Action W E A → Action (KafkaRecovery W) E A
  on_world action r = let (answer, world') = action r.world in (answer, record r { world = world' })

  -- A write of the state behind its lock.
  abbrev pub set_state :
      {E : Type 0} → (RecoveryState → RecoveryState) → Action (KafkaRecovery W) E (Unit {0})
  set_state f = modify (λ r. record r { recovery_state = f r.recovery_state })

-- The context of an error of JSON.
abbrev pub not_deserialized : {E : Type 0} → E → String
not_deserialized _ = "Failed to deserialize event"

module _ {W D Json : Type 0} ⦃d : Decimal D⦄ ⦃s : Serde (AccountEvent D) Json⦄
    (services : Services W D Json) where
  -- The default account with this identifier, and the events that are replayed on it.
  unfoldable pub reconstruct : Uuid → List (Event Json) → Outcome String (Account D)
  unfolding replay default
  reconstruct i events = map_err not_deserialized (replay (record (default i) { id = i }) events)

  abbrev pub compare_replayed : Account D → Account D → Outcome String (Unit {0})
  compare_replayed account replayed =
      if services.account_ne replayed account
      then err "Account state mismatch after event replay"
      else ok tt

  unfoldable pub verify_account_events : Account D → Action W String (Unit {0})
  unfolding reconstruct
  verify_account_events account = do
    stored_events ← services.get_events account.id none
    replayed ← lift (reconstruct account.id stored_events)
    lift (compare_replayed account replayed)

  -- An event as it is read from its row.
  abbrev pub event_of : Event Json → Outcome String (AccountEvent D)
  event_of row = elim (s.from_value row.event_data) [
    | none ↦ err "Failed to deserialize event"
    | some event ↦ ok event
  ]

  -- The loop that sends each event in a batch of its own.
  unfoldable pub send_each : Uuid → List (Event Json) → Action W String (Unit {0})
  send_each i [] = lift (ok tt)
  send_each i (row ∷ rows) = do
    event ← lift (event_of row)
    services.send_event_batch i (event ∷ []) row.version
    send_each i rows

  unfoldable pub replay_account_events : Account D → Action W String (Unit {0})
  unfolding send_each
  replay_account_events account = services.get_events account.id none >>= send_each account.id

  unfoldable pub update_account_cache : Account D → Action W String (Unit {0})
  update_account_cache account = services.send_cache_update account.id account

  unfoldable pub handle_inconsistent_account : Account D → String → Action W String (Unit {0})
  handle_inconsistent_account account error =
      services.send_to_dlq account.id [] account.version
        (concat "Event consistency check failed: " error)

  unfoldable pub handle_replay_failure : Account D → String → Action W String (Unit {0})
  handle_replay_failure account error =
      services.send_to_dlq account.id [] account.version (concat "Event replay failed: " error)

  -- The loop of `handle_cache_update_failure` with so many retries left.
  unfoldable pub retry_cache_update : ℕ → Account D → Action W String (Unit {0})
  unfolding update_account_cache
  retry_cache_update zero account = lift (ok tt)
  retry_cache_update (suc zero) account = update_account_cache account
  retry_cache_update (suc (suc left)) account =
      matched (update_account_cache account) (λ _. lift (ok tt))
        (λ _. retry_cache_update (suc left) account)

  unfoldable pub handle_cache_update_failure : Account D → Action W String (Unit {0})
  unfolding retry_cache_update
  handle_cache_update_failure account = retry_cache_update 3 account

  abbrev pub recovered : Account D → Action (KafkaRecovery W) String (Unit {0})
  recovered account = set_state (λ t. record t {
    accounts_in_recovery = retain (λ i. not (eqb i account.id)) t.accounts_in_recovery;
  })

  abbrev pub update_cache : Account D → Action (KafkaRecovery W) String (Unit {0})
  update_cache account =
      matched (on_world (update_account_cache account)) (λ _. recovered account)
        (λ e. on_world (handle_cache_update_failure account))

  abbrev pub replay_events : Account D → Action (KafkaRecovery W) String (Unit {0})
  replay_events account =
      matched (on_world (replay_account_events account)) (λ _. update_cache account)
        (λ e. on_world (handle_replay_failure account e))

  abbrev pub verify : Account D → Action (KafkaRecovery W) String (Unit {0})
  verify account =
      matched (on_world (verify_account_events account)) (λ _. replay_events account)
        (λ e. on_world (handle_inconsistent_account account e))

  -- The body of the loop of `perform_recovery`.
  unfoldable pub recover_account : AccountProjection D → Action (KafkaRecovery W) String (Unit {0})
  unfolding verify_account_events replay_account_events update_account_cache
      handle_inconsistent_account handle_replay_failure handle_cache_update_failure reconstruct
  recover_account projection = do
    set_state
        (λ t. record t { accounts_in_recovery = t.accounts_in_recovery ++ projection.id ∷ [] })
    events ← on_world (services.get_events projection.id none)
    account ← lift (reconstruct projection.id events)
    verify account

  unfoldable pub recover_accounts :
      List (AccountProjection D) → Action (KafkaRecovery W) String (Unit {0})
  unfolding recover_account
  recover_accounts [] = lift (ok tt)
  recover_accounts (projection ∷ projections) =
      recover_account projection >> recover_accounts projections

  unfoldable pub perform_recovery : Action (KafkaRecovery W) String (Unit {0})
  unfolding recover_accounts
  perform_recovery = on_world services.get_all_projections >>= recover_accounts

  abbrev pub begin : Instant → RecoveryState → RecoveryState
  begin now t = record t { is_recovering = true; recovery_start_time = some now }

  abbrev pub finish : RecoveryState → RecoveryState
  finish t = record t {
    is_recovering = false;
    recovery_start_time = none;
    accounts_in_recovery = [];
  }

  -- `start_recovery` of the struct
  unfoldable pub start_recovery : Instant → Action (KafkaRecovery W) String (Unit {0})
  unfolding perform_recovery
  start_recovery now r =
      if r.recovery_state.is_recovering
      then (ok tt, r)
      else (do set_state (begin now); perform_recovery; set_state finish) r

  -- `start_recovery` of the trait
  unfoldable pub trait_start_recovery : Instant → Action (KafkaRecovery W) String (Unit {0})
  unfolding perform_recovery
  trait_start_recovery now r =
      if r.recovery_state.is_recovering
      then (ok tt, r)
      else (set_state (begin now) >> perform_recovery) r

pub record RecoveryStatus : Type 0 where
  pub is_recovering : Bool
  pub accounts_in_recovery : List Uuid
  pub recovery_duration : ℕ

abbrev pub elapsed_since : Instant → Option Instant → ℕ
elapsed_since now none = 0
elapsed_since now (some start) = now - start

unfoldable pub get_recovery_status : {W : Type 0} → Instant → KafkaRecovery W → RecoveryStatus
get_recovery_status now r = record {
  is_recovering = r.recovery_state.is_recovering;
  accounts_in_recovery = r.recovery_state.accounts_in_recovery;
  recovery_duration = elapsed_since now r.recovery_state.recovery_start_time;
}
