-- ===== src/Domain/Events.antt =====
-- src/domain/events.rs: what has happened to an account.
use banking_es_feature_redis.Prelude.{ℕ, String}

-- A `Uuid`, by the number that its 128 bits are; the service compares it and takes it modulo a
-- count.
abbrev pub Uuid : Type 0
Uuid = ℕ

pub data AccountEvent (D : Type 0) : Type 0 where
  account_created : (account_id : Uuid) (owner_name : String) (initial_balance : D) → AccountEvent D
  money_deposited : (account_id : Uuid) (amount : D) (transaction_id : Uuid) → AccountEvent D
  money_withdrawn : (account_id : Uuid) (amount : D) (transaction_id : Uuid) → AccountEvent D
  account_closed : (account_id : Uuid) (reason : String) → AccountEvent D

unfoldable pub aggregate_id : {D : Type 0} → AccountEvent D → Uuid
aggregate_id (account_created account_id _ _) = account_id
aggregate_id (money_deposited account_id _ _) = account_id
aggregate_id (money_withdrawn account_id _ _) = account_id
aggregate_id (account_closed account_id _) = account_id

unfoldable pub event_type : {D : Type 0} → AccountEvent D → String
event_type (account_created _ _ _) = "AccountCreated"
event_type (money_deposited _ _ _) = "MoneyDeposited"
event_type (money_withdrawn _ _ _) = "MoneyWithdrawn"
event_type (account_closed _ _) = "AccountClosed"
