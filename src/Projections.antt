-- ===== src/Projections.antt =====
-- src/infrastructure/projections.rs: the read models of accounts and transactions, and the trait
-- `ProjectionStoreTrait`.
pub mod Views
pub mod Store
pub mod Batches
pub mod Flush
pub mod Upserts
pub mod Written
pub mod Reads
pub mod Stuck
pub mod Unsent
use banking_es_feature_redis.Prelude.{String, Bool, true, false, Option, none, some, List, Outcome}
use banking_es_feature_redis.Prelude.Actions.{Action}
use banking_es_feature_redis.Decimal.{Decimal}
use banking_es_feature_redis.Domain.{
  Uuid, AccountEvent, account_created, money_deposited, money_withdrawn, account_closed,
}
use banking_es_feature_redis.EventStore.{Instant}

pub record AccountProjection (D : Type 0) : Type 0 where
  pub id : Uuid
  pub owner_name : String
  pub balance : D
  pub is_active : Bool
  pub created_at : Instant
  pub updated_at : Instant

pub record TransactionProjection (D : Type 0) : Type 0 where
  pub id : Uuid
  pub account_id : Uuid
  pub transaction_type : String
  pub amount : D
  pub timestamp : Instant

-- `ProjectionStoreTrait` on a store of state `S`.
pub record ProjectionStore (S D : Type 0) : Type 0 where
  pub get_account : Uuid → Action S String (Option (AccountProjection D))
  pub get_all_accounts : Action S String (List (AccountProjection D))
  pub get_account_transactions : Uuid → Action S String (List (TransactionProjection D))
  pub upsert_accounts_batch : List (AccountProjection D) → Action S String (Unit {0})
  pub insert_transactions_batch : List (TransactionProjection D) → Action S String (Unit {0})

-- `AccountProjection::apply_event`; `none` is the panic of an amount that overflows.
unfoldable pub apply_event :
    {D : Type 0} ⦃d : Decimal D⦄
    → AccountProjection D
    → AccountEvent D
    → Option (AccountProjection D)
apply_event p (account_created _ owner_name initial_balance) =
    some (record p { owner_name = owner_name; balance = initial_balance; is_active = true })
apply_event ⦃d⦄ p (money_deposited _ amount _) = elim (d.add p.balance amount) [
  | none ↦ none
  | some b ↦ some (record p { balance = b })
]
apply_event ⦃d⦄ p (money_withdrawn _ amount _) = elim (d.sub p.balance amount) [
  | none ↦ none
  | some b ↦ some (record p { balance = b })
]
apply_event p (account_closed _ _) = some (record p { is_active = false })
