-- ===== src/Application/Handlers.antt =====
-- src/application/handlers.rs: `AccountCommandHandler` and `AccountQueryHandler`.
pub mod Solvent
pub mod Success
use banking_es_feature_redis.Prelude.{ℕ, String, Bool, false, Option, List, Outcome, ok, ok_or}
use banking_es_feature_redis.Prelude.Actions.{Action, ◌>>=◌, ◌>>◌, lift, map_error}
use banking_es_feature_redis.Decimal.{Decimal}
use banking_es_feature_redis.Domain.{
  Uuid, AccountEvent, AccountCommand, create_account, deposit_money, withdraw_money, close_account,
  Account, AccountError, not_found, infrastructure_error, default, handle_command,
}
use banking_es_feature_redis.Application.Interface.{Repository}

module _ {S D : Type 0} ⦃d : Decimal D⦄ (repo : Repository S D) where
  -- `self.repository.save(…).await.map_err(…)`
  abbrev pub save_or_fail : Account D → List (AccountEvent D) → Action S (AccountError D) (Unit {0})
  save_or_fail account events = map_error infrastructure_error (repo.save account events)

  -- `self.repository.get_by_id(…).await?.ok_or(AccountError::NotFound)`
  abbrev pub get_or_not_found : Uuid → Action S (AccountError D) (Account D)
  get_or_not_found account_id = do found ← repo.get_by_id account_id; lift (ok_or not_found found)

  -- `handle_create_account`: the identifiers are those of the account, of the default account and of
  -- the event.
  unfoldable pub handle_create_account :
      (account_id new_v4 transaction : Uuid) → String → D → Action S (AccountError D) Uuid
  handle_create_account account_id new_v4 transaction owner_name initial_balance = do
    events ← lift (
        handle_command (default new_v4) (create_account account_id owner_name initial_balance)
          transaction)
    save_or_fail
        (record {
          id = account_id;
          owner_name = "";
          balance = d.zero;
          is_active = false;
          version = 0;
        })
        events
    lift (ok account_id)

  -- The body that the three other handlers share.
  unfoldable pub handle_on_account :
      (account_id transaction : Uuid)
      → AccountCommand D
      → Action S (AccountError D) (List (AccountEvent D))
  handle_on_account account_id transaction command = do
    account ← get_or_not_found account_id
    events ← lift (handle_command account command transaction)
    save_or_fail account events
    lift (ok events)

  unfoldable pub handle_deposit_money :
      (account_id transaction : Uuid) → D → Action S (AccountError D) (List (AccountEvent D))
  unfolding handle_on_account
  handle_deposit_money account_id transaction amount =
      handle_on_account account_id transaction (deposit_money account_id amount)

  unfoldable pub handle_withdraw_money :
      (account_id transaction : Uuid) → D → Action S (AccountError D) (List (AccountEvent D))
  unfolding handle_on_account
  handle_withdraw_money account_id transaction amount =
      handle_on_account account_id transaction (withdraw_money account_id amount)

  unfoldable pub handle_close_account :
      (account_id transaction : Uuid) → String → Action S (AccountError D) (List (AccountEvent D))
  unfolding handle_on_account
  handle_close_account account_id transaction reason =
      handle_on_account account_id transaction (close_account account_id reason)

  unfoldable pub get_account_by_id : Uuid → Action S (AccountError D) (Option (Account D))
  get_account_by_id account_id = repo.get_by_id account_id

  unfoldable pub get_account_balance : Uuid → Action S (AccountError D) D
  get_account_balance account_id = do
    account ← get_or_not_found account_id
    lift (ok account.balance)

  unfoldable pub is_account_active : Uuid → Action S (AccountError D) Bool
  is_account_active account_id = do
    account ← get_or_not_found account_id
    lift (ok account.is_active)
