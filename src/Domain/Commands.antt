-- ===== src/Domain/Commands.antt =====
-- src/domain/commands.rs: what a client asks of an account.
use banking_es_feature_redis.Prelude.{String}
use banking_es_feature_redis.Domain.Events.{Uuid}

pub data AccountCommand (D : Type 0) : Type 0 where
  create_account :
      (account_id : Uuid) (owner_name : String) (initial_balance : D) → AccountCommand D
  deposit_money : (account_id : Uuid) (amount : D) → AccountCommand D
  withdraw_money : (account_id : Uuid) (amount : D) → AccountCommand D
  close_account : (account_id : Uuid) (reason : String) → AccountCommand D
