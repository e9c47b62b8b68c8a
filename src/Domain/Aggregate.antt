-- ===== src/Domain/Aggregate.antt =====
-- src/domain/account.rs: the state of an account, the events that change it and the commands that
-- it decides.
use banking_es_feature_redis.Prelude.{
  String, Bool, true, false, not, ◌&&◌, Option, none, some, List, [], ◌∷◌, I64, add64,
  if◌then◌else◌, Outcome, ok, err,
}
use banking_es_feature_redis.Decimal.{Decimal, le}
use banking_es_feature_redis.Domain.Events.{
  Uuid, AccountEvent, account_created, money_deposited, money_withdrawn, account_closed,
}
use banking_es_feature_redis.Domain.Commands.{
  AccountCommand, create_account, deposit_money, withdraw_money, close_account,
}

pub record Account (D : Type 0) : Type 0 where
  pub id : Uuid
  pub owner_name : String
  pub balance : D
  pub is_active : Bool
  pub version : I64

pub data AccountError (D : Type 0) : Type 0 where
  not_found : AccountError D
  insufficient_funds : (available requested : D) → AccountError D
  account_is_closed : AccountError D
  invalid_amount : D → AccountError D
  event_deserialization_error : String → AccountError D
  infrastructure_error : String → AccountError D
  version_conflict : (expected actual : I64) → AccountError D

-- `matches!(command, AccountCommand::CreateAccount { .. })`
abbrev pub is_create : {D : Type 0} → AccountCommand D → Bool
is_create (create_account _ _ _) = true
is_create _ = false

module _ {D : Type 0} ⦃d : Decimal D⦄ where
  -- `Account::new`
  unfoldable pub new : Uuid → String → D → Outcome (AccountError D) (Account D)
  new id owner_name initial_balance =
      if d.lt initial_balance d.zero
      then err (invalid_amount initial_balance)
      else ok (record {
        id = id;
        owner_name = owner_name;
        balance = initial_balance;
        is_active = true;
        version = 0;
      })

  -- `Account::default`, with the identifier that `Uuid::new_v4` gives it.
  unfoldable pub default : Uuid → Account D
  default new_v4 = record {
    id = new_v4;
    owner_name = "";
    balance = d.zero;
    is_active = false;
    version = 0;
  }

  -- The `match` of `apply_event`, before the version is raised.
  unfoldable pub apply_fields : Account D → AccountEvent D → Option (Account D)
  apply_fields a (account_created _ owner_name initial_balance) =
      some (record a { owner_name = owner_name; balance = initial_balance; is_active = true })
  apply_fields a (money_deposited _ amount _) = elim (d.add a.balance amount) [
    | none ↦ none
    | some b ↦ some (record a { balance = b })
  ]
  apply_fields a (money_withdrawn _ amount _) = elim (d.sub a.balance amount) [
    | none ↦ none
    | some b ↦ some (record a { balance = b })
  ]
  apply_fields a (account_closed _ _) = some (record a { is_active = false })

  -- `Account::apply_event`; `none` is the panic of an amount that overflows.
  unfoldable pub apply_event : Account D → AccountEvent D → Option (Account D)
  unfolding apply_fields
  apply_event a event = elim (apply_fields a event) [
    | none ↦ none
    | some a' ↦ some (record a' { version = add64 a'.version 1 })
  ]

  -- The loop `for event in events { account.apply_event(event) }`.
  unfoldable pub apply_events : Account D → List (AccountEvent D) → Option (Account D)
  apply_events a [] = some a
  apply_events a (event ∷ events) = elim (apply_event a event) [
    | none ↦ none
    | some a' ↦ apply_events a' events
  ]

  -- The `match` of `handle_command`; `new_v4` is the identifier of the new transaction.
  unfoldable pub decide :
      Account D → AccountCommand D → Uuid → Outcome (AccountError D) (List (AccountEvent D))
  decide a (create_account account_id owner_name initial_balance) new_v4 =
      if d.lt initial_balance d.zero
      then err (invalid_amount initial_balance)
      else ok (account_created account_id owner_name initial_balance ∷ [])
  decide a (deposit_money account_id amount) new_v4 =
      if le amount d.zero
      then err (invalid_amount amount)
      else ok (money_deposited account_id amount new_v4 ∷ [])
  decide a (withdraw_money account_id amount) new_v4 =
      if le amount d.zero
      then err (invalid_amount amount)
      else (if d.lt a.balance amount
          then err (insufficient_funds a.balance amount)
          else ok (money_withdrawn account_id amount new_v4 ∷ []))
  decide a (close_account account_id reason) new_v4 = ok (account_closed account_id reason ∷ [])

  -- `Account::handle_command`
  unfoldable pub handle_command :
      Account D → AccountCommand D → Uuid → Outcome (AccountError D) (List (AccountEvent D))
  unfolding decide
  handle_command a command new_v4 =
      if not a.is_active && not (is_create command)
      then err account_is_closed
      else decide a command new_v4
