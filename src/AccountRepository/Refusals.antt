-- ===== src/AccountRepository/Refusals.antt =====
-- Lemmas on src/application/handlers.rs over src/infrastructure/repository.rs and
-- src/infrastructure/event_store.rs: what a client of the whole stack sees.
use banking_es_feature_redis.Prelude.{String, ◌≢◌, false, List, ok, arith, Outcome-cases, inl, inr}
use banking_es_feature_redis.Decimal.{Decimal}
use banking_es_feature_redis.Domain.{
  Uuid, AccountEvent, AccountCommand, create_account, Account, default, handle_command,
}
use banking_es_feature_redis.Domain.Decide.{handle_command-ok_iff}
use banking_es_feature_redis.EventStore.{Serde, EventStoreError, Postgres, Shared}
use banking_es_feature_redis.Application.{handle_on_account, handle_create_account}
use banking_es_feature_redis.Application.Handlers.Success.{handle_on_account-ok}
use banking_es_feature_redis.AccountRepository.{Surroundings, account_repository}
use banking_es_feature_redis.AccountRepository.Journal.{saved_empty}

module _ {Tx D Json : Type 0} (db : Postgres Tx Json) ⦃d : Decimal D⦄
    ⦃s : Serde (AccountEvent D) Json⦄ (describe : EventStoreError → String)
    (env : Surroundings D) where
  -- Over the account repository of the event store and any database that behaves as documented,
  -- no deposit, withdrawal or closing is answered with success.
  pub handle_on_account-never :
      (i u : Uuid) (command : AccountCommand D) (sh : Shared Json) (events : List (AccountEvent D))
      → (handle_on_account (account_repository db describe env) i u command sh).0 ≢ ok events
  unfolding account_repository
  handle_on_account-never i u command sh events h =
      let done =
        handle_on_account-ok (account_repository db describe env) i u command sh events h in
      let none_saved = saved_empty db describe env done.account events sh done.saved in
      let one = done.event in cc

  -- Over the account repository of the event store and any database that behaves as documented,
  -- no creation of an account is answered with success.
  pub handle_create_account-never :
      (i new_v4 u : Uuid) (owner : String) (initial : D) (sh : Shared Json) (j : Uuid)
      → (handle_create_account (account_repository db describe env) i new_v4 u owner initial sh).0
        ≢ ok j
  unfolding account_repository handle_create_account
  handle_create_account-never i new_v4 u owner initial sh j h =
      elim (Outcome-cases (handle_command (default new_v4) (create_account i owner initial) u)) [
        | inl (events, decided) ↦
            let before : Account D = record {
              id = i;
              owner_name = "";
              balance = d.zero;
              is_active = false;
              version = 0;
            } in
            let recorded =
              ((handle_command-ok_iff (default new_v4) (create_account i owner initial) u events).0
                decided).1 in
            ground (arith, saved_empty db describe env before events sh)
        | inr refused ↦ ground arith
      ]
