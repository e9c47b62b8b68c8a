-- ===== src/Tests/DomainRuns.antt =====
-- Runs of src/domain/account.rs.
use banking_es_feature_redis.Prelude.{
  ℕ, ◌≡◌, ◌≢◌, ◌↔◌, refl, false, Option, none, some, List, [], ◌∷◌, ◌++◌, arith, ok,
}
use banking_es_feature_redis.Decimal.Cents.{ℤ, pos, cents, cents_add, cents_sub}
use banking_es_feature_redis.Domain.{
  AccountEvent, account_created, money_deposited, AccountCommand, deposit_money, withdraw_money,
  close_account, Account, new, default, apply_event, apply_events, handle_command,
}
use banking_es_feature_redis.Domain.Decide.{
  Accepts, recorded, IsSolvent, handle_command-ok_iff, handle_command-IsSolvent,
}
use banking_es_feature_redis.Domain.Lifecycle.{Lives, born, obeys, Lives-IsSolvent}
use banking_es_feature_redis.Domain.Ledger.{
  shown, transact, transact_all, shown_if, journal_of, replayed, transact_all-journal_of,
}
use banking_es_feature_redis.Domain.Apply.{
  Extends, apply_events-Extends, apply_events-created, new-apply_event,
}
use banking_es_feature_redis.Projections.{AccountProjection}
use banking_es_feature_redis.Projections.Views.{view, project, project-view}
use banking_es_feature_redis.Tests.Samples.{alice}

abbrev deposit : AccountCommand ℤ
deposit = deposit_money 7 (pos 100)

abbrev deposited : List (AccountEvent ℤ)
deposited = money_deposited 7 (pos 100) 3 ∷ []

abbrev richer : Account ℤ
richer = record alice { balance = pos 600; version = 2 }

deposit-decided : handle_command alice deposit 3 ≡ ok deposited
unfolding handle_command
deposit-decided = refl

deposit-applied : apply_events alice deposited ≡ some richer
unfolding apply_events apply_event cents_add
deposit-applied = refl

-- An overdraft, and an amount below zero, are refused.
overdraft :
    (events : List (AccountEvent ℤ))
    → handle_command alice (withdraw_money 7 (pos 501)) 3 ≢ ok events
unfolding handle_command
overdraft events h = cc

handle_command-ok_iff_example :
    (handle_command alice deposit 3 ≡ ok deposited)
    ↔ (Accepts alice deposit × (deposited ≡ recorded deposit 3 ∷ []))
handle_command-ok_iff_example = handle_command-ok_iff alice deposit 3 deposited

handle_command-IsSolvent_example : IsSolvent richer
handle_command-IsSolvent_example =
    handle_command-IsSolvent alice richer deposit 3 deposited refl deposit-decided deposit-applied

abbrev alices_life : Lives alice ([] ++ deposited) richer
alices_life = obeys deposit 3 born deposit-decided deposit-applied

Lives-IsSolvent_run : IsSolvent richer
Lives-IsSolvent_run = Lives-IsSolvent alices_life refl

apply_events-Extends_run : Extends alice 1 richer
apply_events-Extends_run = apply_events-Extends alice richer deposited (omega arith) deposit-applied

apply_events-created_run :
    apply_events alice (account_created 7 "Al" (pos 5) ∷ deposited)
    ≡ apply_events
        (record alice { balance = pos 9; is_active = false })
        (account_created 7 "Al" (pos 5) ∷ deposited)
apply_events-created_run =
    apply_events-created alice (record alice { balance = pos 9; is_active = false }) 7 "Al" (pos 5)
      deposited (refl, refl)

new-alice : new 7 "Alice" (pos 500) ≡ ok (record alice { version = 0 })
unfolding new
new-alice = refl

new-apply_event_run : apply_event (default 7) (account_created 7 "Alice" (pos 500)) ≡ some alice
new-apply_event_run = new-apply_event 7 "Alice" (pos 500) (record alice { version = 0 }) new-alice

project-view_example :
    project (view 0 0 alice) deposited
    ≡ elim (apply_events alice deposited) as (λ _. Option (AccountProjection ℤ)) [
      | none ↦ none
      | some b ↦ some (view 0 0 b)
    ]
project-view_example = project-view 0 0 alice deposited

-- A deposit, a withdrawal and a closure.
abbrev business : List (AccountCommand ℤ × ℕ)
business = (deposit, 3) ∷ (withdraw_money 7 (pos 50), 4) ∷ (close_account 7 "moved", 5) ∷ []

transact_all-journal_of_example :
    transact_all (shown alice) business ≡ shown_if (replayed alice (journal_of alice business))
transact_all-journal_of_example = transact_all-journal_of alice business

business_run :
    transact_all (shown alice) business
    ≡ some (record { owner = "Alice"; balance = pos 550; is_open = false })
unfolding transact_all transact cents_add cents_sub
business_run = refl
