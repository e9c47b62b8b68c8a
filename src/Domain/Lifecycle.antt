-- ===== src/Domain/Lifecycle.antt =====
-- An account over its life: the commands that src/domain/account.rs accepts one after another, and
-- the journal of the events that record them.
use banking_es_feature_redis.Prelude.{◌≡◌, true, false, some, List, [], ◌++◌, arith, ok}
use banking_es_feature_redis.Decimal.{Decimal}
use banking_es_feature_redis.Domain.Events.{Uuid, AccountEvent}
use banking_es_feature_redis.Domain.Commands.{AccountCommand}
use banking_es_feature_redis.Domain.Aggregate.{Account, apply_events, handle_command, is_create}
use banking_es_feature_redis.Domain.Decide.{IsSolvent, handle_command-IsSolvent}

module _ {D : Type 0} ⦃d : Decimal D⦄ where
  -- From `a`, with this journal, to the account at hand.
  pub data Lives (a : Account D) : List (AccountEvent D) → Account D → Type 0 where
    born : Lives a [] a
    obeys :
        {journal events : List (AccountEvent D)} {b c : Account D} (command : AccountCommand D)
        (u : Uuid)
        → Lives a journal b
        → handle_command b command u ≡ ok events
        → apply_events b events ≡ some c
        → Lives a (journal ++ events) c

  -- Along any life of an account, a balance that is not negative at the start is never negative.
  pub Lives-IsSolvent :
      {a b : Account D} {journal : List (AccountEvent D)}
      → Lives a journal b
      → IsSolvent a
      → IsSolvent b
  Lives-IsSolvent born s = s
  Lives-IsSolvent (obeys {events = es} {b = b} {c = c} command u l h e) s =
      handle_command-IsSolvent b c command u es (Lives-IsSolvent l s) h e

  -- A closed account accepts nothing but a creation.
  pub closed_refuses :
      (a : Account D) (command : AccountCommand D) (u : Uuid) (events : List (AccountEvent D))
      → a.is_active ≡ false
      → handle_command a command u ≡ ok events
      → is_create command ≡ true
  unfolding handle_command
  closed_refuses a command u events closed h = ground arith
