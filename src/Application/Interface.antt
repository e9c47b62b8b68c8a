-- ===== src/Application/Interface.antt =====
-- The trait `AccountRepositoryTrait` of src/infrastructure/repository.rs, as far as the application
-- calls it, and what the application relies on.
use banking_es_feature_redis.Prelude.{◌≡◌, ◌≢◌, String, Option, some, List, ◌++◌, ok}
use banking_es_feature_redis.Prelude.Actions.{Action}
use banking_es_feature_redis.Decimal.{Decimal}
use banking_es_feature_redis.Domain.{
  Uuid, AccountEvent, Account, AccountError, default, apply_events,
}

-- `save` and `get_by_id` on a store of state `S`. The error of `save` is an `anyhow::Error`, of
-- which the callers use the text.
pub record Repository (S D : Type 0) : Type 0 where
  pub save : Account D → List (AccountEvent D) → Action S String (Unit {0})
  pub get_by_id : Uuid → Action S (AccountError D) (Option (Account D))

-- The account that a replay begins with.
abbrev pub blank : {D : Type 0} ⦃d : Decimal D⦄ → Uuid → Account D
blank i = record (default 0) { id = i }

module _ {S D : Type 0} ⦃d : Decimal D⦄ where
  -- A repository that keeps a journal of events for each aggregate.
  pub record Journalled (repo : Repository S D) : Type 0 where
    pub journal : S → Uuid → List (AccountEvent D)
    -- reading changes no journal, and gives the replay of one
    pub get_same : (i j : Uuid) (s : S) → journal (repo.get_by_id i s).1 j ≡ journal s j
    pub get_some :
        (i : Uuid) (s : S) (a : Account D)
        → (repo.get_by_id i s).0 ≡ ok (some a)
        → apply_events (blank i) (journal s i) ≡ some a
    -- a save that succeeds adds its events to the journal of the account's aggregate
    pub save_ok :
        (a : Account D) (events : List (AccountEvent D)) (s : S)
        → (repo.save a events s).0 ≡ ok tt
        → journal (repo.save a events s).1 a.id ≡ journal s a.id ++ events
    -- any other journal stays as it was, and all do if the save fails
    pub save_other :
        (a : Account D) (events : List (AccountEvent D)) (s : S) (j : Uuid)
        → j ≢ a.id
        → journal (repo.save a events s).1 j ≡ journal s j
    pub save_err :
        (a : Account D) (events : List (AccountEvent D)) (s : S) (j : Uuid)
        → (repo.save a events s).0 ≢ ok tt
        → journal (repo.save a events s).1 j ≡ journal s j
