-- ===== src/AccountRepository.antt =====
-- src/infrastructure/repository.rs: `AccountRepository`, the account repository over the event
-- store.
pub mod Journal
pub mod Refusals
use banking_es_feature_redis.Prelude.{
  ℕ, String, Option, none, some, List, [], ◌∷◌, ◌++◌, Outcome, ok, err, map_err, ◌>>=◌,
}
use banking_es_feature_redis.Prelude.Actions.{Action}
use banking_es_feature_redis.Decimal.{Decimal}
use banking_es_feature_redis.Domain.{
  Uuid, AccountEvent, Account, AccountError, infrastructure_error,
}
use banking_es_feature_redis.EventStore.{
  Instant, Serde, Event, DbError, EventStoreError, BatchedEvent, normal, Postgres, Stamp, Shared,
  flush_batch, save_events, get_events, rebuild,
}
use banking_es_feature_redis.Application.{Repository}

-- What the environment decides of a call: the stamps of new rows, the requests of other callers in
-- the same batch, the time, a fault of the database on reading, and a fresh identifier.
pub record Surroundings (D : Type 0) : Type 0 where
  pub stamps : ℕ → ℕ → Stamp
  pub before : List (BatchedEvent D)
  pub after : List (BatchedEvent D)
  pub now : Instant
  pub fault : Option DbError
  pub new_v4 : Uuid

module _ {Tx D Json : Type 0} (db : Postgres Tx Json) ⦃d : Decimal D⦄
    ⦃s : Serde (AccountEvent D) Json⦄ (describe : EventStoreError → String)
    (env : Surroundings D) where
  -- The shared state after the batch of a request, or at once if there is no event to save.
  unfoldable pub after_save : Account D → List (AccountEvent D) → Shared Json → Shared Json
  after_save account [] sh = sh
  after_save account (event ∷ events) sh =
      let b : BatchedEvent D = record {
        aggregate_id = account.id;
        events = event ∷ events;
        expected_version = account.version;
        created_at = env.now;
        priority = normal;
      } in
      let f = flush_batch db env.stamps (env.before ++ b ∷ env.after) sh in
      record sh { table = f.table; metrics = f.metrics; version_cache = f.version_cache }

  -- `AccountRepository::save`: the account's version is the expected one.
  unfoldable pub save : Account D → List (AccountEvent D) → Action (Shared Json) String (Unit {0})
  unfolding after_save
  save account events sh = (
    map_err describe (
        save_events db env.stamps env.before env.after sh env.now account.id events
          account.version),
    after_save account events sh,
  )

  -- `AccountRepository::get_by_id`
  unfoldable pub get_by_id : Uuid → Action (Shared Json) (AccountError D) (Option (Account D))
  get_by_id i sh = (
    map_err (λ e. infrastructure_error (describe e))
        (get_events env.fault sh.table i none >>= rebuild env.new_v4 i),
    sh,
  )

  unfoldable pub account_repository : Repository (Shared Json) D
  unfolding save get_by_id
  account_repository = record { save = save; get_by_id = get_by_id }
