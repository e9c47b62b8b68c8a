-- ===== src/EventStore/Read.antt =====
-- src/infrastructure/event_store.rs, `get_events`, `get_account` and `get_current_version`, over
-- the rows of the events table.
pub mod RoundTrip
pub mod Query
pub mod Ordered
use banking_es_feature_redis.Prelude.{
  ℕ, ◌≡◌, refl, Bool, true, false, ◌&&◌, Option, none, some, List, [], ◌∷◌, I64, eqb, signed_ltb,
  minus_one, if◌then◌else◌, Outcome, ok, err, panic, ◌>>=◌,
}
use banking_es_feature_redis.Decimal.{Decimal}
use banking_es_feature_redis.Domain.{Uuid, AccountEvent, Account, default, apply_event}
use banking_es_feature_redis.EventStore.Types.{
  Serde, Event, DbError, EventStoreError, database_error, serialization_error, default_metadata,
  VersionCache,
}

-- `from_version.unwrap_or(-1)`
abbrev pub from_or_all : Option I64 → I64
from_or_all none = minus_one
from_or_all (some v) = v

module _ {Json : Type 0} where
  -- ORDER BY version ASC: the row goes before the first that is greater.
  unfoldable pub by_version : Event Json → List (Event Json) → List (Event Json)
  by_version row [] = row ∷ []
  by_version row (r ∷ rows) =
      let rest = by_version row rows in
      if signed_ltb row.version r.version then row ∷ r ∷ rows else r ∷ rest

  -- WHERE aggregate_id = $1 AND version > $2 ORDER BY version ASC
  unfoldable pub select_events : Uuid → I64 → List (Event Json) → List (Event Json)
  unfolding by_version
  select_events i from [] = []
  select_events i from (row ∷ rows) =
      let rest = select_events i from rows in
      if eqb row.aggregate_id i && signed_ltb from row.version then by_version row rest else rest

  -- The `map` over the rows puts the default metadata in.
  unfoldable pub with_default_metadata : List (Event Json) → List (Event Json)
  with_default_metadata [] = []
  with_default_metadata (row ∷ rows) =
      record row { metadata = default_metadata } ∷ with_default_metadata rows

  -- The events of a query that succeeds.
  unfoldable pub queried_events : List (Event Json) → Uuid → Option I64 → List (Event Json)
  unfolding select_events with_default_metadata
  queried_events table i from_version =
      with_default_metadata (select_events i (from_or_all from_version) table)

  -- `get_events`; the connection or the query may fail.
  unfoldable pub get_events :
      Option DbError
      → List (Event Json)
      → Uuid
      → Option I64
      → Outcome EventStoreError (List (Event Json))
  unfolding queried_events
  get_events fault table i from_version = elim fault [
    | none ↦ ok (queried_events table i from_version)
    | some e ↦ err (database_error e)
  ]

module _ {D Json : Type 0} ⦃d : Decimal D⦄ ⦃s : Serde (AccountEvent D) Json⦄ where
  -- The loop that reads each row and applies it.
  unfoldable pub replay : Account D → List (Event Json) → Outcome EventStoreError (Account D)
  replay account [] = ok account
  replay account (event ∷ events) = elim (s.from_value event.event_data) [
    | none ↦ err serialization_error
    | some account_event ↦ elim (apply_event account account_event) [
      | none ↦ panic
      | some account' ↦ replay account' events
    ]
  ]

  -- The account of a list of events: none if there is no event. `new_v4` is the identifier that the
  -- default account has before it is given its own.
  unfoldable pub rebuild :
      Uuid → Uuid → List (Event Json) → Outcome EventStoreError (Option (Account D))
  unfolding replay default
  rebuild new_v4 i [] = ok none
  rebuild new_v4 i (event ∷ events) =
      replay (record (default new_v4) { id = i }) (event ∷ events) >>= λ account. ok (some account)

  -- `get_account`
  unfoldable pub get_account :
      Option DbError
      → List (Event Json)
      → Uuid
      → Uuid
      → Outcome EventStoreError (Option (Account D))
  unfolding get_events rebuild
  get_account fault table new_v4 i = get_events fault table i none >>= rebuild new_v4 i
