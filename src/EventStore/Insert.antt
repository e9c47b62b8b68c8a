-- ===== src/EventStore/Insert.antt =====
-- src/infrastructure/event_store.rs, `bulk_insert_events_optimized`: the version check, the insert
-- and its retries.
pub mod Conflicts
pub mod Never
pub mod Keeps
use banking_es_feature_redis.Prelude.{
  ℕ, zero, suc, String, ◌==◌, string_eq, nat_eq, eqb, ltb, Bool, true, false, not, ◌&&◌, ◌||◌,
  Option, none, some, List, [], ◌∷◌, I64, add64, length, insert, remove, if◌then◌else◌, Outcome, ok,
  err, panic,
}
use banking_es_feature_redis.Domain.{Uuid}
use banking_es_feature_redis.EventStore.Types.{
  Event, Complaint, invalid_version_sequence, DbError, row_not_found, database, unavailable,
  EventStoreError, optimistic_concurrency_conflict, database_error, validation_error,
  EventStoreMetrics, VersionCache,
}
use banking_es_feature_redis.EventStore.Database.{Postgres}

-- What the writer shares: the open transaction, the counters and the cache of versions.
pub record Session (Tx : Type 0) : Type 0 where
  pub tx : Tx
  pub metrics : EventStoreMetrics
  pub version_cache : VersionCache

abbrev pub Action : Type 0 → Type 0 → Type 0
Action Tx A = Session Tx → Outcome EventStoreError A × Session Tx

-- `slice.contains`
abbrev pub one_of : String → List String → Bool
one_of c [] = false
one_of c (x ∷ xs) = c == x || one_of c xs

abbrev pub transient_error_codes : List String
transient_error_codes =
    "40001" ∷ "40003" ∷ "08006" ∷ "08001" ∷ "08004" ∷ "08007" ∷ "08P01" ∷ "40000" ∷ []

-- `is_transient_error`, on the code of an error.
unfoldable pub is_transient_error : String → Bool
is_transient_error code = one_of code transient_error_codes

-- The error is a breach of `unique_aggregate_id_version`.
unfoldable pub is_version_clash : DbError → Bool
is_version_clash (database code (some constraint)) =
    code == "23505" && constraint == "unique_aggregate_id_version"
is_version_clash _ = false

-- The error has a code that makes a retry worth while.
unfoldable pub may_retry : DbError → Bool
unfolding is_transient_error
may_retry (database code _) = is_transient_error code
may_retry _ = false

module _ {Json : Type 0} where
  -- The loop that verifies the version sequence, at index `i`: the first complaint.
  unfoldable pub check_sequence : I64 → ℕ → List (Event Json) → Option Complaint
  check_sequence expected i [] = none
  check_sequence expected i (event ∷ events) =
      let want = add64 (add64 expected i) 1 in
      elim (eqb event.version want) [
        | true ↦ check_sequence expected (suc i) events
        | false ↦ some (invalid_version_sequence want event.version)
      ]

  -- `if events.len() > 1`
  unfoldable pub sequence_error : I64 → List (Event Json) → Option Complaint
  unfolding check_sequence
  sequence_error expected events =
      if ltb 1 (length events) then check_sequence expected 0 events else none

  -- `events.last().unwrap().version`, from the first event on.
  unfoldable pub last_version : I64 → List (Event Json) → I64
  last_version v [] = v
  last_version v (event ∷ events) = last_version event.version events

module _ {Tx Json : Type 0} (db : Postgres Tx Json) where
  -- Both conflict branches: count the failure, forget the cached version, refuse.
  unfoldable pub conflict : Uuid → I64 → I64 → Action Tx (Unit {0})
  conflict i expected current s =
      let m = s.metrics in
      (
        err (optimistic_concurrency_conflict i expected (some current)),
        record s {
          metrics = record m { occ_failures = add64 m.occ_failures 1 };
          version_cache = remove i s.version_cache;
        },
      )

  -- The answer to the INSERT; `retry` is the next turn of the loop, if one is left.
  unfoldable pub after_insert :
      Uuid
      → I64
      → I64
      → I64
      → Option (Action Tx (Unit {0}))
      → Outcome DbError (Unit {0})
      → Action Tx (Unit {0})
  unfolding conflict
  after_insert i expected current last retry (ok _) s =
      (ok tt, record s { version_cache = insert i last s.version_cache })
  after_insert i expected current last retry (err e) s =
      if is_version_clash e then conflict i expected current s else (elim retry [
        | none ↦ (err (database_error e), s)
        | some again ↦ if may_retry e then again s else (err (database_error e), s)
      ])
  after_insert i expected current last retry panic s = (panic, s)

  -- The body of the loop once the current version is known.
  unfoldable pub with_version :
      Uuid
      → I64
      → I64
      → List (Event Json)
      → Option (Action Tx (Unit {0}))
      → Outcome DbError I64
      → Action Tx (Unit {0})
  unfolding after_insert conflict
  with_version i expected last events retry (ok current) s =
      if not (eqb current expected)
      then conflict i expected current s
      else (elim (sequence_error expected events) [
        | some complaint ↦ (err (validation_error (complaint ∷ [])), s)
        | none ↦
            let (answer, tx) = db.insert_rows events s.tx in
            after_insert i expected current last retry answer (record s { tx = tx })
      ])
  with_version i expected last events retry (err e) s = (err (database_error e), s)
  with_version i expected last events retry panic s = (panic, s)

  -- The loop, with the number of retries that are left.
  unfoldable pub insert_loop : Uuid → I64 → I64 → List (Event Json) → ℕ → Action Tx (Unit {0})
  unfolding with_version
  insert_loop i expected last events zero s =
      let (answer, tx) = db.select_version i s.tx in
      with_version i expected last events none answer (record s { tx = tx })
  insert_loop i expected last events (suc left) s =
      let (answer, tx) = db.select_version i s.tx in
      with_version i expected last events (some (insert_loop i expected last events left)) answer
        (record s { tx = tx })

  -- `bulk_insert_events_optimized`
  unfoldable pub bulk_insert_events_optimized : List (Event Json) → Action Tx (Unit {0})
  unfolding insert_loop last_version
  bulk_insert_events_optimized [] s = (ok tt, s)
  bulk_insert_events_optimized (first ∷ events) s =
      let (answer, tx) = db.set_serializable s.tx in
      let s' = record s { tx = tx } in
      elim answer [
        | ok _ ↦
            insert_loop first.aggregate_id first.version (last_version first.version events)
              (first ∷ events) 3 s'
        | err e ↦ (err (database_error e), s')
        | panic ↦ (panic, s')
      ]
