-- ===== src/EventStore/Read/Query.antt =====
-- Lemmas on `get_events` of src/infrastructure/event_store.rs: what the query returns.
use banking_es_feature_redis.Prelude.{
  ◌≡◌, sym, ok, inl, inr, true, false, ◌&&◌, Option, none, some, List, [], ◌∷◌, I64, eqb,
  signed_ltb, All, arith, Bool-cases,
}
use banking_es_feature_redis.Domain.{Uuid}
use banking_es_feature_redis.EventStore.Types.{Event, DbError}
use banking_es_feature_redis.EventStore.Database.{HasVersion}
use banking_es_feature_redis.EventStore.Read.{
  by_version, select_events, from_or_all, with_default_metadata, queried_events, get_events,
}

module _ {Json : Type 0} where
  -- A row that answers the query.
  abbrev pub Answers : Uuid → I64 → Event Json → Type 0
  Answers i from row = (row.aggregate_id ≡ i) × (signed_ltb from row.version ≡ true)

  -- No row comes before one of a smaller version.
  abbrev pub IsAscending : List (Event Json) → Type 0
  IsAscending [] = Unit
  IsAscending (r ∷ rows) =
      All (λ (q : Event Json). signed_ltb q.version r.version ≡ false) rows × IsAscending rows

  module _ (i : Uuid) (from : I64) where
    by_version-Answers :
        (row : Event Json) (rows : List (Event Json))
        → Answers i from row
        → All (Answers i from) rows
        → All (Answers i from) (by_version row rows)
    unfolding by_version
    by_version-Answers row [] a h = (a, tt)
    by_version-Answers row (r ∷ rows) a h = elim (Bool-cases (signed_ltb row.version r.version)) [
      | inl less ↦ rw (less, by_version) (a, h)
      | inr more ↦ rw (more, by_version) (h.0, by_version-Answers row rows a h.1)
    ]

    -- The query returns events of its aggregate alone, and only those past the version.
    select_events-Answers :
        (table : List (Event Json)) → All (Answers i from) (select_events i from table)
    unfolding select_events
    select_events-Answers [] = tt
    select_events-Answers (row ∷ table) =
        elim (Bool-cases (eqb row.aggregate_id i && signed_ltb from row.version)) [
          | inl fits ↦
              rw (fits, select_events)
                (by_version-Answers row (select_events i from table) (ground arith)
                  (select_events-Answers table))
          | inr other ↦ rw (other, select_events) (select_events-Answers table)
        ]

  past :
      (i : Uuid) (v : I64) (row r : Event Json) (rows more : List (Event Json))
      → HasVersion i v (row ∷ r ∷ rows)
      → (HasVersion i v (row ∷ rows) → HasVersion i v more)
      → HasVersion i v (r ∷ more)
  past i v row r rows more (inl here) f = inr (f (inl here))
  past i v row r rows more (inr (inl next)) f = inl next
  past i v row r rows more (inr (inr later)) f = inr (f (inr later))

  by_version-HasVersion :
      (i : Uuid) (v : I64) (row : Event Json) (rows : List (Event Json))
      → HasVersion i v (row ∷ rows)
      → HasVersion i v (by_version row rows)
  unfolding by_version
  by_version-HasVersion i v row [] h = h
  by_version-HasVersion i v row (r ∷ rows) h =
      elim (Bool-cases (signed_ltb row.version r.version)) [
        | inl less ↦ rw (less, by_version) h
        | inr more ↦
            rw (more, by_version)
              (past i v row r rows (by_version row rows) h (by_version-HasVersion i v row rows))
      ]

  -- Every row of the aggregate past the version is returned.
  select_events-HasVersion :
      (i : Uuid) (from v : I64) (table : List (Event Json))
      → HasVersion i v table
      → signed_ltb from v ≡ true
      → HasVersion i v (select_events i from table)
  unfolding select_events
  select_events-HasVersion i from v [] h p = h
  select_events-HasVersion i from v (row ∷ table) h p =
      elim (Bool-cases (eqb row.aggregate_id i && signed_ltb from row.version)) [
        | inl fits ↦
            rw (fits, select_events)
              (by_version-HasVersion i v row (select_events i from table) (elim h [
                | inl here ↦ inl here
                | inr there ↦ inr (select_events-HasVersion i from v table there p)
              ]))
        | inr other ↦
            rw (other, select_events)
              (elim h [
                | inl here ↦ absurd (ground arith)
                | inr there ↦ select_events-HasVersion i from v table there p
              ])
      ]

  All-mono :
      (r q : Event Json) (rows : List (Event Json))
      → signed_ltb q.version r.version ≡ false
      → All (λ (p : Event Json). signed_ltb p.version q.version ≡ false) rows
      → All (λ (p : Event Json). signed_ltb p.version r.version ≡ false) rows
  All-mono r q [] h a = tt
  All-mono r q (p ∷ rows) h a = (ground arith, All-mono r q rows h a.1)

  All-by_version :
      (r row : Event Json) (rows : List (Event Json))
      → signed_ltb row.version r.version ≡ false
      → All (λ (p : Event Json). signed_ltb p.version r.version ≡ false) rows
      → All (λ (p : Event Json). signed_ltb p.version r.version ≡ false) (by_version row rows)
  unfolding by_version
  All-by_version r row [] h a = (h, tt)
  All-by_version r row (q ∷ rows) h a = elim (Bool-cases (signed_ltb row.version q.version)) [
    | inl less ↦ rw (less, by_version) (h, a)
    | inr more ↦ rw (more, by_version) (a.0, All-by_version r row rows h a.1)
  ]

  by_version-IsAscending :
      (row : Event Json) (rows : List (Event Json))
      → IsAscending rows
      → IsAscending (by_version row rows)
  unfolding by_version
  by_version-IsAscending row [] h = (tt, tt)
  by_version-IsAscending row (r ∷ rows) h = elim (Bool-cases (signed_ltb row.version r.version)) [
    | inl less ↦ rw (less, by_version) ((ground arith, All-mono row r rows (ground arith) h.0), h)
    | inr more ↦
        rw (more, by_version)
          (All-by_version r row rows more h.0, by_version-IsAscending row rows h.1)
  ]

  -- The rows come in the order of their versions.
  select_events-IsAscending :
      (i : Uuid) (from : I64) (table : List (Event Json)) → IsAscending (select_events i from table)
  unfolding select_events
  select_events-IsAscending i from [] = tt
  select_events-IsAscending i from (row ∷ table) =
      elim (Bool-cases (eqb row.aggregate_id i && signed_ltb from row.version)) [
        | inl fits ↦
            rw (fits, select_events)
              (by_version-IsAscending row (select_events i from table)
                (select_events-IsAscending i from table))
        | inr other ↦ rw (other, select_events) (select_events-IsAscending i from table)
      ]

  -- The default metadata changes neither aggregates nor versions.
  with_metadata-Answers :
      (i : Uuid) (from : I64) (rows : List (Event Json))
      → All (Answers i from) rows
      → All (Answers i from) (with_default_metadata rows)
  unfolding with_default_metadata
  with_metadata-Answers i from [] h = tt
  with_metadata-Answers i from (row ∷ rows) h = (h.0, with_metadata-Answers i from rows h.1)

  with_metadata-HasVersion :
      (i : Uuid) (v : I64) (rows : List (Event Json))
      → HasVersion i v rows
      → HasVersion i v (with_default_metadata rows)
  unfolding with_default_metadata
  with_metadata-HasVersion i v [] h = h
  with_metadata-HasVersion i v (row ∷ rows) (inl here) = inl here
  with_metadata-HasVersion i v (row ∷ rows) (inr later) =
      inr (with_metadata-HasVersion i v rows later)

  with_metadata-All :
      (r : Event Json) (rows : List (Event Json))
      → All (λ (q : Event Json). signed_ltb q.version r.version ≡ false) rows
      → All
          (λ (q : Event Json). signed_ltb q.version r.version ≡ false)
          (with_default_metadata rows)
  unfolding with_default_metadata
  with_metadata-All r [] h = tt
  with_metadata-All r (row ∷ rows) h = (h.0, with_metadata-All r rows h.1)

  with_metadata-IsAscending :
      (rows : List (Event Json)) → IsAscending rows → IsAscending (with_default_metadata rows)
  unfolding with_default_metadata
  with_metadata-IsAscending [] h = tt
  with_metadata-IsAscending (row ∷ rows) h =
      (with_metadata-All row rows h.0, with_metadata-IsAscending rows h.1)

  -- A `get_events` that succeeds returns rows of its aggregate alone, past the version that it is
  -- given, in the order of their versions, and each version of the aggregate in the table that is
  -- past the given one is among them.
  pub get_events_complete :
      (fault : Option DbError) (table events : List (Event Json)) (i : Uuid)
      (from_version : Option I64)
      → get_events fault table i from_version ≡ ok events
      → All (Answers i (from_or_all from_version)) events
        × IsAscending events
        × ((v : I64)
            → HasVersion i v table
            → signed_ltb (from_or_all from_version) v ≡ true
            → HasVersion i v events)
  unfolding get_events queried_events
  get_events_complete none table events i from_version h =
      let from = from_or_all from_version in
      let rows = select_events i from table in
      let e : with_default_metadata rows ≡ events = ground (arith, h) in
      rw (sym e) (
        with_metadata-Answers i from rows (select_events-Answers i from table),
        with_metadata-IsAscending rows (select_events-IsAscending i from table),
        λ v has past.
            with_metadata-HasVersion i v rows (select_events-HasVersion i from v table has past),
      )
  get_events_complete (some failed) table events i from_version h = cc
