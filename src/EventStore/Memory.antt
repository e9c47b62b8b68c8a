-- ===== src/EventStore/Memory.antt =====
-- An instance of the database interface of `EventStore/Database.antt`: a table in memory, whose
-- transactions keep the rows that they began with.
use banking_es_feature_redis.Prelude.{
  ◌≡◌, refl, ◌⊎◌, inl, inr, Bool, true, false, not, ◌&&◌, ◌||◌, Option, none, some, List, [], ◌∷◌,
  ◌++◌, I64, eqb, signed_ltb, All, arith, if◌then◌else◌, Outcome, ok, err, Bool-cases,
}
use banking_es_feature_redis.Domain.{Uuid}
use banking_es_feature_redis.EventStore.Types.{Event, DbError, row_not_found, database}
use banking_es_feature_redis.EventStore.Database.{Postgres, HasVersion, IsUnique, IsLatest}

-- A transaction: the rows now and at its beginning, and whether a statement has failed.
pub record Transaction (Json : Type 0) : Type 0 where
  pub now : List (Event Json)
  pub before : List (Event Json)
  pub failed : Bool

module _ {Json : Type 0} where
  has_version : Uuid → I64 → List (Event Json) → Bool
  has_version i v [] = false
  has_version i v (r ∷ rows) = (eqb r.aggregate_id i && eqb r.version v) || has_version i v rows

  HasVersion-has_version :
      (i : Uuid) (v : I64) (rows : List (Event Json))
      → HasVersion i v rows
      → has_version i v rows ≡ true
  unfolding has_version
  HasVersion-has_version i v [] h = absurd h
  HasVersion-has_version i v (r ∷ rows) (inl h) = ground arith
  HasVersion-has_version i v (r ∷ rows) (inr h) = ground (arith, HasVersion-has_version i v rows h)

  has_version-HasVersion :
      (i : Uuid) (v : I64) (rows : List (Event Json))
      → has_version i v rows ≡ true
      → HasVersion i v rows
  unfolding has_version
  has_version-HasVersion i v [] h = cc
  has_version-HasVersion i v (r ∷ rows) h =
      elim (Bool-cases (eqb r.aggregate_id i && eqb r.version v)) [
        | inl here ↦ inl (ground arith, ground arith)
        | inr other ↦ inr (has_version-HasVersion i v rows (ground arith))
      ]

  is_unique : List (Event Json) → Bool
  is_unique [] = true
  is_unique (r ∷ rows) = not (has_version r.aggregate_id r.version rows) && is_unique rows

  is_unique-IsUnique : (rows : List (Event Json)) → is_unique rows ≡ true → IsUnique rows
  unfolding is_unique
  is_unique-IsUnique [] h = tt
  is_unique-IsUnique (r ∷ rows) h = (
    λ has. ground (arith, HasVersion-has_version r.aggregate_id r.version rows has),
    is_unique-IsUnique rows (ground arith),
  )

  none_later : Uuid → I64 → List (Event Json) → Bool
  none_later i v [] = true
  none_later i v (r ∷ rows) =
      not (eqb r.aggregate_id i && signed_ltb v r.version) && none_later i v rows

  none_later-All :
      (i : Uuid) (v : I64) (rows : List (Event Json))
      → none_later i v rows ≡ true
      → All (λ (r : Event Json). r.aggregate_id ≡ i → signed_ltb v r.version ≡ false) rows
  unfolding none_later
  none_later-All i v [] h = tt
  none_later-All i v (r ∷ rows) h = (λ same. ground arith, none_later-All i v rows (ground arith))

  -- The versions of the rows of an aggregate that no other row of it exceeds.
  latest_among : Uuid → List (Event Json) → List (Event Json) → Option I64
  latest_among i table [] = none
  latest_among i table (r ∷ rows) =
      let rest = latest_among i table rows in
      if has_version i r.version table && none_later i r.version table then some r.version else rest

  latest_among-IsLatest :
      (i : Uuid) (v : I64) (table rows : List (Event Json))
      → latest_among i table rows ≡ some v
      → IsLatest i v table
  unfolding latest_among
  latest_among-IsLatest i v table [] h = cc
  latest_among-IsLatest i v table (r ∷ rows) h =
      elim (Bool-cases (has_version i r.version table && none_later i r.version table)) [
        | inl here ↦
            let e : r.version ≡ v = ground arith in
            (
              has_version-HasVersion i v table (ground arith),
              none_later-All i v table (ground arith),
            )
        | inr other ↦ latest_among-IsLatest i v table rows (ground arith)
      ]

  pub begin_memory : List (Event Json) → Outcome DbError (Transaction Json)
  begin_memory t = ok (record { now = t; before = t; failed = false })

  pub select_memory : Uuid → Transaction Json → Outcome DbError I64 × Transaction Json
  select_memory i tx =
      if tx.failed
      then (err (database "25P02" none), tx)
      else (elim (latest_among i tx.now tx.now) [
        | none ↦ (err row_not_found, tx)
        | some v ↦ (ok v, tx)
      ])

  pub insert_memory :
      List (Event Json) → Transaction Json → Outcome DbError (Unit {0}) × Transaction Json
  insert_memory es tx =
      if tx.failed
      then (err (database "25P02" none), tx)
      else (if is_unique (tx.now ++ es) then (ok tt, record tx { now = tx.now ++ es }) else (
        err (database "23505" (some "unique_aggregate_id_version")),
        record tx { failed = true },
      ))

  pub commit_memory : Transaction Json → Outcome DbError (List (Event Json))
  commit_memory tx = ok (if tx.failed then tx.before else tx.now)

  pub begin_memory_rows :
      (t : List (Event Json)) (tx : Transaction Json)
      → begin_memory t ≡ ok tx
      → (tx.now ≡ t) × (tx.before ≡ t)
  unfolding begin_memory
  begin_memory_rows t tx h = ground arith

  pub select_memory_rows :
      (i : Uuid) (tx : Transaction Json)
      → ((select_memory i tx).1.now ≡ tx.now) × ((select_memory i tx).1.before ≡ tx.before)
  unfolding select_memory
  select_memory_rows i tx = ground arith

  pub select_memory_ok :
      (i : Uuid) (v : I64) (tx : Transaction Json)
      → (select_memory i tx).0 ≡ ok v
      → IsLatest i v tx.now
  unfolding select_memory
  select_memory_ok i v tx h = latest_among-IsLatest i v tx.now tx.now (ground arith)

  pub insert_memory_ok :
      (es : List (Event Json)) (tx : Transaction Json)
      → (insert_memory es tx).0 ≡ ok tt
      → ((insert_memory es tx).1.now ≡ tx.now ++ es) × IsUnique (tx.now ++ es)
  unfolding insert_memory
  insert_memory_ok es tx h = (ground arith, is_unique-IsUnique (tx.now ++ es) (ground arith))

  pub insert_memory_err :
      (es : List (Event Json)) (tx : Transaction Json)
      → ((insert_memory es tx).0 ≡ ok tt) ⊎ ((insert_memory es tx).1.now ≡ tx.now)
  unfolding insert_memory
  insert_memory_err es tx = ground arith

  pub insert_memory_base :
      (es : List (Event Json)) (tx : Transaction Json) → (insert_memory es tx).1.before ≡ tx.before
  unfolding insert_memory
  insert_memory_base es tx = ground arith

  pub commit_memory_ok :
      (tx : Transaction Json) (t : List (Event Json))
      → commit_memory tx ≡ ok t
      → (t ≡ tx.now) ⊎ (t ≡ tx.before)
  unfolding commit_memory
  commit_memory_ok tx t h = ground arith

unfoldable pub memory : {Json : Type 0} → Postgres (Transaction Json) Json
unfolding begin_memory select_memory insert_memory commit_memory has_version is_unique none_later
    latest_among
memory = record {
  rows = λ tx. tx.now;
  base = λ tx. tx.before;
  begin = begin_memory;
  set_serializable = λ tx. (ok tt, tx);
  select_version = select_memory;
  insert_rows = insert_memory;
  commit = commit_memory;
  begin_rows = begin_memory_rows;
  set_serializable_rows = λ tx. (refl, refl);
  select_version_rows = select_memory_rows;
  select_version_ok = select_memory_ok;
  insert_rows_ok = insert_memory_ok;
  insert_rows_err = insert_memory_err;
  insert_rows_base = insert_memory_base;
  commit_ok = commit_memory_ok;
}
