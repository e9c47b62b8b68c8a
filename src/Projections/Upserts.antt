-- ===== src/Projections/Upserts.antt =====
-- src/infrastructure/projections.rs: what the accounts of a batch leave in the cache and in the table.
use banking_es_feature_redis.Prelude.{
  String, ◌⊎◌, ◌*◌, ◌≡◌, refl, ◌∙◌, false, some, List, [], ◌∷◌, U64, eqb, arith, Bool-cases, inl,
  inr, HashMap, lookup, insert, nat_eq, All, lookup-insert,
}
use mathlib.Core.Path.{subst}
use banking_es_feature_redis.Domain.{Uuid}
use banking_es_feature_redis.EventStore.{Instant}
use banking_es_feature_redis.Projections.{AccountProjection}
use banking_es_feature_redis.Projections.Store.{CacheEntry, row_of}
use banking_es_feature_redis.Projections.Batches.{
  Columns, has_id, repeats, stored_rows, overwrite, upsert, upsert_all, cache_all,
}

module _ {D : Type 0} where
  abbrev pub cached_row : Instant → U64 → AccountProjection D → CacheEntry (AccountProjection D)
  cached_row now version a = record {
    entry = a;
    last_accessed = now;
    version = version;
    ttl = 300 * 1000;
  }

  lookup-cache_all :
      (now : Instant) (version : U64) (i : Uuid) (batch : List (AccountProjection D))
      (cache : HashMap Uuid (CacheEntry (AccountProjection D)))
      → has_id i batch ≡ false
      → lookup i (cache_all now version batch cache) ≡ lookup i cache
  lookup-cache_all now version i [] cache h = refl
  lookup-cache_all now version i (a ∷ batch) cache h = ground (
    arith,
    lookup-cache_all now version i batch (insert a.id (cached_row now version a) cache),
    lookup-insert a.id i (cached_row now version a) cache,
  )

  -- Each row of the batch is what the cache has for its account.
  pub cache_all-All :
      (now : Instant) (version : U64) (batch : List (AccountProjection D))
      (cache : HashMap Uuid (CacheEntry (AccountProjection D)))
      → repeats batch ≡ false
      → All
          (λ a. lookup a.id (cache_all now version batch cache) ≡ some (cached_row now version a))
          batch
  cache_all-All now version [] cache h = tt
  cache_all-All now version (a ∷ batch) cache h = (
    ground (
      arith,
      lookup-cache_all now version a.id batch (insert a.id (cached_row now version a) cache),
      lookup-insert a.id a.id (cached_row now version a) cache,
    ),
    cache_all-All now version batch (insert a.id (cached_row now version a) cache) (ground arith),
  )

  -- The row has what the batch says of its account; the time of its creation may be another.
  pub record HasValues (a row : AccountProjection D) : Type 0 where
    pub owner_name_same : row.owner_name ≡ a.owner_name
    pub balance_same : row.balance ≡ a.balance
    pub is_active_same : row.is_active ≡ a.is_active
    pub updated_at_same : row.updated_at ≡ a.updated_at

  abbrev pub Shows : AccountProjection D → List (AccountProjection D) → Type 0
  Shows a rows = (row : AccountProjection D) × (row_of a.id rows ≡ some row) × HasValues a row

  overwritten : (a row : AccountProjection D) → HasValues a (overwrite a row)
  overwritten a row = record {
    owner_name_same = refl;
    balance_same = refl;
    is_active_same = refl;
    updated_at_same = refl;
  }

  itself : (a : AccountProjection D) → HasValues a a
  itself a = record {
    owner_name_same = refl;
    balance_same = refl;
    is_active_same = refl;
    updated_at_same = refl;
  }

  upsert-Shows :
      (a : AccountProjection D) (rows : List (AccountProjection D)) → Shows a (upsert a rows)
  unfolding upsert
  upsert-Shows a [] = (a, ground arith, itself a)
  upsert-Shows a (row ∷ rows) = elim (Bool-cases (eqb row.id a.id)) [
    | inl same ↦ rw same (overwrite a row, ground arith, overwritten a row)
    | inr differs ↦
        let shown = upsert-Shows a rows in rw differs (shown.0, ground (arith, shown.1), shown.2)
  ]

  row_of-upsert :
      (i : Uuid) (a : AccountProjection D) (rows : List (AccountProjection D))
      → eqb a.id i ≡ false
      → row_of i (upsert a rows) ≡ row_of i rows
  unfolding upsert
  row_of-upsert i a [] h = ground arith
  row_of-upsert i a (row ∷ rows) h = ground (arith, row_of-upsert i a rows)

  row_of-upsert_all :
      (i : Uuid) (batch rows : List (AccountProjection D))
      → has_id i batch ≡ false
      → row_of i (upsert_all batch rows) ≡ row_of i rows
  unfolding upsert_all
  row_of-upsert_all i [] rows h = refl
  row_of-upsert_all i (a ∷ batch) rows h =
      ground (arith, row_of-upsert_all i batch (upsert a rows), row_of-upsert i a rows)

  pub upsert_all-All :
      (batch rows : List (AccountProjection D))
      → repeats batch ≡ false
      → All (λ a. Shows a (upsert_all batch rows)) batch
  unfolding upsert_all
  upsert_all-All [] rows h = tt
  upsert_all-All (a ∷ batch) rows h = (
    (let shown = upsert-Shows a rows in
        (shown.0, row_of-upsert_all a.id batch (upsert a rows) (ground arith) ∙ shown.1, shown.2)),
    upsert_all-All batch (upsert a rows) (ground arith),
  )

module _ {D : Type 0} (columns : Columns D) where
  -- The columns make this row of the account, and the table shows it.
  abbrev pub ShowsStored : AccountProjection D → List (AccountProjection D) → Type 0
  ShowsStored a table = (row : AccountProjection D) × (columns.stored a ≡ inr row) × Shows row table

  pub stored_rows-cons :
      (a : AccountProjection D) (batch rows : List (AccountProjection D))
      → stored_rows columns (a ∷ batch) ≡ inr rows
      → (row : AccountProjection D) × (rest : List (AccountProjection D)) × (columns.stored a
          ≡ inr row)
        × (stored_rows columns batch ≡ inr rest)
        × (rows ≡ row ∷ rest)
  unfolding stored_rows
  stored_rows-cons a batch rows h =
      by_answers (columns.stored a) (stored_rows columns batch) refl refl h
    where
      by_answers :
          (x : String ⊎ AccountProjection D) (y : String ⊎ List (AccountProjection D))
          → columns.stored a ≡ x
          → stored_rows columns batch ≡ y
          → (elim x [
            | inl refused ↦ inl refused
            | inr row ↦ elim y [ inl refused ↦ inl refused | inr rest ↦ inr (row ∷ rest) ]
          ])
            ≡ inr rows
          → (row : AccountProjection D) × (rest : List (AccountProjection D)) × (columns.stored a
              ≡ inr row)
            × (stored_rows columns batch ≡ inr rest)
            × (rows ≡ row ∷ rest)
      by_answers (inl e) y f g h = absurd (ground arith)
      by_answers (inr row) (inl e) f g h = absurd (ground arith)
      by_answers (inr row) (inr rest) f g h = (row, rest, f, g, ground arith)

  has_id-stored_rows :
      (i : Uuid) (batch rows : List (AccountProjection D))
      → stored_rows columns batch ≡ inr rows
      → has_id i rows ≡ has_id i batch
  unfolding stored_rows
  has_id-stored_rows i [] rows h = ground arith
  has_id-stored_rows i (a ∷ batch) rows h =
      let (row, rest, here, there, same) = stored_rows-cons a batch rows h in
      ground (arith, same, columns.id_kept a row here, has_id-stored_rows i batch rest there)

  repeats-stored_rows :
      (batch rows : List (AccountProjection D))
      → stored_rows columns batch ≡ inr rows
      → repeats rows ≡ repeats batch
  unfolding stored_rows
  repeats-stored_rows [] rows h = ground arith
  repeats-stored_rows (a ∷ batch) rows h =
      let (row, rest, here, there, e) = stored_rows-cons a batch rows h in
      ground (
        arith,
        e,
        columns.id_kept a row here,
        has_id-stored_rows a.id batch rest there,
        repeats-stored_rows batch rest there,
      )

  -- The batch is in the table as the columns store it.
  pub upsert_all-stored :
      (batch rows table : List (AccountProjection D))
      → stored_rows columns batch ≡ inr rows
      → repeats batch ≡ false
      → All (λ a. ShowsStored a (upsert_all rows table)) batch
  upsert_all-stored batch rows table h once =
      back batch rows (upsert_all rows table) h
        (upsert_all-All rows table (repeats-stored_rows batch rows h ∙ once))
    where
      back :
          (batch rows table : List (AccountProjection D))
          → stored_rows columns batch ≡ inr rows
          → All (λ row. Shows row table) rows
          → All (λ a. ShowsStored a table) batch
      back [] rows table h shown = tt
      back (a ∷ batch) rows table h shown =
          let (row, rest, here, there, e) = stored_rows-cons a batch rows h in
          let parts = subst (All (λ row. Shows row table)) e shown in
          ((row, here, parts.0), back batch rest table there parts.1)
