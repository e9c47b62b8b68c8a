-- ===== src/EventStore/Read/Ordered.antt =====
-- Lemmas on `get_events` of src/infrastructure/event_store.rs: its query does not depend on the order
-- of the rows in the table.
use banking_es_feature_redis.Prelude.{
  ℕ, ◌<◌, ◌≤◌, ◌^◌, minus_one, ◌≡◌, refl, sym, ap, ◌∙◌, Bool, true, ◌||◌, List, [], ◌∷◌, I64, eqb,
  signed_ltb, All, arith, Bool-cases, inl, inr, retain,
}
use mathlib.Core.Path.{subst}
use mathlib.Core.List.{Permᴰ}
use mathlib.Core.List.Permᴰ.{nil, cons, swap, trans}
use banking_es_feature_redis.Domain.{Uuid}
use banking_es_feature_redis.EventStore.Types.{Event}
use banking_es_feature_redis.EventStore.Read.{by_version, select_events}

-- What all of a list have, all of another order of it have.
pub All-back : {A : Type 0} (P : A → Type 0) {xs ys : List A} → Permᴰ xs ys → All P ys → All P xs
All-back P nil h = tt
All-back P (cons e d) h = (subst P (sym e) h.0, All-back P d h.1)
All-back P (swap e f) h = (subst P (sym e) h.1.0, (subst P (sym f) h.0, h.1.1))
All-back P (trans d e) h = All-back P d (All-back P e h)

module _ {Json : Type 0} where
  -- The order tells these two rows apart.
  abbrev pub IsApart : Event Json → Event Json → Type 0
  IsApart a b = (signed_ltb a.version b.version || signed_ltb b.version a.version) ≡ true

  abbrev pub AllApart : List (Event Json) → Type 0
  AllApart [] = Unit
  AllApart (r ∷ rows) = All (IsApart r) rows × AllApart rows

  AllApart-back : {xs ys : List (Event Json)} → Permᴰ xs ys → AllApart ys → AllApart xs
  AllApart-back nil h = tt
  AllApart-back (cons {b = b} {l₁ = xs} e d) h =
      (subst (λ r. All (IsApart r) xs) (sym e) (All-back (IsApart b) d h.0), AllApart-back d h.1)
  AllApart-back (swap {a = a} {b = b} {a' = a'} {b' = b'} {l = l} e f) h =
      let back : IsApart b' a' = ground (arith, h.0.0) in
      let here : IsApart a b = subst (λ r. IsApart r b) (sym e) (subst (IsApart b') (sym f) back) in
      (
        (here, subst (λ r. All (IsApart r) l) (sym e) h.1.0),
        (subst (λ r. All (IsApart r) l) (sym f) h.0.1, h.1.1),
      )
  AllApart-back (trans d e) h = AllApart-back d (AllApart-back e h)

  by_version_comm :
      (a b : Event Json) (rows : List (Event Json))
      → IsApart a b
      → by_version a (by_version b rows) ≡ by_version b (by_version a rows)
  unfolding by_version
  by_version_comm a b [] h = ground arith
  by_version_comm a b (r ∷ rows) h = ground (arith, by_version_comm a b rows)

  -- The rows in the order of their versions.
  abbrev pub ordered : List (Event Json) → List (Event Json)
  ordered [] = []
  ordered (r ∷ rows) = by_version r (ordered rows)

  -- Rows that are apart have one order.
  pub ordered_perm :
      {xs ys : List (Event Json)} → Permᴰ xs ys → AllApart ys → ordered xs ≡ ordered ys
  ordered_perm nil h = refl
  ordered_perm (cons {a = a} {b = b} {l₁ = xs} {l₂ = ys} e d) h =
      ap (by_version a) (ordered_perm d h.1) ∙ ap (λ r. by_version r (ordered ys)) e
  ordered_perm (swap {a = a} {b = b} {a' = a'} {b' = b'} {l = l} e f) h =
      ap (λ r. by_version r (by_version b (ordered l))) e
      ∙ ap (λ r. by_version b' (by_version r (ordered l))) f
      ∙ sym (by_version_comm a' b' (ordered l) h.0.0)
  ordered_perm (trans d e) h = ordered_perm d (AllApart-back e h) ∙ ordered_perm e h

  abbrev pub is_of : Uuid → Event Json → Bool
  is_of aggregate row = eqb row.aggregate_id aggregate

  -- The query is the order of the aggregate's rows, when all are past the version.
  pub select_events-ordered :
      (aggregate : Uuid) (from : I64) (table : List (Event Json))
      → All (λ row. signed_ltb from row.version ≡ true) (retain (is_of aggregate) table)
      → select_events aggregate from table ≡ ordered (retain (is_of aggregate) table)
  unfolding select_events
  select_events-ordered aggregate from [] h = refl
  select_events-ordered aggregate from (row ∷ table) h =
      elim (Bool-cases (eqb row.aggregate_id aggregate)) [
        | inl fits ↦
            let parts : All (λ row. signed_ltb from row.version ≡ true)
                (row ∷ retain (is_of aggregate) table) =
              subst (All (λ row. signed_ltb from row.version ≡ true))
                {y = row ∷ retain (is_of aggregate) table} (ground (arith, fits)) h in
            let rest = select_events-ordered aggregate from table parts.1 in
            ground (arith, fits, parts.0, rest)
        | inr other ↦
            let parts : All (λ row. signed_ltb from row.version ≡ true)
                (retain (is_of aggregate) table) =
              subst (All (λ row. signed_ltb from row.version ≡ true))
                {y = retain (is_of aggregate) table} (ground (arith, other)) h in
            let rest = select_events-ordered aggregate from table parts in
            ground (arith, other, rest)
      ]

  -- A prepared row and those behind it, by their versions.
  abbrev pub IsPrepared : Uuid → ℕ → Event Json → Type 0
  IsPrepared aggregate v row =
      (row.aggregate_id ≡ aggregate) × (v < row.version) × (row.version < 2 ^ 63)

  pub IsPrepared-weaken :
      (aggregate : Uuid) (u v : ℕ) (rows : List (Event Json))
      → u ≤ v
      → All (IsPrepared aggregate v) rows
      → All (IsPrepared aggregate u) rows
  IsPrepared-weaken aggregate u v [] le h = tt
  IsPrepared-weaken aggregate u v (row ∷ rows) le ((same, more, small), h) =
      ((same, omega (arith, le, more), small), IsPrepared-weaken aggregate u v rows le h)

  pub All-past :
      (aggregate : Uuid) (v : ℕ) (rows : List (Event Json))
      → All (IsPrepared aggregate v) rows
      → All (λ row. signed_ltb minus_one row.version ≡ true) rows
  All-past aggregate v [] h = tt
  All-past aggregate v (row ∷ rows) ((same, more, small), h) =
      (ground (arith, small), All-past aggregate v rows h)

  pub All-IsApart :
      (aggregate : Uuid) (first : Event Json) (rows : List (Event Json))
      → first.version < 2 ^ 63
      → All (IsPrepared aggregate first.version) rows
      → All (IsApart first) rows
  All-IsApart aggregate first [] small h = tt
  All-IsApart aggregate first (row ∷ rows) small ((same, more, below), h) =
      (ground (arith, small, more, below), All-IsApart aggregate first rows small h)
