-- ===== src/EventStore/Read/RoundTrip.antt =====
-- Lemmas on src/infrastructure/event_store.rs: the rows that a request is turned into are read back
-- as its events.
use banking_es_feature_redis.Prelude.{
  ℕ, suc, ◌+◌, ◌<◌, ◌^◌, ◌≡◌, refl, ap, ◌∙◌, true, none, signed_ltb, All, retain, some, List, [],
  ◌∷◌, I64, add64, minus_one, arith, ◌>>=◌, length, ok, or_panic, Option-cases, inl, inr,
}
use mathlib.Core.Path.{subst}
use mathlib.Core.List.{Permᴰ}
use banking_es_feature_redis.Decimal.{Decimal}
use banking_es_feature_redis.Domain.{
  Uuid, AccountEvent, Account, default, apply_event, apply_events,
}
use banking_es_feature_redis.EventStore.Types.{Serde, Event}
use banking_es_feature_redis.EventStore.Prepare.{Stamp, row_of, prepare_from}
use banking_es_feature_redis.EventStore.Read.{
  by_version, select_events, with_default_metadata, replay, get_account,
}
use banking_es_feature_redis.EventStore.Read.Ordered.{
  All-back, AllApart, ordered, ordered_perm, IsPrepared, IsPrepared-weaken, All-past, All-IsApart,
  is_of, select_events-ordered,
}

module _ {D Json : Type 0} ⦃d : Decimal D⦄ ⦃s : Serde (AccountEvent D) Json⦄ where
  -- The first prepared row, and the others.
  pub prepare_from-cons :
      (aggregate : Uuid) (stamps : ℕ → Stamp) (k : ℕ) (v : I64) (event : AccountEvent D)
      (events : List (AccountEvent D)) (rows : List (Event Json))
      → prepare_from aggregate stamps k v (event ∷ events) ≡ some rows
      → (json : Json) × (rest : List (Event Json)) × (s.to_value event ≡ some json)
        × (prepare_from aggregate stamps (suc k) (add64 v 1) events ≡ some rest)
        × (rows ≡ row_of aggregate (add64 v 1) (stamps k) event json ∷ rest)
  unfolding prepare_from
  prepare_from-cons aggregate stamps k v event events rows h =
      elim (Option-cases (s.to_value event)) [
        | inl failed ↦ absurd (ground arith)
        | inr (json, written) ↦
            elim (Option-cases
              (prepare_from {Json = Json} aggregate stamps (suc k) (add64 v 1) events)) [
                | inl failed ↦ absurd (ground arith)
                | inr (rest, e) ↦ (json, rest, written, e, ground arith)
              ]
      ]

  -- Replaying the prepared rows is applying the events.
  pub replay-prepare_from :
      (aggregate : Uuid) (stamps : ℕ → Stamp) (k : ℕ) (v : I64) (events : List (AccountEvent D))
      (rows : List (Event Json)) (a : Account D)
      → prepare_from aggregate stamps k v events ≡ some rows
      → replay a rows ≡ or_panic (apply_events a events)
  unfolding replay prepare_from apply_events row_of
  replay-prepare_from aggregate stamps k v [] rows a h = ground arith
  replay-prepare_from aggregate stamps k v (event ∷ events) rows a h =
      let (json, rest, written, e, same) =
        prepare_from-cons aggregate stamps k v event events rows h in
      let read_back = s.from_value-to_value event json written in
      rw same (elim (Option-cases (apply_event a event)) [
        | inl overflow ↦ ground arith
        | inr (a', f) ↦
            ground
              (arith, replay-prepare_from aggregate stamps (suc k) (add64 v 1) events rest a' e)
      ])

  replay-with_default_metadata :
      (rows : List (Event Json)) (a : Account D)
      → replay a (with_default_metadata rows) ≡ replay a rows
  unfolding replay with_default_metadata
  replay-with_default_metadata [] a = refl
  replay-with_default_metadata (row ∷ rows) a = elim (Option-cases (s.from_value row.event_data)) [
    | inl failed ↦ ground arith
    | inr (event, e) ↦ elim (Option-cases (apply_event a event)) [
      | inl overflow ↦ ground arith
      | inr (a', f) ↦ ground (arith, replay-with_default_metadata rows a')
    ]
  ]

  -- A row goes before the rows that are prepared from its version on.
  by_version-prepare_from :
      (row : Event Json) (aggregate : Uuid) (stamps : ℕ → Stamp) (k : ℕ)
      (events : List (AccountEvent D)) (rows : List (Event Json))
      → prepare_from aggregate stamps k row.version events ≡ some rows
      → row.version + length events < 2 ^ 63
      → by_version row rows ≡ row ∷ rows
  unfolding by_version prepare_from row_of
  by_version-prepare_from row aggregate stamps k [] rows h bound = ground arith
  by_version-prepare_from row aggregate stamps k (event ∷ events) rows h bound =
      let (json, rest, written, e, same) =
        prepare_from-cons aggregate stamps k row.version event events rows h in
      rw same (ground arith)

  -- Prepared rows are of the aggregate and past the version that they start from.
  prepare_from-All :
      (aggregate : Uuid) (stamps : ℕ → Stamp) (k : ℕ) (v : I64) (events : List (AccountEvent D))
      (rows : List (Event Json))
      → prepare_from aggregate stamps k v events ≡ some rows
      → v + length events < 2 ^ 63
      → All (IsPrepared aggregate v) rows
  unfolding prepare_from row_of
  prepare_from-All aggregate stamps k v [] rows h bound =
      subst (All (IsPrepared aggregate v)) {x = []} (ground arith) tt
  prepare_from-All aggregate stamps k v (event ∷ events) rows h bound =
      let (json, rest, written, e, same) =
        prepare_from-cons aggregate stamps k v event events rows h in
      let later =
        prepare_from-All aggregate stamps (suc k) (add64 v 1) events rest e
          (omega (arith, bound)) in
      rw same (
        (refl, omega (arith, bound), omega (arith, bound)),
        IsPrepared-weaken aggregate v (add64 v 1) rest (omega (arith, bound)) later,
      )

  -- Prepared rows are in their order, and the order tells them apart.
  prepare_from-ordered :
      (aggregate : Uuid) (stamps : ℕ → Stamp) (k : ℕ) (v : I64) (events : List (AccountEvent D))
      (rows : List (Event Json))
      → prepare_from aggregate stamps k v events ≡ some rows
      → v + length events < 2 ^ 63
      → AllApart rows × (ordered rows ≡ rows)
  unfolding prepare_from row_of
  prepare_from-ordered aggregate stamps k v [] rows h bound =
      subst (λ (rows : List (Event Json)). AllApart rows × (ordered rows ≡ rows)) {x = []}
        (ground arith) (tt, refl)
  prepare_from-ordered aggregate stamps k v (event ∷ events) rows h bound =
      let (json, rest, written, e, same) =
        prepare_from-cons aggregate stamps k v event events rows h in
      let row = row_of aggregate (add64 v 1) (stamps k) event json in
      let left : add64 v 1 + length events < 2 ^ 63 = omega (arith, bound) in
      let small : row.version < 2 ^ 63 = omega (arith, bound) in
      let (apart, in_order) =
        prepare_from-ordered aggregate stamps (suc k) (add64 v 1) events rest e left in
      let later = prepare_from-All aggregate stamps (suc k) (add64 v 1) events rest e left in
      rw same (
        (All-IsApart aggregate row rest small later, apart),
        ap (by_version row) in_order
            ∙ by_version-prepare_from row aggregate stamps (suc k) events rest e left,
      )

  -- The query takes all rows that were prepared for an aggregate, in the order of its events, out of
  -- a table that has them in any order, among those of others.
  select_events-prepare_from :
      (aggregate : Uuid) (stamps : ℕ → Stamp) (v : I64) (events : List (AccountEvent D))
      (rows table : List (Event Json))
      → prepare_from aggregate stamps 0 v events ≡ some rows
      → v + length events < 2 ^ 63
      → Permᴰ (retain (is_of aggregate) table) rows
      → select_events aggregate minus_one table ≡ rows
  select_events-prepare_from aggregate stamps v events rows table h bound held =
      let (apart, in_order) = prepare_from-ordered aggregate stamps 0 v events rows h bound in
      let all = prepare_from-All aggregate stamps 0 v events rows h bound in
      select_events-ordered aggregate minus_one table (
        All-back (λ row. signed_ltb minus_one row.version ≡ true) held
          (All-past aggregate v rows all))
      ∙ ordered_perm held apart
      ∙ in_order

  -- If the rows that the table has of an aggregate are, in any order and among those of others,
  -- the rows that `prepare_events_for_insert_optimized` makes of one event or more, with versions
  -- below 2^63, and the query does not fail, then `get_account` gives the replay of these events
  -- on the default account with the aggregate's identifier.
  pub get_account-prepare_from :
      (aggregate new_v4 : Uuid) (stamps : ℕ → Stamp) (v : I64) (event : AccountEvent D)
      (events : List (AccountEvent D)) (rows table : List (Event Json))
      → prepare_from aggregate stamps 0 v (event ∷ events) ≡ some rows
      → v + length (event ∷ events) < 2 ^ 63
      → Permᴰ (retain (is_of aggregate) table) rows
      → get_account none table new_v4 aggregate ≡ (do
        account ←
            or_panic (apply_events (record (default new_v4) { id = aggregate }) (event ∷ events))
        ok (some account))
  unfolding get_account with_default_metadata
  get_account-prepare_from aggregate new_v4 stamps v event events rows table h bound held =
      let (json, rest, written, e, same) =
        prepare_from-cons aggregate stamps 0 v event events rows h in
      let start : Account D = record (default new_v4) { id = aggregate } in
      let selected =
        select_events-prepare_from aggregate stamps v (event ∷ events) rows table h bound held in
      let replayed =
        replay-with_default_metadata rows start
        ∙ replay-prepare_from aggregate stamps 0 v (event ∷ events) rows start h in
      ground (arith, same, selected, replayed)
