-- ===== src/Projections/Flush.antt =====
-- src/infrastructure/projections.rs: how `flush_batches` ends.
use banking_es_feature_redis.Prelude.{
  String, ◌≡◌, refl, sym, ap, ◌∙◌, false, Option, none, some, List, [], ◌∷◌, Outcome, ok, err,
  Bool-cases, ◌⊎◌, inl, inr, nat_eq,
}
use mathlib.Core.Path.{subst}
use banking_es_feature_redis.Prelude.Actions.{Action, ◌>>=◌, ◌>>◌, lift, modify, bind-ok, bind-err}
use banking_es_feature_redis.EventStore.{Instant}
use banking_es_feature_redis.Projections.{AccountProjection, TransactionProjection}
use banking_es_feature_redis.Projections.Store.{Tables, ProjectionStore, send_with}
use banking_es_feature_redis.Projections.Batches.{
  Columns, Processor, repeats, upsert_all, stored_rows, upsert_stored, bulk_upsert_accounts,
  bulk_insert_transactions, statement, drain_accounts, drain_transactions, flush_accounts,
  flush_transactions, commit, flush_batches,
}

module _ {D : Type 0} where
  abbrev pub with_faults : List (Option String) → Processor D → Processor D
  with_faults later p = record p { store = record p.store { faults = later } }

  abbrev pub with_tables : Tables D → Processor D → Processor D
  with_tables tables p = record p { store = record p.store { tables = tables } }

  statement-cases :
      (p : Processor D)
      → ((later : List (Option String)) × (statement p ≡ (ok tt, with_faults later p)))
        ⊎ ((e : String) × (later : List (Option String)) × (statement p
              ≡ (err e, with_faults later p)))
  statement-cases p = by_faults p.store.faults
    where
      by_faults :
          (faults : List (Option String))
          → ((later : List (Option String)) × ((λ (x : Outcome String (Unit {0})
                    × ProjectionStore D).
                  ◌≡◌ {A = Outcome String (Unit {0}) × Processor D}
                    (x.0, record p { store = x.1 })
                    (ok tt, with_faults later p))
                (send_with faults p.store)))
            ⊎ ((e : String) × (later : List (Option String)) × ((λ (x : Outcome String (Unit {0})
                      × ProjectionStore D).
                    ◌≡◌ {A = Outcome String (Unit {0}) × Processor D}
                      (x.0, record p { store = x.1 })
                      (err e, with_faults later p))
                  (send_with faults p.store)))
      by_faults [] = inl (p.store.faults, refl)
      by_faults (none ∷ later) = inl (later, refl)
      by_faults (some e ∷ later) = inr (e, later, refl)

  -- The processor once its accounts, if it had any, are in the transaction.
  abbrev pub accounts_done : Instant → List (AccountProjection D) → Processor D → Processor D
  accounts_done now [] p = p
  accounts_done now (a ∷ batch) p = drain_accounts now p

module _ {D : Type 0} (columns : Columns D) where
  bulk_upsert-cases :
      (batch : List (AccountProjection D)) (tx : Tables D)
      → ((e : String) × (bulk_upsert_accounts columns batch tx ≡ err e))
        ⊎ ((rows : List (AccountProjection D)) × (repeats batch ≡ false)
            × (stored_rows columns batch ≡ inr rows)
            × (bulk_upsert_accounts columns batch tx
                ≡ ok (record tx { accounts = upsert_all rows tx.accounts })))
  unfolding bulk_upsert_accounts upsert_stored
  bulk_upsert-cases batch tx = elim (Bool-cases (repeats batch)) [
    | inl twice ↦
        inl ("ON CONFLICT DO UPDATE command cannot affect row a second time", rw twice refl)
    | inr once ↦ by_rows (stored_rows columns batch) refl once
  ]
    where
      by_rows :
          (x : String ⊎ List (AccountProjection D))
          → stored_rows columns batch ≡ x
          → repeats batch ≡ false
          → ((e : String) × (bulk_upsert_accounts columns batch tx ≡ err e))
            ⊎ ((rows : List (AccountProjection D)) × (repeats batch ≡ false)
                × (stored_rows columns batch ≡ inr rows)
                × (bulk_upsert_accounts columns batch tx
                    ≡ ok (record tx { accounts = upsert_all rows tx.accounts })))
      by_rows (inl e) same once = inl (e, simp (once, same) refl)
      by_rows (inr rows) same once = inr (rows, once, same, simp (once, same) refl)

  flush_accounts-cases :
      (now : Instant) (batch : List (AccountProjection D)) (tx : Tables D) (p : Processor D)
      → ((e : String) × (later : List (Option String)) × (flush_accounts columns now batch tx p
            ≡ (err e, with_faults later p)))
        ⊎ ((rows : List (AccountProjection D)) × (repeats batch ≡ false)
            × (stored_rows columns batch ≡ inr rows)
            × (later : List (Option String)) × (flush_accounts columns now batch tx p ≡ (
              ok (record tx { accounts = upsert_all rows tx.accounts }),
              with_faults later (accounts_done now batch p),
            )))
  unfolding flush_accounts upsert_all stored_rows
  flush_accounts-cases now [] tx p = inr ([], refl, refl, p.store.faults, refl)
  flush_accounts-cases now (a ∷ batch) tx p = elim (statement-cases p) [
    | inr (e, later, failed) ↦
        inl (e, later, bind-err statement write p (with_faults later p) e failed)
    | inl (later, sent) ↦
        let q = with_faults later p in
        let run = bind-ok statement write p q tt sent in
        elim (bulk_upsert-cases (a ∷ batch) tx) [
          | inl (e, refused) ↦ inl (
            e,
            later,
            run
                ∙ bind-err (lift (bulk_upsert_accounts columns (a ∷ batch) tx)) drain q q e
                    (ap (λ (x : Outcome String (Tables D)). (x, q)) refused),
          )
          | inr (rows, once, fits, done) ↦ inr (
            rows,
            once,
            fits,
            later,
            run
                ∙ bind-ok (lift (bulk_upsert_accounts columns (a ∷ batch) tx)) drain q q
                    (record tx { accounts = upsert_all rows tx.accounts })
                    (ap (λ (x : Outcome String (Tables D)). (x, q)) done),
          )
        ]
  ]
    where
      drain : Tables D → Action (Processor D) String (Tables D)
      drain tx' = modify (drain_accounts now) >> lift (ok tx')

      write : Unit {0} → Action (Processor D) String (Tables D)
      write _ = lift (bulk_upsert_accounts columns (a ∷ batch) tx) >>= drain

  -- Only a batch without transactions is done with.
  flush_transactions-cases :
      (batch : List (TransactionProjection D)) (tx : Tables D) (p : Processor D)
      → ((e : String) × (later : List (Option String)) × (flush_transactions batch tx p
            ≡ (err e, with_faults later p)))
        ⊎ ((batch ≡ []) × (flush_transactions batch tx p ≡ (ok tx, p)))
  unfolding flush_transactions bulk_insert_transactions
  flush_transactions-cases [] tx p = inr (refl, refl)
  flush_transactions-cases (t ∷ batch) tx p = elim (statement-cases p) [
    | inr (e, later, failed) ↦
        inl (e, later, bind-err statement write p (with_faults later p) e failed)
    | inl (later, sent) ↦ inl (
      "there is no unique or exclusion constraint matching the ON CONFLICT specification",
      later,
      bind-ok statement write p (with_faults later p) tt sent,
    )
  ]
    where
      write : Unit {0} → Action (Processor D) String (Tables D)
      write _ = lift (bulk_insert_transactions (t ∷ batch) tx) >>= λ tx'.
          modify drain_transactions >> lift (ok tx')

  -- What a flush leaves of the tables when it is committed.
  abbrev pub flushed_tables : List (AccountProjection D) → Processor D → Tables D
  flushed_tables rows p = record p.store.tables {
    accounts = upsert_all rows p.store.tables.accounts;
  }

  abbrev pub batches_done : Instant → Processor D → Processor D
  batches_done now p = accounts_done now p.accounts p

  -- The ways in which a flush ends, by its first statement that fails.
  pub data Flush (now : Instant) (p : Processor D) (x : Outcome String (Unit {0}) × Processor D)
      : Type 0 where
    kept :
        (e : String) (later : List (Option String))
        → x ≡ (err e, with_faults later p)
        → Flush now p x
    accounts_taken :
        (e : String) (later : List (Option String))
        → repeats p.accounts ≡ false
        → x ≡ (err e, with_faults later (batches_done now p))
        → Flush now p x
    committed :
        (rows : List (AccountProjection D)) (later : List (Option String))
        → repeats p.accounts ≡ false
        → stored_rows columns p.accounts ≡ inr rows
        → p.transactions ≡ []
        → x ≡ (ok tt, with_tables (flushed_tables rows p) (with_faults later (batches_done now p)))
        → Flush now p x

  abbrev write_accounts : Instant → Processor D → Action (Processor D) String (Tables D)
  write_accounts now p = flush_accounts columns now p.accounts p.store.tables

  abbrev write_rest : Processor D → Tables D → Action (Processor D) String (Unit {0})
  write_rest p tx = flush_transactions p.transactions tx >>= commit

  accounts_done-faults :
      (now : Instant) (batch : List (AccountProjection D)) (l m : List (Option String))
      (p : Processor D)
      → with_faults l (accounts_done now batch (with_faults m p))
        ≡ with_faults l (accounts_done now batch p)
  accounts_done-faults now [] l m p = refl
  accounts_done-faults now (a ∷ batch) l m p = refl

  commit-Flush :
      (now : Instant) (p : Processor D) (rows : List (AccountProjection D))
      (l : List (Option String))
      → repeats p.accounts ≡ false
      → stored_rows columns p.accounts ≡ inr rows
      → p.transactions ≡ []
      → Flush now p (commit (flushed_tables rows p) (with_faults l (batches_done now p)))
  commit-Flush now p rows l once fits none_left =
      elim (statement-cases (with_faults l (batches_done now p))) [
        | inl (later, sent) ↦
            committed rows later once fits none_left
              (bind-ok statement write _ (with_faults later (batches_done now p)) tt sent)
        | inr (e, later, failed) ↦
            accounts_taken e later once
              (bind-err statement write _ (with_faults later (batches_done now p)) e failed)
      ]
    where
      write : Unit {0} → Action (Processor D) String (Unit {0})
      write _ = modify (with_tables (flushed_tables rows p))

  transactions-Flush :
      (now : Instant) (p : Processor D) (rows : List (AccountProjection D))
      (l : List (Option String))
      → repeats p.accounts ≡ false
      → stored_rows columns p.accounts ≡ inr rows
      → Flush now p (write_rest p (flushed_tables rows p) (with_faults l (batches_done now p)))
  transactions-Flush now p rows l once fits =
      let q = with_faults l (batches_done now p) in
      let tx = flushed_tables rows p in
      elim (flush_transactions-cases p.transactions tx q) [
        | inl (e, later, failed) ↦ accounts_taken e later once (
            bind-err (flush_transactions p.transactions tx) commit q (with_faults later q) e failed)
        | inr (none_left, done) ↦
            subst (Flush now p)
              (sym (bind-ok (flush_transactions p.transactions tx) commit q q tx done))
              (commit-Flush now p rows l once fits none_left)
      ]

  accounts-Flush :
      (now : Instant) (p : Processor D) (l : List (Option String))
      → Flush now p ((write_accounts now p >>= write_rest p) (with_faults l p))
  accounts-Flush now p l =
      let q = with_faults l p in
      elim (flush_accounts-cases now p.accounts p.store.tables q) [
        | inl (e, later, failed) ↦
            kept e later
              (bind-err (write_accounts now p) (write_rest p) q (with_faults later q) e failed)
        | inr (rows, once, fits, later, done) ↦
            subst (Flush now p)
              (sym (
                bind-ok (write_accounts now p) (write_rest p) q
                  (with_faults later (batches_done now p)) (flushed_tables rows p)
                  (done
                    ∙ ap (λ (t : Processor D). (ok (flushed_tables rows p), t))
                        (accounts_done-faults now p.accounts later l p))))
              (transactions-Flush now p rows later once fits)
      ]

  pub flush_batches-Flush :
      (now : Instant) (p : Processor D) → Flush now p (flush_batches columns now p)
  unfolding flush_batches
  flush_batches-Flush now p = elim (statement-cases p) [
    | inr (e, later, failed) ↦ kept e later (bind-err statement write p _ e failed)
    | inl (later, sent) ↦
        subst (Flush now p) (sym (bind-ok statement write p _ tt sent)) (accounts-Flush now p later)
  ]
    where
      write : Unit {0} → Action (Processor D) String (Unit {0})
      write _ = write_accounts now p >>= write_rest p
