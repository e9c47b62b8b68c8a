-- ===== src/Projections/Written.antt =====
-- src/infrastructure/projections.rs: what a flush leaves in the tables and in the caches.
use banking_es_feature_redis.Prelude.{
  String, ◌≡◌, refl, sym, ◌∙◌, false, some, List, [], ◌∷◌, Outcome, ok, err, arith, ◌⊎◌, inl, inr,
  lookup, nat_eq, All,
}
use mathlib.Core.Path.{subst}
use banking_es_feature_redis.EventStore.{Instant}
use banking_es_feature_redis.Projections.{AccountProjection}
use banking_es_feature_redis.Projections.Batches.{Columns, Processor, repeats, flush_batches}
use banking_es_feature_redis.Projections.Upserts.{
  cached_row, cache_all-All, ShowsStored, upsert_all-stored,
}
use banking_es_feature_redis.Projections.Flush.{
  Flush, kept, accounts_taken, committed, flush_batches-Flush, accounts_done,
}

module _ {D : Type 0} where
  -- The cache has the row for its account, with the time of the flush.
  abbrev pub IsCached : Instant → Processor D → AccountProjection D → Processor D → Type 0
  IsCached now p a q = lookup a.id q.store.account_cache ≡ some (cached_row now p.version a)

  accounts_done-lem :
      (now : Instant) (p : Processor D) (accounts : List (AccountProjection D))
      → accounts ≡ p.accounts
      → repeats p.accounts ≡ false
      → ((accounts_done now accounts p).accounts ≡ [])
        × All (λ a. IsCached now p a (accounts_done now accounts p)) p.accounts
  accounts_done-lem now p [] e h = (sym e, subst (All (λ a. IsCached now p a p)) e tt)
  accounts_done-lem now p (a ∷ batch) e h =
      (refl, cache_all-All now p.version p.accounts p.store.account_cache h)

  -- How a flush that failed leaves the processor.
  abbrev pub IsUnsaved : Instant → Processor D → Processor D → Type 0
  IsUnsaved now p q =
      (q.store.tables ≡ p.store.tables)
      × (((q.accounts ≡ p.accounts) × (q.store.account_cache ≡ p.store.account_cache))
          ⊎ ((q.accounts ≡ []) × All (λ a. IsCached now p a q) p.accounts))

  -- The accounts that go leave the transactions and the tables.
  pub accounts_done-kept :
      (now : Instant) (p : Processor D) (accounts : List (AccountProjection D))
      → ((accounts_done now accounts p).transactions ≡ p.transactions)
        × ((accounts_done now accounts p).store.tables ≡ p.store.tables)
  accounts_done-kept now p [] = (refl, refl)
  accounts_done-kept now p (a ∷ batch) = (refl, refl)

module _ {D : Type 0} (columns : Columns D) where
  -- A processor whose accounts are in their table, as the columns store them, and in the cache; there
  -- were no transactions.
  pub record IsFlushed (now : Instant) (p q : Processor D) : Type 0 where
    pub accounts_empty : q.accounts ≡ []
    pub no_transactions : p.transactions ≡ []
    pub still_no_transactions : q.transactions ≡ []
    pub accounts_cached : All (λ a. IsCached now p a q) p.accounts
    pub accounts_shown : All (λ a. ShowsStored columns a q.store.tables.accounts) p.accounts
    pub transactions_kept : q.store.tables.transactions ≡ p.store.tables.transactions

  flushed :
      (now : Instant) (p : Processor D) (x : Outcome String (Unit {0}) × Processor D)
      → Flush columns now p x
      → x.0 ≡ ok tt
      → IsFlushed now p x.1
  flushed now p x (kept e later h) r = absurd (ground arith)
  flushed now p x (accounts_taken e later once h) r = absurd (ground arith)
  flushed now p x (committed rows later once fits none_left h) r =
      let (empty, cached) = accounts_done-lem now p p.accounts refl once in
      subst (λ (y : Outcome String (Unit {0}) × Processor D). IsFlushed now p y.1) (sym h)
        (record {
          accounts_empty = empty;
          no_transactions = none_left;
          still_no_transactions = (accounts_done-kept now p p.accounts).0 ∙ none_left;
          accounts_cached = cached;
          accounts_shown =
              upsert_all-stored columns p.accounts rows p.store.tables.accounts fits once;
          transactions_kept = refl;
        })

  -- After a `flush_batches` that succeeds, whatever the columns make of the values, the batch of
  -- accounts is empty and that of transactions was and is empty, the cache has each account as it
  -- was in the batch, with the time of the flush, while its row in the table has the owner, the
  -- balance, the activity and the time of update as the columns store them, and the transactions
  -- in the table are as they were.
  pub flush_batches-ok :
      (now : Instant) (p : Processor D)
      → (flush_batches columns now p).0 ≡ ok tt
      → IsFlushed now p (flush_batches columns now p).1
  flush_batches-ok now p =
      flushed now p (flush_batches columns now p) (flush_batches-Flush columns now p)

  unsaved :
      (now : Instant) (p : Processor D) (x : Outcome String (Unit {0}) × Processor D) (e : String)
      → Flush columns now p x
      → x.0 ≡ err e
      → IsUnsaved now p x.1
  unsaved now p x e (kept _ later h) r =
      subst (λ (y : Outcome String (Unit {0}) × Processor D). IsUnsaved now p y.1) (sym h)
        (refl, inl (refl, refl))
  unsaved now p x e (accounts_taken _ later once h) r =
      subst (λ (y : Outcome String (Unit {0}) × Processor D). IsUnsaved now p y.1) (sym h)
        (
          (accounts_done-kept now p p.accounts).1,
          inr (accounts_done-lem now p p.accounts refl once),
        )
  unsaved now p x e (committed rows later once fits none_left h) r = absurd (ground arith)

  -- A `flush_batches` that fails leaves the tables as they were. Either the batch of accounts and
  -- their cache are as they were too, or the batch is empty and the cache has each of its
  -- accounts as it was there.
  pub flush_batches-err :
      (now : Instant) (p : Processor D) (e : String)
      → (flush_batches columns now p).0 ≡ err e
      → IsUnsaved now p (flush_batches columns now p).1
  flush_batches-err now p e =
      unsaved now p (flush_batches columns now p) e (flush_batches-Flush columns now p)
