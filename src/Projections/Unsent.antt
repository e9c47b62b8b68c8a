-- ===== src/Projections/Unsent.antt =====
-- src/infrastructure/projections.rs: transactions that `update_processor` never gets into the table.
use banking_es_feature_redis.Prelude.{
  String, ◌≡◌, refl, sym, ap, ◌∙◌, List, [], ◌∷◌, ◌++◌, Outcome, arith, Bool-cases, inl, inr,
}
use mathlib.Core.List.{append_assoc, append-nil}
use mathlib.Core.Path.{subst}
use banking_es_feature_redis.EventStore.{Instant}
use banking_es_feature_redis.Projections.{TransactionProjection}
use banking_es_feature_redis.Projections.Store.{Tables}
use banking_es_feature_redis.Projections.Batches.{
  Columns, ProjectionUpdate, account_batch, transaction_batch, Processor, flush_batches, extended,
  is_due, process_update, update_processor,
}
use banking_es_feature_redis.Projections.Flush.{
  Flush, kept, accounts_taken, committed, flush_batches-Flush,
}
use banking_es_feature_redis.Projections.Written.{accounts_done-kept}

module _ {D : Type 0} where
  -- The batch still begins with these transactions, and the tables are these.
  abbrev pub IsUnsent : List (TransactionProjection D) → Tables D → Processor D → Type 0
  IsUnsent ts tables q =
      ((more : List (TransactionProjection D)) × (q.transactions ≡ ts ++ more))
      × (q.store.tables ≡ tables)

  extended-IsUnsent :
      (ts : List (TransactionProjection D)) (tables : Tables D) (update : ProjectionUpdate D)
      (q : Processor D)
      → IsUnsent ts tables q
      → IsUnsent ts tables (extended update q)
  extended-IsUnsent ts tables (account_batch accounts) q h = h
  extended-IsUnsent ts tables (transaction_batch new) q ((more, e), same) =
      ((more ++ new, ap (λ xs. xs ++ new) e ∙ append_assoc ts more new), same)

module _ {D : Type 0} (columns : Columns D) (t : TransactionProjection D)
    (ts : List (TransactionProjection D)) (tables : Tables D) where
  flushed-IsUnsent :
      (now : Instant) (q : Processor D) (x : Outcome String (Unit {0}) × Processor D)
      → IsUnsent (t ∷ ts) tables q
      → Flush columns now q x
      → IsUnsent (t ∷ ts) tables x.1
  flushed-IsUnsent now q x h (kept e later same) =
      subst (λ (y : Outcome String (Unit {0}) × Processor D). IsUnsent (t ∷ ts) tables y.1)
        (sym same) h
  flushed-IsUnsent now q x ((more, e), h) (accounts_taken _ later once same) =
      let (transactions, tables_same) = accounts_done-kept now q q.accounts in
      subst (λ (y : Outcome String (Unit {0}) × Processor D). IsUnsent (t ∷ ts) tables y.1)
        (sym same) ((more, transactions ∙ e), tables_same ∙ h)
  flushed-IsUnsent now q x ((more, e), h) (committed rows later once fits none_left same) =
      absurd (ground (arith, e, none_left))

  process_update-IsUnsent :
      (now : Instant) (update : ProjectionUpdate D) (q : Processor D)
      → IsUnsent (t ∷ ts) tables q
      → IsUnsent (t ∷ ts) tables (process_update columns (now, update) q)
  unfolding process_update
  process_update-IsUnsent now update q h =
      let before = extended-IsUnsent (t ∷ ts) tables update q h in
      let after =
        flushed-IsUnsent now (extended update q) (flush_batches columns now (extended update q))
          before (flush_batches-Flush columns now (extended update q)) in
      elim (Bool-cases (is_due now (extended update q))) [
        | inl due ↦ rw due after
        | inr early ↦ rw early before
      ]

  update_processor-run :
      (updates : List (Instant × ProjectionUpdate D)) (q : Processor D)
      → IsUnsent (t ∷ ts) tables q
      → IsUnsent (t ∷ ts) tables (update_processor columns updates q)
  unfolding update_processor
  update_processor-run [] q h = h
  update_processor-run ((now, update) ∷ updates) q h =
      update_processor-run updates (process_update columns (now, update) q)
        (process_update-IsUnsent now update q h)

module _ {D : Type 0} (columns : Columns D) where
  -- Once the processor's batch of transactions is not empty, no later updates change the tables,
  -- and the batch still begins with the same transactions.
  pub update_processor-IsUnsent :
      (updates : List (Instant × ProjectionUpdate D)) (p : Processor D)
      (t : TransactionProjection D) (ts : List (TransactionProjection D))
      → p.transactions ≡ t ∷ ts
      → IsUnsent (t ∷ ts) p.store.tables (update_processor columns updates p)
  update_processor-IsUnsent updates p t ts e =
      update_processor-run columns t ts p.store.tables updates p
        (([], e ∙ sym (append-nil (t ∷ ts))), refl)
