-- ===== src/Projections/Stuck.antt =====
-- src/infrastructure/projections.rs: a batch of accounts that `update_processor` never gets rid of.
use banking_es_feature_redis.Prelude.{
  String, ◌≡◌, refl, sym, ap, true, Option, none, some, List, [], ◌∷◌, ◌++◌, Outcome, ok, err,
  panic, arith, Bool-cases, inl, inr,
}
use mathlib.Core.Path.{subst}
use banking_es_feature_redis.Prelude.Actions.{Action, ◌>>=◌, ◌>>◌, lift, modify}
use banking_es_feature_redis.Prelude.Invariants.{Keeps, Keeps-bind}
use banking_es_feature_redis.Domain.{Uuid}
use banking_es_feature_redis.EventStore.{Instant}
use banking_es_feature_redis.Projections.{AccountProjection}
use banking_es_feature_redis.Projections.Store.{Tables, send, send_with}
use banking_es_feature_redis.Projections.Batches.{
  Columns, ProjectionUpdate, account_batch, transaction_batch, Processor, has_id, repeats,
  bulk_upsert_accounts, statement, drain_accounts, flush_accounts, flush_transactions, commit,
  flush_batches, extended, is_due, process_update, update_processor,
}

module _ {D : Type 0} where
  has_id-append :
      (i : Uuid) (xs ys : List (AccountProjection D))
      → has_id i xs ≡ true
      → has_id i (xs ++ ys) ≡ true
  has_id-append i [] ys h = ground arith
  has_id-append i (x ∷ xs) ys h = ground (arith, has_id-append i xs ys)

  repeats-append :
      (xs ys : List (AccountProjection D)) → repeats xs ≡ true → repeats (xs ++ ys) ≡ true
  repeats-append [] ys h = ground arith
  repeats-append (x ∷ xs) ys h = ground (arith, has_id-append x.id xs ys, repeats-append xs ys)

  -- The batch has two rows of one account, and the tables are these.
  abbrev pub IsStuck : Tables D → Processor D → Type 0
  IsStuck tables p = (repeats p.accounts ≡ true) × (p.store.tables ≡ tables)

  sent :
      (tables : Tables D) (faults : List (Option String)) (p : Processor D)
      → IsStuck tables p
      → IsStuck tables (record p { store = (send_with faults p.store).1 })
  sent tables [] p h = h
  sent tables (none ∷ later) p h = h
  sent tables (some e ∷ later) p h = h

  statement-IsStuck : (tables : Tables D) → Keeps (IsStuck tables) statement
  statement-IsStuck tables = record { at = λ p h. sent tables p.store.faults p h }

  -- A statement whose answer is an error ends the chain.
  abbrev chained :
      Outcome String (Unit {0})
      → Outcome String (Tables D)
      → (Tables D → Action (Processor D) String (Tables D))
      → (Tables D → Action (Processor D) String (Unit {0}))
      → Processor D
      → Outcome String (Unit {0}) × Processor D
  chained r tx g k p = (((λ (_ : Processor D). (r, p)) >>= λ (_ : Unit {0}). lift tx >>= g) >>= k) p

  chained-same :
      (r : Outcome String (Unit {0})) (tx : Outcome String (Tables D)) (e : String)
      (g : Tables D → Action (Processor D) String (Tables D))
      (k : Tables D → Action (Processor D) String (Unit {0})) (p : Processor D)
      → tx ≡ err e
      → (chained r tx g k p).1 ≡ p
  chained-same (ok _) tx e g k p h = ap (λ t. (chained (ok tt) t g k p).1) h
  chained-same (err _) tx e g k p h = refl
  chained-same panic tx e g k p h = refl

  extended-IsStuck :
      (tables : Tables D) (update : ProjectionUpdate D) (p : Processor D)
      → IsStuck tables p
      → IsStuck tables (extended update p)
  extended-IsStuck tables (account_batch accounts) p (r, same) =
      (repeats-append p.accounts accounts r, same)
  extended-IsStuck tables (transaction_batch transactions) p h = h

module _ {D : Type 0} (columns : Columns D) where
  -- The statement is chained, so the batch stays.
  flush_accounts-IsStuck :
      (now : Instant) (batch : List (AccountProjection D)) (tables tx : Tables D)
      (k : Tables D → Action (Processor D) String (Unit {0}))
      → repeats batch ≡ true
      → Keeps (IsStuck tables) (flush_accounts columns now batch tx >>= k)
  unfolding flush_accounts bulk_upsert_accounts
  flush_accounts-IsStuck now [] tables tx k r = absurd (ground arith)
  flush_accounts-IsStuck now (a ∷ batch) tables tx k r = record {
    at = λ p h.
        subst (IsStuck tables)
          (sym (
            chained-same (send p.store).0 (bulk_upsert_accounts columns (a ∷ batch) tx)
              "ON CONFLICT DO UPDATE command cannot affect row a second time"
              (λ tx'. modify (drain_accounts now) >> lift (ok tx')) k
              (record p { store = (send p.store).1 }) (rw r refl)))
          (sent tables p.store.faults p h);
  }

  flush_batches-IsStuck :
      (now : Instant) (tables : Tables D) → Keeps (IsStuck tables) (flush_batches columns now)
  unfolding flush_batches
  flush_batches-IsStuck now tables = record {
    at = λ p h.
        (Keeps-bind statement
            (λ _. flush_accounts columns now p.accounts p.store.tables >>= λ tx'.
              flush_transactions p.transactions tx' >>= commit)
            (statement-IsStuck tables)
            (λ _.
              flush_accounts-IsStuck now p.accounts tables p.store.tables
                (λ tx'. flush_transactions p.transactions tx' >>= commit) h.0)).at
          p h;
  }

  process_update-IsStuck :
      (now : Instant) (tables : Tables D) (update : ProjectionUpdate D) (p : Processor D)
      → IsStuck tables p
      → IsStuck tables (process_update columns (now, update) p)
  unfolding process_update
  process_update-IsStuck now tables update p h =
      let before = extended-IsStuck tables update p h in
      let after = (flush_batches-IsStuck now tables).at (extended update p) before in
      elim (Bool-cases (is_due now (extended update p))) [
        | inl due ↦ rw due after
        | inr early ↦ rw early before
      ]

  -- Once the processor's batch of accounts has two rows of one account, no later update changes
  -- the tables, and the batch still has two rows of one account.
  pub update_processor-IsStuck :
      (updates : List (Instant × ProjectionUpdate D)) (p : Processor D)
      → repeats p.accounts ≡ true
      → (repeats (update_processor columns updates p).accounts ≡ true)
        × ((update_processor columns updates p).store.tables ≡ p.store.tables)
  unfolding update_processor
  update_processor-IsStuck updates p r = run updates p (r, refl)
    where
      run :
          (updates : List (Instant × ProjectionUpdate D)) (q : Processor D)
          → IsStuck p.store.tables q
          → IsStuck p.store.tables (update_processor columns updates q)
      run [] q h = h
      run ((now, update) ∷ updates) q h =
          run updates (process_update columns (now, update) q)
            (process_update-IsStuck now p.store.tables update q h)
