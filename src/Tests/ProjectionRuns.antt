-- ===== src/Tests/ProjectionRuns.antt =====
-- Runs of the projection store.
use banking_es_feature_redis.Prelude.{
  String, ◌≡◌, refl, true, ◌⊎◌, inl, inr, if◌then◌else◌, ◌==◌, string_eq, Bool-cases, arith, some,
  List, [], ◌∷◌, ok, err, lookup, nat_eq,
}
use banking_es_feature_redis.Decimal.Cents.{ℤ, pos}
use banking_es_feature_redis.EventStore.{Instant}
use banking_es_feature_redis.Projections.{AccountProjection, TransactionProjection}
use banking_es_feature_redis.Projections.Store.{
  Tables, ProjectionStore, new, hit, load_account, get_account,
}
use banking_es_feature_redis.Projections.Batches.{
  ProjectionUpdate, account_batch, transaction_batch, Processor, repeats, spawned, upsert,
  upsert_all, stored_rows, upsert_stored, bulk_upsert_accounts, bulk_insert_transactions,
  flush_accounts, flush_transactions, flush_batches, update_processor, Columns,
}
use banking_es_feature_redis.Projections.Stuck.{update_processor-IsStuck}
use banking_es_feature_redis.Projections.Written.{
  flush_batches-ok, flush_batches-err, IsFlushed, IsUnsaved,
}
use banking_es_feature_redis.Projections.Unsent.{IsUnsent, update_processor-IsUnsent}
use banking_es_feature_redis.Projections.Reads.{get_account-get_account}

abbrev row : AccountProjection ℤ
row = record {
  id = 7;
  owner_name = "Alice";
  balance = pos 100;
  is_active = true;
  created_at = 1;
  updated_at = 1;
}

abbrev richer : AccountProjection ℤ
richer = record row { balance = pos 150; created_at = 9; updated_at = 9 }

abbrev deposit : TransactionProjection ℤ
deposit = record {
  id = 3;
  account_id = 7;
  transaction_type = "MoneyDeposited";
  amount = pos 50;
  timestamp = 9;
}

abbrev one_row : Tables ℤ
one_row = record { accounts = row ∷ []; transactions = [] }

-- Columns that refuse an account without a name and keep all else.
abbrev by_name : AccountProjection ℤ → String ⊎ AccountProjection ℤ
by_name a = if a.owner_name == "" then inl "no name" else inr a

by_name-id : (a stored : AccountProjection ℤ) → by_name a ≡ inr stored → stored.id ≡ a.id
by_name-id a stored h = elim (Bool-cases (a.owner_name == "")) [
  | inl same ↦ absurd (ground arith)
  | inr named ↦ ground arith
]

abbrev columns : Columns ℤ
columns = record { stored = by_name; id_kept = by_name-id }

-- A processor that has the account of the deposit.
abbrev pending : Processor ℤ
pending = record (spawned 0 (new one_row [])) { accounts = richer ∷ [] }

-- A processor that has both updates of the deposit.
abbrev complete : Processor ℤ
complete = record pending { transactions = deposit ∷ [] }

abbrev twice : Processor ℤ
twice = record pending { accounts = row ∷ richer ∷ [] }

abbrev updates : List (Instant × ProjectionUpdate ℤ)
updates = (100, account_batch (row ∷ [])) ∷ (200, transaction_batch (deposit ∷ [])) ∷ []

update_processor-IsStuck_example :
    (repeats (update_processor columns updates twice).accounts ≡ true)
    × ((update_processor columns updates twice).store.tables ≡ one_row)
update_processor-IsStuck_example = update_processor-IsStuck columns updates twice refl

update_processor-IsUnsent_example :
    IsUnsent (deposit ∷ []) one_row (update_processor columns updates complete)
update_processor-IsUnsent_example =
    update_processor-IsUnsent columns updates complete deposit [] refl

-- The row keeps the time at which it was created.
flushed_accounts_run :
    (flush_batches columns 10 pending).1.store.tables.accounts
    ≡ record richer { created_at = 1 } ∷ []
unfolding flush_batches flush_accounts flush_transactions bulk_upsert_accounts upsert_all upsert
    stored_rows upsert_stored
flushed_accounts_run = refl

flushed_ok : (flush_batches columns 10 pending).0 ≡ ok tt
unfolding flush_batches flush_accounts flush_transactions bulk_upsert_accounts upsert_all upsert
    stored_rows upsert_stored
flushed_ok = refl

flush_batches-ok_example : IsFlushed columns 10 pending (flush_batches columns 10 pending).1
flush_batches-ok_example = flush_batches-ok columns 10 pending flushed_ok

-- The statement of the deposit is refused, when the account is out of its batch.
refused :
    (flush_batches columns 10 complete).0
    ≡ err "there is no unique or exclusion constraint matching the ON CONFLICT specification"
unfolding flush_batches flush_accounts flush_transactions bulk_upsert_accounts upsert_all upsert
    stored_rows upsert_stored bulk_insert_transactions
refused = refl

lost_accounts_run : (flush_batches columns 10 complete).1.accounts ≡ []
unfolding flush_batches flush_accounts flush_transactions bulk_upsert_accounts upsert_all upsert
    stored_rows upsert_stored bulk_insert_transactions
lost_accounts_run = refl

flush_batches-err_example : IsUnsaved 10 complete (flush_batches columns 10 complete).1
flush_batches-err_example =
    flush_batches-err columns 10 complete
      "there is no unique or exclusion constraint matching the ON CONFLICT specification" refused

abbrev empty_cache : ProjectionStore ℤ
empty_cache = new one_row []

abbrev after_read : ProjectionStore ℤ
after_read = (load_account 5 20 7 empty_cache).1

-- The table is emptied and the connection lost between the two reads.
abbrev emptied : ProjectionStore ℤ
emptied = record after_read {
  tables = record { accounts = []; transactions = [] };
  faults = some "connection lost" ∷ [];
}

first_read : get_account 5 20 7 empty_cache ≡ (ok (some row), after_read)
unfolding get_account load_account lookup
first_read = refl

get_account-get_account_example :
    get_account 9 20 7 emptied ≡ (ok (some row), record emptied { metrics = hit emptied.metrics })
unfolding lookup
get_account-get_account_example =
    get_account-get_account 5 20 9 20 7 row empty_cache after_read emptied refl first_read refl refl
