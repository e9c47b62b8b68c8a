-- ===== src/Tests/Samples.antt =====
-- Data for the runs: amounts in cents, JSON that keeps the event as it is, and a repository in memory.
use banking_es_feature_redis.Prelude.{
  ℕ, ◌≡◌, ◌≢◌, refl, sym, String, true, Option, none, some, List, [], ◌∷◌, ◌++◌, eqb, if◌then◌else◌,
  Outcome, ok, panic, arith,
}
use banking_es_feature_redis.Prelude.Actions.{Action}
use banking_es_feature_redis.Decimal.Cents.{ℤ, pos, cents}
use banking_es_feature_redis.Domain.{
  Uuid, AccountEvent, account_created, money_deposited, Account, AccountError, apply_events,
}
use banking_es_feature_redis.EventStore.{
  Serde, Event, EventStoreMetrics, Shared, Stamp, BatchedEvent, normal,
}
use banking_es_feature_redis.Application.{Repository, Journalled, blank}

instance abbrev pub plain : Serde (AccountEvent ℤ) (AccountEvent ℤ)
plain = record {
  to_value = λ event. some event;
  from_value = λ json. some json;
  from_value-to_value = λ event json h. sym h;
}

abbrev pub alice : Account ℤ
alice = record { id = 7; owner_name = "Alice"; balance = pos 500; is_active = true; version = 1 }

abbrev pub stamp : ℕ → Stamp
stamp i = record { new_v4 = i; now = 0 }

abbrev pub stamps : ℕ → ℕ → Stamp
stamps i j = stamp j

abbrev pub no_metrics : EventStoreMetrics
no_metrics = record { events_processed = 0; events_failed = 0; occ_failures = 0 }

-- The row of the creation of Alice's account.
abbrev pub created_row : Event (AccountEvent ℤ)
created_row = record {
  id = 0;
  aggregate_id = 7;
  event_type = "AccountCreated";
  event_data = account_created 7 "Alice" (pos 500);
  version = 1;
  timestamp = 0;
  metadata = record {
    correlation_id = none;
    causation_id = none;
    user_id = none;
    source = "event_store";
    schema_version = "1.0";
    tags = [];
  };
}

-- A store whose table has that row.
abbrev pub shared : Shared (AccountEvent ℤ)
shared = record {
  table = created_row ∷ [];
  metrics = no_metrics;
  version_cache = [];
  event_handlers = [];
}

abbrev pub deposit_request : BatchedEvent ℤ
deposit_request = record {
  aggregate_id = 7;
  events = money_deposited 7 (pos 100) 1 ∷ [];
  expected_version = 1;
  created_at = 0;
  priority = normal;
}

-- The journals of all aggregates.
abbrev pub Journals : Type 0
Journals = Uuid → List (AccountEvent ℤ)

unfoldable pub save_in_memory :
    Account ℤ → List (AccountEvent ℤ) → Action Journals String (Unit {0})
save_in_memory a events s = (ok tt, λ i. if eqb i a.id then s i ++ events else s i)

unfoldable pub replayed : Option (Account ℤ) → Outcome (AccountError ℤ) (Option (Account ℤ))
replayed none = panic
replayed (some a) = ok (some a)

unfoldable pub get_in_memory : Uuid → Action Journals (AccountError ℤ) (Option (Account ℤ))
unfolding replayed
get_in_memory i s = (
  elim (s i) [ [] ↦ ok none | event ∷ events ↦ replayed (apply_events (blank i) (event ∷ events)) ],
  s,
)

unfoldable pub journals : Repository Journals ℤ
unfolding save_in_memory get_in_memory
journals = record { save = save_in_memory; get_by_id = get_in_memory }

pub get_in_memory-some :
    (i : Uuid) (s : Journals) (a : Account ℤ)
    → (get_in_memory i s).0 ≡ ok (some a)
    → apply_events (blank i) (s i) ≡ some a
unfolding get_in_memory
get_in_memory-some i s a h = ground arith

pub save_in_memory-own :
    (a : Account ℤ) (events : List (AccountEvent ℤ)) (s : Journals)
    → (save_in_memory a events s).0 ≡ ok tt
    → (save_in_memory a events s).1 a.id ≡ s a.id ++ events
unfolding save_in_memory
save_in_memory-own a events s h = ground arith

pub save_in_memory-other :
    (a : Account ℤ) (events : List (AccountEvent ℤ)) (s : Journals) (j : Uuid)
    → j ≢ a.id
    → (save_in_memory a events s).1 j ≡ s j
unfolding save_in_memory
save_in_memory-other a events s j ne = ground arith

unfoldable pub journals-Journalled : Journalled journals
unfolding journals save_in_memory get_in_memory
journals-Journalled = record {
  journal = λ s i. s i;
  get_same = λ i j s. refl;
  get_some = get_in_memory-some;
  save_ok = save_in_memory-own;
  save_other = save_in_memory-other;
  save_err = λ a events s j ne. absurd (ne refl);
}

abbrev pub no_journal : Journals
no_journal i = []

-- Alice's journal, and no other.
abbrev pub alices_journal : Journals
alices_journal i = if eqb i 7 then account_created 7 "Alice" (pos 500) ∷ [] else []
