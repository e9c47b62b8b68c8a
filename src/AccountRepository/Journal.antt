-- ===== src/AccountRepository/Journal.antt =====
-- Lemmas on src/infrastructure/repository.rs: over the event store, the repository keeps the
-- contract of `Application/Repository.antt`.
use banking_es_feature_redis.Prelude.{
  String, ◌≡◌, ◌≢◌, refl, ap, none, some, List, [], ◌∷◌, Outcome, ok, err, panic, map_err, arith,
  Option-cases, Outcome-cases, inl, inr,
}
use mathlib.Core.List.{append-nil}
use banking_es_feature_redis.Decimal.{Decimal}
use banking_es_feature_redis.Domain.{
  Uuid, AccountEvent, Account, default, apply_event, apply_events,
}
use banking_es_feature_redis.EventStore.{
  Serde, Event, EventStoreError, Postgres, Shared, get_events, rebuild, replay, queried_events,
}
use banking_es_feature_redis.EventStore.Flush.Unsaved.{flush_batch-Unsaved, save_events-ne-ok}
use banking_es_feature_redis.Application.{Journalled, blank}
use banking_es_feature_redis.AccountRepository.{
  Surroundings, after_save, save, get_by_id, account_repository,
}

module _ {D Json : Type 0} ⦃d : Decimal D⦄ ⦃s : Serde (AccountEvent D) Json⦄ where
  -- The events that the rows hold, as far as they can be read.
  pub decoded : List (Event Json) → List (AccountEvent D)
  decoded [] = []
  decoded (row ∷ rows) =
      let rest = decoded rows in
      elim (s.from_value row.event_data) [ none ↦ rest | some event ↦ event ∷ rest ]

  replay-decoded :
      (a b : Account D) (rows : List (Event Json))
      → replay a rows ≡ ok b
      → apply_events a (decoded rows) ≡ some b
  unfolding replay decoded apply_events
  replay-decoded a b [] h = ground arith
  replay-decoded a b (row ∷ rows) h = elim (Option-cases (s.from_value row.event_data)) [
    | inl failed ↦ absurd (ground arith)
    | inr (event, e) ↦ elim (Option-cases (apply_event a event)) [
      | inl overflow ↦ absurd (ground arith)
      | inr (a', f) ↦ ground (arith, replay-decoded a' b rows)
    ]
  ]

  rebuild-decoded :
      (u i : Uuid) (a : Account D) (rows : List (Event Json))
      → rebuild u i rows ≡ ok (some a)
      → apply_events (blank i) (decoded rows) ≡ some a
  unfolding rebuild default
  rebuild-decoded u i a [] h = cc
  rebuild-decoded u i a (row ∷ rows) h =
      let start : Account D = blank i in
      elim (Outcome-cases (replay start (row ∷ rows))) [
        | inl (b, e) ↦ ground (arith, replay-decoded start b (row ∷ rows) e)
        | inr failed ↦ absurd (ground arith)
      ]

map_err-ne-ok :
    {E F : Type 0} (f : E → F) (m : Outcome E (Unit {0})) → m ≢ ok tt → map_err f m ≢ ok tt
map_err-ne-ok f (ok _) h e = h refl
map_err-ne-ok f (err x) h e = cc
map_err-ne-ok f panic h e = cc

module _ {Tx D Json : Type 0} (db : Postgres Tx Json) ⦃d : Decimal D⦄
    ⦃s : Serde (AccountEvent D) Json⦄ (describe : EventStoreError → String)
    (env : Surroundings D) where
  -- A save, successful or not, leaves the table.
  pub after_save-table :
      (a : Account D) (events : List (AccountEvent D)) (sh : Shared Json)
      → (after_save db describe env a events sh).table ≡ sh.table
  unfolding after_save
  after_save-table a [] sh = refl
  after_save-table a (event ∷ events) sh = (flush_batch-Unsaved db env.stamps _ sh).0

  -- Only nothing at all is saved with success.
  pub saved_empty :
      (a : Account D) (events : List (AccountEvent D)) (sh : Shared Json)
      → (save db describe env a events sh).0 ≡ ok tt
      → events ≡ []
  unfolding save
  saved_empty a [] sh h = refl
  saved_empty a (event ∷ events) sh h = absurd (
      map_err-ne-ok describe _
        (save_events-ne-ok db env.stamps env.before env.after sh env.now a.id (event ∷ events)
          a.version (λ c. cc))
        h)

  -- The rows of an aggregate are its journal.
  pub journal_of : Shared Json → Uuid → List (AccountEvent D)
  journal_of sh i = decoded (queried_events sh.table i none)

  found_decoded :
      (i : Uuid) (sh : Shared Json) (a : Account D)
      → (get_by_id db describe env i sh).0 ≡ ok (some a)
      → apply_events (blank i) (journal_of sh i) ≡ some a
  unfolding get_by_id journal_of get_events
  found_decoded i sh a h = elim (Option-cases env.fault) [
    | inl fine ↦ rebuild-decoded env.new_v4 i a (queried_events sh.table i none) (ground arith)
    | inr (e, f) ↦ absurd (ground arith)
  ]

  -- The contract of the repository holds of the event store, since a save that it makes adds
  -- nothing and is not answered with success.
  pub account_repository-Journalled : Journalled (account_repository db describe env)
  unfolding account_repository journal_of
  account_repository-Journalled = record {
    journal = journal_of;
    get_same = λ i j sh. refl;
    get_some = λ i sh a h. found_decoded i sh a h;
    save_ok = λ a events sh h.
        let none_saved = saved_empty a events sh h in
        rw (none_saved, after_save-table a [] sh, append-nil) refl;
    save_other = λ a events sh j ne.
        ap (λ t. decoded (queried_events t j none)) (after_save-table a events sh);
    save_err = λ a events sh j ne.
        ap (λ t. decoded (queried_events t j none)) (after_save-table a events sh);
  }
