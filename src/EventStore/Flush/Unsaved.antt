-- ===== src/EventStore/Flush/Unsaved.antt =====
-- Lemmas on `flush_batch` and `save_events` of src/infrastructure/event_store.rs: what can be
-- saved.
use banking_es_feature_redis.Prelude.{
  ℕ, suc, ◌≡◌, ◌≢◌, refl, ap, ◌∙◌, inl, inr, none, some, List, [], ◌∷◌, ◌++◌, map, HashMap, String,
  Outcome, ok, err, panic, arith, I64, Option-cases,
}
use banking_es_feature_redis.Domain.{Uuid, AccountEvent}
use banking_es_feature_redis.EventStore.Types.{
  Instant, Serde, DbError, EventStoreError, Event, EventHandler, BatchedEvent, normal,
}
use banking_es_feature_redis.EventStore.Database.{Postgres}
use banking_es_feature_redis.EventStore.Prepare.{
  Stamp, prepare_events_for_insert_optimized, prepare_from,
}
use banking_es_feature_redis.EventStore.Insert.{Session}
use banking_es_feature_redis.EventStore.Insert.Never.{NeverOk, bulk_insert-NeverOk}
use banking_es_feature_redis.EventStore.Insert.Keeps.{
  SameRows, SameRows-trans, Keeps, bulk_insert-Keeps,
}
use banking_es_feature_redis.EventStore.Flush.{
  Response, Shared, validate_events, handle_events, insert_result, after_answer, flush_loop, finish,
  flush_in, flush_batch, received, response_at, save_events,
}

-- The requests and the answers, one for one, and no request with events is told that it is saved.
abbrev pub Unsaved : {D : Type 0} → List (BatchedEvent D) → List Response → Type 0
Unsaved [] [] = Unit
Unsaved (b ∷ batch) (r ∷ rs) = (b.events ≢ [] → r ≢ some (ok tt)) × Unsaved batch rs
Unsaved _ _ = ⊥

Unsaved-dropped :
    {D : Type 0} (batch : List (BatchedEvent D)) → Unsaved batch (map (λ _. none) batch)
Unsaved-dropped [] = tt
Unsaved-dropped (b ∷ batch) = (λ _. (λ h. cc), Unsaved-dropped batch)

Unsaved-response_at :
    {D : Type 0} (before after : List (BatchedEvent D)) (b : BatchedEvent D) (rs : List Response)
    → Unsaved (before ++ b ∷ after) rs
    → b.events ≢ []
    → response_at before rs ≢ some (ok tt)
Unsaved-response_at [] after b [] u h = absurd u
Unsaved-response_at [] after b (r ∷ rs) u h = u.0 h
Unsaved-response_at (c ∷ before) after b [] u h = absurd u
Unsaved-response_at (c ∷ before) after b (r ∷ rs) u h = Unsaved-response_at before after b rs u.1 h

module _ {Tx Json : Type 0} (db : Postgres Tx Json) where
  validate_events-Keeps : (events : List (Event Json)) → Keeps db (validate_events events)
  unfolding validate_events
  validate_events-Keeps [] s = (refl, refl)
  validate_events-Keeps (event ∷ events) s = ground (arith, validate_events-Keeps events s)

  module _ (handlers : HashMap String (List (EventHandler Json))) where
    handle_events-Keeps : (events : List (Event Json)) → Keeps db (handle_events handlers events)
    unfolding handle_events
    handle_events-Keeps [] s = (refl, refl)
    handle_events-Keeps (event ∷ events) s = ground (arith, handle_events-Keeps events s)

    insert_result-Keeps : (events : List (Event Json)) → Keeps db (insert_result db handlers events)
    unfolding insert_result
    insert_result-Keeps events s =
        let s₁ = (validate_events events s).1 in
        let s₂ = (handle_events handlers events s₁).1 in
        ground (
          arith,
          validate_events-Keeps events s,
          handle_events-Keeps events s₁,
          bulk_insert-Keeps db events s₂,
        )

    insert_result-NeverOk :
        (event : Event Json) (events : List (Event Json))
        → NeverOk (insert_result db handlers (event ∷ events))
    unfolding insert_result
    insert_result-NeverOk event events s h =
        let all = event ∷ events in
        let s₁ = (validate_events all s).1 in
        let s₂ = (handle_events handlers all s₁).1 in
        ground (arith, bulk_insert-NeverOk db event events s₂)

finish-table :
    {Tx Json : Type 0} (db : Postgres Tx Json) (end : Outcome EventStoreError (Unit {0}))
    (answers : List Response) (table : List (Event Json)) (st : Session Tx)
    → db.rows st.tx ≡ table
    → db.base st.tx ≡ table
    → let f = finish db end answers table st in (f.table ≡ table) × (f.responses ≡ answers)
unfolding finish
finish-table db (err e) answers table st rows base = (refl, refl)
finish-table db panic answers table st rows base = (refl, refl)
finish-table db (ok _) answers table st rows base = grind (arith, db.commit_ok st.tx)

received-ne-ok : (r : Response) → r ≢ some (ok tt) → received r ≢ ok tt
unfolding received
received-ne-ok none h e = cc
received-ne-ok (some answer) h e = h (ap some e)

module _ {Tx D Json : Type 0} (db : Postgres Tx Json) where
  after_answer-Unsaved :
      (answer : Outcome EventStoreError (Unit {0})) (b : BatchedEvent D)
      (batch : List (BatchedEvent D)) (t : Tx) (st : Session Tx)
      (rest : Outcome EventStoreError (Unit {0}) × List Response × Session Tx)
      → (b.events ≢ [] → answer ≢ ok tt)
      → SameRows db t st.tx
      → Unsaved batch rest.1 × SameRows db st.tx rest.2.tx
      → let (end, answers, st') = after_answer answer batch st rest in
        Unsaved (b ∷ batch) answers × SameRows db t st'.tx
  unfolding after_answer
  after_answer-Unsaved (ok _) b batch t st rest unsaved keeps (u, same) =
      ((λ h. absurd (unsaved h refl), u), SameRows-trans db t st.tx rest.2.tx keeps same)
  after_answer-Unsaved (err e) b batch t st rest unsaved keeps (u, same) =
      ((λ _. λ h. cc, u), SameRows-trans db t st.tx rest.2.tx keeps same)
  after_answer-Unsaved panic b batch t st rest unsaved keeps (u, same) =
      ((λ _. λ h. cc, Unsaved-dropped batch), keeps)

module _ {Tx D Json : Type 0} (db : Postgres Tx Json) ⦃s : Serde (AccountEvent D) Json⦄ where
  prepare_from-nonempty :
      (aggregate : Uuid) (stamps : ℕ → Stamp) (i : ℕ) (v : I64) (events : List (AccountEvent D))
      → events ≢ []
      → prepare_from {Json = Json} aggregate stamps i v events ≢ some []
  unfolding prepare_from
  prepare_from-nonempty aggregate stamps i v [] h e = h refl
  prepare_from-nonempty aggregate stamps i v (event ∷ events) h e = ground arith

  module _ (handlers : HashMap String (List (EventHandler Json))) (stamps : ℕ → ℕ → Stamp) where
    -- A request with events is never answered with success.
    request-ne-ok :
        (i : ℕ) (b : BatchedEvent D) (rows : List (Event Json)) (st : Session Tx)
        → prepare_events_for_insert_optimized (stamps i) b ≡ some rows
        → b.events ≢ []
        → (insert_result db handlers rows st).0 ≢ ok tt
    unfolding prepare_events_for_insert_optimized
    request-ne-ok i b [] st e h =
        absurd (prepare_from-nonempty b.aggregate_id (stamps i) 0 b.expected_version b.events h e)
    request-ne-ok i b (event ∷ events) st e h = insert_result-NeverOk db handlers event events st

    flush_loop-Unsaved :
        (i : ℕ) (batch : List (BatchedEvent D)) (st : Session Tx)
        → let (end, answers, st') = flush_loop db handlers stamps i batch st in
          Unsaved batch answers × SameRows db st.tx st'.tx
    unfolding flush_loop
    flush_loop-Unsaved i [] st = (tt, (refl, refl))
    flush_loop-Unsaved i (b ∷ batch) st =
        elim (Option-cases (prepare_events_for_insert_optimized {Json = Json} (stamps i) b)) [
          | inl failed ↦
              rw (failed, flush_loop) ((λ _. λ h. cc, Unsaved-dropped batch), (refl, refl))
          | inr (rows, e) ↦
              let (answer, st') = insert_result db handlers rows st in
              rw (e, flush_loop)
                (after_answer-Unsaved db answer b batch st.tx st' _ (request-ne-ok i b rows st e)
                  (insert_result-Keeps db handlers rows st) (flush_loop-Unsaved (suc i) batch st'))
        ]

  flush_in-Unsaved :
      (stamps : ℕ → ℕ → Stamp) (batch : List (BatchedEvent D)) (sh : Shared Json)
      (begun : Outcome DbError Tx)
      → ((tx : Tx) → begun ≡ ok tx → (db.rows tx ≡ sh.table) × (db.base tx ≡ sh.table))
      → let f = flush_in db stamps batch sh begun in
        (f.table ≡ sh.table) × Unsaved batch f.responses
  unfolding flush_in
  flush_in-Unsaved stamps batch sh (err e) same = (refl, Unsaved-dropped batch)
  flush_in-Unsaved stamps batch sh panic same = (refl, Unsaved-dropped batch)
  flush_in-Unsaved stamps batch sh (ok tx) same =
      let st : Session Tx = record {
        tx = tx;
        metrics = sh.metrics;
        version_cache = sh.version_cache;
      } in
      let (end, answers, st') = flush_loop db sh.event_handlers stamps 0 batch st in
      let (unsaved, rows) = flush_loop-Unsaved sh.event_handlers stamps 0 batch st in
      let done =
        finish-table db end answers sh.table st' (rows.0 ∙ (same tx refl).0)
          (rows.1 ∙ (same tx refl).1) in
      (done.0, rw (done.1) unsaved)

  -- Over any database that behaves as documented, `flush_batch` leaves the events table as it
  -- was, and no request of the batch that has events is answered with success.
  pub flush_batch-Unsaved :
      (stamps : ℕ → ℕ → Stamp) (batch : List (BatchedEvent D)) (sh : Shared Json)
      → let f = flush_batch db stamps batch sh in (f.table ≡ sh.table) × Unsaved batch f.responses
  unfolding flush_batch
  flush_batch-Unsaved stamps batch sh =
      flush_in-Unsaved stamps batch sh (db.begin sh.table) (db.begin_rows sh.table)

  -- `save_events` does not return `Ok` for a list of one event or more, among whatever other
  -- requests it is batched, whatever version its caller expects, over any database that behaves
  -- as documented.
  pub save_events-ne-ok :
      (stamps : ℕ → ℕ → Stamp) (before after : List (BatchedEvent D)) (sh : Shared Json)
      (now : Instant) (aggregate : Uuid) (events : List (AccountEvent D)) (expected : I64)
      → events ≢ []
      → save_events db stamps before after sh now aggregate events expected ≢ ok tt
  unfolding save_events
  save_events-ne-ok stamps before after sh now aggregate [] expected h e = h refl
  save_events-ne-ok stamps before after sh now aggregate (event ∷ events) expected h e =
      let b : BatchedEvent D = record {
        aggregate_id = aggregate;
        events = event ∷ events;
        expected_version = expected;
        created_at = now;
        priority = normal;
      } in
      let batch = before ++ b ∷ after in
      received-ne-ok (response_at before (flush_batch db stamps batch sh).responses)
        (Unsaved-response_at before after b (flush_batch db stamps batch sh).responses
          (flush_batch-Unsaved stamps batch sh).1 (λ c. cc))
        e
