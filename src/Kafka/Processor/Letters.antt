-- ===== src/Kafka/Processor/Letters.antt =====
-- src/infrastructure/kafka_event_processor.rs: the batches that reach the dead-letter queue.
use banking_es_feature_redis.Prelude.{
  ℕ, suc, String, ◌≡◌, refl, sym, ap, ◌∙◌, Bool, true, false, Option, none, some, List, [], ◌∷◌,
  I64, add64, length, Outcome, ok, err, panic, arith, ◌<◌, ◌^◌,
}
use banking_es_feature_redis.Prelude.Actions.{Action, ◌>>◌}
use banking_es_feature_redis.Prelude.Invariants.{
  Keeps, Keeps-bind, Keeps-lift, Ensures, Ensures-bind, Ensures-matched, Ensures-Keeps,
  Ensures-then, keeps_rules,
}
use Prim.Native.String.{◌++◌ as concat}
use banking_es_feature_redis.Decimal.{Decimal}
use banking_es_feature_redis.Domain.{Uuid, Account, AccountEvent}
use banking_es_feature_redis.Projections.{AccountProjection}
use banking_es_feature_redis.Kafka.Types.{EventBatch}
use banking_es_feature_redis.Kafka.Processor.{
  Collaborators, KafkaMetrics, KafkaEventProcessor, Times, versioned, calls, counts, consumed,
  processed, not_consumed, cache_updated, took_processing, should_trigger_recovery, update_caches,
  update_projected, process_batch, to_dead_letters, process_polled, recover_if, recover_if_needed,
  process_turn, process_turns, start_processing,
}

-- A queue of dead letters that has one more after each that is sent, and that nothing else changes.
pub record HasLetters {W D : Type 0} (c : Collaborators W D) (letters : W → ℕ) : Type 0 where
  pub sent :
      (i : Uuid) (events : List (AccountEvent D)) (version : I64) (reason : String) (w : W)
      → (c.send_to_dlq i events version reason w).0 ≡ ok tt
      → letters (c.send_to_dlq i events version reason w).1 ≡ suc (letters w)
  pub subscribe_keeps : (w : W) → letters (c.subscribe_to_events w).1 ≡ letters w
  pub poll_keeps : (w : W) → letters (c.poll_events w).1 ≡ letters w
  pub save_keeps :
      (i : Uuid) (events : List (AccountEvent D)) (version : I64) (w : W)
      → letters (c.save_events i events version w).1 ≡ letters w
  pub set_account_events_keeps :
      (i : Uuid) (events : List (I64 × AccountEvent D)) (ttl : Option ℕ) (w : W)
      → letters (c.set_account_events i events ttl w).1 ≡ letters w
  pub get_account_keeps : (i : Uuid) (w : W) → letters (c.get_account i w).1 ≡ letters w
  pub set_account_keeps :
      (account : Account D) (ttl : Option ℕ) (w : W)
      → letters (c.set_account account ttl w).1 ≡ letters w
  pub send_cache_update_keeps :
      (i : Uuid) (account : Account D) (w : W)
      → letters (c.send_cache_update i account w).1 ≡ letters w
  pub start_recovery_keeps : (w : W) → letters (c.start_recovery w).1 ≡ letters w

module _ {W D : Type 0} ⦃d : Decimal D⦄ (c : Collaborators W D) {letters : W → ℕ}
    (has : HasLetters c letters) (n : ℕ) where
  -- The errors that are counted are those before and the letters.
  pub record IsAccounted (p : KafkaEventProcessor W) : Type 0 where
    pub accounted : p.metrics.processing_errors ≡ add64 n (letters p.world)

  Keeps-calls :
      {E A : Type 0} (action : Action W E A)
      → ((w : W) → letters (action w).1 ≡ letters w)
      → Keeps IsAccounted (calls {E = E} {A = A} action)
  Keeps-calls action same = record {
    at = λ p h. record { accounted = h.accounted ∙ ap (add64 n) (sym (same p.world)) };
  }

  Keeps-counts :
      {E : Type 0} (f : KafkaMetrics → KafkaMetrics)
      → ((m : KafkaMetrics) → (f m).processing_errors ≡ m.processing_errors)
      → Keeps IsAccounted (counts {E = E} f)
  Keeps-counts f same = record { at = λ p h. record { accounted = same p.metrics ∙ h.accounted } }

  Keeps-update_caches :
      (batch : EventBatch D) (account : Account D)
      → Keeps IsAccounted (update_caches c batch account)
  Keeps-update_caches batch account = search (
    keeps_rules,
    Keeps-calls (c.set_account account (some 3600)) (has.set_account_keeps account (some 3600)),
    Keeps-calls (c.send_cache_update batch.account_id account)
        (has.send_cache_update_keeps batch.account_id account),
    Keeps-counts cache_updated (λ m. refl),
  )

  Keeps-update_projected :
      (batch : EventBatch D) (found : Option (AccountProjection D))
      → Keeps IsAccounted (update_projected c batch found)
  Keeps-update_projected batch none = Keeps-lift (ok tt)
  Keeps-update_projected batch (some projection) = search (keeps_rules, Keeps-update_caches)

  Keeps-process_batch :
      (took : ℕ) (batch : EventBatch D) → Keeps IsAccounted (process_batch c took batch)
  unfolding process_batch
  Keeps-process_batch took batch =
      let events = versioned batch.version batch.events in
      Keeps-bind (calls (c.save_events batch.account_id batch.events batch.version)) _
        (Keeps-calls (c.save_events batch.account_id batch.events batch.version)
          (has.save_keeps batch.account_id batch.events batch.version))
        (λ _.
          Keeps-bind (calls (c.set_account_events batch.account_id events none)) _
            (Keeps-calls (c.set_account_events batch.account_id events none)
              (has.set_account_events_keeps batch.account_id events none))
            (λ _.
              Keeps-bind (calls (c.get_account batch.account_id)) _
                (Keeps-calls (c.get_account batch.account_id)
                  (has.get_account_keeps batch.account_id))
                (λ account.
                  Keeps-bind (update_projected c batch account) (λ _. counts (took_processing took))
                    (Keeps-update_projected batch account)
                    (λ _. Keeps-counts (took_processing took) (λ m. refl)))))

  one_more :
      (p : KafkaEventProcessor W) (batch : EventBatch D) (e : String)
      → p.metrics.processing_errors ≡ add64 n (letters p.world)
      → (to_dead_letters c batch e p).0 ≡ ok tt
      → add64 p.metrics.processing_errors 1
        ≡ add64 n (letters (to_dead_letters c batch e p).1.world)
  one_more p batch e accounted done =
      let sent =
        has.sent batch.account_id batch.events batch.version (concat "Batch processing failed: " e)
          p.world done in
      omega (arith, sent, accounted)

  to_dead_letters-IsAccounted :
      (batch : EventBatch D) (e : String)
      → Ensures IsAccounted (to_dead_letters c batch e) (λ _. IsAccounted)
  to_dead_letters-IsAccounted batch e = record {
    at = λ p h answer sent. record { accounted = one_more p batch e h.accounted sent };
  }

  recover_if-IsAccounted : (b : Bool) → Keeps IsAccounted (recover_if c b)
  recover_if-IsAccounted true =
      search (keeps_rules, Keeps-calls c.start_recovery has.start_recovery_keeps)
  recover_if-IsAccounted false = Keeps-lift (ok tt)

  recover_if_needed-IsAccounted : Keeps IsAccounted (recover_if_needed c)
  recover_if_needed-IsAccounted = record {
    at = λ p h. (recover_if-IsAccounted (should_trigger_recovery p.metrics)).at p h;
  }

  process_polled-IsAccounted :
      (times : Times) (polled : Option (EventBatch D))
      → Ensures IsAccounted (process_polled c times polled) (λ _. IsAccounted)
  process_polled-IsAccounted times none = Ensures-Keeps _ (Keeps-lift (ok tt))
  process_polled-IsAccounted times (some batch) =
      Ensures-bind (counts (consumed times.polling)) _
        (Keeps-counts (consumed times.polling) (λ m. refl))
        (λ _.
          Ensures-matched (process_batch c times.processing batch)
            (λ _. counts (processed (length batch.events))) (λ e. to_dead_letters c batch e)
            (Keeps-process_batch times.processing batch)
            (λ _.
              Ensures-Keeps (counts (processed (length batch.events)))
                (Keeps-counts (processed (length batch.events)) (λ m. refl)))
            (λ e. to_dead_letters-IsAccounted batch e))

  process_turn-IsAccounted :
      (times : Times) → Ensures IsAccounted (process_turn c times) (λ _. IsAccounted)
  unfolding process_turn
  process_turn-IsAccounted times =
      Ensures-matched (calls c.poll_events) (λ polled. process_polled c times polled)
        (λ _. counts not_consumed >> recover_if_needed c) (Keeps-calls c.poll_events has.poll_keeps)
        (process_polled-IsAccounted times)
        (λ _. Ensures-Keeps (counts not_consumed >> recover_if_needed c) (
          Keeps-bind (counts not_consumed) (λ _. recover_if_needed c)
            (Keeps-counts not_consumed (λ m. refl)) (λ _. recover_if_needed-IsAccounted)))

  process_turns-IsAccounted :
      (turns : List Times) → Ensures IsAccounted (process_turns c turns) (λ _. IsAccounted)
  unfolding process_turns
  process_turns-IsAccounted [] = Ensures-Keeps _ (Keeps-lift (ok tt))
  process_turns-IsAccounted (times ∷ turns) =
      Ensures-then (process_turn c times) (λ _. process_turns c turns)
        (process_turn-IsAccounted times) (λ _. process_turns-IsAccounted turns)

  start_processing-IsAccounted :
      (turns : List Times) → Ensures IsAccounted (start_processing c turns) (λ _. IsAccounted)
  unfolding start_processing
  start_processing-IsAccounted turns =
      Ensures-bind (calls c.subscribe_to_events) (λ _. process_turns c turns)
        (Keeps-calls c.subscribe_to_events has.subscribe_keeps)
        (λ _. process_turns-IsAccounted turns)

-- The processor with a log that is empty.
abbrev pub with_log : {W : Type 0} → KafkaEventProcessor W → KafkaEventProcessor (W × ℕ)
with_log p = record { metrics = p.metrics; world = (p.world, 0) }

-- What a letter that is answered so adds to the log.
abbrev pub logged_if_sent : Outcome String (Unit {0}) → ℕ → ℕ
logged_if_sent (ok _) n = suc n
logged_if_sent (err _) n = n
logged_if_sent panic n = n

abbrev pub beside : {W E A : Type 0} → Action W E A → Action (W × ℕ) E A
beside action w = let (answer, world') = action w.0 in (answer, (world', w.1))

module _ {W D : Type 0} where
  -- The same collaborators, with a log of how many letters the processor itself has sent with success.
  abbrev pub logged : Collaborators W D → Collaborators (W × ℕ) D
  logged c = record {
    subscribe_to_events = beside c.subscribe_to_events;
    poll_events = beside c.poll_events;
    save_events = λ i events version. beside (c.save_events i events version);
    set_account_events = λ i events ttl. beside (c.set_account_events i events ttl);
    get_account = λ i. beside (c.get_account i);
    set_account = λ account ttl. beside (c.set_account account ttl);
    send_cache_update = λ i account. beside (c.send_cache_update i account);
    send_to_dlq = λ i events version reason w.
        let (answer, world') = c.send_to_dlq i events version reason w.0 in
        (answer, (world', logged_if_sent answer w.1));
    start_recovery = beside c.start_recovery;
  }

  logged-HasLetters : (c : Collaborators W D) → HasLetters (logged c) (λ w. w.1)
  logged-HasLetters c = record {
    sent = λ i events version reason w h. ap (λ r. logged_if_sent r w.1) h;
    subscribe_keeps = λ w. refl;
    poll_keeps = λ w. refl;
    save_keeps = λ i events version w. refl;
    set_account_events_keeps = λ i events ttl w. refl;
    get_account_keeps = λ i w. refl;
    set_account_keeps = λ account ttl w. refl;
    send_cache_update_keeps = λ i account w. refl;
    start_recovery_keeps = λ w. refl;
  }

module _ {W D : Type 0} ⦃d : Decimal D⦄ (c : Collaborators W D) where
  -- Over any collaborators, with a log of the letters that the processor itself sends with
  -- success: if its loop has not ended, the errors that it has counted have gone up by the
  -- letters in the log, modulo 2^64.
  pub start_processing-letters :
      (turns : List Times) (p : KafkaEventProcessor W)
      → p.metrics.processing_errors < 2 ^ 64
      → (start_processing (logged c) turns (with_log p)).0 ≡ ok tt
      → (start_processing (logged c) turns (with_log p)).1.metrics.processing_errors
        ≡ add64 p.metrics.processing_errors
            (start_processing (logged c) turns (with_log p)).1.world.1
  start_processing-letters turns p small done =
      ((start_processing-IsAccounted (logged c) (logged-HasLetters c) p.metrics.processing_errors
          turns).at
        (with_log p) (record { accounted = omega (arith, small) }) tt done).accounted
