-- ===== src/Kafka/DeadLetters/Progress.antt =====
-- Lemmas on src/infrastructure/kafka_dlq.rs: how often it retries, and what it counts.
use banking_es_feature_redis.Prelude.{
  ℕ, suc, Bool, true, false, ap, ◌+◌, ◌-◌, ◌*◌, ◌%◌, ◌^◌, ◌≤◌, ◌<◌, ◌≡◌, refl, List, [], ◌∷◌, ◌++◌,
  length, add64, leb, Outcome, ok, err, panic, arith, String, All, Bool-cases, Outcome-cases, inl,
  inr,
}
use banking_es_feature_redis.Kafka.DeadLetters.{
  DeadLetterMessage, DlqMetrics, DlqConfig, DeadLetterQueue, Turn, sent, once_more, retried, handle,
  poll_answered, process_turn, process_dlq,
}

-- Every retry that was counted was counted as a success or as a failure.
abbrev pub Accounted : DlqMetrics → Type 0
Accounted m = m.dlq_retries ≡ add64 m.dlq_retry_success m.dlq_retry_failures

module _ {D : Type 0} where
  -- The retries that the messages have left.
  abbrev pub retries_left : ℕ → List (DeadLetterMessage D) → ℕ
  retries_left max_retries [] = 0
  retries_left max_retries (message ∷ topic) =
      (max_retries - message.retry_count) + retries_left max_retries topic

  retries_left-append :
      (max : ℕ) (xs ys : List (DeadLetterMessage D))
      → retries_left max (xs ++ ys) ≡ retries_left max xs + retries_left max ys
  retries_left-append max [] ys = omega arith
  retries_left-append max (x ∷ xs) ys = omega (arith, retries_left-append max xs ys)

  -- A message that goes back has a retry less; one that the producer does not take has none.
  sent-retries_left :
      (max now : ℕ) (answer : Outcome String (Unit {0})) (message : DeadLetterMessage D)
      (topic : List (DeadLetterMessage D))
      → max < 2 ^ 32
      → message.retry_count < max
      → suc (retries_left max (sent answer (once_more now message) topic))
        ≤ (max - message.retry_count) + retries_left max topic
  sent-retries_left max now (ok _) message topic small under =
      omega (arith, retries_left-append max topic (once_more now message ∷ []))
  sent-retries_left max now (err _) message topic small under = omega arith
  sent-retries_left max now panic message topic small under = omega arith

  retried-retries_left :
      (max : ℕ) (r : Outcome String (Unit {0})) (turn : Turn) (message : DeadLetterMessage D)
      (q : DeadLetterQueue D)
      → max < 2 ^ 32
      → message.retry_count < max
      → let q' = (retried r turn message q).1 in
        (q'.slept ≡ q.slept)
        × (suc (retries_left max q'.topic) ≤ (max - message.retry_count) + retries_left max q.topic)
  retried-retries_left max (ok _) turn message q small under = (refl, omega arith)
  retried-retries_left max (err _) turn message q small under =
      (refl, sent-retries_left max turn.now turn.send_dlq_message message q.topic small under)
  retried-retries_left max panic turn message q small under = (refl, omega arith)

  -- The retries that were made, one for each sleep, and those that are left.
  abbrev pub all_retries : ℕ → DeadLetterQueue D → ℕ
  all_retries max q = length q.slept + retries_left max q.topic

  handle-all_retries :
      (config : DlqConfig) (turn : Turn) (message : DeadLetterMessage D) (q : DeadLetterQueue D)
      → config.max_retries < 2 ^ 32
      → all_retries config.max_retries (handle config turn message q).1
        ≤ (config.max_retries - message.retry_count) + all_retries config.max_retries q
  unfolding handle
  handle-all_retries config turn message q small =
      elim (Bool-cases (leb config.max_retries message.retry_count)) [
        | inl given_up ↦ rw given_up (omega arith)
        | inr goes_on ↦
            let counted = record q {
              metrics = record q.metrics { dlq_retries = add64 q.metrics.dlq_retries 1 };
              slept = config.initial_retry_delay * (2 ^ message.retry_count % 2 ^ 32) ∷ q.slept;
            } in
            let (same, less) =
              retried-retries_left config.max_retries turn.send_event_batch turn message counted
                small (ground arith) in
            let one : length (retried turn.send_event_batch turn message counted).1.slept
                ≡ suc (length q.slept) =
              ap length same in
            rw goes_on (omega (arith, one, less))
      ]

  turn-all_retries :
      (config : DlqConfig) (turn : Turn) (q : DeadLetterQueue D)
      → config.max_retries < 2 ^ 32
      → all_retries config.max_retries (process_turn config turn q).1
        ≤ all_retries config.max_retries q
  unfolding process_turn
  turn-all_retries config turn q small = go turn.poll_dlq_message q.topic
    where
      go :
          (poll : Outcome String Bool) (topic : List (DeadLetterMessage D))
          → all_retries config.max_retries
              (poll_answered poll config turn (record q { topic = topic })).1
            ≤ length q.slept + retries_left config.max_retries topic
      go (ok true) [] = omega arith
      go (ok true) (message ∷ topic) =
          omega (arith, handle-all_retries config turn message (record q { topic = topic }) small)
      go (ok false) topic = omega arith
      go (err _) topic = omega arith
      go panic topic = omega arith

  -- With `max_retries` below 2^32, in any turns of `process_dlq`, whatever the consumer and the
  -- producer answer, the retries that are made and those that the messages in the topic have left
  -- are never more than at first: each retry is one less for a message.
  pub process_dlq-all_retries :
      (config : DlqConfig) (turns : List Turn) (q : DeadLetterQueue D)
      → config.max_retries < 2 ^ 32
      → all_retries config.max_retries (process_dlq config turns q).1
        ≤ all_retries config.max_retries q
  unfolding process_dlq
  process_dlq-all_retries config [] q small = omega arith
  process_dlq-all_retries config (turn ∷ turns) q small =
      let once = turn-all_retries config turn q small in
      let rest = process_dlq-all_retries config turns (process_turn config turn q).1 small in
      elim (Outcome-cases (process_turn config turn q).0) [
        | inl (_, e) ↦ rw (e, process_dlq) (omega (arith, once, rest))
        | inr (inl (_, e)) ↦ rw (e, process_dlq) once
        | inr (inr e) ↦ rw (e, process_dlq) once
      ]

  retried-Accounted :
      (r : Outcome String (Unit {0})) (turn : Turn) (message : DeadLetterMessage D)
      (q : DeadLetterQueue D)
      → ¬ (r ≡ panic)
      → q.metrics.dlq_retries
        ≡ add64 (add64 q.metrics.dlq_retry_success q.metrics.dlq_retry_failures) 1
      → Accounted (retried r turn message q).1.metrics
  retried-Accounted (ok _) turn message q calm h = omega arith
  retried-Accounted (err _) turn message q calm h = omega arith
  retried-Accounted panic turn message q calm h = absurd (calm refl)

  handle-Accounted :
      (config : DlqConfig) (turn : Turn) (message : DeadLetterMessage D) (q : DeadLetterQueue D)
      → ¬ (turn.send_event_batch ≡ panic)
      → Accounted q.metrics
      → Accounted (handle config turn message q).1.metrics
  unfolding handle
  handle-Accounted config turn message q calm h =
      elim (Bool-cases (leb config.max_retries message.retry_count)) [
        | inl given_up ↦ rw given_up h
        | inr goes_on ↦
            let counted = record q {
              metrics = record q.metrics { dlq_retries = add64 q.metrics.dlq_retries 1 };
              slept = config.initial_retry_delay * (2 ^ message.retry_count % 2 ^ 32) ∷ q.slept;
            } in
            rw goes_on
              (retried-Accounted turn.send_event_batch turn message counted calm (rw h refl))
      ]

  turn-Accounted :
      (config : DlqConfig) (turn : Turn) (q : DeadLetterQueue D)
      → ¬ (turn.send_event_batch ≡ panic)
      → Accounted q.metrics
      → Accounted (process_turn config turn q).1.metrics
  unfolding process_turn
  turn-Accounted config turn q calm h = go turn.poll_dlq_message q.topic
    where
      go :
          (poll : Outcome String Bool) (topic : List (DeadLetterMessage D))
          → Accounted (poll_answered poll config turn (record q { topic = topic })).1.metrics
      go (ok true) [] = h
      go (ok false) topic = h
      go (ok true) (message ∷ topic) =
          handle-Accounted config turn message (record q { topic = topic }) calm h
      go (err _) topic = h
      go panic topic = h

  -- If the retries counted are the successes and the failures counted, modulo 2^64, that is still
  -- so after any turns of `process_dlq` in which no retry panics, an error that ends the loop
  -- included.
  pub process_dlq-Accounted :
      (config : DlqConfig) (turns : List Turn) (q : DeadLetterQueue D)
      → All (λ turn. ¬ (turn.send_event_batch ≡ panic)) turns
      → Accounted q.metrics
      → Accounted (process_dlq config turns q).1.metrics
  unfolding process_dlq
  process_dlq-Accounted config [] q calm h = h
  process_dlq-Accounted config (turn ∷ turns) q (now, later) h =
      let kept = turn-Accounted config turn q now h in
      elim (Outcome-cases (process_turn config turn q).0) [
        | inl (_, e) ↦ rw (e, process_dlq) (process_dlq-Accounted config turns _ later kept)
        | inr (inl (_, e)) ↦ rw (e, process_dlq) kept
        | inr (inr e) ↦ rw (e, process_dlq) kept
      ]
