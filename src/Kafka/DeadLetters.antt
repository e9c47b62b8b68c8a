-- ===== src/Kafka/DeadLetters.antt =====
-- src/infrastructure/kafka_dlq.rs: `DeadLetterQueue`. The topic is a queue: a poll that is answered
-- with a message takes the one at its head, and a message that is sent goes to its end.
pub mod Progress
use banking_es_feature_redis.Prelude.{
  ℕ, zero, suc, ◌+◌, ◌*◌, ◌%◌, ◌^◌, String, Bool, true, false, Option, none, some, List, [], ◌∷◌,
  ◌++◌, I64, U64, add64, leb, if◌then◌else◌, Outcome, ok, err, panic,
}
use banking_es_feature_redis.Domain.{Uuid, AccountEvent}
use banking_es_feature_redis.EventStore.{Instant}

-- A length of time in milliseconds.
abbrev pub Duration : Type 0
Duration = ℕ

pub record DeadLetterMessage (D : Type 0) : Type 0 where
  pub account_id : Uuid
  pub events : List (AccountEvent D)
  pub version : I64
  pub original_timestamp : Instant
  pub failure_reason : String
  pub retry_count : ℕ
  pub last_retry : Option Instant

-- The counters of `KafkaMetrics` that the queue writes.
pub record DlqMetrics : Type 0 where
  pub dlq_messages : U64
  pub dlq_retries : U64
  pub dlq_retry_success : U64
  pub dlq_retry_failures : U64

pub record DeadLetterQueue (D : Type 0) : Type 0 where
  pub topic : List (DeadLetterMessage D)
  pub metrics : DlqMetrics
  -- What the loop has slept before retries, the latest first.
  pub slept : List Duration

pub record DlqConfig : Type 0 where
  pub max_retries : ℕ
  pub initial_retry_delay : Duration

-- What a turn of the loop is answered: by the consumer to the poll, and by the producer to the retry
-- and to the message that goes back.
pub record Turn : Type 0 where
  pub now : Instant
  -- Whether a message came before the time to wait was over.
  pub poll_dlq_message : Outcome String Bool
  pub send_event_batch : Outcome String (Unit {0})
  pub send_dlq_message : Outcome String (Unit {0})

-- The count of the messages behind one that is sent.
abbrev pub counted_if_sent : Outcome String (Unit {0}) → U64 → U64
counted_if_sent (ok _) n = add64 n 1
counted_if_sent (err _) n = n
counted_if_sent panic n = n

module _ {D : Type 0} where
  -- The topic behind a message that is sent.
  abbrev pub sent :
      Outcome String (Unit {0})
      → DeadLetterMessage D
      → List (DeadLetterMessage D)
      → List (DeadLetterMessage D)
  sent (ok _) message topic = topic ++ message ∷ []
  sent (err _) message topic = topic
  sent panic message topic = topic

  -- `send_to_dlq`; `answer` is the producer's.
  unfoldable pub send_to_dlq :
      (now : Instant) (answer : Outcome String (Unit {0}))
      → Uuid
      → List (AccountEvent D)
      → I64
      → String
      → DeadLetterQueue D
      → Outcome String (Unit {0}) × DeadLetterQueue D
  send_to_dlq now answer account_id events version failure_reason q =
      let message : DeadLetterMessage D = record {
        account_id = account_id;
        events = events;
        version = version;
        original_timestamp = now;
        failure_reason = failure_reason;
        retry_count = 0;
        last_retry = none;
      } in
      let m = q.metrics in
      (
        answer,
        record q {
          topic = sent answer message q.topic;
          metrics = record m { dlq_messages = counted_if_sent answer m.dlq_messages };
        },
      )

  -- The message as it goes back to the topic when its retry failed.
  abbrev pub once_more : Instant → DeadLetterMessage D → DeadLetterMessage D
  once_more now message = record message {
    retry_count = (message.retry_count + 1) % 2 ^ 32;
    last_retry = some now;
  }

  -- The two ends of a retry, by what `retry_message` answers.
  abbrev pub retried :
      Outcome String (Unit {0})
      → Turn
      → DeadLetterMessage D
      → DeadLetterQueue D
      → Outcome String (Unit {0}) × DeadLetterQueue D
  retried (ok _) turn message q =
      let m = q.metrics in
      (ok tt, record q { metrics = record m { dlq_retry_success = add64 m.dlq_retry_success 1 } })
  retried (err _) turn message q =
      let m = q.metrics in
      (
        turn.send_dlq_message,
        record q {
          topic = sent turn.send_dlq_message (once_more turn.now message) q.topic;
          metrics = record m { dlq_retry_failures = add64 m.dlq_retry_failures 1 };
        },
      )
  retried panic turn message q = (panic, q)

  -- A polled message, which `q` has no more: given up, or counted, waited for and retried.
  unfoldable pub handle :
      DlqConfig
      → Turn
      → DeadLetterMessage D
      → DeadLetterQueue D
      → Outcome String (Unit {0}) × DeadLetterQueue D
  handle config turn message q =
      let m = q.metrics in
      if leb config.max_retries message.retry_count
      then (ok tt, q)
      else retried turn.send_event_batch turn message (record q {
        metrics = record m { dlq_retries = add64 m.dlq_retries 1 };
        slept = config.initial_retry_delay * (2 ^ message.retry_count % 2 ^ 32) ∷ q.slept;
      })

  -- The poll came back with the message at the head of the topic, if it has one.
  abbrev pub polled :
      DlqConfig
      → Turn
      → List (DeadLetterMessage D)
      → DeadLetterQueue D
      → Outcome String (Unit {0}) × DeadLetterQueue D
  polled config turn [] q = (ok tt, q)
  polled config turn (message ∷ topic) q = handle config turn message (record q { topic = topic })

  abbrev pub poll_answered :
      Outcome String Bool
      → DlqConfig
      → Turn
      → DeadLetterQueue D
      → Outcome String (Unit {0}) × DeadLetterQueue D
  poll_answered (ok true) config turn q = polled config turn q.topic q
  poll_answered (ok false) config turn q = (ok tt, q)
  poll_answered (err e) config turn q = (err e, q)
  poll_answered panic config turn q = (panic, q)

  -- One turn of the loop of `process_dlq`.
  unfoldable pub process_turn :
      DlqConfig → Turn → DeadLetterQueue D → Outcome String (Unit {0}) × DeadLetterQueue D
  process_turn config turn q = poll_answered turn.poll_dlq_message config turn q

  -- `process_dlq` for a number of turns: only an error or a panic ends the loop.
  unfoldable pub process_dlq :
      DlqConfig → List Turn → DeadLetterQueue D → Outcome String (Unit {0}) × DeadLetterQueue D
  process_dlq config [] q = (ok tt, q)
  process_dlq config (turn ∷ turns) q =
      let (answer, q') = process_turn config turn q in
      let rest = process_dlq config turns q' in
      elim answer [ ok _ ↦ rest | err e ↦ (err e, q') | panic ↦ (panic, q') ]

  -- `send_to_dlq` of the trait, which counts nothing.
  unfoldable pub trait_send_to_dlq :
      (now : Instant) (answer : Outcome String (Unit {0}))
      → Uuid
      → List (AccountEvent D)
      → I64
      → String
      → DeadLetterQueue D
      → Outcome String (Unit {0}) × DeadLetterQueue D
  trait_send_to_dlq now answer account_id events version failure_reason q =
      let message : DeadLetterMessage D = record {
        account_id = account_id;
        events = events;
        version = version;
        original_timestamp = now;
        failure_reason = failure_reason;
        retry_count = 0;
        last_retry = none;
      } in
      (answer, record q { topic = sent answer message q.topic })

  -- The polled message, which is retried once and does not go back.
  abbrev pub retry_once :
      DlqConfig
      → Turn
      → List (DeadLetterMessage D)
      → DeadLetterQueue D
      → Outcome String (Unit {0}) × DeadLetterQueue D
  retry_once config turn [] q = (ok tt, q)
  retry_once config turn (message ∷ topic) q =
      if leb config.max_retries message.retry_count then (ok tt, record q { topic = topic }) else (
        turn.send_event_batch,
        record q {
          topic = topic;
          slept = config.initial_retry_delay * (2 ^ message.retry_count % 2 ^ 32) ∷ q.slept;
        },
      )

  abbrev pub polled_once :
      Outcome String Bool
      → DlqConfig
      → Turn
      → DeadLetterQueue D
      → Outcome String (Unit {0}) × DeadLetterQueue D
  polled_once (ok true) config turn q = retry_once config turn q.topic q
  polled_once (ok false) config turn q = (ok tt, q)
  polled_once (err e) config turn q = (err e, q)
  polled_once panic config turn q = (panic, q)

  -- `process_dlq` of the trait, which has no loop.
  unfoldable pub trait_process_dlq :
      DlqConfig → Turn → DeadLetterQueue D → Outcome String (Unit {0}) × DeadLetterQueue D
  trait_process_dlq config turn q = polled_once turn.poll_dlq_message config turn q
