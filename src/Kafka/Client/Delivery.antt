-- ===== src/Kafka/Client/Delivery.antt =====
-- src/infrastructure/kafka_abstraction.rs: a message that is sent and then polled.
use banking_es_feature_redis.Prelude.{
  String, ◌≡◌, sym, ap, ◌∙◌, true, false, not, ◌||◌, some, List, I64, if◌then◌else◌, Outcome, ok,
  err, panic, map_err, map_err-ok, arith,
}
use banking_es_feature_redis.Prelude.Actions.{◌>>=◌, lift, map_error, bind-inversion}
use banking_es_feature_redis.Domain.{Uuid, AccountEvent}
use banking_es_feature_redis.EventStore.{Instant}
use banking_es_feature_redis.Kafka.Types.{
  BankingKafkaError, producer_error, serialization_error, KafkaError, from_kafka, EventBatch, Json,
  message, Libraries,
}
use banking_es_feature_redis.Kafka.Client.{
  KafkaProducer, KafkaConsumer, send_json, events_topic, send_event_batch, poll, poll_events,
  not_json,
}

-- The clients are enabled and there are clients of the library.
abbrev pub CanSend : KafkaProducer → Type 0
CanSend producer = (producer.config.enabled ≡ true) × (producer.connected ≡ true)

abbrev pub CanPoll : KafkaConsumer → Type 0
CanPoll consumer = (consumer.config.enabled ≡ true) × (consumer.connected ≡ true)

module _ {K Bytes D : Type 0} (libraries : Libraries K Bytes D) where
  -- After this payload is sent the next poll has it.
  abbrev pub Delivers : K → K → Type 0
  Delivers k k' =
      (topic : String) (key : Uuid) (payload : Bytes)
      → libraries.rdkafka.send topic key payload k ≡ (ok tt, k')
      → (libraries.rdkafka.next k').0 ≡ message (some payload)

  sent_as :
      (answer : Outcome String (Unit {0})) (k k' : K)
      → map_error producer_error (λ (_ : K). (answer, k)) k ≡ (ok tt, k')
      → ◌≡◌ {A = Outcome String (Unit {0}) × K} (answer, k) (ok tt, k')
  sent_as (ok tt') k k' h = ap (λ (x : Outcome BankingKafkaError (Unit {0}) × K). (ok tt, x.1)) h
  sent_as (err e) k k' h = absurd (ground arith)
  sent_as panic k k' h = absurd (ground arith)

  -- A message that was sent is read from its payload.
  send_json-payload :
      {A : Type 0} (json : Json Bytes A) (producer : KafkaProducer) (topic : String) (key : Uuid)
      (value : A) (k k' : K)
      → CanSend producer
      → send_json libraries producer json topic key value k ≡ (ok tt, k')
      → (payload : Bytes) × (libraries.rdkafka.send topic key payload k ≡ (ok tt, k'))
        × (json.from_slice payload ≡ ok value)
  unfolding send_json
  send_json-payload json producer topic key value k k' (enabled, connected) h =
      let write = lift (map_err serialization_error (json.to_vec value)) in
      let send =
        λ (payload : Bytes). map_error producer_error (libraries.rdkafka.send topic key payload) in
      let h' : (write >>= send) k ≡ (ok tt, k') =
        sym (ap (λ b. (if b then lift (ok tt) else (write >>= send)) k) (can enabled connected))
        ∙ h in
      let (payload, to_vec, whole) =
        bind-inversion write send k tt
          (ap (λ (x : Outcome BankingKafkaError (Unit {0}) × K). x.0) h') in
      (
        payload,
        sent_as (libraries.rdkafka.send topic key payload k).0
            (libraries.rdkafka.send topic key payload k).1 k' (sym whole ∙ h'),
        json.from_slice-to_vec value payload
            (map_err-ok serialization_error (json.to_vec value) payload to_vec),
      )
    where
      can :
          producer.config.enabled ≡ true
          → producer.connected ≡ true
          → (not producer.config.enabled || not producer.connected) ≡ false
      can h k = ground arith

  poll-message :
      {A : Type 0} (json : Json Bytes A) (consumer : KafkaConsumer)
      (on_error : KafkaError → BankingKafkaError) (on_json : String → BankingKafkaError)
      (payload : Bytes) (value : A) (k : K)
      → CanPoll consumer
      → (libraries.rdkafka.next k).0 ≡ message (some payload)
      → json.from_slice payload ≡ ok value
      → (poll libraries consumer on_error on_json json k).0 ≡ ok (some value)
  poll-message json consumer on_error on_json payload value k (enabled, connected) next read =
      ground (arith, enabled, connected, next, read)

  -- If both clients are enabled and the broker delivers what is sent, the poll after a
  -- `send_event_batch` that succeeds answers that batch.
  pub poll_events-send_event_batch :
      (producer : KafkaProducer) (consumer : KafkaConsumer) (now : Instant) (account_id : Uuid)
      (events : List (AccountEvent D)) (version : I64) (k k' : K)
      → CanSend producer
      → CanPoll consumer
      → Delivers k k'
      → send_event_batch libraries producer now account_id events version k ≡ (ok tt, k')
      → (poll_events libraries consumer k').0
        ≡ ok (
            some (record {
              account_id = account_id;
              events = events;
              version = version;
              timestamp = now;
            }))
  unfolding send_event_batch poll_events
  poll_events-send_event_batch producer consumer now account_id events version k k' can_send
        can_poll delivers h =
      let topic = events_topic libraries producer.config in
      let batch : EventBatch D = record {
        account_id = account_id;
        events = events;
        version = version;
        timestamp = now;
      } in
      let (payload, sent, read) =
        send_json-payload libraries.batches producer topic account_id batch k k' can_send h in
      poll-message libraries.batches consumer from_kafka (not_json libraries) payload batch k'
        can_poll (delivers topic account_id payload sent) read
