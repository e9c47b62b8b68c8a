-- ===== src/Kafka/Strategies/Sent.antt =====
-- src/infrastructure/kafka_recovery_strategies.rs: the events that a replay sends.
use banking_es_feature_redis.Prelude.{
  String, ◌≡◌, refl, sym, ap, ◌∙◌, Bool, true, false, Option, none, List, [], ◌∷◌, ◌++◌, I64, add64,
  eqb, Outcome, ok, err, panic, arith,
}
use mathlib.Core.List.{append-nil, append_assoc}
use banking_es_feature_redis.Prelude.Actions.{Action, ◌>>=◌, ◌>>◌, lift, bind-inversion}
use banking_es_feature_redis.Decimal.{Decimal}
use banking_es_feature_redis.Domain.{Uuid, Account, AccountEvent}
use banking_es_feature_redis.EventStore.{Serde, Event}
use banking_es_feature_redis.Kafka.Recovery.{Services, event_of, send_each}
use banking_es_feature_redis.Kafka.Strategies.{
  send_batch, send_before_gap, send_runs, replay_fully, replay_selectively,
}

-- A producer that appends what it takes to a log of the account's events, which nothing else changes.
pub record Logs {W D Json : Type 0} (services : Services W D Json) (log : W → List (AccountEvent D))
    : Type 0 where
  pub send_appends :
      (i : Uuid) (events : List (AccountEvent D)) (version : I64) (w : W)
      → (services.send_event_batch i events version w).0 ≡ ok tt
      → log (services.send_event_batch i events version w).1 ≡ log w ++ events
  pub read_keeps :
      (i : Uuid) (from : Option I64) (w : W) → log (services.get_events i from w).1 ≡ log w

regroup :
    {A : Type 0} (a k b : List A) (x : A) (xs : List A)
    → a ++ k ≡ b
    → (a ++ (k ++ x ∷ [])) ++ xs ≡ b ++ x ∷ xs
regroup a k b x xs h = rw (sym h) (simp (append_assoc) refl)

-- An event before others, if all can be read.
abbrev pub with_event :
    {A : Type 0} → Outcome String A → Outcome String (List A) → Outcome String (List A)
with_event (ok event) (ok events) = ok (event ∷ events)
with_event (ok event) (err e) = err e
with_event (ok event) panic = panic
with_event (err e) events = err e
with_event panic events = panic

module _ {W D Json : Type 0} ⦃d : Decimal D⦄ ⦃s : Serde (AccountEvent D) Json⦄
    (services : Services W D Json) where
  -- The events of the rows, if each can be read.
  abbrev pub events_of : List (Event Json) → Outcome String (List (AccountEvent D))
  events_of [] = ok []
  events_of (row ∷ rows) = with_event (event_of services row) (events_of rows)

  read_both :
      (row : Event Json) (rows : List (Event Json)) (event : AccountEvent D)
      (events : List (AccountEvent D))
      → event_of services row ≡ ok event
      → events_of rows ≡ ok events
      → events_of (row ∷ rows) ≡ ok (event ∷ events)
  read_both row rows event events h k =
      ap (λ r. with_event r (events_of rows)) h ∙ ap (with_event (ok event)) k

  module _ {log : W → List (AccountEvent D)} (logs : Logs services log) where
    log-send_batch :
        (i : Uuid) (batch : List (AccountEvent D)) (version : I64) (w : W)
        → (send_batch services i batch version w).0 ≡ ok tt
        → log (send_batch services i batch version w).1 ≡ log w ++ batch
    log-send_batch i [] version w h = sym (append-nil (log w))
    log-send_batch i (event ∷ batch) version w h = logs.send_appends i (event ∷ batch) version w h

    -- What is sent at a gap and what is kept are the batch.
    log-send_before_gap :
        (i : Uuid) (b : Bool) (batch kept : List (AccountEvent D)) (version : I64) (w : W)
        → (send_before_gap services i b batch version w).0 ≡ ok kept
        → log (send_before_gap services i b batch version w).1 ++ kept ≡ log w ++ batch
    log-send_before_gap i true batch kept version w h =
        let same : batch ≡ kept = ground arith in ap (λ x. log w ++ x) (sym same)
    log-send_before_gap i false batch kept version w h =
        let (_, sent, rest) =
          bind-inversion (send_batch services i batch version) (λ _. lift (ok [])) w kept h in
        let empty : [] ≡ kept =
          ground (arith, ap (λ (x : Outcome String (List (AccountEvent D)) × W). x.0) rest) in
        ap (λ (x : Outcome String (List (AccountEvent D)) × W). log x.1 ++ kept) rest
        ∙ ap (λ k. log (send_batch services i batch version w).1 ++ k) (sym empty)
        ∙ append-nil (log (send_batch services i batch version w).1)
        ∙ log-send_batch i batch version w (sent ∙ refl)

    -- The rows can be read, and the log has got these events and then theirs.
    abbrev pub Sends : List (AccountEvent D) → List (Event Json) → W → W → Type 0
    Sends batch rows w w' =
        (events : List (AccountEvent D)) × (events_of rows ≡ ok events)
        × (log w' ≡ (log w ++ batch) ++ events)

    abbrev send_kept :
        Uuid → Event Json → List (Event Json) → List (AccountEvent D) → Action W String (Unit {0})
    send_kept i row rows kept = lift (event_of services row) >>= λ event.
        send_runs services i (kept ++ event ∷ []) row.version rows

    send_runs-Sends :
        (i : Uuid) (batch : List (AccountEvent D)) (version : I64) (rows : List (Event Json))
        (w : W)
        → (send_runs services i batch version rows w).0 ≡ ok tt
        → Sends batch rows w (send_runs services i batch version rows w).1
    unfolding send_runs
    send_runs-Sends i batch version [] w h =
        ([], refl, log-send_batch i batch version w h ∙ sym (append-nil (log w ++ batch)))
    send_runs-Sends i batch version (row ∷ rows) w h =
        let gap = send_before_gap services i (eqb row.version (add64 version 1)) batch version in
        let (kept, at_gap, rest) = bind-inversion gap (send_kept i row rows) w tt h in
        let h' : (send_kept i row rows kept (gap w).1).0 ≡ ok tt =
          sym (ap (λ (x : Outcome String (Unit {0}) × W). x.0) rest) ∙ h in
        let (event, read, rest') =
          bind-inversion (lift (event_of services row))
            (λ event. send_runs services i (kept ++ event ∷ []) row.version rows) (gap w).1 tt h' in
        let whole = rest ∙ rest' in
        let ended = sym (ap (λ (x : Outcome String (Unit {0}) × W). x.0) whole) ∙ h in
        let (events, all_read, logged) =
          send_runs-Sends i (kept ++ event ∷ []) row.version rows (gap w).1 ended in
        (
          event ∷ events,
          read_both row rows event events read all_read,
          ap (λ (x : Outcome String (Unit {0}) × W). log x.1) whole
              ∙ logged
              ∙ regroup (log (gap w).1) kept (log w ++ batch) event events (
                  log-send_before_gap i (eqb row.version (add64 version 1)) batch kept version w
                    at_gap),
        )

    send_each-Sends :
        (i : Uuid) (rows : List (Event Json)) (w : W)
        → (send_each services i rows w).0 ≡ ok tt
        → Sends [] rows w (send_each services i rows w).1
    unfolding send_each
    send_each-Sends i [] w h = ([], refl, simp (append-nil) refl)
    send_each-Sends i (row ∷ rows) w h =
        let (event, read, rest) =
          bind-inversion (lift (event_of services row))
            (λ event.
              services.send_event_batch i (event ∷ []) row.version >> send_each services i rows)
            w tt h in
        let send = services.send_event_batch i (event ∷ []) row.version in
        let h' = sym (ap (λ (x : Outcome String (Unit {0}) × W). x.0) rest) ∙ h in
        let (_, sent, rest') = bind-inversion send (λ _. send_each services i rows) w tt h' in
        let whole = rest ∙ rest' in
        let (events, all_read, logged) =
          send_each-Sends i rows (send w).1
            (sym (ap (λ (x : Outcome String (Unit {0}) × W). x.0) whole) ∙ h) in
        (
          event ∷ events,
          read_both row rows event events read all_read,
          ap (λ (x : Outcome String (Unit {0}) × W). log x.1) whole
              ∙ logged
              ∙ ap (λ l. (l ++ []) ++ events) (logs.send_appends i (event ∷ []) row.version w sent)
              ∙ simp (append-nil, append_assoc) refl,
        )

    -- The log has got the events of the account's rows, in their order.
    abbrev pub IsReplay : Account D → W → W → Type 0
    IsReplay account w w' =
        (rows : List (Event Json)) × (events : List (AccountEvent D)) × ((services.get_events
            account.id none w).0
          ≡ ok rows)
        × (events_of rows ≡ ok events)
        × (log w' ≡ log w ++ events)

    replayed :
        (account : Account D) (send : List (Event Json) → Action W String (Unit {0})) (w : W)
        → ((rows : List (Event Json)) (v : W)
            → (send rows v).0 ≡ ok tt
            → Sends [] rows v (send rows v).1)
        → ((services.get_events account.id none >>= send) w).0 ≡ ok tt
        → IsReplay account w ((services.get_events account.id none >>= send) w).1
    replayed account send w sends h =
        let get = services.get_events account.id none in
        let (rows, found, rest) = bind-inversion get send w tt h in
        let (events, read, logged) =
          sends rows (get w).1 (sym (ap (λ (x : Outcome String (Unit {0}) × W). x.0) rest) ∙ h) in
        (
          rows,
          events,
          found,
          read,
          ap (λ (x : Outcome String (Unit {0}) × W). log x.1) rest
              ∙ logged
              ∙ ap (λ l. l ++ events)
                  (append-nil (log (get w).1) ∙ logs.read_keeps account.id none w),
        )

    replay_selectively-IsReplay :
        (account : Account D) (w : W)
        → (replay_selectively services account w).0 ≡ ok tt
        → IsReplay account w (replay_selectively services account w).1
    unfolding replay_selectively
    replay_selectively-IsReplay account w =
        replayed account (send_runs services account.id [] 0) w (send_runs-Sends account.id [] 0)

    replay_fully-IsReplay :
        (account : Account D) (w : W)
        → (replay_fully services account w).0 ≡ ok tt
        → IsReplay account w (replay_fully services account w).1
    unfolding replay_fully
    replay_fully-IsReplay account w =
        replayed account (send_each services account.id) w (send_each-Sends account.id)

    IsReplay-unique :
        (account : Account D) (w v v' : W)
        → IsReplay account w v
        → IsReplay account w v'
        → log v ≡ log v'
    IsReplay-unique account w v v' (rows, events, found, read, logged)
          (rows', events', found', read', logged') =
        let same_rows : rows ≡ rows' = ground (arith, found, found') in
        let read'' = ap events_of same_rows ∙ read' in
        let same : events ≡ events' = ground (arith, read, read'') in
        logged ∙ ap (λ es. log w ++ es) same ∙ sym logged'

    -- With a producer that appends what it sends to a log, a selective and a full replay of an
    -- account that both succeed leave the same events in the log, in the same order.
    pub replay_selectively-replay_fully :
        (account : Account D) (w : W)
        → (replay_selectively services account w).0 ≡ ok tt
        → (replay_fully services account w).0 ≡ ok tt
        → log (replay_selectively services account w).1 ≡ log (replay_fully services account w).1
    replay_selectively-replay_fully account w h k =
        IsReplay-unique account w (replay_selectively services account w).1
          (replay_fully services account w).1 (replay_selectively-IsReplay account w h)
          (replay_fully-IsReplay account w k)
