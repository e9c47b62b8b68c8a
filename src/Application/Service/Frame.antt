-- ===== src/Application/Service/Frame.antt =====
-- What the calls of src/application/services.rs to the projections and the cache leave as it was, by
-- any relation between the states before and after.
use banking_es_feature_redis.Prelude.{
  ℕ, suc, Option, none, some, List, [], ◌∷◌, Outcome, ok, err, panic,
}
use banking_es_feature_redis.Prelude.Actions.{Action, ◌>>=◌, ◌>>◌, map_error}
use banking_es_feature_redis.Decimal.{Decimal}
use banking_es_feature_redis.Domain.{
  Uuid, AccountEvent, Account, AccountError, infrastructure_error, aggregate_id,
}
use banking_es_feature_redis.EventStore.{Instant}
use banking_es_feature_redis.Projections.{AccountProjection, TransactionProjection, ProjectionStore}
use banking_es_feature_redis.Application.Service.{
  ServiceMetrics, Cache, ServiceState, call, count, updated, not_updated, observed, on_error,
  insert_transaction, cache_projection, refresh_cache, update_projections_from_events,
  into_transaction,
}

-- A relation that relates every state to itself and to what is reached in two steps.
pub record Preorder {T : Type 0} (R : T → T → Type 0) : Type 0 where
  pub same : (s : T) → R s s
  pub trans : (s t u : T) → R s t → R t u → R s u

-- Every run of the action is related by it.
abbrev pub Frame : {T E A : Type 0} (R : T → T → Type 0) → Action T E A → Type 0
Frame {T} R m = (s : T) → R s (m s).1

module _ {T : Type 0} (R : T → T → Type 0) (p : Preorder R) where
  pub bind-Frame :
      {E A B : Type 0} (m : Action T E A) (f : A → Action T E B)
      → Frame R m
      → ((a : A) → Frame R (f a))
      → Frame R (m >>= f)
  bind-Frame {E} {A} {B} m f h k s = go (m s).0 (m s).1 (h s)
    where
      go : (r : Outcome E A) (t : T) → R s t → R s (((λ _. (r, t)) >>= f) s).1
      go (ok a) t related = p.trans s t _ related (k a t)
      go (err e) t related = related
      go panic t related = related

  pub map_error-Frame :
      {E F A : Type 0} (g : E → F) (m : Action T E A) → Frame R m → Frame R (map_error g m)
  map_error-Frame {E} {F} {A} g m h s = go (m s).0 (m s).1 (h s)
    where
      go : (r : Outcome E A) (t : T) → R s t → R s (map_error g (λ _. (r, t)) s).1
      go (ok a) t related = related
      go (err e) t related = related
      go panic t related = related

  pub on_error-Frame :
      {E A : Type 0} (handler : E → Action T E (Unit {0})) (m : Action T E A)
      → ((e : E) → Frame R (handler e))
      → Frame R m
      → Frame R (on_error handler m)
  on_error-Frame {E} {A} handler m k h s = go (m s).0 (m s).1 (h s)
    where
      go : (r : Outcome E A) (t : T) → R s t → R s (on_error handler (λ _. (r, t)) s).1
      go (ok a) t related = related
      go (err e) t related = p.trans s t _ related (k e t)
      go panic t related = related

-- A relation on the service's states that neither a count nor a call of the projections or the cache
-- breaks.
pub record Framed {S D : Type 0} (projections : ProjectionStore S D) (cache : Cache S D)
    (R : ServiceState S → ServiceState S → Type 0) : Type 0 where
  pub order : Preorder R
  pub counts :
      (f : ServiceMetrics → ServiceMetrics) (s : ServiceState S)
      → R s (record s { metrics = f s.metrics })
  pub inserts :
      (ts : List (TransactionProjection D))
      → Frame R (call (projections.insert_transactions_batch ts))
  pub upserts :
      (ps : List (AccountProjection D)) → Frame R (call (projections.upsert_accounts_batch ps))
  pub reads : (i : Uuid) → Frame R (call (projections.get_account i))
  pub sets : (a : Account D) → Frame R (call (cache.set_account a))

module _ {S D : Type 0} ⦃d : Decimal D⦄ (projections : ProjectionStore S D) (cache : Cache S D)
    (R : ServiceState S → ServiceState S → Type 0) (framed : Framed projections cache R) where
  pub observed-Frame :
      (E F : Type 0) (m : Action (ServiceState S) F (Unit {0}))
      → Frame R m
      → Frame R (observed {E = E} m)
  observed-Frame E F m h s = go (m s).0 (m s).1 (h s)
    where
      go :
          (r : Outcome F (Unit {0})) (t : ServiceState S)
          → R s t
          → R s (observed {E = E} (λ _. (r, t)) s).1
      go (ok tt) t related = framed.order.trans s t _ related (framed.counts updated t)
      go (err e) t related = framed.order.trans s t _ related (framed.counts not_updated t)
      go panic t related = related

  cache_projection-Frame :
      (found : Option (AccountProjection D)) → Frame R (cache_projection projections cache found)
  cache_projection-Frame none = framed.order.same
  cache_projection-Frame (some q) =
      map_error-Frame R framed.order {F = AccountError D} infrastructure_error
        (call (cache.set_account _)) (framed.sets _)

  refresh_cache-Frame : (i : Uuid) → Frame R (refresh_cache projections cache i)
  refresh_cache-Frame i =
      bind-Frame R framed.order {E = AccountError D}
        (map_error infrastructure_error (call (projections.get_account i)))
        (cache_projection projections cache)
        (map_error-Frame R framed.order {F = AccountError D} infrastructure_error
          (call (projections.get_account i)) (framed.reads i))
        cache_projection-Frame

  insert_transaction-Frame :
      (now : Instant) (new_v4 : Uuid) (event : AccountEvent D)
      → Frame R (insert_transaction projections cache now new_v4 event)
  insert_transaction-Frame now new_v4 event =
      let ts = into_transaction now new_v4 event ∷ [] in
      let insert : Action (ServiceState S) (AccountError D) (Unit {0}) =
        map_error infrastructure_error (call (projections.insert_transactions_batch ts)) in
      bind-Frame R framed.order (on_error (λ e. count not_updated) insert) (λ _. count updated)
        (on_error-Frame R framed.order (λ e. count not_updated) insert
          (λ e. framed.counts not_updated)
          (map_error-Frame R framed.order {F = AccountError D} infrastructure_error
            (call (projections.insert_transactions_batch ts)) (framed.inserts ts)))
        (λ _. framed.counts updated)

  pub update_projections-Frame :
      (now : Instant) (new_v4 : ℕ → Uuid) (events : List (AccountEvent D))
      → Frame R (update_projections_from_events projections cache now new_v4 events)
  unfolding update_projections_from_events
  update_projections-Frame now new_v4 [] = framed.order.same
  update_projections-Frame now new_v4 (event ∷ events) =
      let rest =
        update_projections_from_events projections cache now (λ n. new_v4 (suc n)) events in
      bind-Frame R framed.order (insert_transaction projections cache now (new_v4 0) event)
        (λ _. refresh_cache projections cache (aggregate_id event) >> rest)
        (insert_transaction-Frame now (new_v4 0) event)
        (λ _.
          bind-Frame R framed.order (refresh_cache projections cache (aggregate_id event))
            (λ _. rest) (refresh_cache-Frame (aggregate_id event))
            (λ _. update_projections-Frame now (λ n. new_v4 (suc n)) events))
