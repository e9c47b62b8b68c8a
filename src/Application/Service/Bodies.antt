-- ===== src/Application/Service/Bodies.antt =====
-- What the commands of src/application/services.rs leave as it was, behind the check for duplicates.
use banking_es_feature_redis.Prelude.{ℕ, String, true, Option, List, [], ◌∷◌, ok, or_panic, ok_or}
use banking_es_feature_redis.Prelude.Actions.{Action, ◌>>=◌, ◌>>◌, lift, map_error}
use banking_es_feature_redis.Decimal.{Decimal}
use banking_es_feature_redis.Domain.{
  Uuid, AccountEvent, AccountCommand, create_account, Account, AccountError, not_found,
  infrastructure_error, default, handle_command, apply_events,
}
use banking_es_feature_redis.EventStore.{Instant}
use banking_es_feature_redis.Projections.{AccountProjection, ProjectionStore}
use banking_es_feature_redis.Application.Interface.{Repository}
use banking_es_feature_redis.Application.Service.{
  Cache, ServiceState, call, count, failed, processed, observed, save_counted,
  update_projections_from_events, create_unchecked, transact_unchecked,
}
use banking_es_feature_redis.Application.Service.Frame.{
  Frame, Framed, bind-Frame, map_error-Frame, on_error-Frame, observed-Frame,
  update_projections-Frame,
}

module _ {S D : Type 0} ⦃d : Decimal D⦄ (repo : Repository S D) (projections : ProjectionStore S D)
    (cache : Cache S D) (R : ServiceState S → ServiceState S → Type 0)
    (framed : Framed projections cache R) where
  save_counted-Frame :
      (a : Account D) (events : List (AccountEvent D))
      → Frame R (call (repo.save a events))
      → Frame R (save_counted repo projections cache a events)
  save_counted-Frame a events saves =
      on_error-Frame R framed.order (λ e. count failed)
        (map_error infrastructure_error (call (repo.save a events))) (λ e. framed.counts failed)
        (map_error-Frame R framed.order {F = AccountError D} infrastructure_error
          (call (repo.save a events)) saves)

  pub transact_unchecked-Frame :
      (now : Instant) (i transaction : Uuid) (new_v4 : ℕ → Uuid) (command : AccountCommand D)
      → Frame R (call (repo.get_by_id i))
      → ((a : Account D) (events : List (AccountEvent D)) → Frame R (call (repo.save a events)))
      → Frame R (transact_unchecked repo projections cache now i transaction new_v4 command)
  unfolding transact_unchecked
  transact_unchecked-Frame now i transaction new_v4 command gets saves =
      let o = framed.order in
      let Step : Type 0 = Action (ServiceState S) (AccountError D) (Unit {0}) in
      let last : List (AccountEvent D) → Step = λ events.
        observed (update_projections_from_events projections cache now new_v4 events)
        >> count processed in
      let saved : Account D → List (AccountEvent D) → Step =
        λ a events. save_counted repo projections cache a events >> last events in
      let applied : Account D → List (AccountEvent D) → Step =
        λ a events. lift (or_panic (apply_events a events)) >>= λ a'. saved a' events in
      let decided : Account D → Step =
        λ a. lift (handle_command a command transaction) >>= applied a in
      let required : Option (Account D) → Step =
        λ found. lift (ok_or not_found found) >>= decided in
      bind-Frame R o (call (repo.get_by_id i)) required gets (λ found.
        bind-Frame R o (lift (ok_or not_found found)) decided framed.order.same (λ a.
          bind-Frame R o (lift (handle_command a command transaction)) (applied a) framed.order.same
            (λ events.
              bind-Frame R o (lift (or_panic (apply_events a events))) (λ a'. saved a' events)
                framed.order.same
                (λ a'.
                  bind-Frame R o (save_counted repo projections cache a' events) (λ _. last events)
                    (save_counted-Frame a' events (saves a' events))
                    (λ _.
                      bind-Frame R o
                        (observed
                          (update_projections_from_events projections cache now new_v4 events))
                        (λ _. count processed)
                        (observed-Frame projections cache R framed (AccountError D) (AccountError D)
                          _ (update_projections-Frame projections cache R framed now new_v4 events))
                        (λ _. framed.counts processed))))))

  pub create_unchecked-Frame :
      (now : Instant) (i new_v4 transaction : Uuid) (owner : String) (initial : D)
      → ((events : List (AccountEvent D)) → Frame R (call (repo.save (default new_v4) events)))
      → ((ps : List (AccountProjection D)) → Frame R (call (projections.upsert_accounts_batch ps)))
      → Frame R (create_unchecked repo projections cache now i new_v4 transaction owner initial)
  unfolding create_unchecked
  create_unchecked-Frame now i new_v4 transaction owner initial saves upserts =
      let o = framed.order in
      let projection : AccountProjection D = record {
        id = i;
        owner_name = owner;
        balance = initial;
        is_active = true;
        created_at = now;
        updated_at = now;
      } in
      let Step : Type 0 = Action (ServiceState S) (AccountError D) Uuid in
      let upsert : Action (ServiceState S) String (Unit {0}) =
        call (projections.upsert_accounts_batch (projection ∷ [])) in
      let counted : Step = count processed >>= λ _. lift (ok i) in
      let last : Step = observed upsert >>= λ _. counted in
      let saved : List (AccountEvent D) → Step =
        λ events. save_counted repo projections cache (default new_v4) events >>= λ _. last in
      bind-Frame R o
        (lift (handle_command (default new_v4) (create_account i owner initial) transaction)) saved
        framed.order.same
        (λ events.
          bind-Frame R o (save_counted repo projections cache (default new_v4) events) (λ _. last)
            (save_counted-Frame (default new_v4) events (saves events))
            (λ _.
              bind-Frame R o (observed upsert) (λ _. counted)
                (observed-Frame projections cache R framed (AccountError D) String upsert
                  (upserts (projection ∷ [])))
                (λ _ s.
                  framed.order.trans s _ _ (framed.counts processed s) (framed.order.same _))))
