-- ===== src/Application/Service/SolventRuns.antt =====
-- Runs of requests to src/application/services.rs: no account comes into debt.
use banking_es_feature_redis.Prelude.{ℕ, ◌≡◌, refl, ◌∙◌, String, true, List, [], ◌∷◌, ok}
use banking_es_feature_redis.Prelude.Actions.{Action, ◌>>=◌, lift}
use banking_es_feature_redis.Decimal.{Decimal}
use banking_es_feature_redis.Domain.{
  Uuid, AccountEvent, AccountCommand, create_account, AccountError, default, handle_command,
}
use banking_es_feature_redis.Domain.Decide.{handle_command-ok_iff}
use banking_es_feature_redis.EventStore.{Instant}
use banking_es_feature_redis.Projections.{AccountProjection, ProjectionStore}
use banking_es_feature_redis.Application.Interface.{Repository, Journalled, blank}
use banking_es_feature_redis.Application.Handlers.Solvent.{
  save-AllSolvent, created_behind-IsSolvent,
}
use banking_es_feature_redis.Application.Service.{
  Cache, ServiceState, call, count, processed, observed, refuse_duplicate, save_counted,
  create_unchecked, create_account_service, transact_unchecked, transact, deposit_money_service,
  withdraw_money_service,
}
use banking_es_feature_redis.Application.Service.Frame.{Framed, observed-Frame}
use banking_es_feature_redis.Application.Service.Orphans.{is_duplicate_command-store}
use banking_es_feature_redis.Application.Service.Requests.{
  Request, create, deposit, withdraw, perform, perform_all, drop-state,
}
use banking_es_feature_redis.Application.Service.{is_duplicate_command, refusal}
use banking_es_feature_redis.Application.Service.Frame.{bind-Frame}
use banking_es_feature_redis.Application.Service.Solvency.{
  bind-after, save_counted-store, SameJournals, Solvent, SameJournals-Solvent,
  transact_unchecked-Solvent,
}

module _ {S D : Type 0} ⦃d : Decimal D⦄ (repo : Repository S D) (j : Journalled repo)
    (projections : ProjectionStore S D) (cache : Cache S D)
    (framed : Framed projections cache (SameJournals repo j projections cache)) where
  create_unchecked-Solvent :
      (now : Instant) (i new_v4 u : Uuid) (owner : String) (initial : D) (s : ServiceState S)
      → Solvent repo j projections cache s
      → Solvent repo j projections cache
          (create_unchecked repo projections cache now i new_v4 u owner initial s).1
  unfolding create_unchecked default
  create_unchecked-Solvent now i new_v4 u owner initial s all =
      let Q = Solvent repo j projections cache in
      let command = create_account i owner initial in
      let projection : AccountProjection D = record {
        id = i;
        owner_name = owner;
        balance = initial;
        is_active = true;
        created_at = now;
        updated_at = now;
      } in
      let Step : Type 0 = Action (ServiceState S) (AccountError D) Uuid in
      let upsert : Action (ServiceState S) String (Unit {0}) =
        call (projections.upsert_accounts_batch (projection ∷ [])) in
      let shown : Action (ServiceState S) (AccountError D) (Unit {0}) = observed upsert in
      let counted : Step = count processed >>= λ _. lift (ok i) in
      let last : Step = shown >>= λ _. counted in
      let saved : List (AccountEvent D) → Step =
        λ events. save_counted repo projections cache (default new_v4) events >>= λ _. last in
      bind-after Q (lift (handle_command (default new_v4) command u)) saved s all (λ events decides.
        let (accepted, event) =
          (handle_command-ok_iff (default new_v4) command u events).0 decides in
        let kept = save-AllSolvent repo j (default new_v4) events s.store all (λ b e.
          created_behind-IsSolvent repo j (j.journal s.store new_v4) (blank new_v4) b i owner
            initial accepted (rw event at e)) in
        let t = (save_counted repo projections cache (default new_v4) events s).1 in
        let behind : Q t =
          rw (save_counted-store repo projections cache (default new_v4) events s) kept in
        bind-after Q (save_counted repo projections cache (default new_v4) events) (λ _. last) s
          behind
          (λ _ _.
            let same =
              observed-Frame projections cache (SameJournals repo j projections cache) framed
                (AccountError D) String upsert (framed.upserts (projection ∷ [])) t in
            let after = SameJournals-Solvent repo j projections cache t (shown t).1 same behind in
            bind-after Q shown (λ _. counted) t after (λ _ _. after)))

  refused-Solvent :
      (now : Instant) (i : Uuid) (message : String) (s : ServiceState S)
      → Solvent repo j projections cache s
      → Solvent repo j projections cache (refuse_duplicate {D = D} now i message s).1
  refused-Solvent now i message s all =
      SameJournals-Solvent repo j projections cache s (refuse_duplicate {D = D} now i message s).1
        (λ k.
          bind-Frame (λ s t. j.journal s.store k ≡ j.journal t.store k)
            (record { same = λ s. refl; trans = λ s t u p q. p ∙ q }) (is_duplicate_command now i)
            (λ b. lift (refusal {D = D} message b))
            (is_duplicate_command-store repo j projections cache now i k) (λ b t. refl) s)
        all

  transact-Solvent :
      (now : Instant) (i u : Uuid) (new_v4 : ℕ → Uuid) (message : String)
      (command : AccountCommand D) (s : ServiceState S)
      → Solvent repo j projections cache s
      → Solvent repo j projections cache
          (transact repo projections cache now i u new_v4 message command s).1
  unfolding transact
  transact-Solvent now i u new_v4 message command s all =
      let behind = refused-Solvent now i message s all in
      bind-after (Solvent repo j projections cache) (refuse_duplicate now i message)
        (λ _. transact_unchecked repo projections cache now i u new_v4 command) s behind
        (λ _ _.
          transact_unchecked-Solvent repo j projections cache framed now i u new_v4 command _
            behind)

  perform-Solvent :
      (request : Request D) (s : ServiceState S)
      → Solvent repo j projections cache s
      → Solvent repo j projections cache (perform repo projections cache request s).1
  unfolding perform create_account_service deposit_money_service withdraw_money_service transact
  perform-Solvent (create now i new_v4 u owner initial) s all =
      let message : String = "Duplicate create account command" in
      let behind = refused-Solvent now i message s all in
      rw (drop-state (create_account_service repo projections cache now i new_v4 u owner initial) s)
        (bind-after (Solvent repo j projections cache) (refuse_duplicate now i message)
          (λ _. create_unchecked repo projections cache now i new_v4 u owner initial) s behind
          (λ _ _. create_unchecked-Solvent now i new_v4 u owner initial _ behind))
  perform-Solvent (deposit now i u new_v4 amount) s all = transact-Solvent now i u new_v4 _ _ s all
  perform-Solvent (withdraw now i u new_v4 amount) s all = transact-Solvent now i u new_v4 _ _ s all

  -- Over a repository that keeps a journal for each aggregate, with projections and a cache that
  -- leave all journals alone: if every journal replays to an account with no negative balance,
  -- that is still so after any requests to the service, whatever it answers.
  pub perform_all-Solvent :
      (requests : List (Request D)) (s : ServiceState S)
      → Solvent repo j projections cache s
      → Solvent repo j projections cache (perform_all repo projections cache requests s)
  unfolding perform_all
  perform_all-Solvent [] s all = all
  perform_all-Solvent (request ∷ requests) s all =
      perform_all-Solvent requests (perform repo projections cache request s).1
        (perform-Solvent request s all)
