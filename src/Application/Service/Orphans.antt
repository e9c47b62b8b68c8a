-- ===== src/Application/Service/Orphans.antt =====
-- `create_account` of src/application/services.rs: where the event of a created account is saved.
use banking_es_feature_redis.Prelude.{
  ◌≡◌, ◌≢◌, refl, sym, String, lookup, Option-cases, inl, inr, nat_eq,
}
use banking_es_feature_redis.Prelude.Actions.{lift}
use banking_es_feature_redis.Decimal.{Decimal}
use banking_es_feature_redis.Domain.{Uuid, AccountError, default}
use banking_es_feature_redis.EventStore.{Instant}
use banking_es_feature_redis.Projections.{ProjectionStore}
use banking_es_feature_redis.Application.Interface.{Repository, Journalled}
use banking_es_feature_redis.Application.Service.{
  Cache, ServiceState, is_duplicate_command, refuse_duplicate, refusal, create_unchecked,
  create_account_service,
}
use banking_es_feature_redis.Application.Service.Frame.{Frame, Framed, bind-Frame}
use banking_es_feature_redis.Application.Service.Bodies.{create_unchecked-Frame}
use banking_es_feature_redis.Application.Service.Duplicates.{
  is_duplicate_command_repeated, is_duplicate_command-new,
}

module _ {S D : Type 0} ⦃d : Decimal D⦄ (repo : Repository S D) (j : Journalled repo)
    (projections : ProjectionStore S D) (cache : Cache S D) where
  -- The journal of the aggregate is as it was.
  abbrev pub SameJournal : Uuid → ServiceState S → ServiceState S → Type 0
  SameJournal i s t = j.journal s.store i ≡ j.journal t.store i

  -- The check for duplicates has nothing to do with the store.
  pub is_duplicate_command-store :
      (now : Instant) (i k : Uuid)
      → Frame (SameJournal k) (is_duplicate_command {S = S} {E = AccountError D} now i)
  is_duplicate_command-store now i k s = elim (Option-cases (lookup i s.command_cache)) [
    | inl e ↦ rw (is_duplicate_command-new (AccountError D) now i s e) refl
    | inr (at, e) ↦ rw (is_duplicate_command_repeated (AccountError D) now i s (at, e)) refl
  ]

  -- Over a repository that keeps a journal for each aggregate, with projections and a cache that
  -- leave the journal of the new account alone, and where `Account::default()` gets another
  -- identifier, the service's `create_account` leaves the journal of the new account's identifier
  -- as it was, whatever it answers.
  pub create_account-journal :
      (now : Instant) (account_id new_v4 transaction : Uuid) (owner_name : String)
      (initial_balance : D) (s : ServiceState S)
      → account_id ≢ new_v4
      → Framed projections cache (SameJournal account_id)
      → j.journal
          (create_account_service repo projections cache now account_id new_v4 transaction
            owner_name initial_balance s).1.store
          account_id
        ≡ j.journal s.store account_id
  unfolding create_account_service
  create_account-journal now i new_v4 transaction owner initial s other framed =
      let R = SameJournal i in
      sym (
        bind-Frame R framed.order (refuse_duplicate now i "Duplicate create account command")
          (λ _. create_unchecked repo projections cache now i new_v4 transaction owner initial)
          (bind-Frame R framed.order (is_duplicate_command now i)
            (λ b. lift (refusal {D = D} "Duplicate create account command" b))
            (is_duplicate_command-store now i i) (λ b. framed.order.same))
          (λ _.
            create_unchecked-Frame repo projections cache R framed now i new_v4 transaction owner
              initial
              (λ events t.
                sym (j.save_other (default new_v4) events t.store i (unfold default in other)))
              framed.upserts)
          s)
