-- ===== src/Projections/Views.antt =====
-- The read model of src/infrastructure/projections.rs against the account of src/domain/account.rs.
use banking_es_feature_redis.Prelude.{
  ◌≡◌, refl, Option, none, some, List, [], ◌∷◌, arith, Option-cases, inl, inr,
}
use banking_es_feature_redis.Decimal.{Decimal}
use banking_es_feature_redis.Domain.{AccountEvent, Account, apply_fields, apply_events}
use banking_es_feature_redis.Domain.{apply_event as apply_to_account}
use banking_es_feature_redis.EventStore.{Instant}
use banking_es_feature_redis.Projections.{AccountProjection, apply_event}

module _ {D : Type 0} ⦃d : Decimal D⦄ where
  -- The account as its projection shows it, with the projection's two times.
  abbrev pub view : (created_at updated_at : Instant) → Account D → AccountProjection D
  view created_at updated_at a = record {
    id = a.id;
    owner_name = a.owner_name;
    balance = a.balance;
    is_active = a.is_active;
    created_at = created_at;
    updated_at = updated_at;
  }

  -- The projection after a list of events.
  abbrev pub project : AccountProjection D → List (AccountEvent D) → Option (AccountProjection D)
  project p [] = some p
  project p (event ∷ events) = elim (apply_event p event) [
    | none ↦ none
    | some p' ↦ project p' events
  ]

  view-apply_event :
      (c u : Instant) (a : Account D) (event : AccountEvent D)
      → apply_event (view c u a) event
        ≡ elim (apply_to_account a event) as (λ _. Option (AccountProjection D)) [
          | none ↦ none
          | some b ↦ some (view c u b)
        ]
  unfolding apply_event apply_to_account apply_fields
  view-apply_event c u a event = ground arith

  -- After any list of events applied to both, the projection of an account shows the account, and
  -- where an amount overflows both panic.
  pub project-view :
      (created_at updated_at : Instant) (a : Account D) (events : List (AccountEvent D))
      → project (view created_at updated_at a) events
        ≡ elim (apply_events a events) as (λ _. Option (AccountProjection D)) [
          | none ↦ none
          | some b ↦ some (view created_at updated_at b)
        ]
  unfolding apply_events
  project-view c u a [] = refl
  project-view c u a (event ∷ events) = elim (Option-cases (apply_to_account a event)) [
    | inl e ↦ rw (project, view-apply_event c u a event, e) refl
    | inr (b, e) ↦ rw (project, view-apply_event c u a event, e) (project-view c u b events)
  ]
