-- ===== src/Domain/Apply.antt =====
-- Lemmas on src/domain/account.rs: what events do to an account.
use banking_es_feature_redis.Prelude.{
  ℕ, ◌≡◌, refl, ◌∙◌, inl, inr, String, none, some, List, [], ◌∷◌, ◌++◌, arith, length, add64,
  IsWord, ok, Option-cases,
}
use banking_es_feature_redis.Decimal.{Decimal}
use banking_es_feature_redis.Domain.Events.{
  Uuid, AccountEvent, account_created, money_deposited, money_withdrawn, account_closed,
}
use banking_es_feature_redis.Domain.Aggregate.{Account, new, default, apply_event, apply_events}

-- What an event leaves alone, and the version that it counts up.
abbrev pub Extends : {D : Type 0} → Account D → ℕ → Account D → Type 0
Extends a n b = (b.id ≡ a.id) × (b.version ≡ add64 a.version n)

-- The accounts agree on what a creation does not overwrite.
abbrev pub SameStart : {D : Type 0} → Account D → Account D → Type 0
SameStart a b = (a.id ≡ b.id) × (a.version ≡ b.version)

module _ {D : Type 0} ⦃d : Decimal D⦄ where
  pub apply_event-Extends :
      (a b : Account D) (event : AccountEvent D) → apply_event a event ≡ some b → Extends a 1 b
  unfolding apply_event
  apply_event-Extends a b (account_created _ _ _) h = ground arith
  apply_event-Extends a b (money_deposited _ _ _) h = ground arith
  apply_event-Extends a b (money_withdrawn _ _ _) h = ground arith
  apply_event-Extends a b (account_closed _ _) h = ground arith

  apply_events-step :
      (a b : Account D) (event : AccountEvent D) (events : List (AccountEvent D))
      → apply_events a (event ∷ events) ≡ some b
      → (a' : Account D) × (apply_event a event ≡ some a') × (apply_events a' events ≡ some b)
  unfolding apply_events
  apply_events-step a b event events h = elim (Option-cases (apply_event a event)) [
    | inl n ↦ absurd (ground arith)
    | inr (a', e) ↦ (a', e, ground arith)
  ]

  -- If the version of an account is a word and a list of events is applied to it without a panic,
  -- the identifier stays and the version goes up by the number of events, modulo 2^64.
  pub apply_events-Extends :
      (a b : Account D) (events : List (AccountEvent D))
      → IsWord a.version
      → apply_events a events ≡ some b
      → Extends a (length events) b
  unfolding apply_events
  apply_events-Extends a b [] w h = ground arith
  apply_events-Extends a b (event ∷ events) w h =
      let (a', e, rest) = apply_events-step a b event events h in
      let first = apply_event-Extends a a' event e in
      let later = apply_events-Extends a' b events (rw (first.1) (omega arith)) rest in
      (later.0 ∙ first.0, rw (later.1, first.1) (omega arith))

  -- A replay may stop and go on: it is the same to replay two histories in one run.
  pub apply_events-append :
      (a : Account D) (xs ys : List (AccountEvent D))
      → apply_events a (xs ++ ys)
        ≡ elim (apply_events a xs) [ none ↦ none | some b ↦ apply_events b ys ]
  unfolding apply_events
  apply_events-append a [] ys = refl
  apply_events-append a (x ∷ xs) ys = elim (Option-cases (apply_event a x)) [
    | inl n ↦ ground arith
    | inr (a', e) ↦ ground (arith, apply_events-append a' xs ys)
  ]

  -- On two accounts with the same identifier and version, the replays of a history that begins
  -- with a creation are the same.
  pub apply_events-created :
      (a b : Account D) (i : Uuid) (owner : String) (initial : D) (events : List (AccountEvent D))
      → SameStart a b
      → apply_events a (account_created i owner initial ∷ events)
        ≡ apply_events b (account_created i owner initial ∷ events)
  unfolding apply_events apply_event
  apply_events-created a b i owner initial events (same_id, same_version) =
      rw (same_id, same_version)

  -- Where `Account::new` succeeds, the replay of a creation on the default account gives the same
  -- account with version 1.
  pub new-apply_event :
      (i : Uuid) (owner : String) (initial : D) (a : Account D)
      → new i owner initial ≡ ok a
      → apply_event (default i) (account_created i owner initial) ≡ some (record a { version = 1 })
  unfolding new default apply_event
  new-apply_event i owner initial a h = ground arith
