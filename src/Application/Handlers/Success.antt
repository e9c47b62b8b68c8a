-- ===== src/Application/Handlers/Success.antt =====
-- Lemmas on src/application/handlers.rs: when a handler succeeds, and what it leaves when it fails.
use banking_es_feature_redis.Prelude.{
  ◌≡◌, ◌↔◌, refl, none, some, List, [], ◌∷◌, ok, err, arith, Outcome-cases, Option-cases, inl, inr,
}
use banking_es_feature_redis.Decimal.{Decimal}
use banking_es_feature_redis.Domain.{
  Uuid, AccountEvent, AccountCommand, Account, AccountError, not_found, handle_command,
}
use banking_es_feature_redis.Domain.Decide.{Accepts, recorded, handle_command-ok_iff}
use banking_es_feature_redis.Application.Interface.{Repository}
use banking_es_feature_redis.Application.Handlers.{handle_on_account}

module _ {S D : Type 0} ⦃d : Decimal D⦄ (repo : Repository S D) where
  -- A run of a handler that has succeeded: the account that was read, accepted by the rules, and the
  -- save of the one event that records the command.
  pub record Done (i transaction : Uuid) (command : AccountCommand D) (s : S)
      (events : List (AccountEvent D)) : Type 0 where
    pub account : Account D
    pub found : (repo.get_by_id i s).0 ≡ ok (some account)
    pub accepted : Accepts account command
    pub event : events ≡ recorded command transaction ∷ []
    pub saved : (repo.save account events (repo.get_by_id i s).1).0 ≡ ok tt
    pub state :
        (handle_on_account repo i transaction command s).1
        ≡ (repo.save account events (repo.get_by_id i s).1).1

  found_of_ok :
      (i transaction : Uuid) (command : AccountCommand D) (s : S) (events : List (AccountEvent D))
      → (handle_on_account repo i transaction command s).0 ≡ ok events
      → (a : Account D) × ((repo.get_by_id i s).0 ≡ ok (some a))
  unfolding handle_on_account
  found_of_ok i transaction command s events h = elim (Outcome-cases (repo.get_by_id i s).0) [
    | inl (found, e) ↦ elim (Option-cases found) [
      | inl missing ↦ absurd (ground arith)
      | inr (a, f) ↦ (a, ground arith)
    ]
    | inr failed ↦ absurd (ground arith)
  ]

  -- What success of a handler means.
  pub handle_on_account-ok :
      (i transaction : Uuid) (command : AccountCommand D) (s : S) (events : List (AccountEvent D))
      → (handle_on_account repo i transaction command s).0 ≡ ok events
      → Done i transaction command s events
  unfolding handle_on_account
  handle_on_account-ok i transaction command s events h =
      let (a, found) = found_of_ok i transaction command s events h in
      let decided : handle_command a command transaction ≡ ok events = ground arith in
      let (accepted, event) = (handle_command-ok_iff a command transaction events).0 decided in
      record {
        account = a;
        found = found;
        accepted = accepted;
        event = event;
        saved = ground arith;
        state = ground arith;
      }

  -- And what makes it succeed.
  pub ok-handle_on_account :
      (i transaction : Uuid) (command : AccountCommand D) (s : S) (a : Account D)
      → (repo.get_by_id i s).0 ≡ ok (some a)
      → Accepts a command
      → (repo.save a (recorded command transaction ∷ []) (repo.get_by_id i s).1).0 ≡ ok tt
      → (handle_on_account repo i transaction command s).0 ≡ ok (recorded command transaction ∷ [])
  unfolding handle_on_account
  ok-handle_on_account i transaction command s a found accepted saved = ground (
    arith,
    (handle_command-ok_iff a command transaction (recorded command transaction ∷ [])).1
        (accepted, refl),
  )

  -- A handler succeeds with these events exactly if the account is found, the rules `Accepts`
  -- hold of it, the events are the one that records the command, and its save succeeds.
  pub handle_on_account-ok_iff :
      (i transaction : Uuid) (command : AccountCommand D) (s : S) (events : List (AccountEvent D))
      → ((handle_on_account repo i transaction command s).0 ≡ ok events) ↔ (
          (a : Account D) × ((repo.get_by_id i s).0 ≡ ok (some a))
          × Accepts a command
          × (events ≡ recorded command transaction ∷ [])
          × ((repo.save a events (repo.get_by_id i s).1).0 ≡ ok tt))
  handle_on_account-ok_iff i transaction command s events = (
    λ h.
        let done = handle_on_account-ok i transaction command s events h in
        (done.account, done.found, done.accepted, done.event, done.saved),
    λ h.
        let (a, found, accepted, event, saved) = h in
        rw event
          (ok-handle_on_account i transaction command s a found accepted (rw event at saved)),
  )

  -- If there is no such account, the handler returns `NotFound` and leaves the store as the
  -- reading has left it: nothing is saved.
  pub handle_on_account-not_found :
      (i transaction : Uuid) (command : AccountCommand D) (s : S)
      → (repo.get_by_id i s).0 ≡ ok none
      → handle_on_account repo i transaction command s ≡ (err not_found, (repo.get_by_id i s).1)
  unfolding handle_on_account
  handle_on_account-not_found i transaction command s h = ground arith

  -- If the account is found and `handle_command` refuses the command, the handler returns that
  -- error and leaves the store as the reading has left it: nothing is saved.
  pub handle_on_account-refused :
      (i transaction : Uuid) (command : AccountCommand D) (s : S) (a : Account D)
      (e : AccountError D)
      → (repo.get_by_id i s).0 ≡ ok (some a)
      → handle_command a command transaction ≡ err e
      → handle_on_account repo i transaction command s ≡ (err e, (repo.get_by_id i s).1)
  unfolding handle_on_account
  handle_on_account-refused i transaction command s a e found refused = ground arith
