-- ===== src/Application/Handlers/Solvent.antt =====
-- Lemmas on src/application/handlers.rs: no handler brings an account into debt.
use banking_es_feature_redis.Prelude.{
  ◌≡◌, ◌⊎◌, String, false, some, List, [], ◌∷◌, ◌++◌, ok, arith, Outcome-cases, Option-cases, inl,
  inr, eqb, Bool-cases, eqb→eq,
}
use banking_es_feature_redis.Decimal.{Decimal}
use banking_es_feature_redis.Domain.{
  Uuid, AccountEvent, account_created, AccountCommand, create_account, Account, apply_event,
  apply_events, default, handle_command,
}
use banking_es_feature_redis.Domain.Apply.{apply_events-append, apply_events-Extends}
use banking_es_feature_redis.Domain.Decide.{
  IsSolvent, handle_command-IsSolvent, handle_command-ok_iff,
}
use banking_es_feature_redis.Application.Interface.{Repository, Journalled, blank}
use banking_es_feature_redis.Application.Handlers.{handle_on_account, handle_create_account}

module _ {S D : Type 0} ⦃d : Decimal D⦄ (repo : Repository S D) (j : Journalled repo) where
  -- Every account that a journal replays to has a balance that is not negative.
  abbrev pub AllSolvent : S → Type 0
  AllSolvent s =
      (i : Uuid) (a : Account D) → apply_events (blank i) (j.journal s i) ≡ some a → IsSolvent a

  -- A save keeps it if its events, behind the journal of their aggregate, do not lead into debt.
  pub save-AllSolvent :
      (a : Account D) (events : List (AccountEvent D)) (s : S)
      → AllSolvent s
      → ((b : Account D)
          → apply_events (blank a.id) (j.journal s a.id ++ events) ≡ some b
          → IsSolvent b)
      → AllSolvent (repo.save a events s).1
  save-AllSolvent a events s all safe i b e = elim (Outcome-cases (repo.save a events s).0) [
    | inl (_, saved) ↦ elim (Bool-cases (eqb i a.id)) [
      | inl same ↦
          let here = eqb→eq i a.id same in safe b (rw (← j.save_ok a events s saved) (rw here at e))
      | inr other ↦ all i b (rw (j.save_other a events s i (ground arith)) at e)
    ]
    | inr failed ↦ all i b (rw (j.save_err a events s i (ground arith)) at e)
  ]

  pub read-AllSolvent : (i : Uuid) (s : S) → AllSolvent s → AllSolvent (repo.get_by_id i s).1
  read-AllSolvent i s all k a e = all k a (rw (j.get_same i k s) at e)

  -- The events that a command adds to the journal that its account was read from.
  pub extended-IsSolvent :
      (i : Uuid) (s : S) (a b : Account D) (command : AccountCommand D) (u : Uuid)
      (events : List (AccountEvent D))
      → AllSolvent s
      → (repo.get_by_id i s).0 ≡ ok (some a)
      → handle_command a command u ≡ ok events
      → apply_events (blank a.id) (j.journal (repo.get_by_id i s).1 a.id ++ events) ≡ some b
      → IsSolvent b
  extended-IsSolvent i s a b command u events all found decided e =
      let replayed = j.get_some i s a found in
      let same_id : a.id ≡ i =
        (apply_events-Extends (blank i) a (j.journal s i) (unfold default in omega arith)
          replayed).0 in
      let e' : apply_events (blank i) (j.journal s i ++ events) ≡ some b =
        rw (j.get_same i a.id s, same_id) at e in
      handle_command-IsSolvent a b command u events (all i a replayed) decided
        (rw (apply_events-append (blank i) (j.journal s i) events, replayed) at e')

  -- A run of a handler saves at most once: what a command of the account decides.
  run_states :
      (i u : Uuid) (command : AccountCommand D) (s : S)
      → ((handle_on_account repo i u command s).1 ≡ (repo.get_by_id i s).1)
        ⊎ ((a : Account D) × (events : List (AccountEvent D)) × ((repo.get_by_id i s).0
              ≡ ok (some a))
            × (handle_command a command u ≡ ok events)
            × ((handle_on_account repo i u command s).1
                ≡ (repo.save a events (repo.get_by_id i s).1).1))
  unfolding handle_on_account
  run_states i u command s = elim (Outcome-cases (repo.get_by_id i s).0) [
    | inl (found, e) ↦ elim (Option-cases found) [
      | inl missing ↦ inl (ground arith)
      | inr (a, f) ↦ elim (Outcome-cases (handle_command a command u)) [
        | inl (events, decided) ↦ inr (a, events, ground arith, decided, ground arith)
        | inr refused ↦ inl (ground arith)
      ]
    ]
    | inr failed ↦ inl (ground arith)
  ]

  -- Over a repository that keeps a journal for each aggregate: if every journal replays to an
  -- account with no negative balance, that is still so after a deposit, a withdrawal or a
  -- closing, whether it succeeds or fails.
  pub handle_on_account-AllSolvent :
      (i u : Uuid) (command : AccountCommand D) (s : S)
      → AllSolvent s
      → AllSolvent (handle_on_account repo i u command s).1
  handle_on_account-AllSolvent i u command s all = elim (run_states i u command s) [
    | inl read ↦ rw read (read-AllSolvent i s all)
    | inr (a, events, found, decided, saved) ↦ rw saved (
        save-AllSolvent a events (repo.get_by_id i s).1 (read-AllSolvent i s all)
          (λ b e. extended-IsSolvent i s a b command u events all found decided e))
  ]

  -- The account that the creation of an account saves its event under.
  abbrev before_creation : Uuid → Account D
  before_creation i = record {
    id = i;
    owner_name = "";
    balance = d.zero;
    is_active = false;
    version = 0;
  }

  create_states :
      (i new_v4 u : Uuid) (owner : String) (initial : D) (s : S)
      → ((handle_create_account repo i new_v4 u owner initial s).1 ≡ s)
        ⊎ ((events : List (AccountEvent D)) × (handle_command
                (default new_v4)
                (create_account i owner initial)
                u
              ≡ ok events)
            × ((handle_create_account repo i new_v4 u owner initial s).1
                ≡ (repo.save (before_creation i) events s).1))
  unfolding handle_create_account
  create_states i new_v4 u owner initial s =
      elim (Outcome-cases (handle_command (default new_v4) (create_account i owner initial) u)) [
        | inl (events, decided) ↦ inr (events, decided, ground arith)
        | inr refused ↦ inl (ground arith)
      ]

  created-IsSolvent :
      (x b : Account D) (i : Uuid) (owner : String) (initial : D)
      → d.lt initial d.zero ≡ false
      → apply_events x (account_created i owner initial ∷ []) ≡ some b
      → IsSolvent b
  unfolding apply_events apply_event
  created-IsSolvent x b i owner initial h e = ground arith

  pub created_behind-IsSolvent :
      (history : List (AccountEvent D)) (x b : Account D) (i : Uuid) (owner : String) (initial : D)
      → d.lt initial d.zero ≡ false
      → apply_events x (history ++ account_created i owner initial ∷ []) ≡ some b
      → IsSolvent b
  created_behind-IsSolvent history x b i owner initial h e =
      let split = apply_events-append x history (account_created i owner initial ∷ []) in
      elim (Option-cases (apply_events x history)) [
        | inl n ↦ absurd (ground arith)
        | inr (y, f) ↦ created-IsSolvent y b i owner initial h (ground arith)
      ]

  -- Over a repository that keeps a journal for each aggregate: if every journal replays to an
  -- account with no negative balance, that is still so after `handle_create_account`, whether it
  -- succeeds or fails.
  pub handle_create_account-AllSolvent :
      (account_id new_v4 u : Uuid) (owner_name : String) (initial_balance : D) (s : S)
      → AllSolvent s
      → AllSolvent (handle_create_account repo account_id new_v4 u owner_name initial_balance s).1
  handle_create_account-AllSolvent i new_v4 u owner initial s all =
      elim (create_states i new_v4 u owner initial s) [
        | inl same ↦ rw same all
        | inr (events, decided, saved) ↦
            let command = create_account i owner initial in
            let (accepted, event) =
              (handle_command-ok_iff (default new_v4) command u events).0 decided in
            rw saved (
              save-AllSolvent (before_creation i) events s all (λ b e.
                created_behind-IsSolvent (j.journal s i) (blank i) b i owner initial accepted
                  (rw event at e)))
      ]
