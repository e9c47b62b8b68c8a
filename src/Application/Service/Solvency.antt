-- ===== src/Application/Service/Solvency.antt =====
-- src/application/services.rs: no request to the service brings an account into debt.
use banking_es_feature_redis.Prelude.{
  ℕ, ◌≡◌, refl, sym, String, Option, none, some, List, Outcome, ok, err, panic, or_panic, ok_or,
  IsWord, add64-IsWord, arith,
}
use banking_es_feature_redis.Prelude.Actions.{Action, ◌>>=◌, ◌>>◌, lift, map_error}
use banking_es_feature_redis.Decimal.{Decimal}
use banking_es_feature_redis.Domain.{
  Uuid, AccountEvent, AccountCommand, Account, AccountError, not_found, infrastructure_error,
  default, handle_command, apply_events,
}
use banking_es_feature_redis.Domain.Apply.{apply_events-Extends}
use banking_es_feature_redis.EventStore.{Instant}
use banking_es_feature_redis.Projections.{ProjectionStore}
use banking_es_feature_redis.Application.Interface.{Repository, Journalled, blank}
use banking_es_feature_redis.Application.Handlers.Solvent.{
  AllSolvent, save-AllSolvent, read-AllSolvent, extended-IsSolvent,
}
use banking_es_feature_redis.Application.Service.{
  Cache, ServiceState, call, count, failed, processed, on_error, observed, save_counted,
  update_projections_from_events, transact_unchecked,
}
use banking_es_feature_redis.Application.Service.Frame.{
  Framed, observed-Frame, update_projections-Frame,
}

-- What holds behind a chain: it holds behind the first call, and behind the rest wherever that
-- succeeds.
pub bind-after :
    {T E A B : Type 0} (Q : T → Type 0) (m : Action T E A) (f : A → Action T E B) (s : T)
    → Q (m s).1
    → ((a : A) → (m s).0 ≡ ok a → Q (f a (m s).1).1)
    → Q ((m >>= f) s).1
bind-after {T} {E} {A} {B} Q m f s first rest = go (m s).0 refl
  where
    go : (r : Outcome E A) → (m s).0 ≡ r → Q (((λ (_ : T). (r, (m s).1)) >>= f) s).1
    go (ok a) e = rest a e
    go (err x) e = first
    go panic e = first

-- A found account, and an account behind its events, by the outcomes that carry on.
found-some :
    {E A : Type 0} {m : Outcome E (Option A)} {found : Option A} (missing : E) {a : A}
    → m ≡ ok found
    → ok_or missing found ≡ ok a
    → m ≡ ok (some a)
found-some {found = none} missing e h = cc
found-some {found = some b} missing e h = cc

applied-some : {E A : Type 0} {o : Option A} {a : A} → or_panic {E = E} o ≡ ok a → o ≡ some a
applied-some {o = none} h = cc
applied-some {o = some b} h = cc

module _ {S D : Type 0} ⦃d : Decimal D⦄ (repo : Repository S D) (projections : ProjectionStore S D)
    (cache : Cache S D) where
  -- The store behind the save, whether it is counted as failed or not.
  pub save_counted-store :
      (a : Account D) (events : List (AccountEvent D)) (s : ServiceState S)
      → (save_counted repo projections cache a events s).1.store ≡ (repo.save a events s.store).1
  save_counted-store a events s = go (repo.save a events s.store).0
    where
      go :
          (r : Outcome String (Unit {0}))
          → (on_error
              (λ e. count failed)
              (map_error {F = AccountError D} infrastructure_error
                (λ (_ : ServiceState S). (r, record s { store = (repo.save a events s.store).1 })))
              s).1.store
            ≡ (repo.save a events s.store).1
      go (ok tt) = refl
      go (err e) = refl
      go panic = refl

module _ {S D : Type 0} ⦃d : Decimal D⦄ (repo : Repository S D) (j : Journalled repo)
    (projections : ProjectionStore S D) (cache : Cache S D) where
  -- All journals are as they were.
  abbrev pub SameJournals : ServiceState S → ServiceState S → Type 0
  SameJournals s t = (i : Uuid) → j.journal s.store i ≡ j.journal t.store i

  -- No account of the service's store is in debt.
  abbrev pub Solvent : ServiceState S → Type 0
  Solvent s = AllSolvent repo j s.store

  pub SameJournals-Solvent : (s t : ServiceState S) → SameJournals s t → Solvent s → Solvent t
  SameJournals-Solvent s t same all i a e = all i a (rw (sym (same i)) at e)

  module _ (framed : Framed projections cache SameJournals) where
    -- What follows the save of a transaction.
    transacted-Solvent :
        (now : Instant) (new_v4 : ℕ → Uuid) (events : List (AccountEvent D)) (s : ServiceState S)
        → Solvent s
        → Solvent
            ((observed (update_projections_from_events projections cache now new_v4 events)
                >> count {E = AccountError D} processed)
              s).1
    transacted-Solvent now new_v4 events s all =
        let update = update_projections_from_events projections cache now new_v4 events in
        let action : Action (ServiceState S) (AccountError D) (Unit {0}) = observed update in
        let same =
          observed-Frame projections cache SameJournals framed (AccountError D) (AccountError D)
            update
            (update_projections-Frame projections cache SameJournals framed now new_v4 events) s in
        let behind = SameJournals-Solvent s (action s).1 same all in
        bind-after Solvent action (λ _. count processed) s behind (λ _ _. behind)

    -- The account that is saved after a replay from the journal, and the events of its command.
    saved-Solvent :
        (i u : Uuid) (command : AccountCommand D) (a a' : Account D)
        (events : List (AccountEvent D)) (s : S)
        → AllSolvent repo j s
        → (repo.get_by_id i s).0 ≡ ok (some a)
        → handle_command a command u ≡ ok events
        → apply_events a events ≡ some a'
        → AllSolvent repo j (repo.save a' events (repo.get_by_id i s).1).1
    saved-Solvent i u command a a' events s all found decided applied =
        let replayed = j.get_some i s a found in
        let first =
          apply_events-Extends (blank i) a (j.journal s i) (unfold default in omega arith)
            replayed in
        let word : IsWord a.version = rw (first.1) (add64-IsWord _ _) in
        let same_id = (apply_events-Extends a a' events word applied).0 in
        save-AllSolvent repo j a' events (repo.get_by_id i s).1 (read-AllSolvent repo j i s all)
          (λ b e.
            extended-IsSolvent repo j i s a b command u events all found decided (rw same_id at e))

    pub transact_unchecked-Solvent :
        (now : Instant) (i u : Uuid) (new_v4 : ℕ → Uuid) (command : AccountCommand D)
        (s : ServiceState S)
        → Solvent s
        → Solvent (transact_unchecked repo projections cache now i u new_v4 command s).1
    unfolding transact_unchecked
    transact_unchecked-Solvent now i u new_v4 command s all =
        let Step : Type 0 = Action (ServiceState S) (AccountError D) (Unit {0}) in
        let last : List (AccountEvent D) → Step = λ events.
          observed (update_projections_from_events projections cache now new_v4 events)
          >> count processed in
        let saved : Account D → List (AccountEvent D) → Step =
          λ a events. save_counted repo projections cache a events >> last events in
        let applied : Account D → List (AccountEvent D) → Step =
          λ a events. lift (or_panic (apply_events a events)) >>= λ a'. saved a' events in
        let decided : Account D → Step = λ a. lift (handle_command a command u) >>= applied a in
        let required : Option (Account D) → Step =
          λ found. lift (ok_or not_found found) >>= decided in
        let read = read-AllSolvent repo j i s.store all in
        let t : ServiceState S = record s { store = (repo.get_by_id i s.store).1 } in
        bind-after Solvent (call (repo.get_by_id i)) required s read (λ found e.
          bind-after Solvent (lift (ok_or not_found found)) decided t read (λ a is_found.
            bind-after Solvent (lift (handle_command a command u)) (applied a) t read
              (λ events decides.
                bind-after Solvent (lift (or_panic (apply_events a events))) (λ a'. saved a' events)
                  t read
                  (λ a' applies.
                    let kept =
                      saved-Solvent i u command a a' events s.store all
                        (found-some not_found e is_found) decides (applied-some applies) in
                    let behind : Solvent (save_counted repo projections cache a' events t).1 =
                      rw (save_counted-store repo projections cache a' events t) kept in
                    bind-after Solvent (save_counted repo projections cache a' events)
                      (λ _. last events) t behind
                      (λ _ _. transacted-Solvent now new_v4 events _ behind)))))
