-- ===== src/Kafka/Recovery/Flag.antt =====
-- src/infrastructure/kafka_recovery.rs: when a recovery can start.
use banking_es_feature_redis.Prelude.{
  String, ◌≡◌, refl, ap, ◌∙◌, Bool, true, false, not, none, List, [], ◌∷◌, ◌++◌, Outcome, ok, err,
  panic, Bool-cases, inl, inr, All,
}
use banking_es_feature_redis.Prelude.Actions.{Action, ◌>>=◌, ◌>>◌, lift}
use banking_es_feature_redis.Prelude.Invariants.{Keeps, Keeps-bind, keeps_rules}
use banking_es_feature_redis.Decimal.{Decimal}
use banking_es_feature_redis.Domain.{Uuid, Account, AccountEvent}
use banking_es_feature_redis.EventStore.{Instant, Serde}
use banking_es_feature_redis.Projections.{AccountProjection}
use banking_es_feature_redis.Kafka.Recovery.{
  Services, KafkaRecovery, on_world, set_state, recovered, verify, reconstruct, recover_account,
  recover_accounts, perform_recovery, begin, finish, start_recovery, trait_start_recovery,
}

abbrev pub is_ok : {E A : Type 0} → Outcome E A → Bool
is_ok (ok _) = true
is_ok (err _) = false
is_ok panic = false

module _ {W : Type 0} where
  abbrev pub IsRecovering : KafkaRecovery W → Type 0
  IsRecovering r = r.recovery_state.is_recovering ≡ true

-- A property of the recovery's state that the list of accounts and the services do not touch.
pub record IsSteady {W : Type 0} (P : KafkaRecovery W → Type 0) : Type 0 where
  pub world_kept : (r : KafkaRecovery W) (world : W) → P r → P (record r { world = world })
  pub accounts_kept :
      (r : KafkaRecovery W) (accounts : List Uuid)
      → P r
      → P (record r {
        recovery_state = record r.recovery_state { accounts_in_recovery = accounts };
      })

module _ {W D Json : Type 0} ⦃d : Decimal D⦄ ⦃s : Serde (AccountEvent D) Json⦄
    (services : Services W D Json) {P : KafkaRecovery W → Type 0} (steady : IsSteady P) where
  Keeps-on_world :
      {E A : Type 0} (action : Action W E A) → Keeps P (on_world {E = E} {A = A} action)
  Keeps-on_world action = record { at = λ r h. steady.world_kept r (action r.world).1 h }

  Keeps-recovered : (account : Account D) → Keeps P (recovered services account)
  Keeps-recovered account = record { at = λ r h. steady.accounts_kept r _ h }

  Keeps-verify : (account : Account D) → Keeps P (verify services account)
  Keeps-verify account = search (keeps_rules, Keeps-on_world, Keeps-recovered) depth 9

  Keeps-recover_account :
      (projection : AccountProjection D) → Keeps P (recover_account services projection)
  unfolding recover_account
  Keeps-recover_account projection =
      Keeps-bind
        (set_state
          (λ t. record t { accounts_in_recovery = t.accounts_in_recovery ++ projection.id ∷ [] }))
        (λ _. on_world (services.get_events projection.id none) >>= λ events.
          lift (reconstruct services projection.id events) >>= verify services)
        (record { at = λ r h. steady.accounts_kept r _ h })
        (λ _. search (keeps_rules, Keeps-on_world, Keeps-verify))

  Keeps-recover_accounts :
      (projections : List (AccountProjection D)) → Keeps P (recover_accounts services projections)
  unfolding recover_accounts
  Keeps-recover_accounts [] = search (keeps_rules)
  Keeps-recover_accounts (projection ∷ projections) =
      Keeps-bind (recover_account services projection) (λ _. recover_accounts services projections)
        (Keeps-recover_account projection) (λ _. Keeps-recover_accounts projections)

  pub Keeps-perform_recovery : Keeps P (perform_recovery services)
  unfolding perform_recovery
  Keeps-perform_recovery = search (keeps_rules, Keeps-on_world, Keeps-recover_accounts)

-- A call of `start_recovery`, of the struct or of the trait.
pub data Start : Type 0 where
  own : Instant → Start
  by_trait : Instant → Start

module _ {W D Json : Type 0} ⦃d : Decimal D⦄ ⦃s : Serde (AccountEvent D) Json⦄
    (services : Services W D Json) where
  unfoldable pub start : Start → Action (KafkaRecovery W) String (Unit {0})
  unfolding start_recovery trait_start_recovery
  start (own now) = start_recovery services now
  start (by_trait now) = trait_start_recovery services now

  unfoldable pub start_all :
      List Start → KafkaRecovery W → List (Outcome String (Unit {0})) × KafkaRecovery W
  unfolding start
  start_all [] r = ([], r)
  start_all (call ∷ calls) r =
      let (answer, r') = start call r in
      let (answers, r'') = start_all calls r' in (answer ∷ answers, r'')

  IsRecovering-IsSteady : IsSteady {W = W} IsRecovering
  IsRecovering-IsSteady = record { world_kept = λ r world h. h; accounts_kept = λ r accounts h. h }

  start-blocked : (call : Start) (r : KafkaRecovery W) → IsRecovering r → start call r ≡ (ok tt, r)
  unfolding start start_recovery trait_start_recovery
  start-blocked (own now) r h = rw h refl
  start-blocked (by_trait now) r h = rw h refl

  start_all-blocked :
      (calls : List Start) (r : KafkaRecovery W) → IsRecovering r → (start_all calls r).1 ≡ r
  unfolding start_all
  start_all-blocked [] r h = refl
  start_all-blocked (call ∷ calls) r h =
      ap (λ (x : Outcome String (Unit {0}) × KafkaRecovery W). (start_all calls x.1).1)
        (start-blocked call r h)
      ∙ start_all-blocked calls r h

  start_all-ok :
      (calls : List Start) (r : KafkaRecovery W)
      → IsRecovering r
      → All (λ answer. answer ≡ ok tt) (start_all calls r).0
  unfolding start_all
  start_all-ok [] r h = tt
  start_all-ok (call ∷ calls) r h =
      let same = start-blocked call r h in rw same (refl, start_all-ok calls r h)

  trait_start_recovery-IsRecovering :
      (now : Instant) (r : KafkaRecovery W) → IsRecovering (trait_start_recovery services now r).1
  unfolding trait_start_recovery
  trait_start_recovery-IsRecovering now r = elim (Bool-cases r.recovery_state.is_recovering) [
    | inl on ↦ rw on refl
    | inr off ↦ rw off (
        (Keeps-perform_recovery services IsRecovering-IsSteady).at
          (record r { recovery_state = begin services now r.recovery_state }) refl)
  ]

  -- After one call of the trait's `start_recovery`, whatever it answers, every later call, of the
  -- trait's or of the struct's, is answered with success and changes nothing.
  pub start_all-trait_start_recovery :
      (now : Instant) (calls : List Start) (r : KafkaRecovery W)
      → All (λ answer. answer ≡ ok tt) (start_all calls (trait_start_recovery services now r).1).0
        × ((start_all calls (trait_start_recovery services now r).1).1
            ≡ (trait_start_recovery services now r).1)
  start_all-trait_start_recovery now calls r =
      let h = trait_start_recovery-IsRecovering now r in
      (
        start_all-ok calls (trait_start_recovery services now r).1 h,
        start_all-blocked calls (trait_start_recovery services now r).1 h,
      )

  finished :
      (answer : Outcome String (Unit {0})) (r q : KafkaRecovery W)
      → IsRecovering r
      → (((λ (_ : KafkaRecovery W). (answer, r)) >> set_state (finish services))
          q).1.recovery_state.is_recovering
        ≡ not (is_ok (((λ (_ : KafkaRecovery W). (answer, r)) >> set_state (finish services)) q).0)
  finished (ok _) r q h = refl
  finished (err _) r q h = h
  finished panic r q h = h

  -- After the struct's `start_recovery` has begun a recovery, `is_recovering` is set exactly if
  -- the recovery did not succeed.
  pub start_recovery-is_recovering :
      (now : Instant) (r : KafkaRecovery W)
      → r.recovery_state.is_recovering ≡ false
      → (start_recovery services now r).1.recovery_state.is_recovering
        ≡ not (is_ok (start_recovery services now r).0)
  unfolding start_recovery
  start_recovery-is_recovering now r off =
      let begun = record r { recovery_state = begin services now r.recovery_state } in
      rw off (
        finished (perform_recovery services begun).0 (perform_recovery services begun).1 begun
          ((Keeps-perform_recovery services IsRecovering-IsSteady).at begun refl))
