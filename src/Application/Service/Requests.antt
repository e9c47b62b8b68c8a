-- ===== src/Application/Service/Requests.antt =====
-- Runs of requests to src/application/services.rs, and what its check for duplicates makes of them.
use banking_es_feature_redis.Prelude.{
  ℕ, ◌≡◌, refl, String, List, [], ◌∷◌, Outcome, ok, err, panic, sym,
}
use banking_es_feature_redis.Prelude.Actions.{Action, ◌>>=◌, lift, bind-err}
use banking_es_feature_redis.Decimal.{Decimal}
use banking_es_feature_redis.Domain.{
  Uuid, AccountCommand, deposit_money, withdraw_money, AccountError, infrastructure_error,
}
use banking_es_feature_redis.EventStore.{Instant}
use banking_es_feature_redis.Projections.{ProjectionStore}
use banking_es_feature_redis.Application.Interface.{Repository}
use banking_es_feature_redis.Application.Service.{
  Cache, ServiceState, refuse_duplicate, create_unchecked, create_account_service,
  transact_unchecked, transact, deposit_money_service, withdraw_money_service,
}
use banking_es_feature_redis.Application.Service.Frame.{Frame, bind-Frame}
use banking_es_feature_redis.Application.Service.Duplicates.{
  Known, Remembers, Remembers-Preorder, Remembers-Framed, refuse_duplicate_repeated,
  refuse_duplicate-Remembers, behind_check-Known,
}
use banking_es_feature_redis.Application.Service.Bodies.{
  create_unchecked-Frame, transact_unchecked-Frame,
}

-- A result that is dropped leaves the state.
pub drop-state :
    {T E A : Type 0} (m : Action T E A) (s : T)
    → ((m >>= λ _. lift {S = T} {E = E} (ok (tt {0}))) s).1 ≡ (m s).1
drop-state {T} {E} {A} m s = go (m s).0 (m s).1
  where
    go :
        (r : Outcome E A) (t : T)
        → (((λ (_ : T). (r, t)) >>= λ _. lift {S = T} {E = E} (ok (tt {0}))) s).1 ≡ t
    go (ok a) t = refl
    go (err e) t = refl
    go panic t = refl

-- A request to the service, with the time and the identifiers that its run takes.
pub data Request (D : Type 0) : Type 0 where
  create :
      (now : Instant) (account_id new_v4 transaction : Uuid) (owner_name : String)
      (initial_balance : D)
      → Request D
  deposit :
      (now : Instant) (account_id transaction : Uuid) (new_v4 : ℕ → Uuid) (amount : D) → Request D
  withdraw :
      (now : Instant) (account_id transaction : Uuid) (new_v4 : ℕ → Uuid) (amount : D) → Request D

abbrev pub account_of : {D : Type 0} → Request D → Uuid
account_of (create _ account_id _ _ _ _) = account_id
account_of (deposit _ account_id _ _ _) = account_id
account_of (withdraw _ account_id _ _ _) = account_id

-- The text of the refusal of a duplicate.
abbrev pub duplicate_message : {D : Type 0} → Request D → String
duplicate_message (create _ _ _ _ _ _) = "Duplicate create account command"
duplicate_message (deposit _ _ _ _ _) = "Duplicate deposit command"
duplicate_message (withdraw _ _ _ _ _) = "Duplicate withdraw command"

module _ {S D : Type 0} ⦃d : Decimal D⦄ (repo : Repository S D) (projections : ProjectionStore S D)
    (cache : Cache S D) where
  -- The service's method for the request, without the identifier that `create_account` returns.
  unfoldable pub perform : Request D → Action (ServiceState S) (AccountError D) (Unit {0})
  unfolding create_account_service deposit_money_service withdraw_money_service
  perform (create now account_id new_v4 transaction owner_name initial_balance) =
      create_account_service repo projections cache now account_id new_v4 transaction owner_name
        initial_balance
      >>= λ _. lift (ok tt)
  perform (deposit now account_id transaction new_v4 amount) =
      deposit_money_service repo projections cache now account_id transaction new_v4 amount
  perform (withdraw now account_id transaction new_v4 amount) =
      withdraw_money_service repo projections cache now account_id transaction new_v4 amount

  -- The state behind a run of requests, one after the other.
  unfoldable pub perform_all : List (Request D) → ServiceState S → ServiceState S
  perform_all [] s = s
  perform_all (request ∷ requests) s = perform_all requests (perform request s).1

  create_unchecked-Remembers :
      (now : Instant) (i new_v4 transaction : Uuid) (owner : String) (initial : D)
      → Frame
          (Remembers S)
          (create_unchecked repo projections cache now i new_v4 transaction owner initial)
  create_unchecked-Remembers now i new_v4 transaction owner initial =
      create_unchecked-Frame repo projections cache (Remembers S)
        (Remembers-Framed projections cache) now i new_v4 transaction owner initial
        (λ events s j k. k) (λ ps s j k. k)

  transact_unchecked-Remembers :
      (now : Instant) (i transaction : Uuid) (new_v4 : ℕ → Uuid) (command : AccountCommand D)
      → Frame
          (Remembers S)
          (transact_unchecked repo projections cache now i transaction new_v4 command)
  transact_unchecked-Remembers now i transaction new_v4 command =
      transact_unchecked-Frame repo projections cache (Remembers S)
        (Remembers-Framed projections cache) now i transaction new_v4 command (λ s j k. k)
        (λ a events s j k. k)

  create_account-Remembers :
      (now : Instant) (i new_v4 transaction : Uuid) (owner : String) (initial : D)
      → Frame
          (Remembers S)
          (create_account_service repo projections cache now i new_v4 transaction owner initial)
  unfolding create_account_service
  create_account-Remembers now i new_v4 transaction owner initial =
      bind-Frame (Remembers S) (Remembers-Preorder S)
        (refuse_duplicate now i "Duplicate create account command")
        (λ _. create_unchecked repo projections cache now i new_v4 transaction owner initial)
        (refuse_duplicate-Remembers D now i "Duplicate create account command")
        (λ _. create_unchecked-Remembers now i new_v4 transaction owner initial)

  transact-Remembers :
      (now : Instant) (i transaction : Uuid) (new_v4 : ℕ → Uuid) (message : String)
      (command : AccountCommand D)
      → Frame
          (Remembers S)
          (transact repo projections cache now i transaction new_v4 message command)
  unfolding transact
  transact-Remembers now i transaction new_v4 message command =
      bind-Frame (Remembers S) (Remembers-Preorder S) (refuse_duplicate now i message)
        (λ _. transact_unchecked repo projections cache now i transaction new_v4 command)
        (refuse_duplicate-Remembers D now i message)
        (λ _. transact_unchecked-Remembers now i transaction new_v4 command)

  perform-Remembers : (request : Request D) → Frame (Remembers S) (perform request)
  unfolding perform deposit_money_service withdraw_money_service
  perform-Remembers (create now i new_v4 transaction owner initial) =
      bind-Frame (Remembers S) (Remembers-Preorder S)
        (create_account_service repo projections cache now i new_v4 transaction owner initial)
        (λ _. lift (ok tt)) (create_account-Remembers now i new_v4 transaction owner initial)
        (λ _ s j k. k)
  perform-Remembers (deposit now i transaction new_v4 amount) =
      transact-Remembers now i transaction new_v4 _ _
  perform-Remembers (withdraw now i transaction new_v4 amount) =
      transact-Remembers now i transaction new_v4 _ _

  perform_all-Remembers :
      (requests : List (Request D)) (s : ServiceState S) → Remembers S s (perform_all requests s)
  unfolding perform_all
  perform_all-Remembers [] s i k = k
  perform_all-Remembers (request ∷ requests) s i k =
      perform_all-Remembers requests (perform request s).1 i (perform-Remembers request s i k)

  -- A request makes its account known.
  perform-Known :
      (request : Request D) (s : ServiceState S) → Known (account_of request) (perform request s).1
  unfolding perform create_account_service deposit_money_service withdraw_money_service transact
  perform-Known (create now i new_v4 transaction owner initial) s =
      rw
        (drop-state
          (create_account_service repo projections cache now i new_v4 transaction owner initial) s)
        (behind_check-Known now i "Duplicate create account command"
          (create_unchecked repo projections cache now i new_v4 transaction owner initial)
          (create_unchecked-Remembers now i new_v4 transaction owner initial) s)
  perform-Known (deposit now i transaction new_v4 amount) s =
      behind_check-Known now i "Duplicate deposit command"
        (transact_unchecked repo projections cache now i transaction new_v4
          (deposit_money i amount))
        (transact_unchecked-Remembers now i transaction new_v4 (deposit_money i amount)) s
  perform-Known (withdraw now i transaction new_v4 amount) s =
      behind_check-Known now i "Duplicate withdraw command"
        (transact_unchecked repo projections cache now i transaction new_v4
          (withdraw_money i amount))
        (transact_unchecked-Remembers now i transaction new_v4 (withdraw_money i amount)) s

  -- A request on a known account is refused.
  perform_repeated :
      (request : Request D) (s : ServiceState S)
      → Known (account_of request) s
      → perform request s ≡ (err (infrastructure_error (duplicate_message request)), s)
  unfolding perform create_account_service deposit_money_service withdraw_money_service transact
  perform_repeated (create now i new_v4 transaction owner initial) s known =
      bind-err
        (create_account_service repo projections cache now i new_v4 transaction owner initial)
        (λ _. lift (ok tt)) s s _
        (bind-err (refuse_duplicate now i "Duplicate create account command")
          (λ _. create_unchecked repo projections cache now i new_v4 transaction owner initial) s s
          _ (refuse_duplicate_repeated D now i "Duplicate create account command" s known))
  perform_repeated (deposit now i transaction new_v4 amount) s known =
      bind-err (refuse_duplicate now i "Duplicate deposit command")
        (λ _.
          transact_unchecked repo projections cache now i transaction new_v4
            (deposit_money i amount))
        s s _ (refuse_duplicate_repeated D now i "Duplicate deposit command" s known)
  perform_repeated (withdraw now i transaction new_v4 amount) s known =
      bind-err (refuse_duplicate now i "Duplicate withdraw command")
        (λ _.
          transact_unchecked repo projections cache now i transaction new_v4
            (withdraw_money i amount))
        s s _ (refuse_duplicate_repeated D now i "Duplicate withdraw command" s known)

  -- Once a creation, a deposit or a withdrawal has been asked for on an account, whatever its
  -- result, every later request on the account is refused by the service as a duplicate and
  -- changes nothing, after any requests between the two.
  pub perform-again :
      (first later : Request D) (between : List (Request D)) (s : ServiceState S)
      → account_of first ≡ account_of later
      → let t = perform_all (first ∷ between) s in
        perform later t ≡ (err (infrastructure_error (duplicate_message later)), t)
  unfolding perform_all
  perform-again first later between s same =
      perform_repeated later (perform_all between (perform first s).1) (
        rw (sym same) (
          perform_all-Remembers between (perform first s).1 (account_of first)
            (perform-Known first s)))
