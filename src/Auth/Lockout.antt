-- ===== src/Auth/Lockout.antt =====
-- Lemmas on the lockout of src/infrastructure/auth.rs.
pub mod Guesses
use banking_es_feature_redis.Prelude.{
  ℕ, ◌+◌, ◌-◌, ◌*◌, ◌^◌, ◌<◌, ◌≤◌, ◌≡◌, refl, sym, ◌∙◌, String, Bool, true, false, Option, none,
  some, List, [], ◌∷◌, map, not, leb, ltb, eqb, ◌==◌, string_eq, if◌then◌else◌, Outcome, ok, err,
  panic, arith, map_err, length, Bool-cases, inl, inr, All, ap,
}
use banking_es_feature_redis.Prelude.Actions.{Action, ◌>>=◌, ◌>>◌, lift, map_error, bind-ok}
use banking_es_feature_redis.Domain.{Uuid}
use banking_es_feature_redis.EventStore.{Instant}
use banking_es_feature_redis.Auth.Users.{
  User, Database, UserRepositoryError, database_error, find_by_username, update_lockout,
  increment_failed_attempts, user_of, user_with_id, update_users, changed, one_more_failure,
  execute, execute_with, update_user, with_lockout,
}
use banking_es_feature_redis.Auth.Login.{
  Libraries, AuthConfig, AuthError, invalid_credentials, account_locked, internal_error,
  user_not_found, LoginResponse, Call, login, login_as, check_password, refused, lock_if_too_many,
  from_repository,
}

-- The user with this name and with its identifier, over a connection without faults.
abbrev pub Holds : String → User → Database → Type 0
Holds username user s =
    (s.faults ≡ [])
    × (user_of username s.users ≡ some user)
    × (user_with_id user.id s.users ≡ some user)

execute-calm :
    {A : Type 0} (run : Action Database UserRepositoryError A) (s : Database)
    → s.faults ≡ []
    → execute run s ≡ run s
execute-calm run s h = ap (λ faults. execute_with faults run s) h

map_error-ok :
    {A : Type 0} (m : Action Database UserRepositoryError A) (s t : Database) (a : A)
    → m s ≡ (ok a, t)
    → map_error from_repository m s ≡ (ok a, t)
map_error-ok {A} m s t a h =
    ap
      (λ (x : Outcome UserRepositoryError A × Database).
        map_error from_repository (λ (_ : Database). x) s)
      h

-- An update of the user that keeps its name and identifier finds its new form.
user_of-update :
    (username : String) (user : User) (set : User → User) (users : List User)
    → ((x : User) → (set x).username ≡ x.username)
    → user_of username users ≡ some user
    → user_of username (update_users user.id set users) ≡ some (set user)
user_of-update username user set [] keeps h = absurd (ground arith)
user_of-update username user set (x ∷ users) keeps h =
    let rest = user_of-update username user set users keeps in ground (arith, keeps x)

user_with_id-update :
    (user : User) (set : User → User) (users : List User) (i : Uuid)
    → ((x : User) → (set x).id ≡ x.id)
    → user_with_id i users ≡ some user
    → i ≡ user.id
    → user_with_id i (update_users i set users) ≡ some (set user)
user_with_id-update user set [] i keeps h same = absurd (ground arith)
user_with_id-update user set (x ∷ users) i keeps h same =
    let rest = user_with_id-update user set users i keeps in ground (arith, keeps x)

pub Holds-update :
    (username : String) (user : User) (set : User → User) (s : Database)
    → ((x : User) → (set x).username ≡ x.username)
    → ((x : User) → (set x).id ≡ x.id)
    → Holds username user s
    → Holds username (set user) (record s { users = update_users user.id set s.users })
Holds-update username user set s same_name same_id (no_faults, named, identified) = (
  no_faults,
  user_of-update username user set s.users same_name named,
  simp (same_id user) (user_with_id-update user set s.users user.id same_id identified refl),
)

module _ (libraries : Libraries) (config : AuthConfig) where
  -- The hash of the user reads, and is not of this password.
  abbrev pub Wrong : String → User → Type 0
  Wrong password user =
      (hash : libraries.PasswordHash) × (libraries.parse_hash user.password_hash ≡ ok hash)
      × (libraries.verify_password password hash ≡ false)

  find_by_username_known :
      (username : String) (user : User) (s : Database)
      → s.faults ≡ []
      → user_of username s.users ≡ some user
      → find_by_username username s ≡ (ok (some user), s)
  unfolding find_by_username
  find_by_username_known username user s no_faults named =
      execute-calm _ s no_faults ∙ rw named refl

  update_lockout_known :
      (i : Uuid) (until : Option Instant) (attempts : ℕ) (user : User) (s : Database)
      → s.faults ≡ []
      → user_with_id i s.users ≡ some user
      → update_lockout i until attempts s
        ≡ (ok tt, record s { users = update_users i (with_lockout until attempts) s.users })
  unfolding update_lockout
  update_lockout_known i until attempts user s no_faults identified =
      execute-calm _ s no_faults ∙ rw identified refl

  pub login-found :
      (call : Call) (username password : String) (user : User) (s : Database)
      → Holds username user s
      → login libraries config call username password s
        ≡ login_as libraries config call password user s
  unfolding login
  login-found call username password user s (no_faults, named, identified) =
      bind-ok (map_error from_repository (find_by_username username))
        (λ found. elim found [
          | none ↦ lift (err user_not_found)
          | some u ↦ login_as libraries config call password u
        ])
        s s (some user)
        (map_error-ok (find_by_username username) s s (some user)
          (find_by_username_known username user s no_faults named))

  increment_known :
      (user : User) (s : Database)
      → s.faults ≡ []
      → user_with_id user.id s.users ≡ some user
      → user.failed_login_attempts < 2 ^ 31 - 1
      → increment_failed_attempts user.id s ≡ (
        ok (user.failed_login_attempts + 1),
        record s { users = update_users user.id one_more_failure s.users },
      )
  unfolding increment_failed_attempts
  increment_known user s no_faults identified small =
      execute-calm _ s no_faults ∙ rw identified (ground arith)

  -- The table after a failure is counted.
  abbrev pub counted : User → Database → Database
  counted user s = record s { users = update_users user.id one_more_failure s.users }

  pub refused-counted :
      (call : Call) (username : String) (user : User) (s : Database)
      → Holds username user s
      → config.max_failed_attempts < 2 ^ 31
      → user.failed_login_attempts + 1 < config.max_failed_attempts
      → refused libraries config call user s ≡ (err invalid_credentials, counted user s)
  unfolding refused lock_if_too_many
  refused-counted call username user s (no_faults, named, identified) small below =
      bind-ok (map_error from_repository (increment_failed_attempts user.id))
        (λ attempts. lock_if_too_many libraries config call user attempts) s (counted user s)
        (user.failed_login_attempts + 1)
        (map_error-ok (increment_failed_attempts user.id) s (counted user s)
          (user.failed_login_attempts + 1)
          (increment_known user s no_faults identified (omega arith)))
      ∙ ground arith

  abbrev pub unlocked_at : Call → Instant
  unlocked_at call = call.now + config.lockout_duration_minutes * 60

  -- The table after the failure that locks the user.
  abbrev pub locked_out : Call → User → Database → Database
  locked_out call user s = record s {
    users =
        update_users user.id
          (with_lockout (some (unlocked_at call)) (user.failed_login_attempts + 1))
          (update_users user.id one_more_failure s.users);
  }

  pub refused-locked_out :
      (call : Call) (username : String) (user : User) (s : Database)
      → Holds username user s
      → config.max_failed_attempts < 2 ^ 31
      → user.failed_login_attempts + 1 ≡ config.max_failed_attempts
      → refused libraries config call user s ≡ (err account_locked, locked_out call user s)
  unfolding refused lock_if_too_many
  refused-locked_out call username user s holds small reached =
      let n = user.failed_login_attempts + 1 in
      let t = counted user s in
      let lock = update_lockout user.id (some (unlocked_at call)) n in
      let held = Holds-update username user one_more_failure s (λ _. refl) (λ _. refl) holds in
      bind-ok (map_error from_repository (increment_failed_attempts user.id))
        (λ attempts. lock_if_too_many libraries config call user attempts) s t n
        (map_error-ok (increment_failed_attempts user.id) s t n
          (increment_known user s holds.0 holds.2 (omega arith)))
      ∙ ground arith
      ∙ bind-ok (map_error from_repository lock) (λ _. lift (err account_locked)) t
          (locked_out call user s) tt
          (map_error-ok lock t (locked_out call user s) tt (
            update_lockout_known user.id (some (unlocked_at call)) n (one_more_failure user) t
              held.0 held.2))

  pub check_password-Wrong :
      (call : Call) (password : String) (user : User) (s : Database)
      → Wrong password user
      → check_password libraries config call password user s ≡ refused libraries config call user s
  unfolding check_password
  check_password-Wrong call password user s (hash, parses, wrong) = simp (parses, wrong) refl

  pub login_as-unlocked :
      (call : Call) (password : String) (user : User) (s : Database)
      → user.is_active ≡ true
      → user.locked_until ≡ none
      → login_as libraries config call password user s
        ≡ check_password libraries config call password user s
  unfolding login_as
  login_as-unlocked call password user s active unlocked = simp (active, unlocked) refl

  pub login_as-locked :
      (call : Call) (password : String) (user : User) (s : Database) (until : Instant)
      → user.is_active ≡ true
      → user.locked_until ≡ some until
      → call.now < until
      → login_as libraries config call password user s
        ≡ (err (internal_error "Account is locked"), s)
  unfolding login_as
  login_as-locked call password user s until active locked early =
      simp (active, locked) (ground arith)
