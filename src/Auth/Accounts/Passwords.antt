-- ===== src/Auth/Accounts/Passwords.antt =====
-- src/infrastructure/auth.rs: a password after `register_user`.
use banking_es_feature_redis.Prelude.{
  String, ◌≡◌, refl, sym, ap, ◌∙◌, Bool, true, false, Option, none, some, List, [], ◌∷◌, ◌++◌, map,
  ◌==◌, string_eq, if◌then◌else◌, Outcome, ok, err, map_err, map_err-ok, arith, inl, inr,
  Bool-cases,
}
use mathlib.Core.Path.{subst}
use text.Mathlib.TextEquality.{eq_iff}
use banking_es_feature_redis.Prelude.Actions.{Action, lift, map_error, bind-inversion}
use banking_es_feature_redis.Domain.{Uuid}
use banking_es_feature_redis.EventStore.{Instant}
use banking_es_feature_redis.Auth.Users.{
  User, UserRepositoryError, database_error, username_exists, email_exists, Database, NewUser,
  inserted, is_taken, user_of, user_with_id, email_taken, create, find_by_username,
}
use banking_es_feature_redis.Auth.Login.{
  AuthError, user_not_found, password_hash_error, from_repository, UserRole, Libraries, AuthConfig,
  Call, LoginResponse, login, login_as, check_password, logged_in,
}
use banking_es_feature_redis.Auth.Accounts.{Hashing, role_text, register_user}

user_of-append :
    (username : String) (users : List User) (user : User)
    → is_taken (user_of username users) ≡ false
    → (user.username == username) ≡ true
    → user_of username (users ++ user ∷ []) ≡ some user
user_of-append username [] user free same = ground (arith, same)
user_of-append username (other ∷ users) user free same =
    elim (Bool-cases (other.username == username)) [
      | inl taken ↦ absurd (ground arith)
      | inr differs ↦
          ground (arith, differs, user_of-append username users user (ground (arith, differs)) same)
    ]

-- The users over a connection without faults.
abbrev pub reachable : List User → Database
reachable users = record { users = users; faults = [] }

abbrev tried :
    (id_taken username_taken email_taken : Bool)
    → NewUser
    → User
    → List User
    → Outcome UserRepositoryError User × Database
tried id_taken username_taken email_taken new_user user users =
    if id_taken
    then (
      err (database_error "duplicate key value violates unique constraint users_pkey"),
      reachable users,
    )
    else if username_taken
    then (err (username_exists new_user.username), reachable users)
    else if email_taken
    then (err (email_exists new_user.email), reachable users)
    else (ok user, reachable (users ++ user ∷ []))

tried-ok :
    (id_taken username_taken email_taken : Bool) (new_user : NewUser) (user found : User)
    (users : List User) (t : Database)
    → map_error from_repository
        (λ (_ : Database). tried id_taken username_taken email_taken new_user user users)
        (reachable users)
      ≡ (ok found, t)
    → (username_taken ≡ false) × (user ≡ found) × (reachable (users ++ user ∷ []) ≡ t)
tried-ok true username_taken email_taken new_user user found users t h = absurd (ground arith)
tried-ok false true email_taken new_user user found users t h = absurd (ground arith)
tried-ok false false true new_user user found users t h = absurd (ground arith)
tried-ok false false false new_user user found users t h = (refl, ground arith, ap (λ x. x.1) h)

-- A user that is created is the one that its name finds.
create-found :
    (new_v4 : Uuid) (now : Instant) (new_user : NewUser) (users : List User) (found : User)
    (t : Database)
    → map_error from_repository (create new_v4 now new_user) (reachable users) ≡ (ok found, t)
    → (inserted new_v4 now new_user ≡ found)
      × (reachable (users ++ inserted new_v4 now new_user ∷ []) ≡ t)
      × (user_of new_user.username (users ++ inserted new_v4 now new_user ∷ [])
          ≡ some (inserted new_v4 now new_user))
unfolding create
create-found new_v4 now new_user users found t h =
    let user = inserted new_v4 now new_user in
    let (free, same, state) =
      tried-ok (is_taken (user_with_id new_v4 users)) (is_taken (user_of new_user.username users))
        (email_taken new_user.email users) new_user user found users t h in
    (
      same,
      state,
      user_of-append new_user.username users user free
          (ground (arith, eq_iff new_user.username new_user.username)),
    )

module _ (libraries : Libraries) (hashing : Hashing libraries) (config : AuthConfig) where
  abbrev as_found : Call → String → Option User → Action Database AuthError LoginResponse
  as_found call password found = elim found [
    | none ↦ lift (err user_not_found)
    | some user ↦ login_as libraries config call password user
  ]

  -- The login of an active user that is not locked, with the right password.
  right_password :
      (call : Call) (password : String) (user : User) (users : List User)
      (parsed : libraries.PasswordHash)
      → user_of user.username users ≡ some user
      → user.is_active ≡ true
      → user.locked_until ≡ none
      → libraries.parse_hash user.password_hash ≡ ok parsed
      → libraries.verify_password password parsed ≡ true
      → login libraries config call user.username password (reachable users)
        ≡ logged_in libraries config call user (reachable users)
  unfolding login find_by_username login_as check_password
  right_password call password user users parsed found active unlocked parse verify =
      simp (found, active, unlocked, parse, verify) refl

  abbrev created :
      (now : Instant) (new_v4 : Uuid) (username email : String)
      → List UserRole
      → (hash : String) → Action Database AuthError User
  created now new_v4 username email roles hash = map_error from_repository (
      create new_v4 now (record {
        username = username;
        email = email;
        password_hash = hash;
        roles = map role_text roles;
      }))

  -- After a `register_user` that succeeds over a connection without faults, a login with the same
  -- name and password passes the check of the password.
  pub login-register_user :
      (call : Call) (now : Instant) (new_v4 : Uuid) (salt username email password : String)
      (roles : List UserRole) (users : List User) (user : User) (t : Database)
      → register_user libraries hashing now new_v4 salt username email password roles
          (reachable users)
        ≡ (ok user, t)
      → login libraries config call username password t ≡ logged_in libraries config call user t
  unfolding register_user
  login-register_user call now new_v4 salt username email password roles users user t h =
      let hashed = lift (map_err password_hash_error (hashing.hash_password salt password)) in
      let (hash, hashed_ok, whole) =
        bind-inversion hashed (created now new_v4 username email roles) (reachable users) user
          (ap (λ (x : Outcome AuthError User × Database). x.0) h) in
      let new_user : NewUser = record {
        username = username;
        email = email;
        password_hash = hash;
        roles = map role_text roles;
      } in
      let (same, state, found) = create-found new_v4 now new_user users user t (sym whole ∙ h) in
      let (parsed, parse, verify) =
        hashing.verify_own salt password hash
          (map_err-ok password_hash_error (hashing.hash_password salt password) hash hashed_ok) in
      subst
        (λ (u : User).
          login libraries config call username password t ≡ logged_in libraries config call u t)
        same
        (subst
          (λ (s : Database).
            login libraries config call username password s
            ≡ logged_in libraries config call (inserted new_v4 now new_user) s)
          state
          (right_password call password (inserted new_v4 now new_user)
            (users ++ inserted new_v4 now new_user ∷ []) parsed found refl refl parse verify))
