-- ===== src/Auth/Users.antt =====
-- src/infrastructure/user_repository.rs: `UserRepository`, its statements that a login sends.
use banking_es_feature_redis.Prelude.{
  ℕ, ◌+◌, ◌-◌, ◌^◌, String, Bool, true, false, not, ◌||◌, Option, none, some, List, [], ◌∷◌, ◌++◌,
  map, retain, length, eqb, ◌==◌, string_eq, nat_eq, if◌then◌else◌, ok, err,
}
use banking_es_feature_redis.Prelude.Actions.{Action}
use banking_es_feature_redis.Domain.{Uuid}
use banking_es_feature_redis.EventStore.{Instant}

-- `i32`: the counters here are never negative, and PostgreSQL refuses to add past the largest.
abbrev pub I32 : Type 0
I32 = ℕ

pub record User : Type 0 where
  pub id : Uuid
  pub username : String
  pub email : Option String
  pub password_hash : String
  pub roles : List String
  pub is_active : Bool
  pub registered_at : Instant
  pub last_login_at : Option Instant
  pub failed_login_attempts : I32
  pub locked_until : Option Instant

pub data UserRepositoryError : Type 0 where
  not_found_by_id : Uuid → UserRepositoryError
  not_found_by_username : String → UserRepositoryError
  username_exists : String → UserRepositoryError
  email_exists : String → UserRepositoryError
  database_error : String → UserRepositoryError
  unexpected : String → UserRepositoryError

-- The table `users`, and what the connection makes of the next statements: `some e` fails with `e`
-- before the statement is run. With no more faults all statements are run.
pub record Database : Type 0 where
  pub users : List User
  pub faults : List (Option String)

-- A statement, by the faults that are to come.
abbrev pub execute_with :
    {A : Type 0}
    → List (Option String)
    → Action Database UserRepositoryError A
    → Action Database UserRepositoryError A
execute_with [] run s = run s
execute_with (none ∷ later) run s = run (record s { faults = later })
execute_with (some e ∷ later) run s = (err (database_error e), record s { faults = later })

-- A statement that is sent.
abbrev pub execute :
    {A : Type 0} → Action Database UserRepositoryError A → Action Database UserRepositoryError A
execute run s = execute_with s.faults run s

abbrev pub user_of : String → List User → Option User
user_of username [] = none
user_of username (user ∷ users) =
    if user.username == username then some user else user_of username users

abbrev pub user_with_id : Uuid → List User → Option User
user_with_id i [] = none
user_with_id i (user ∷ users) = if eqb user.id i then some user else user_with_id i users

-- `UPDATE users SET … WHERE id = $n`
abbrev pub changed : Uuid → (User → User) → User → User
changed i set user = if eqb user.id i then set user else user

abbrev pub update_users : Uuid → (User → User) → List User → List User
update_users i set users = map (changed i set) users

-- `find_by_username`
unfoldable pub find_by_username : String → Action Database UserRepositoryError (Option User)
find_by_username username = execute (λ s. (ok (user_of username s.users), s))

-- An update of one user, which is an error if there is none.
abbrev pub update_user : Uuid → (User → User) → Action Database UserRepositoryError (Unit {0})
update_user i set = execute (λ s. elim (user_with_id i s.users) [
  | none ↦ (err (not_found_by_id i), s)
  | some _ ↦ (ok tt, record s { users = update_users i set s.users })
])

abbrev pub with_lockout : Option Instant → I32 → User → User
with_lockout until attempts user = record user {
  locked_until = until;
  failed_login_attempts = attempts;
}

-- `update_lockout`
unfoldable pub update_lockout :
    Uuid → Option Instant → I32 → Action Database UserRepositoryError (Unit {0})
update_lockout i until attempts = update_user i (with_lockout until attempts)

abbrev pub one_more_failure : User → User
one_more_failure user = record user { failed_login_attempts = user.failed_login_attempts + 1 }

-- `increment_failed_attempts`
unfoldable pub increment_failed_attempts : Uuid → Action Database UserRepositoryError I32
increment_failed_attempts i = execute (λ s. elim (user_with_id i s.users) [
  | none ↦ (err (not_found_by_id i), s)
  | some user ↦
      if eqb user.failed_login_attempts (2 ^ 31 - 1)
      then (err (database_error "integer out of range"), s)
      else (
        ok (user.failed_login_attempts + 1),
        record s { users = update_users i one_more_failure s.users },
      )
])

-- `update_login_info`
unfoldable pub update_login_info :
    Uuid → Instant → I32 → Option Instant → Action Database UserRepositoryError (Unit {0})
update_login_info i last_login_at attempts until = update_user i (λ user. record user {
  last_login_at = some last_login_at;
  failed_login_attempts = attempts;
  locked_until = until;
})

pub record NewUser : Type 0 where
  pub username : String
  pub email : String
  pub password_hash : String
  pub roles : List String

abbrev pub has_email : String → Option String → Bool
has_email email none = false
has_email email (some other) = other == email

abbrev pub email_taken : String → List User → Bool
email_taken email [] = false
email_taken email (user ∷ users) = has_email email user.email || email_taken email users

-- The row that is inserted, with the table's defaults.
abbrev pub inserted : Uuid → Instant → NewUser → User
inserted new_v4 now new_user = record {
  id = new_v4;
  username = new_user.username;
  email = some new_user.email;
  password_hash = new_user.password_hash;
  roles = new_user.roles;
  is_active = true;
  registered_at = now;
  last_login_at = none;
  failed_login_attempts = 0;
  locked_until = none;
}

abbrev pub is_taken : Option User → Bool
is_taken none = false
is_taken (some _) = true

-- `create`; the keys of the table are its identifier, its username and its email.
unfoldable pub create : Uuid → Instant → NewUser → Action Database UserRepositoryError User
create new_v4 now new_user = execute (λ s.
    let user = inserted new_v4 now new_user in
    if is_taken (user_with_id new_v4 s.users)
    then (err (database_error "duplicate key value violates unique constraint users_pkey"), s)
    else if is_taken (user_of new_user.username s.users)
    then (err (username_exists new_user.username), s)
    else if email_taken new_user.email s.users
    then (err (email_exists new_user.email), s)
    else (ok user, record s { users = s.users ++ user ∷ [] }))

-- `find_by_id`
unfoldable pub find_by_id : Uuid → Action Database UserRepositoryError (Option User)
find_by_id i = execute (λ s. (ok (user_with_id i s.users), s))

-- `update_password_hash`
unfoldable pub update_password_hash : Uuid → String → Action Database UserRepositoryError (Unit {0})
update_password_hash i new_password_hash =
    update_user i (λ user. record user { password_hash = new_password_hash })

-- `update_status`
unfoldable pub update_status : Uuid → Bool → Action Database UserRepositoryError (Unit {0})
update_status i is_active = update_user i (λ user. record user { is_active = is_active })

abbrev pub without_id : Uuid → List User → List User
without_id i users = retain (λ user. not (eqb user.id i)) users

-- `delete`, with the number of rows that it deletes.
unfoldable pub delete : Uuid → Action Database UserRepositoryError ℕ
delete i = execute (λ s. (
  ok (length s.users - length (without_id i s.users)),
  record s { users = without_id i s.users },
))
