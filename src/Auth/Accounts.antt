-- ===== src/Auth/Accounts.antt =====
-- src/infrastructure/auth.rs: `register_user` and `change_password`.
pub mod Passwords
pub mod Changes
use banking_es_feature_redis.Prelude.{
  ℕ, String, ◌≡◌, Bool, true, false, not, Option, none, some, List, map, if◌then◌else◌, Outcome, ok,
  err, map_err,
}
use banking_es_feature_redis.Prelude.Actions.{Action, ◌>>=◌, ◌>>◌, lift, map_error}
use banking_es_feature_redis.Domain.{Uuid}
use banking_es_feature_redis.EventStore.{Instant}
use banking_es_feature_redis.Auth.Users.{
  User, Database, NewUser, create, find_by_username, update_password_hash,
}
use banking_es_feature_redis.Auth.Login.{
  AuthError, invalid_credentials, user_not_found, password_hash_error, from_repository, UserRole,
  admin, bank_manager, customer, Libraries,
}

-- `UserRole::to_string`
abbrev pub role_text : UserRole → String
role_text admin = "admin"
role_text bank_manager = "bank_manager"
role_text customer = "customer"

-- Hashing by argon2 with a salt: a password is verified by its own hash.
pub record Hashing (libraries : Libraries) : Type 0 where
  pub hash_password : (salt password : String) → Outcome String String
  pub verify_own :
      (salt password hash : String)
      → hash_password salt password ≡ ok hash
      → (parsed : libraries.PasswordHash) × (libraries.parse_hash hash ≡ ok parsed)
        × (libraries.verify_password password parsed ≡ true)

module _ (libraries : Libraries) (hashing : Hashing libraries) where
  -- `register_user`
  unfoldable pub register_user :
      (now : Instant) (new_v4 : Uuid) (salt username email password : String)
      → List UserRole
      → Action Database AuthError User
  register_user now new_v4 salt username email password roles = do
    password_hash ← lift (map_err password_hash_error (hashing.hash_password salt password))
    map_error from_repository (
        create new_v4 now (record {
          username = username;
          email = email;
          password_hash = password_hash;
          roles = map role_text roles;
        }))

  -- A user that is found, with the current password checked.
  unfoldable pub change_password_of :
      (salt current_password new_password : String) → User → Action Database AuthError (Unit {0})
  change_password_of salt current_password new_password user =
      lift (map_err password_hash_error (libraries.parse_hash user.password_hash))
      >>= λ parsed_hash.
          if not (libraries.verify_password current_password parsed_hash)
          then lift (err invalid_credentials)
          else (do
            new_password_hash ←
                lift (map_err password_hash_error (hashing.hash_password salt new_password))
            map_error from_repository (update_password_hash user.id new_password_hash))

  -- `change_password`
  unfoldable pub change_password :
      (salt username current_password new_password : String) → Action Database AuthError (Unit {0})
  unfolding change_password_of
  change_password salt username current_password new_password =
      map_error from_repository (find_by_username username) >>= λ found. elim found [
        | none ↦ lift (err user_not_found)
        | some user ↦ change_password_of salt current_password new_password user
      ]
