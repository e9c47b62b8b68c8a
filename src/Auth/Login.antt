-- ===== src/Auth/Login.antt =====
-- src/infrastructure/auth.rs: `AuthService::login` and its tokens.
use banking_es_feature_redis.Prelude.{
  ℕ, ◌+◌, ◌*◌, ◌^◌, String, Bool, none, some, List, map, not, leb, ltb, ◌==◌, string_eq,
  if◌then◌else◌, Outcome, ok, err, panic, map_err,
}
use banking_es_feature_redis.Prelude.Actions.{Action, ◌>>=◌, ◌>>◌, lift, map_error}
use banking_es_feature_redis.Domain.{Uuid}
use banking_es_feature_redis.EventStore.{Instant}
use banking_es_feature_redis.Auth.Users.{
  User, UserRepositoryError, not_found_by_id, not_found_by_username, username_exists, email_exists,
  database_error, unexpected, Database, find_by_username, update_lockout, increment_failed_attempts,
  update_login_info,
}

pub data AuthError : Type 0 where
  invalid_credentials : AuthError
  token_expired : AuthError
  invalid_token : AuthError
  token_blacklisted : AuthError
  rate_limit_exceeded : AuthError
  user_not_found : AuthError
  password_hash_error : String → AuthError
  redis_error : String → AuthError
  jwt_error : String → AuthError
  internal_error : String → AuthError
  wrong_credentials : AuthError
  missing_credentials : AuthError
  token_creation : AuthError
  username_already_exists : String → AuthError
  email_already_exists : String → AuthError
  user_repository_error : String → AuthError
  account_locked : AuthError

-- `From<UserRepositoryError>`
abbrev pub from_repository : UserRepositoryError → AuthError
from_repository (not_found_by_id _) = user_not_found
from_repository (not_found_by_username _) = user_not_found
from_repository (username_exists username) = username_already_exists username
from_repository (email_exists email) = email_already_exists email
from_repository (database_error e) = user_repository_error e
from_repository (unexpected message) = internal_error message

pub data TokenType : Type 0 where
  access : TokenType
  refresh : TokenType

pub data UserRole : Type 0 where
  admin : UserRole
  bank_manager : UserRole
  customer : UserRole

-- `UserRole::from_str`, whose failure is a customer.
unfoldable pub role_or_customer : String → UserRole
role_or_customer s =
    if s == "admin" then admin else (if s == "bank_manager" then bank_manager else customer)

pub record Claims : Type 0 where
  pub sub : String
  pub exp : Instant
  pub iat : Instant
  pub roles : List UserRole
  pub token_type : TokenType
  pub jti : String
  pub company : String

-- The expiries are in seconds, as times are here, and not negative.
pub record AuthConfig : Type 0 where
  pub jwt_secret : String
  pub refresh_token_secret : String
  pub access_token_expiry : ℕ
  pub refresh_token_expiry : ℕ
  pub rate_limit_requests : ℕ
  pub rate_limit_window : ℕ
  pub max_failed_attempts : ℕ
  pub lockout_duration_minutes : ℕ

-- The libraries that a login calls: argon2, jsonwebtoken and uuid.
pub record Libraries : Type 1 where
  pub PasswordHash : Type 0
  pub parse_hash : String → Outcome String PasswordHash
  pub verify_password : String → PasswordHash → Bool
  pub encode : Claims → (secret : String) → Outcome String String
  pub uuid_to_string : Uuid → String

pub record LoginResponse : Type 0 where
  pub access_token : String
  pub refresh_token : String
  pub token_type : String
  pub expires_in : ℕ
  pub user_id : String
  pub roles : List UserRole

-- The time of a call, and the identifiers of its two tokens.
pub record Call : Type 0 where
  pub now : Instant
  pub access_jti : Uuid
  pub refresh_jti : Uuid

module _ (libraries : Libraries) (config : AuthConfig) where
  -- `generate_token`
  unfoldable pub generate_token :
      Instant → (jti : Uuid) → String → List UserRole → TokenType → Outcome AuthError String
  generate_token now jti username roles token_type =
      let expiry : ℕ = elim token_type [
        | access ↦ config.access_token_expiry
        | refresh ↦ config.refresh_token_expiry
      ] in
      let secret_key : String = elim token_type [
        | access ↦ config.jwt_secret
        | refresh ↦ config.refresh_token_secret
      ] in
      let claims : Claims = record {
        sub = username;
        exp = now + expiry;
        iat = now;
        roles = roles;
        token_type = token_type;
        jti = libraries.uuid_to_string jti;
        company = "ACME";
      } in
      map_err jwt_error (libraries.encode claims secret_key)

  -- The right password.
  unfoldable pub logged_in : Call → User → Action Database AuthError LoginResponse
  logged_in call user = do
    map_error from_repository (update_login_info user.id call.now 0 none)
    let roles = map role_or_customer user.roles
    access_token ← lift (generate_token call.now call.access_jti user.username roles access)
    refresh_token ← lift (generate_token call.now call.refresh_jti user.username roles refresh)
    lift (
        ok (record {
          access_token = access_token;
          refresh_token = refresh_token;
          token_type = "Bearer";
          expires_in = config.access_token_expiry;
          user_id = libraries.uuid_to_string user.id;
          roles = roles;
        }))

  -- `max_failed_attempts.try_into().unwrap()`, and the test with it.
  unfoldable pub lock_if_too_many : Call → User → ℕ → Action Database AuthError LoginResponse
  lock_if_too_many call user attempts =
      if leb (2 ^ 31) config.max_failed_attempts
      then lift panic
      else (if leb config.max_failed_attempts attempts
          then map_error from_repository (
              update_lockout user.id (some (call.now + config.lockout_duration_minutes * 60))
                attempts)
            >> lift (err account_locked)
          else lift (err invalid_credentials))

  -- A wrong password.
  unfoldable pub refused : Call → User → Action Database AuthError LoginResponse
  refused call user = map_error from_repository (increment_failed_attempts user.id) >>= λ attempts.
      lock_if_too_many call user attempts

  unfoldable pub check_password : Call → String → User → Action Database AuthError LoginResponse
  check_password call password user =
      lift (map_err password_hash_error (libraries.parse_hash user.password_hash))
      >>= λ parsed_hash.
          if not (libraries.verify_password password parsed_hash)
          then refused call user
          else logged_in call user

  -- A user that is found.
  unfoldable pub login_as : Call → String → User → Action Database AuthError LoginResponse
  login_as call password user =
      if not user.is_active
      then lift (err (internal_error "Account is not active"))
      else elim user.locked_until [
        | none ↦ check_password call password user
        | some until ↦
            if ltb call.now until
            then lift (err (internal_error "Account is locked"))
            else map_error from_repository (update_lockout user.id none 0)
              >> check_password call password user
      ]

  -- `login`
  unfoldable pub login : Call → String → String → Action Database AuthError LoginResponse
  login call username password = map_error from_repository (find_by_username username) >>= λ found.
      elim found [ none ↦ lift (err user_not_found) | some user ↦ login_as call password user ]
