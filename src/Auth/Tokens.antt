-- ===== src/Auth/Tokens.antt =====
-- src/infrastructure/auth.rs: the tokens of `AuthService`, their blacklist and the rate limit, both
-- in Redis.
pub mod Revoked
pub mod Issued
pub mod Limit
use banking_es_feature_redis.Prelude.{
  ℕ, ◌+◌, ◌-◌, ◌≤◌, String, ◌≡◌, Bool, true, false, not, Option, none, some, List, map, eqb, ltb,
  if◌then◌else◌, Outcome, ok, err, panic, map_err,
}
use banking_es_feature_redis.Prelude.Actions.{Action, ◌>>=◌, ◌>>◌, lift, map_error}
use banking_es_feature_redis.Domain.{Uuid}
use banking_es_feature_redis.EventStore.{Instant}
use banking_es_feature_redis.Auth.Users.{User, Database, find_by_username}
use banking_es_feature_redis.Auth.Login.{
  AuthError, invalid_token, token_blacklisted, rate_limit_exceeded, user_not_found, redis_error,
  jwt_error, internal_error, from_repository, TokenType, access, refresh, role_or_customer, Claims,
  AuthConfig, LoginResponse, Libraries, Call, generate_token,
}
use Prim.Native.String.{◌++◌ as concat}

-- What the tokens need of the libraries: the commands of Redis, on a state of its own, and
-- `jsonwebtoken::decode`, which gives back the claims that were encoded with the secret, until they expire.
pub record TokenLibraries (libraries : Libraries) (R : Type 0) : Type 0 where
  pub get_async_connection : Action R String (Unit {0})
  pub get_bool : (key : String) → Action R String Bool
  pub set_ex : (key value : String) → (seconds : ℕ) → Action R String (Unit {0})
  pub expire : (key : String) → (seconds : ℕ) → Action R String (Unit {0})
  pub incr : (key : String) → Action R String ℕ
  pub decode : Instant → (token secret : String) → Outcome String Claims
  pub decode-encode :
      (now : Instant) (claims : Claims) (token secret : String)
      → libraries.encode claims secret ≡ ok token
      → now ≤ claims.exp
      → decode now token secret ≡ ok claims

-- The service's Redis and its database.
pub record AuthState (R : Type 0) : Type 0 where
  pub redis : R
  pub database : Database

abbrev pub same_type : TokenType → TokenType → Bool
same_type access access = true
same_type access refresh = false
same_type refresh access = false
same_type refresh refresh = true

-- `unwrap_or(false)`
abbrev pub or_false : {R : Type 0} → Action R String Bool → Action R AuthError Bool
or_false m r =
    let (answer, r') = m r in
    elim answer [ ok b ↦ (ok b, r') | err _ ↦ (ok false, r') | panic ↦ (panic, r') ]

abbrev pub blacklist_key : String → String
blacklist_key token = concat "blacklist:" token

abbrev pub rate_limit_key : String → String
rate_limit_key key = concat "rate_limit:" key

module _ {libraries : Libraries} {R : Type 0} (redis : TokenLibraries libraries R)
    (config : AuthConfig) where
  abbrev pub connect : Action R AuthError (Unit {0})
  connect = map_error redis_error redis.get_async_connection

  abbrev pub secret_of : TokenType → String
  secret_of access = config.jwt_secret
  secret_of refresh = config.refresh_token_secret

  abbrev pub typed_as : TokenType → Claims → Outcome AuthError Claims
  typed_as expected_type claims =
      if not (same_type claims.token_type expected_type) then err invalid_token else ok claims

  -- What is left of `validate_token` once the blacklist has been read.
  abbrev pub validate_unless :
      (is_blacklisted : Bool) → Instant → String → TokenType → Action R AuthError Claims
  validate_unless true now token expected_type = lift (err token_blacklisted)
  validate_unless false now token expected_type =
      lift (map_err jwt_error (redis.decode now token (secret_of expected_type))) >>= λ claims.
      lift (typed_as expected_type claims)

  -- `validate_token`
  unfoldable pub validate_token : Instant → String → TokenType → Action R AuthError Claims
  validate_token now token expected_type = do
    connect
    is_blacklisted ← or_false (redis.get_bool (blacklist_key token))
    validate_unless is_blacklisted now token expected_type

  -- The token is blacklisted until it expires.
  abbrev pub blacklist_until : Instant → String → Instant → Action R AuthError (Unit {0})
  blacklist_until now token exp =
      if ltb now exp
      then (map_error redis_error (redis.set_ex (blacklist_key token) "1" (exp - now))
          >> map_error redis_error (redis.expire (blacklist_key token) (exp - now)))
      else lift (ok tt)

  -- `blacklist_token`
  unfoldable pub blacklist_token : Instant → String → Action R AuthError (Unit {0})
  unfolding validate_token
  blacklist_token now token = do
    claims ← validate_token now token access
    connect
    blacklist_until now token claims.exp

  abbrev pub expire_first : String → ℕ → Action R AuthError (Unit {0})
  expire_first key current =
      if eqb current 1
      then map_error redis_error (redis.expire (rate_limit_key key) config.rate_limit_window)
      else lift (ok tt)

  -- `check_rate_limit`
  unfoldable pub check_rate_limit : String → Action R AuthError (Unit {0})
  check_rate_limit key = do
    connect
    current ← map_error redis_error (redis.incr (rate_limit_key key))
    expire_first key current
    lift (if ltb config.rate_limit_requests current then err rate_limit_exceeded else ok tt)

  abbrev pub on_redis : {E A : Type 0} → Action R E A → Action (AuthState R) E A
  on_redis m s = let (answer, redis') = m s.redis in (answer, record s { redis = redis' })

  abbrev pub on_database : {E A : Type 0} → Action Database E A → Action (AuthState R) E A
  on_database m s =
      let (answer, database') = m s.database in (answer, record s { database = database' })

  -- The new tokens of a user that is found.
  unfoldable pub refreshed : Call → User → Outcome AuthError LoginResponse
  refreshed call user =
      if not user.is_active
      then err (internal_error "Account is inactive")
      else let roles = map role_or_customer user.roles in
        elim (generate_token libraries config call.now call.access_jti user.username roles access) [
          | err e ↦ err e
          | panic ↦ panic
          | ok access_token ↦
              elim (generate_token libraries config call.now call.refresh_jti user.username roles
                refresh) [
                  | err e ↦ err e
                  | panic ↦ panic
                  | ok refresh_token ↦ ok (record {
                    access_token = access_token;
                    refresh_token = refresh_token;
                    token_type = "Bearer";
                    expires_in = config.access_token_expiry;
                    user_id = libraries.uuid_to_string user.id;
                    roles = roles;
                  })
                ]
        ]

  abbrev pub refresh_found : Call → Option User → Outcome AuthError LoginResponse
  refresh_found call none = err user_not_found
  refresh_found call (some user) = refreshed call user

  -- `refresh_token`
  unfoldable pub refresh_token : Call → String → Action (AuthState R) AuthError LoginResponse
  unfolding validate_token refreshed
  refresh_token call token = do
    claims ← on_redis (validate_token call.now token refresh)
    found ← on_database (map_error from_repository (find_by_username claims.sub))
    lift (refresh_found call found)
