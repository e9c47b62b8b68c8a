-- ===== src/Auth/Tokens/Issued.antt =====
-- src/infrastructure/auth.rs: a token that `generate_token` made and `validate_token` reads.
use banking_es_feature_redis.Prelude.{
  ℕ, ◌+◌, ◌≤◌, String, ◌≡◌, refl, ap, ◌∙◌, false, List, Outcome, ok, map_err-ok,
}
use banking_es_feature_redis.Domain.{Uuid}
use banking_es_feature_redis.EventStore.{Instant}
use banking_es_feature_redis.Auth.Login.{
  AuthError, jwt_error, TokenType, access, refresh, UserRole, Claims, AuthConfig, Libraries,
  generate_token,
}
use banking_es_feature_redis.Auth.Tokens.{
  TokenLibraries, blacklist_key, secret_of, validate_unless, validate_token,
}
use banking_es_feature_redis.Auth.Tokens.Revoked.{validate_token-known}

module _ {libraries : Libraries} {R : Type 0} (redis : TokenLibraries libraries R)
    (config : AuthConfig) where
  -- How long a token of the type is valid.
  abbrev pub expiry_of : TokenType → ℕ
  expiry_of access = config.access_token_expiry
  expiry_of refresh = config.refresh_token_expiry

  abbrev pub claims_of : Instant → Uuid → String → List UserRole → TokenType → Claims
  claims_of now jti username roles token_type = record {
    sub = username;
    exp = now + expiry_of token_type;
    iat = now;
    roles = roles;
    token_type = token_type;
    jti = libraries.uuid_to_string jti;
    company = "ACME";
  }

  generate_token-encode :
      (now : Instant) (jti : Uuid) (username : String) (roles : List UserRole) (t : TokenType)
      (token : String)
      → generate_token libraries config now jti username roles t ≡ ok token
      → libraries.encode (claims_of now jti username roles t) (secret_of redis config t) ≡ ok token
  unfolding generate_token
  generate_token-encode now jti username roles access token h =
      map_err-ok jwt_error
        (libraries.encode (claims_of now jti username roles access) config.jwt_secret) token h
  generate_token-encode now jti username roles refresh token h =
      map_err-ok jwt_error
        (libraries.encode (claims_of now jti username roles refresh) config.refresh_token_secret)
        token h

  accepted :
      (later : Instant) (t : TokenType) (claims : Claims) (token : String) (r : R)
      → redis.decode later token (secret_of redis config t) ≡ ok claims
      → claims.token_type ≡ t
      → (validate_unless redis config false later token t r).0 ≡ ok claims
  accepted later access claims token r decoded same = simp (decoded, same) refl
  accepted later refresh claims token r decoded same = simp (decoded, same) refl

  -- A token is accepted as one of its type until it expires, with the claims that it was made with, if Redis can be
  -- reached and has not got it blacklisted.
  pub validate_token-generate_token :
      (now later : Instant) (jti : Uuid) (username : String) (roles : List UserRole) (t : TokenType)
      (token : String) (r : R)
      → generate_token libraries config now jti username roles t ≡ ok token
      → later ≤ now + expiry_of t
      → (redis.get_async_connection r).0 ≡ ok tt
      → (redis.get_bool (blacklist_key token) (redis.get_async_connection r).1).0 ≡ ok false
      → (validate_token redis config later token t r).0 ≡ ok (claims_of now jti username roles t)
  validate_token-generate_token now later jti username roles t token r made valid connected listed =
      let claims = claims_of now jti username roles t in
      ap (λ (x : Outcome AuthError Claims × R). x.0)
        (validate_token-known redis config later token t false r connected listed)
      ∙ accepted later t claims token
          (redis.get_bool (blacklist_key token) (redis.get_async_connection r).1).1
          (redis.decode-encode later claims token (secret_of redis config t)
            (generate_token-encode now jti username roles t token made) valid)
          refl
