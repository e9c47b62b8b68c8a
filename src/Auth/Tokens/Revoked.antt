-- ===== src/Auth/Tokens/Revoked.antt =====
-- src/infrastructure/auth.rs: which tokens `validate_token` accepts.
use banking_es_feature_redis.Prelude.{
  ℕ, ◌+◌, ◌-◌, ◌<◌, String, ◌≡◌, refl, sym, ap, ◌∙◌, Bool, true, ltb, if◌then◌else◌, Outcome, ok,
  err, panic, arith,
}
use mathlib.Core.Path.{subst}
use banking_es_feature_redis.Prelude.Actions.{◌>>=◌, ◌>>◌, lift, map_error, bind-ok, bind-inversion}
use banking_es_feature_redis.EventStore.{Instant}
use banking_es_feature_redis.Auth.Login.{
  AuthError, token_blacklisted, redis_error, TokenType, access, Claims, AuthConfig, Libraries,
}
use banking_es_feature_redis.Auth.Tokens.{
  TokenLibraries, or_false, blacklist_key, connect, validate_unless, validate_token,
  blacklist_until, blacklist_token,
}

-- A Redis that keeps a key: `Holds key value left r` says that it has the value for so many
-- seconds more. `wait` is the time that passes.
pub record HasKeys {libraries : Libraries} {R : Type 0} (redis : TokenLibraries libraries R)
    (Holds : String → String → ℕ → R → Type 0) (wait : ℕ → R → R) : Type 0 where
  pub set_holds :
      (key value : String) (seconds : ℕ) (r : R)
      → 0 < seconds
      → (redis.set_ex key value seconds r).0 ≡ ok tt
      → Holds key value seconds (redis.set_ex key value seconds r).1
  pub expire_holds :
      (key value : String) (seconds left : ℕ) (r : R)
      → 0 < seconds
      → Holds key value left r
      → (redis.expire key seconds r).0 ≡ ok tt
      → Holds key value seconds (redis.expire key seconds r).1
  pub wait_holds :
      (key value : String) (waited left : ℕ) (r : R)
      → Holds key value left r
      → waited < left
      → Holds key value (left - waited) (wait waited r)
  pub connect_keeps :
      (key value : String) (left : ℕ) (r : R)
      → Holds key value left r
      → Holds key value left (redis.get_async_connection r).1
  -- The value "1" is read as true while its time is not over.
  pub get_true :
      (key : String) (left : ℕ) (r : R)
      → Holds key "1" left r
      → 0 < left
      → (redis.get_bool key r).0 ≡ ok true

-- What a renamed error leaves is what the call leaves.
pub map_error-same :
    {S E F A : Type 0} (f : E → F) (answer : Outcome E A) (s t : S)
    → (map_error f (λ (_ : S). (answer, s)) t).1 ≡ s
map_error-same f (ok a) s t = refl
map_error-same f (err e) s t = refl
map_error-same f panic s t = refl

pub map_error-ok :
    {S E F A : Type 0} (f : E → F) (answer : Outcome E A) (s t : S) (a : A)
    → (map_error f (λ (_ : S). (answer, s)) t).0 ≡ ok a
    → answer ≡ ok a
map_error-ok f (ok b) s t a h = ground arith
map_error-ok f (err e) s t a h = absurd (ground arith)
map_error-ok f panic s t a h = absurd (ground arith)

pub map_error-known :
    {S E F A : Type 0} (f : E → F) (answer : Outcome E A) (s t : S) (a : A)
    → answer ≡ ok a
    → map_error f (λ (_ : S). (answer, s)) t ≡ (ok a, s)
map_error-known {S = S} {E = E} {A = A} f answer s t a h =
    ap (λ (x : Outcome E A). map_error f (λ (_ : S). (x, s)) t) h

or_false-ok :
    {R : Type 0} (answer : Outcome String Bool) (r t : R) (b : Bool)
    → answer ≡ ok b
    → (or_false (λ (_ : R). (answer, r)) t) ≡ (ok b, r)
or_false-ok {R = R} (ok c) r t b h =
    ap (λ (x : Outcome String Bool). or_false (λ (_ : R). (x, r)) t) h
or_false-ok (err e) r t b h = absurd (ground arith)
or_false-ok panic r t b h = absurd (ground arith)

module _ {libraries : Libraries} {R : Type 0} (redis : TokenLibraries libraries R)
    (config : AuthConfig) where
  -- The check once the connection is there and the blacklist is read.
  pub validate_token-known :
      (now : Instant) (token : String) (expected : TokenType) (b : Bool) (r : R)
      → (redis.get_async_connection r).0 ≡ ok tt
      → (redis.get_bool (blacklist_key token) (redis.get_async_connection r).1).0 ≡ ok b
      → (validate_token redis config now token expected r)
        ≡ validate_unless redis config b now token expected
            (redis.get_bool (blacklist_key token) (redis.get_async_connection r).1).1
  unfolding validate_token
  validate_token-known now token expected b r connected read =
      let r1 = (redis.get_async_connection r).1 in
      bind-ok (connect redis config)
        (λ _. or_false (redis.get_bool (blacklist_key token)) >>= λ is_blacklisted.
          validate_unless redis config is_blacklisted now token expected)
        r r1 tt (map_error-known redis_error (redis.get_async_connection r).0 r1 r tt connected)
      ∙ bind-ok (or_false (redis.get_bool (blacklist_key token)))
          (λ is_blacklisted. validate_unless redis config is_blacklisted now token expected) r1
          (redis.get_bool (blacklist_key token) r1).1 b
          (or_false-ok (redis.get_bool (blacklist_key token) r1).0
            (redis.get_bool (blacklist_key token) r1).1 r1 b read)

  blacklist_until-Holds :
      {Holds : String → String → ℕ → R → Type 0} {wait : ℕ → R → R}
      (keys : HasKeys redis Holds wait) (now : Instant) (token : String) (exp : Instant) (r : R)
      → ltb now exp ≡ true
      → (blacklist_until redis config now token exp r).0 ≡ ok tt
      → Holds (blacklist_key token) "1" (exp - now) (blacklist_until redis config now token exp r).1
  blacklist_until-Holds {Holds} keys now token exp r live h =
      let key = blacklist_key token in
      let set = redis.set_ex key "1" (exp - now) in
      let expire = map_error redis_error (redis.expire key (exp - now)) in
      let positive : 0 < exp - now = ground arith in
      let run : blacklist_until redis config now token exp r
          ≡ (map_error redis_error set >> expire) r =
        ap (λ b. (if b then (map_error redis_error set >> expire) else lift (ok tt)) r) live in
      let answered = sym (ap (λ (x : Outcome AuthError (Unit {0}) × R). x.0) run) ∙ h in
      let (_, set_ok, rest) =
        bind-inversion (map_error redis_error set) (λ _. expire) r tt answered in
      let is_set =
        keys.set_holds key "1" (exp - now) r positive
          (map_error-ok redis_error (set r).0 (set r).1 r tt set_ok) in
      let here =
        subst (Holds key "1" (exp - now)) (sym (map_error-same redis_error (set r).0 (set r).1 r))
          is_set in
      let r2 = (map_error redis_error set r).1 in
      let raw = redis.expire key (exp - now) r2 in
      let expire_ok =
        map_error-ok redis_error raw.0 raw.1 r2 tt
          (sym (ap (λ (x : Outcome AuthError (Unit {0}) × R). x.0) rest) ∙ answered) in
      subst (Holds key "1" (exp - now))
        (sym (
          ap (λ (x : Outcome AuthError (Unit {0}) × R). x.1) (run ∙ rest)
          ∙ map_error-same redis_error raw.0 raw.1 r2))
        (keys.expire_holds key "1" (exp - now) (exp - now) r2 positive here expire_ok)

  -- In a Redis that keeps the keys that are set for their time to live: after an access token is
  -- blacklisted with success, `validate_token` refuses it as blacklisted, as whatever type, after
  -- any wait in Redis that ends before the token expires, if Redis can be reached.
  pub validate_token-blacklist_token :
      {Holds : String → String → ℕ → R → Type 0} {wait : ℕ → R → R}
      (keys : HasKeys redis Holds wait) (now later : Instant) (waited : ℕ) (token : String)
      (expected : TokenType) (claims : Claims) (r : R)
      → (validate_token redis config now token access r).0 ≡ ok claims
      → now + waited < claims.exp
      → (blacklist_token redis config now token r).0 ≡ ok tt
      → (redis.get_async_connection (wait waited (blacklist_token redis config now token r).1)).0
        ≡ ok tt
      → (validate_token redis config later token expected
          (wait waited (blacklist_token redis config now token r).1)).0
        ≡ err token_blacklisted
  unfolding blacklist_token
  validate_token-blacklist_token {Holds} {wait} keys now later waited token expected claims r valid
        live done connected =
      let key = blacklist_key token in
      let validate = validate_token redis config now token access in
      let (found, validated, whole) =
        bind-inversion validate
          (λ c. connect redis config >> blacklist_until redis config now token c.exp) r tt done in
      let same : found ≡ claims = ground (arith, validated, valid) in
      let same_exp : found.exp ≡ claims.exp = ap (λ (c : Claims). c.exp) same in
      let (_, connected', rest) =
        bind-inversion (connect redis config)
          (λ _. blacklist_until redis config now token found.exp) (validate r).1 tt
          (sym (ap (λ (x : Outcome AuthError (Unit {0}) × R). x.0) whole) ∙ done) in
      let path = whole ∙ rest in
      let r2 = (connect redis config (validate r).1).1 in
      let left = found.exp - now in
      let lasts : waited < left = omega (arith, same_exp, live) in
      let before : now < found.exp = omega (arith, same_exp, live) in
      let holds =
        blacklist_until-Holds keys now token found.exp r2 (ground (arith, before))
          (sym (ap (λ (x : Outcome AuthError (Unit {0}) × R). x.0) path) ∙ done) in
      let r3 = (blacklist_token redis config now token r).1 in
      let holds' =
        subst (Holds key "1" left) (sym (ap (λ (x : Outcome AuthError (Unit {0}) × R). x.1) path))
          holds in
      let r4 = wait waited r3 in
      let still = keys.wait_holds key "1" waited left r3 holds' lasts in
      ap (λ (x : Outcome AuthError Claims × R). x.0)
        (validate_token-known later token expected true r4 connected (
          keys.get_true key (left - waited) (redis.get_async_connection r4).1
            (keys.connect_keeps key "1" (left - waited) r4 still) (omega (arith, lasts))))
