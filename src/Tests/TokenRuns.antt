-- ===== src/Tests/TokenRuns.antt =====
-- Runs of registrations, of changes of a password, and of tokens.
use banking_es_feature_redis.Prelude.{
  ℕ, suc, ◌-◌, ◌≤◌, ◌<◌, ◌≡◌, refl, ap, ◌∙◌, String, Bool, true, false, Option, some, none, ltb,
  ◌&&◌, Bool-cases, inl, inr, List, [], ◌∷◌, map, arith, ◌==◌, string_eq, Outcome, ok, err,
  if◌then◌else◌,
}
use text.Mathlib.TextEquality.{eq_iff}
use banking_es_feature_redis.Auth.Users.{User, create}
use banking_es_feature_redis.Auth.Login.{
  Libraries, AuthConfig, Call, login, logged_in, customer, Claims, access, refresh,
  token_blacklisted,
}
use banking_es_feature_redis.Auth.Accounts.{Hashing, register_user}
use banking_es_feature_redis.Auth.Accounts.Passwords.{reachable, login-register_user}
use banking_es_feature_redis.Auth.Accounts.Changes.{
  change_passwords, change_passwords-same, without_password,
}
use banking_es_feature_redis.Auth.Tokens.{TokenLibraries, validate_token, blacklist_token}
use banking_es_feature_redis.Auth.Tokens.Revoked.{HasKeys, validate_token-blacklist_token}
use banking_es_feature_redis.Auth.Tokens.Limit.{Counts, admitted, check_rate_limit-admitted}

abbrev anns_claims : Claims
anns_claims = record {
  sub = "ann";
  exp = 3610;
  iat = 10;
  roles = customer ∷ [];
  token_type = access;
  jti = "an identifier";
  company = "ACME";
}

-- Libraries whose hash is the password. Only Ann's claims are encoded.
abbrev simple : Libraries
simple = record {
  PasswordHash = String;
  parse_hash = λ s. ok s;
  verify_password = λ password hash. password == hash;
  encode = λ claims secret. if claims.sub == "ann" then ok "token" else err "no token";
  uuid_to_string = λ i. "an identifier";
}

verify_own :
    (salt password hash : String)
    → ◌≡◌ {A = Outcome String String} (ok password) (ok hash)
    → (parsed : String) × (◌≡◌ {A = Outcome String String} (ok hash) (ok parsed))
      × ((password == parsed) ≡ true)
verify_own salt password hash h =
    let same : password ≡ hash = ground arith in
    (hash, refl, ground (arith, same, eq_iff password hash, eq_iff hash hash))

abbrev hashing : Hashing simple
hashing = record { hash_password = λ salt password. ok password; verify_own = verify_own }

abbrev token_config : AuthConfig
token_config = record {
  jwt_secret = "a";
  refresh_token_secret = "b";
  access_token_expiry = 3600;
  refresh_token_expiry = 7200;
  rate_limit_requests = 2;
  rate_limit_window = 60;
  max_failed_attempts = 2;
  lockout_duration_minutes = 30;
}

abbrev at_ten : Call
at_ten = record { now = 10; access_jti = 1; refresh_jti = 2 }

abbrev ann_registered : User
ann_registered = record {
  id = 5;
  username = "ann";
  email = some "ann@bank";
  password_hash = "secret";
  roles = "customer" ∷ [];
  is_active = true;
  registered_at = 3;
  last_login_at = none;
  failed_login_attempts = 0;
  locked_until = none;
}

registered :
    register_user simple hashing 3 5 "salt" "ann" "ann@bank" "secret" (customer ∷ []) (reachable [])
    ≡ (ok ann_registered, reachable (ann_registered ∷ []))
unfolding register_user create
registered = refl

login-register_user_example :
    login simple token_config at_ten "ann" "secret" (reachable (ann_registered ∷ []))
    ≡ logged_in simple token_config at_ten ann_registered (reachable (ann_registered ∷ []))
login-register_user_example =
    login-register_user simple hashing token_config at_ten 3 5 "salt" "ann" "ann@bank" "secret"
      (customer ∷ []) [] ann_registered (reachable (ann_registered ∷ [])) registered

abbrev wrong_guesses : List (String × String × String)
wrong_guesses = ("salt", "x", "mine") ∷ ("salt", "y", "mine") ∷ ("salt", "z", "mine") ∷ []

change_passwords-same_example :
    map without_password
      (change_passwords simple hashing "ann" wrong_guesses
        (reachable (ann_registered ∷ []))).1.users
    ≡ map without_password (ann_registered ∷ [])
change_passwords-same_example =
    change_passwords-same simple hashing "ann" wrong_guesses (reachable (ann_registered ∷ []))

-- Libraries that encode nothing and decode Ann's claims.
abbrev decoding : Libraries
decoding = record {
  PasswordHash = String;
  parse_hash = λ s. ok s;
  verify_password = λ password hash. password == hash;
  encode = λ claims secret. err "no token";
  uuid_to_string = λ i. "an identifier";
}

nothing_encoded :
    (now : ℕ) (claims : Claims) (token secret : String)
    → ◌≡◌ {A = Outcome String String} (err "no token") (ok token)
    → now ≤ claims.exp
    → ◌≡◌ {A = Outcome String Claims} (ok anns_claims) (ok claims)
nothing_encoded now claims token secret h valid = absurd (ground arith)

-- The keys that are set with their values and the seconds that they have left, and a count for
-- one key.
abbrev Memory : Type 0
Memory = List (String × (String × ℕ)) × ℕ

abbrev read_key : String → List (String × (String × ℕ)) → Option (String × ℕ)
read_key key [] = none
read_key key ((other, held) ∷ keys) = if other == key then some held else read_key key keys

abbrev is_one : Option (String × ℕ) → Bool
is_one none = false
is_one (some (value, left)) = value == "1" && ltb 0 left

abbrev expired_in : ℕ → List (String × (String × ℕ)) → List (String × (String × ℕ))
expired_in seconds [] = []
expired_in seconds ((key, (value, left)) ∷ keys) =
    (key, (value, left - seconds)) ∷ expired_in seconds keys

abbrev lasting : String → ℕ → List (String × (String × ℕ)) → List (String × (String × ℕ))
lasting key seconds [] = []
lasting key seconds ((other, (value, left)) ∷ keys) =
    (other, (value, if other == key then seconds else left)) ∷ lasting key seconds keys

abbrev redis : TokenLibraries decoding Memory
redis = record {
  get_async_connection = λ r. (ok tt, r);
  get_bool = λ key r. (ok (is_one (read_key key r.0)), r);
  set_ex = λ key value seconds r. (ok tt, ((key, (value, seconds)) ∷ r.0, r.1));
  expire = λ key seconds r. (ok tt, (lasting key seconds r.0, r.1));
  incr = λ key r. (ok (suc r.1), (r.0, suc r.1));
  decode = λ now token secret. ok anns_claims;
  decode-encode = nothing_encoded;
}

abbrev wait : ℕ → Memory → Memory
wait seconds r = (expired_in seconds r.0, r.1)

now_set :
    (key value : String) (seconds : ℕ) (keys : List (String × (String × ℕ)))
    → read_key key ((key, (value, seconds)) ∷ keys) ≡ some (value, seconds)
now_set key value seconds keys = ground (arith, eq_iff key key)

lasts :
    (key value : String) (seconds left : ℕ) (keys : List (String × (String × ℕ)))
    → read_key key keys ≡ some (value, left)
    → read_key key (lasting key seconds keys) ≡ some (value, seconds)
lasts key value seconds left [] h = absurd (ground arith)
lasts key value seconds left ((other, (v, l)) ∷ keys) h = elim (Bool-cases (other == key)) [
  | inl same ↦ ground arith
  | inr different ↦ ground (arith, lasts key value seconds left keys)
]

waits :
    (key value : String) (waited left : ℕ) (keys : List (String × (String × ℕ)))
    → read_key key keys ≡ some (value, left)
    → read_key key (expired_in waited keys) ≡ some (value, left - waited)
waits key value waited left [] h = absurd (ground arith)
waits key value waited left ((other, (v, l)) ∷ keys) h = elim (Bool-cases (other == key)) [
  | inl same ↦ ground arith
  | inr different ↦ ground (arith, waits key value waited left keys)
]

redis_keys : HasKeys redis (λ key value left r. read_key key r.0 ≡ some (value, left)) wait
redis_keys = record {
  set_holds = λ key value seconds r positive h. now_set key value seconds r.0;
  expire_holds = λ key value seconds left r positive held h. lasts key value seconds left r.0 held;
  wait_holds = λ key value waited left r held h. waits key value waited left r.0 held;
  connect_keeps = λ key value left r h. h;
  get_true = λ key left r held h. one_read key left r held h;
}
  where
    one_read :
        (key : String) (left : ℕ) (r : Memory)
        → read_key key r.0 ≡ some ("1", left)
        → 0 < left
        → (redis.get_bool key r).0 ≡ ok true
    one_read key left r held h =
        ap (λ (x : Option (String × ℕ)). ok (is_one x)) held
        ∙ ap (λ (b : Bool). ok b) (positive left h)
      where
        positive : (left : ℕ) → 0 < left → ltb 0 left ≡ true
        positive left h = ground arith

accepted : (validate_token redis token_config 10 "token" access ([], 0)).0 ≡ ok anns_claims
unfolding validate_token
accepted = refl

revoked : (blacklist_token redis token_config 10 "token" ([], 0)).0 ≡ ok tt
unfolding blacklist_token validate_token
revoked = refl

validate_token-blacklist_token_example :
    (validate_token redis token_config 20 "token" refresh
      (wait 3000 (blacklist_token redis token_config 10 "token" ([], 0)).1)).0
    ≡ err token_blacklisted
validate_token-blacklist_token_example =
    validate_token-blacklist_token redis token_config redis_keys 10 20 3000 "token" refresh
      anns_claims ([], 0) accepted (omega arith) revoked refl

counts : Counts redis "ann" (λ r. r.1)
counts = record {
  incr_counts = λ n r h. (counted n r h, counted' n r h);
  incr_le = λ r. omega arith;
  connect_keeps = λ r. refl;
  expire_keeps = λ seconds r. refl;
}
  where
    counted : (n : ℕ) (r : Memory) → ◌≡◌ {A = Outcome String ℕ} (ok (suc r.1)) (ok n) → n ≡ suc r.1
    counted n r h = ground arith

    counted' : (n : ℕ) (r : Memory) → ◌≡◌ {A = Outcome String ℕ} (ok (suc r.1)) (ok n) → suc r.1 ≡ n
    counted' n r h = ground arith

check_rate_limit-admitted_example : admitted redis token_config "ann" counts 5 ([], 0) ≤ 2 - 0
check_rate_limit-admitted_example =
    check_rate_limit-admitted redis token_config "ann" counts 5 ([], 0)
