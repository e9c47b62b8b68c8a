-- ===== src/Tests/AuthRuns.antt =====
-- Runs of the logins.
use banking_es_feature_redis.Prelude.{
  ℕ, ◌-◌, ◌≡◌, refl, String, true, some, none, List, [], ◌∷◌, arith, leb, if◌then◌else◌, ◌==◌,
  string_eq, ok, err,
}
use banking_es_feature_redis.Auth.Users.{
  User, Database, find_by_username, increment_failed_attempts, update_lockout,
}
use banking_es_feature_redis.Auth.Login.{
  Libraries, AuthConfig, Call, login, login_as, check_password, refused, lock_if_too_many,
  account_locked,
}
use banking_es_feature_redis.Auth.Lockout.Guesses.{guesses, guesses-count, guesses-locked}

-- Libraries whose hash is the password, and whose token is the secret.
abbrev plain : Libraries
plain = record {
  PasswordHash = String;
  parse_hash = λ s. ok s;
  verify_password = λ password hash. password == hash;
  encode = λ claims secret. ok secret;
  uuid_to_string = λ i. "an identifier";
}

abbrev auth_config : AuthConfig
auth_config = record {
  jwt_secret = "a";
  refresh_token_secret = "b";
  access_token_expiry = 3600;
  refresh_token_expiry = 7200;
  rate_limit_requests = 100;
  rate_limit_window = 60;
  max_failed_attempts = 2;
  lockout_duration_minutes = 30;
}

abbrev ann : User
ann = record {
  id = 5;
  username = "ann";
  email = none;
  password_hash = "secret";
  roles = "admin" ∷ [];
  is_active = true;
  registered_at = 0;
  last_login_at = none;
  failed_login_attempts = 0;
  locked_until = none;
}

abbrev users : Database
users = record { users = record ann { id = 4; username = "bob" } ∷ ann ∷ []; faults = [] }

abbrev at_time : ℕ → Call
at_time t = record { now = t; access_jti = 1; refresh_jti = 2 }

abbrev wrong_logins : List (Call × String)
wrong_logins = (at_time 10, "x") ∷ (at_time 20, "y") ∷ (at_time 30, "z") ∷ []

-- The second failure locks the user, for half an hour.
second_failure :
    let (_, s) = login plain auth_config (at_time 10) "ann" "x" users in
    (login plain auth_config (at_time 20) "ann" "y" s).0 ≡ err account_locked
unfolding login find_by_username login_as check_password refused increment_failed_attempts
    lock_if_too_many update_lockout
second_failure = refl

guesses-count_example :
    guesses plain auth_config "ann" wrong_logins users ≡ (if leb 3 (2 - 0) then 3 else 2 - 0)
guesses-count_example =
    guesses-count plain auth_config "ann" wrong_logins ann users 10 (refl, refl, refl) refl refl
      (omega arith) (omega arith) (omega arith, (omega arith, (omega arith, tt)))
      (omega arith, (omega arith, (omega arith, tt)))
      (("secret", refl, refl), (("secret", refl, refl), (("secret", refl, refl), tt)))

abbrev locked_ann : User
locked_ann = record ann { locked_until = some 1800; failed_login_attempts = 2 }

abbrev locked_users : Database
locked_users = record { users = locked_ann ∷ []; faults = [] }

abbrev early_logins : List (Call × String)
early_logins = (at_time 50, "x") ∷ (at_time 60, "secret") ∷ []

guesses-locked_run : guesses plain auth_config "ann" early_logins locked_users ≡ 0
guesses-locked_run =
    guesses-locked plain auth_config "ann" early_logins locked_ann locked_users 1800
      (refl, refl, refl) refl refl (omega arith, (omega arith, tt))
