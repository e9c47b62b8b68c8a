-- ===== src/Auth/Lockout/Guesses.antt =====
-- How many guesses at a password src/infrastructure/auth.rs answers.
use banking_es_feature_redis.Prelude.{
  ℕ, ◌+◌, ◌-◌, ◌*◌, ◌^◌, ◌<◌, ◌≤◌, ◌≡◌, refl, ◌∙◌, String, true, none, some, List, [], ◌∷◌, leb,
  if◌then◌else◌, Outcome, ok, err, arith, length, inl, inr, All, ap, Bool-cases,
}
use banking_es_feature_redis.Auth.Users.{User, Database, one_more_failure, with_lockout}
use banking_es_feature_redis.Auth.Login.{
  Libraries, AuthConfig, AuthError, invalid_credentials, account_locked, internal_error,
  LoginResponse, Call, login, refused,
}
use banking_es_feature_redis.Auth.Lockout.{
  Holds, Holds-update, Wrong, unlocked_at, counted, locked_out, login-found, check_password-Wrong,
  login_as-unlocked, login_as-locked, refused-counted, refused-locked_out,
}

-- Whether an answer tells if the password was right.
abbrev pub told : Outcome AuthError LoginResponse → ℕ
told (ok _) = 1
told (err invalid_credentials) = 1
told (err account_locked) = 1
told _ = 0

sooner :
    (calls : List (Call × String)) (start until window : ℕ)
    → start + window ≤ until
    → All (λ (call : Call × String). call.0.now < start + window) calls
    → All (λ (call : Call × String). call.0.now < until) calls
sooner [] start until window h early = tt
sooner (call ∷ calls) start until window h (now, later) =
    (omega arith, sooner calls start until window h later)

module _ (libraries : Libraries) (config : AuthConfig) where
  -- The guesses of a run of logins, with their passwords, that are answered.
  unfoldable pub guesses : String → List (Call × String) → Database → ℕ
  guesses username [] s = 0
  guesses username ((call, password) ∷ calls) s =
      let (answer, s') = login libraries config call username password s in
      told answer + guesses username calls s'

  guesses-step :
      (username : String) (call : Call) (password : String) (calls : List (Call × String))
      (s t : Database) (answer : Outcome AuthError LoginResponse)
      → login libraries config call username password s ≡ (answer, t)
      → guesses username ((call, password) ∷ calls) s ≡ told answer + guesses username calls t
  unfolding guesses
  guesses-step username call password calls s t answer h =
      ap (λ (x : Outcome AuthError LoginResponse × Database). told x.0 + guesses username calls x.1)
        h

  -- If an active user, found by name and identifier over a connection without faults, is locked,
  -- no login of a run before the end of the lockout is told whether its password, wrong or right,
  -- is right.
  pub guesses-locked :
      (username : String) (calls : List (Call × String)) (user : User) (s : Database) (until : ℕ)
      → Holds username user s
      → user.is_active ≡ true
      → user.locked_until ≡ some until
      → All (λ (call : Call × String). call.0.now < until) calls
      → guesses username calls s ≡ 0
  unfolding guesses
  guesses-locked username [] user s until holds active locked early = refl
  guesses-locked username ((call, password) ∷ calls) user s until holds active locked (now, later) =
      let step =
        guesses-step username call password calls s s (err (internal_error "Account is locked")) (
          login-found libraries config call username password user s holds
          ∙ login_as-locked libraries config call password user s until active locked now) in
      let rest = guesses-locked username calls user s until holds active locked later in
      omega (arith, step, rest)

  login-Wrong :
      (username : String) (call : Call) (password : String) (user : User) (s : Database)
      → Holds username user s
      → user.is_active ≡ true
      → user.locked_until ≡ none
      → Wrong libraries config password user
      → login libraries config call username password s ≡ refused libraries config call user s
  login-Wrong username call password user s holds active unlocked wrong =
      login-found libraries config call username password user s holds
      ∙ login_as-unlocked libraries config call password user s active unlocked
      ∙ check_password-Wrong libraries config call password user s wrong

  -- If an active user, found by name and identifier over a connection without faults, is not
  -- locked and has fewer than `max_failed_attempts` failures, and that limit is below 2^31, then
  -- of a run of logins with wrong passwords, all within a lockout's duration of its start,
  -- exactly as many are told that the password is wrong as there are failures left, or all if
  -- there are no more.
  pub guesses-count :
      (username : String) (calls : List (Call × String)) (user : User) (s : Database) (start : ℕ)
      → Holds username user s
      → user.is_active ≡ true
      → user.locked_until ≡ none
      → user.failed_login_attempts < config.max_failed_attempts
      → config.max_failed_attempts < 2 ^ 31
      → All (λ (call : Call × String). start ≤ call.0.now) calls
      → All
          (λ (call : Call × String). call.0.now < start + config.lockout_duration_minutes * 60)
          calls
      → All (λ (call : Call × String). Wrong libraries config call.1 user) calls
      → let left = config.max_failed_attempts - user.failed_login_attempts in
        guesses username calls s ≡ (if leb (length calls) left then length calls else left)
  unfolding guesses
  guesses-count username [] user s start holds active unlocked below small after before wrong =
      ground arith
  guesses-count username ((call, password) ∷ calls) user s start holds active unlocked below small
        (now, after) (soon, before) (wrong, others) =
      let attempt = login-Wrong username call password user s holds active unlocked wrong in
      let n = user.failed_login_attempts + 1 in
      elim (Bool-cases (leb config.max_failed_attempts n)) [
        | inl reached ↦
            let held =
              Holds-update username (one_more_failure user)
                (with_lockout (some (unlocked_at libraries config call)) n)
                (counted libraries config user s) (λ _. refl) (λ _. refl)
                (Holds-update username user one_more_failure s (λ _. refl) (λ _. refl) holds) in
            let step =
              guesses-step username call password calls s (locked_out libraries config call user s)
                (err account_locked)
                (attempt
                  ∙ refused-locked_out libraries config call username user s holds small
                      (ground arith)) in
            let rest =
              guesses-locked username calls
                (with_lockout (some (unlocked_at libraries config call)) n user)
                (locked_out libraries config call user s) (unlocked_at libraries config call) held
                active refl
                (sooner calls start (unlocked_at libraries config call)
                  (config.lockout_duration_minutes * 60) (omega arith) before) in
            ground (arith, step, rest)
        | inr goes_on ↦
            let step =
              guesses-step username call password calls s (counted libraries config user s)
                (err invalid_credentials)
                (attempt
                  ∙ refused-counted libraries config call username user s holds small
                      (ground arith)) in
            let rest =
              guesses-count username calls (one_more_failure user) (counted libraries config user s)
                start (Holds-update username user one_more_failure s (λ _. refl) (λ _. refl) holds)
                active unlocked (ground arith) small after before others in
            ground (arith, step, rest)
      ]
