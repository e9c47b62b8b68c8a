-- ===== src/Auth/Accounts/Changes.antt =====
-- src/infrastructure/auth.rs: what any calls of `change_password` leave of the users.
use banking_es_feature_redis.Prelude.{
  String, ◌≡◌, refl, ap, ◌∙◌, Bool, true, false, Option, none, some, List, [], ◌∷◌, map, eqb,
  nat_eq, if◌then◌else◌, Outcome, err, inl, inr, Option-cases,
}
use banking_es_feature_redis.Prelude.Actions.{Action, lift, map_error}
use banking_es_feature_redis.Prelude.Invariants.{
  Keeps, Keeps-lift, Keeps-bind, Keeps-map_error, keeps_rules,
}
use banking_es_feature_redis.Domain.{Uuid}
use banking_es_feature_redis.Auth.Users.{
  User, UserRepositoryError, Database, execute_with, execute, user_with_id, update_users,
  find_by_username, update_password_hash,
}
use banking_es_feature_redis.Auth.Login.{AuthError, user_not_found, from_repository, Libraries}
use banking_es_feature_redis.Auth.Accounts.{Hashing, change_password_of, change_password}

-- All that a user has but the hash of its password.
abbrev pub without_password : User → User
without_password user = record user { password_hash = "" }

-- The users are these, but for the hashes of their passwords.
record Unchanged (users : List User) (s : Database) : Type 0 where
  pub same : map without_password s.users ≡ users

module _ (users : List User) where
  Keeps-execute :
      {A : Type 0} (run : Action Database UserRepositoryError A)
      → Keeps (Unchanged users) run
      → Keeps (Unchanged users) (execute run)
  Keeps-execute run kept = record { at = λ s h. by_faults s s.faults h }
    where
      by_faults :
          (s : Database) (faults : List (Option String))
          → Unchanged users s
          → Unchanged users (execute_with faults run s).1
      by_faults s [] h = kept.at s h
      by_faults s (none ∷ later) h =
          kept.at (record s { faults = later }) (record { same = h.same })
      by_faults s (some e ∷ later) h = record { same = h.same }

  Keeps-find_by_username : (username : String) → Keeps (Unchanged users) (find_by_username username)
  unfolding find_by_username
  Keeps-find_by_username username = Keeps-execute _ (record { at = λ s h. h })

  update-without_password :
      (i : Uuid) (hash : String) (rows : List User)
      → map without_password (update_users i (λ user. record user { password_hash = hash }) rows)
        ≡ map without_password rows
  update-without_password i hash [] = refl
  update-without_password i hash (row ∷ rows) =
      ap2 (one (eqb row.id i)) (update-without_password i hash rows)
    where
      one :
          (b : Bool)
          → without_password (if b then record row { password_hash = hash } else row)
            ≡ without_password row
      one true = refl
      one false = refl

      ap2 :
          {x y : User} {xs ys : List User} → x ≡ y → xs ≡ ys → ◌≡◌ {A = List User} (x ∷ xs) (y ∷ ys)
      ap2 {x} {y} {xs} {ys} e f = ap (λ z. z ∷ xs) e ∙ ap (λ zs. y ∷ zs) f

  Keeps-update_password_hash :
      (i : Uuid) (hash : String) → Keeps (Unchanged users) (update_password_hash i hash)
  unfolding update_password_hash
  Keeps-update_password_hash i hash = Keeps-execute _ (record {
    at = λ s h. elim (Option-cases (user_with_id i s.users)) [
      | inl missing ↦ rw missing h
      | inr (_, found) ↦
          rw found (record { same = update-without_password i hash s.users ∙ h.same })
    ];
  })

module _ (libraries : Libraries) (hashing : Hashing libraries) (users : List User) where
  Keeps-change_password_of :
      (salt current_password new_password : String) (user : User)
      → Keeps
          (Unchanged users)
          (change_password_of libraries hashing salt current_password new_password user)
  unfolding change_password_of
  Keeps-change_password_of salt current_password new_password user =
      search (keeps_rules, Keeps-update_password_hash users) depth 9

  Keeps-change_password :
      (salt username current_password new_password : String)
      → Keeps
          (Unchanged users)
          (change_password libraries hashing salt username current_password new_password)
  unfolding change_password
  Keeps-change_password salt username current_password new_password =
      Keeps-bind (map_error from_repository (find_by_username username)) _
        (Keeps-map_error from_repository (find_by_username username)
          (Keeps-find_by_username users username))
        (λ found. checked found)
    where
      checked :
          (found : Option User)
          → Keeps {E = AuthError} {A = Unit {0}} (Unchanged users) (elim found [
            | none ↦ lift (err user_not_found)
            | some user ↦
                change_password_of libraries hashing salt current_password new_password user
          ])
      checked none = Keeps-lift (err user_not_found)
      checked (some user) = Keeps-change_password_of salt current_password new_password user

-- The answers to a run of attempts to change a password, each with its salt, guess and new password.
module _ (libraries : Libraries) (hashing : Hashing libraries) where
  abbrev pub change_passwords :
      (username : String)
      → List (String × String × String)
      → Database
      → List (Outcome AuthError (Unit {0})) × Database
  change_passwords username [] s = ([], s)
  change_passwords username ((salt, guess, new_password) ∷ guesses) s =
      let (answer, s') = change_password libraries hashing salt username guess new_password s in
      let (answers, s'') = change_passwords username guesses s' in (answer ∷ answers, s'')

  -- Any calls of `change_password`, with right passwords or wrong and over a connection that may
  -- fail, leave of every user all but the hash of its password as it was: no wrong password is
  -- counted as a failed attempt, and no account is locked or unlocked.
  pub change_passwords-same :
      (username : String) (guesses : List (String × String × String)) (s : Database)
      → map without_password (change_passwords username guesses s).1.users
        ≡ map without_password s.users
  change_passwords-same username [] s = refl
  change_passwords-same username ((salt, guess, new_password) ∷ guesses) s =
      let once = change_password libraries hashing salt username guess new_password in
      change_passwords-same username guesses (once s).1
      ∙ ((Keeps-change_password libraries hashing (map without_password s.users) salt username guess
            new_password).at
          s (record { same = refl })).same
