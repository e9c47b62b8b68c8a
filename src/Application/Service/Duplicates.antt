-- ===== src/Application/Service/Duplicates.antt =====
-- The check for duplicate commands of src/application/services.rs.
use banking_es_feature_redis.Prelude.{
  ◌≡◌, refl, String, true, false, none, some, Outcome, ok, err, panic, lookup, insert,
  lookup-insert, lookup-insert_self, nat_eq, ◌==◌, Bool-cases, ◌∙◌, ap, inl, inr, Option-cases,
}
use banking_es_feature_redis.Prelude.Actions.{Action, ◌>>◌, lift, bind-ok}
use banking_es_feature_redis.Domain.{Uuid, AccountError, infrastructure_error}
use banking_es_feature_redis.EventStore.{Instant}
use banking_es_feature_redis.Projections.{ProjectionStore}
use banking_es_feature_redis.Application.Service.{
  Cache, ServiceState, is_duplicate_command, refusal, refuse_duplicate,
}
use banking_es_feature_redis.Application.Service.Frame.{Preorder, Frame, Framed, bind-Frame}

-- The command cache has the identifier.
abbrev pub Known : {S : Type 0} → Uuid → ServiceState S → Type 0
Known i s = (at : Instant) × (lookup i s.command_cache ≡ some at)

-- What the command cache has, it keeps.
abbrev pub Remembers : (S : Type 0) → ServiceState S → ServiceState S → Type 0
Remembers S s t = (i : Uuid) → Known i s → Known i t

pub Remembers-Preorder : (S : Type 0) → Preorder (Remembers S)
Remembers-Preorder S = record { same = λ s i k. k; trans = λ s t u f g i k. g i (f i k) }

pub Remembers-Framed :
    {S D : Type 0} (projections : ProjectionStore S D) (cache : Cache S D)
    → Framed projections cache (Remembers S)
Remembers-Framed {S} projections cache = record {
  order = Remembers-Preorder S;
  counts = λ f s i k. k;
  inserts = λ ts s i k. k;
  upserts = λ ps s i k. k;
  reads = λ j s i k. k;
  sets = λ a s i k. k;
}

-- The two answers of the check.
pub is_duplicate_command-new :
    {S : Type 0} (E : Type 0) (now : Instant) (i : Uuid) (s : ServiceState S)
    → lookup i s.command_cache ≡ none
    → is_duplicate_command {E = E} now i s
      ≡ (ok false, record s { command_cache = insert i now s.command_cache })
unfolding is_duplicate_command
is_duplicate_command-new E now i s e = rw (is_duplicate_command, e) refl

pub is_duplicate_command_repeated :
    {S : Type 0} (E : Type 0) (now : Instant) (i : Uuid) (s : ServiceState S)
    → Known i s
    → is_duplicate_command {E = E} now i s ≡ (ok true, s)
unfolding is_duplicate_command
is_duplicate_command_repeated E now i s (at, known) = rw (is_duplicate_command, known) refl

-- The check makes its identifier known, and forgets none.
is_duplicate_command-Known :
    {S : Type 0} (E : Type 0) (now : Instant) (i : Uuid) (s : ServiceState S)
    → Known i (is_duplicate_command {E = E} now i s).1
is_duplicate_command-Known E now i s = elim (Option-cases (lookup i s.command_cache)) [
  | inl e ↦
      (now, rw (is_duplicate_command-new E now i s e) (lookup-insert_self i now s.command_cache))
  | inr (at, e) ↦ (at, rw (is_duplicate_command_repeated E now i s (at, e)) e)
]

is_duplicate_command-Remembers :
    {S : Type 0} (E : Type 0) (now : Instant) (i : Uuid)
    → Frame (Remembers S) (is_duplicate_command {S = S} {E = E} now i)
is_duplicate_command-Remembers E now i s j (at, known) =
    elim (Option-cases (lookup i s.command_cache)) [
      | inl e ↦ elim (Bool-cases (i == j)) [
        | inl same ↦ (
          now,
          rw (is_duplicate_command-new E now i s e)
              (lookup-insert i j now s.command_cache ∙ rw same refl),
        )
        | inr other ↦ (
          at,
          rw (is_duplicate_command-new E now i s e)
              (lookup-insert i j now s.command_cache ∙ rw other known),
        )
      ]
      | inr (at', e) ↦ (at, rw (is_duplicate_command_repeated E now i s (at', e)) known)
    ]

module _ {S : Type 0} (D : Type 0) where
  pub refuse_duplicate_repeated :
      (now : Instant) (i : Uuid) (message : String) (s : ServiceState S)
      → Known i s
      → refuse_duplicate {D = D} now i message s ≡ (err (infrastructure_error message), s)
  refuse_duplicate_repeated now i message s known =
      bind-ok (is_duplicate_command now i) (λ b. lift (refusal message b)) s s true
        (is_duplicate_command_repeated (AccountError D) now i s known)

  pub refuse_duplicate-Remembers :
      (now : Instant) (i : Uuid) (message : String)
      → Frame (Remembers S) (refuse_duplicate {S = S} {D = D} now i message)
  refuse_duplicate-Remembers now i message =
      bind-Frame (Remembers S) (Remembers-Preorder S) (is_duplicate_command now i)
        (λ b. lift (refusal message b)) (is_duplicate_command-Remembers (AccountError D) now i)
        (λ b s j k. k)

  -- The state behind the check is that of the check.
  refuse_duplicate-Known :
      (now : Instant) (i : Uuid) (message : String) (s : ServiceState S)
      → Known i (refuse_duplicate {D = D} now i message s).1
  refuse_duplicate-Known now i message s = elim (Option-cases (lookup i s.command_cache)) [
    | inl e ↦
        (let step =
            bind-ok (is_duplicate_command now i) (λ b. lift (refusal {D = D} message b)) s _ false
              (is_duplicate_command-new (AccountError D) now i s e) in
          (
            now,
            ap
                  (λ (x : Outcome (AccountError D) (Unit {0}) × ServiceState S).
                    lookup i x.1.command_cache)
                  step
                ∙ lookup-insert_self i now s.command_cache,
          ))
    | inr (at, e) ↦ (at, rw (refuse_duplicate_repeated now i message s (at, e)) e)
  ]

-- A chain behind the check: what makes its identifier known keeps it so.
pub behind_check-Known :
    {S D A : Type 0} (now : Instant) (i : Uuid) (message : String)
    (m : Action (ServiceState S) (AccountError D) A)
    → Frame (Remembers S) m
    → (s : ServiceState S) → Known i ((refuse_duplicate now i message >> m) s).1
behind_check-Known {S} {D} {A} now i message m keeps s =
    go (refuse_duplicate now i message s).0 (refuse_duplicate now i message s).1
      (refuse_duplicate-Known D now i message s)
  where
    go :
        (r : Outcome (AccountError D) (Unit {0})) (t : ServiceState S)
        → Known i t
        → Known i (((λ _. (r, t)) >> m) s).1
    go (ok tt) t k = keeps t i k
    go (err e) t k = k
    go panic t k = k
