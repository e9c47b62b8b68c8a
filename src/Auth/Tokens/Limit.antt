-- ===== src/Auth/Tokens/Limit.antt =====
-- src/infrastructure/auth.rs: how many calls `check_rate_limit` admits.
use banking_es_feature_redis.Prelude.{
  ℕ, zero, suc, ◌+◌, ◌-◌, ◌≤◌, String, ◌≡◌, refl, sym, ap, ◌∙◌, eqb, ltb, if◌then◌else◌, Outcome,
  ok, err, panic, arith, Bool-cases, inl, inr, ◌⊎◌,
}
use mathlib.Core.Path.{subst}
use banking_es_feature_redis.Prelude.Actions.{Action, ◌>>=◌, ◌>>◌, lift, map_error, bind-inversion}
use banking_es_feature_redis.Prelude.Invariants.{
  Keeps, Keeps-lift, Keeps-map_error, Keeps-if, keeps_rules,
}
use banking_es_feature_redis.Auth.Login.{
  AuthError, rate_limit_exceeded, redis_error, AuthConfig, Libraries,
}
use banking_es_feature_redis.Auth.Tokens.{
  TokenLibraries, connect, rate_limit_key, expire_first, check_rate_limit,
}
use banking_es_feature_redis.Auth.Tokens.Revoked.{map_error-ok, map_error-same}

-- A Redis that counts for a key, within a window: no command but `INCR` changes the count, and none lowers it.
pub record Counts {libraries : Libraries} {R : Type 0} (redis : TokenLibraries libraries R)
    (key : String) (count : R → ℕ) : Type 0 where
  pub incr_counts :
      (n : ℕ) (r : R)
      → (redis.incr (rate_limit_key key) r).0 ≡ ok n
      → (n ≡ suc (count r)) × (count (redis.incr (rate_limit_key key) r).1 ≡ n)
  pub incr_le : (r : R) → count r ≤ count (redis.incr (rate_limit_key key) r).1
  pub connect_keeps : (r : R) → count (redis.get_async_connection r).1 ≡ count r
  pub expire_keeps :
      (seconds : ℕ) (r : R) → count (redis.expire (rate_limit_key key) seconds r).1 ≡ count r

abbrev pub one_if_ok : Outcome AuthError (Unit {0}) → ℕ
one_if_ok (ok _) = 1
one_if_ok (err _) = 0
one_if_ok panic = 0

module _ {libraries : Libraries} {R : Type 0} (redis : TokenLibraries libraries R)
    (config : AuthConfig) (key : String) {count : R → ℕ} (counts : Counts redis key count) where
  -- How many of so many calls are admitted.
  abbrev pub admitted : ℕ → R → ℕ
  admitted zero r = 0
  admitted (suc calls) r =
      let (answer, r') = check_rate_limit redis config key r in one_if_ok answer + admitted calls r'

  -- The count is at least this.
  pub record HasCount (n : ℕ) (r : R) : Type 0 where
    pub at_least : n ≤ count r

  Keeps-expire_first : (n current : ℕ) → Keeps (HasCount n) (expire_first redis config key current)
  Keeps-expire_first n current =
      Keeps-if (eqb current 1)
        (map_error redis_error (redis.expire (rate_limit_key key) config.rate_limit_window))
        (lift (ok tt))
        (Keeps-map_error redis_error (redis.expire (rate_limit_key key) config.rate_limit_window)
          (record {
            at = λ r h. record {
              at_least =
                  subst (λ (m : ℕ). n ≤ m) (sym (counts.expire_keeps config.rate_limit_window r))
                    h.at_least;
            };
          }))
        (Keeps-lift (ok tt))

  Keeps-connect : (n : ℕ) → Keeps (HasCount n) (connect redis config)
  Keeps-connect n = Keeps-map_error redis_error redis.get_async_connection (record {
    at = λ r h. record {
      at_least = subst (λ (m : ℕ). n ≤ m) (sym (counts.connect_keeps r)) h.at_least;
    };
  })

  Keeps-incr :
      (n : ℕ) → Keeps (HasCount n) (map_error redis_error (redis.incr (rate_limit_key key)))
  Keeps-incr n =
      Keeps-map_error redis_error (redis.incr (rate_limit_key key))
        (record { at = λ r h. record { at_least = omega (arith, h.at_least, counts.incr_le r) } })

  Keeps-check_rate_limit : (n : ℕ) → Keeps (HasCount n) (check_rate_limit redis config key)
  unfolding check_rate_limit
  Keeps-check_rate_limit n = search (keeps_rules, Keeps-connect, Keeps-incr, Keeps-expire_first)

  within :
      (current : ℕ) (t : R)
      → (lift {S = R}
          (if ltb config.rate_limit_requests current then err rate_limit_exceeded else ok tt)
          t).0
        ≡ ok tt
      → current ≤ config.rate_limit_requests
  within current t h = elim (Bool-cases (ltb config.rate_limit_requests current)) [
    | inl over ↦ absurd (ground (arith, over, h))
    | inr fine ↦ ground (arith, fine)
  ]

  abbrev finish_check : ℕ → Action R AuthError (Unit {0})
  finish_check current =
      expire_first redis config key current
      >> lift (if ltb config.rate_limit_requests current then err rate_limit_exceeded else ok tt)

  -- A call that is admitted raises the count to at most the limit.
  admitted-one :
      (r : R)
      → (check_rate_limit redis config key r).0 ≡ ok tt
      → (suc (count r) ≤ count (check_rate_limit redis config key r).1)
        × (suc (count r) ≤ config.rate_limit_requests)
  unfolding check_rate_limit
  admitted-one r h =
      let first = connect redis config in
      let incr = map_error redis_error (redis.incr (rate_limit_key key)) in
      let (_, connected, whole) = bind-inversion first (λ _. incr >>= finish_check) r tt h in
      let r1 = (first r).1 in
      let same : count r1 ≡ count r =
        ap count (
          map_error-same redis_error (redis.get_async_connection r).0
            (redis.get_async_connection r).1 r)
        ∙ counts.connect_keeps r in
      let h1 = sym (ap (λ (x : Outcome AuthError (Unit {0}) × R). x.0) whole) ∙ h in
      let (n, incremented, whole1) = bind-inversion incr finish_check r1 tt h1 in
      let raw = redis.incr (rate_limit_key key) r1 in
      let r2 = (incr r1).1 in
      let (is_next, is_count) =
        counts.incr_counts n r1 (map_error-ok redis_error raw.0 raw.1 r1 n incremented) in
      let count2 : count r2 ≡ n = ap count (map_error-same redis_error raw.0 raw.1 r1) ∙ is_count in
      let h2 = sym (ap (λ (x : Outcome AuthError (Unit {0}) × R). x.0) whole1) ∙ h1 in
      let (_, expired, whole2) =
        bind-inversion (expire_first redis config key n)
          (λ _. lift (if ltb config.rate_limit_requests n then err rate_limit_exceeded else ok tt))
          r2 tt h2 in
      let r3 = (expire_first redis config key n r2).1 in
      let kept : n ≤ count r3 =
        ((Keeps-expire_first n n).at r2 (record { at_least = omega (arith, count2) })).at_least in
      let last = ap (λ (x : Outcome AuthError (Unit {0}) × R). x.1) (whole ∙ whole1 ∙ whole2) in
      let limit =
        within n r3 (sym (ap (λ (x : Outcome AuthError (Unit {0}) × R). x.0) whole2) ∙ h2) in
      (omega (arith, kept, is_next, same, ap count last), omega (arith, limit, is_next, same))

  one_or_none : (answer : Outcome AuthError (Unit {0})) → (answer ≡ ok tt) ⊎ (one_if_ok answer ≡ 0)
  one_or_none (ok _) = inl refl
  one_or_none (err e) = inr refl
  one_or_none panic = inr refl

  -- In a Redis that counts the increments of a key within a window, of any number of calls of
  -- `check_rate_limit` for the key no more are admitted than the limit leaves, also where
  -- commands fail.
  pub check_rate_limit-admitted :
      (calls : ℕ) (r : R) → admitted calls r ≤ config.rate_limit_requests - count r
  check_rate_limit-admitted zero r = omega arith
  check_rate_limit-admitted (suc calls) r =
      let rest = check_rate_limit-admitted calls (check_rate_limit redis config key r).1 in
      elim (one_or_none (check_rate_limit redis config key r).0) [
        | inl passed ↦
            let (up, below) = admitted-one r passed in
            let one : one_if_ok (check_rate_limit redis config key r).0 ≡ 1 = ap one_if_ok passed in
            omega (arith, up, below, rest, one)
        | inr none_passed ↦
            let kept =
              ((Keeps-check_rate_limit (count r)).at r
                (record { at_least = omega arith })).at_least in
            omega (arith, kept, rest, none_passed)
      ]
