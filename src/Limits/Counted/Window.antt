-- ===== src/Limits/Counted/Window.antt =====
-- How many requests of a client src/infrastructure/middleware.rs lets through in a span of time.
use banking_es_feature_redis.Prelude.{
  ℕ, ◌*◌, ◌+◌, ◌-◌, ◌<◌, ◌≤◌, ◌^◌, ◌≡◌, refl, Bool, true, false, none, some, List, [], ◌∷◌, lookup,
  insert, lookup-insert_self, string_eq, String, leb, if◌then◌else◌, arith, ◌⊎◌, Option-cases, inl,
  inr, Bool-cases, All, ◌==◌, ◌∙◌, sym, ap,
}
use text.Mathlib.TextEquality.{eq_iff}
use banking_es_feature_redis.Limits.Counted.{
  RateLimitInfo, RateLimitConfig, Limits, entry, reset_window, try_acquire, check_entry,
  check_rate_limit, check_rate_limit-others, admitted, Before, Within,
}

-- A check of the entry counts a request that it lets through, up to the limit, and keeps the window.
check_entry-counts :
    (config : RateLimitConfig) (info : RateLimitInfo)
    → config.requests_per_minute < 2 ^ 32
    → info.requests ≤ config.requests_per_minute
    → let result = check_entry config info in
      ((if result.0 then 1 + info.requests else info.requests) ≡ result.1.requests)
      × (result.1.requests ≤ config.requests_per_minute)
      × (result.1.window_start ≡ info.window_start)
unfolding check_entry try_acquire
check_entry-counts config info small bound = (ground arith, ground arith, ground arith)

-- The entry that a check of the client tests.
abbrev pub tested : RateLimitConfig → ℕ → String → Limits → RateLimitInfo
tested config now client limits = reset_window config now (entry config now (lookup client limits))

-- A check of the client itself counts for it, and stores the entry.
admitted-own :
    (config : RateLimitConfig) (client other : String) (now : ℕ) (calls : List (ℕ × String))
    (limits : Limits)
    → client ≡ other
    → let result = check_entry config (tested config now client limits) in
      let rest = admitted config client calls (insert client result.1 limits) in
      admitted config client ((now, other) ∷ calls) limits ≡ (if result.0 then 1 + rest else rest)
unfolding admitted check_rate_limit
admitted-own config client other now calls limits e = rw (sym e, (eq_iff client client).1 refl) refl

-- The count of one check and of the checks after it.
counted-bound :
    (config : RateLimitConfig) (info : RateLimitInfo) (allowed : Bool) (rest total requests : ℕ)
    → total ≡ (if allowed then 1 + rest else rest)
    → (if allowed then 1 + requests else requests) ≡ info.requests
    → rest + info.requests ≤ config.requests_per_minute
    → total + requests ≤ config.requests_per_minute
counted-bound config info allowed rest total requests e c bound = ground arith

-- An entry whose window is not over is tested as it is.
tested-same :
    (config : RateLimitConfig) (now : ℕ) (client : String) (limits : Limits) (info : RateLimitInfo)
    → 0 < config.window_size
    → lookup client limits ≡ some info
    → now < info.window_start + config.window_size
    → tested config now client limits ≡ info
unfolding entry reset_window
tested-same config now client limits info positive found early =
    rw found (same (leb config.window_size (now - info.window_start)) refl)
  where
    same :
        (b : Bool)
        → leb config.window_size (now - info.window_start) ≡ b
        → (if b then record info { requests = 0; window_start = now } else info) ≡ info
    same true h = ground arith
    same false h = refl

-- While an entry's window is not over, the requests let through and the ones counted keep the
-- limit.
admitted-window :
    (config : RateLimitConfig) (client : String) (calls : List (ℕ × String)) (limits : Limits)
    (info : RateLimitInfo)
    → config.requests_per_minute < 2 ^ 32
    → 0 < config.window_size
    → lookup client limits ≡ some info
    → info.requests ≤ config.requests_per_minute
    → Within config info calls
    → admitted config client calls limits + info.requests ≤ config.requests_per_minute
unfolding admitted
admitted-window config client [] limits info small positive found bound before = omega arith
admitted-window config client ((now, other) ∷ calls) limits info small positive found bound
      (early, before) =
    elim (Bool-cases (client == other)) [
      | inr e ↦ rw e (
          admitted-window config client calls _ info small positive
            (check_rate_limit-others config now other client limits
                (λ p. ground (arith, eq_iff client other))
              ∙ found)
            bound before)
      | inl e ↦
          (let info' = (check_entry config info).1 in
            let (c, b, w) = check_entry-counts config info small bound in
            let same = tested-same config now client limits info positive found early in
            counted-bound config info' (check_entry config info).0 _ _ info.requests
              (admitted-own config client other now calls limits ((eq_iff client other).0 e)
                ∙ rw same refl)
              c
              (admitted-window config client calls (insert client info' limits) info' small positive
                (lookup-insert_self client info' limits) b (rw w before)))
    ]

-- A client's entry never counts more than the limit.
abbrev pub IsCounted : RateLimitConfig → String → Limits → Type 0
IsCounted config client limits =
    (info : RateLimitInfo)
    → lookup client limits ≡ some info
    → info.requests ≤ config.requests_per_minute

-- The entry that a check tests has counted no more than the limit; it is the stored one, or its
-- window starts at the check.
tested-counted :
    (config : RateLimitConfig) (now : ℕ) (client : String) (limits : Limits)
    → IsCounted config client limits
    → (tested config now client limits).requests ≤ config.requests_per_minute
unfolding entry reset_window
tested-counted config now client limits counted = elim (Option-cases (lookup client limits)) [
  | inl e ↦ rw e (
      bound (record { requests = 0; window_start = now; permits = config.burst_size })
        (ground arith))
  | inr (info, e) ↦ rw e (bound info (counted info e))
]
  where
    bound :
        (info : RateLimitInfo)
        → info.requests ≤ config.requests_per_minute
        → (reset_window config now info).requests ≤ config.requests_per_minute
    bound info h = ground arith

-- Where the entry is tested as it is stored, its window goes on; otherwise it starts at the check.
tested-start :
    (config : RateLimitConfig) (now : ℕ) (client : String) (limits : Limits)
    → let info = tested config now client limits in
      (lookup client limits ≡ some info) ⊎ (info.window_start ≡ now)
unfolding entry reset_window
tested-start config now client limits = elim (Option-cases (lookup client limits)) [
  | inl e ↦
      inr (
        rw e
          (fresh (record { requests = 0; window_start = now; permits = config.burst_size }) refl))
  | inr (info, e) ↦ rw e (old info)
]
  where
    fresh :
        (info : RateLimitInfo)
        → info.window_start ≡ now
        → (reset_window config now info).window_start ≡ now
    fresh info h = ground arith

    old :
        (info : RateLimitInfo)
        → (some info ≡ some (reset_window config now info))
          ⊎ ((reset_window config now info).window_start ≡ now)
    old info = elim (Bool-cases (leb config.window_size (now - info.window_start))) [
      | inl e ↦ inr (rw e refl)
      | inr e ↦ inl (rw e refl)
    ]

-- What the client's entry has counted.
abbrev pub counted : String → Limits → ℕ
counted client limits = elim (lookup client limits) [ none ↦ 0 | some info ↦ info.requests ]

-- The time of every request is not before the bound.
abbrev pub Since : ℕ → List (ℕ × String) → Type 0
Since start calls = All (λ (call : ℕ × String). start ≤ call.0) calls

-- A later bound follows from an earlier one.
Before-mono : (a b : ℕ) (calls : List (ℕ × String)) → a ≤ b → Before a calls → Before b calls
Before-mono a b [] h before = tt
Before-mono a b (call ∷ calls) h (early, before) = (omega arith, Before-mono a b calls h before)

-- A client's entry is at most the limit after a check of its own.
IsCounted-insert :
    (config : RateLimitConfig) (client : String) (info : RateLimitInfo) (limits : Limits)
    → info.requests ≤ config.requests_per_minute
    → IsCounted config client (insert client info limits)
IsCounted-insert config client info limits bound info' found =
    ground (arith, lookup-insert_self client info limits, found)

-- From a check that starts a window, no more requests than the limit are let through while it lasts.
admitted-started :
    (config : RateLimitConfig) (client other : String) (now start : ℕ) (calls : List (ℕ × String))
    (limits : Limits)
    → config.requests_per_minute < 2 ^ 32
    → 0 < config.window_size
    → client ≡ other
    → IsCounted config client limits
    → start ≤ now
    → (tested config now client limits).window_start ≡ now
    → Before (start + config.window_size) calls
    → admitted config client ((now, other) ∷ calls) limits ≤ config.requests_per_minute
admitted-started config client other now start calls limits small positive e bound since started
      before =
    let info = tested config now client limits in
    let info' = (check_entry config info).1 in
    let (c, b, w) =
      check_entry-counts config info small (tested-counted config now client limits bound) in
    let rest =
      admitted-window config client calls (insert client info' limits) info' small positive
        (lookup-insert_self client info' limits) b
        (Before-mono (start + config.window_size) (info'.window_start + config.window_size) calls
          (omega (arith, w, started)) before) in
    let total =
      counted-bound config info' (check_entry config info).0 _ _ info.requests
        (admitted-own config client other now calls limits e) c rest in
    omega (arith, total)

counted-same :
    (client : String) (limits limits' : Limits)
    → lookup client limits ≡ lookup client limits'
    → counted client limits ≡ counted client limits'
counted-same client limits limits' e =
    ap (λ o. elim o as (λ _. ℕ) [ none ↦ 0 | some info ↦ info.requests ]) e

counted-le :
    (config : RateLimitConfig) (client : String) (limits : Limits)
    → IsCounted config client limits
    → counted client limits ≤ config.requests_per_minute
counted-le config client limits bound = elim (Option-cases (lookup client limits)) [
  | inl e ↦ rw (counted, e) (omega arith)
  | inr (info, e) ↦ rw (counted, e) (bound info e)
]

-- A check of the client's entry within its window, and the checks after it.
admitted-stored :
    (config : RateLimitConfig) (client other : String) (now limit : ℕ) (calls : List (ℕ × String))
    (limits : Limits)
    → config.requests_per_minute < 2 ^ 32
    → client ≡ other
    → IsCounted config client limits
    → let info = tested config now client limits in
      let limits' = insert client (check_entry config info).1 limits in
      lookup client limits ≡ some info
      → admitted config client calls limits' + counted client limits' ≤ limit
      → admitted config client ((now, other) ∷ calls) limits + counted client limits ≤ limit
admitted-stored config client other now limit calls limits small e bound stored rest =
    let info = tested config now client limits in
    let info' = (check_entry config info).1 in
    let (c, b, w) = check_entry-counts config info small (bound info stored) in
    ground (
      arith,
      c,
      rest,
      ap (λ o. elim o as (λ _. ℕ) [ none ↦ 0 | some i ↦ i.requests ]) stored,
      admitted-own config client other now calls limits e,
      ap (λ o. elim o as (λ _. ℕ) [ none ↦ 0 | some i ↦ i.requests ])
          (lookup-insert_self client info' limits),
    )

-- With a window that is not empty and a limit below 2^32, in any span of time shorter than a
-- window, `check_rate_limit` lets through at most twice the limit of a client's requests, with
-- what the client's entry had counted before, which is at most the limit.
pub admitted-span :
    (config : RateLimitConfig) (client : String) (start : ℕ) (calls : List (ℕ × String))
    (limits : Limits)
    → config.requests_per_minute < 2 ^ 32
    → 0 < config.window_size
    → IsCounted config client limits
    → Since start calls
    → Before (start + config.window_size) calls
    → admitted config client calls limits + counted client limits ≤ 2 * config.requests_per_minute
unfolding admitted
admitted-span config client start [] limits small positive bound since before =
    omega (arith, counted-le config client limits bound)
admitted-span config client start ((now, other) ∷ calls) limits small positive bound (late, since)
      (early, before) =
    elim (Bool-cases (client == other)) [
      | inr e ↦
          (let kept =
              check_rate_limit-others config now other client limits
                (λ p. ground (arith, eq_iff client other)) in
            let rest =
              admitted-span config client start calls (check_rate_limit config now other limits).1
                small positive (λ info found. bound info (sym kept ∙ found)) since before in
            rw e (omega (arith, rest, counted-same client _ limits kept)))
      | inl e ↦
          (let same = (eq_iff client other).0 e in
            let info = tested config now client limits in
            let info' = (check_entry config info).1 in
            elim (tested-start config now client limits) [
              | inl stored ↦
                  admitted-stored config client other now _ calls limits small same bound stored (
                    admitted-span config client start calls (insert client info' limits) small
                      positive
                      (IsCounted-insert config client info' limits
                        (check_entry-counts config info small (bound info stored)).1)
                      since before)
              | inr started ↦ omega (
                arith,
                counted-le config client limits bound,
                admitted-started config client other now start calls limits small positive same
                    bound late started before,
              )
            ])
    ]
