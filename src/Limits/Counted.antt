-- ===== src/Limits/Counted.antt =====
-- src/infrastructure/middleware.rs: `RateLimiter`. The time is an argument, in the unit of the
-- window.
pub mod Window
use banking_es_feature_redis.Prelude.{
  ℕ, zero, suc, ◌+◌, ◌-◌, ◌<◌, ◌≤◌, ◌%◌, ◌^◌, ◌≡◌, ◌≢◌, refl, Bool, true, false, Option, none, some,
  List, [], ◌∷◌, HashMap, lookup, insert, lookup-insert_other, lookup-insert_self, string_eq,
  String, leb, if◌then◌else◌, arith, Option-cases, inl, inr, Bool-cases, All, ◌==◌, ◌∙◌, sym,
}
use text.Mathlib.TextEquality.{eq_iff}

-- `permits` is what the client's semaphore has left.
pub record RateLimitInfo : Type 0 where
  pub requests : ℕ
  pub window_start : ℕ
  pub permits : ℕ

pub record RateLimitConfig : Type 0 where
  pub requests_per_minute : ℕ
  pub burst_size : ℕ
  pub window_size : ℕ

abbrev pub Limits : Type 0
Limits = HashMap String RateLimitInfo

-- `entry(client_id).or_insert_with(…)`
unfoldable pub entry : RateLimitConfig → ℕ → Option RateLimitInfo → RateLimitInfo
entry config now none = record { requests = 0; window_start = now; permits = config.burst_size }
entry config now (some info) = info

-- The window starts anew when its time is over.
unfoldable pub reset_window : RateLimitConfig → ℕ → RateLimitInfo → RateLimitInfo
reset_window config now info =
    if leb config.window_size (now - info.window_start)
    then record info { requests = 0; window_start = now }
    else info

-- `semaphore.try_acquire().is_err()`: the permit of a success is a temporary value, and back in the
-- semaphore at the end of the condition.
unfoldable pub try_acquire : RateLimitInfo → Bool × RateLimitInfo
try_acquire info = (if leb info.permits 0 then false else true, info)

-- The tests of `check_rate_limit` on an entry, and the count; `u32` numbers wrap around.
unfoldable pub check_entry : RateLimitConfig → RateLimitInfo → Bool × RateLimitInfo
unfolding try_acquire
check_entry config info =
    if leb config.requests_per_minute info.requests
    then (false, info)
    else (let (acquired, info') = try_acquire info in
        if acquired
        then (true, record info' { requests = (info'.requests + 1) % 2 ^ 32 })
        else (false, info'))

-- `check_rate_limit`
unfoldable pub check_rate_limit : RateLimitConfig → ℕ → String → Limits → Bool × Limits
unfolding entry reset_window check_entry
check_rate_limit config now client limits =
    let info = reset_window config now (entry config now (lookup client limits)) in
    let (allowed, info') = check_entry config info in (allowed, insert client info' limits)

-- `cleanup_expired_limits`
unfoldable pub cleanup_expired_limits : RateLimitConfig → ℕ → Limits → Limits
cleanup_expired_limits config now [] = []
cleanup_expired_limits config now ((client, info) ∷ limits) =
    let rest = cleanup_expired_limits config now limits in
    if leb config.window_size (now - info.window_start) then rest else (client, info) ∷ rest

-- A check of one client changes nothing for another.
pub check_rate_limit-others :
    (config : RateLimitConfig) (now : ℕ) (client other : String) (limits : Limits)
    → client ≢ other
    → lookup other (check_rate_limit config now client limits).1 ≡ lookup other limits
unfolding check_rate_limit
check_rate_limit-others config now client other limits ne =
    lookup-insert_other client other _ limits ne

-- How many of the requests of a client are let through, in a run of checks.
unfoldable pub admitted : RateLimitConfig → String → List (ℕ × String) → Limits → ℕ
admitted config client [] limits = 0
admitted config client ((now, other) ∷ calls) limits =
    let (allowed, limits') = check_rate_limit config now other limits in
    let rest = admitted config client calls limits' in
    if client == other then (if allowed then 1 + rest else rest) else rest

-- The time of every request is before the bound.
abbrev pub Before : ℕ → List (ℕ × String) → Type 0
Before end calls = All (λ (call : ℕ × String). call.0 < end) calls

-- The entry's window is not over at any of the times.
abbrev pub Within : RateLimitConfig → RateLimitInfo → List (ℕ × String) → Type 0
Within config info calls = Before (info.window_start + config.window_size) calls
