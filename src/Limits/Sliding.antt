-- ===== src/Limits/Sliding.antt =====
-- src/infrastructure/rate_limiter.rs: `RateLimiter`. The time is an argument, in the unit of the
-- window.
pub mod History
use banking_es_feature_redis.Prelude.{
  ℕ, ◌+◌, ◌-◌, Bool, Option, none, some, List, [], ◌∷◌, ◌++◌, HashMap, lookup, insert, string_eq,
  String, leb, length, retain,
}

pub record RateLimitConfig : Type 0 where
  pub requests_per_second : ℕ
  pub window_size : ℕ
  pub burst_size : ℕ

abbrev pub Requests : Type 0
Requests = HashMap String (List ℕ)

-- `entry(key).or_insert_with(Vec::new)`
unfoldable pub times : String → Requests → List ℕ
times key requests = elim (lookup key requests) [ none ↦ [] | some ts ↦ ts ]

-- `|&time| time >= window_start`
abbrev pub in_window : RateLimitConfig → ℕ → ℕ → Bool
in_window config now time = leb (now - config.window_size) time

-- `is_rate_limited`
unfoldable pub is_rate_limited : RateLimitConfig → ℕ → String → Requests → Bool × Requests
unfolding times
is_rate_limited config now key requests =
    let kept = retain (in_window config now) (times key requests) in
    (leb config.burst_size (length kept), insert key kept requests)

-- `record_request`
unfoldable pub record_request : ℕ → String → Requests → Requests
unfolding times
record_request now key requests = insert key (times key requests ++ (now ∷ [])) requests

-- A call of the limiter, and the answers to a run of calls.
pub data Call : Type 0 where
  ask : (now : ℕ) (key : String) → Call
  note : (now : ℕ) (key : String) → Call

unfoldable pub answers : RateLimitConfig → List Call → Requests → List Bool
answers config [] requests = []
answers config (ask now key ∷ calls) requests =
    let (limited, requests') = is_rate_limited config now key requests in
    limited ∷ answers config calls requests'
answers config (note now key ∷ calls) requests =
    answers config calls (record_request now key requests)
