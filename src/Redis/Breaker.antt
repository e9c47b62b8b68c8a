-- ===== src/Redis/Breaker.antt =====
-- src/infrastructure/redis_abstraction.rs: `CircuitBreaker` and the calls that
-- `CircuitBreakerRedisClient` lets through it. The time is an argument.
use banking_es_feature_redis.Prelude.{
  ℕ, ◌+◌, ◌-◌, ◌<◌, ◌≤◌, ◌≡◌, ap, ◌∙◌, Bool, true, false, List, [], ◌∷◌, U64, add64, leb,
  if◌then◌else◌, IsWord, arith,
}

pub data CircuitState : Type 0 where
  closed : CircuitState
  opened : (open_time : ℕ) → CircuitState
  half_open : CircuitState

pub record CircuitBreaker : Type 0 where
  pub state : CircuitState
  pub failure_count : U64
  pub failure_threshold : U64
  pub reset_timeout : ℕ

-- `CircuitBreaker::new`
unfoldable pub new : U64 → ℕ → CircuitBreaker
new threshold timeout = record {
  state = closed;
  failure_count = 0;
  failure_threshold = threshold;
  reset_timeout = timeout;
}

-- The `match` of `allow_request`.
unfoldable pub allow_in : CircuitState → CircuitBreaker → ℕ → Bool × CircuitBreaker
allow_in closed b now = (true, b)
allow_in (opened open_time) b now =
    if leb b.reset_timeout (now - open_time)
    then (true, record b { state = half_open })
    else (false, b)
allow_in half_open b now = (true, b)

unfoldable pub allow_request : CircuitBreaker → ℕ → Bool × CircuitBreaker
unfolding allow_in
allow_request b now = allow_in b.state b now

-- The `match` of `record_success`.
unfoldable pub succeed_in : CircuitState → CircuitBreaker → CircuitBreaker
succeed_in half_open b = record b { state = closed; failure_count = 0 }
succeed_in _ b = b

unfoldable pub record_success : CircuitBreaker → CircuitBreaker
unfolding succeed_in
record_success b = succeed_in b.state b

unfoldable pub record_failure : CircuitBreaker → ℕ → CircuitBreaker
record_failure b now =
    let failures = add64 b.failure_count 1 in
    let counted = record b { failure_count = failures } in
    if leb b.failure_threshold failures then record counted { state = opened now } else counted

-- The inner client's answer.
pub data Inner (E A : Type 0) : Type 0 where
  inner_ok : A → Inner E A
  inner_err : E → Inner E A

-- The answer of a guarded call, which may refuse without a call of the inner client.
pub data Answer (E A : Type 0) : Type 0 where
  circuit_is_open : Answer E A
  passed : Inner E A → Answer E A

-- What the breaker records of an answer.
unfoldable pub record_answer : {E A : Type 0} → CircuitBreaker → ℕ → Inner E A → CircuitBreaker
unfolding record_success record_failure
record_answer b now (inner_ok a) = record_success b
record_answer b now (inner_err e) = record_failure b now

-- A call of `CircuitBreakerRedisClient`, as each of its methods makes it; `inner` is what the inner
-- client would answer.
unfoldable pub guarded_call :
    {E A : Type 0} → CircuitBreaker → ℕ → Inner E A → Answer E A × CircuitBreaker
unfolding allow_request record_answer
guarded_call b now inner =
    let (allowed, b') = allow_request b now in
    if allowed then (passed inner, record_answer b' now inner) else (circuit_is_open, b')

-- Calls one after another: the breaker that they leave.
unfoldable pub run_calls : {E A : Type 0} → CircuitBreaker → List (ℕ × Inner E A) → CircuitBreaker
unfolding guarded_call
run_calls b [] = b
run_calls b ((now, inner) ∷ calls) = run_calls (guarded_call b now inner).1 calls

-- A closed breaker has counted fewer failures than its threshold.
abbrev pub IsValid : CircuitBreaker → Type 0
IsValid b =
    (0 < b.failure_threshold)
    × IsWord b.failure_threshold
    × (b.state ≡ closed → b.failure_count < b.failure_threshold)

guarded_call-IsValid :
    {E A : Type 0} (b : CircuitBreaker) (now : ℕ) (inner : Inner E A)
    → IsValid b
    → IsValid (guarded_call b now inner).1
unfolding guarded_call
guarded_call-IsValid b now (inner_ok a) v = ground arith
guarded_call-IsValid b now (inner_err e) v = ground arith

-- After any calls with any answers, a breaker that was valid is valid: it is not closed with its
-- threshold of failures reached.
pub run_calls-IsValid :
    {E A : Type 0} (b : CircuitBreaker) (calls : List (ℕ × Inner E A))
    → IsValid b
    → IsValid (run_calls b calls)
unfolding run_calls
run_calls-IsValid b [] v = v
run_calls-IsValid b ((now, inner) ∷ calls) v =
    run_calls-IsValid (guarded_call b now inner).1 calls (guarded_call-IsValid b now inner v)

-- A breaker that is open refuses a call before its timeout, stays as it is and does not pass the
-- inner client's answer; once the timeout is over the call passes.
pub guarded_call-opened :
    {E A : Type 0} (b : CircuitBreaker) (open_time now : ℕ) (inner : Inner E A)
    → b.state ≡ opened open_time
    → (now - open_time < b.reset_timeout → guarded_call b now inner ≡ (circuit_is_open, b))
      × (b.reset_timeout ≤ now - open_time → (guarded_call b now inner).0 ≡ passed inner)
unfolding guarded_call
guarded_call-opened b open_time now inner h = (λ early. ground arith, λ late. ground arith)

-- The number of failures among the answers.
abbrev pub failures : {E A : Type 0} → List (ℕ × Inner E A) → ℕ
failures [] = 0
failures ((_, inner_ok _) ∷ calls) = failures calls
failures ((_, inner_err _) ∷ calls) = failures calls + 1

closed_ok :
    (E : Type 0) {A : Type 0} (b : CircuitBreaker) (now : ℕ) (a : A)
    → b.state ≡ closed
    → (guarded_call {E = E} b now (inner_ok a)).1 ≡ b
unfolding guarded_call
closed_ok E b now a h = ground arith

closed_err :
    (A : Type 0) {E : Type 0} (b : CircuitBreaker) (now : ℕ) (e : E)
    → b.state ≡ closed
    → b.failure_count + 1 < b.failure_threshold
    → IsWord b.failure_threshold
    → (guarded_call {A = A} b now (inner_err e)).1
      ≡ record b { failure_count = b.failure_count + 1 }
unfolding guarded_call
closed_err A b now e h below w = ground arith

-- While the failures stay below the threshold, a closed breaker has counted all failures among
-- its calls, not those in a row, and is otherwise as it was.
pub run_calls-counts :
    {E A : Type 0} (b : CircuitBreaker) (calls : List (ℕ × Inner E A))
    → b.state ≡ closed
    → b.failure_count + failures calls < b.failure_threshold
    → IsWord b.failure_threshold
    → run_calls b calls ≡ record b { failure_count = b.failure_count + failures calls }
unfolding run_calls
run_calls-counts b [] h below w = ground arith
run_calls-counts b ((now, inner_ok a) ∷ calls) h below w =
    rw (closed_ok _ b now a h) (run_calls-counts b calls h below w)
run_calls-counts b ((now, inner_err e) ∷ calls) h below w =
    let b' = record b { failure_count = b.failure_count + 1 } in
    rw (closed_err _ b now e h (omega arith) w) (
      run_calls-counts b' calls h (omega arith) w
      ∙ ap (λ n. record b { failure_count = n }) (omega arith))
