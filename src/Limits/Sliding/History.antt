-- ===== src/Limits/Sliding/History.antt =====
-- The answers of src/infrastructure/rate_limiter.rs, by all requests that were recorded.
use banking_es_feature_redis.Prelude.{
  ℕ, ◌≤◌, ◌≡◌, refl, sym, ap, ◌∙◌, Bool, List, [], ◌∷◌, ◌++◌, lookup, insert, lookup-insert,
  string_eq, String, leb, length, retain, ◌==◌, Bool-cases, inl, inr, if◌then◌else◌, arith,
}
use text.Mathlib.TextEquality.{eq_iff}
use banking_es_feature_redis.Limits.Sliding.{
  RateLimitConfig, Requests, times, in_window, is_rate_limited, record_request, Call, ask, note,
  answers,
}

-- The times of all the requests recorded for a key, kept for ever.
unfoldable pub noted : ℕ → String → (String → List ℕ) → String → List ℕ
noted now key history other = if key == other then history other ++ (now ∷ []) else history other

-- What the limiter is to answer: whether so many recorded requests of the key are in the window.
unfoldable pub expected : RateLimitConfig → List Call → (String → List ℕ) → List Bool
expected config [] history = []
expected config (ask now key ∷ calls) history =
    leb config.burst_size (length (retain (in_window config now) (history key)))
    ∷ expected config calls history
expected config (note now key ∷ calls) history = expected config calls (noted now key history)

abbrev pub time_of : Call → ℕ
time_of (ask now key) = now
time_of (note now key) = now

-- The calls come in the order of time.
abbrev pub IsOrdered : ℕ → List Call → Type 0
IsOrdered start [] = Unit
IsOrdered start (call ∷ calls) = (start ≤ time_of call) × IsOrdered (time_of call) calls

-- From the time on, what is stored and what was recorded have the same requests in the window.
abbrev pub Agrees : RateLimitConfig → ℕ → Requests → (String → List ℕ) → Type 0
Agrees config start requests history =
    (now : ℕ) (key : String)
    → start ≤ now
    → retain (in_window config now) (times key requests)
      ≡ retain (in_window config now) (history key)

retain-retain :
    (config : RateLimitConfig) (early late : ℕ) (ts : List ℕ)
    → early ≤ late
    → retain (in_window config late) (retain (in_window config early) ts)
      ≡ retain (in_window config late) ts
retain-retain config early late [] h = refl
retain-retain config early late (t ∷ ts) h = ground (arith, retain-retain config early late ts h)

retain-append : (p : ℕ → Bool) (xs ys : List ℕ) → retain p (xs ++ ys) ≡ retain p xs ++ retain p ys
retain-append p [] ys = refl
retain-append p (x ∷ xs) ys = ground (arith, retain-append p xs ys)

times-insert :
    (key other : String) (ts : List ℕ) (requests : Requests)
    → times other (insert key ts requests) ≡ (if key == other then ts else times other requests)
unfolding times
times-insert key other ts requests = ground (arith, lookup-insert key other ts requests)

-- What a call prunes is in the window of no later call.
ask-Agrees :
    (config : RateLimitConfig) (start now : ℕ) (key : String) (requests : Requests)
    (history : String → List ℕ)
    → start ≤ now
    → Agrees config start requests history
    → Agrees config now (is_rate_limited config now key requests).1 history
unfolding is_rate_limited
ask-Agrees config start now key requests history late agrees now' other later =
    elim (Bool-cases (key == other)) [
      | inl e ↦
          rw (times-insert key other _ requests, e)
            (retain-retain config now now' (times key requests) later
              ∙ rw ((eq_iff key other).0 e) (agrees now' other (omega arith)))
      | inr e ↦ rw (times-insert key other _ requests, e) (agrees now' other (omega arith))
    ]

note-Agrees :
    (config : RateLimitConfig) (start now : ℕ) (key : String) (requests : Requests)
    (history : String → List ℕ)
    → start ≤ now
    → Agrees config start requests history
    → Agrees config now (record_request now key requests) (noted now key history)
unfolding record_request noted
note-Agrees config start now key requests history late agrees now' other later =
    elim (Bool-cases (key == other)) [
      | inl e ↦
          rw (times-insert key other _ requests, e, (eq_iff key other).0 e)
            (retain-append (in_window config now') (times other requests) (now ∷ [])
              ∙ ap (λ ts. ts ++ retain (in_window config now') (now ∷ []))
                  (agrees now' other (omega arith))
              ∙ sym (retain-append (in_window config now') (history other) (now ∷ [])))
      | inr e ↦ rw (times-insert key other _ requests, e) (agrees now' other (omega arith))
    ]

answers-Agrees :
    (config : RateLimitConfig) (start : ℕ) (calls : List Call) (requests : Requests)
    (history : String → List ℕ)
    → IsOrdered start calls
    → Agrees config start requests history
    → answers config calls requests ≡ expected config calls history
unfolding answers expected is_rate_limited
answers-Agrees config start [] requests history ordered agrees = refl
answers-Agrees config start (ask now key ∷ calls) requests history (late, ordered) agrees =
    let rest =
      answers-Agrees config now calls _ history ordered
        (ask-Agrees config start now key requests history late agrees) in
    rw (sym rest, sym (agrees now key late)) refl
answers-Agrees config start (note now key ∷ calls) requests history (late, ordered) agrees =
    answers-Agrees config now calls _ (noted now key history) ordered
      (note-Agrees config start now key requests history late agrees)

-- In a run of calls in the order of time, from an empty limiter, `is_rate_limited` answers
-- whether at least `burst_size` of all the requests ever recorded for its key are in the window:
-- the requests that earlier calls removed make no difference.
pub answers-expected :
    (config : RateLimitConfig) (start : ℕ) (calls : List Call)
    → IsOrdered start calls
    → answers config calls [] ≡ expected config calls (λ key. [])
unfolding times lookup
answers-expected config start calls ordered =
    answers-Agrees config start calls [] (λ key. []) ordered (λ now key late. refl)
