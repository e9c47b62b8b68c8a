-- ===== src/Prelude/Words.antt =====
-- Machine integers as their bit patterns. The release profile has no overflow checks, so `+`
-- wraps around.
use Prim.Native.Nat.{ℕ, ◌+◌, ◌-◌, ◌%◌, ◌^◌, ◌<◌}
use mathlib.Core.Path.{◌≡◌}
use mathlib.Core.Bool.{Bool}
use native.Mathlib.Omega.{arith}
use banking_es_feature_redis.Prelude.Tests.{ltb}

-- An `i64` by its 64-bit pattern in two's complement.
abbrev pub I64 : Type 0
I64 = ℕ

-- A `u64`.
abbrev pub U64 : Type 0
U64 = ℕ

-- `a + b` on 64 bits
abbrev pub add64 : ℕ → ℕ → ℕ
add64 a b = (a + b) % 2 ^ 64

-- The order of `i64` and of BIGINT on the patterns.
abbrev pub signed_ltb : I64 → I64 → Bool
signed_ltb a b = ltb (add64 a (2 ^ 63)) (add64 b (2 ^ 63))

-- `-1`
abbrev pub minus_one : I64
minus_one = 2 ^ 64 - 1

-- The pattern is one of 64 bits.
abbrev pub IsWord : ℕ → Type 0
IsWord a = a < 2 ^ 64

-- A word with no sign bit, which stands for itself.
abbrev pub IsNonneg : I64 → Type 0
IsNonneg a = a < 2 ^ 63

pub add64-IsWord : (a b : ℕ) → IsWord (add64 a b)
add64-IsWord a b = omega arith

-- Adding one never gives the number back.
pub add64-one-ne : (a : ℕ) → IsWord a → add64 a 1 ≡ a → ⊥
add64-one-ne a h e = omega arith
