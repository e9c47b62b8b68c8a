-- ===== src/Decimal/Cents.antt =====
-- An instance of the decimal interface: whole cents with a sign, in the 96 bits that the mantissa
-- of a `Decimal` has.
use banking_es_feature_redis.Decimal.Interface.{Decimal}
use banking_es_feature_redis.Prelude.{
  ℕ, suc, ◌+◌, ◌-◌, ◌^◌, ◌≡◌, Bool, true, false, Option, none, some, arith, ltb, leb, if◌then◌else◌,
}

-- `negsuc n` is -(n + 1).
pub data ℤ : Type 0 where
  pos : ℕ → ℤ
  negsuc : ℕ → ℤ

abbrev pos_part : ℤ → ℕ
pos_part (pos n) = n
pos_part (negsuc n) = 0

abbrev neg_part : ℤ → ℕ
neg_part (pos n) = 0
neg_part (negsuc n) = suc n

abbrev sub_ℕ : ℕ → ℕ → ℤ
sub_ℕ a b = if leb b a then pos (a - b) else negsuc (b - a - 1)

abbrev pub cents_lt : ℤ → ℤ → Bool
cents_lt a b = ltb (pos_part a + neg_part b) (pos_part b + neg_part a)

-- The value, if its mantissa fits.
abbrev in_range : ℤ → Option ℤ
in_range z = if ltb (pos_part z + neg_part z) (2 ^ 96) then some z else none

unfoldable pub cents_add : ℤ → ℤ → Option ℤ
cents_add a b = in_range (sub_ℕ (pos_part a + pos_part b) (neg_part a + neg_part b))

unfoldable pub cents_sub : ℤ → ℤ → Option ℤ
cents_sub a b = in_range (sub_ℕ (pos_part a + neg_part b) (neg_part a + pos_part b))

pub cents_lt_asymm : (a b : ℤ) → cents_lt a b ≡ true → cents_lt b a ≡ false
cents_lt_asymm a b h = ground arith

pub cents_lt_trans : (a b c : ℤ) → cents_lt a b ≡ true → cents_lt c b ≡ false → cents_lt a c ≡ true
cents_lt_trans a b c h k = ground arith

pub cents_add_ge :
    (a b c : ℤ) → cents_lt b (pos 0) ≡ false → cents_add a b ≡ some c → cents_lt c a ≡ false
unfolding cents_add
cents_add_ge a b c h e = ground arith

pub cents_sub_nonneg :
    (a b c : ℤ) → cents_lt a b ≡ false → cents_sub a b ≡ some c → cents_lt c (pos 0) ≡ false
unfolding cents_sub
cents_sub_nonneg a b c h e = ground arith

instance abbrev pub cents : Decimal ℤ
cents = record {
  zero = pos 0;
  lt = cents_lt;
  add = cents_add;
  sub = cents_sub;
  lt_asymm = cents_lt_asymm;
  lt_trans = cents_lt_trans;
  add_ge = cents_add_ge;
  sub_nonneg = cents_sub_nonneg;
}
