-- ===== src/Decimal/Interface.antt =====
-- The amounts of money: what the service uses of `rust_decimal::Decimal`, which is not its own
-- code. `Decimal/Cents.antt` is an instance.
use banking_es_feature_redis.Prelude.{◌≡◌, Bool, true, false, not, Option, some}

-- `<`, `+` and `-` of a decimal type. An addition or a subtraction whose result has no
-- representation panics, which is `none`.
pub record Decimal (D : Type 0) : Type 0 where
  pub zero : D
  pub lt : D → D → Bool
  pub add : D → D → Option D
  pub sub : D → D → Option D
  -- the documented total order: `<` is asymmetric and negatively transitive
  pub lt_asymm : (a b : D) → lt a b ≡ true → lt b a ≡ false
  pub lt_trans : (a b c : D) → lt a b ≡ true → lt c b ≡ false → lt a c ≡ true
  -- a sum of two amounts that are not negative is at least the first
  pub add_ge : (a b c : D) → lt b zero ≡ false → add a b ≡ some c → lt c a ≡ false
  -- what is left of `a` after `b ≤ a` is taken is not negative
  pub sub_nonneg : (a b c : D) → lt a b ≡ false → sub a b ≡ some c → lt c zero ≡ false

-- `a <= b` on a total order.
abbrev pub le : {D : Type 0} ⦃d : Decimal D⦄ → D → D → Bool
le ⦃d⦄ a b = not (d.lt b a)
