-- ===== src/Prelude/Invariants.antt =====
-- Invariants of actions: a rule for each way to build one.
use mathlib.Core.Path.{◌≡◌, refl, sym, ap, ◌∙◌, subst}
use mathlib.Core.Logic.{◌≢◌}
use native.Mathlib.Omega.{arith}
use mathlib.Core.Bool.{Bool, true, false}
use banking_es_feature_redis.Prelude.Tests.{if◌then◌else◌}
use banking_es_feature_redis.Prelude.Outcomes.{Outcome, ok, err, panic}
use banking_es_feature_redis.Prelude.Actions.{
  Action, ◌>>=◌, lift, modify, map_error, matched, bind-inversion,
}

-- The state that the action leaves has the property, however the call ends.
pub record Keeps {S E A : Type 0} (P : S → Type 0) (m : Action S E A) : Type 0 where
  pub at : (s : S) → P s → P (m s).1

renamed :
    {S E F A : Type 0} (P : S → Type 0) (f : E → F) (r : Outcome E A) (s : S)
    → P s
    → P (map_error f (λ (t : S). (r, t)) s).1
renamed P f (ok a) s h = h
renamed P f (err e) s h = h
renamed P f panic s h = h

module _ {S : Type 0} {P : S → Type 0} where
  pub Keeps-lift : {E A : Type 0} (r : Outcome E A) → Keeps P (lift {S = S} r)
  Keeps-lift r = record { at = λ s h. h }

  pub Keeps-modify :
      {E : Type 0} (f : S → S) → ((s : S) → P s → P (f s)) → Keeps P (modify {E = E} f)
  Keeps-modify f kept = record { at = kept }

  continued :
      {E A B : Type 0} (r : Outcome E A) (f : A → Action S E B)
      → ((a : A) → Keeps P (f a))
      → (s : S) → P s
      → P (((λ (t : S). (r, t)) >>= f) s).1
  continued (ok a) f next s h = (next a).at s h
  continued (err e) f next s h = h
  continued panic f next s h = h

  pub Keeps-bind :
      {E A B : Type 0} (m : Action S E A) (f : A → Action S E B)
      → Keeps P m
      → ((a : A) → Keeps P (f a))
      → Keeps P (m >>= f)
  Keeps-bind m f first next = record {
    at = λ s h. let (r, t) = m s in continued r f next t (first.at s h);
  }

  pub Keeps-map_error :
      {E F A : Type 0} (f : E → F) (m : Action S E A) → Keeps P m → Keeps P (map_error f m)
  Keeps-map_error f m first = record {
    at = λ s h. let (r, t) = m s in renamed P f r t (first.at s h);
  }

  split :
      {E F A B : Type 0} (r : Outcome E A) (f : A → Action S F B) (g : E → Action S F B)
      → ((a : A) → Keeps P (f a))
      → ((e : E) → Keeps P (g e))
      → (s : S) → P s
      → P (matched (λ (t : S). (r, t)) f g s).1
  split (ok a) f g kf kg s h = (kf a).at s h
  split (err e) f g kf kg s h = (kg e).at s h
  split panic f g kf kg s h = h

  pub Keeps-matched :
      {E F A B : Type 0} (m : Action S E A) (f : A → Action S F B) (g : E → Action S F B)
      → Keeps P m
      → ((a : A) → Keeps P (f a))
      → ((e : E) → Keeps P (g e))
      → Keeps P (matched m f g)
  Keeps-matched m f g km kf kg = record {
    at = λ s h. let (r, t) = m s in split r f g kf kg t (km.at s h);
  }

  pub Keeps-if :
      {E A : Type 0} (b : Bool) (m n : Action S E A)
      → Keeps P m
      → Keeps P n
      → Keeps P (if b then m else n)
  Keeps-if true m n km kn = km
  Keeps-if false m n km kn = kn

pub ruleset keeps_rules = (Keeps-lift, Keeps-bind, Keeps-map_error, Keeps-matched, Keeps-if)

-- From a state with `P`, a call that succeeds gives `Q`.
pub record Ensures {S E A : Type 0} (P : S → Type 0) (m : Action S E A) (Q : A → S → Type 0)
    : Type 0 where
  pub at : (s : S) → P s → (a : A) → (m s).0 ≡ ok a → Q a (m s).1

module _ {S : Type 0} where
  ensured :
      {E A B : Type 0} (r : Outcome E A) (f : A → Action S E B) {P : S → Type 0}
      {Q : B → S → Type 0}
      → ((a : A) → Ensures P (f a) Q)
      → (s : S) → P s
      → (b : B) → (((λ (t : S). (r, t)) >>= f) s).0 ≡ ok b
      → Q b (((λ (t : S). (r, t)) >>= f) s).1
  ensured (ok a) f next s h b e = (next a).at s h b e
  ensured (err _) f next s h b e = absurd (ground arith)
  ensured panic f next s h b e = absurd (ground arith)

  -- `P` holds until the last step, which ensures `Q`.
  pub Ensures-bind :
      {E A B : Type 0} (m : Action S E A) (f : A → Action S E B) {P : S → Type 0}
      {Q : B → S → Type 0}
      → Keeps P m
      → ((a : A) → Ensures P (f a) Q)
      → Ensures P (m >>= f) Q
  Ensures-bind m f first next = record {
    at = λ s h b e. let (r, t) = m s in ensured r f next t (first.at s h) b e;
  }

  ensured_split :
      {E F A B : Type 0} (r : Outcome E A) (f : A → Action S F B) (g : E → Action S F B)
      {P : S → Type 0} {Q : B → S → Type 0}
      → ((a : A) → Ensures P (f a) Q)
      → ((e : E) → Ensures P (g e) Q)
      → (s : S) → P s
      → (b : B) → (matched (λ (t : S). (r, t)) f g s).0 ≡ ok b
      → Q b (matched (λ (t : S). (r, t)) f g s).1
  ensured_split (ok a) f g ef eg s h b e = (ef a).at s h b e
  ensured_split (err x) f g ef eg s h b e = (eg x).at s h b e
  ensured_split panic f g ef eg s h b e = absurd (ground arith)

  pub Ensures-matched :
      {E F A B : Type 0} (m : Action S E A) (f : A → Action S F B) (g : E → Action S F B)
      {P : S → Type 0} {Q : B → S → Type 0}
      → Keeps P m
      → ((a : A) → Ensures P (f a) Q)
      → ((e : E) → Ensures P (g e) Q)
      → Ensures P (matched m f g) Q
  Ensures-matched m f g km ef eg = record {
    at = λ s h b e. let (r, t) = m s in ensured_split r f g ef eg t (km.at s h) b e;
  }

  -- What always holds holds after a success.
  pub Ensures-Keeps :
      {E A : Type 0} (m : Action S E A) {P : S → Type 0} → Keeps P m → Ensures P m (λ _. P)
  Ensures-Keeps m km = record { at = λ s h a e. km.at s h }

  -- Steps that each keep `P` if they succeed.
  pub Ensures-then :
      {E A B : Type 0} (m : Action S E A) (f : A → Action S E B) {P : S → Type 0}
      → Ensures P m (λ _. P)
      → ((a : A) → Ensures P (f a) (λ _. P))
      → Ensures P (m >>= f) (λ _. P)
  Ensures-then m f {P} first next = record {
    at = λ s h b e.
        let (a, succeeds, whole) = bind-inversion m f s b e in
        subst (λ x. P x.1) (sym whole)
          ((next a).at (m s).1 (first.at s h a succeeds) b (sym (ap (λ x. x.0) whole) ∙ e));
  }

-- A call that starts with `P` and does not succeed leaves `P`.
pub record FailsIn {S E A : Type 0} (P : S → Type 0) (m : Action S E A) : Type 0 where
  pub at : (s : S) → P s → ((a : A) → (m s).0 ≢ ok a) → P (m s).1

module _ {S : Type 0} {P : S → Type 0} where
  failed :
      {E A B : Type 0} (r : Outcome E A) (f : A → Action S E B)
      → ((a : A) → FailsIn P (f a))
      → (s : S) → P s
      → ((b : B) → (((λ (t : S). (r, t)) >>= f) s).0 ≢ ok b)
      → P (((λ (t : S). (r, t)) >>= f) s).1
  failed (ok a) f next s h fails = (next a).at s h fails
  failed (err _) f next s h fails = h
  failed panic f next s h fails = h

  pub FailsIn-bind :
      {E A B : Type 0} (m : Action S E A) (f : A → Action S E B)
      → Keeps P m
      → ((a : A) → FailsIn P (f a))
      → FailsIn P (m >>= f)
  FailsIn-bind m f first next = record {
    at = λ s h fails. let (r, t) = m s in failed r f next t (first.at s h) fails;
  }

  -- A step that always succeeds.
  pub FailsIn-modify : {E : Type 0} (f : S → S) → FailsIn P (modify {E = E} f)
  FailsIn-modify f = record { at = λ s h fails. absurd (fails tt refl) }
