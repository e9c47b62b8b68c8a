-- ===== src/Prelude/Actions.antt =====
-- Fallible code with a state, as the service's asynchronous methods are: a call gives its outcome
-- and the state that it leaves, which stays written after an error too.
use mathlib.Core.Path.{◌≡◌, refl, ap}
use native.Mathlib.Omega.{arith}
use banking_es_feature_redis.Prelude.Outcomes.{Outcome, ok, err, panic}

abbrev pub Action : Type 0 → Type 0 → Type 0 → Type 0
Action S E A = S → Outcome E A × S

infixl 5 ◌>>=◌ ◌>>◌
-- the `?` operator
abbrev pub ◌>>=◌ : {S E A B : Type 0} → Action S E A → (A → Action S E B) → Action S E B
◌>>=◌ m f s =
    let (r, s') = m s in elim r [ ok a ↦ f a s' | err e ↦ (err e, s') | panic ↦ (panic, s') ]

abbrev pub ◌>>◌ : {S E B : Type 0} → Action S E (Unit {0}) → Action S E B → Action S E B
m >> k = m >>= λ _. k

-- A value that is known already.
abbrev pub lift : {S E A : Type 0} → Outcome E A → Action S E A
lift r s = (r, s)

abbrev pub modify : {S E : Type 0} → (S → S) → Action S E (Unit {0})
modify f s = (ok tt, f s)

-- `map_err`
abbrev pub map_error : {S E F A : Type 0} → (E → F) → Action S E A → Action S F A
map_error f m s =
    let (r, s') = m s in
    elim r [ ok a ↦ (ok a, s') | err e ↦ (err (f e), s') | panic ↦ (panic, s') ]

-- A `match` on the result of a call.
abbrev pub matched :
    {S E F A B : Type 0} → Action S E A → (A → Action S F B) → (E → Action S F B) → Action S F B
matched m on_ok on_err s =
    let (r, s') = m s in elim r [ ok a ↦ on_ok a s' | err e ↦ on_err e s' | panic ↦ (panic, s') ]

-- A step of a chain whose first call's result is known.
pub bind-ok :
    {S E A B : Type 0} (m : Action S E A) (f : A → Action S E B) (s t : S) (a : A)
    → m s ≡ (ok a, t)
    → (m >>= f) s ≡ f a t
bind-ok {S} {E} {A} {B} m f s t a h = ap (λ (x : Outcome E A × S). ((λ (_ : S). x) >>= f) s) h

pub bind-err :
    {S E A B : Type 0} (m : Action S E A) (f : A → Action S E B) (s t : S) (e : E)
    → m s ≡ (err e, t)
    → (m >>= f) s ≡ (err e, t)
bind-err {S} {E} {A} {B} m f s t e h = ap (λ (x : Outcome E A × S). ((λ (_ : S). x) >>= f) s) h

pub bind-panic :
    {S E A B : Type 0} (m : Action S E A) (f : A → Action S E B) (s t : S)
    → m s ≡ (panic, t)
    → (m >>= f) s ≡ (panic, t)
bind-panic {S} {E} {A} {B} m f s t h = ap (λ (x : Outcome E A × S). ((λ (_ : S). x) >>= f) s) h

followed :
    {S E A B : Type 0} (r : Outcome E A) (t : S) (f : A → Action S E B) (s : S) (b : B)
    → (((λ (_ : S). (r, t)) >>= f) s).0 ≡ ok b
    → (a : A) × (r ≡ ok a) × ((((λ (_ : S). (r, t)) >>= f) s) ≡ f a t)
followed (ok a) t f s b h = (a, refl, refl)
followed (err e) t f s b h = absurd (ground arith)
followed panic t f s b h = absurd (ground arith)

-- A chain that succeeds has a first call that does.
pub bind-inversion :
    {S E A B : Type 0} (m : Action S E A) (f : A → Action S E B) (s : S) (b : B)
    → ((m >>= f) s).0 ≡ ok b
    → (a : A) × ((m s).0 ≡ ok a) × ((m >>= f) s ≡ f a (m s).1)
bind-inversion m f s b h = followed (m s).0 (m s).1 f s b h
