-- ===== src/Redis/Shedder.antt =====
-- src/infrastructure/redis_abstraction.rs: `LoadShedder` and its permits.
use banking_es_feature_redis.Prelude.{
  ℕ, zero, suc, ◌+◌, ◌-◌, ◌<◌, ◌%◌, ◌^◌, ◌≡◌, refl, Bool, Option, none, some, List, [], ◌∷◌, U64,
  add64, length, if◌then◌else◌, arith, ltb, ◌∙◌,
}

-- `available` is the number of permits that the semaphore has left.
pub record LoadShedder : Type 0 where
  pub available : ℕ
  pub current_load : U64
  pub rejected_requests : U64

-- A permit holds a clone of the shedder, whose `current_load` is a new counter.
pub record LoadShedderPermit : Type 0 where
  pub clone_load : U64

-- `LoadShedder::new`, by `max_concurrent_requests`
unfoldable pub new : ℕ → LoadShedder
new max_concurrent_requests = record {
  available = max_concurrent_requests;
  current_load = 0;
  rejected_requests = 0;
}

-- A request that is not admitted.
unfoldable pub rejected : LoadShedder → Option LoadShedderPermit × LoadShedder
rejected s = (none, record s { rejected_requests = add64 s.rejected_requests 1 })

-- The wait for a permit of the semaphore, which times out where none is left.
unfoldable pub acquire_from : ℕ → LoadShedder → Option LoadShedderPermit × LoadShedder
unfolding rejected
acquire_from zero s = rejected s
acquire_from (suc left) s =
    let load = add64 s.current_load 1 in
    (some (record { clone_load = load }), record s { available = left; current_load = load })

-- `acquire_permit`; `overloaded` is `is_system_overloaded`.
unfoldable pub acquire_permit : Bool → LoadShedder → Option LoadShedderPermit × LoadShedder
unfolding acquire_from
acquire_permit overloaded s = if overloaded then rejected s else acquire_from s.available s

-- `fetch_sub(1)` on a word
abbrev pub sub_one : U64 → U64
sub_one a = (a + (2 ^ 64 - 1)) % 2 ^ 64

-- `Drop` of a permit: the counter of its clone goes down, and the semaphore has one more permit.
unfoldable pub drop_permit : LoadShedderPermit → LoadShedder → LoadShedderPermit × LoadShedder
drop_permit p s =
    (record p { clone_load = sub_one p.clone_load }, record s { available = s.available + 1 })

pub data Operation : Type 0 where
  acquire : (overloaded : Bool) → Operation
  drop_last : Operation

-- The shedder and the permits that are held.
pub record Load : Type 0 where
  pub shedder : LoadShedder
  pub held : List LoadShedderPermit

-- One operation; there may be no permit to drop.
unfoldable pub operate : Load → Operation → Load
unfolding acquire_permit drop_permit
operate l (acquire overloaded) =
    let (p, s) = acquire_permit overloaded l.shedder in
    elim p [ none ↦ record l { shedder = s } | some q ↦ record { shedder = s; held = q ∷ l.held } ]
operate l drop_last = elim l.held [
  | [] ↦ l
  | p ∷ rest ↦ record { shedder = (drop_permit p l.shedder).1; held = rest }
]

unfoldable pub run_operations : Load → List Operation → Load
run_operations l [] = l
run_operations l (o ∷ os) = run_operations (operate l o) os

operate-available :
    (l : Load) (o : Operation)
    → (operate l o).shedder.available + length (operate l o).held
      ≡ l.shedder.available + length l.held
unfolding operate
operate-available l (acquire overloaded) = ground arith
operate-available l drop_last = ground arith

-- Over any acquisitions and drops, the permits that are held and those that are left are together
-- as many as at the start.
pub run_operations-available :
    (l : Load) (os : List Operation)
    → (run_operations l os).shedder.available + length (run_operations l os).held
      ≡ l.shedder.available + length l.held
unfolding run_operations
run_operations-available l [] = refl
run_operations-available l (o ∷ os) =
    run_operations-available (operate l o) os ∙ operate-available l o

-- The requests that a run admits.
pub admitted : Load → List Operation → ℕ
admitted l [] = 0
admitted l (o ∷ os) =
    let more = admitted (operate l o) os in
    if ltb (length l.held) (length (operate l o).held) then more + 1 else more

operate-current_load :
    (l : Load) (o : Operation)
    → (operate l o).shedder.current_load ≡ (
        if ltb (length l.held) (length (operate l o).held)
        then add64 l.shedder.current_load 1
        else l.shedder.current_load)
unfolding operate
operate-current_load l (acquire overloaded) = ground arith
operate-current_load l drop_last = ground arith

-- Over any acquisitions and drops, `current_load`, a word, goes up by the number of admitted
-- requests, modulo 2^64, and no dropped permit takes anything off it.
pub run_operations-current_load :
    (l : Load) (os : List Operation)
    → l.shedder.current_load < 2 ^ 64
    → (run_operations l os).shedder.current_load ≡ add64 l.shedder.current_load (admitted l os)
unfolding run_operations admitted
run_operations-current_load l [] w = omega arith
run_operations-current_load l (o ∷ os) w =
    let now = operate-current_load l o in
    ground (arith, now, run_operations-current_load (operate l o) os)
