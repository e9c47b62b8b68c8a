-- ===== src/EventStore/Processor.antt =====
-- src/infrastructure/event_store.rs, `batch_processor`: the worker that collects requests into
-- batches.
use banking_es_feature_redis.Prelude.{
  ℕ, ◌≡◌, ◌<◌, leb, Option, none, some, List, [], ◌∷◌, ◌++◌, length, if◌then◌else◌, arith, sym,
}
use mathlib.Core.List.{append-nil, append_assoc}

-- What the `select!` of the loop wakes up on.
pub data Signal (R : Type 0) : Type 0 where
  request : R → Signal R
  timeout : Signal R

-- One turn of the loop, on `batch_size` and the batch at hand: the new batch, and the batch that
-- is handed to `flush_batch`.
unfoldable pub processor_step : {R : Type 0} → ℕ → List R → Signal R → List R × Option (List R)
processor_step batch_size batch (request event) =
    let batch' = batch ++ event ∷ [] in
    if leb batch_size (length batch') then ([], some batch') else (batch', none)
processor_step batch_size [] timeout = ([], none)
processor_step batch_size (event ∷ batch) timeout = ([], some (event ∷ batch))

-- The loop over the signals that arrive: the batch at the end, and the batches that were flushed.
unfoldable pub run_processor : {R : Type 0} → ℕ → List R → List (Signal R) → List R × List (List R)
unfolding processor_step
run_processor batch_size batch [] = (batch, [])
run_processor batch_size batch (signal ∷ signals) =
    let (batch', out) = processor_step batch_size batch signal in
    let (last, flushed) = run_processor batch_size batch' signals in
    elim out [ none ↦ (last, flushed) | some b ↦ (last, b ∷ flushed) ]

-- The requests among the signals, in order.
abbrev pub requests : {R : Type 0} → List (Signal R) → List R
requests [] = []
requests (request event ∷ signals) = event ∷ requests signals
requests (timeout ∷ signals) = requests signals

-- The batches one after another.
abbrev pub joined : {R : Type 0} → List (List R) → List R
joined [] = []
joined (b ∷ bs) = b ++ joined bs

-- Over any signals, the requests of the flushed batches, in the order of flushing, and then those
-- that wait are the requests that waited at the start and then those that arrived, in the order
-- of arrival.
pub run_processor-joined :
    {R : Type 0} (batch_size : ℕ) (batch : List R) (signals : List (Signal R))
    → let (last, flushed) = run_processor batch_size batch signals in
      joined flushed ++ last ≡ batch ++ requests signals
unfolding run_processor
run_processor-joined batch_size batch [] = sym (append-nil batch)
run_processor-joined batch_size batch (request event ∷ signals) =
    let batch' = batch ++ event ∷ [] in
    let (last, flushed) = run_processor batch_size [] signals in
    ground (
      arith,
      append_assoc batch' (joined flushed) last,
      append_assoc batch (event ∷ []) (requests signals),
      run_processor-joined batch_size [] signals,
      run_processor-joined batch_size batch' signals,
    )
run_processor-joined batch_size [] (timeout ∷ signals) = run_processor-joined batch_size [] signals
run_processor-joined batch_size (event ∷ batch) (timeout ∷ signals) =
    let (last, flushed) = run_processor batch_size [] signals in
    ground (
      arith,
      append_assoc (event ∷ batch) (joined flushed) last,
      run_processor-joined batch_size [] signals,
    )

-- If fewer than `batch_size` requests wait, fewer than `batch_size` wait after any signals.
pub run_processor-length :
    {R : Type 0} (batch_size : ℕ) (batch : List R) (signals : List (Signal R))
    → length batch < batch_size
    → length (run_processor batch_size batch signals).0 < batch_size
unfolding run_processor
run_processor-length batch_size batch [] h = h
run_processor-length batch_size batch (request event ∷ signals) h = ground (
  arith,
  run_processor-length batch_size [] signals,
  run_processor-length batch_size (batch ++ event ∷ []) signals,
)
run_processor-length batch_size [] (timeout ∷ signals) h =
    run_processor-length batch_size [] signals h
run_processor-length batch_size (event ∷ batch) (timeout ∷ signals) h =
    ground (arith, run_processor-length batch_size [] signals)
