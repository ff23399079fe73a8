-- ===== src/Tests/Running.antt =====
-- A `block_on` outside any runtime, and the counter of ids once it has run through all of
-- them.
use asyncr.Prelude.{ℕ, ◌^◌, ◌<◌, arith, ◌≡◌, [], ◌∷◌, some}
use asyncr.Executor.Ids.{next_id_loop, next_id_loop-ends}
use asyncr.Shared.{next_id}
use asyncr.Executor.Run.{Arrival}
use asyncr.Runtime
use asyncr.Runtime.{Runtime}
use asyncr.Suite.Async.{Async, returns, waits}
use asyncr.Suite.Host.{host}

abbrev at_start : Runtime ℕ Async ℕ
at_start = host.runtime

-- A root that waits to be woken by another thread.
abbrev parked : Async
parked = waits (returns 42)

abbrev arrival : Arrival
arrival = record { elapsed = 3; wakes = 0 ∷ [] }

-- The counter has run through all ids.
next_id_loop-ends_example :
    let (id, next) = next_id 0 in
    (next_id_loop 2 0 ≡ some (id, next)) × (0 < id) × (id < 2 ^ 64) × (next < 2 ^ 64)
next_id_loop-ends_example = next_id_loop-ends 2 0 (omega arith) (omega arith)
