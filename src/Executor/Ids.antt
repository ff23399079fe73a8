-- ===== src/Executor/Ids.antt =====
-- `SpawnState::next_id` of src/executor.rs.
use asyncr.Prelude.{
  ℕ, zero, suc, ◌^◌, ◌≤◌, ◌<◌, ◌≡◌, refl, Option, none, some, arith, ◌==◌, if◌then◌else◌,
}
use asyncr.Shared.{replace_id, next_id}

-- The loop as it is written, on fuel: a round takes the counter's value and leaves unless it is 0.
unfoldable pub next_id_loop : ℕ → ℕ → Option (ℕ × ℕ)
next_id_loop zero n = none
next_id_loop (suc fuel) n =
    let (id, next) = replace_id n in
    let rest = next_id_loop fuel next in if id == 0 then rest else some (id, next)

-- The loop of `SpawnState::next_id` ends in its second round at the latest, with the id that the
-- model takes. This id is never 0, which is the root task's, and it and the counter stay 64 bits
-- wide.
pub next_id_loop-ends :
    (fuel n : ℕ)
    → 2 ≤ fuel
    → n < 2 ^ 64
    → let (id, next) = next_id n in
      (next_id_loop fuel n ≡ some (id, next)) × (0 < id) × (id < 2 ^ 64) × (next < 2 ^ 64)
unfolding next_id_loop next_id
next_id_loop-ends zero n enough fits = absurd (omega (arith, enough))
next_id_loop-ends (suc zero) n enough fits = absurd (omega (arith, enough))
next_id_loop-ends (suc (suc fuel)) zero enough fits = (refl, omega arith, omega arith, omega arith)
next_id_loop-ends (suc (suc fuel)) (suc n) enough fits =
    (ground arith, ground arith, ground (arith, fits), ground arith)
