-- ===== src/Time.antt =====
-- src/time/mod.rs. An `Instant` is the number of nanoseconds since the earliest instant that the
-- platform represents, a `Duration` a number of nanoseconds, and `limit` the latest instant.
pub mod Heap
pub mod Driver
pub mod Clock
pub mod Sleep
pub mod Interval
pub mod Timeout
use asyncr.Prelude.{
  ℕ, ◌+◌, Option, none, some, Outcome, ok, panic, timer_out_of_range, leb, if◌then◌else◌,
}

-- `Instant::checked_add`.
abbrev pub checked_add : ℕ → ℕ → ℕ → Option ℕ
checked_add limit instant duration =
    if leb (instant + duration) limit then some (instant + duration) else none

unfoldable pub deadline_after : ℕ → ℕ → ℕ → Outcome ℕ
deadline_after limit instant duration = elim (checked_add limit instant duration) [
  | none ↦ panic timer_out_of_range
  | some deadline ↦ ok deadline
]
