-- ===== src/Time/Clock.antt =====
-- src/time/clock.rs, as the tests build it. `system` is what `Instant::now()` returns; the clock of
-- a build without tests always shows it.
pub mod Monotone
pub mod Resumed
use asyncr.Prelude.{
  ℕ, ◌+◌, ◌-◌, Bool, true, false, none, some, Outcome, ok, panic, clock_out_of_range,
  clock_already_paused, clock_already_running, clock_not_paused, clock_backwards, leb,
  if◌then◌else◌,
}
use asyncr.Time.{checked_add}

pub data Clock : Type 0 where
  real : (started_at base : ℕ) → Clock
  paused : (now : ℕ) → Clock

unfoldable pub new : ℕ → Clock
new system = real system system

unfoldable pub new_paused : ℕ → Clock
new_paused system = paused system

-- `Instant + Duration`, which panics past the limit.
abbrev pub add : ℕ → ℕ → ℕ → Outcome ℕ
add limit instant duration = elim (checked_add limit instant duration) [
  | none ↦ panic clock_out_of_range
  | some sum ↦ ok sum
]

unfoldable pub now : ℕ → ℕ → Clock → Outcome ℕ
now limit system (real started_at base) = add limit base (system - started_at)
now limit system (paused instant) = ok instant

-- `Clock::now` of a build without tests.
unfoldable pub release_now : ℕ → ℕ
release_now system = system

unfoldable pub pause : ℕ → ℕ → Clock → Outcome Clock
pause limit system (real started_at base) = elim (add limit base (system - started_at)) [
  | ok instant ↦ ok (paused instant)
  | panic p ↦ panic p
]
pause limit system (paused _) = panic clock_already_paused

unfoldable pub resume : ℕ → Clock → Outcome Clock
resume system (paused instant) = ok (real system instant)
resume system (real _ _) = panic clock_already_running

unfoldable pub advance : ℕ → ℕ → Clock → Outcome Clock
advance limit duration (paused instant) = elim (checked_add limit instant duration) [
  | none ↦ panic clock_out_of_range
  | some later ↦ ok (paused later)
]
advance limit duration (real _ _) = panic clock_not_paused

unfoldable pub advance_to : ℕ → Clock → Outcome Clock
advance_to instant (paused current) =
    if leb current instant then ok (paused instant) else panic clock_backwards
advance_to instant (real _ _) = panic clock_not_paused

unfoldable pub is_paused : Clock → Bool
is_paused (paused _) = true
is_paused (real _ _) = false
