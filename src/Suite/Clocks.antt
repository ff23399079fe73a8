-- ===== src/Suite/Clocks.antt =====
-- The tests of src/time/clock.rs: a script keeps the clock, and the time of the platform, which passes
-- by the nanosecond at each step of the clock.
use asyncr.Prelude.{
  ℕ, ◌+◌, ◌*◌, ◌≡◌, refl, List, [], ◌∷◌, Outcome, ok, panic, clock_not_paused, leb, ◌==◌,
}
use asyncr.Time.Clock
use asyncr.Time.Clock.{Clock}
use asyncr.Suite.{Script, ◌>>=◌, ◌>>◌, assert, outcome, second, limit, Passes}

-- A clone of a clock shares its mode.
record Watch : Type 0 where
  clock : Clock
  system : ℕ

unfoldable watch : Watch
unfolding Clock.new
watch = record { clock = Clock.new 0; system = 0 }

unfoldable new_paused : Script Watch (Unit {0})
unfolding Clock.new_paused
new_paused w = (ok tt, record w { clock = Clock.new_paused w.system })

unfoldable new : Script Watch (Unit {0})
unfolding Clock.new
new w = (ok tt, record w { clock = Clock.new w.system })

unfoldable now : Script Watch ℕ
unfolding Clock.now
now w = (Clock.now limit w.system w.clock, record w { system = w.system + 1 })

abbrev changed : Outcome Clock → Script Watch (Unit {0})
changed (ok clock) w = (ok tt, record { clock = clock; system = w.system + 1 })
changed (panic p) w = (panic p, w)

unfoldable advance : ℕ → Script Watch (Unit {0})
unfolding Clock.advance
advance duration w = changed (Clock.advance limit duration w.clock) w

unfoldable pause : Script Watch (Unit {0})
unfolding Clock.pause
pause w = changed (Clock.pause limit w.system w.clock) w

unfoldable resume : Script Watch (Unit {0})
unfolding Clock.resume
resume w = changed (Clock.resume w.system w.clock) w

unfoldable paused_clock_advances_by_requested_duration : Script Watch (Unit {0})
unfolding new_paused now advance
paused_clock_advances_by_requested_duration = do
  new_paused
  start ← now
  advance (5 * second)
  shown ← now
  assert (shown == start + 5 * second)

unfoldable clones_observe_the_same_time : Script Watch (Unit {0})
unfolding new_paused now advance
clones_observe_the_same_time = do
  new_paused
  start ← now
  advance (5 * second)
  shown_by_other ← now
  assert (shown_by_other == start + 5 * second)

unfoldable running_clock_can_be_paused_and_advanced : Script Watch (Unit {0})
unfolding new pause now advance
running_clock_can_be_paused_and_advanced = do
  new
  pause
  paused_at ← now
  advance (5 * second)
  shown ← now
  assert (shown == paused_at + 5 * second)

unfoldable resume_preserves_virtual_time : Script Watch (Unit {0})
unfolding new_paused pause resume now advance
resume_preserves_virtual_time = do
  new_paused
  start ← now
  advance (60 * 60 * second)
  advanced ← now
  resume
  pause
  shown ← now
  assert (leb advanced shown)
  shown_again ← now
  assert (leb (start + 60 * 60 * second) shown_again)

abbrev tests : List (Script Watch (Unit {0}))
tests =
    paused_clock_advances_by_requested_duration ∷ clones_observe_the_same_time
    ∷ running_clock_can_be_paused_and_advanced ∷ resume_preserves_virtual_time ∷ []

tests_pass : Passes watch tests
unfolding watch paused_clock_advances_by_requested_duration clones_observe_the_same_time
    running_clock_can_be_paused_and_advanced resume_preserves_virtual_time
tests_pass = (refl, (refl, (refl, (refl, tt))))

unfoldable running_clock_cannot_advance : Script Watch (Unit {0})
unfolding new advance
running_clock_cannot_advance = do new; advance second

running_clock_panics : outcome running_clock_cannot_advance watch ≡ panic clock_not_paused
unfolding running_clock_cannot_advance watch
running_clock_panics = refl
