-- ===== src/Time/Clock/Resumed.antt =====
-- Resuming a clock of src/time/clock.rs and pausing it again.
use asyncr.Prelude.{ℕ, ◌+◌, ◌-◌, ◌≤◌, ◌≡◌, refl, ok, arith}
use asyncr.Time.Clock.{Clock, now, pause, resume, paused}

-- A paused clock that is resumed runs on from the instant that it showed; paused again, it has moved
-- by just the time that has passed on the platform, and in no time at all it is the clock it was.
-- The platform's time does not run backwards, and the instant is within the limit.
pub pause-resume :
    (limit system later instant : ℕ)
    → system ≤ later
    → instant + (later - system) ≤ limit
    → (running : Clock) × (resume system (paused instant) ≡ ok running)
      × (now limit system running ≡ ok instant)
      × (pause limit later running ≡ ok (paused (instant + (later - system))))
      × (pause limit system running ≡ ok (paused instant))
unfolding resume now pause
pause-resume limit system later instant le fits =
    (Clock.real system instant, refl, ground arith, ground arith, ground arith)
