-- ===== src/Suite/Intervals.antt =====
-- The tests of src/time/interval.rs: the wakers a and b are 0 and 1, and 2 wakes nobody.
use asyncr.Prelude.{
  ℕ, ◌+◌, ◌*◌, ◌≡◌, refl, List, [], ◌∷◌, Outcome, ok, Poll, ready, pending, none, panic,
  no_current_runtime, zero_period, Bool, false, ◌==◌,
}
use asyncr.Api
use asyncr.Shared.{Shared}
use asyncr.Time.Sleep
use asyncr.Time.Interval
use asyncr.Time.Interval.{Interval, MissedTickBehavior, burst, skip, delay, missed_tick_grace_delay}
use asyncr.Suite.{
  Script, ◌>>=◌, ◌>>◌, assert, attempt, outcome, second, limit, is_pending, will_wake, Bench, bench,
  now, advance, process_expired, assert_count, assert_next, assert_no_next, Passes,
}
use asyncr.Suite.Sleeps.{drop_sleep}

abbrev is_tick : Poll ℕ → ℕ → Bool
is_tick (ready tick) instant = tick == instant
is_tick pending instant = false

unfoldable new_interval : ℕ → ℕ → Script Bench Interval
unfolding Interval.new Sleep.new
new_interval start period = attempt (Interval.new (Sleep.new start) period burst)

-- The paused clock shows the same at both readings.
unfoldable poll_tick : ℕ → Interval → Script Bench (Poll ℕ × Interval)
unfolding now Interval.poll_tick
poll_tick waker interval = do
  instant ← now
  λ b.
      let (answer, interval', timers) =
        Interval.poll_tick limit will_wake instant instant waker interval b.timers in
      (
        elim answer [ ok polled ↦ ok (polled, interval') | panic p ↦ panic p ],
        record b { timers = timers },
      )

unfoldable assert_tick : ℕ → ℕ → Interval → Script Bench Interval
unfolding poll_tick
assert_tick waker instant interval = do
  (answer, interval') ← poll_tick waker interval
  assert (is_tick answer instant)
  attempt (ok interval')

unfoldable assert_pending : ℕ → Interval → Script Bench Interval
unfolding poll_tick
assert_pending waker interval = do
  (answer, interval') ← poll_tick waker interval
  assert (is_pending answer)
  attempt (ok interval')

unfoldable reset_at : ℕ → Interval → Script Bench Interval
unfolding Interval.reset_at
reset_at deadline interval b =
    let (interval', timers) = Interval.reset_at deadline interval b.timers in
    (ok interval', record b { timers = timers })

unfoldable first_tick_is_immediate_and_next_tick_waits_one_period : Script Bench (Unit {0})
unfolding now new_interval assert_tick assert_pending advance process_expired assert_next
first_tick_is_immediate_and_next_tick_waits_one_period = do
  start ← now
  let period = 5 * second
  interval ← new_interval start period
  ticked ← assert_tick 2 start interval
  waiting ← assert_pending 0 ticked
  assert_next (start + period)
  advance period
  process_expired
  assert_count 0 1
  assert_tick 0 (start + period) waiting
  attempt (ok tt)

unfoldable burst_behavior_returns_each_missed_tick : Script Bench (Unit {0})
unfolding now new_interval assert_tick assert_pending advance assert_next
burst_behavior_returns_each_missed_tick = do
  start ← now
  interval ← new_interval start (10 * second)
  at_0 ← assert_tick 2 start interval
  advance (35 * second)
  at_10 ← assert_tick 2 (start + 10 * second) at_0
  at_20 ← assert_tick 2 (start + 20 * second) at_10
  at_30 ← assert_tick 2 (start + 30 * second) at_20
  assert_pending 2 at_30
  assert_next (start + 40 * second)

unfoldable delay_behavior_schedules_from_when_missed_tick_is_observed : Script Bench (Unit {0})
unfolding now new_interval assert_tick assert_pending advance assert_next
    Interval.set_missed_tick_behavior
delay_behavior_schedules_from_when_missed_tick_is_observed = do
  start ← now
  let period = 10 * second
  interval ← new_interval start period
  ticked ← assert_tick 2 start (Interval.set_missed_tick_behavior delay interval)
  advance (15 * second)
  missed ← assert_tick 2 (start + period) ticked
  assert_pending 2 missed
  assert_next (start + 25 * second)

unfoldable lateness_within_grace_keeps_regular_schedule : Script Bench (Unit {0})
unfolding now new_interval assert_tick assert_pending advance assert_next
    Interval.set_missed_tick_behavior
lateness_within_grace_keeps_regular_schedule = do
  start ← now
  let period = 10 * second
  interval ← new_interval start period
  ticked ← assert_tick 2 start (Interval.set_missed_tick_behavior delay interval)
  advance (period + missed_tick_grace_delay)
  late ← assert_tick 2 (start + period) ticked
  assert_pending 2 late
  assert_next (start + period + period)

unfoldable skip_behavior_advances_to_next_scheduled_tick : Script Bench (Unit {0})
unfolding now new_interval assert_tick assert_pending advance assert_next
    Interval.set_missed_tick_behavior
skip_behavior_advances_to_next_scheduled_tick = do
  start ← now
  let period = 10 * second
  interval ← new_interval start period
  ticked ← assert_tick 2 start (Interval.set_missed_tick_behavior skip interval)
  advance (35 * second)
  missed ← assert_tick 2 (start + period) ticked
  assert_pending 2 missed
  assert_next (start + 40 * second)

unfoldable reset_at_reschedules_pending_tick : Script Bench (Unit {0})
unfolding now new_interval assert_tick assert_pending reset_at advance process_expired assert_next
reset_at_reschedules_pending_tick = do
  start ← now
  let reset_deadline = start + 5 * second
  interval ← new_interval start (10 * second)
  ticked ← assert_tick 2 start interval
  waiting ← assert_pending 2 ticked
  moved ← reset_at reset_deadline waiting
  assert_next reset_deadline
  advance (5 * second)
  process_expired
  assert_tick 2 reset_deadline moved
  attempt (ok tt)

-- A poll of the future of `tick` is a `poll_tick`, and dropping it leaves the interval.
unfoldable dropping_pending_tick_preserves_interval_and_updates_waker : Script Bench (Unit {0})
unfolding now new_interval assert_tick assert_pending advance process_expired
dropping_pending_tick_preserves_interval_and_updates_waker = do
  start ← now
  let period = 5 * second
  interval ← new_interval (start + period) period
  polled_by_a ← assert_pending 0 interval
  polled_by_b ← assert_pending 1 polled_by_a
  advance period
  process_expired
  assert_count 0 0
  assert_count 1 1
  assert_tick 1 (start + period) polled_by_b
  attempt (ok tt)

unfoldable dropping_interval_cancels_pending_tick : Script Bench (Unit {0})
unfolding now new_interval assert_pending assert_next assert_no_next drop_sleep
dropping_interval_cancels_pending_tick = do
  start ← now
  let period = 5 * second
  let deadline = start + period
  interval ← new_interval deadline period
  waiting ← assert_pending 2 interval
  assert_next deadline
  drop_sleep waiting.sleep
  assert_no_next

abbrev tests : List (Script Bench (Unit {0}))
tests =
    first_tick_is_immediate_and_next_tick_waits_one_period ∷ burst_behavior_returns_each_missed_tick
    ∷ delay_behavior_schedules_from_when_missed_tick_is_observed
    ∷ lateness_within_grace_keeps_regular_schedule ∷ skip_behavior_advances_to_next_scheduled_tick
    ∷ reset_at_reschedules_pending_tick ∷ dropping_pending_tick_preserves_interval_and_updates_waker
    ∷ dropping_interval_cancels_pending_tick ∷ []

tests_pass : Passes bench tests
unfolding bench first_tick_is_immediate_and_next_tick_waits_one_period
    burst_behavior_returns_each_missed_tick
    delay_behavior_schedules_from_when_missed_tick_is_observed
    lateness_within_grace_keeps_regular_schedule skip_behavior_advances_to_next_scheduled_tick
    reset_at_reschedules_pending_tick dropping_pending_tick_preserves_interval_and_updates_waker
    dropping_interval_cancels_pending_tick
tests_pass = (refl, (refl, (refl, (refl, (refl, (refl, (refl, (refl, tt))))))))

unfoldable zero_period_is_rejected : Script Bench Interval
unfolding now new_interval
zero_period_is_rejected = do start ← now; new_interval start 0

zero_period_panics : outcome zero_period_is_rejected bench ≡ panic zero_period
unfolding zero_period_is_rejected bench
zero_period_panics = refl

-- `system` is what `Instant::now()` returns.
module _ {H F V : Type 0} (at : H → Shared F V) where
  unfoldable public_interval_requires_an_entered_runtime : Outcome (H × Interval)
  unfolding Api.interval
  public_interval_requires_an_entered_runtime = Api.interval limit at second none

  unfoldable public_interval_at_requires_an_entered_runtime : ℕ → Outcome (H × Interval)
  unfolding Api.interval_at
  public_interval_at_requires_an_entered_runtime system =
      Api.interval_at limit at system second none

  interval_panics :
      (system : ℕ)
      → (public_interval_requires_an_entered_runtime ≡ panic no_current_runtime)
        × (public_interval_at_requires_an_entered_runtime system ≡ panic no_current_runtime)
  unfolding public_interval_requires_an_entered_runtime
      public_interval_at_requires_an_entered_runtime
  interval_panics system = (refl, refl)
