-- ===== src/Suite/Sleeps.antt =====
-- The tests of src/time/sleep.rs: the wakers a and b are 0 and 1, and 2 wakes nobody.
use asyncr.Prelude.{
  ℕ, ◌+◌, ◌-◌, ◌*◌, ◌≡◌, refl, List, [], ◌∷◌, Outcome, ok, Poll, none, panic, no_current_runtime,
}
use asyncr.Api
use asyncr.Shared.{Shared}
use asyncr.Time.Sleep
use asyncr.Time.Sleep.{Sleep}
use asyncr.Suite.{
  Script, ◌>>=◌, ◌>>◌, assert, second, limit, is_ready, is_pending, will_wake, Bench, bench, now,
  advance, process_expired, assert_count, assert_next, assert_no_next, assert_heard, Passes,
}

-- The sleep reads the clock of its timer handle.
unfoldable pub poll_sleep : ℕ → Sleep → Script Bench (Poll (Unit {0}) × Sleep)
unfolding now Sleep.poll
poll_sleep waker sleep = do
  instant ← now
  λ b.
      let (answer, sleep', timers) = Sleep.poll will_wake instant waker sleep b.timers in
      (
        elim answer [ ok polled ↦ ok (polled, sleep') | panic p ↦ panic p ],
        record b { timers = timers },
      )

unfoldable pub reset_sleep : ℕ → Sleep → Script Bench Sleep
unfolding Sleep.reset
reset_sleep deadline sleep b =
    let (sleep', timers) = Sleep.reset deadline sleep b.timers in
    (ok sleep', record b { timers = timers })

unfoldable pub drop_sleep : Sleep → Script Bench (Unit {0})
unfolding Sleep.drop
drop_sleep sleep b = (ok tt, record b { timers = Sleep.drop sleep b.timers })

unfoldable elapsed_deadline_is_immediately_ready : Script Bench (Unit {0})
unfolding now Sleep.new poll_sleep assert_no_next
elapsed_deadline_is_immediately_ready = do
  start ← now
  (answer, _) ← poll_sleep 0 (Sleep.new (start - 5 * second))
  assert (is_ready answer)
  assert_no_next
  assert_count 0 0

unfoldable zero_duration_sleep_is_immediately_ready : Script Bench (Unit {0})
unfolding now Sleep.new poll_sleep assert_no_next
zero_duration_sleep_is_immediately_ready = do
  start ← now
  (answer, _) ← poll_sleep 0 (Sleep.new start)
  assert (is_ready answer)
  assert_no_next
  assert_count 0 0

unfoldable sleep_expired_before_first_poll_is_ready : Script Bench (Unit {0})
unfolding now Sleep.new poll_sleep advance
sleep_expired_before_first_poll_is_ready = do
  start ← now
  let sleep = Sleep.new (start + 5 * second)
  advance (5 * second)
  (answer, _) ← poll_sleep 0 sleep
  assert (is_ready answer)
  assert_count 0 0

unfoldable pending_sleep_wakes_at_deadline : Script Bench (Unit {0})
unfolding now Sleep.new poll_sleep advance process_expired
pending_sleep_wakes_at_deadline = do
  start ← now
  (first, sleep) ← poll_sleep 0 (Sleep.new (start + 5 * second))
  assert (is_pending first)
  advance (5 * second)
  process_expired
  assert_heard 0
  (second_answer, _) ← poll_sleep 0 sleep
  assert (is_ready second_answer)

unfoldable deadline_wakes_most_recent_waker : Script Bench (Unit {0})
unfolding now Sleep.new poll_sleep advance process_expired
deadline_wakes_most_recent_waker = do
  start ← now
  (by_a, sleep) ← poll_sleep 0 (Sleep.new (start + 5 * second))
  assert (is_pending by_a)
  (by_b, _) ← poll_sleep 1 sleep
  assert (is_pending by_b)
  advance (5 * second)
  process_expired
  assert_heard 1
  assert_count 0 0

unfoldable repeated_polls_produce_one_deadline_wakeup : Script Bench (Unit {0})
unfolding now Sleep.new poll_sleep advance process_expired
repeated_polls_produce_one_deadline_wakeup = do
  start ← now
  (first, sleep_1) ← poll_sleep 0 (Sleep.new (start + 5 * second))
  assert (is_pending first)
  (again, sleep_2) ← poll_sleep 0 sleep_1
  assert (is_pending again)
  (once_more, _) ← poll_sleep 0 sleep_2
  assert (is_pending once_more)
  advance (5 * second)
  process_expired
  assert_count 0 1

unfoldable resetting_after_expiration_registers_the_new_deadline : Script Bench (Unit {0})
unfolding now Sleep.new poll_sleep reset_sleep advance process_expired assert_next
resetting_after_expiration_registers_the_new_deadline = do
  start ← now
  (first, sleep_1) ← poll_sleep 0 (Sleep.new (start + 5 * second))
  assert (is_pending first)
  advance (5 * second)
  process_expired
  assert_count 0 1
  expired ← now
  let second_deadline = expired + 5 * second
  sleep_2 ← reset_sleep second_deadline sleep_1
  (again, sleep_3) ← poll_sleep 0 sleep_2
  assert (is_pending again)
  assert_next second_deadline
  advance (5 * second)
  process_expired
  assert_count 0 2
  (last, _) ← poll_sleep 0 sleep_3
  assert (is_ready last)

unfoldable dropping_pending_sleep_cancels_registration : Script Bench (Unit {0})
unfolding now Sleep.new poll_sleep drop_sleep assert_next assert_no_next
dropping_pending_sleep_cancels_registration = do
  start ← now
  let deadline = start + 5 * second
  (answer, sleep) ← poll_sleep 2 (Sleep.new deadline)
  assert (is_pending answer)
  assert_next deadline
  drop_sleep sleep
  assert_no_next

abbrev tests : List (Script Bench (Unit {0}))
tests =
    elapsed_deadline_is_immediately_ready ∷ zero_duration_sleep_is_immediately_ready
    ∷ sleep_expired_before_first_poll_is_ready ∷ pending_sleep_wakes_at_deadline
    ∷ deadline_wakes_most_recent_waker ∷ repeated_polls_produce_one_deadline_wakeup
    ∷ resetting_after_expiration_registers_the_new_deadline
    ∷ dropping_pending_sleep_cancels_registration ∷ []

tests_pass : Passes bench tests
unfolding bench elapsed_deadline_is_immediately_ready zero_duration_sleep_is_immediately_ready
    sleep_expired_before_first_poll_is_ready pending_sleep_wakes_at_deadline
    deadline_wakes_most_recent_waker repeated_polls_produce_one_deadline_wakeup
    resetting_after_expiration_registers_the_new_deadline
    dropping_pending_sleep_cancels_registration
tests_pass = (refl, (refl, (refl, (refl, (refl, (refl, (refl, (refl, tt))))))))

-- `system` is what `Instant::now()` returns.
module _ {H F V : Type 0} (at : H → Shared F V) where
  unfoldable public_sleep_requires_an_entered_runtime : Outcome (H × Sleep)
  unfolding Api.sleep
  public_sleep_requires_an_entered_runtime = Api.sleep limit at second none

  unfoldable public_sleep_until_requires_an_entered_runtime : ℕ → Outcome (H × Sleep)
  unfolding Api.sleep_until
  public_sleep_until_requires_an_entered_runtime system =
      Api.sleep_until limit at (system + second) none

  sleep_panics :
      (system : ℕ)
      → (public_sleep_requires_an_entered_runtime ≡ panic no_current_runtime)
        × (public_sleep_until_requires_an_entered_runtime system ≡ panic no_current_runtime)
  unfolding public_sleep_requires_an_entered_runtime public_sleep_until_requires_an_entered_runtime
  sleep_panics system = (refl, refl)
