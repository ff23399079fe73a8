-- ===== src/Suite/Timers.antt =====
-- The tests of src/time/driver.rs: the wakers a, b and c are 0, 1 and 2.
use asyncr.Prelude.{◌+◌, ◌*◌, refl, List, [], ◌∷◌}
use asyncr.Suite.{
  Script, ◌>>=◌, ◌>>◌, second, Bench, bench, now, advance, register, update_waker, cancel,
  reschedule, process_expired, assert_count, assert_next, assert_no_next, Passes,
}

unfoldable timer_expires_when_shared_clock_reaches_deadline : Script Bench (Unit {0})
unfolding now register process_expired advance assert_no_next
timer_expires_when_shared_clock_reaches_deadline = do
  start ← now
  register (start + 5 * second) 0
  process_expired
  assert_count 0 0
  advance (5 * second)
  process_expired
  assert_count 0 1
  process_expired
  assert_count 0 1
  assert_no_next

unfoldable next_deadline_skips_cancelled_timer : Script Bench (Unit {0})
unfolding now register cancel assert_next
next_deadline_skips_cancelled_timer = do
  start ← now
  let cancelled_deadline = start + 5 * second
  let active_deadline = start + 10 * second
  id ← register cancelled_deadline 0
  register active_deadline 1
  cancel id
  assert_next active_deadline

unfoldable cancelled_timer_is_not_woken : Script Bench (Unit {0})
unfolding now register cancel advance process_expired assert_no_next
cancelled_timer_is_not_woken = do
  start ← now
  id_a ← register (start + 5 * second) 0
  register (start + 10 * second) 1
  cancel id_a
  advance (15 * second)
  process_expired
  assert_count 0 0
  assert_count 1 1
  assert_no_next

unfoldable rescheduling_later_does_not_fire_at_the_old_deadline : Script Bench (Unit {0})
unfolding now register reschedule advance process_expired assert_next assert_no_next
rescheduling_later_does_not_fire_at_the_old_deadline = do
  start ← now
  id ← register (start + 5 * second) 0
  reschedule id (start + 10 * second)
  advance (5 * second)
  process_expired
  assert_count 0 0
  assert_next (start + 10 * second)
  advance (5 * second)
  process_expired
  assert_count 0 1
  assert_no_next

unfoldable updating_the_waker_replaces_the_old_one : Script Bench (Unit {0})
unfolding now register update_waker advance process_expired assert_no_next
updating_the_waker_replaces_the_old_one = do
  start ← now
  id ← register (start + 5 * second) 0
  update_waker id 1
  advance (5 * second)
  process_expired
  assert_count 0 0
  assert_count 1 1
  assert_no_next

unfoldable timers_expire_in_deadline_order : Script Bench (Unit {0})
unfolding now register advance process_expired assert_next assert_no_next
timers_expire_in_deadline_order = do
  start ← now
  let deadline_a = start + 10 * second
  let deadline_b = start + 5 * second
  let deadline_c = start + 7 * second
  register deadline_a 0
  register deadline_b 1
  register deadline_c 2
  assert_next deadline_b
  advance (5 * second)
  process_expired
  assert_count 0 0
  assert_count 1 1
  assert_count 2 0
  assert_next deadline_c
  advance (2 * second)
  process_expired
  assert_count 0 0
  assert_count 1 1
  assert_count 2 1
  assert_next deadline_a
  advance (3 * second)
  process_expired
  assert_count 0 1
  assert_count 1 1
  assert_count 2 1
  assert_no_next

unfoldable timers_with_equal_deadlines_all_expire_once : Script Bench (Unit {0})
unfolding now register advance process_expired assert_no_next
timers_with_equal_deadlines_all_expire_once = do
  start ← now
  let deadline = start + 5 * second
  register deadline 0
  register deadline 1
  register deadline 2
  advance (5 * second)
  process_expired
  assert_count 0 1
  assert_count 1 1
  assert_count 2 1
  assert_no_next
  process_expired
  assert_count 0 1
  assert_count 1 1

abbrev tests : List (Script Bench (Unit {0}))
tests =
    timer_expires_when_shared_clock_reaches_deadline ∷ next_deadline_skips_cancelled_timer
    ∷ cancelled_timer_is_not_woken ∷ rescheduling_later_does_not_fire_at_the_old_deadline
    ∷ updating_the_waker_replaces_the_old_one ∷ timers_expire_in_deadline_order
    ∷ timers_with_equal_deadlines_all_expire_once ∷ []

tests_pass : Passes bench tests
unfolding bench timer_expires_when_shared_clock_reaches_deadline next_deadline_skips_cancelled_timer
    cancelled_timer_is_not_woken rescheduling_later_does_not_fire_at_the_old_deadline
    updating_the_waker_replaces_the_old_one timers_expire_in_deadline_order
    timers_with_equal_deadlines_all_expire_once
tests_pass = (refl, (refl, (refl, (refl, (refl, (refl, (refl, tt)))))))
