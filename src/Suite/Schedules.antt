-- ===== src/Suite/Schedules.antt =====
-- The tests of src/scheduling/mod.rs: one schedule of the task 1, and the ready channel.
use asyncr.Prelude.{
  ℕ, refl, List, [], ◌∷◌, Outcome, ok, Option, none, some, Poll, ready, pending, Bool, true, false,
  ◌==◌, Place,
}
use asyncr.Schedule
use asyncr.Schedule.{Scheduler}
use asyncr.Suite.{Script, ◌>>=◌, ◌>>◌, assert, attempt, is_pending, is_none, is_at, Passes}

abbrev id : ℕ
id = 1

-- The channel with a schedule made by `TaskSchedule::new`.
unfoldable scheduler : Scheduler
unfolding Schedule.new
scheduler = (Schedule.new id (record { schedules = []; ready = []; open_rx = true })).1

abbrev schedule : ℕ
schedule = 0

abbrev whole : Place Scheduler Scheduler
whole = record {
  view = λ s. s;
  put = λ t s. t;
  view-put = λ t s. refl;
  put-put = λ t u s. refl;
  put-view = λ s. refl;
}

-- Also what a wake of the task's waker does.
unfoldable request_schedule : Script Scheduler (Unit {0})
unfolding Schedule.request_schedule
request_schedule s = (ok tt, Schedule.request_schedule schedule s)

abbrev taken : List ℕ → Scheduler → Outcome (Option ℕ) × Scheduler
taken [] s = (ok none, s)
taken (first ∷ rest) s = (ok (some first), record s { ready = rest })

abbrev try_recv : Script Scheduler (Option ℕ)
try_recv s = taken s.ready s

unfoldable assert_received : Script Scheduler (Unit {0})
assert_received = do received ← try_recv; assert (is_at received id)

unfoldable assert_empty : Script Scheduler (Unit {0})
assert_empty = do received ← try_recv; assert (is_none received)

unfoldable poll : Script Scheduler (Poll ℕ) → Script Scheduler (Poll ℕ)
unfolding Schedule.poll
poll future s = Schedule.poll whole schedule future s

unfoldable drop_receiver : Script Scheduler (Unit {0})
drop_receiver s = (ok tt, record s { ready = []; open_rx = false })

abbrev is_output : Poll ℕ → ℕ → Bool
is_output (ready output) n = output == n
is_output pending n = false

unfoldable new_schedule_is_initially_idle : Script Scheduler (Unit {0})
unfolding assert_empty
new_schedule_is_initially_idle = assert_empty

unfoldable request_schedule_enqueues_idle_task_once : Script Scheduler (Unit {0})
unfolding request_schedule assert_received assert_empty
request_schedule_enqueues_idle_task_once = do
  request_schedule
  assert_received
  request_schedule
  request_schedule
  request_schedule
  assert_empty

unfoldable wake_requeues_pending_idle_task : Script Scheduler (Unit {0})
unfolding request_schedule poll assert_received assert_empty
wake_requeues_pending_idle_task = do
  request_schedule
  assert_received
  answer ← poll (attempt (ok pending))
  assert (is_pending answer)
  assert_empty
  request_schedule
  assert_received

-- The future wakes its own task three times.
unfoldable wake_during_poll_requeues_pending_task_once : Script Scheduler (Unit {0})
unfolding request_schedule poll assert_received assert_empty
wake_during_poll_requeues_pending_task_once = do
  request_schedule
  assert_received
  answer ←
      poll (do
        request_schedule
        request_schedule
        request_schedule
        assert_empty
        attempt (ok pending))
  assert (is_pending answer)
  assert_received
  assert_empty

unfoldable completed_task_is_not_requeued : Script Scheduler (Unit {0})
unfolding request_schedule poll assert_received assert_empty
completed_task_is_not_requeued = do
  request_schedule
  assert_received
  answer ← poll (do request_schedule; attempt (ok (ready 42)))
  assert (is_output answer 42)
  assert_empty
  request_schedule
  assert_empty

unfoldable wake_after_ready_queue_is_dropped_is_harmless : Script Scheduler (Unit {0})
unfolding request_schedule drop_receiver
wake_after_ready_queue_is_dropped_is_harmless = do drop_receiver; request_schedule

abbrev tests : List (Script Scheduler (Unit {0}))
tests =
    new_schedule_is_initially_idle ∷ request_schedule_enqueues_idle_task_once
    ∷ wake_requeues_pending_idle_task ∷ wake_during_poll_requeues_pending_task_once
    ∷ completed_task_is_not_requeued ∷ wake_after_ready_queue_is_dropped_is_harmless ∷ []

tests_pass : Passes scheduler tests
unfolding scheduler new_schedule_is_initially_idle request_schedule_enqueues_idle_task_once
    wake_requeues_pending_idle_task wake_during_poll_requeues_pending_task_once
    completed_task_is_not_requeued wake_after_ready_queue_is_dropped_is_harmless
tests_pass = (refl, (refl, (refl, (refl, (refl, (refl, tt))))))
