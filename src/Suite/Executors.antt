-- ===== src/Suite/Executors.antt =====
-- The tests of src/executor.rs.
use asyncr.Prelude.{refl, List, [], ◌∷◌, not, ◌==◌}
use asyncr.Suite.{Script, ◌>>=◌, ◌>>◌, assert, is_pending, Passes}
use asyncr.Suite.Async.{returns, panics, marks, yields, waits, spawns, awaits, unwrap}
use asyncr.Suite.Stage.{
  Stage, stage, submit, spawn, poll_one_ready_task, run_until_stalled, poll, drop_executor,
  drop_join, has_tasks, polls, assert_trace, is_value, is_panic, is_cancelled,
}

unfoldable poll_one_ready_task_returns_false_when_idle : Script Stage (Unit {0})
unfolding poll_one_ready_task
poll_one_ready_task_returns_false_when_idle = do polled ← poll_one_ready_task; assert (not polled)

unfoldable poll_one_ready_task_runs_and_removes_completed_task : Script Stage (Unit {0})
unfolding submit poll_one_ready_task
poll_one_ready_task_runs_and_removes_completed_task = do
  submit (marks 1 (returns 0))
  first ← poll_one_ready_task
  assert first
  assert_trace (1 ∷ [])
  left ← has_tasks
  assert (not left)
  second ← poll_one_ready_task
  assert (not second)

-- A second poll would leave a second mark.
unfoldable pending_task_is_not_polled_again_without_wake : Script Stage (Unit {0})
unfolding submit poll_one_ready_task
pending_task_is_not_polled_again_without_wake = do
  submit (marks 1 (waits (marks 1 (waits (returns 0)))))
  first ← poll_one_ready_task
  assert first
  before ← polls
  assert (before == 1)
  second ← poll_one_ready_task
  assert (not second)
  after ← polls
  assert (after == 1)
  left ← has_tasks
  assert left

unfoldable wake_during_poll_schedules_another_turn : Script Stage (Unit {0})
unfolding submit poll_one_ready_task
wake_during_poll_schedules_another_turn = do
  submit (marks 1 (yields (marks 1 (returns 0))))
  first ← poll_one_ready_task
  assert first
  second ← poll_one_ready_task
  assert second
  third ← poll_one_ready_task
  assert (not third)
  made ← polls
  assert (made == 2)

unfoldable spawned_task_result_reaches_join_handle : Script Stage (Unit {0})
unfolding spawn poll poll_one_ready_task
spawned_task_result_reaches_join_handle = do
  join ← spawn (returns 42)
  before ← poll join
  assert (is_pending before)
  polled ← poll_one_ready_task
  assert polled
  after ← poll join
  assert (is_value 42 after)

unfoldable spawned_task_panic_becomes_join_error : Script Stage (Unit {0})
unfolding spawn poll poll_one_ready_task
spawned_task_panic_becomes_join_error = do
  join ← spawn panics
  before ← poll join
  assert (is_pending before)
  polled ← poll_one_ready_task
  assert polled
  after ← poll join
  assert (is_panic after)

-- `handle.spawn(future);` drops the join handle.
unfoldable dropping_join_handle_does_not_cancel_task : Script Stage (Unit {0})
unfolding spawn drop_join run_until_stalled
dropping_join_handle_does_not_cancel_task = do
  join ← spawn (marks 1 (returns 0))
  drop_join join
  run_until_stalled
  assert_trace (1 ∷ [])

unfoldable dropping_executor_cancels_active_spawned_task : Script Stage (Unit {0})
unfolding spawn poll poll_one_ready_task drop_executor
dropping_executor_cancels_active_spawned_task = do
  join ← spawn (waits (returns 0))
  polled ← poll_one_ready_task
  assert polled
  before ← poll join
  assert (is_pending before)
  drop_executor
  after ← poll join
  assert (is_cancelled after)

-- The output is the cell that the future owns, whose value is 1.
unfoldable spawn_accepts_non_send_future : Script Stage (Unit {0})
unfolding spawn poll run_until_stalled
spawn_accepts_non_send_future = do
  join ← spawn (returns 1)
  run_until_stalled
  result ← poll join
  assert (is_value 1 result)

-- "parent:start" is 1, "child" 2 and "parent:end" 3.
unfoldable running_task_can_spawn_and_join_child : Script Stage (Unit {0})
unfolding spawn poll run_until_stalled
running_task_can_spawn_and_join_child = do
  join ← spawn (
      marks 1
        (spawns (marks 2 (returns 42)) (λ child. awaits child (unwrap (λ x. marks 3 (returns x))))))
  run_until_stalled
  result ← poll join
  assert (is_value 42 result)
  assert_trace (1 ∷ 2 ∷ 3 ∷ [])

unfoldable pending_task_is_cancelled_on_executor_drop : Script Stage (Unit {0})
unfolding spawn poll drop_executor
pending_task_is_cancelled_on_executor_drop = do
  join ← spawn (returns 0)
  drop_executor
  result ← poll join
  assert (is_cancelled result)

unfoldable spawn_after_shutdown_is_immediately_cancelled : Script Stage (Unit {0})
unfolding spawn poll drop_executor
spawn_after_shutdown_is_immediately_cancelled = do
  drop_executor
  join ← spawn (returns 0)
  result ← poll join
  assert (is_cancelled result)

abbrev tests : List (Script Stage (Unit {0}))
tests =
    poll_one_ready_task_returns_false_when_idle
    ∷ poll_one_ready_task_runs_and_removes_completed_task
    ∷ pending_task_is_not_polled_again_without_wake ∷ wake_during_poll_schedules_another_turn
    ∷ spawned_task_result_reaches_join_handle ∷ spawned_task_panic_becomes_join_error
    ∷ dropping_join_handle_does_not_cancel_task ∷ dropping_executor_cancels_active_spawned_task
    ∷ spawn_accepts_non_send_future ∷ running_task_can_spawn_and_join_child
    ∷ pending_task_is_cancelled_on_executor_drop ∷ spawn_after_shutdown_is_immediately_cancelled
    ∷ []

tests_pass : Passes stage tests
unfolding stage poll_one_ready_task_returns_false_when_idle
    poll_one_ready_task_runs_and_removes_completed_task
    pending_task_is_not_polled_again_without_wake wake_during_poll_schedules_another_turn
    spawned_task_result_reaches_join_handle spawned_task_panic_becomes_join_error
    dropping_join_handle_does_not_cancel_task dropping_executor_cancels_active_spawned_task
    spawn_accepts_non_send_future running_task_can_spawn_and_join_child
    pending_task_is_cancelled_on_executor_drop spawn_after_shutdown_is_immediately_cancelled
tests_pass = (
  refl,
  (refl, (refl, (refl, (refl, (refl, (refl, (refl, (refl, (refl, (refl, (refl, tt))))))))))),
)
