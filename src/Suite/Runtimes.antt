-- ===== src/Suite/Runtimes.antt =====
-- The tests of src/runtime.rs that look at no timers.
use asyncr.Prelude.{ℕ, refl, List, [], ◌∷◌, ◌==◌, if◌then◌else◌}
use asyncr.Suite.{Script, ◌>>=◌, ◌>>◌, assert, is_none, Passes}
use asyncr.Suite.Async.{
  Async, returns, panics, marks, yields, waits, spawns, awaits, releases, asks, unwrap,
}
use asyncr.Suite.Host.{
  Host, host, enter, enter_outer, drop_guard, try_current, spawn, block_on_with, block_on, unwound,
  assert_trace, is_handle,
}

unfoldable enter_makes_runtime_handle_current_until_guard_is_dropped : Script Host (Unit {0})
unfolding enter try_current drop_guard
enter_makes_runtime_handle_current_until_guard_is_dropped = do
  enter
  current ← try_current
  assert (is_handle 1 current)
  drop_guard
  after ← try_current
  assert (is_none after)

-- 1 is the output `true`.
abbrev saw_expected : Async
saw_expected = asks (λ current. returns (if is_handle 1 current then 1 else 0))

unfoldable block_on_enters_runtime_context_for_root_future : Script Host (Unit {0})
unfolding try_current block_on
block_on_enters_runtime_context_for_root_future = do
  before ← try_current
  assert (is_none before)
  saw_expected_runtime ← block_on saw_expected
  assert (saw_expected_runtime == 1)
  after ← try_current
  assert (is_none after)

unfoldable block_on_enters_runtime_context_for_spawned_tasks : Script Host (Unit {0})
unfolding block_on
block_on_enters_runtime_context_for_spawned_tasks = do
  saw_expected_runtime ← block_on (spawns saw_expected (λ child. awaits child (unwrap returns)))
  assert (saw_expected_runtime == 1)

-- The mark is made if the first assertion within the root holds.
unfoldable block_on_clears_runtime_context_after_root_panic : Script Host (Unit {0})
unfolding try_current block_on
block_on_clears_runtime_context_after_root_panic = do
  result ← unwound (block_on (asks (λ current. if is_none current then panics else marks 1 panics)))
  assert result
  assert_trace (1 ∷ [])
  after ← try_current
  assert (is_none after)
  output ← block_on (returns 42)
  assert (output == 42)

-- The outer runtime's handle is 2.
unfoldable block_on_rejects_an_already_entered_context_without_replacing_it : Script Host (Unit {0})
unfolding enter_outer try_current block_on
block_on_rejects_an_already_entered_context_without_replacing_it = do
  enter_outer 2
  result ← unwound (block_on (returns 0))
  assert result
  current ← try_current
  assert (is_handle 2 current)

unfoldable block_on_returns_root_output : Script Host (Unit {0})
unfolding block_on
block_on_returns_root_output = do result ← block_on (returns 42); assert (result == 42)

unfoldable block_on_repolls_root_after_wake_during_poll : Script Host (Unit {0})
unfolding block_on
block_on_repolls_root_after_wake_during_poll = do
  result ← block_on (marks 1 (yields (marks 1 (returns 42))))
  assert (result == 42)
  assert_trace (1 ∷ 1 ∷ [])

-- The helper thread wakes the root, whose schedule is the first one, while `block_on` is blocked.
unfoldable block_on_waits_for_external_root_wake : Script Host (Unit {0})
unfolding block_on_with
block_on_waits_for_external_root_wake = do
  result ←
      block_on_with (record { elapsed = 5; wakes = 0 ∷ [] } ∷ [])
        (marks 1 (waits (marks 1 (returns 42))))
  assert (result == 42)
  assert_trace (1 ∷ 1 ∷ [])

unfoldable block_on_drives_spawned_task_joined_by_root : Script Host (Unit {0})
unfolding spawn block_on
block_on_drives_spawned_task_joined_by_root = do
  child ← spawn (returns 42)
  result ← block_on (awaits child (unwrap returns))
  assert (result == 42)

-- "parent:start" is 1, "child" 2 and "parent:end" 3.
unfoldable block_on_root_can_spawn_and_join_child : Script Host (Unit {0})
unfolding block_on
block_on_root_can_spawn_and_join_child = do
  result ← block_on (
      marks 1
        (spawns (marks 2 (returns 42)) (λ child. awaits child (unwrap (λ x. marks 3 (returns x))))))
  assert (result == 42)
  assert_trace (1 ∷ 2 ∷ 3 ∷ [])

-- The counter is a mark, and the string that the root borrows is 7.
unfoldable block_on_accepts_borrowing_root_future : Script Host (Unit {0})
unfolding block_on
block_on_accepts_borrowing_root_future = do
  let s : ℕ = 7
  result ← block_on (marks 1 (returns s))
  assert (result == s)
  assert_trace (1 ∷ [])

unfoldable runtime_can_block_on_more_than_once : Script Host (Unit {0})
unfolding block_on
runtime_can_block_on_more_than_once = do
  first ← block_on (returns 42)
  assert (first == 42)
  second ← block_on (returns 67)
  assert (second == 67)

-- The join handle is dropped at once. The mark stands for the flag.
unfoldable detached_task_resumes_on_later_block_on : Script Host (Unit {0})
unfolding block_on
detached_task_resumes_on_later_block_on = do
  result ← block_on (spawns (marks 1 (returns 0)) (λ child. releases child (returns 42)))
  assert (result == 42)
  assert_trace []
  block_on (returns 0)
  assert_trace (1 ∷ [])

abbrev tests : List (Script Host (Unit {0}))
tests =
    enter_makes_runtime_handle_current_until_guard_is_dropped
    ∷ block_on_enters_runtime_context_for_root_future
    ∷ block_on_enters_runtime_context_for_spawned_tasks
    ∷ block_on_clears_runtime_context_after_root_panic
    ∷ block_on_rejects_an_already_entered_context_without_replacing_it
    ∷ block_on_returns_root_output ∷ block_on_repolls_root_after_wake_during_poll
    ∷ block_on_waits_for_external_root_wake ∷ block_on_drives_spawned_task_joined_by_root
    ∷ block_on_root_can_spawn_and_join_child ∷ block_on_accepts_borrowing_root_future
    ∷ runtime_can_block_on_more_than_once ∷ detached_task_resumes_on_later_block_on ∷ []

tests_pass : Passes host tests
unfolding host enter_makes_runtime_handle_current_until_guard_is_dropped
    block_on_enters_runtime_context_for_root_future
    block_on_enters_runtime_context_for_spawned_tasks
    block_on_clears_runtime_context_after_root_panic
    block_on_rejects_an_already_entered_context_without_replacing_it block_on_returns_root_output
    block_on_repolls_root_after_wake_during_poll block_on_waits_for_external_root_wake
    block_on_drives_spawned_task_joined_by_root block_on_root_can_spawn_and_join_child
    block_on_accepts_borrowing_root_future runtime_can_block_on_more_than_once
    detached_task_resumes_on_later_block_on
tests_pass = (
  refl,
  (
    refl,
    (refl, (refl, (refl, (refl, (refl, (refl, (refl, (refl, (refl, (refl, (refl, tt))))))))))),
  ),
)
