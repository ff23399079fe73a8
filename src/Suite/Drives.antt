-- ===== src/Suite/Drives.antt =====
-- The tests of src/runtime.rs that drive timers.
use asyncr.Prelude.{ℕ, ◌+◌, ◌*◌, refl, List, [], ◌∷◌, true, ok, panic, Result, value, error, ◌==◌}
use asyncr.Api
use asyncr.Time.Sleep.{Sleep}
use asyncr.Time.Timeout.{Elapsed}
use asyncr.Suite.{Script, ◌>>=◌, ◌>>◌, assert, second, limit, Passes}
use asyncr.Suite.Async.{
  returns, marks, spawns, awaits, releases, sleeps, counts, times, repeats, ticks, drops, unwrap,
}
use asyncr.Suite.Host.{
  Host, host, paused_host, enter, drop_guard, spawn, block_on, now, assert_trace,
}

-- `sleep(..)` outside a future.
unfoldable sleep : ℕ → Script Host Sleep
unfolding Api.sleep
sleep duration h =
    let runtime = h.runtime in
    let ex = runtime.executor in
    elim (Api.sleep limit (λ handle. ex.shared) duration h.context) [
      | ok (_, made) ↦ (ok made, h)
      | panic p ↦ (panic p, h)
    ]

-- The root counts its polls by marks.
unfoldable paused_runtime_auto_advances_for_root_sleep : Script Host (Unit {0})
unfolding now enter sleep drop_guard block_on
paused_runtime_auto_advances_for_root_sleep = do
  start ← now
  enter
  made ← sleep (3_600 * second)
  drop_guard
  output ← block_on (counts made (returns 42))
  assert (output == 42)
  assert_trace (1 ∷ 1 ∷ [])
  after ← now
  assert (after == start + 3_600 * second)

unfoldable paused_runtime_drives_sleeping_spawned_task : Script Host (Unit {0})
unfolding now spawn block_on
paused_runtime_drives_sleeping_spawned_task = do
  start ← now
  child ← spawn (sleeps (5 * second) (returns 42))
  output ← block_on (awaits child (unwrap returns))
  assert (output == 42)
  after ← now
  assert (after == start + 5 * second)

-- 1 stands for `Err(Elapsed)`.
abbrev is_elapsed : Result (Unit {0}) Elapsed → ℕ
is_elapsed (value _) = 0
is_elapsed (error _) = 1

unfoldable paused_runtime_drives_timeout_through_public_api : Script Host (Unit {0})
unfolding now block_on
paused_runtime_drives_timeout_through_public_api = do
  start ← now
  result ← block_on (times (5 * second) (λ answer. returns (is_elapsed answer)))
  assert (result == 1)
  after ← now
  assert (after == start + 5 * second)

-- The instants of the ticks are left as marks.
unfoldable paused_runtime_drives_interval_through_public_api : Script Host (Unit {0})
unfolding now block_on
paused_runtime_drives_interval_through_public_api = do
  start ← now
  block_on (
      repeats (5 * second) (λ interval. ticks interval (λ first again.
        ticks again (λ then left. marks first (marks then (drops left (returns 0)))))))
  assert_trace (start ∷ (start + 5 * second) ∷ [])
  after ← now
  assert (after == start + 5 * second)

-- "short" is 1 and "long" is 2.
unfoldable ready_task_can_insert_earlier_deadline_before_auto_advance : Script Host (Unit {0})
unfolding now block_on
ready_task_can_insert_earlier_deadline_before_auto_advance = do
  start ← now
  block_on (
      spawns (sleeps (5 * second) (marks 1 (returns 0)))
        (λ child. releases child (sleeps (10 * second) (marks 2 (returns 0)))))
  assert_trace (1 ∷ 2 ∷ [])
  after ← now
  assert (after == start + 10 * second)

abbrev tests : List (Script Host (Unit {0}))
tests =
    paused_runtime_auto_advances_for_root_sleep ∷ paused_runtime_drives_sleeping_spawned_task
    ∷ paused_runtime_drives_timeout_through_public_api
    ∷ paused_runtime_drives_interval_through_public_api
    ∷ ready_task_can_insert_earlier_deadline_before_auto_advance ∷ []

tests_pass : Passes paused_host tests
unfolding paused_host paused_runtime_auto_advances_for_root_sleep
    paused_runtime_drives_sleeping_spawned_task paused_runtime_drives_timeout_through_public_api
    paused_runtime_drives_interval_through_public_api
    ready_task_can_insert_earlier_deadline_before_auto_advance
tests_pass = (refl, (refl, (refl, (refl, (refl, tt)))))

-- On a running clock; the sleep is a millisecond long.
unfoldable running_runtime_drives_sleep_through_recv_timeout : Script Host (Unit {0})
unfolding block_on
running_runtime_drives_sleep_through_recv_timeout = do
  block_on (sleeps 1_000_000 (returns 0))
  assert true

running_tests_pass : Passes host (running_runtime_drives_sleep_through_recv_timeout ∷ [])
unfolding host running_runtime_drives_sleep_through_recv_timeout
running_tests_pass = (refl, tt)
