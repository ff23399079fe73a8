-- ===== src/Suite/Spawns.antt =====
-- The tests of src/task.rs.
use asyncr.Prelude.{ℕ, ◌≡◌, refl, List, [], ◌∷◌, ok, panic, no_current_runtime, ◌==◌}
use asyncr.Api
use asyncr.Suite.{Script, ◌>>=◌, assert, limit, outcome, Passes}
use asyncr.Suite.Async.{Async, returns, spawns, awaits, ignore, drop_async, unwrap}
use asyncr.Suite.Host.{Host, host, block_on}

-- `asyncr::spawn(..)` outside a future.
unfoldable spawn : Async → Script Host ℕ
unfolding Api.spawn drop_async
spawn block h =
    let runtime = h.runtime in
    let ex = runtime.executor in
    elim (Api.spawn limit (λ handle. ex.shared) ignore drop_async block h.context) [
      | panic p ↦ (panic p, h)
      | ok (_, j, s) ↦
          (ok j, record h { runtime = record runtime { executor = record ex { shared = s } } })
    ]

unfoldable spawn_uses_current_runtime_and_returns_task_output : Script Host (Unit {0})
unfolding block_on
spawn_uses_current_runtime_and_returns_task_output = do
  output ← block_on (spawns (returns 42) (λ child. awaits child (unwrap returns)))
  assert (output == 42)

-- The output is the cell that the block made, whose value is 42.
unfoldable spawn_accepts_non_send_future_and_output : Script Host (Unit {0})
unfolding block_on
spawn_accepts_non_send_future_and_output = do
  output ← block_on (spawns (returns 42) (λ child. awaits child (unwrap returns)))
  assert (output == 42)

abbrev tests : List (Script Host (Unit {0}))
tests =
    spawn_uses_current_runtime_and_returns_task_output ∷ spawn_accepts_non_send_future_and_output
    ∷ []

tests_pass : Passes host tests
unfolding host spawn_uses_current_runtime_and_returns_task_output
    spawn_accepts_non_send_future_and_output
tests_pass = (refl, (refl, tt))

unfoldable spawn_requires_an_entered_runtime : Script Host ℕ
unfolding spawn
spawn_requires_an_entered_runtime = spawn (returns 0)

spawn_panics : outcome spawn_requires_an_entered_runtime host ≡ panic no_current_runtime
unfolding host spawn_requires_an_entered_runtime
spawn_panics = refl
