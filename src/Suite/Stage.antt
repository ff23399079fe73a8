-- ===== src/Suite/Stage.antt =====
-- What the tests of src/executor.rs do, on an executor with a running clock. The blocks of the tests spawn by the
-- handle that they were given, which is 0.
use asyncr.Prelude.{
  ℕ, List, [], ◌∷◌, Bool, true, false, some, ok, Poll, ready, Result, value, error, ◌==◌, ◌&&◌,
  get_elem?, length,
}
use asyncr.Catch
use asyncr.Join.{JoinError, cancelled, panicked}
use asyncr.Shared
use asyncr.TestUtils.{noop_context}
use asyncr.Executor
use asyncr.Executor.{Executor}
use asyncr.Executor.Stepping
use asyncr.Suite.{Script, assert, limit}
use asyncr.Suite.Async
use asyncr.Suite.Async.{
  Async, returns, panics, marks, yields, waits, spawns, awaits, ignore, poll_join, drop_async,
  poll_async, unwrap,
}

abbrev pub Stage : Type 0
Stage = Executor Async ℕ

unfoldable pub stage : Stage
unfolding Executor.new
stage = Executor.new 0

-- `handle.spawn_state.submit(..)`: a task that has no join pair.
unfoldable pub submit : Async → Script Stage (Unit {0})
unfolding Shared.submit
submit block ex =
    let s = ex.shared in
    (
      ok tt,
      record ex {
        shared =
            Shared.submit ignore drop_async
              (record { inner = Catch.new block; join = length s.joins }) s;
      },
    )

unfoldable pub spawn : Async → Script Stage ℕ
unfolding Shared.spawn
spawn block ex =
    let (j, s) = Shared.spawn ignore drop_async block ex.shared in (ok j, record ex { shared = s })

unfoldable pub poll_one_ready_task : Script Stage Bool
unfolding Stepping.poll_one_ready_task poll_async
poll_one_ready_task ex =
    Stepping.poll_one_ready_task limit ignore drop_async (poll_async (some 0)) ex

-- No test polls more than ten tasks.
unfoldable pub run_until_stalled : Script Stage ℕ
unfolding Stepping.run_until_stalled poll_async
run_until_stalled ex =
    Stepping.run_until_stalled limit ignore drop_async (poll_async (some 0)) 10 0 ex

-- `join.as_mut().poll(&mut noop_context())`.
unfoldable pub poll : ℕ → Script Stage (Poll (Result ℕ JoinError))
unfolding poll_join noop_context
poll j ex =
    let shared = ex.shared in
    let (answer, s) = poll_join noop_context j (get_elem? shared.joins j) shared in
    (answer, record ex { shared = s })

-- `drop(executor)`: what is left is what the handles share.
unfoldable pub drop_executor : Script Stage (Unit {0})
unfolding Executor.drop drop_async
drop_executor ex = (
  ok tt,
  record { tasks = []; shared = Executor.drop limit ignore drop_async (poll_async (some 0)) ex },
)

unfoldable pub drop_join : ℕ → Script Stage (Unit {0})
unfolding Async.drop_join
drop_join j ex =
    let shared = ex.shared in
    (ok tt, record ex { shared = Async.drop_join j (get_elem? shared.joins j) shared })

abbrev pub has_tasks : Script Stage Bool
has_tasks ex = (ok (elim ex.tasks [ [] ↦ false | (_ ∷ _) ↦ true ]), ex)

-- How often a mark was made.
abbrev pub polls : Script Stage ℕ
polls ex = let s = ex.shared in (ok (length s.cells), ex)

abbrev pub are : List ℕ → List ℕ → Bool
are [] [] = true
are (m ∷ ms) (n ∷ ns) = (m == n) && are ms ns
are _ _ = false

abbrev pub assert_trace : List ℕ → Script Stage (Unit {0})
assert_trace made ex = let s = ex.shared in assert (are s.cells made) ex

abbrev pub is_value : ℕ → Poll (Result ℕ JoinError) → Bool
is_value n (ready (value m)) = m == n
is_value n _ = false

abbrev pub is_panic : Poll (Result ℕ JoinError) → Bool
is_panic (ready (error panicked)) = true
is_panic _ = false

abbrev pub is_cancelled : Poll (Result ℕ JoinError) → Bool
is_cancelled (ready (error cancelled)) = true
is_cancelled _ = false
