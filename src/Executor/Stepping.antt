-- ===== src/Executor/Stepping.antt =====
-- The test helpers of src/executor.rs that drive an executor by hand.
use asyncr.Prelude.{ℕ, zero, suc, ◌+◌, Bool, true, false, List, [], ◌∷◌, Outcome, ok, panic, Poll}
use asyncr.Shared.{Waker, Shared}
use asyncr.Executor.{Executor, drain_pending_spawns, poll_task}

module _ {F V : Type 0} (limit : ℕ) (wake_custom : ℕ → Shared F V → Shared F V)
    (drop_future : F → Shared F V → Shared F V)
    (poll_future : Waker → F → Shared F V → Outcome (Poll V) × F × Shared F V) where
  unfoldable pub poll_one : List ℕ → Executor F V → Outcome Bool × Executor F V
  unfolding poll_task
  poll_one [] ex = (ok false, ex)
  poll_one (id ∷ ids) ex =
      let shared = ex.shared in
      let scheduler = shared.scheduler in
      let shared' = record shared { scheduler = record scheduler { ready = ids } } in
      let (polled, ex') =
        poll_task limit wake_custom drop_future poll_future id (record ex { shared = shared' }) in
      elim polled [ ok _ ↦ (ok true, ex') | panic p ↦ (panic p, ex') ]

  unfoldable pub poll_one_ready_task : Executor F V → Outcome Bool × Executor F V
  unfolding poll_one drain_pending_spawns
  poll_one_ready_task ex =
      let ex' = drain_pending_spawns ex in poll_one ex'.shared.scheduler.ready ex'

  -- The count of the tasks polled, on fuel.
  unfoldable pub run_until_stalled : ℕ → ℕ → Executor F V → Outcome ℕ × Executor F V
  unfolding poll_one_ready_task
  run_until_stalled zero counter ex = (ok counter, ex)
  run_until_stalled (suc fuel) counter ex =
      let (polled, ex') = poll_one_ready_task ex in
      elim polled [
        | panic p ↦ (panic p, ex')
        | ok false ↦ (ok counter, ex')
        | ok true ↦ run_until_stalled fuel (counter + 1) ex'
      ]
