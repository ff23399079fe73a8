-- ===== src/Executor/Run/Returns.antt =====
-- `block_on` of src/executor.rs returns the answer of a root that keeps itself awake.
use asyncr.Prelude.{
  ℕ, suc, ◌≤◌, ◌≡◌, ◌⊎◌, [], none, List, Outcome, clock_out_of_range, Poll, arith, length,
}
use asyncr.Join.Store.{IsIntact}
use asyncr.Shared.{Waker, Shared}
use asyncr.Executor.{Executor}
use asyncr.Executor.Usage.{Sound}
use asyncr.Executor.Polling.{Users}
use asyncr.Executor.Run.{Arrival, returned, panicked, block_on}
use asyncr.Executor.Run.Root.{RootUser, rooted}
use asyncr.Executor.Run.Awake.{Awake, rooted-Queued}
use asyncr.Executor.Run.Liveness.{queued-Ends}

module _ {F V R A : Type 0} (limit : ℕ) (wake_custom : ℕ → Shared F V → Shared F V)
    (drop_future : F → Shared F V → Shared F V)
    (poll_future : Waker → F → Shared F V → Outcome (Poll V) × F × Shared F V)
    (users : Users wake_custom drop_future poll_future) (drop_root : R → Shared F V → Shared F V)
    (poll_root : Waker → R × Shared F V → Outcome (Poll A) × (R × Shared F V))
    (user : RootUser wake_custom drop_future poll_root) (left : R → ℕ)
    (awake : Awake wake_custom drop_future poll_root left) where
  -- However many tasks are woken and spawned, they do not starve the root. A root that answers after
  -- at most `left` further polls, and that until then wakes its waker during each poll, has its
  -- answer returned by `block_on`, under any fuel from some bound on, whatever arrives, unless the
  -- clock runs past its limit. The tasks of the executor may be any; its schedules, channel, table
  -- and spawns agree, and its join pairs are well formed. User code uses the executor by wakes,
  -- spawns and handles.
  pub block_on-returns :
      (x : R) (ex : Executor F V)
      → Sound none [] ex.tasks ex.shared.spawns ex.shared.scheduler
      → IsIntact ex.shared.joins
      → (enough : ℕ) × ((fuel : ℕ) (env : List Arrival)
          → enough ≤ fuel
          → (let run =
                (block_on limit wake_custom drop_future poll_future drop_root poll_root
                  (suc fuel)
                  env
                  x
                  ex).0 in
              ((a : A) × (run ≡ returned a)) ⊎ (run ≡ panicked clock_out_of_range)))
  unfolding block_on
  block_on-returns x ex sound intact =
      let (r, ex') = rooted wake_custom drop_future ex in
      queued-Ends limit wake_custom drop_future poll_future users drop_root poll_root user left
        awake r (suc (left x)) x ex' (length ex.shared.scheduler.ready) (omega arith)
        (rooted-Queued wake_custom drop_future ex sound intact)
