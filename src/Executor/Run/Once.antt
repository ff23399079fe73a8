-- ===== src/Executor/Run/Once.antt =====
-- The join pairs of src/join.rs over a whole run of `block_on` (src/executor.rs).
use asyncr.Prelude.{
  ℕ, zero, suc, ◌≡◌, ◌≢◌, ap, inl, inr, true, false, List, Outcome, ok, panic, Panic,
  join_completed_twice, Poll, ready, pending, ◌==◌, if◌then◌else◌, Bool-cases,
}
use asyncr.Schedule
use asyncr.Schedule.{Scheduler, begin, finish, after_poll}
use asyncr.Join.Store.{IsIntact, Joined-IsIntact}
use asyncr.Shared.{Waker, task, Shared, root_task_id, request_schedule}
use asyncr.Executor.{Executor, in_poll, poll_task}
use asyncr.Executor.Joins.{Uses-Joined}
use asyncr.Executor.Polling.{Users}
use asyncr.Executor.Run.{
  Arrival, Run, returned, panicked, blocked, unfinished, next_ready_id, drive, block_on,
}
use asyncr.Executor.Run.Root.{RootUser}
use asyncr.Executor.Run.Intact.{is_twice, Once, Held, next_ready_id-Held}
use asyncr.Executor.Run.Twice.{poll-Once, poll_task-Once}

module _ {F V : Type 0} (limit : ℕ) (wake_custom : ℕ → Shared F V → Shared F V)
    (drop_future : F → Shared F V → Shared F V)
    (poll_future : Waker → F → Shared F V → Outcome (Poll V) × F × Shared F V)
    (users : Users wake_custom drop_future poll_future) where
  module _ {R A : Type 0} (drop_root : R → Shared F V → Shared F V)
      (poll_root : Waker → R × Shared F V → Outcome (Poll A) × (R × Shared F V))
      (root_user : RootUser wake_custom drop_future poll_root)
      (root_panics : (w : Waker) (x : R) (s : Shared F V) (p : Panic)
        → (poll_root w (x, s)).0 ≡ panic p
        → is_twice p ≡ false)
      (r : ℕ) where
    abbrev Driven : Type 0
    Driven = Run A × List Arrival × R × Executor F V

    abbrev DrivenHeld : Driven → Type 0
    DrivenHeld (run, _, _, ex) = Held run ex

    abbrev Again : Type 0
    Again = List Arrival → R → Executor F V → Driven

    abbrev Holds : Again → Type 0
    Holds again =
        (env : List Arrival) (root : R) (ex : Executor F V)
        → IsIntact ex.shared.joins
        → DrivenHeld (again env root ex)

    abbrev of_root : Again → List Arrival → Outcome (Poll A) → R → Executor F V → Driven
    of_root again env answer root ex = elim answer [
      | panic p ↦ (panicked p, env, root, ex)
      | ok (ready output) ↦ (returned output, env, root, ex)
      | ok pending ↦ again env root ex
    ]

    abbrev of_task : Again → List Arrival → R → Outcome (Unit {0}) → Executor F V → Driven
    of_task again env root answer ex = elim answer [
      | panic p ↦ (panicked p, env, root, ex)
      | ok _ ↦ again env root ex
    ]

    abbrev body : Again → R → Run ℕ × List Arrival × Executor F V → Driven
    body again root (next, env, ex) = elim next [
      | panicked p ↦ (panicked p, env, root, ex)
      | blocked ↦ (blocked, env, root, ex)
      | unfinished ↦ (unfinished, env, root, ex)
      | returned id ↦
          let (answer, after) = Schedule.poll in_poll r (poll_root (task r)) (root, ex.shared) in
          let (polled, ex') = poll_task limit wake_custom drop_future poll_future id ex in
          if id == root_task_id
          then of_root again env answer after.0 (record ex { shared = after.1 })
          else of_task again env root polled ex'
    ]

    panicked_same : {B : Type 0} {p q : Panic} → ◌≡◌ {A = Run B} (panicked p) (panicked q) → p ≡ q
    panicked_same e = cc

    of_root-Held :
        (again : Again) (env : List Arrival) (answer : Outcome (Poll A)) (root : R)
        (ex : Executor F V)
        → Holds again
        → Once answer ex
        → DrivenHeld (of_root again env answer root ex)
    of_root-Held again env (panic p) root ex holds (intact, other) =
        (intact, λ q e. other q (ap panic (panicked_same e)))
    of_root-Held again env (ok (ready output)) root ex holds (intact, other) = (intact, λ q e. cc)
    of_root-Held again env (ok pending) root ex holds (intact, other) = holds env root ex intact

    of_task-Held :
        (again : Again) (env : List Arrival) (root : R) (answer : Outcome (Unit {0}))
        (ex : Executor F V)
        → Holds again
        → Once answer ex
        → DrivenHeld (of_task again env root answer ex)
    of_task-Held again env root (panic p) ex holds (intact, other) =
        (intact, λ q e. other q (ap panic (panicked_same e)))
    of_task-Held again env root (ok _) ex holds (intact, other) = holds env root ex intact

    body-Held :
        (again : Again) (root : R) (next : Run ℕ) (env : List Arrival) (ex : Executor F V)
        → Holds again
        → Held next ex
        → DrivenHeld (body again root (next, env, ex))
    body-Held again root (panicked p) env ex holds (intact, other) =
        (intact, λ q e. other q (ap panicked (panicked_same e)))
    body-Held again root blocked env ex holds (intact, other) = (intact, λ q e. cc)
    body-Held again root unfinished env ex holds (intact, other) = (intact, λ q e. cc)
    body-Held again root (returned id) env ex holds (intact, other) =
        elim (Bool-cases (id == root_task_id)) [
          | inl e ↦
              let (answer, after) =
                Schedule.poll in_poll r (poll_root (task r)) (root, ex.shared) in
              let polled =
                poll-Once limit wake_custom drop_future poll_future users (poll_root (task r))
                  (λ x s i. (
                    Joined-IsIntact
                        (Uses-Joined wake_custom drop_future (root_user.polls (task r) x s)) i,
                    root_panics (task r) x s,
                  ))
                  r root ex.shared intact in
              rw e (
                of_root-Held again env answer after.0 (record ex { shared = after.1 }) holds polled)
          | inr e ↦
              let (polled, ex') = poll_task limit wake_custom drop_future poll_future id ex in
              rw e (
                of_task-Held again env root polled ex' holds
                  (poll_task-Once limit wake_custom drop_future poll_future users id ex intact))
        ]

    drive-Held :
        (fuel : ℕ) (env : List Arrival) (root : R) (ex : Executor F V)
        → IsIntact ex.shared.joins
        → DrivenHeld
            (drive limit wake_custom drop_future poll_future drop_root poll_root fuel r env root ex)
    unfolding drive
    drive-Held zero env root ex intact = (intact, λ p e. cc)
    drive-Held (suc fuel) env root ex intact =
        let (next, env', ex') =
          next_ready_id limit wake_custom drop_future poll_future fuel env ex in
        body-Held (drive limit wake_custom drop_future poll_future drop_root poll_root fuel r) root
          next env' ex' (λ env'' root' ex''. drive-Held fuel env'' root' ex'')
          (next_ready_id-Held limit wake_custom drop_future poll_future users fuel env ex intact)

  -- Nothing is completed twice: no run of `block_on`, under any fuel and any arrivals, ends in the
  -- panic of `JoinState::complete`. The join pairs are well formed before (the sender is there exactly
  -- as long as no result is), user code uses the executor by wakes, spawns and handles, and the root
  -- does not raise this panic itself.
  pub block_on-once :
      {R A : Type 0} (drop_root : R → Shared F V → Shared F V)
      (poll_root : Waker → R × Shared F V → Outcome (Poll A) × (R × Shared F V))
      (root_user : RootUser wake_custom drop_future poll_root)
      (root_panics : (w : Waker) (x : R) (s : Shared F V) (p : Panic)
        → (poll_root w (x, s)).0 ≡ panic p
        → is_twice p ≡ false)
      (fuel : ℕ) (env : List Arrival) (root : R) (ex : Executor F V)
      → IsIntact ex.shared.joins
      → (block_on limit wake_custom drop_future poll_future drop_root poll_root fuel env root ex).0
        ≢ panicked join_completed_twice
  unfolding block_on request_schedule
  block_on-once drop_root poll_root root_user root_panics fuel env root ex intact e =
      let shared = ex.shared in
      let (r, scheduler) = Schedule.new root_task_id shared.scheduler in
      let shared' = record shared { scheduler = scheduler } in
      let (_, other) =
        drive-Held drop_root poll_root root_user root_panics r fuel env root
          (record ex { shared = request_schedule wake_custom drop_future r shared' }) intact in
      absurd (true_and_false (other join_completed_twice e))
    where
      true_and_false : true ≡ false → ⊥
      true_and_false f = cc
