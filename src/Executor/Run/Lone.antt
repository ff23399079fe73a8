-- ===== src/Executor/Run/Lone.antt =====
-- Whole runs of `block_on` of src/executor.rs over a lone root on a paused clock.
use asyncr.Prelude.{
  ℕ, suc, ◌≡◌, refl, ap, ◌∙◌, false, List, [], ◌∷◌, Outcome, ok, Poll, ready, pending, leb,
}
use asyncr.Schedule
use asyncr.Schedule.State.{ScheduleState, idle, queued, complete}
use asyncr.Shared.{Waker, task, Shared, root_task_id}
use asyncr.Time.Driver
use asyncr.Time.Driver.{TimerState}
use asyncr.Executor.{Executor, in_poll}
use asyncr.Executor.Run.{Arrival, Run, returned}
use asyncr.Executor.Run.Fairness.{driven, drive-round, round, drive-Turn, of_root}
use asyncr.Executor.Run.Stages.{stage, waiting, fired, next, first_next, jump_next, first_pass}

module _ {F V R A : Type 0} (limit : ℕ) (wake_custom : ℕ → Shared F V → Shared F V)
    (drop_future : F → Shared F V → Shared F V)
    (poll_future : Waker → F → Shared F V → Outcome (Poll V) × F × Shared F V) (system : ℕ)
    (drop_root : R → Shared F V → Shared F V)
    (poll_root : Waker → R × Shared F V → Outcome (Poll A) × (R × Shared F V)) where
  abbrev at : ScheduleState → List ℕ → TimerState Waker → ℕ → Executor F V
  at = stage limit wake_custom drop_future poll_future system

  abbrev pub polled : R → Executor F V → Outcome (Poll A) × (R × Shared F V)
  polled x ex = Schedule.poll in_poll 0 (poll_root (task 0)) (x, ex.shared)

  abbrev pub run_of : ℕ → List Arrival → R → Executor F V → Run A × List Arrival × R × Executor F V
  run_of fuel env x ex =
      driven limit wake_custom drop_future poll_future drop_root poll_root 0 fuel env x ex

  -- A round in which the root is polled and is ready.
  pub last_round :
      (r fuel : ℕ) (env : List Arrival) (a : A) (x x' : R) (ex taken : Executor F V)
      (s : Shared F V)
      → next limit wake_custom drop_future poll_future system (suc fuel) env ex
        ≡ (returned root_task_id, env, taken)
      → Schedule.poll in_poll r (poll_root (task r)) (x, taken.shared) ≡ (ok (ready a), (x', s))
      → driven limit wake_custom drop_future poll_future drop_root poll_root r
          (suc (suc fuel))
          env
          x
          ex
        ≡ (returned a, env, x', record taken { shared = s })
  last_round r fuel env a x x' ex taken s e f =
      drive-round limit wake_custom drop_future poll_future drop_root poll_root r (suc fuel) env x
        ex
      ∙ ap rest e
      ∙ ended
    where
      rest : Run ℕ × List Arrival × Executor F V → Run A × List Arrival × R × Executor F V
      rest = round limit wake_custom drop_future poll_future drop_root poll_root r (suc fuel) x

      from_root : Outcome (Poll A) × (R × Shared F V)
      from_root = Schedule.poll in_poll r (poll_root (task r)) (x, taken.shared)

      answered : from_root.0 ≡ ok (ready a)
      answered = ap (λ out. out.0) f

      left : from_root.1 ≡ (x', s)
      left = ap (λ out. out.1) f

      ended :
          rest (returned root_task_id, env, taken)
          ≡ (returned a, env, x', record taken { shared = s })
      ended = rw answered (rw left refl)

  -- The root is ready at its first poll.
  pub early_run :
      (fuel : ℕ) (env : List Arrival) (start : ℕ) (a : A) (x x' : R)
      → polled x (at queued [] Driver.new start)
        ≡ (ok (ready a), (x', (at complete [] Driver.new start).shared))
      → run_of (suc (suc fuel)) env x (at queued (root_task_id ∷ []) Driver.new start)
        ≡ (returned a, env, x', at complete [] Driver.new start)
  early_run fuel env start a x x' e =
      last_round 0 fuel env a x x' (at queued (root_task_id ∷ []) Driver.new start)
        (at queued [] Driver.new start) (at complete [] Driver.new start).shared
        (first_next limit wake_custom drop_future poll_future system fuel env start) e

  -- The root registers a timer at its first poll, and is ready at the one that follows its deadline.
  pub late_run :
      (fuel : ℕ) (env : List Arrival) (deadline start : ℕ) (a : A) (x x' x'' : R)
      → leb deadline start ≡ false
      → polled x (at queued [] Driver.new start)
        ≡ (ok pending, (x', (at idle [] (waiting deadline) start).shared))
      → polled x' (at queued [] fired deadline)
        ≡ (ok (ready a), (x'', (at complete [] fired deadline).shared))
      → run_of (suc (suc (suc (suc fuel)))) env x (at queued (root_task_id ∷ []) Driver.new start)
        ≡ (returned a, env, x'', at complete [] fired deadline)
  late_run fuel env deadline start a x x' x'' e f g =
      let ex = at idle [] (waiting deadline) start in
      drive-Turn limit wake_custom drop_future poll_future drop_root poll_root 0 (suc (suc fuel))
        env
        (of_root (at queued [] Driver.new start) (x', ex.shared)
          (first_pass limit wake_custom drop_future poll_future system start) f)
      ∙ last_round 0 (suc fuel) env a x' x'' ex (at queued [] fired deadline)
          (at complete [] fired deadline).shared
          (jump_next limit wake_custom drop_future poll_future system fuel env deadline start e) g
