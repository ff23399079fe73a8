-- ===== src/Executor/Run/Ending.antt =====
-- Runs of `block_on` (src/executor.rs) that enough fuel ends.
use asyncr.Prelude.{
  ℕ, zero, suc, ◌≤◌, ◌≡◌, refl, sym, subst, ap, ◌∙◌, ◌⊎◌, inl, inr, List, Outcome, ok, panic,
  clock_out_of_range, Poll, ready, arith,
}
use asyncr.Schedule
use asyncr.Shared.{Waker, task, Shared, root_task_id}
use asyncr.Executor.{Executor, in_poll, Pass, received, pass}
use asyncr.Executor.Run.{Arrival, Run, returned, panicked, next_ready_id}
use asyncr.Executor.Run.Fairness.{Turn, driven, drive-Turn, drive-round, round, next_received}

module _ {F V : Type 0} (limit : ℕ) (wake_custom : ℕ → Shared F V → Shared F V)
    (drop_future : F → Shared F V → Shared F V)
    (poll_future : Waker → F → Shared F V → Outcome (Poll V) × F × Shared F V) {R A : Type 0}
    (drop_root : R → Shared F V → Shared F V)
    (poll_root : Waker → R × Shared F V → Outcome (Poll A) × (R × Shared F V)) (r : ℕ) where
  abbrev pub passed : Executor F V → Outcome Pass × Executor F V
  passed = pass limit wake_custom drop_future poll_future

  abbrev pub run_of : ℕ → List Arrival → R → Executor F V → Run A
  run_of fuel env x ex =
      (driven limit wake_custom drop_future poll_future drop_root poll_root r fuel env x ex).0

  -- The root has answered, or the clock ran past its limit.
  abbrev pub Answered : Run A → Type 0
  Answered run = ((a : A) × (run ≡ returned a)) ⊎ (run ≡ panicked clock_out_of_range)

  -- Enough fuel ends the run, whatever arrives.
  abbrev pub Ends : R → Executor F V → Type 0
  Ends x ex =
      (enough : ℕ) × ((fuel : ℕ) (env : List Arrival)
        → enough ≤ fuel
        → Answered (run_of (suc fuel) env x ex))

  pub Turn-Ends :
      (x x' : R) (ex ex' : Executor F V)
      → Turn limit wake_custom drop_future poll_future drop_root poll_root r x ex x' ex'
      → Ends x' ex'
      → Ends x ex
  Turn-Ends x x' ex ex' turn (enough, ends) = (suc enough, later)
    where
      later :
          (fuel : ℕ) (env : List Arrival)
          → suc enough ≤ fuel
          → Answered (run_of (suc fuel) env x ex)
      later zero env le = absurd (omega (arith, le))
      later (suc fuel) env le =
          subst (λ out. Answered out.0)
            (sym (
              drive-Turn limit wake_custom drop_future poll_future drop_root poll_root r fuel env
                turn))
            (ends fuel env (omega (arith, le)))

  next_late :
      (fuel : ℕ) (env : List Arrival) (ex : Executor F V)
      → (passed ex).0 ≡ panic clock_out_of_range
      → next_ready_id limit wake_custom drop_future poll_future (suc fuel) env ex
        ≡ (panicked clock_out_of_range, env, (passed ex).1)
  unfolding next_ready_id
  next_late fuel env ex e = rw (next_ready_id, e) refl

  abbrev rounded : ℕ → R → Run ℕ × List Arrival × Executor F V → Run A
  rounded fuel x next =
      (round limit wake_custom drop_future poll_future drop_root poll_root r (suc fuel) x next).0

  run_rounded :
      (fuel : ℕ) (env : List Arrival) (x : R) (ex : Executor F V)
      (next : Run ℕ × List Arrival × Executor F V)
      → next_ready_id limit wake_custom drop_future poll_future (suc fuel) env ex ≡ next
      → run_of (suc (suc fuel)) env x ex ≡ rounded fuel x next
  run_rounded fuel env x ex next e =
      ap (λ o. o.0)
        (drive-round limit wake_custom drop_future poll_future drop_root poll_root r (suc fuel) env
          x ex)
      ∙ ap (rounded fuel x) e

  -- A run that ends in its first round.
  first-Ends :
      (x : R) (ex : Executor F V)
      → ((fuel : ℕ) (env : List Arrival) → Answered (run_of (suc (suc fuel)) env x ex))
      → Ends x ex
  first-Ends x ex ends = (1, later)
    where
      later : (fuel : ℕ) (env : List Arrival) → 1 ≤ fuel → Answered (run_of (suc fuel) env x ex)
      later zero env le = absurd (omega (arith, le))
      later (suc fuel) env le = ends fuel env

  pub late-Ends : (x : R) (ex : Executor F V) → (passed ex).0 ≡ panic clock_out_of_range → Ends x ex
  late-Ends x ex e =
      first-Ends x ex λ fuel env. inr (run_rounded fuel env x ex _ (next_late fuel env ex e))

  -- The root is received, and its poll answers.
  pub answer-Ends :
      (x : R) (ex : Executor F V) (a : A)
      → passed ex ≡ (ok (received root_task_id), (passed ex).1)
      → (Schedule.poll in_poll r (poll_root (task r)) (x, (passed ex).1.shared)).0 ≡ ok (ready a)
      → Ends x ex
  answer-Ends x ex a e f = first-Ends x ex ends
    where
      polled : Outcome (Poll A) × (R × Shared F V)
      polled = Schedule.poll in_poll r (poll_root (task r)) (x, (passed ex).1.shared)

      answered :
          (fuel : ℕ) (env : List Arrival)
          → round limit wake_custom drop_future poll_future drop_root poll_root r
              (suc fuel)
              x
              (returned root_task_id, env, (passed ex).1)
            ≡ (
              returned a,
              env,
              polled.1.0,
              (let taken = (passed ex).1 in record taken { shared = polled.1.1 }),
            )
      answered fuel env = rw f refl

      ends : (fuel : ℕ) (env : List Arrival) → Answered (run_of (suc (suc fuel)) env x ex)
      ends fuel env =
          let next =
            next_received limit wake_custom drop_future poll_future drop_root poll_root r fuel
              root_task_id env ex (passed ex).1 e in
          inl (a, run_rounded fuel env x ex _ next ∙ ap (λ o. o.0) (answered fuel env))
