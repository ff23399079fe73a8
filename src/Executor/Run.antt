-- ===== src/Executor/Run.antt =====
-- The loops of src/executor.rs: the blocking receive, `next_ready_id` and `block_on`.
pub mod Safety
pub mod Root
pub mod Unbroken
pub mod Blocking
pub mod Termination
pub mod Queue
pub mod Front
pub mod Fairness
pub mod Awake
pub mod Ending
pub mod Liveness
pub mod Returns
pub mod Intact
pub mod Twice
pub mod Once
pub mod Stages
pub mod Lone
pub mod Handles
pub mod Serving
pub mod Joining
use asyncr.Prelude.{
  ℕ, zero, suc, ◌+◌, ◌-◌, List, [], ◌∷◌, Option, none, some, Outcome, ok, panic, Panic, Poll, ready,
  pending, leb, ◌==◌, if◌then◌else◌,
}
use asyncr.Schedule
use asyncr.Shared.{Waker, task, Shared, root_task_id, request_schedule}
use asyncr.Executor.{Executor, in_poll, received, jumped, must_wait, pass, poll_task}

-- What happens while the executor's thread is blocked: time passes, and then other threads wake
-- tasks, each named by its schedule.
pub record Arrival : Type 0 where
  pub elapsed : ℕ
  pub wakes : List ℕ

pub data Received : Type 0 where
  got : ℕ → Received
  timed_out : Received
  never : Received  -- nothing is left that could end the wait

-- How a run ends. `unfinished` means that the fuel ran out.
pub data Run {ℓ} (A : Type ℓ) : Type ℓ where
  returned : A → Run A
  panicked : Panic → Run A
  blocked unfinished : Run A

module _ {F V : Type 0} (limit : ℕ) (wake_custom : ℕ → Shared F V → Shared F V)
    (drop_future : F → Shared F V → Shared F V)
    (poll_future : Waker → F → Shared F V → Outcome (Poll V) × F × Shared F V) where
  abbrev pub passes : ℕ → Shared F V → Shared F V
  passes t s = record s { system = s.system + t }

  unfoldable pub wakes_by : List ℕ → Shared F V → Shared F V
  unfolding request_schedule
  wakes_by [] s = s
  wakes_by (r ∷ rs) s = wakes_by rs (request_schedule wake_custom drop_future r s)

  -- Takes the head of the channel if there is one.
  abbrev pub take_ready {ℓ} : {A : Type ℓ} → List ℕ → Shared F V → (ℕ → Shared F V → A) → A → A
  take_ready [] s found rest = rest
  take_ready (id ∷ ids) s found rest =
      let scheduler = s.scheduler in
      found id (record s { scheduler = record scheduler { ready = ids } })

  -- `recv()` and `recv_timeout(t)` over what arrives.
  unfoldable pub receive :
      Option ℕ → List Arrival → Shared F V → Received × List Arrival × Shared F V
  unfolding wakes_by
  receive none [] s = (never, [], s)
  receive (some t) [] s = (timed_out, [], passes t s)
  receive none (a ∷ env) s =
      let s' = wakes_by a.wakes (passes a.elapsed s) in
      let rest = receive none env s' in
      take_ready s'.scheduler.ready s' (λ id s''. (got id, env, s'')) rest
  receive (some t) (a ∷ env) s =
      let s' = wakes_by a.wakes (passes a.elapsed s) in
      let rest = receive (some (t - a.elapsed)) env s' in
      if leb t a.elapsed
      then (timed_out, record a { elapsed = a.elapsed - t } ∷ env, passes t s)
      else take_ready s'.scheduler.ready s' (λ id s''. (got id, env, s'')) rest

  -- Each round is a pass and, where the pass finds nothing, a blocking receive.
  unfoldable pub next_ready_id :
      ℕ → List Arrival → Executor F V → Run ℕ × List Arrival × Executor F V
  unfolding pass receive
  next_ready_id zero env ex = (unfinished, env, ex)
  next_ready_id (suc fuel) env ex =
      let (result, ex') = pass limit wake_custom drop_future poll_future ex in
      elim result [
        | panic p ↦ (panicked p, env, ex')
        | ok (received id) ↦ (returned id, env, ex')
        | ok jumped ↦ next_ready_id fuel env ex'
        | ok (must_wait timeout) ↦
            let (answer, env', shared) = receive timeout env ex'.shared in
            let ex'' = record ex' { shared = shared } in
            elim answer [
              | got id ↦ (returned id, env', ex'')
              | timed_out ↦ next_ready_id fuel env' ex''
              | never ↦ (blocked, env', ex'')
            ]
      ]

  -- The root future: its state, its drop, and its `poll`.
  module _ {R A : Type 0} (drop_root : R → Shared F V → Shared F V)
      (poll_root : Waker → R × Shared F V → Outcome (Poll A) × (R × Shared F V)) where
    -- The loop of `block_on`; `r` is the root's schedule.
    unfoldable pub drive :
        ℕ → ℕ → List Arrival → R → Executor F V → Run A × List Arrival × R × Executor F V
    unfolding next_ready_id Schedule.poll poll_task
    drive zero r env root ex = (unfinished, env, root, ex)
    drive (suc fuel) r env root ex =
        let (next, env', ex') = next_ready_id fuel env ex in
        elim next [
          | panicked p ↦ (panicked p, env', root, ex')
          | blocked ↦ (blocked, env', root, ex')
          | unfinished ↦ (unfinished, env', root, ex')
          | returned id ↦
              let (answer, after) =
                Schedule.poll in_poll r (poll_root (task r)) (root, ex'.shared) in
              let ex'' = record ex' { shared = after.1 } in
              let (polled, ex''') = poll_task limit wake_custom drop_future poll_future id ex' in
              let of_root : Run A × List Arrival × R × Executor F V = elim answer [
                | panic p ↦ (panicked p, env', after.0, ex'')
                | ok (ready output) ↦ (returned output, env', after.0, ex'')
                | ok pending ↦ drive fuel r env' after.0 ex''
              ] in
              let of_task : Run A × List Arrival × R × Executor F V = elim polled [
                | panic p ↦ (panicked p, env', root, ex''')
                | ok _ ↦ drive fuel r env' root ex'''
              ] in
              if id == root_task_id then of_root else of_task
        ]

    -- `block_on` drops the root as it ends, by a return or by a panic.
    unfoldable pub release_root : Run A → R → Executor F V → Executor F V
    release_root (returned a) root ex = record ex { shared = drop_root root ex.shared }
    release_root (panicked p) root ex = record ex { shared = drop_root root ex.shared }
    release_root _ root ex = ex

    unfoldable pub block_on :
        ℕ → List Arrival → R → Executor F V → Run A × List Arrival × Executor F V
    unfolding drive release_root Schedule.new request_schedule
    block_on fuel env root ex =
        let shared = ex.shared in
        let (r, scheduler) = Schedule.new root_task_id shared.scheduler in
        let shared' = record shared { scheduler = scheduler } in
        let (run, env', root', ex') =
          drive fuel r env root
            (record ex { shared = request_schedule wake_custom drop_future r shared' }) in
        (run, env', release_root run root' ex')
