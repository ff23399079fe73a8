-- ===== src/Executor/Run/Joining.antt =====
-- `block_on` of src/executor.rs over the join handle of a spawned task, from the spawn to the result.
use asyncr.Prelude.{
  ℕ, zero, suc, ◌+◌, ◌≤◌, ◌≡◌, refl, ap, ◌∙◌, false, List, [], ◌∷◌, Option, none, some, Outcome, ok,
  Poll, Result, arith,
}
use asyncr.Prelude.Map.{Map, insert}
use asyncr.Schedule.State.{ScheduleState, idle, queued, complete}
use asyncr.Join.{Pair, JoinError, consumed}
use asyncr.Shared.{Waker, task, LocalTask, Shared, root_task_id, spawn}
use asyncr.Time.Clock
use asyncr.Time.Clock.{Clock}
use asyncr.Executor.{Executor, with_clock, admit, poll_task}
use asyncr.Executor.Delivery.{result_of}
use asyncr.Executor.Run.{Arrival, Run, returned, block_on, release_root}
use asyncr.Executor.Run.Fairness.{Turn, driven, drive-Turn, of_task, of_root, next_received}
use asyncr.Executor.Run.Lone.{last_round}
use asyncr.Executor.Run.Handles.{
  poll_handle, drop_handle, Yields, ends, yields, child, armed, told, taken_out, stage, head_pass,
}
use asyncr.Executor.Run.Serving.{child_yields, child_ends, root_waits, root_takes}

module _ {F V : Type 0} (limit : ℕ) (wake_custom : ℕ → Shared F V → Shared F V)
    (drop_future : F → Shared F V → Shared F V)
    (poll_future : Waker → F → Shared F V → Outcome (Poll V) × F × Shared F V) (clock : Clock)
    (system : ℕ) (answer : Outcome (Poll V)) (result : Result V JoinError)
    (told_so : result_of answer ≡ some result) (now : ℕ)
    (reading : Clock.now limit system clock ≡ ok now) where
  abbrev run :
      ℕ → List Arrival → Executor F V → Run (Result V JoinError) × List Arrival × ℕ × Executor F V
  run fuel env ex =
      driven limit wake_custom drop_future poll_future drop_handle poll_handle 1 fuel env 0 ex

  abbrev at :
      ScheduleState
      → ScheduleState
      → List ℕ
      → List (LocalTask F)
      → Map (LocalTask F)
      → Pair V Waker
      → Executor F V
  at = stage limit wake_custom drop_future poll_future clock system

  abbrev task_of : F → LocalTask F
  task_of = child limit wake_custom drop_future poll_future

  abbrev waited : Option Waker → Pair V Waker
  waited = armed limit wake_custom drop_future poll_future

  abbrev at_start : F → Executor F V
  at_start f = at queued queued (1 ∷ root_task_id ∷ []) (task_of f ∷ []) [] (waited none)

  -- The root waits on the handle, and the task is queued.
  abbrev waits : F → Executor F V
  waits f = at queued idle (1 ∷ []) [] ((1, task_of f) ∷ []) (waited (some (task 1)))

  -- The result is there, and the root is queued.
  abbrev answered : Executor F V
  answered =
      at complete queued (root_task_id ∷ []) [] []
        (told limit wake_custom drop_future poll_future result)

  abbrev over : Executor F V
  over = at complete complete [] [] [] (taken_out limit wake_custom drop_future poll_future)

  abbrev Waits : Executor F V → Executor F V → Type 0
  Waits ex ex' = Turn limit wake_custom drop_future poll_future drop_handle poll_handle 1 0 ex 0 ex'

  last_run :
      (fuel : ℕ) (env : List Arrival)
      → run (suc (suc fuel)) env answered ≡ (returned result, env, 0, over)
  unfolding admit
  last_run fuel env =
      let taken =
        at complete queued [] [] [] (told limit wake_custom drop_future poll_future result) in
      last_round limit wake_custom drop_future poll_future system drop_handle poll_handle 1 fuel env
        result 0 0 answered taken over.shared
        (next_received limit wake_custom drop_future poll_future drop_handle poll_handle 1 fuel
          root_task_id env answered taken
          (head_pass limit wake_custom drop_future poll_future clock system complete queued
            root_task_id [] [] [] (told limit wake_custom drop_future poll_future result) now
            reading))
        (root_takes limit wake_custom drop_future poll_future clock system complete [] [] result)

  -- A turn of the task, from the head of the channel.
  task_turn :
      (root : ScheduleState) (ids : List ℕ) (f : F) (pair : Pair V Waker) (after : Executor F V)
      → poll_task limit wake_custom drop_future poll_future 1
          (at queued root ids [] ((1, task_of f) ∷ []) pair)
        ≡ (ok tt, after)
      → Waits (at queued root (1 ∷ ids) [] ((1, task_of f) ∷ []) pair) after
  unfolding admit
  task_turn root ids f pair after e =
      let tasks : Map (LocalTask F) = (1, task_of f) ∷ [] in
      of_task 1 (at queued root ids [] tasks pair) after
        (head_pass limit wake_custom drop_future poll_future clock system queued root 1 ids [] tasks
          pair now reading)
        refl e

  -- The root waits for as long as the task yields.
  middle_run :
      (n : ℕ) (f : F) (fuel : ℕ) (env : List Arrival)
      → Yields limit wake_custom drop_future poll_future answer n f
      → n + 3 ≤ fuel
      → run fuel env (waits f) ≡ (returned result, env, 0, over)
  middle_run n f zero env y le = absurd (omega (arith, le))
  middle_run n f (suc zero) env y le = absurd (omega (arith, le))
  middle_run n f (suc (suc zero)) env y le = absurd (omega (arith, le))
  middle_run zero f (suc (suc (suc fuel))) env (ends f' e d) le =
      drive-Turn limit wake_custom drop_future poll_future drop_handle poll_handle 1 (suc fuel) env
        (task_turn idle [] f (waited (some (task 1))) answered
          (child_ends limit wake_custom drop_future poll_future clock system f f' answer result [] e
            d told_so).1)
      ∙ last_run fuel env
  middle_run (suc n) f (suc (suc (suc fuel))) env (yields f' e more) le =
      drive-Turn limit wake_custom drop_future poll_future drop_handle poll_handle 1 (suc fuel) env
        (task_turn idle [] f (waited (some (task 1))) (waits f') (
          child_yields limit wake_custom drop_future poll_future clock system f f' idle []
            (waited (some (task 1))) e))
      ∙ middle_run n f' (suc (suc fuel)) env more (omega (arith, le))

  -- The first poll of the root, behind one of the task that yielded.
  root_turn :
      (f : F)
      → Waits
          (at queued queued (root_task_id ∷ 1 ∷ []) [] ((1, task_of f) ∷ []) (waited none))
          (waits f)
  unfolding admit
  root_turn f =
      let tasks : Map (LocalTask F) = (1, task_of f) ∷ [] in
      of_root (at queued queued (1 ∷ []) [] tasks (waited none)) (0, (waits f).shared)
        (head_pass limit wake_custom drop_future poll_future clock system queued queued root_task_id
          (1 ∷ []) [] tasks (waited none) now reading)
        (root_waits limit wake_custom drop_future poll_future clock system queued (1 ∷ []) tasks)

  -- The first turn is the task's, which is admitted before it.
  first_turn :
      (f : F) (after : Executor F V)
      → poll_task limit wake_custom drop_future poll_future 1
          (at queued queued (root_task_id ∷ []) [] ((1, task_of f) ∷ []) (waited none))
        ≡ (ok tt, after)
      → Waits (at_start f) after
  unfolding admit insert
  first_turn f after e =
      of_task 1 (at queued queued (root_task_id ∷ []) [] ((1, task_of f) ∷ []) (waited none)) after
        (head_pass limit wake_custom drop_future poll_future clock system queued queued 1
          (root_task_id ∷ []) (task_of f ∷ []) [] (waited none) now reading)
        refl e

  start_run :
      (n : ℕ) (f : F) (fuel : ℕ) (env : List Arrival)
      → Yields limit wake_custom drop_future poll_future answer n f
      → n + 4 ≤ fuel
      → run fuel env (at_start f) ≡ (returned result, env, 0, over)
  start_run n f zero env y le = absurd (omega (arith, le))
  start_run n f (suc zero) env y le = absurd (omega (arith, le))
  start_run n f (suc (suc zero)) env y le = absurd (omega (arith, le))
  start_run zero f (suc (suc (suc fuel))) env (ends f' e d) le =
      drive-Turn limit wake_custom drop_future poll_future drop_handle poll_handle 1 (suc fuel) env
        (first_turn f answered
          (child_ends limit wake_custom drop_future poll_future clock system f f' answer result
            (root_task_id ∷ []) e d told_so).0)
      ∙ last_run fuel env
  start_run (suc n) f (suc (suc (suc fuel))) env (yields f' e more) le =
      drive-Turn limit wake_custom drop_future poll_future drop_handle poll_handle 1 (suc fuel) env
        (first_turn f
          (at queued queued (root_task_id ∷ 1 ∷ []) [] ((1, task_of f') ∷ []) (waited none))
          (child_yields limit wake_custom drop_future poll_future clock system f f' queued
            (root_task_id ∷ []) (waited none) e))
      ∙ drive-Turn limit wake_custom drop_future poll_future drop_handle poll_handle 1 fuel env
          (root_turn f')
      ∙ middle_run n f' (suc fuel) env more (omega (arith, le))

  -- A `block_on` of the join handle of a task that was spawned on a new executor returns what the
  -- task's future came to, whatever other threads would do in a wait: its output, or that it panicked.
  -- The future may wake itself and yield any number of times before it ends; each yield takes one
  -- round of the loop, and four more are enough. Behind it the task is gone, no id is left in the
  -- channel, and the handle has taken the result. The clock shows a time within its range, and the
  -- future and its drop do nothing else.
  pub block_on-join :
      (n : ℕ) (f : F) (fuel : ℕ) (env : List Arrival)
      → Yields limit wake_custom drop_future poll_future answer n f
      → n + 4 ≤ fuel
      → (let ex : Executor F V = with_clock clock system in
          let (j, s) = spawn wake_custom drop_future f ex.shared in
          let (run, env', ex') =
            block_on limit wake_custom drop_future poll_future drop_handle poll_handle fuel env j
              (record ex { shared = s }) in
          (run ≡ returned result)
          × (env' ≡ env)
          × (ex'.tasks ≡ [])
          × (ex'.shared.scheduler.ready ≡ [])
          × (ex'.shared.joins ≡ record { armed = false; state = consumed } ∷ []))
  unfolding block_on spawn with_clock drop_handle
  block_on-join n f fuel env y le =
      let e = start_run n f fuel env y le in
      (
        ap (λ out. out.0) e,
        ap (λ out. out.1) e,
        ap (λ out. (ending out).tasks) e,
        ap (λ out. (ending out).shared.scheduler.ready) e,
        ap (λ out. (ending out).shared.joins) e,
      )
    where
      ending : Run (Result V JoinError) × List Arrival × ℕ × Executor F V → Executor F V
      ending (run, env, j, ex) =
          release_root limit wake_custom drop_future poll_future drop_handle poll_handle run j ex
