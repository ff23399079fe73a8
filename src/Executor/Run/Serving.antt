-- ===== src/Executor/Run/Serving.antt =====
-- The polls of a spawned task and of the root that awaits it, in the stages of Executor/Run/Handles.antt.
use asyncr.Prelude.{
  ℕ, ◌≡◌, refl, ap, ◌∙◌, false, List, [], ◌∷◌, ◌++◌, Option, none, some, Outcome, ok, panic, Panic,
  Poll, ready, pending, arith, Result, value, error,
}
use asyncr.Prelude.Map.{Map}
use asyncr.Schedule
use asyncr.Schedule.State.{ScheduleState, idle, queued, running, complete}
use asyncr.Join.{Pair, JoinError}
use asyncr.Catch
use asyncr.Shared.{
  Waker, task, Spawned, LocalTask, Shared, root_task_id, request_schedule, poll_spawned, publish,
  ended, to_join,
}
use asyncr.Time.Clock.{Clock}
use asyncr.Executor.{Executor, poll_task, in_poll, settle}
use asyncr.Executor.Delivery.{result_of}
use asyncr.Executor.Run.Handles.{poll_handle, child, armed, told, taken_out, stage}

module _ {F V : Type 0} (limit : ℕ) (wake_custom : ℕ → Shared F V → Shared F V)
    (drop_future : F → Shared F V → Shared F V)
    (poll_future : Waker → F → Shared F V → Outcome (Poll V) × F × Shared F V) (clock : Clock)
    (system : ℕ) where
  abbrev at :
      ScheduleState
      → ScheduleState
      → List ℕ
      → List (LocalTask F)
      → Map (LocalTask F)
      → Pair V Waker
      → Executor F V
  at = stage limit wake_custom drop_future poll_future clock system

  abbrev task_of : F → LocalTask F
  task_of = child limit wake_custom drop_future poll_future

  abbrev waited : Option Waker → Pair V Waker
  waited = armed limit wake_custom drop_future poll_future

  abbrev answered : Result V JoinError → Pair V Waker
  answered = told limit wake_custom drop_future poll_future

  abbrev polled : Executor F V → Outcome (Unit {0}) × Executor F V
  polled = poll_task limit wake_custom drop_future poll_future 1

  -- `poll_task` from the end of the poll of the user's future on.
  abbrev from_future : F → Outcome (Poll V) × F × Shared F V → Outcome (Unit {0}) × Executor F V
  from_future f (answer, f', s) =
      let t : Spawned F = record { inner = record { future = f' }; join = 0 } in
      let out : Outcome (Poll (Unit {0})) × (Spawned F × Shared F V) =
        elim (Catch.caught poll_future answer) [
          | pending ↦ (ok pending, (t, s))
          | ready result ↦
              let (end, s') = ended wake_custom drop_future poll_future 0 (
                publish wake_custom drop_future 0
                  (to_join wake_custom drop_future poll_future result) (drop_future f' s)) in
              (end, (t, s'))
        ] in
      settle (task_of f) ((1, task_of f) ∷ []) (Schedule.after_poll in_poll 0 out)

  child_poll :
      (f : F) (root : ScheduleState) (ids : List ℕ) (pair : Pair V Waker)
      → polled (at queued root ids [] ((1, task_of f) ∷ []) pair)
        ≡ from_future f (
            poll_future
              (task 0)
              f
              (at (running false) root ids [] ((1, task_of f) ∷ []) pair).shared)
  unfolding poll_task Schedule.poll poll_spawned Catch.poll
  child_poll f root ids pair = refl

  -- The task's future yields, and the task is queued again.
  pub child_yields :
      (f f' : F) (root : ScheduleState) (ids : List ℕ) (pair : Pair V Waker)
      → ((r : ℕ) (s : Shared F V)
          → poll_future (task r) f s
            ≡ (ok pending, f', request_schedule wake_custom drop_future r s))
      → polled (at queued root ids [] ((1, task_of f) ∷ []) pair)
        ≡ (ok tt, at queued root (ids ++ 1 ∷ []) [] ((1, task_of f') ∷ []) pair)
  unfolding Schedule.after_poll request_schedule settle Catch.caught
  child_yields f f' root ids pair e =
      child_poll f root ids pair
      ∙ ap (from_future f) (e 0 (at (running false) root ids [] ((1, task_of f) ∷ []) pair).shared)

  -- What the async block publishes for a future that has ended.
  caught-result :
      (answer : Outcome (Poll V)) {result : Result V JoinError}
      → result_of answer ≡ some result
      → (caught : Result V Panic) × (Catch.caught poll_future answer ≡ ready caught)
        × (to_join wake_custom drop_future poll_future caught ≡ result)
  unfolding Catch.caught
  caught-result (ok (ready v)) h = (value v, refl, ground (arith, h))
  caught-result (ok pending) h = cc
  caught-result (panic p) h = (error p, refl, ground (arith, h))

  -- The task's future ends, and so does the task. The handle has not been polled, or the root waits
  -- on it.
  pub child_ends :
      (f f' : F) (answer : Outcome (Poll V)) (result : Result V JoinError) (ids : List ℕ)
      → ((w : Waker) (s : Shared F V) → poll_future w f s ≡ (answer, f', s))
      → ((s : Shared F V) → drop_future f' s ≡ s)
      → result_of answer ≡ some result
      → (polled (at queued queued ids [] ((1, task_of f) ∷ []) (waited none))
          ≡ (ok tt, at complete queued ids [] [] (answered result)))
        × (polled (at queued idle ids [] ((1, task_of f) ∷ []) (waited (some (task 1))))
            ≡ (ok tt, at complete queued (ids ++ root_task_id ∷ []) [] [] (answered result)))
  unfolding Schedule.after_poll settle Catch.caught publish ended
  child_ends f f' answer result ids e d h =
      let (caught, at, same) = caught-result answer h in
      (
        child_poll f queued ids (waited none)
            ∙ ap (from_future f) (e (task 0) (during queued (waited none)))
            ∙ rw (at, d (during queued (waited none)), same) refl,
        child_poll f idle ids (waited (some (task 1)))
            ∙ ap (from_future f) (e (task 0) (during idle (waited (some (task 1)))))
            ∙ rw (at, d (during idle (waited (some (task 1)))), same) refl,
      )
    where
      during : ScheduleState → Pair V Waker → Shared F V
      during root pair = (at (running false) root ids [] ((1, task_of f) ∷ []) pair).shared

  -- The root polls the handle: it waits for the task, or takes the result.
  abbrev pub asked : Executor F V → Outcome (Poll (Result V JoinError)) × (ℕ × Shared F V)
  asked ex = Schedule.poll in_poll 1 (poll_handle (task 1)) (0, ex.shared)

  pub root_waits :
      (c : ScheduleState) (ids : List ℕ) (tasks : Map (LocalTask F))
      → asked (at c queued ids [] tasks (waited none))
        ≡ (ok pending, (0, (at c idle ids [] tasks (waited (some (task 1)))).shared))
  unfolding Schedule.poll poll_handle
  root_waits c ids tasks = refl

  pub root_takes :
      (c : ScheduleState) (ids : List ℕ) (tasks : Map (LocalTask F)) (result : Result V JoinError)
      → asked (at c queued ids [] tasks (answered result)) ≡ (
        ok (ready result),
        (
          0,
          (at c complete ids [] tasks (taken_out limit wake_custom drop_future poll_future)).shared,
        ),
      )
  unfolding Schedule.poll poll_handle
  root_takes c ids tasks result = refl
