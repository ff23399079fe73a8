-- ===== src/Executor/Dropping.antt =====
-- `Executor::drop` of src/executor.rs, and the join handles of the tasks that it drops.
use asyncr.Prelude.{
  ℕ, ◌≡◌, refl, ap, ◌⊎◌, inl, inr, true, false, List, [], ◌∷◌, Option, none, some, Outcome, ok,
  panic, Poll, ready, error, get_elem?, set, Option-cases,
}
use asyncr.Prelude.Map.{Map, get}
use asyncr.Join
use asyncr.Join.{Pair, join_pair, finished, cancelled}
use asyncr.Join.Store.{as_before, stepped, gives_up}
use asyncr.Shared.{
  Waker, Spawned, LocalTask, SpawnState, Shared, conclude, drop_sender, drop_spawned,
}
use asyncr.Executor
use asyncr.Executor.{Executor, drop_tasks, drop_pending}
use asyncr.Executor.Usage.{Uses, stays, Uses-trans}
use asyncr.Executor.Joins.{Uses-closed}
use asyncr.Executor.Cancelling.{
  IsOpen, IsCancelled, Spares, drop_tasks-Keeps, drop_pending-IsCancelled, drop_tasks-IsCancelled,
  pending-Keeps,
}
use asyncr.Executor.Polling.{Users, wake-Uses, conclude-Uses}

-- A task waits to be admitted, or stands in the table.
abbrev pub Holds : {F V : Type 0} → LocalTask F → Executor F V → Type 0
Holds t ex =
    ((i : ℕ) × (get_elem? ex.shared.spawns.pending_spawns i ≡ some t))
    ⊎ ((id : ℕ) × (get id ex.tasks ≡ some t))

module _ {F V : Type 0} (wake_custom : ℕ → Shared F V → Shared F V)
    (drop_future : F → Shared F V → Shared F V) where
  module _ (poll_future : Waker → F → Shared F V → Outcome (Poll V) × F × Shared F V)
      (users : Users wake_custom drop_future poll_future) where
    drop_sender-Uses :
        (j : ℕ) (s : Shared F V)
        → Uses wake_custom drop_future s (drop_sender wake_custom drop_future j s).1
    unfolding drop_sender
    drop_sender-Uses j s = elim (Option-cases (get_elem? s.joins j)) [
      | inl e ↦ rw (drop_sender, e) stays
      | inr (pair, e) ↦
          rw (drop_sender, e)
            (conclude-Uses wake_custom drop_future poll_future users j (Join.drop_sender pair) s
              (stepped j as_before e gives_up))
    ]

    -- The state right after the pair was written, and before its waker is woken.
    concluded :
        (j : ℕ) (answer : Outcome (Option Waker) × Pair V Waker) (s : Shared F V)
        → Uses wake_custom drop_future
            (record s { joins = set s.joins j answer.1 })
            (conclude wake_custom drop_future j answer s).1
    unfolding conclude
    concluded j (panic p, pair) s = stays
    concluded j (ok none, pair) s = stays
    concluded j (ok (some w), pair) s =
        wake-Uses wake_custom drop_future poll_future users w
          (record s { joins = set s.joins j pair })

    drop_spawned-Uses :
        (t : Spawned F) (s : Shared F V)
        → Uses wake_custom drop_future s (drop_spawned wake_custom drop_future t s)
    unfolding drop_spawned
    drop_spawned-Uses t s =
        Uses-trans wake_custom drop_future (users.drops t.inner.future s)
          (drop_sender-Uses t.join (drop_future t.inner.future s))

    module _ (limit : ℕ) where
      abbrev tasks_dropped : Map (LocalTask F) → Shared F V → Shared F V
      tasks_dropped = drop_tasks limit wake_custom drop_future poll_future

      abbrev pending_dropped : List (LocalTask F) → Shared F V → Shared F V
      pending_dropped = drop_pending limit wake_custom drop_future poll_future

      drop_tasks-Uses :
          (tasks : Map (LocalTask F)) (s : Shared F V)
          → Uses wake_custom drop_future s (tasks_dropped tasks s)
      unfolding drop_tasks
      drop_tasks-Uses [] s = stays
      drop_tasks-Uses ((id, t) ∷ tasks) s =
          Uses-trans wake_custom drop_future (drop_spawned-Uses t.future s)
            (drop_tasks-Uses tasks (drop_spawned wake_custom drop_future t.future s))

      drop_pending-Uses :
          (ts : List (LocalTask F)) (s : Shared F V)
          → Uses wake_custom drop_future s (pending_dropped ts s)
      unfolding drop_pending
      drop_pending-Uses [] s = stays
      drop_pending-Uses (t ∷ ts) s =
          Uses-trans wake_custom drop_future (drop_spawned-Uses t.future s)
            (drop_pending-Uses ts (drop_spawned wake_custom drop_future t.future s))

      -- The state in which `Executor::drop` drops the pending spawns.
      abbrev closed : Executor F V → Shared F V
      closed ex =
          let s = ex.shared in
          let spawns = s.spawns in
          record s { spawns = record spawns { closed = true; pending_spawns = [] } }

      dropped-Uses :
          (ex : Executor F V)
          → Uses wake_custom drop_future
              (closed ex)
              (tasks_dropped ex.tasks (pending_dropped ex.shared.spawns.pending_spawns (closed ex)))
      dropped-Uses ex =
          let pending = ex.shared.spawns.pending_spawns in
          Uses-trans wake_custom drop_future (drop_pending-Uses pending (closed ex))
            (drop_tasks-Uses ex.tasks (pending_dropped pending (closed ex)))

      -- The pair of a task of the executor.
      held-IsCancelled :
          (ex : Executor F V) (t : LocalTask F)
          → ((f : F) → Spares t.future.join (drop_future f))
          → ((k : ℕ) → Spares t.future.join (wake_custom k))
          → Holds t ex
          → IsOpen (get_elem? ex.shared.joins t.future.join)
          → IsCancelled (
              get_elem?
                (tasks_dropped ex.tasks
                  (pending_dropped ex.shared.spawns.pending_spawns (closed ex))).joins
                t.future.join)
      held-IsCancelled ex t drops rouses (inl (i, e)) h =
          let pending = ex.shared.spawns.pending_spawns in
          drop_tasks-Keeps wake_custom drop_future t.future.join drops rouses limit poll_future
            ex.tasks (pending_dropped pending (closed ex))
            (drop_pending-IsCancelled wake_custom drop_future t.future.join drops rouses limit
              poll_future pending (closed ex) i t e refl (inl h))
      held-IsCancelled ex t drops rouses (inr (id, e)) h =
          let pending = ex.shared.spawns.pending_spawns in
          drop_tasks-IsCancelled wake_custom drop_future t.future.join drops rouses limit
            poll_future ex.tasks (pending_dropped pending (closed ex)) id t e refl
            (pending-Keeps wake_custom drop_future t.future.join drops rouses limit poll_future
              pending (closed ex) (inl h))

      -- When the executor is dropped, no join handle of its tasks is left waiting: for a task in its
      -- table or among the pending spawns whose handle has no result, the handle's next poll gives
      -- that the task was cancelled. The executor takes no further spawn, none is left pending, and
      -- the ready channel is shut. User code that runs during the drop uses the executor by wakes,
      -- spawns and handles; it does not use the task's sender, nor take the result that its handle is
      -- given.
      pub drop-answers :
          (ex : Executor F V) (t : LocalTask F)
          → Holds t ex
          → IsOpen (get_elem? ex.shared.joins t.future.join)
          → ((f : F) → Spares t.future.join (drop_future f))
          → ((k : ℕ) → Spares t.future.join (wake_custom k))
          → let after = Executor.drop limit wake_custom drop_future poll_future ex in
            (after.spawns.closed ≡ true)
            × (after.spawns.pending_spawns ≡ [])
            × (after.scheduler.open_rx ≡ false)
            × (pair : Pair V Waker) × (get_elem? after.joins t.future.join ≡ some pair)
            × ((w : Waker) → (Join.poll w pair.state).0 ≡ ok (ready (error cancelled)))
      unfolding Executor.drop Join.poll
      drop-answers ex t holds waits drops rouses =
          let uses = dropped-Uses ex in
          let same = Uses-closed wake_custom drop_future uses refl in
          (
            ap (λ (s : SpawnState F). s.closed) same,
            ap (λ (s : SpawnState F). s.pending_spawns) same,
            refl,
            record { armed = false; state = finished (error cancelled) },
            held-IsCancelled ex t drops rouses holds waits,
            λ w. refl,
          )
