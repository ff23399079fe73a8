-- ===== src/Executor/Safety.antt =====
-- `poll_task` of src/executor.rs on an id that the executor received.
use asyncr.Prelude.{
  ◌≢◌, ℕ, ◌≡◌, refl, ap, sym, subst, ◌⊎◌, inl, inr, false, [], ◌∷◌, Option, some, Outcome, ok,
  panic, Panic, join_completed_twice, Poll, ready, pending,
}
use asyncr.Prelude.Map.{Map, get, insert, remove}
use asyncr.Schedule
use asyncr.Schedule.{Scheduler, after_poll, begin, finish}
use asyncr.Schedule.State.{ScheduleState}
use asyncr.Schedule.Store.{is_live}
use asyncr.Schedule.Store.Standing.{RunsAt}
use asyncr.Schedule.Store.Steps.{Final, begin-Consistent, finish-Consistent}
use asyncr.Schedule.Store.Owners.{Consistent-disown}
use asyncr.Shared.{Waker, task, Spawned, LocalTask, SpawnState, Shared, root_task_id, poll_spawned}
use asyncr.Executor.{Executor, admit, poll_task, in_poll, settle}
use asyncr.Executor.Usage.{Sound, owner_of, keyed-insert}
use asyncr.Executor.Polling.{Users, Uses-Sound, Uses-owner, Uses-RunsAt, poll_spawned-Uses}
use asyncr.Executor.Panics.{poll_spawned-panic}
use asyncr.Executor.Tracks.{
  Tracks, admit-Tracks, update-Tracks, remove-Tracks, keyed-remove, owner_of-Tracks, owned_task,
}

-- How a poll of a received task ends.
abbrev pub Settled : {F V : Type 0} → Option ℕ → Outcome (Unit {0}) × Executor F V → Type 0
Settled root (answer, ex) =
    (answer ≡ panic join_completed_twice)
    ⊎ ((answer ≡ ok tt) × Sound root [] ex.tasks ex.shared.spawns ex.shared.scheduler)

-- The poll was the task's last.
abbrev Lost : {A : Type 0} → Poll A → Type 0
Lost result = (st : ScheduleState) → Final result st → is_live st ≡ false

module _ {F : Type 0} {root : Option ℕ} where
  -- The state after a poll that changes the table to `tasks'`.
  settled :
      {A : Type 0} (id : ℕ) (result : Poll A) (t : LocalTask F) (tasks tasks' : Map (LocalTask F))
      (spawns : SpawnState F) (scheduler : Scheduler)
      → Sound root [] tasks spawns scheduler
      → id ≢ root_task_id
      → owner_of root (admit spawns.pending_spawns tasks) id ≡ some t.schedule
      → RunsAt t.schedule id scheduler
      → Tracks (Lost result) id tasks tasks'
      → ((i : ℕ) (u : LocalTask F) → get i tasks' ≡ some u → u.id ≡ i)
      → (after : Scheduler) × (finish t.schedule result scheduler ≡ ok after)
        × Sound root [] tasks' spawns after
  settled id result t tasks tasks' spawns scheduler i ne owned runs tracks keyed =
      let (after, e, c, v, vat, done) =
        finish-Consistent t.schedule id result scheduler i.consistent owned runs in
      (
        after,
        e,
        record {
          consistent =
              Consistent-disown after t.schedule id v
                (owner_of root (admit spawns.pending_spawns tasks')) c vat owned
                (λ j.
                  elim (owner_of-Tracks root id (admit spawns.pending_spawns tasks)
                    (admit spawns.pending_spawns tasks') ne
                    (admit-Tracks id spawns.pending_spawns tasks tasks' tracks) j) [
                      | inl f ↦ inl f
                      | inr (l, g, f) ↦ inr (l v.state done, g, f)
                    ]);
          keyed = keyed;
          counting = i.counting;
          accepting = i.accepting;
        },
      )

module _ {F V : Type 0} {root : Option ℕ} where
  -- From the end of the async block's poll on.
  poll_settles :
      (id : ℕ) (t : LocalTask F) (tasks : Map (LocalTask F)) (answer : Outcome (Poll (Unit {0})))
      (future : Spawned F) (s : Shared F V)
      → ((p : Panic) → answer ≡ panic p → p ≡ join_completed_twice)
      → Sound root [] tasks s.spawns s.scheduler
      → id ≢ root_task_id
      → get id tasks ≡ some t
      → owner_of root (admit s.spawns.pending_spawns tasks) id ≡ some t.schedule
      → RunsAt t.schedule id s.scheduler
      → Settled root (settle t tasks (after_poll in_poll t.schedule (answer, (future, s))))
  unfolding after_poll settle
  poll_settles id t tasks (panic p) future s panics i ne at owned runs =
      inl (ap panic (panics p refl))
  poll_settles id t tasks (ok pending) future s panics i ne at owned runs =
      let t' = record t { future = future } in
      let (after, e, sound) =
        settled {A = Unit {0}} id pending t tasks (insert t.id t' tasks) s.spawns s.scheduler i ne
          owned runs
          (subst (λ k. Tracks (Lost {A = Unit {0}} pending) id tasks (insert k t' tasks))
            (sym (i.keyed id t at)) (update-Tracks id t t' tasks at refl))
          (λ j u. keyed-insert t' tasks j u (i.keyed j)) in
      rw (after_poll, e) (inr (refl, sound))
  poll_settles id t tasks (ok (ready x)) future s panics i ne at owned runs =
      let (after, e, sound) =
        settled id (ready x) t tasks (remove t.id tasks) s.spawns s.scheduler i ne owned runs
          (subst (λ k. Tracks (Lost (ready x)) id tasks (remove k tasks)) (sym (i.keyed id t at))
            (remove-Tracks id tasks (λ st d. d)))
          (λ j u. keyed-remove t.id tasks j u (i.keyed j)) in
      rw (after_poll, e) (inr (refl, sound))

module _ {F V : Type 0} (root : Option ℕ) (limit : ℕ) (wake_custom : ℕ → Shared F V → Shared F V)
    (drop_future : F → Shared F V → Shared F V)
    (poll_future : Waker → F → Shared F V → Outcome (Poll V) × F × Shared F V)
    (users : Users wake_custom drop_future poll_future) where
  pub poll_task-Settled :
      (id : ℕ) (ex : Executor F V)
      → Sound root (id ∷ []) ex.tasks ex.shared.spawns ex.shared.scheduler
      → ex.shared.spawns.pending_spawns ≡ []
      → id ≢ root_task_id
      → Settled root (poll_task limit wake_custom drop_future poll_future id ex)
  unfolding poll_task Schedule.poll admit
  poll_task-Settled id ex i drained ne =
      let (r, o, scheduler, e, c, runs) = begin-Consistent id ex.shared.scheduler i.consistent in
      let (t, at, same) =
        owned_task root id r ex.tasks ne
          (subst (λ ts. owner_of root (admit ts ex.tasks) id ≡ some r) drained o) in
      let begun : Sound root [] ex.tasks ex.shared.spawns scheduler = record {
        consistent = c;
        keyed = i.keyed;
        counting = i.counting;
        accepting = i.accepting;
      } in
      let shared = ex.shared in
      let s = record shared { scheduler = scheduler } in
      let uses =
        poll_spawned-Uses wake_custom drop_future poll_future users (task t.schedule) t.future s in
      let (answer, after) =
        poll_spawned wake_custom drop_future poll_future (task t.schedule) (t.future, s) in
      rw (poll_task, at, Schedule.poll, begins t same e)
        (poll_settles id t ex.tasks answer after.0 after.1
          (poll_spawned-panic wake_custom drop_future poll_future users (task t.schedule) t.future
            s)
          (Uses-Sound wake_custom drop_future uses begun) ne at
          (Uses-owner wake_custom drop_future id uses begun (rw same o))
          (Uses-RunsAt wake_custom drop_future t.schedule id uses begun
            (subst (λ q. RunsAt q id scheduler) (sym same) runs)))
    where
      begins :
          (t : LocalTask F) {r : ℕ} {s : Scheduler}
          → t.schedule ≡ r
          → begin r ex.shared.scheduler ≡ ok s
          → begin t.schedule ex.shared.scheduler ≡ ok s
      begins t same e = rw same e
