-- ===== src/Executor/Run/Twice.antt =====
-- The join pairs of src/join.rs over the poll of a task (src/executor.rs).
use asyncr.Prelude.{
  ℕ, ◌≡◌, ◌≢◌, refl, ◌∙◌, inl, inr, false, Outcome, ok, panic, Panic, Poll, ready, pending, arith,
  Option-cases, Outcome-cases,
}
use asyncr.Prelude.Map.{Map, get}
use asyncr.Schedule
use asyncr.Schedule.{Scheduler, begin, finish, after_poll}
use asyncr.Join.Store.{IsIntact}
use asyncr.Shared.{Waker, task, Spawned, LocalTask, Shared, poll_spawned}
use asyncr.Executor.{Executor, in_poll, settle, poll_task}
use asyncr.Executor.Joins.{poll_spawned-ok}
use asyncr.Executor.Polling.{Users}
use asyncr.Executor.Run.Queue.{settle-shared}
use asyncr.Executor.Run.Intact.{is_twice, Once, same_panic}

module _ {F V : Type 0} (limit : ℕ) (wake_custom : ℕ → Shared F V → Shared F V)
    (drop_future : F → Shared F V → Shared F V)
    (poll_future : Waker → F → Shared F V → Outcome (Poll V) × F × Shared F V)
    (users : Users wake_custom drop_future poll_future) where
  begin-twice : (r : ℕ) (s : Scheduler) (p : Panic) → begin r s ≡ panic p → is_twice p ≡ false
  unfolding begin Schedule.State.begin_poll
  begin-twice r s p e = ground arith

  pub finish-joins :
      {T A : Type 0} (r : ℕ) (answer : Outcome (Poll A)) (after : T × Shared F V)
      → let (end, (x, s)) = after_poll in_poll r (answer, after) in
        (s.joins ≡ after.1.joins)
        × (((p : Panic) → answer ≡ panic p → is_twice p ≡ false)
            → (p : Panic) → end ≡ panic p
            → is_twice p ≡ false)
  unfolding after_poll finish Schedule.State.finish_poll
  finish-joins r (panic p) (x, s) = (refl, λ other. other)
  finish-joins r (ok result) (x, s) = ground arith

  module _ {T A : Type 0} (future : T × Shared F V → Outcome (Poll A) × (T × Shared F V))
      (keeps : (x : T) (s : Shared F V)
        → IsIntact s.joins
        → IsIntact (future (x, s)).1.1.joins
          × ((p : Panic) → (future (x, s)).0 ≡ panic p → is_twice p ≡ false)) where
    -- A poll under a schedule, of what keeps the pairs intact.
    pub poll-Once :
        (r : ℕ) (x : T) (s : Shared F V)
        → IsIntact s.joins
        → let (answer, (_, after)) = Schedule.poll in_poll r future (x, s) in
          IsIntact after.joins × ((p : Panic) → answer ≡ panic p → is_twice p ≡ false)
    unfolding Schedule.poll
    poll-Once r x s intact = elim (Outcome-cases (begin r s.scheduler)) [
      | inl (p, e) ↦
          rw (Schedule.poll, e) (intact, λ q f. begin-twice r s.scheduler q (e ∙ same_panic f))
      | inr (begun, e) ↦
          let s' : Shared F V = record s { scheduler = begun } in
          let (answer, after) = future (x, s') in
          let (kept, other) = keeps x s' intact in
          let (same, others) = finish-joins r answer after in
          rw (Schedule.poll, e) (rw same kept, others other)
    ]

  settle-panic :
      (t : LocalTask F) (tasks : Map (LocalTask F))
      (out : Outcome (Poll (Unit {0})) × (Spawned F × Shared F V)) (p : Panic)
      → (settle t tasks out).0 ≡ panic p
      → out.0 ≡ panic p
  unfolding settle
  settle-panic t tasks (panic q, (future, s)) p e = same_panic e
  settle-panic t tasks (ok pending, (future, s)) p e = cc
  settle-panic t tasks (ok (ready _), (future, s)) p e = cc

  no_panic :
      (answer : Outcome (Poll (Unit {0})))
      → ((p : Panic) → answer ≢ panic p)
      → (p : Panic) → answer ≡ panic p
      → is_twice p ≡ false
  no_panic answer h p e = absurd (h p e)

  pub poll_task-Once :
      (id : ℕ) (ex : Executor F V)
      → IsIntact ex.shared.joins
      → let (answer, after) = poll_task limit wake_custom drop_future poll_future id ex in
        Once answer after
  unfolding poll_task
  poll_task-Once id ex intact = elim (Option-cases (get id ex.tasks)) [
    | inl e ↦ rw (poll_task, e) (intact, λ p f. ground (arith, f))
    | inr (t, e) ↦
        let future = poll_spawned wake_custom drop_future poll_future (task t.schedule) in
        let out = Schedule.poll in_poll t.schedule future (t.future, ex.shared) in
        let (kept, other) =
          poll-Once future
            (λ u s i.
              let (calm, after) =
                poll_spawned-ok wake_custom drop_future poll_future users (task t.schedule) u s i in
              (after, no_panic _ calm))
            t.schedule t.future ex.shared intact in
        rw (poll_task, e)
          (
            rw (settle-shared wake_custom drop_future t ex.tasks out) kept,
            λ p f. other p (settle-panic t ex.tasks out p f),
          )
  ]
