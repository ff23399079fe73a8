-- ===== src/Executor/Run/Queue.antt =====
-- The ready channel of src/executor.rs as a queue: what an operation of the executor, or of user code,
-- adds to it.
use asyncr.Prelude.{
  ℕ, ◌≡◌, refl, sym, ap, ◌∙◌, inl, inr, false, List, [], ◌∷◌, ◌++◌, none, some, Outcome, ok, panic,
  Poll, ready, pending, arith, get_elem?, set, Option-cases, Outcome-cases, Bool-cases,
}
use asyncr.Prelude.Map.{Map, get}
use asyncr.Schedule
use asyncr.Schedule.{Scheduler, TaskSchedule, begin, finish, after_poll}
use asyncr.Schedule.State.{
  ScheduleState, ScheduleAction, enqueue, no_action, completed, begin_poll, finish_poll,
}
use asyncr.Shared.{
  Waker, task, Spawned, LocalTask, Shared, next_id, request_schedule, spawn, submit, poll_spawned,
}
use asyncr.Executor.{Executor, in_poll, settle, poll_task}
use asyncr.Executor.Usage.{Uses, stays, wakes, spawns, changes}
use asyncr.Executor.Polling.{Users, poll_spawned-Uses}

-- Ids were added at the end.
abbrev pub Extends : List ℕ → List ℕ → Type 0
Extends before after = (more : List ℕ) × (after ≡ before ++ more)

append_nil : (xs : List ℕ) → xs ++ [] ≡ xs
append_nil [] = refl
append_nil (x ∷ xs) = ap (◌∷◌ x) (append_nil xs)

append_assoc : (xs ys zs : List ℕ) → (xs ++ ys) ++ zs ≡ xs ++ (ys ++ zs)
append_assoc [] ys zs = refl
append_assoc (x ∷ xs) ys zs = ap (◌∷◌ x) (append_assoc xs ys zs)

pub Extends-same : (xs : List ℕ) → Extends xs xs
Extends-same xs = ([], sym (append_nil xs))

pub Extends-trans : (xs ys zs : List ℕ) → Extends xs ys → Extends ys zs → Extends xs zs
Extends-trans xs ys zs (a, e) (b, f) = (a ++ b, f ∙ ap (λ us. us ++ b) e ∙ append_assoc xs a b)

send-Extends : (id : ℕ) (s : Scheduler) → Extends s.ready (Schedule.send id s).ready
unfolding Schedule.send
send-Extends id s = elim (Bool-cases s.open_rx) [
  | inl e ↦ rw (Schedule.send, e) (id ∷ [], refl)
  | inr e ↦ rw (Schedule.send, e) (Extends-same s.ready)
]

action-Extends :
    (r : ℕ) (t : TaskSchedule) (state : ScheduleState) (action : ScheduleAction) (s : Scheduler)
    → Extends s.ready (Schedule.apply_action r t (state, action) s).ready
unfolding Schedule.apply_action
action-Extends r t state no_action s = Extends-same s.ready
action-Extends r t state completed s = Extends-same s.ready
action-Extends r t state enqueue s =
    send-Extends t.id (record s { schedules = set s.schedules r (record t { state = state }) })

request-Extends : (r : ℕ) (s : Scheduler) → Extends s.ready (Schedule.request_schedule r s).ready
unfolding Schedule.request_schedule
request-Extends r s = elim (Option-cases (get_elem? s.schedules r)) [
  | inl e ↦ rw (Schedule.request_schedule, e) (Extends-same s.ready)
  | inr (t, e) ↦
      let (state, action) = Schedule.State.wake t.state in
      rw (Schedule.request_schedule, e) (action-Extends r t state action s)
]

begin-ready : (r : ℕ) (s t : Scheduler) → begin r s ≡ ok t → t.ready ≡ s.ready
unfolding begin
begin-ready r s t e = ground arith

finish-Extends :
    {A : Type 0} (r : ℕ) (result : Poll A) (s t : Scheduler)
    → finish r result s ≡ ok t
    → Extends s.ready t.ready
unfolding finish
finish-Extends r result s t e = elim (Option-cases (get_elem? s.schedules r)) [
  | inl g ↦ rw (sym (kept g)) (Extends-same s.ready)
  | inr (q, g) ↦ elim (Outcome-cases (finish_poll q.state result)) [
    | inl (p, f) ↦ absurd (ground (arith, e, g, f))
    | inr ((next, todo), f) ↦ rw (sym (moved q next todo g f)) (action-Extends r q next todo s)
  ]
]
  where
    kept : get_elem? s.schedules r ≡ none → s ≡ t
    kept g = ground (arith, e, g)

    moved :
        (q : TaskSchedule) (state : ScheduleState) (action : ScheduleAction)
        → get_elem? s.schedules r ≡ some q
        → finish_poll q.state result ≡ ok (state, action)
        → Schedule.apply_action r q (state, action) s ≡ t
    moved q next todo g f = ground (arith, e, g, f)

module _ {F V : Type 0} (wake_custom : ℕ → Shared F V → Shared F V)
    (drop_future : F → Shared F V → Shared F V) where
  spawn-Extends :
      (future : F) (s : Shared F V)
      → s.spawns.closed ≡ false
      → Extends s.scheduler.ready (spawn wake_custom drop_future future s).1.scheduler.ready
  unfolding spawn submit request_schedule Schedule.new
  spawn-Extends future s accepting =
      let (id, _) = next_id s.spawns.next_id in
      let (r, scheduler) = Schedule.new id s.scheduler in
      rw (submit, accepting) (request-Extends r scheduler)

  pub Uses-Extends :
      {s t : Shared F V}
      → Uses wake_custom drop_future s t
      → Extends s.scheduler.ready t.scheduler.ready
  unfolding request_schedule
  Uses-Extends {s = s} stays = Extends-same s.scheduler.ready
  Uses-Extends {s = s} (wakes {t} r u) =
      Extends-trans s.scheduler.ready t.scheduler.ready _ (Uses-Extends u)
        (request-Extends r t.scheduler)
  Uses-Extends {s = s} (spawns {t} future u accepting lt) =
      Extends-trans s.scheduler.ready t.scheduler.ready _ (Uses-Extends u)
        (spawn-Extends future t accepting)
  Uses-Extends (changes {u = t} u e f js) = rw e (Uses-Extends u)

  after-Extends :
      {T A : Type 0} (r : ℕ) (answer : Outcome (Poll A)) (after : T × Shared F V)
      → Extends after.1.scheduler.ready (after_poll in_poll r (answer, after)).1.1.scheduler.ready
  unfolding after_poll
  after-Extends r (panic p) (x, s) = Extends-same s.scheduler.ready
  after-Extends r (ok result) (x, s) = elim (Outcome-cases (finish r result s.scheduler)) [
    | inl (p, e) ↦ rw (after_poll, e) (Extends-same s.scheduler.ready)
    | inr (t, e) ↦ rw (after_poll, e) (finish-Extends r result s.scheduler t e)
  ]

  module _ {T A : Type 0} (future : T × Shared F V → Outcome (Poll A) × (T × Shared F V))
      (uses : (x : T) (s : Shared F V) → Uses wake_custom drop_future s (future (x, s)).1.1) where
    -- A poll of a task under its schedule.
    pub poll-Extends :
        (r : ℕ) (x : T) (s : Shared F V)
        → Extends s.scheduler.ready (Schedule.poll in_poll r future (x, s)).1.1.scheduler.ready
    unfolding Schedule.poll
    poll-Extends r x s = elim (Outcome-cases (begin r s.scheduler)) [
      | inl (p, e) ↦ rw (Schedule.poll, e) (Extends-same s.scheduler.ready)
      | inr (begun, e) ↦
          let s' : Shared F V = record s { scheduler = begun } in
          let (answer, after) = future (x, s') in
          let same = begin-ready r s.scheduler begun e in
          rw (Schedule.poll, e)
            (Extends-trans s.scheduler.ready after.1.scheduler.ready _
              (rw (sym same) (Uses-Extends (uses x s'))) (after-Extends r answer after))
    ]

  pub settle-shared :
      (t : LocalTask F) (tasks : Map (LocalTask F))
      (out : Outcome (Poll (Unit {0})) × (Spawned F × Shared F V))
      → (settle t tasks out).1.shared ≡ out.1.1
  unfolding settle
  settle-shared t tasks (panic p, (future, s)) = refl
  settle-shared t tasks (ok pending, (future, s)) = refl
  settle-shared t tasks (ok (ready _), (future, s)) = refl

  module _ (limit : ℕ) (poll_future : Waker → F → Shared F V → Outcome (Poll V) × F × Shared F V)
      (users : Users wake_custom drop_future poll_future) where
    pub poll_task-Extends :
        (id : ℕ) (ex : Executor F V)
        → Extends ex.shared.scheduler.ready
            (poll_task limit wake_custom drop_future poll_future id ex).1.shared.scheduler.ready
    unfolding poll_task
    poll_task-Extends id ex = elim (Option-cases (get id ex.tasks)) [
      | inl e ↦ rw (poll_task, e) (Extends-same ex.shared.scheduler.ready)
      | inr (t, e) ↦
          rw (poll_task, e)
            (rw (settle-shared t ex.tasks _) (
              poll-Extends (poll_spawned wake_custom drop_future poll_future (task t.schedule))
                (λ u s.
                  poll_spawned-Uses wake_custom drop_future poll_future users (task t.schedule) u s)
                t.schedule t.future ex.shared))
    ]
