-- ===== src/Executor.antt =====
-- src/executor.rs. The executor owns the tasks; `shared` is what it has in common with the handles.
pub mod Run
pub mod Usage
pub mod Ids
pub mod Polling
pub mod Panics
pub mod Tracks
pub mod Safety
pub mod Passes
pub mod Waiting
pub mod Joins
pub mod Cancelling
pub mod Dropping
pub mod Delivery
pub mod Stepping
use asyncr.Prelude.{
  ℕ, zero, suc, ◌+◌, ◌-◌, ◌≡◌, refl, Bool, true, false, List, [], ◌∷◌, ◌++◌, Option, none, some,
  Outcome, ok, panic, not_admitted, Poll, ready, pending, Place, ◌==◌, leb, if◌then◌else◌,
}
use asyncr.Prelude.Map.{Map, get, insert, remove}
use asyncr.Schedule
use asyncr.Schedule.{Scheduler}
use asyncr.Time.Clock
use asyncr.Time.Clock.{Clock}
use asyncr.Time.Driver
use asyncr.Shared.{
  Waker, task, Spawned, LocalTask, SpawnState, Shared, root_task_id, request_schedule, wake_all,
  drop_spawned, poll_spawned,
}

pub record Executor (F V : Type 0) : Type 0 where
  pub tasks : Map (LocalTask F)
  pub shared : Shared F V

-- The scheduler within the shared state, and within the state of a poll.
abbrev pub in_poll : {F V T : Type 0} → Place (T × Shared F V) Scheduler
in_poll = record {
  view = λ p. p.1.scheduler;
  put = λ scheduler p. (let s = p.1 in (p.0, record s { scheduler = scheduler }));
  view-put = λ scheduler p. refl;
  put-put = λ scheduler other p. refl;
  put-view = λ p. refl;
}

unfoldable pub with_clock : {F V : Type 0} → Clock → ℕ → Executor F V
unfolding Driver.new
with_clock clock system = record {
  tasks = [];
  shared = record {
    scheduler = record { schedules = []; ready = []; open_rx = true };
    spawns = record { pending_spawns = []; next_id = 1; closed = false };
    timers = Driver.new;
    joins = [];
    clock = clock;
    system = system;
    cells = [];
  };
}

unfoldable pub new : {F V : Type 0} → ℕ → Executor F V
unfolding with_clock Clock.new
new system = with_clock (Clock.new system) system

-- Where `next_ready_id` stands once it has looked at the channel.
pub data Pass : Type 0 where
  received : ℕ → Pass
  jumped : Pass  -- a paused clock was moved on, and the loop goes round
  must_wait : Option ℕ → Pass  -- the timeout of the blocking receive

unfoldable pub admit : {F : Type 0} → List (LocalTask F) → Map (LocalTask F) → Map (LocalTask F)
unfolding insert
admit [] tasks = tasks
admit (t ∷ ts) tasks = admit ts (insert t.id t tasks)

module _ {F V : Type 0} where
  unfoldable pub drain_pending_spawns : Executor F V → Executor F V
  unfolding admit
  drain_pending_spawns ex =
      let shared = ex.shared in
      let spawns = shared.spawns in
      record {
        tasks = admit spawns.pending_spawns ex.tasks;
        shared = record shared { spawns = record spawns { pending_spawns = [] } };
      }

  -- The task as it is after its poll, and its removal when it is done.
  unfoldable pub settle :
      LocalTask F
      → Map (LocalTask F)
      → Outcome (Poll (Unit {0})) × (Spawned F × Shared F V)
      → Outcome (Unit {0}) × Executor F V
  unfolding insert remove
  settle t tasks (panic p, (future, shared)) = (
    panic p,
    record { tasks = insert t.id (record t { future = future }) tasks; shared = shared },
  )
  settle t tasks (ok pending, (future, shared)) =
      (ok tt, record { tasks = insert t.id (record t { future = future }) tasks; shared = shared })
  settle t tasks (ok (ready _), (future, shared)) =
      (ok tt, record { tasks = remove t.id tasks; shared = shared })

module _ {F V : Type 0} (limit : ℕ) (wake_custom : ℕ → Shared F V → Shared F V)
    (drop_future : F → Shared F V → Shared F V)
    (poll_future : Waker → F → Shared F V → Outcome (Poll V) × F × Shared F V) where
  unfoldable pub poll_task : ℕ → Executor F V → Outcome (Unit {0}) × Executor F V
  unfolding get Schedule.poll poll_spawned settle
  poll_task id ex = elim (get id ex.tasks) [
    | none ↦ (panic not_admitted, ex)
    | some t ↦ settle t ex.tasks (
        Schedule.poll in_poll t.schedule
          (poll_spawned wake_custom drop_future poll_future (task t.schedule))
          (t.future, ex.shared))
  ]

  unfoldable pub process_expired : Shared F V → Outcome (Unit {0}) × Shared F V
  unfolding Clock.now Driver.process_expired wake_all
  process_expired s = elim (Clock.now limit s.system s.clock) [
    | panic p ↦ (panic p, s)
    | ok now ↦
        let (wakers, timers) = Driver.process_expired now s.timers in
        (ok tt, wake_all wake_custom drop_future wakers (record s { timers = timers }))
  ]

  -- The part of a pass behind an empty channel: the jump of a paused clock, or the timeout.
  unfoldable pub look_ahead : Shared F V → Outcome Pass × Shared F V
  unfolding Driver.advance_to_next_deadline_if_paused Driver.time_until_next_deadline Clock.now
  look_ahead s =
      let (advanced, clock, timers) = Driver.advance_to_next_deadline_if_paused s.clock s.timers in
      elim advanced [
        | panic p ↦ (panic p, record s { clock = clock; timers = timers })
        | ok true ↦ (ok jumped, record s { clock = clock; timers = timers })
        | ok false ↦
            let reading = Clock.now limit s.system clock in
            let (timeout, timers') = Driver.time_until_next_deadline reading timers in
            let s' = record s { clock = clock; timers = timers' } in
            elim timeout [ panic p ↦ (panic p, s') | ok t ↦ (ok (must_wait t), s') ]
      ]

  -- `ready_rx.try_recv()`, and what follows where it is empty.
  unfoldable pub try_recv : List ℕ → Shared F V → Outcome Pass × Shared F V
  unfolding look_ahead
  try_recv (id ∷ ids) s =
      let scheduler = s.scheduler in
      (ok (received id), record s { scheduler = record scheduler { ready = ids } })
  try_recv [] s = look_ahead s

  -- One pass of the loop in `next_ready_id`, up to the blocking receive.
  unfoldable pub pass : Executor F V → Outcome Pass × Executor F V
  unfolding drain_pending_spawns process_expired try_recv
  pass ex =
      let ex' = drain_pending_spawns ex in
      let (processed, shared) = process_expired ex'.shared in
      elim processed [
        | panic p ↦ (panic p, record ex' { shared = shared })
        | ok _ ↦
            let (result, shared') = try_recv shared.scheduler.ready shared in
            (result, record ex' { shared = shared' })
      ]

  unfoldable pub drop_tasks : Map (LocalTask F) → Shared F V → Shared F V
  unfolding drop_spawned
  drop_tasks [] s = s
  drop_tasks ((_, t) ∷ tasks) s = drop_tasks tasks (drop_spawned wake_custom drop_future t.future s)

  unfoldable pub drop_pending : List (LocalTask F) → Shared F V → Shared F V
  unfolding drop_spawned
  drop_pending [] s = s
  drop_pending (t ∷ ts) s = drop_pending ts (drop_spawned wake_custom drop_future t.future s)

  -- `Executor::drop`, and then the drops of the fields: the tasks and the channel's receiver. The
  -- pending spawns are out of the queue while they are dropped, and `closed` keeps new ones out.
  unfoldable pub drop : Executor F V → Shared F V
  unfolding drop_pending drop_tasks
  drop ex =
      let s = ex.shared in
      let spawns = s.spawns in
      let closed = record s { spawns = record spawns { closed = true; pending_spawns = [] } } in
      let cleared = drop_tasks ex.tasks (drop_pending spawns.pending_spawns closed) in
      let scheduler = cleared.scheduler in
      record cleared { scheduler = record scheduler { open_rx = false } }
