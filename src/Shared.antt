-- ===== src/Shared.antt =====
-- What the handles of src/handle.rs, the wakers and the executor of src/executor.rs share: the
-- schedules and the ready channel, the spawn state, the timers, the clock, and the join pairs.
-- `F` is the state of a spawned user future, `V` the type of outputs.
use asyncr.Prelude.{
  ℕ, ◌+◌, ◌%◌, ◌^◌, Bool, List, [], ◌∷◌, ◌++◌, Option, none, some, Outcome, ok, panic, Poll, ready,
  pending, Result, value, error, length, get_elem?, set, ◌==◌, if◌then◌else◌,
}
use asyncr.Schedule
use asyncr.Schedule.{Scheduler}
use asyncr.Time.Clock.{Clock}
use asyncr.Time.Driver.{TimerState}
use asyncr.Join
use asyncr.Join.{JoinError, panicked, Pair, join_pair}
use asyncr.Catch
use asyncr.Catch.{CatchUnwind}

-- A waker made from an `Arc<TaskSchedule>`, or one that user code made.
pub data Waker : Type 0 where
  task : ℕ → Waker
  custom : ℕ → Waker

-- The async block of `Handle::spawn`: the user's future, and the join pair of its sender.
pub record Spawned (F : Type 0) : Type 0 where
  pub inner : CatchUnwind F
  pub join : ℕ

-- src/task.rs. `schedule` is the `Arc<TaskSchedule>`.
pub record LocalTask (F : Type 0) : Type 0 where
  pub id : ℕ
  pub future : Spawned F
  pub schedule : ℕ

pub record SpawnState (F : Type 0) : Type 0 where
  pub pending_spawns : List (LocalTask F)
  pub next_id : ℕ
  pub closed : Bool

-- `system` is the platform's time. `cells` is what user code shares outside the runtime, in `Rc`s,
-- `Arc`s and statics.
pub record Shared (F V : Type 0) : Type 0 where
  pub scheduler : Scheduler
  pub spawns : SpawnState F
  pub timers : TimerState Waker
  pub joins : List (Pair V Waker)
  pub clock : Clock
  pub system : ℕ
  pub cells : List ℕ

-- `ROOT_TASK_ID`.
abbrev pub root_task_id : ℕ
root_task_id = 0

-- One round of the loop in `SpawnState::next_id`: the counter's value, and the counter after it.
abbrev pub replace_id : ℕ → ℕ × ℕ
replace_id n = (n, (n + 1) % 2 ^ 64)

-- The loop ends in its second round at the latest: 0 is followed by 1.
unfoldable pub next_id : ℕ → ℕ × ℕ
next_id n = let (id, n') = replace_id n in if id == 0 then replace_id n' else (id, n')

-- `wake_custom` and `drop_future` are what user code does when one of its wakers is woken, and when
-- a future of its own is dropped.
module _ {F V : Type 0} (wake_custom : ℕ → Shared F V → Shared F V)
    (drop_future : F → Shared F V → Shared F V) where
  unfoldable pub request_schedule : ℕ → Shared F V → Shared F V
  unfolding Schedule.request_schedule
  request_schedule r s = record s { scheduler = Schedule.request_schedule r s.scheduler }

  unfoldable pub wake : Waker → Shared F V → Shared F V
  unfolding request_schedule
  wake (task r) s = request_schedule r s
  wake (custom k) s = wake_custom k s

  unfoldable pub wake_all : List Waker → Shared F V → Shared F V
  unfolding wake
  wake_all [] s = s
  wake_all (w ∷ ws) s = wake_all ws (wake w s)

  -- The end of `publish_inner`: the state is written back, and the waker woken.
  unfoldable pub conclude :
      ℕ → Outcome (Option Waker) × Pair V Waker → Shared F V → Outcome (Unit {0}) × Shared F V
  unfolding wake
  conclude j (panic p, pair) s = (panic p, record s { joins = set s.joins j pair })
  conclude j (ok none, pair) s = (ok tt, record s { joins = set s.joins j pair })
  conclude j (ok (some w), pair) s = (ok tt, wake w (record s { joins = set s.joins j pair }))

  unfoldable pub publish : ℕ → Result V JoinError → Shared F V → Outcome (Unit {0}) × Shared F V
  unfolding conclude Join.publish
  publish j result s = elim (get_elem? s.joins j) [
    | none ↦ (ok tt, s)
    | some pair ↦ conclude j (Join.publish result pair) s
  ]

  unfoldable pub drop_sender : ℕ → Shared F V → Outcome (Unit {0}) × Shared F V
  unfolding conclude Join.drop_sender
  drop_sender j s = elim (get_elem? s.joins j) [
    | none ↦ (ok tt, s)
    | some pair ↦ conclude j (Join.drop_sender pair) s
  ]

  -- The async block is dropped before it ends: the future first, then the sender.
  unfoldable pub drop_spawned : Spawned F → Shared F V → Shared F V
  unfolding drop_sender
  drop_spawned t s = (drop_sender t.join (drop_future t.inner.future s)).1

  unfoldable pub submit : Spawned F → Shared F V → Shared F V
  unfolding next_id request_schedule drop_spawned Schedule.new
  submit future s =
      let (id, next) = next_id s.spawns.next_id in
      let (r, scheduler) = Schedule.new id s.scheduler in
      let local_task : LocalTask F = record { id = id; future = future; schedule = r } in
      let spawns = s.spawns in
      if spawns.closed
      then drop_spawned future s
      else request_schedule r (record s {
        scheduler = scheduler;
        spawns = record spawns {
          next_id = next;
          pending_spawns = spawns.pending_spawns ++ local_task ∷ [];
        };
      })

  -- `Handle::spawn`. The join handle is the index of its pair.
  unfoldable pub spawn : F → Shared F V → ℕ × Shared F V
  unfolding submit join_pair Catch.new
  spawn future s =
      let j = length s.joins in
      (
        j,
        submit (record { inner = Catch.new future; join = j })
            (record s { joins = s.joins ++ join_pair ∷ [] }),
      )

  module _ (poll_future : Waker → F → Shared F V → Outcome (Poll V) × F × Shared F V) where
    -- `Err(_panic) => Err(JoinError::Panic)`.
    abbrev pub to_join : {P : Type 0} → Result V P → Result V JoinError
    to_join (value v) = value v
    to_join (error _) = error panicked

    -- The end of the async block, once `CatchUnwind` is ready.
    unfoldable pub ended :
        ℕ → Outcome (Unit {0}) × Shared F V → Outcome (Poll (Unit {0})) × Shared F V
    ended j (panic p, s) = (panic p, s)
    ended j (ok _, s) = (ok (ready tt), s)

    -- A poll of the async block of `Handle::spawn`. A future that has ended is dropped with its
    -- `CatchUnwind` as the `await` ends, before the result is published.
    unfoldable pub poll_spawned :
        Waker → Spawned F × Shared F V → Outcome (Poll (Unit {0})) × (Spawned F × Shared F V)
    unfolding ended publish Catch.poll
    poll_spawned waker (t, s) =
        let (answer, inner, s') = Catch.poll poll_future waker t.inner s in
        let t' = record t { inner = inner } in
        elim answer [
          | pending ↦ (ok pending, (t', s'))
          | ready result ↦
              let dropped = drop_future inner.future s' in
              let (end, s'') = ended t.join (publish t.join (to_join result) dropped) in
              (end, (t', s''))
        ]
