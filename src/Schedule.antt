-- ===== src/Schedule.antt =====
-- src/scheduling/mod.rs. The `Arc<TaskSchedule>`s are the entries of a list, an `Arc` is an index
-- into it, and a `Waker` of the runtime is such an index. The ready channel is the list of the ids
-- that were sent and not yet received; `open` tells whether its receiver is alive.
pub mod State
pub mod Race
pub mod Store
use asyncr.Prelude.{
  ℕ, Bool, true, List, [], ◌∷◌, ◌++◌, Option, none, some, Outcome, ok, panic, Poll, length,
  get_elem?, set, if◌then◌else◌, Place,
}
use State.{ScheduleState, idle, ScheduleAction, enqueue, wake, begin_poll, finish_poll}

pub record TaskSchedule : Type 0 where
  pub id : ℕ
  pub state : ScheduleState

pub record Scheduler : Type 0 where
  pub schedules : List TaskSchedule
  pub ready : List ℕ
  pub open_rx : Bool

-- `ready_tx.send(id)`, whose error is ignored.
unfoldable pub send : ℕ → Scheduler → Scheduler
send id s = if s.open_rx then record s { ready = s.ready ++ id ∷ [] } else s

-- Writes the state back, and sends the id if the action says so.
unfoldable pub apply_action :
    ℕ → TaskSchedule → ScheduleState × ScheduleAction → Scheduler → Scheduler
unfolding send
apply_action r t (state, enqueue) s =
    send t.id (record s { schedules = set s.schedules r (record t { state = state }) })
apply_action r t (state, _) s = record s {
  schedules = set s.schedules r (record t { state = state });
}

unfoldable pub new : ℕ → Scheduler → ℕ × Scheduler
new id s = (
  length s.schedules,
  record s { schedules = s.schedules ++ record { id = id; state = idle } ∷ [] },
)

unfoldable pub request_schedule : ℕ → Scheduler → Scheduler
unfolding apply_action wake
request_schedule r s = elim (get_elem? s.schedules r) [
  | none ↦ s
  | some t ↦ apply_action r t (wake t.state) s
]

-- The first lock of `poll`.
unfoldable pub begin : ℕ → Scheduler → Outcome Scheduler
unfolding begin_poll
begin r s = elim (get_elem? s.schedules r) [
  | none ↦ ok s
  | some t ↦ elim (begin_poll t.state) [
    | ok state ↦ ok (record s { schedules = set s.schedules r (record t { state = state }) })
    | panic p ↦ panic p
  ]
]

-- The second lock of `poll`, and the send behind it.
unfoldable pub finish {ℓ} : {A : Type ℓ} → ℕ → Poll A → Scheduler → Outcome Scheduler
unfolding apply_action finish_poll
finish r result s = elim (get_elem? s.schedules r) [
  | none ↦ ok s
  | some t ↦ elim (finish_poll t.state result) [
    | ok changed ↦ ok (apply_action r t changed s)
    | panic p ↦ panic p
  ]
]

module _ {W A : Type 0} (place : Place W Scheduler) where
  open place use {view, put}

  unfoldable pub after_poll : ℕ → Outcome (Poll A) × W → Outcome (Poll A) × W
  unfolding finish
  after_poll r (panic p, w) = (panic p, w)
  after_poll r (ok result, w) = elim (finish r result (view w)) [
    | ok s ↦ (ok result, put s w)
    | panic p ↦ (panic p, w)
  ]

  -- A future that panics leaves its schedule running.
  unfoldable pub poll : ℕ → (W → Outcome (Poll A) × W) → W → Outcome (Poll A) × W
  unfolding begin after_poll
  poll r future w = elim (begin r (view w)) [
    | ok s ↦ after_poll r (future (put s w))
    | panic p ↦ (panic p, w)
  ]
