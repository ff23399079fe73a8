-- ===== src/Schedule/State.antt =====
-- src/scheduling/state.rs: the states of one task's schedule, and the three transitions.
use asyncr.Prelude.{
  Bool, true, false, Outcome, ok, panic, only_queued_polled, not_running_at_finish, Poll, ready,
  pending,
}

pub data ScheduleState : Type 0 where
  idle queued : ScheduleState
  running : (notified : Bool) → ScheduleState
  complete : ScheduleState

pub data ScheduleAction : Type 0 where
  no_action enqueue completed : ScheduleAction

unfoldable pub wake : ScheduleState → ScheduleState × ScheduleAction
wake idle = (queued, enqueue)
wake (running false) = (running true, no_action)
wake s = (s, no_action)

unfoldable pub begin_poll : ScheduleState → Outcome ScheduleState
begin_poll queued = ok (running false)
begin_poll s = panic only_queued_polled

unfoldable pub finish_poll {ℓ} :
    {A : Type ℓ} → ScheduleState → Poll A → Outcome (ScheduleState × ScheduleAction)
finish_poll (running notified) (ready _) = ok (complete, completed)
finish_poll (running false) pending = ok (idle, no_action)
finish_poll (running true) pending = ok (queued, enqueue)
finish_poll s result = panic not_running_at_finish
