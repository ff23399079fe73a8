-- ===== src/Suite/Transitions.antt =====
-- The tests of src/scheduling/state.rs: what the transition under test gives.
use asyncr.Prelude.{◌≡◌, refl, Outcome, ok, ready, pending, true, false}
use asyncr.Schedule.State.{
  ScheduleState, idle, queued, running, complete, ScheduleAction, no_action, enqueue, completed,
  wake, begin_poll, finish_poll,
}

abbrev Changed : Type 0
Changed = ScheduleState × ScheduleAction

unfoldable waking_idle_task_queues_it : Changed
unfolding wake
waking_idle_task_queues_it = wake idle

unfoldable waking_queued_task_is_a_noop : Changed
unfolding wake
waking_queued_task_is_a_noop = wake queued

unfoldable waking_running_task_marks_it_notified : Changed
unfolding wake
waking_running_task_marks_it_notified = wake (running false)

unfoldable repeated_wake_while_running_is_coalesced : Changed
unfolding wake
repeated_wake_while_running_is_coalesced = wake (running true)

unfoldable polling_queued_task_moves_it_to_running : Outcome ScheduleState
unfolding begin_poll
polling_queued_task_moves_it_to_running = begin_poll queued

unfoldable pending_unnotified_task_becomes_idle : Outcome Changed
unfolding finish_poll
pending_unnotified_task_becomes_idle = finish_poll {A = Unit {0}} (running false) pending

unfoldable pending_notified_task_is_requeued : Outcome Changed
unfolding finish_poll
pending_notified_task_is_requeued = finish_poll {A = Unit {0}} (running true) pending

unfoldable ready_unnotified_task_becomes_complete : Outcome Changed
unfolding finish_poll
ready_unnotified_task_becomes_complete = finish_poll {A = Unit {0}} (running false) (ready tt)

unfoldable ready_notified_task_becomes_complete : Outcome Changed
unfolding finish_poll
ready_notified_task_becomes_complete = finish_poll {A = Unit {0}} (running true) (ready tt)

transitions_pass :
    (waking_idle_task_queues_it ≡ (queued, enqueue))
    × (waking_queued_task_is_a_noop ≡ (queued, no_action))
    × (waking_running_task_marks_it_notified ≡ (running true, no_action))
    × (repeated_wake_while_running_is_coalesced ≡ (running true, no_action))
    × (polling_queued_task_moves_it_to_running ≡ ok (running false))
    × (pending_unnotified_task_becomes_idle ≡ ok ((idle, no_action)))
    × (pending_notified_task_is_requeued ≡ ok ((queued, enqueue)))
    × (ready_unnotified_task_becomes_complete ≡ ok ((complete, completed)))
    × (ready_notified_task_becomes_complete ≡ ok ((complete, completed)))
unfolding waking_idle_task_queues_it waking_queued_task_is_a_noop
    waking_running_task_marks_it_notified repeated_wake_while_running_is_coalesced
    polling_queued_task_moves_it_to_running pending_unnotified_task_becomes_idle
    pending_notified_task_is_requeued ready_unnotified_task_becomes_complete
    ready_notified_task_becomes_complete
transitions_pass = (refl, refl, refl, refl, refl, refl, refl, refl, refl)
