-- ===== src/Schedule/Race.antt =====
-- One task's schedule under threads that wake it while the executor polls it: each critical section
-- of src/scheduling/mod.rs and each channel operation is a step of its own.
pub mod Safety
use asyncr.Prelude.{ℕ, ◌+◌, ◌-◌, ◌<◌, ◌≡◌, Bool, true, false, arith, ok, panic, Panic, Poll}
use asyncr.Schedule.State.{
  ScheduleState, idle, queued, running, ScheduleAction, enqueue, wake, begin_poll, finish_poll,
}

-- Where the executor thread stands in `block_on`, as far as this task goes.
pub data Control : Type 0 where
  waiting : Control  -- in `next_ready_id`
  received : Control  -- has the id, before the first lock of `poll`
  polling : Control  -- inside the future's `poll`
  crashed : Panic → Control  -- an `unreachable!` was reached

-- `in_flight` counts the sends that a released lock has decided on, and `in_channel` the task's ids
-- in the channel. `signalled` is not the code's: a wake came after the last poll began.
pub record Race : Type 0 where
  pub state : ScheduleState
  pub in_flight : ℕ
  pub in_channel : ℕ
  pub control : Control
  pub signalled : Bool

abbrev pub sends : ScheduleAction → ℕ
sends enqueue = 1
sends _ = 0

-- The lock of `request_schedule`, on any thread.
unfoldable pub woken : Race → Race
unfolding wake
woken s =
    let (state, action) = wake s.state in
    record s { state = state; in_flight = s.in_flight + sends action; signalled = true }

-- The send of `request_schedule` or `poll`, which may come much later.
unfoldable pub sent : Race → Race
sent s = record s { in_flight = s.in_flight - 1; in_channel = s.in_channel + 1 }

unfoldable pub taken : Race → Race
taken s = record s { in_channel = s.in_channel - 1; control = received }

unfoldable pub begun : Race → Race
unfolding begin_poll
begun s = elim (begin_poll s.state) [
  | ok state ↦ record s { state = state; control = polling; signalled = false }
  | panic p ↦ record s { control = crashed p }
]

unfoldable pub finished : Poll (Unit {0}) → Race → Race
unfolding finish_poll
finished result s = elim (finish_poll s.state result) [
  | ok (state, action) ↦ record s {
    state = state;
    in_flight = s.in_flight + sends action;
    control = waiting;
  }
  | panic p ↦ record s { control = crashed p }
]

-- Any thread may take the next step.
pub data Step (s : Race) : Race → Type 0 where
  wakes : Step s (woken s)
  sends_id : 0 < s.in_flight → Step s (sent s)
  takes : s.control ≡ waiting → 0 < s.in_channel → Step s (taken s)
  begins : s.control ≡ received → Step s (begun s)
  finishes : (result : Poll (Unit {0})) → s.control ≡ polling → Step s (finished result s)

-- `TaskSchedule::new`.
abbrev pub fresh : Race
fresh = record { state = idle; in_flight = 0; in_channel = 0; control = waiting; signalled = false }

pub data Reach : Race → Type 0 where
  start : Reach fresh
  next : {s t : Race} → Reach s → Step s t → Reach t

abbrev pub claims : Control → ℕ
claims received = 1
claims _ = 0

abbrev pub entries : ScheduleState → ℕ
entries queued = 1
entries _ = 0

abbrev is_polling : Control → Bool
is_polling polling = true
is_polling _ = false

abbrev pub is_running : ScheduleState → Bool
is_running (running _) = true
is_running _ = false

abbrev is_crashed : Control → Bool
is_crashed (crashed _) = true
is_crashed _ = false

-- A signal that no poll has answered yet shows in the state.
abbrev pub holds_signal : ScheduleState → Bool
holds_signal idle = false
holds_signal (running notified) = notified
holds_signal _ = true

pub record Inv (s : Race) : Type 0 where
  pub one_entry : s.in_flight + s.in_channel + claims s.control ≡ entries s.state
  pub alive : is_crashed s.control ≡ false
  pub poll_runs : is_polling s.control ≡ is_running s.state
  pub kept : s.signalled ≡ true → holds_signal s.state ≡ true

Step-Inv : {s t : Race} → Step s t → Inv s → Inv t
unfolding woken sent taken begun finished
Step-Inv wakes i = ground arith
Step-Inv (sends_id h) i = ground arith
Step-Inv (takes c h) i = ground arith
Step-Inv (begins c) i = ground arith
Step-Inv (finishes result c) i = ground arith

pub Reach-Inv : {s : Race} → Reach s → Inv s
Reach-Inv start = ground arith
Reach-Inv (next r st) = Step-Inv st (Reach-Inv r)
