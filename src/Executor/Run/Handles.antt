-- ===== src/Executor/Run/Handles.antt =====
-- A spawned task and the join handle that awaits it, src/join.rs under src/executor.rs: the stages that
-- the executor goes through when nothing else is spawned, and the turns between them.
use asyncr.Prelude.{
  ℕ, zero, suc, ◌≡◌, refl, ap, true, false, List, [], ◌∷◌, Option, none, some, Outcome, ok, Poll,
  pending, Result, get_elem?, set,
}
use asyncr.Prelude.Map.{Map}
use asyncr.Schedule.State.{ScheduleState}
use asyncr.Join
use asyncr.Join.{Pair, JoinError, waiting, finished, consumed, panicked}
use asyncr.Shared.{Waker, task, LocalTask, Shared, root_task_id, request_schedule}
use asyncr.Time.Clock
use asyncr.Time.Clock.{Clock}
use asyncr.Time.Driver
use asyncr.Executor.{Executor, received, process_expired, pass, admit}
use asyncr.Executor.Run.Stages.{fired_pass}

-- `JoinHandle::poll` and `JoinHandle::drop` on the pair that the handle names.
unfoldable pub poll_handle :
    {F V : Type 0} → Waker → ℕ × Shared F V → Outcome (Poll (Result V JoinError)) × (ℕ × Shared F V)
unfolding Join.poll
poll_handle waker (j, s) = elim (get_elem? s.joins j) [
  | none ↦ (ok pending, (j, s))
  | some pair ↦
      let (answer, state) = Join.poll waker pair.state in
      (answer, (j, record s { joins = set s.joins j (record pair { state = state }) }))
]

unfoldable pub drop_handle : {F V : Type 0} → ℕ → Shared F V → Shared F V
unfolding Join.drop_handle
drop_handle j s = elim (get_elem? s.joins j) [
  | none ↦ s
  | some pair ↦ record s {
    joins = set s.joins j (record pair { state = Join.drop_handle pair.state });
  }
]

module _ {F V : Type 0} (limit : ℕ) (wake_custom : ℕ → Shared F V → Shared F V)
    (drop_future : F → Shared F V → Shared F V)
    (poll_future : Waker → F → Shared F V → Outcome (Poll V) × F × Shared F V) where
  -- A future that wakes itself and yields `n` times, and then ends, by an output or by a panic. It
  -- touches nothing else, nor does its drop.
  pub data Yields (answer : Outcome (Poll V)) : ℕ → F → Type 0 where
    ends :
        {f : F} (f' : F)
        → ((w : Waker) (s : Shared F V) → poll_future w f s ≡ (answer, f', s))
        → ((s : Shared F V) → drop_future f' s ≡ s)
        → Yields answer zero f
    yields :
        {n : ℕ} {f : F} (f' : F)
        → ((r : ℕ) (s : Shared F V)
            → poll_future (task r) f s
              ≡ (ok pending, f', request_schedule wake_custom drop_future r s))
        → Yields answer n f'
        → Yields answer (suc n) f

  -- The spawned task; its join pair is the first.
  abbrev pub child : F → LocalTask F
  child f = record {
    id = 1;
    future = record { inner = record { future = f }; join = 0 };
    schedule = 0;
  }

  abbrev pub armed : Option Waker → Pair V Waker
  armed w = record { armed = true; state = waiting w }

  abbrev pub told : Result V JoinError → Pair V Waker
  told r = record { armed = false; state = finished r }

  abbrev pub taken_out : Pair V Waker
  taken_out = record { armed = false; state = consumed }

  module _ (clock : Clock) (system : ℕ) where
    -- The states of the task's schedule and of the root's, and the channel.
    abbrev pub stage :
        ScheduleState
        → ScheduleState
        → List ℕ
        → List (LocalTask F)
        → Map (LocalTask F)
        → Pair V Waker
        → Executor F V
    stage c root ids pending_spawns tasks pair = record {
      tasks = tasks;
      shared = record {
        scheduler = record {
          schedules =
              record { id = 1; state = c } ∷ record { id = root_task_id; state = root } ∷ [];
          ready = ids;
          open_rx = true;
        };
        spawns = record { pending_spawns = pending_spawns; next_id = 2; closed = false };
        timers = Driver.new;
        joins = pair ∷ [];
        clock = clock;
        system = system;
        cells = [];
      };
    }

    none_due :
        (c root : ScheduleState) (ids : List ℕ) (tasks : Map (LocalTask F)) (pair : Pair V Waker)
        (now : ℕ)
        → Clock.now limit system clock ≡ ok now
        → (let s = (stage c root ids [] tasks pair).shared in
            process_expired limit wake_custom drop_future poll_future s ≡ (ok tt, s))
    unfolding process_expired Driver.process_expired Driver.new
    none_due c root ids tasks pair now e = rw e refl

    -- A pass admits what was spawned, and takes the head of the channel.
    pub head_pass :
        (c root : ScheduleState) (id : ℕ) (ids : List ℕ) (ps : List (LocalTask F))
        (tasks : Map (LocalTask F)) (pair : Pair V Waker) (now : ℕ)
        → Clock.now limit system clock ≡ ok now
        → pass limit wake_custom drop_future poll_future (stage c root (id ∷ ids) ps tasks pair)
          ≡ (ok (received id), stage c root ids [] (admit ps tasks) pair)
    unfolding pass
    head_pass c root id ids ps tasks pair now e =
        ap
          (fired_pass limit wake_custom drop_future poll_future system
            (stage c root (id ∷ ids) [] (admit ps tasks) pair))
          (none_due c root (id ∷ ids) (admit ps tasks) pair now e)
