-- ===== src/Executor/Run/Stages.antt =====
-- `block_on` of src/executor.rs over a lone root with one timer, on a paused clock: the stages that the
-- executor goes through, and the passes between them.
use asyncr.Prelude.{
  ℕ, suc, ◌≡◌, refl, ap, ◌∙◌, true, false, Bool, List, [], ◌∷◌, Option, none, some, Outcome, ok,
  panic, Poll, arith, leb, ltb, ==_refl,
}
use asyncr.Schedule.State.{ScheduleState, idle, queued}
use asyncr.Shared.{Waker, task, Shared, root_task_id}
use asyncr.Time.Clock
use asyncr.Time.Clock.{Clock, paused, advance_to}
use asyncr.Time.Heap.{Heap}
use asyncr.Time.Driver
use asyncr.Time.Driver.{TimerState}
use asyncr.Executor.{
  Executor, Pass, received, jumped, must_wait, process_expired, look_ahead, try_recv, pass,
}
use asyncr.Executor.Run.{
  Arrival, Run, returned, panicked, blocked, next_ready_id, receive, got, timed_out, never,
}

pub leb_refl : (n : ℕ) → leb n n ≡ true
leb_refl n = ground arith

leb_asym : (m n : ℕ) → leb m n ≡ false → leb n m ≡ true
leb_asym m n e = ground (arith, e)

leb-ltb : (m n : ℕ) → leb m n ≡ false → ltb n m ≡ true
leb-ltb m n e = ground (arith, e)

ltb_irrefl : (n : ℕ) → ltb n n ≡ false
ltb_irrefl n = ground arith

-- The timers before the root's first poll, between the two, and after the timer has fired.
abbrev pub waiting : ℕ → TimerState Waker
waiting deadline = record {
  next_id = 1;
  deadlines = (deadline, 0) ∷ [];
  registrations = (0, record { deadline = deadline; waker = task 0 }) ∷ [];
}

abbrev pub fired : TimerState Waker
fired = record { next_id = 1; deadlines = []; registrations = [] }

module _ {F V : Type 0} (limit : ℕ) (wake_custom : ℕ → Shared F V → Shared F V)
    (drop_future : F → Shared F V → Shared F V)
    (poll_future : Waker → F → Shared F V → Outcome (Poll V) × F × Shared F V) (system : ℕ) where
  -- An executor whose only schedule is the root's.
  abbrev pub stage : ScheduleState → List ℕ → TimerState Waker → ℕ → Executor F V
  stage st ids timers now = record {
    tasks = [];
    shared = record {
      scheduler = record {
        schedules = record { id = root_task_id; state = st } ∷ [];
        ready = ids;
        open_rx = true;
      };
      spawns = record { pending_spawns = []; next_id = 1; closed = false };
      timers = timers;
      joins = [];
      clock = paused now;
      system = system;
      cells = [];
    };
  }

  abbrev pub passed : Executor F V → Outcome Pass × Executor F V
  passed = pass limit wake_custom drop_future poll_future

  pub first_pass :
      (start : ℕ)
      → passed (stage queued (root_task_id ∷ []) Driver.new start)
        ≡ (ok (received root_task_id), stage queued [] Driver.new start)
  unfolding pass Driver.new
  first_pass start = refl

  -- Nothing is due before the deadline.
  nothing_due :
      (deadline start : ℕ)
      → leb deadline start ≡ false
      → (let s = (stage idle [] (waiting deadline) start).shared in
          process_expired limit wake_custom drop_future poll_future s ≡ (ok tt, s))
  unfolding process_expired
  nothing_due deadline start e = rw (leb-ltb deadline start e) refl

  next_due :
      (deadline : ℕ) → Driver.next_deadline (waiting deadline) ≡ (some deadline, waiting deadline)
  unfolding Driver.next_deadline
  next_due deadline =
      ap (λ (p : Option ℕ × Heap). let w = waiting deadline in (p.0, record w { deadlines = p.1 }))
        (pruned deadline)
    where
      pruned :
          (d : ℕ) → Driver.prune ((d, 0) ∷ []) (waiting d).registrations ≡ (some d, (d, 0) ∷ [])
      pruned d = rw (Driver.prune, ==_refl d) refl

  -- `advance_to_next_deadline_if_paused` on a paused clock, from the next deadline on.
  abbrev advanced : ℕ → Option ℕ × TimerState Waker → Outcome Bool × Clock × TimerState Waker
  advanced start (due, timers) = elim due [
    | none ↦ (ok false, paused start, timers)
    | some deadline ↦ elim (advance_to deadline (paused start)) [
      | panic p ↦ (panic p, paused start, timers)
      | ok clock ↦ (ok true, clock, timers)
    ]
  ]

  moved_to :
      (deadline start : ℕ)
      → leb deadline start ≡ false
      → advance_to deadline (paused start) ≡ ok (paused deadline)
  unfolding advance_to
  moved_to deadline start e = rw (leb_asym deadline start e) refl

  jump :
      (deadline start : ℕ)
      → leb deadline start ≡ false
      → Driver.advance_to_next_deadline_if_paused (paused start) (waiting deadline)
        ≡ (ok true, paused deadline, waiting deadline)
  unfolding Driver.advance_to_next_deadline_if_paused
  jump deadline start e =
      ap (advanced start) (next_due deadline) ∙ rw (advanced, moved_to deadline start e) refl

  -- `look_ahead` once it has tried to move the clock on.
  abbrev looked : Shared F V → Outcome Bool × Clock × TimerState Waker → Outcome Pass × Shared F V
  looked s (advanced, clock, timers) = elim advanced [
    | panic p ↦ (panic p, record s { clock = clock; timers = timers })
    | ok true ↦ (ok jumped, record s { clock = clock; timers = timers })
    | ok false ↦
        let reading = Clock.now limit s.system clock in
        let (timeout, timers') = Driver.time_until_next_deadline reading timers in
        let s' = record s { clock = clock; timers = timers' } in
        elim timeout [ panic p ↦ (panic p, s') | ok t ↦ (ok (must_wait t), s') ]
  ]

  jump_ahead :
      (deadline start : ℕ)
      → leb deadline start ≡ false
      → look_ahead limit wake_custom drop_future poll_future
          (stage idle [] (waiting deadline) start).shared
        ≡ (ok jumped, (stage idle [] (waiting deadline) deadline).shared)
  unfolding look_ahead
  jump_ahead deadline start e =
      ap (looked (stage idle [] (waiting deadline) start).shared) (jump deadline start e)

  -- A pass from the end of the timers' turn on.
  abbrev pub fired_pass :
      Executor F V → Outcome (Unit {0}) × Shared F V → Outcome Pass × Executor F V
  fired_pass ex (processed, shared) = elim processed [
    | panic p ↦ (panic p, record ex { shared = shared })
    | ok _ ↦
        let (result, shared') =
          try_recv limit wake_custom drop_future poll_future shared.scheduler.ready shared in
        (result, record ex { shared = shared' })
  ]

  jump_pass :
      (deadline start : ℕ)
      → leb deadline start ≡ false
      → passed (stage idle [] (waiting deadline) start)
        ≡ (ok jumped, stage idle [] (waiting deadline) deadline)
  unfolding pass
  jump_pass deadline start e =
      let ex = stage idle [] (waiting deadline) start in
      ap (fired_pass ex) (nothing_due deadline start e)
      ∙ ap (λ out. (out.0, record ex { shared = out.1 })) (jump_ahead deadline start e)

  fire_pass :
      (deadline : ℕ)
      → passed (stage idle [] (waiting deadline) deadline)
        ≡ (ok (received root_task_id), stage queued [] fired deadline)
  unfolding pass
  fire_pass deadline = rw (ltb_irrefl deadline, ==_refl deadline) refl

  abbrev pub next : ℕ → List Arrival → Executor F V → Run ℕ × List Arrival × Executor F V
  next = next_ready_id limit wake_custom drop_future poll_future

  pub first_next :
      (fuel : ℕ) (env : List Arrival) (start : ℕ)
      → next (suc fuel) env (stage queued (root_task_id ∷ []) Driver.new start)
        ≡ (returned root_task_id, env, stage queued [] Driver.new start)
  unfolding next_ready_id Driver.new
  first_next fuel env start = refl

  -- `next_ready_id` from the end of its first pass on.
  abbrev after_pass :
      ℕ → List Arrival → Outcome Pass × Executor F V → Run ℕ × List Arrival × Executor F V
  after_pass fuel env (result, ex) = elim result [
    | panic p ↦ (panicked p, env, ex)
    | ok (received id) ↦ (returned id, env, ex)
    | ok jumped ↦ next fuel env ex
    | ok (must_wait timeout) ↦
        let (answer, env', shared) =
          receive limit wake_custom drop_future poll_future timeout env ex.shared in
        let ex' = record ex { shared = shared } in
        elim answer [
          | got id ↦ (returned id, env', ex')
          | timed_out ↦ next fuel env' ex'
          | never ↦ (blocked, env', ex')
        ]
  ]

  pub jump_next :
      (fuel : ℕ) (env : List Arrival) (deadline start : ℕ)
      → leb deadline start ≡ false
      → next (suc (suc fuel)) env (stage idle [] (waiting deadline) start)
        ≡ (returned root_task_id, env, stage queued [] fired deadline)
  unfolding next_ready_id
  jump_next fuel env deadline start e =
      ap (after_pass (suc fuel) env) (jump_pass deadline start e)
      ∙ ap (after_pass fuel env) (fire_pass deadline)
