-- ===== src/Runtime/Elapsing.antt =====
-- `Runtime::block_on` of src/runtime.rs over a `Timeout` of src/time/timeout.rs around a future that is
-- never ready, down to the timers, on a paused clock.
use asyncr.Prelude.{
  ℕ, suc, ◌≡◌, refl, ap, true, false, Bool, List, [], Option, none, some, Outcome, ok, panic, Poll,
  ready, pending, Place, Result, error, leb, if◌then◌else◌,
}
use asyncr.Schedule
use asyncr.Schedule.{after_poll}
use asyncr.Schedule.State.{ScheduleState, idle, queued, running, complete}
use asyncr.Shared.{Waker, task, Shared}
use asyncr.Time.Clock
use asyncr.Time.Clock.{paused}
use asyncr.Time.Driver
use asyncr.Time.Driver.{TimerState}
use asyncr.Time.Sleep
use asyncr.Time.Sleep.{Sleep}
use asyncr.Time.Timeout
use asyncr.Time.Timeout.{Timeout, Elapsed, elapsed}
use asyncr.Executor.{Executor, in_poll}
use asyncr.Executor.Run.{Arrival, returned}
use asyncr.Executor.Run.Stages.{waiting, fired, leb_refl}
use asyncr.Runtime.{block_on, with_clock}
use asyncr.Runtime.Entered
use asyncr.Runtime.Entered.{Timed, Timed-Rests}

-- `std::future::pending()`.
abbrev never :
    {F V : Type 0}
    → Waker
    → Unit {0}
    → Shared F V
    → Outcome (Poll (Unit {0})) × Unit {0} × Shared F V
never waker x s = (ok pending, x, s)

abbrev ignored : {F V : Type 0} → Unit {0} → Shared F V → Shared F V
ignored x s = s

abbrev timers : {F V : Type 0} → Place (Shared F V) (TimerState Waker)
timers = record {
  view = λ s. s.timers;
  put = λ t s. record s { timers = t };
  view-put = λ t s. refl;
  put-put = λ t u s. refl;
  put-view = λ s. refl;
}

-- The poll comes to the sleep, which reads the clock: the timeout is not over.
abbrev reads : Option (Unit {0}) → Option Sleep → Bool
reads (some future) (some sleep) = true
reads future sleep = false

-- `Timeout::poll` as the executor's futures call it. The clock is read through the handle once the
-- future has been found pending, which changes nothing.
unfoldable pub poll_timeout :
    {F V : Type 0}
    → ℕ
    → (Waker → Waker → Bool)
    → Waker
    → Timeout (Unit {0}) × Shared F V
    → Outcome (Poll (Result (Unit {0}) Elapsed)) × (Timeout (Unit {0}) × Shared F V)
unfolding Clock.now Timeout.poll
poll_timeout {F} {V} limit will_wake waker (timeout, s) =
    let polled_at : ℕ
        → Outcome (Poll (Result (Unit {0}) Elapsed)) × (Timeout (Unit {0}) × Shared F V) =
      λ now.
        let (answer, timeout', s') =
          Timeout.poll timers never ignored will_wake (λ t. now) waker timeout s in
        (answer, (timeout', s')) in
    elim (Clock.now limit s.system s.clock) [
      | ok now ↦ polled_at now
      | panic p ↦
          if reads timeout.future timeout.sleep then (panic p, (timeout, s)) else polled_at 0
    ]

unfoldable pub drop_timeout : {F V : Type 0} → Timeout (Unit {0}) → Shared F V → Shared F V
unfolding Timeout.drop
drop_timeout timeout s = Timeout.drop timers never ignored (λ v w. false) timeout s

-- The timeout before its first poll, between the two, and after it has elapsed.
abbrev fresh : ℕ → Timeout (Unit {0})
fresh deadline = Timeout.new (Sleep.new deadline) tt

abbrev armed : ℕ → Timeout (Unit {0})
armed deadline = record {
  future = some tt;
  sleep = some (record { deadline = deadline; registration = some 0 });
}

abbrev over : Timeout (Unit {0})
over = record { future = none; sleep = none }

module _ {H F V : Type 0} (limit : ℕ) (wake_custom : Option H → ℕ → Shared F V → Shared F V)
    (drop_future : Option H → F → Shared F V → Shared F V)
    (poll_future : Option H → Waker → F → Shared F V → Outcome (Poll V) × F × Shared F V)
    (will_wake : Waker → Waker → Bool) (handle : H) (system : ℕ) where
  abbrev at : ScheduleState → List ℕ → TimerState Waker → ℕ → Executor F V
  at =
      Entered.at limit wake_custom drop_future poll_future (λ context. drop_timeout)
        (λ context. poll_timeout limit will_wake) handle system

  abbrev asked :
      Timeout (Unit {0})
      → Executor F V
      → Outcome (Poll (Result (Unit {0}) Elapsed)) × (Timeout (Unit {0}) × Shared F V)
  asked =
      Entered.asked limit wake_custom drop_future poll_future (λ context. drop_timeout)
        (λ context. poll_timeout limit will_wake) handle system

  -- The state of a stage while the root is polled.
  abbrev during : TimerState Waker → ℕ → Shared F V
  during timers now = (at (running false) [] timers now).shared

  -- `Timeout::poll` once its future has been found pending and its sleep has been polled.
  abbrev slept :
      Shared F V
      → Outcome (Poll (Unit {0})) × Sleep × TimerState Waker
      → Outcome (Poll (Result (Unit {0}) Elapsed)) × Timeout (Unit {0}) × Shared F V
  slept s (answer, sleep, t) = elim answer [
    | ok (ready _) ↦ (
      ok (ready (error elapsed)),
      over,
      Timeout.take_both timers never ignored will_wake tt (some sleep) (record s { timers = t }),
    )
    | ok pending ↦
        (ok pending, record { future = some tt; sleep = some sleep }, record s { timers = t })
    | panic p ↦ (panic p, record { future = some tt; sleep = some sleep }, record s { timers = t })
  ]

  abbrev paired :
      Outcome (Poll (Result (Unit {0}) Elapsed)) × Timeout (Unit {0}) × Shared F V
      → Outcome (Poll (Result (Unit {0}) Elapsed)) × (Timeout (Unit {0}) × Shared F V)
  paired (answer, timeout, s) = (answer, (timeout, s))

  early_sleep :
      (deadline start : ℕ)
      → leb deadline start ≡ true
      → Sleep.poll will_wake start (task 0) (Sleep.new deadline) Driver.new
        ≡ (ok (ready tt), Sleep.new deadline, Driver.new)
  unfolding Sleep.poll Sleep.new Driver.new
  early_sleep deadline start e = rw e refl

  first_sleep :
      (deadline start : ℕ)
      → leb deadline start ≡ false
      → Sleep.poll will_wake start (task 0) (Sleep.new deadline) Driver.new
        ≡ (ok pending, record { deadline = deadline; registration = some 0 }, waiting deadline)
  unfolding Sleep.poll Sleep.new Driver.new
  first_sleep deadline start e = rw e refl

  last_sleep :
      (deadline : ℕ)
      → Sleep.poll will_wake deadline
          (task 0)
          (record { deadline = deadline; registration = some 0 })
          fired
        ≡ (ok (ready tt), Sleep.new deadline, fired)
  unfolding Sleep.poll Sleep.new
  last_sleep deadline = rw (leb_refl deadline) refl

  -- A poll of the root from the poll of its sleep on.
  abbrev settled :
      TimerState Waker
      → ℕ
      → Outcome (Poll (Unit {0})) × Sleep × TimerState Waker
      → Outcome (Poll (Result (Unit {0}) Elapsed)) × (Timeout (Unit {0}) × Shared F V)
  settled before now out = after_poll in_poll 0 (paired (slept (during before now) out))

  -- The deadline has come before the first poll.
  early_poll :
      (deadline start : ℕ)
      → leb deadline start ≡ true
      → asked (fresh deadline) (at queued [] Driver.new start)
        ≡ (ok (ready (error elapsed)), (over, (at complete [] Driver.new start).shared))
  unfolding Schedule.poll poll_timeout Sleep.new Timeout.new Driver.new
  early_poll deadline start e = ap (settled Driver.new start) (early_sleep deadline start e)

  first_poll :
      (deadline start : ℕ)
      → leb deadline start ≡ false
      → asked (fresh deadline) (at queued [] Driver.new start)
        ≡ (ok pending, (armed deadline, (at idle [] (waiting deadline) start).shared))
  unfolding Schedule.poll poll_timeout Sleep.new Timeout.new Driver.new
  first_poll deadline start e = ap (settled Driver.new start) (first_sleep deadline start e)

  last_poll :
      (deadline : ℕ)
      → asked (armed deadline) (at queued [] fired deadline)
        ≡ (ok (ready (error elapsed)), (over, (at complete [] fired deadline).shared))
  unfolding Schedule.poll poll_timeout Sleep.new
  last_poll deadline = ap (settled fired deadline) (last_sleep deadline)

  timeout-Timed :
      (deadline start : ℕ)
      → Timed limit wake_custom drop_future poll_future
          (λ context. drop_timeout)
          (λ context. poll_timeout limit will_wake)
          handle
          system
          deadline
          start
          (fresh deadline)
          (armed deadline)
          over
          (error elapsed)
  unfolding drop_timeout
  timeout-Timed deadline start = record {
    early = early_poll deadline start;
    first = first_poll deadline start;
    last = last_poll deadline;
    gone = λ s. refl;
  }

  -- A `block_on` of a timeout around a future that is never ready, on a new runtime with a paused
  -- clock, returns `Elapsed` once the clock has come to the deadline: if the deadline lay ahead the
  -- clock then shows just the deadline, and otherwise it has not moved. No time of the platform
  -- passes, and nothing that other threads do is waited for; no timer is left registered, and no
  -- runtime is current afterwards.
  pub block_on-timeout :
      (fuel : ℕ) (env : List Arrival) (deadline start : ℕ)
      → let (run, env', runtime, context) =
          block_on limit wake_custom drop_future poll_future
            (λ context. drop_timeout)
            (λ context. poll_timeout limit will_wake)
            (suc (suc (suc (suc fuel))))
            env
            (Timeout.new (Sleep.new deadline) tt)
            (with_clock handle (paused start) system)
            none in
        let s = runtime.executor.shared in
        (run ≡ returned (error elapsed))
        × (s.clock ≡ paused (if leb deadline start then start else deadline))
        × (s.system ≡ system)
        × (env' ≡ env)
        × (s.timers.registrations ≡ [])
        × (context ≡ none)
  block_on-timeout fuel env deadline start =
      Timed-Rests limit wake_custom drop_future poll_future (λ context. drop_timeout)
        (λ context. poll_timeout limit will_wake) handle system deadline start (fresh deadline)
        (armed deadline) over (error elapsed) (timeout-Timed deadline start) fuel env
