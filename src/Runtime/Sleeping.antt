-- ===== src/Runtime/Sleeping.antt =====
-- `Runtime::block_on` of src/runtime.rs over a `Sleep` of src/time/sleep.rs, down to the timers, on a
-- paused clock.
use asyncr.Prelude.{
  ℕ, suc, ◌≡◌, refl, true, false, Bool, List, [], Option, none, some, Outcome, ok, panic, Poll,
  ready, pending, leb, if◌then◌else◌,
}
use asyncr.Schedule
use asyncr.Schedule.State.{ScheduleState, idle, queued, complete}
use asyncr.Shared.{Waker, Shared}
use asyncr.Time.Clock
use asyncr.Time.Clock.{paused}
use asyncr.Time.Driver
use asyncr.Time.Driver.{TimerState}
use asyncr.Time.Sleep
use asyncr.Time.Sleep.{Sleep}
use asyncr.Executor.{Executor}
use asyncr.Executor.Run.{Arrival, returned}
use asyncr.Executor.Run.Stages.{waiting, fired, leb_refl}
use asyncr.Runtime.{block_on, with_clock}
use asyncr.Runtime.Entered
use asyncr.Runtime.Entered.{Timed, Timed-Rests}

-- `Sleep::poll` as the executor's futures call it: the clock is read through the handle.
unfoldable pub poll_sleep :
    {F V : Type 0}
    → ℕ
    → (Waker → Waker → Bool)
    → Waker
    → Sleep × Shared F V
    → Outcome (Poll (Unit {0})) × (Sleep × Shared F V)
unfolding Clock.now Sleep.poll
poll_sleep limit will_wake waker (sleep, s) = elim (Clock.now limit s.system s.clock) [
  | panic p ↦ (panic p, (sleep, s))
  | ok now ↦
      let (answer, sleep', timers) = Sleep.poll will_wake now waker sleep s.timers in
      (answer, (sleep', record s { timers = timers }))
]

unfoldable pub drop_sleep : {F V : Type 0} → Sleep → Shared F V → Shared F V
unfolding Sleep.drop
drop_sleep sleep s = record s { timers = Sleep.drop sleep s.timers }

module _ {H F V : Type 0} (limit : ℕ) (wake_custom : Option H → ℕ → Shared F V → Shared F V)
    (drop_future : Option H → F → Shared F V → Shared F V)
    (poll_future : Option H → Waker → F → Shared F V → Outcome (Poll V) × F × Shared F V)
    (will_wake : Waker → Waker → Bool) (handle : H) (system : ℕ) where
  abbrev at : ScheduleState → List ℕ → TimerState Waker → ℕ → Executor F V
  at =
      Entered.at limit wake_custom drop_future poll_future (λ context. drop_sleep)
        (λ context. poll_sleep limit will_wake) handle system

  abbrev asked : Sleep → Executor F V → Outcome (Poll (Unit {0})) × (Sleep × Shared F V)
  asked =
      Entered.asked limit wake_custom drop_future poll_future (λ context. drop_sleep)
        (λ context. poll_sleep limit will_wake) handle system

  -- The deadline has come before the first poll.
  early_poll :
      (deadline start : ℕ)
      → leb deadline start ≡ true
      → asked (Sleep.new deadline) (at queued [] Driver.new start)
        ≡ (ok (ready tt), (Sleep.new deadline, (at complete [] Driver.new start).shared))
  unfolding Schedule.poll poll_sleep Sleep.new Driver.new
  early_poll deadline start e = rw e refl

  first_poll :
      (deadline start : ℕ)
      → leb deadline start ≡ false
      → asked (Sleep.new deadline) (at queued [] Driver.new start) ≡ (
        ok pending,
        (
          record { deadline = deadline; registration = some 0 },
          (at idle [] (waiting deadline) start).shared,
        ),
      )
  unfolding Schedule.poll poll_sleep Sleep.new Driver.new
  first_poll deadline start e = rw e refl

  last_poll :
      (deadline : ℕ)
      → asked (record { deadline = deadline; registration = some 0 }) (at queued [] fired deadline)
        ≡ (ok (ready tt), (Sleep.new deadline, (at complete [] fired deadline).shared))
  unfolding Schedule.poll poll_sleep Sleep.new
  last_poll deadline = rw (leb_refl deadline) refl

  sleep-Timed :
      (deadline start : ℕ)
      → Timed limit wake_custom drop_future poll_future
          (λ context. drop_sleep)
          (λ context. poll_sleep limit will_wake)
          handle
          system
          deadline
          start
          (Sleep.new deadline)
          (record { deadline = deadline; registration = some 0 })
          (Sleep.new deadline)
          tt
  unfolding drop_sleep Sleep.new
  sleep-Timed deadline start = record {
    early = early_poll deadline start;
    first = first_poll deadline start;
    last = last_poll deadline;
    gone = λ s. refl;
  }

  -- A `block_on` of a sleep on a new runtime with a paused clock returns once the clock has come to
  -- the deadline: if the deadline lay ahead the clock then shows just the deadline, and otherwise it
  -- has not moved. No time of the platform passes, and nothing that other threads do is waited for; no
  -- timer is left registered, and no runtime is current afterwards.
  pub block_on-sleep :
      (fuel : ℕ) (env : List Arrival) (deadline start : ℕ)
      → let (run, env', runtime, context) =
          block_on limit wake_custom drop_future poll_future
            (λ context. drop_sleep)
            (λ context. poll_sleep limit will_wake)
            (suc (suc (suc (suc fuel))))
            env
            (Sleep.new deadline)
            (with_clock handle (paused start) system)
            none in
        let s = runtime.executor.shared in
        (run ≡ returned tt)
        × (s.clock ≡ paused (if leb deadline start then start else deadline))
        × (s.system ≡ system)
        × (env' ≡ env)
        × (s.timers.registrations ≡ [])
        × (context ≡ none)
  block_on-sleep fuel env deadline start =
      Timed-Rests limit wake_custom drop_future poll_future (λ context. drop_sleep)
        (λ context. poll_sleep limit will_wake) handle system deadline start (Sleep.new deadline)
        (record { deadline = deadline; registration = some 0 }) (Sleep.new deadline) tt
        (sleep-Timed deadline start) fuel env
