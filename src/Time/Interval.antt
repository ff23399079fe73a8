-- ===== src/Time/Interval.antt =====
-- src/time/interval.rs. `now` and `later` are the two readings of the clock that `poll_tick` makes.
pub mod Ticks
pub mod Alignment
use asyncr.Prelude.{
  ℕ, ◌-◌, ◌%◌, Bool, Outcome, ok, panic, zero_period, remainder_by_zero, Poll, ready, pending, ltb,
  ◌==◌, if◌then◌else◌, ◌>>=◌,
}
use asyncr.Time.{deadline_after}
use asyncr.Time.Driver.{TimerState}
use asyncr.Time.Sleep
use asyncr.Time.Sleep.{Sleep}

pub data MissedTickBehavior : Type 0 where
  burst skip delay : MissedTickBehavior

-- `Duration::from_millis(5)`.
abbrev pub missed_tick_grace_delay : ℕ
missed_tick_grace_delay = 5_000_000

unfoldable pub next_deadline : ℕ → MissedTickBehavior → ℕ → ℕ → ℕ → Outcome ℕ
unfolding deadline_after
next_deadline limit burst deadline now period = deadline_after limit deadline period
next_deadline limit delay deadline now period = deadline_after limit now period
next_deadline limit skip deadline now period =
    let elapsed = now - deadline in
    if period == 0
    then panic remainder_by_zero
    else deadline_after limit now (period - elapsed % period)

pub record Interval : Type 0 where
  pub sleep : Sleep
  pub period : ℕ
  pub missed_tick_behavior : MissedTickBehavior

unfoldable pub new : Sleep → ℕ → MissedTickBehavior → Outcome Interval
new sleep period behavior =
    if period == 0
    then panic zero_period
    else ok (record { sleep = sleep; period = period; missed_tick_behavior = behavior })

-- The deadline that follows a tick for `deadline`, which is handled at `later`.
unfoldable pub following : ℕ → MissedTickBehavior → ℕ → ℕ → ℕ → Outcome ℕ
unfolding next_deadline deadline_after
following limit behavior deadline later period =
    if ltb missed_tick_grace_delay (later - deadline)
    then next_deadline limit behavior deadline later period
    else deadline_after limit deadline period

module _ {W : Type 0} where
  -- The part of `poll_tick` behind `ready!`.
  unfoldable pub tick_ready :
      ℕ → ℕ → Interval → TimerState W → Outcome (Poll ℕ) × Interval × TimerState W
  unfolding following Sleep.reset
  tick_ready limit later interval timers =
      let deadline = interval.sleep.deadline in
      elim (following limit interval.missed_tick_behavior deadline later interval.period) [
        | panic p ↦ (panic p, interval, timers)
        | ok next ↦
            let (sleep, timers') = Sleep.reset next interval.sleep timers in
            (ok (ready deadline), record interval { sleep = sleep }, timers')
      ]

  unfoldable pub poll_tick :
      ℕ
      → (W → W → Bool)
      → ℕ
      → ℕ
      → W
      → Interval
      → TimerState W
      → Outcome (Poll ℕ) × Interval × TimerState W
  unfolding Sleep.poll tick_ready
  poll_tick limit will_wake now later waker interval timers =
      let (answer, sleep, timers') = Sleep.poll will_wake now waker interval.sleep timers in
      let interval' = record interval { sleep = sleep } in
      elim answer [
        | panic p ↦ (panic p, interval', timers')
        | ok pending ↦ (ok pending, interval', timers')
        | ok (ready _) ↦ tick_ready limit later interval' timers'
      ]

  unfoldable pub reset_at : ℕ → Interval → TimerState W → Interval × TimerState W
  unfolding Sleep.reset
  reset_at deadline interval timers =
      let (sleep, timers') = Sleep.reset deadline interval.sleep timers in
      (record interval { sleep = sleep }, timers')

  unfoldable pub reset_after :
      ℕ → ℕ → ℕ → Interval → TimerState W → Outcome (Interval × TimerState W)
  unfolding deadline_after reset_at
  reset_after limit now after interval timers = do
    deadline ← deadline_after limit now after
    ok (reset_at deadline interval timers)

  unfoldable pub reset : ℕ → ℕ → Interval → TimerState W → Outcome (Interval × TimerState W)
  unfolding deadline_after reset_at
  reset limit now interval timers = do
    deadline ← deadline_after limit now interval.period
    ok (reset_at deadline interval timers)

  unfoldable pub reset_immediately : ℕ → Interval → TimerState W → Interval × TimerState W
  unfolding reset_at
  reset_immediately now interval timers = reset_at now interval timers

unfoldable pub set_missed_tick_behavior : MissedTickBehavior → Interval → Interval
set_missed_tick_behavior behavior interval = record interval { missed_tick_behavior = behavior }
