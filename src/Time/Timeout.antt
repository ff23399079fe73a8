-- ===== src/Time/Timeout.antt =====
-- src/time/timeout.rs. `S` is the state that the futures share, with the timers in it; the wrapped
-- future is a parameter: its state, its `poll` under the waker of the call, and its destructor.
pub mod Outcomes
use asyncr.Prelude.{
  Bool, ℕ, Option, none, some, Outcome, ok, panic, timeout_polled_after_completion, Poll, ready,
  pending, Result, value, error, Place,
}
use asyncr.Time.Driver.{TimerState}
use asyncr.Time.Sleep
use asyncr.Time.Sleep.{Sleep}

pub record Timeout (F : Type 0) : Type 0 where
  pub future : Option F
  pub sleep : Option Sleep

unfoldable pub new : {F : Type 0} → Sleep → F → Timeout F
new sleep future = record { future = some future; sleep = some sleep }

pub data Elapsed : Type 0 where
  elapsed : Elapsed

-- `drop_future` is the future's destructor, and `poll_future` its `poll`, under the waker given.
module _ {F S W A : Type 0} (timers : Place S (TimerState W))
    (poll_future : W → F → S → Outcome (Poll A) × F × S) (drop_future : F → S → S)
    (will_wake : W → W → Bool) where
  open timers use {view, put}

  -- `self.future.take(); self.sleep.take();`, each value dropped at once.
  unfoldable pub take_both : F → Option Sleep → S → S
  unfolding Sleep.drop
  take_both future none s = drop_future future s
  take_both future (some sleep) s =
      let s' = drop_future future s in put (Sleep.drop sleep (view s')) s'

  abbrev pub gone : Timeout F
  gone = record { future = none; sleep = none }

  -- The part of `poll` behind a future that is pending.
  unfoldable pub poll_sleep :
      ℕ → W → F → Option Sleep → S → Outcome (Poll (Result A Elapsed)) × Timeout F × S
  unfolding Sleep.poll take_both
  poll_sleep now waker future none s =
      (panic timeout_polled_after_completion, record { future = some future; sleep = none }, s)
  poll_sleep now waker future (some sleep) s =
      let (answer, sleep', timers') = Sleep.poll will_wake now waker sleep (view s) in
      elim answer [
        | ok (ready _) ↦
            (ok (ready (error elapsed)), gone, take_both future (some sleep') (put timers' s))
        | ok pending ↦
            (ok pending, record { future = some future; sleep = some sleep' }, put timers' s)
        | panic p ↦ (panic p, record { future = some future; sleep = some sleep' }, put timers' s)
      ]

  -- `now` is what the clock shows once the future has been polled.
  unfoldable pub poll_with :
      (S → ℕ) → W → Option F → Option Sleep → S → Outcome (Poll (Result A Elapsed)) × Timeout F × S
  unfolding poll_sleep take_both
  poll_with now waker none sleep s =
      (panic timeout_polled_after_completion, record { future = none; sleep = sleep }, s)
  poll_with now waker (some future) sleep s =
      let (answer, future', s') = poll_future waker future s in
      elim answer [
        | ok (ready a) ↦ (ok (ready (value a)), gone, take_both future' sleep s')
        | ok pending ↦ poll_sleep (now s') waker future' sleep s'
        | panic p ↦ (panic p, record { future = some future'; sleep = sleep }, s')
      ]

  unfoldable pub poll :
      (S → ℕ) → W → Timeout F → S → Outcome (Poll (Result A Elapsed)) × Timeout F × S
  unfolding poll_with
  poll now waker t s = poll_with now waker t.future t.sleep s

  -- The fields are dropped in order.
  unfoldable pub drop : Timeout F → S → S
  drop t s =
      let s' : S = elim t.future [ none ↦ s | some future ↦ drop_future future s ] in
      elim t.sleep [ none ↦ s' | some sleep ↦ put (Sleep.drop sleep (view s')) s' ]
