-- ===== src/Time/Sleep.antt =====
-- src/time/sleep.rs. The timer state behind the `TimerHandle` is passed along, and `now` is what the
-- clock shows when the operation reads it.
pub mod Link
pub mod Confined
pub mod Many
use asyncr.Prelude.{
  ℕ, Bool, List, Option, none, some, Outcome, ok, panic, Poll, ready, pending, leb, if◌then◌else◌,
}
use asyncr.Time.Driver.{TimerState, register, update_waker, cancel, reschedule}

pub record Sleep : Type 0 where
  pub deadline : ℕ
  pub registration : Option ℕ

unfoldable pub new : ℕ → Sleep
new deadline = record { deadline = deadline; registration = none }

unfoldable pub is_elapsed : ℕ → Sleep → Bool
is_elapsed now sleep = leb sleep.deadline now

module _ {W : Type 0} where
  -- `if let Some(id) = self.registration.take() { self.timer.cancel(id) }`.
  unfoldable pub release : Option ℕ → TimerState W → TimerState W
  unfolding cancel
  release none timers = timers
  release (some id) timers = cancel id timers

  unfoldable pub reset : ℕ → Sleep → TimerState W → Sleep × TimerState W
  unfolding reschedule
  reset deadline sleep timers = elim sleep.registration [
    | none ↦ (record sleep { deadline = deadline }, timers)
    | some id ↦
        let (found, timers') = reschedule id deadline timers in
        (
          if found
              then record sleep { deadline = deadline }
              else record { deadline = deadline; registration = none },
          timers',
        )
  ]

  -- The part of `poll` behind the early return.
  unfoldable pub poll_registration :
      (W → W → Bool) → W → Sleep → TimerState W → Outcome (Poll (Unit {0})) × Sleep × TimerState W
  unfolding update_waker register
  poll_registration will_wake waker sleep timers = elim sleep.registration [
    | some id ↦
        let (answer, timers') = update_waker will_wake id waker timers in
        elim answer [ ok _ ↦ (ok pending, sleep, timers') | panic p ↦ (panic p, sleep, timers') ]
    | none ↦
        let (answer, timers') = register sleep.deadline waker timers in
        elim answer [
          | ok id ↦ (ok pending, record sleep { registration = some id }, timers')
          | panic p ↦ (panic p, sleep, timers')
        ]
  ]

  unfoldable pub poll :
      (W → W → Bool)
      → ℕ
      → W
      → Sleep
      → TimerState W
      → Outcome (Poll (Unit {0})) × Sleep × TimerState W
  unfolding is_elapsed release poll_registration
  poll will_wake now waker sleep timers =
      if is_elapsed now sleep
      then (ok (ready tt), record sleep { registration = none }, release sleep.registration timers)
      else poll_registration will_wake waker sleep timers

  unfoldable pub drop : Sleep → TimerState W → TimerState W
  unfolding release
  drop sleep timers = release sleep.registration timers
