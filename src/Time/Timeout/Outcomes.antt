-- ===== src/Time/Timeout/Outcomes.antt =====
-- Every way in which a poll of a timeout (src/time/timeout.rs) can end.
use asyncr.Prelude.{
  Bool, ℕ, ◌≤◌, ◌<◌, ◌≡◌, refl, inl, inr, false, Option, none, some, Outcome, ok, panic,
  timeout_polled_after_completion, Poll, ready, pending, Result, value, error, Place,
}
use asyncr.Prelude.Map.{contains_key}
use asyncr.Time.Driver.{TimerState}
use asyncr.Time.Sleep
use asyncr.Time.Sleep.{Sleep}
use asyncr.Time.Sleep.Link.{IsLinked, IsWaiting, Answers, poll-Answers}
use asyncr.Time.Timeout.{Timeout, elapsed, Elapsed, poll, poll_with, poll_sleep, take_both}

module _ {F S W A : Type 0} (timers : Place S (TimerState W))
    (poll_future : W → F → S → Outcome (Poll A) × F × S) (drop_future : F → S → S)
    (will_wake : W → W → Bool) (now : S → ℕ) where
  open timers use {view, put}

  abbrev pub polled : W → Timeout F → S → Outcome (Poll (Result A Elapsed)) × Timeout F × S
  polled w t s = poll timers poll_future drop_future will_wake now w t s

  -- A future that is ready wins, even where the deadline has come: its output is returned, the
  -- future and the sleep are dropped, in that order, and the timeout is done.
  pub poll-ready :
      (w : W) (future : F) (sleep : Option Sleep) (s : S) (a : A)
      → (poll_future w future s).0 ≡ ok (ready a)
      → polled w (record { future = some future; sleep = sleep }) s ≡ (
        ok (ready (value a)),
        record { future = none; sleep = none },
        take_both timers poll_future drop_future will_wake
            (poll_future w future s).1
            sleep
            (poll_future w future s).2,
      )
  unfolding poll
  poll-ready w future sleep s a e = rw (e, poll, poll_with)

  -- Once a timeout is done each further poll panics, and changes nothing.
  pub poll-gone :
      (w : W) (s : S)
      → polled w (record { future = none; sleep = none }) s
        ≡ (panic timeout_polled_after_completion, record { future = none; sleep = none }, s)
  unfolding poll
  poll-gone w s = refl

  -- What a poll makes of a pending future: the deadline has come, and the timeout is done with
  -- `Elapsed`; or it has not, and the timeout stays, with its sleep waiting under a waker of the
  -- caller.
  pub data Pends (w : W) (future' : F) (sleep : Sleep) (s' : S)
      (out : Outcome (Poll (Result A Elapsed)) × Timeout F × S) : Type 0 where
    times_out :
        sleep.deadline ≤ now s'
        → out.0 ≡ ok (ready (error elapsed))
        → out.1 ≡ record { future = none; sleep = none }
        → Pends w future' sleep s' out
    stays :
        (sleep' : Sleep)
        → now s' < sleep.deadline
        → out.0 ≡ ok pending
        → out.1 ≡ record { future = some future'; sleep = some sleep' }
        → IsWaiting will_wake w sleep.deadline sleep' (view out.2)
        → Pends w future' sleep s' out

  poll_sleep-Pends :
      (w : W) (future' : F) (sleep : Sleep) (s' : S)
      → Answers will_wake (now s') w sleep (Sleep.poll will_wake (now s') w sleep (view s'))
      → Pends w future' sleep s'
          (poll_sleep timers poll_future drop_future will_wake (now s') w future' (some sleep) s')
  unfolding poll_sleep
  poll_sleep-Pends w future' sleep s' (d, inl (due, answered, _)) =
      rw (answered, poll_sleep) (times_out due refl refl)
  poll_sleep-Pends w future' sleep s' (d, inr (late, answered, waiting)) =
      rw (answered, poll_sleep) (stays _ late refl refl (rw timers.view-put waiting))

  -- A poll whose future is pending answers by the clock: `Elapsed` once the deadline has come, and
  -- pending before. In the state that the future's poll leaves the sleep's registration stands under
  -- the sleep's deadline, unless there is none or the deadline has come, and the next timer id is not
  -- in use: the driver panics where it finds a registration gone or an id taken.
  pub poll-pending :
      (w : W) (future : F) (sleep : Sleep) (s : S)
      → (poll_future w future s).0 ≡ ok pending
      → IsLinked (now (poll_future w future s).2) sleep (view (poll_future w future s).2)
      → contains_key
          (view (poll_future w future s).2).next_id
          (view (poll_future w future s).2).registrations
        ≡ false
      → Pends w
          (poll_future w future s).1
          sleep
          (poll_future w future s).2
          (polled w (record { future = some future; sleep = some sleep }) s)
  unfolding poll
  poll-pending w future sleep s e l free =
      let s' = (poll_future w future s).2 in
      rw (e, poll, poll_with)
        (poll_sleep-Pends w (poll_future w future s).1 sleep s'
          (poll-Answers will_wake (now s') w sleep (view s') l free))
