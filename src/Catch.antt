-- ===== src/Catch.antt =====
-- src/catch.rs. The future's state, and the state that it shares with others, survive a panic.
use asyncr.Prelude.{Outcome, ok, panic, Panic, Poll, ready, pending, Result, value, error}

-- `self.future`, boxed.
pub record CatchUnwind (F : Type 0) : Type 0 where
  pub future : F

unfoldable pub new : {F : Type 0} → F → CatchUnwind F
new future = record { future = future }

module _ {F S W A : Type 0} (poll_future : W → F → S → Outcome (Poll A) × F × S) where
  -- The `match` on what `catch_unwind` returns.
  unfoldable pub caught : Outcome (Poll A) → Poll (Result A Panic)
  caught (ok pending) = pending
  caught (ok (ready output)) = ready (value output)
  caught (panic p) = ready (error p)

  unfoldable pub poll : W → CatchUnwind F → S → Poll (Result A Panic) × CatchUnwind F × S
  unfolding caught
  poll waker self s =
      let (answer, future, s') = poll_future waker self.future s in
      (caught answer, record { future = future }, s')
