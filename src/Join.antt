-- ===== src/Join.antt =====
-- src/join.rs. The `Rc<RefCell<JoinState>>` that a sender and a handle share is a state passed along;
-- `W` is the type of wakers. A waker that the code wakes is returned to the caller, who wakes it.
pub mod Delivery
pub mod Store
use asyncr.Prelude.{
  Bool, true, false, Option, none, some, Outcome, ok, panic, join_completed_twice,
  join_polled_after_completion, Poll, ready, pending, Result, value, error,
}

pub data JoinError : Type 0 where
  cancelled panicked : JoinError

pub data JoinState (T W : Type 0) : Type 0 where
  waiting : (waker : Option W) → JoinState T W
  finished : Result T JoinError → JoinState T W
  consumed : JoinState T W

-- Whether the sender still holds its `Rc`, and the state.
pub record Pair (T W : Type 0) : Type 0 where
  pub armed : Bool
  pub state : JoinState T W

module _ {T W : Type 0} where
  unfoldable pub join_pair : Pair T W
  join_pair = record { armed = true; state = waiting none }

  -- `JoinHandle::poll`.
  unfoldable pub poll : W → JoinState T W → Outcome (Poll (Result T JoinError)) × JoinState T W
  poll waker (waiting _) = (ok pending, waiting (some waker))
  poll waker (finished result) = (ok (ready result), consumed)
  poll waker consumed = (panic join_polled_after_completion, consumed)

  -- `JoinHandle::drop`.
  unfoldable pub drop_handle : JoinState T W → JoinState T W
  drop_handle (waiting _) = waiting none
  drop_handle state = state

  unfoldable pub complete : Result T JoinError → JoinState T W → Outcome (Option W) × JoinState T W
  complete result (waiting waker) = (ok waker, finished result)
  complete result state = (panic join_completed_twice, state)

  unfoldable pub publish_inner : Result T JoinError → Pair T W → Outcome (Option W) × Pair T W
  unfolding complete
  publish_inner result pair = elim pair.armed [
    | false ↦ (ok none, pair)
    | true ↦
        let (waker, state) = complete result pair.state in
        (waker, record { armed = false; state = state })
  ]

  -- `JoinSender::drop`.
  unfoldable pub drop_sender : Pair T W → Outcome (Option W) × Pair T W
  unfolding publish_inner
  drop_sender pair = publish_inner (error cancelled) pair

  -- The sender is dropped when `publish` ends.
  unfoldable pub publish : Result T JoinError → Pair T W → Outcome (Option W) × Pair T W
  unfolding publish_inner drop_sender
  publish result pair =
      let (woken, pair') = publish_inner result pair in
      let (woken', pair'') = drop_sender pair' in
      elim woken [
        | panic p ↦ (panic p, pair'')
        | ok none ↦ (woken', pair'')
        | ok (some waker) ↦ (ok (some waker), pair'')
      ]
