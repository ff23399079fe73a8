-- ===== src/Suite/Joins.antt =====
-- The tests of src/join.rs: a sender and a handle, and the wakers a and b, which are 0 and 1; 2 wakes
-- nobody.
use asyncr.Prelude.{
  ℕ, refl, List, [], ◌∷◌, ◌++◌, Outcome, ok, panic, Option, none, some, Poll, ready, Result, value,
  error, Bool, true, false, ◌==◌, occurrences,
}
use asyncr.Join
use asyncr.Join.{Pair, JoinError, cancelled, panicked}
use asyncr.Suite.{Script, ◌>>=◌, ◌>>◌, assert, is_pending, Passes}

record Desk : Type 0 where
  pair : Pair ℕ ℕ
  woken : List ℕ

unfoldable desk : Desk
unfolding Join.join_pair
desk = record { pair = Join.join_pair; woken = [] }

unfoldable poll_handle : ℕ → Script Desk (Poll (Result ℕ JoinError))
unfolding Join.poll
poll_handle waker d =
    let pair = d.pair in
    let (answer, state) = Join.poll waker pair.state in
    (answer, record d { pair = record pair { state = state } })

-- The sender wakes the waker that it finds.
abbrev sent : Outcome (Option ℕ) × Pair ℕ ℕ → Script Desk (Unit {0})
sent (panic p, pair) d = (panic p, record d { pair = pair })
sent (ok none, pair) d = (ok tt, record d { pair = pair })
sent (ok (some waker), pair) d = (ok tt, record { pair = pair; woken = d.woken ++ waker ∷ [] })

unfoldable publish : Result ℕ JoinError → Script Desk (Unit {0})
unfolding Join.publish
publish result d = sent (Join.publish result d.pair) d

unfoldable drop_sender : Script Desk (Unit {0})
unfolding Join.drop_sender
drop_sender d = sent (Join.drop_sender d.pair) d

unfoldable drop_handle : Script Desk (Unit {0})
unfolding Join.drop_handle
drop_handle d =
    let pair = d.pair in
    (ok tt, record d { pair = record pair { state = Join.drop_handle pair.state } })

abbrev assert_count : ℕ → ℕ → Script Desk (Unit {0})
assert_count waker expected d = assert (occurrences d.woken waker == expected) d

abbrev is_output : ℕ → Poll (Result ℕ JoinError) → Bool
is_output n (ready (value output)) = output == n
is_output n _ = false

abbrev is_cancelled : Poll (Result ℕ JoinError) → Bool
is_cancelled (ready (error cancelled)) = true
is_cancelled _ = false

unfoldable completed_join_is_immediately_ready : Script Desk (Unit {0})
unfolding publish poll_handle
completed_join_is_immediately_ready = do
  publish (value 42)
  result ← poll_handle 2
  assert (is_output 42 result)

unfoldable completion_wakes_join_waiter : Script Desk (Unit {0})
unfolding publish poll_handle
completion_wakes_join_waiter = do
  result ← poll_handle 0
  assert (is_pending result)
  publish (value 42)
  assert_count 0 1
  again ← poll_handle 0
  assert (is_output 42 again)

unfoldable dropping_sender_cancels_join : Script Desk (Unit {0})
unfolding drop_sender poll_handle
dropping_sender_cancels_join = do
  result ← poll_handle 0
  assert (is_pending result)
  drop_sender
  assert_count 0 1
  again ← poll_handle 0
  assert (is_cancelled again)

unfoldable latest_join_waker_is_notified : Script Desk (Unit {0})
unfolding publish poll_handle
latest_join_waker_is_notified = do
  poll_handle 0
  poll_handle 1
  publish (value 42)
  assert_count 0 0
  assert_count 1 1
  result ← poll_handle 1
  assert (is_output 42 result)

unfoldable dropping_join_handle_removes_waiter : Script Desk (Unit {0})
unfolding drop_handle drop_sender poll_handle
dropping_join_handle_removes_waiter = do
  result ← poll_handle 0
  assert (is_pending result)
  drop_handle
  drop_sender
  assert_count 0 0

abbrev tests : List (Script Desk (Unit {0}))
tests =
    completed_join_is_immediately_ready ∷ completion_wakes_join_waiter
    ∷ dropping_sender_cancels_join ∷ latest_join_waker_is_notified
    ∷ dropping_join_handle_removes_waiter ∷ []

tests_pass : Passes desk tests
unfolding desk completed_join_is_immediately_ready completion_wakes_join_waiter
    dropping_sender_cancels_join latest_join_waker_is_notified dropping_join_handle_removes_waiter
tests_pass = (refl, (refl, (refl, (refl, (refl, tt)))))
