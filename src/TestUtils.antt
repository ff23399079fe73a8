-- ===== src/TestUtils.antt =====
-- src/test_utils.rs: the wakers of the tests, each with the state that it shares, and a driver under
-- a paused clock.
use asyncr.Prelude.{ℕ, ◌+◌, ◌%◌, ◌^◌, List, [], ◌∷◌, ◌++◌}
use asyncr.Shared.{Waker, custom}
use asyncr.Time.Clock
use asyncr.Time.Clock.{Clock}
use asyncr.Time.Driver
use asyncr.Time.Driver.{TimerState}

-- The messages that the receiver of a `WakeChannel` has not taken.
pub record WakeChannel : Type 0 where
  pub messages : List (Unit {0})

unfoldable pub get_wake_channel : WakeChannel
get_wake_channel = record { messages = [] }

-- `wake` and `wake_by_ref`.
unfoldable pub send_wake : WakeChannel → WakeChannel
send_wake channel = record { messages = channel.messages ++ tt ∷ [] }

pub record WakeCounter : Type 0 where
  pub wakes : ℕ

unfoldable pub counting_waker : WakeCounter
counting_waker = record { wakes = 0 }

unfoldable pub count_wake : WakeCounter → WakeCounter
count_wake counter = record { wakes = (counter.wakes + 1) % 2 ^ 64 }

unfoldable pub paused_timer_driver : {W : Type 0} → ℕ → Clock × TimerState W
unfolding Clock.new_paused Driver.new
paused_timer_driver system = (Clock.new_paused system, Driver.new)

unfoldable pub count : WakeCounter → ℕ
count counter = counter.wakes

-- A waker that does nothing. `0` is the one of user code's wakers that it stands for.
unfoldable pub noop_context : Waker
noop_context = custom 0
