-- ===== src/Api.antt =====
-- The free functions that find the runtime through the context: `spawn` of src/task.rs, `sleep` and
-- `sleep_until` of src/time/sleep.rs, `timeout` and `timeout_at` of src/time/timeout.rs, `interval`
-- and `interval_at` of src/time/interval.rs. `H` names the runtimes; what a handle gives access to is
-- `at`. What is made is returned with the handle whose timers it uses.
use asyncr.Prelude.{ℕ, Option, Outcome, ok, ◌>>=◌}
use asyncr.Context.{current}
use asyncr.Shared
use asyncr.Shared.{Shared}
use asyncr.Time.{deadline_after}
use asyncr.Time.Clock
use asyncr.Time.Sleep
use asyncr.Time.Sleep.{Sleep}
use asyncr.Time.Timeout
use asyncr.Time.Timeout.{Timeout}
use asyncr.Time.Interval
use asyncr.Time.Interval.{Interval, burst}

module _ {H F V : Type 0} (limit : ℕ) (at : H → Shared F V) where
  -- `TimerHandle::now`.
  unfoldable pub now : H → Outcome ℕ
  unfolding Clock.now
  now handle = let s = at handle in Clock.now limit s.system s.clock

  unfoldable pub sleep : ℕ → Option H → Outcome (H × Sleep)
  unfolding now current deadline_after Sleep.new
  sleep duration context = do
    handle ← current context
    instant ← now handle
    deadline ← deadline_after limit instant duration
    ok (handle, Sleep.new deadline)

  unfoldable pub sleep_until : ℕ → Option H → Outcome (H × Sleep)
  unfolding current Sleep.new
  sleep_until deadline context = do handle ← current context; ok (handle, Sleep.new deadline)

  unfoldable pub timeout : {T : Type 0} → ℕ → T → Option H → Outcome (H × Timeout T)
  unfolding now current deadline_after Sleep.new Timeout.new
  timeout duration future context = do
    handle ← current context
    instant ← now handle
    deadline ← deadline_after limit instant duration
    ok (handle, Timeout.new (Sleep.new deadline) future)

  unfoldable pub timeout_at : {T : Type 0} → ℕ → T → Option H → Outcome (H × Timeout T)
  unfolding current Sleep.new Timeout.new
  timeout_at deadline future context = do
    handle ← current context
    ok (handle, Timeout.new (Sleep.new deadline) future)

  unfoldable pub interval : ℕ → Option H → Outcome (H × Interval)
  unfolding now current Sleep.new Interval.new
  interval period context = do
    handle ← current context
    start ← now handle
    made ← Interval.new (Sleep.new start) period burst
    ok (handle, made)

  unfoldable pub interval_at : ℕ → ℕ → Option H → Outcome (H × Interval)
  unfolding current Sleep.new Interval.new
  interval_at start period context = do
    handle ← current context
    made ← Interval.new (Sleep.new start) period burst
    ok (handle, made)

  -- The index of the join pair, and what the handle gives access to afterwards.
  unfoldable pub spawn :
      (ℕ → Shared F V → Shared F V)
      → (F → Shared F V → Shared F V)
      → F
      → Option H
      → Outcome (H × ℕ × Shared F V)
  unfolding current Shared.spawn
  spawn wake_custom drop_future future context = do
    handle ← current context
    let (join, s) = Shared.spawn wake_custom drop_future future (at handle)
    ok (handle, join, s)
