-- ===== src/Suite/Timeouts.antt =====
-- The tests of src/time/timeout.rs, over a stage that also has the cells that the wrapped futures
-- share with them: whether the future may complete, and whether it was dropped.
use asyncr.Prelude.{
  ℕ, ◌+◌, ◌-◌, ◌*◌, ◌≡◌, refl, List, [], ◌∷◌, Outcome, ok, Poll, ready, pending, none, panic,
  no_current_runtime, Bool, true, false, not, ◌==◌, Result, value, error, Place, if◌then◌else◌,
}
use asyncr.Api
use asyncr.Shared.{Shared}
use asyncr.Time.Driver.{TimerState}
use asyncr.Time.Sleep
use asyncr.Time.Sleep.{Sleep}
use asyncr.Time.Timeout
use asyncr.Time.Timeout.{Timeout, Elapsed}
use asyncr.Suite.{
  Script, ◌>>=◌, ◌>>◌, assert, second, limit, is_pending, will_wake, Bench, bench, now, advance,
  process_expired, assert_count, assert_next, assert_no_next, Passes,
}

record Stage : Type 0 where
  time : Bench
  allowed : Bool
  dropped : Bool

unfoldable stage : Stage
stage = record { time = bench; allowed = false; dropped = false }

-- The futures that the tests wrap: `async { 42 }`, one that is never ready, one that sleeps and then
-- gives 42, one with a `DropFlag` that is never ready, and one that waits for the cell.
data Wrapped : Type 0 where
  returns never flagged waits : Wrapped
  sleeps : Sleep → Wrapped

abbrev slept : Outcome (Poll (Unit {0})) → Outcome (Poll ℕ)
slept (ok (ready _)) = ok (ready 42)
slept (ok pending) = ok pending
slept (panic p) = panic p

unfoldable poll_wrapped : ℕ → Wrapped → Stage → Outcome (Poll ℕ) × Wrapped × Stage
unfolding Sleep.poll now
poll_wrapped waker returns s = (ok (ready 42), returns, s)
poll_wrapped waker never s = (ok pending, never, s)
poll_wrapped waker flagged s = (ok pending, flagged, s)
poll_wrapped waker waits s = (ok (if s.allowed then ready 42 else pending), waits, s)
poll_wrapped waker (sleeps sleep) s = elim (now s.time).0 [
  | panic p ↦ (panic p, sleeps sleep, s)
  | ok instant ↦
      let time = s.time in
      let (answer, sleep', timers) = Sleep.poll will_wake instant waker sleep time.timers in
      (slept answer, sleeps sleep', record s { time = record time { timers = timers } })
]

-- The `DropFlag` of src/time/timeout.rs, and the sleep that a future holds.
unfoldable drop_wrapped : Wrapped → Stage → Stage
unfolding Sleep.drop
drop_wrapped returns s = s
drop_wrapped never s = s
drop_wrapped waits s = s
drop_wrapped flagged s = record s { dropped = true }
drop_wrapped (sleeps sleep) s =
    let time = s.time in record s { time = record time { timers = Sleep.drop sleep time.timers } }

abbrev timers : Place Stage (TimerState ℕ)
timers = record {
  view = λ s. s.time.timers;
  put = λ t s. (let time = s.time in record s { time = record time { timers = t } });
  view-put = λ t s. refl;
  put-put = λ t u s. refl;
  put-view = λ s. refl;
}

abbrev shown : Outcome ℕ → ℕ
shown (ok instant) = instant
shown (panic p) = 0

abbrev on_bench : {A : Type 0} → Script Bench A → Script Stage A
on_bench script s = let (answer, time) = script s.time in (answer, record s { time = time })

unfoldable timeout_at_deadline : ℕ → Wrapped → Timeout Wrapped
unfolding Timeout.new Sleep.new
timeout_at_deadline deadline future = Timeout.new (Sleep.new deadline) future

-- A paused clock always shows an instant.
unfoldable poll_timeout :
    ℕ → Timeout Wrapped → Script Stage (Poll (Result ℕ Elapsed) × Timeout Wrapped)
unfolding Timeout.poll poll_wrapped drop_wrapped now
poll_timeout waker t s =
    let (answer, t', s') =
      Timeout.poll timers poll_wrapped drop_wrapped will_wake (λ s. shown (now s.time).0) waker t
        s in
    (elim answer [ ok polled ↦ ok (polled, t') | panic p ↦ panic p ], s')

unfoldable drop_timeout : Timeout Wrapped → Script Stage (Unit {0})
unfolding Timeout.drop poll_wrapped drop_wrapped
drop_timeout t s = (ok tt, Timeout.drop timers poll_wrapped drop_wrapped will_wake t s)

abbrev is_output : Poll (Result ℕ Elapsed) → ℕ → Bool
is_output (ready (value n)) output = n == output
is_output (ready (error e)) output = false
is_output pending output = false

abbrev is_elapsed : Poll (Result ℕ Elapsed) → Bool
is_elapsed (ready (value n)) = false
is_elapsed (ready (error e)) = true
is_elapsed pending = false

abbrev assert_dropped : Bool → Script Stage (Unit {0})
assert_dropped expected s = assert (if expected then s.dropped else not s.dropped) s

unfoldable immediately_ready_future_wins_when_deadline_is_elapsed : Script Stage (Unit {0})
unfolding now timeout_at_deadline poll_timeout
immediately_ready_future_wins_when_deadline_is_elapsed = do
  start ← on_bench now
  (answer, _) ← poll_timeout 2 (timeout_at_deadline (start - second) returns)
  assert (is_output answer 42)

unfoldable pending_future_times_out_at_deadline : Script Stage (Unit {0})
unfolding now timeout_at_deadline poll_timeout advance process_expired assert_next assert_no_next
pending_future_times_out_at_deadline = do
  start ← on_bench now
  let deadline = start + 5 * second
  (first, waiting) ← poll_timeout 0 (timeout_at_deadline deadline never)
  assert (is_pending first)
  on_bench (assert_next deadline)
  on_bench (advance (5 * second))
  on_bench process_expired
  on_bench (assert_count 0 1)
  (last, _) ← poll_timeout 0 waiting
  assert (is_elapsed last)
  on_bench assert_no_next

unfoldable future_completes_before_deadline : Script Stage (Unit {0})
unfolding now Sleep.new timeout_at_deadline poll_timeout advance process_expired
future_completes_before_deadline = do
  start ← on_bench now
  let sleep_inner = Sleep.new (start + 5 * second)
  (first, waiting) ← poll_timeout 0 (timeout_at_deadline (start + 10 * second) (sleeps sleep_inner))
  assert (is_pending first)
  on_bench (advance (5 * second))
  on_bench process_expired
  on_bench (assert_count 0 1)
  (last, _) ← poll_timeout 0 waiting
  assert (is_output last 42)

unfoldable timing_out_drops_wrapped_future : Script Stage (Unit {0})
unfolding now timeout_at_deadline poll_timeout advance process_expired
timing_out_drops_wrapped_future = do
  start ← on_bench now
  (first, waiting) ← poll_timeout 2 (timeout_at_deadline (start + 5 * second) flagged)
  assert (is_pending first)
  assert_dropped false
  on_bench (advance (5 * second))
  on_bench process_expired
  (last, _) ← poll_timeout 2 waiting
  assert (is_elapsed last)
  assert_dropped true

unfoldable successful_future_cancels_timeout_registration : Script Stage (Unit {0})
unfolding now timeout_at_deadline poll_timeout advance process_expired assert_next assert_no_next
successful_future_cancels_timeout_registration = do
  start ← on_bench now
  let deadline = start + 5 * second
  (first, waiting) ← poll_timeout 0 (timeout_at_deadline deadline waits)
  assert (is_pending first)
  on_bench (assert_next deadline)
  λ s. (ok tt, record s { allowed = true })
  (last, _) ← poll_timeout 0 waiting
  assert (is_output last 42)
  on_bench assert_no_next
  on_bench (advance (5 * second))
  on_bench process_expired
  on_bench (assert_count 0 0)

unfoldable dropping_pending_timeout_drops_future_and_cancels_registration : Script Stage (Unit {0})
unfolding now timeout_at_deadline poll_timeout drop_timeout assert_next assert_no_next
dropping_pending_timeout_drops_future_and_cancels_registration = do
  start ← on_bench now
  let deadline = start + 5 * second
  (answer, waiting) ← poll_timeout 2 (timeout_at_deadline deadline flagged)
  assert (is_pending answer)
  on_bench (assert_next deadline)
  assert_dropped false
  drop_timeout waiting
  assert_dropped true
  on_bench assert_no_next

abbrev tests : List (Script Stage (Unit {0}))
tests =
    immediately_ready_future_wins_when_deadline_is_elapsed ∷ pending_future_times_out_at_deadline
    ∷ future_completes_before_deadline ∷ timing_out_drops_wrapped_future
    ∷ successful_future_cancels_timeout_registration
    ∷ dropping_pending_timeout_drops_future_and_cancels_registration ∷ []

tests_pass : Passes stage tests
unfolding stage bench immediately_ready_future_wins_when_deadline_is_elapsed
    pending_future_times_out_at_deadline future_completes_before_deadline
    timing_out_drops_wrapped_future successful_future_cancels_timeout_registration
    dropping_pending_timeout_drops_future_and_cancels_registration
tests_pass = (refl, (refl, (refl, (refl, (refl, (refl, tt))))))

-- `system` is what `Instant::now()` returns.
module _ {H F V : Type 0} (at : H → Shared F V) where
  unfoldable public_timeout_requires_an_entered_runtime : Outcome (H × Timeout Wrapped)
  unfolding Api.timeout
  public_timeout_requires_an_entered_runtime = Api.timeout limit at second never none

  unfoldable public_timeout_at_requires_an_entered_runtime : ℕ → Outcome (H × Timeout Wrapped)
  unfolding Api.timeout_at
  public_timeout_at_requires_an_entered_runtime system = Api.timeout_at limit at system never none

  timeout_panics :
      (system : ℕ)
      → (public_timeout_requires_an_entered_runtime ≡ panic no_current_runtime)
        × (public_timeout_at_requires_an_entered_runtime system ≡ panic no_current_runtime)
  unfolding public_timeout_requires_an_entered_runtime public_timeout_at_requires_an_entered_runtime
  timeout_panics system = (refl, refl)
