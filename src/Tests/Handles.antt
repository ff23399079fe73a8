-- ===== src/Tests/Handles.antt =====
-- A run of `block_on` over the handle of a task that yields twice.
use asyncr.Prelude.{
  ℕ, zero, suc, ◌≡◌, refl, false, [], ◌∷◌, Outcome, ok, Poll, ready, pending, value, arith,
}
use asyncr.Join.{consumed}
use asyncr.Shared.{Waker, Shared, wake, spawn}
use asyncr.Time.Clock
use asyncr.Executor.{Executor, with_clock}
use asyncr.Executor.Run.{Arrival, block_on, returned}
use asyncr.Executor.Run.Handles.{poll_handle, drop_handle, Yields, ends, yields}
use asyncr.Executor.Run.Joining.{block_on-join}

abbrev Common : Type 0
Common = Shared ℕ ℕ

abbrev ignore : ℕ → Common → Common
ignore k s = s

-- Ready at the poll after `n` others.
abbrev countdown : Waker → ℕ → Common → Outcome (Poll ℕ) × ℕ × Common
countdown w zero s = (ok (ready 9), 0, s)
countdown w (suc n) s = (ok pending, n, wake ignore ignore w s)

countdown-Yields : Yields 1_000 ignore ignore countdown (ok (ready 9)) 2 2
unfolding wake
countdown-Yields =
    yields 1 (λ r s. refl) (yields 0 (λ r s. refl) (ends 0 (λ w s. refl) (λ s. refl)))

abbrev arrival : Arrival
arrival = record { elapsed = 1; wakes = 1 ∷ [] }

abbrev at_first : Executor ℕ ℕ
at_first = with_clock (Clock.new 3) 5

at_five : Clock.now 1_000 5 (Clock.new 3) ≡ ok 5
unfolding Clock.now Clock.new
at_five = refl

block_on-join_example :
    (let (j, s) = spawn ignore ignore 2 at_first.shared in
      let (run, env, ex) =
        block_on 1_000 ignore ignore countdown drop_handle poll_handle 6
          (arrival ∷ [])
          j
          (record at_first { shared = s }) in
      (run ≡ returned (value 9))
      × (env ≡ arrival ∷ [])
      × (ex.tasks ≡ [])
      × (ex.shared.scheduler.ready ≡ [])
      × (ex.shared.joins ≡ record { armed = false; state = consumed } ∷ []))
block_on-join_example =
    block_on-join 1_000 ignore ignore countdown (Clock.new 3) 5 (ok (ready 9)) (value 9) refl 5
      at_five 2 2 6 (arrival ∷ []) countdown-Yields (omega arith)
