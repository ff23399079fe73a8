-- ===== src/Runtime/Entered.antt =====
-- `Runtime::block_on` of src/runtime.rs on a new runtime with a paused clock, from the run of its
-- executor, and the runs over a root that waits for a deadline.
use asyncr.Prelude.{
  ℕ, suc, ◌≡◌, refl, sym, subst, ap, ◌∙◌, inl, inr, true, false, List, [], ◌∷◌, Option, none, some,
  Outcome, ok, Poll, ready, pending, leb, Bool-cases, if◌then◌else◌,
}
use asyncr.Schedule
use asyncr.Schedule.State.{ScheduleState, idle, queued, complete}
use asyncr.Shared.{Waker, Shared, root_task_id, request_schedule}
use asyncr.Time.Clock.{paused}
use asyncr.Time.Driver
use asyncr.Time.Driver.{TimerState}
use asyncr.Executor
use asyncr.Executor.{Executor}
use asyncr.Executor.Run.{Arrival, Run, returned, release_root}
use asyncr.Executor.Run.Stages.{stage, waiting, fired}
use asyncr.Executor.Run.Lone.{polled, run_of, early_run, late_run}
use asyncr.Runtime.{Runtime, block_on, with_clock, leave}

module _ {H F V R A : Type 0} (limit : ℕ) (wake_custom : Option H → ℕ → Shared F V → Shared F V)
    (drop_future : Option H → F → Shared F V → Shared F V)
    (poll_future : Option H → Waker → F → Shared F V → Outcome (Poll V) × F × Shared F V)
    (drop_root : Option H → R → Shared F V → Shared F V)
    (poll_root : Option H → Waker → R × Shared F V → Outcome (Poll A) × (R × Shared F V)) where
  abbrev pub at : H → ℕ → ScheduleState → List ℕ → TimerState Waker → ℕ → Executor F V
  at handle system =
      stage limit (wake_custom (some handle)) (drop_future (some handle))
        (poll_future (some handle)) system

  abbrev pub asked : H → ℕ → R → Executor F V → Outcome (Poll A) × (R × Shared F V)
  asked handle system =
      polled limit (wake_custom (some handle)) (drop_future (some handle))
        (poll_future (some handle)) system (drop_root (some handle)) (poll_root (some handle))

  -- The executor of a new runtime once the root is queued.
  abbrev pub started : H → ℕ → ℕ → Executor F V
  started handle system start = at handle system queued (root_task_id ∷ []) Driver.new start

  abbrev pub drives :
      H → ℕ → ℕ → List Arrival → R → Executor F V → Run A × List Arrival × R × Executor F V
  drives handle system fuel env x ex =
      run_of limit (wake_custom (some handle)) (drop_future (some handle))
        (poll_future (some handle)) system (drop_root (some handle)) (poll_root (some handle)) fuel
        env x ex

  -- The runtime that is left, with the root dropped.
  abbrev pub left : H → R → Executor F V → Runtime H F V
  left handle x ex = record {
    executor = record ex { shared = drop_root (some handle) x ex.shared };
    handle = handle;
  }

  abbrev after_enter :
      H → Run A × List Arrival × R × Executor F V → Run A × List Arrival × Runtime H F V × Option H
  after_enter handle (run, env, x, ex) = (
    run,
    env,
    record {
      executor =
          release_root limit (wake_custom (some handle)) (drop_future (some handle))
            (poll_future (some handle)) (drop_root (some handle)) (poll_root (some handle)) run x
            ex;
      handle = handle;
    },
    leave run (some handle),
  )

  pub block_on_run :
      (handle : H) (system start fuel : ℕ) (env : List Arrival) (x x' : R) (a : A)
      (ex : Executor F V)
      → drives handle system fuel env x (started handle system start) ≡ (returned a, env, x', ex)
      → block_on limit wake_custom drop_future poll_future drop_root poll_root fuel env x
          (with_clock handle (paused start) system)
          none
        ≡ (returned a, env, left handle x' ex, none)
  unfolding block_on with_clock Executor.with_clock Executor.Run.block_on Schedule.new
      request_schedule leave release_root Driver.new
  block_on_run handle system start fuel env x x' a ex e = ap (after_enter handle) e

  -- A root that waits for its deadline: it registers a timer at its first poll, unless the deadline has
  -- come, and it answers `a` once the timer has fired. `over` is what is left of it then.
  pub record Timed (handle : H) (system deadline start : ℕ) (fresh armed over : R) (a : A)
      : Type 0 where
    pub early :
        leb deadline start ≡ true
        → asked handle system fresh (at handle system queued [] Driver.new start)
          ≡ (ok (ready a), (over, (at handle system complete [] Driver.new start).shared))
    pub first :
        leb deadline start ≡ false
        → asked handle system fresh (at handle system queued [] Driver.new start)
          ≡ (ok pending, (armed, (at handle system idle [] (waiting deadline) start).shared))
    pub last :
        asked handle system armed (at handle system queued [] fired deadline)
        ≡ (ok (ready a), (over, (at handle system complete [] fired deadline).shared))
    pub gone : (s : Shared F V) → drop_root (some handle) over s ≡ s

  -- How the run ends; `now` is what the clock shows.
  abbrev pub Rests :
      ℕ → List Arrival → A → ℕ → Run A × List Arrival × Runtime H F V × Option H → Type 0
  Rests system env a now (run, env', runtime, context) =
      (let s = runtime.executor.shared in
        (run ≡ returned a)
        × (s.clock ≡ paused now)
        × (s.system ≡ system)
        × (env' ≡ env)
        × (s.timers.registrations ≡ [])
        × (context ≡ none))

  abbrev blocked_on :
      ℕ → List Arrival → R → H → ℕ → ℕ → Run A × List Arrival × Runtime H F V × Option H
  blocked_on fuel env x handle start system =
      block_on limit wake_custom drop_future poll_future drop_root poll_root fuel env x
        (with_clock handle (paused start) system) none

  -- What the drop of the root leaves as it is.
  left-Rests :
      (handle : H) (system now fuel start : ℕ) (env : List Arrival) (x over : R) (a : A)
      (timers : TimerState Waker)
      → timers.registrations ≡ []
      → ((s : Shared F V) → drop_root (some handle) over s ≡ s)
      → drives handle system fuel env x (started handle system start)
        ≡ (returned a, env, over, at handle system complete [] timers now)
      → Rests system env a now (blocked_on fuel env x handle start system)
  left-Rests handle system now fuel start env x over a timers cleared gone e =
      subst (Rests system env a now)
        (sym (
          block_on_run handle system start fuel env x over a
            (at handle system complete [] timers now) e))
        (let kept = gone (at handle system complete [] timers now).shared in
          (
            refl,
            ap (λ s. s.clock) kept,
            ap (λ s. s.system) kept,
            refl,
            ap (λ s. s.timers.registrations) kept ∙ cleared,
            refl,
          ))

  pub Timed-Rests :
      (handle : H) (system deadline start : ℕ) (fresh armed over : R) (a : A)
      → Timed handle system deadline start fresh armed over a
      → (fuel : ℕ) (env : List Arrival)
      → Rests system env a
          (if leb deadline start then start else deadline)
          (blocked_on (suc (suc (suc (suc fuel)))) env fresh handle start system)
  unfolding Driver.new
  Timed-Rests handle system deadline start fresh armed over a timed fuel env =
      elim (Bool-cases (leb deadline start)) [
        | inl e ↦ rw e (
            left-Rests handle system start (suc (suc (suc (suc fuel)))) start env fresh over a
              Driver.new refl timed.gone
              (early_run limit (wake_custom (some handle)) (drop_future (some handle))
                (poll_future (some handle)) system (drop_root (some handle))
                (poll_root (some handle)) (suc (suc fuel)) env start a fresh over (timed.early e)))
        | inr e ↦ rw e (
            left-Rests handle system deadline (suc (suc (suc (suc fuel)))) start env fresh over a
              fired refl timed.gone
              (late_run limit (wake_custom (some handle)) (drop_future (some handle))
                (poll_future (some handle)) system (drop_root (some handle))
                (poll_root (some handle)) fuel env deadline start a fresh armed over e
                (timed.first e) timed.last))
      ]
