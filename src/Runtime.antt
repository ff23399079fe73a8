-- ===== src/Runtime.antt =====
-- src/runtime.rs. `H` is the type of handles; a handle stays the same for the runtime's life.
pub mod Entered
pub mod Sleeping
pub mod Elapsing
pub mod Again
use asyncr.Prelude.{ℕ, ◌≡◌, List, Option, none, Outcome, ok, panic, Panic, Poll}
use asyncr.Shared.{Waker, Shared}
use asyncr.Time.Clock.{Clock}
use asyncr.Context.{enter, drop_guard}
use asyncr.Executor
use asyncr.Executor.{Executor}
use asyncr.Executor.Run
use asyncr.Executor.Run.{Run, returned, panicked, blocked, unfinished, Arrival}

pub record Runtime (H F V : Type 0) : Type 0 where
  pub executor : Executor F V
  pub handle : H

unfoldable pub with_clock : {H F V : Type 0} → H → Clock → ℕ → Runtime H F V
unfolding Executor.with_clock
with_clock handle clock system = record {
  executor = Executor.with_clock clock system;
  handle = handle;
}

unfoldable pub new : {H F V : Type 0} → H → ℕ → Runtime H F V
unfolding Executor.new
new handle system = record { executor = Executor.new system; handle = handle }

-- `Runtime::enter`, which enters the runtime's handle.
unfoldable pub enter_runtime :
    {H F V : Type 0} → Runtime H F V → Option H → Outcome (Unit {0}) × Option H
unfolding enter
enter_runtime runtime context = enter runtime.handle context

-- The context once `block_on` has ended: the guard is dropped on return and on a panic. A run that
-- has not ended keeps it.
unfoldable pub leave : {H A : Type 0} → Run A → Option H → Option H
unfolding drop_guard
leave (returned a) context = drop_guard context
leave (panicked p) context = drop_guard context
leave blocked context = context
leave unfinished context = context

pub leave_returned :
    {H A : Type 0} (run : Run A) (context : Option H) (a : A)
    → run ≡ returned a
    → leave run context ≡ none
unfolding leave
leave_returned run context a e = rw e

pub leave_panicked :
    {H A : Type 0} (run : Run A) (context : Option H) (p : Panic)
    → run ≡ panicked p
    → leave run context ≡ none
unfolding leave
leave_panicked run context p e = rw e

-- User code sees which handle is current.
module _ {H F V R A : Type 0} (limit : ℕ) (wake_custom : Option H → ℕ → Shared F V → Shared F V)
    (drop_future : Option H → F → Shared F V → Shared F V)
    (poll_future : Option H → Waker → F → Shared F V → Outcome (Poll V) × F × Shared F V)
    (drop_root : Option H → R → Shared F V → Shared F V)
    (poll_root : Option H → Waker → R × Shared F V → Outcome (Poll A) × (R × Shared F V)) where
  -- How the run of the executor ends under what is current.
  abbrev pub driven :
      ℕ → List Arrival → R → Runtime H F V → Option H → Run A × List Arrival × Executor F V
  driven fuel env root runtime context =
      Run.block_on limit (wake_custom context) (drop_future context) (poll_future context)
        (drop_root context) (poll_root context) fuel env root runtime.executor

  unfoldable pub block_on :
      ℕ
      → List Arrival
      → R
      → Runtime H F V
      → Option H
      → Run A × List Arrival × Runtime H F V × Option H
  unfolding enter_runtime leave Run.block_on
  block_on fuel env root runtime context =
      let (guard, context') = enter_runtime runtime context in
      let (run, env', ex) = driven fuel env root runtime context' in
      elim guard [
        | panic p ↦ (panicked p, env, runtime, context')
        | ok _ ↦ (run, env', record runtime { executor = ex }, leave run context')
      ]
