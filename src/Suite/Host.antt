-- ===== src/Suite/Host.antt =====
-- A runtime and the context of its thread, for the tests of src/runtime.rs and src/task.rs. The runtime's
-- handle is 1. The platform's time is 1000 seconds, and so is what a paused clock begins at.
use asyncr.Prelude.{
  ℕ, ◌*◌, Bool, true, false, List, [], ◌∷◌, Option, none, some, Outcome, ok, panic, user_panic,
  ◌==◌, ◌&&◌,
}
use asyncr.Context
use asyncr.Shared
use asyncr.Time.Clock
use asyncr.Runtime
use asyncr.Runtime.{Runtime}
use asyncr.Executor.Run.{Run, returned, panicked, blocked, unfinished, Arrival}
use asyncr.Suite.{Script, assert, second, limit}
use asyncr.Suite.Async.{Async, ignore, drop_async, poll_async, poll_root}

pub record Host : Type 0 where
  pub runtime : Runtime ℕ Async ℕ
  pub context : Option ℕ

-- `Runtime::new()`.
unfoldable pub host : Host
unfolding Runtime.new
host = record { runtime = Runtime.new 1 (1_000 * second); context = none }

-- `Runtime::with_clock(Clock::new_paused())`.
unfoldable pub paused_host : Host
unfolding Runtime.with_clock Clock.new_paused
paused_host = record {
  runtime = Runtime.with_clock 1 (Clock.new_paused (1_000 * second)) (1_000 * second);
  context = none;
}

unfoldable pub enter : Script Host (Unit {0})
unfolding Runtime.enter_runtime
enter h =
    let (entered, context) = Runtime.enter_runtime h.runtime h.context in
    (entered, record h { context = context })

-- `outer_handle.enter()`, for a handle of another runtime.
unfoldable pub enter_outer : ℕ → Script Host (Unit {0})
unfolding Context.enter
enter_outer handle h =
    let (entered, context) = Context.enter handle h.context in
    (entered, record h { context = context })

unfoldable pub drop_guard : Script Host (Unit {0})
unfolding Context.drop_guard
drop_guard h = (ok tt, record h { context = Context.drop_guard h.context })

unfoldable pub try_current : Script Host (Option ℕ)
unfolding Context.try_current
try_current h = (ok (Context.try_current h.context), h)

-- `handle.spawn(..)`, with the index of the join pair.
unfoldable pub spawn : Async → Script Host ℕ
unfolding Shared.spawn drop_async
spawn block h =
    let runtime = h.runtime in
    let ex = runtime.executor in
    let (j, s) = Shared.spawn ignore drop_async block ex.shared in
    (ok j, record h { runtime = record runtime { executor = record ex { shared = s } } })

-- A run that does not end fails the test.
abbrev outcome_of : Run ℕ → Outcome ℕ
outcome_of (returned n) = ok n
outcome_of (panicked p) = panic p
outcome_of blocked = panic user_panic
outcome_of unfinished = panic user_panic

-- `env` is what other threads do while this one is blocked.
unfoldable pub block_on_with : List Arrival → Async → Script Host ℕ
unfolding Runtime.block_on drop_async poll_async poll_root
block_on_with env block h =
    let (run, _, runtime, context) =
      Runtime.block_on limit (λ context. ignore) (λ context. drop_async) poll_async
        (λ context. drop_async) poll_root 30 env block h.runtime h.context in
    (outcome_of run, record { runtime = runtime; context = context })

unfoldable pub block_on : Async → Script Host ℕ
unfolding block_on_with
block_on block = block_on_with [] block

-- `catch_unwind(..)`: whether the script panicked; what it has changed stays.
abbrev pub unwound : {A : Type 0} → Script Host A → Script Host Bool
unwound script h =
    let (answer, h') = script h in (elim answer [ ok a ↦ ok false | panic p ↦ ok true ], h')

-- `clock.now()`.
unfoldable pub now : Script Host ℕ
unfolding Clock.now
now h =
    let runtime = h.runtime in
    let ex = runtime.executor in let s = ex.shared in (Clock.now limit s.system s.clock, h)

abbrev pub are : List ℕ → List ℕ → Bool
are [] [] = true
are (m ∷ ms) (n ∷ ns) = (m == n) && are ms ns
are _ _ = false

-- The marks that the blocks have left.
abbrev pub assert_trace : List ℕ → Script Host (Unit {0})
assert_trace made h =
    let runtime = h.runtime in
    let ex = runtime.executor in let s = ex.shared in assert (are s.cells made) h

-- `Rc::ptr_eq(&current.spawn_state, &expected.spawn_state)`.
abbrev pub is_handle : ℕ → Option ℕ → Bool
is_handle expected none = false
is_handle expected (some handle) = handle == expected
