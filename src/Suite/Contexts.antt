-- ===== src/Suite/Contexts.antt =====
-- The tests of src/context.rs on one thread: the handles of the outer and the inner runtime are 0
-- and 1. The last test has two threads.
use asyncr.Prelude.{
  ℕ, ◌≡◌, refl, List, [], ◌∷◌, ok, panic, Option, none, no_current_runtime, user_panic, Bool, true,
  false, ◌==◌, Result, value, error,
}
use asyncr.Context
use asyncr.Context.{SetCurrentError}
use asyncr.Suite.{Script, ◌>>=◌, ◌>>◌, assert, outcome, is_none, Passes}

abbrev Thread : Type 0
Thread = Option ℕ

unfoldable thread : Thread
thread = none

unfoldable try_current : Script Thread (Option ℕ)
unfolding Context.try_current
try_current c = (ok (Context.try_current c), c)

unfoldable current : Script Thread ℕ
unfolding Context.current
current c = (Context.current c, c)

unfoldable enter : ℕ → Script Thread (Unit {0})
unfolding Context.enter
enter handle c = Context.enter handle c

unfoldable leave : Script Thread (Unit {0})
unfolding Context.drop_guard
leave c = (ok tt, Context.drop_guard c)

unfoldable try_set_current : ℕ → Script Thread (Result (Unit {0}) SetCurrentError)
unfolding Context.try_set_current
try_set_current handle c = let (set, c') = Context.try_set_current handle c in (ok set, c')

-- Whether the script panicked; what it has changed stays.
abbrev unwound : {A : Type 0} → Script Thread A → Script Thread Bool
unwound script c =
    let (answer, c') = script c in (elim answer [ ok a ↦ ok false | panic p ↦ ok true ], c')

abbrev is_rejected : Result (Unit {0}) SetCurrentError → Bool
is_rejected (value _) = false
is_rejected (error _) = true

unfoldable no_runtime_is_current_initially : Script Thread (Unit {0})
unfolding try_current
no_runtime_is_current_initially = do handle ← try_current; assert (is_none handle)

unfoldable guard_makes_handle_current_until_dropped : Script Thread (Unit {0})
unfolding try_current current enter leave
guard_makes_handle_current_until_dropped = do
  enter 0
  handle ← current
  assert (handle == 0)
  leave
  after ← try_current
  assert (is_none after)

unfoldable nested_entry_is_rejected_without_replacing_outer_context : Script Thread (Unit {0})
unfolding try_current current enter leave try_set_current
nested_entry_is_rejected_without_replacing_outer_context = do
  enter 0
  set ← try_set_current 1
  assert (is_rejected set)
  nested_entry ← unwound (enter 1)
  assert nested_entry
  handle ← current
  assert (handle == 0)
  leave
  after ← try_current
  assert (is_none after)

-- The script runs while a guard is held, which is dropped as the script returns or panics.
abbrev guarded : {A : Type 0} → ℕ → Script Thread A → Script Thread A
guarded handle script c =
    let (guard, c') = Context.enter handle c in
    elim guard [
      | panic p ↦ (panic p, c')
      | ok _ ↦ let (answer, c'') = script c' in (answer, Context.drop_guard c'')
    ]

unfoldable guard_clears_context_during_panic_unwinding : Script Thread (Unit {0})
unfolding try_current Context.enter Context.drop_guard
guard_clears_context_during_panic_unwinding = do
  result ← unwound (guarded {A = ℕ} 0 (λ c. (panic user_panic, c)))
  assert result
  after ← try_current
  assert (is_none after)

abbrev tests : List (Script Thread (Unit {0}))
tests =
    no_runtime_is_current_initially ∷ guard_makes_handle_current_until_dropped
    ∷ nested_entry_is_rejected_without_replacing_outer_context
    ∷ guard_clears_context_during_panic_unwinding ∷ []

tests_pass : Passes thread tests
unfolding thread no_runtime_is_current_initially guard_makes_handle_current_until_dropped
    nested_entry_is_rejected_without_replacing_outer_context
    guard_clears_context_during_panic_unwinding
tests_pass = (refl, (refl, (refl, (refl, tt))))

unfoldable current_panics_outside_an_entered_runtime : Script Thread ℕ
unfolding current
current_panics_outside_an_entered_runtime = current

current_panics : outcome current_panics_outside_an_entered_runtime thread ≡ panic no_current_runtime
unfolding current_panics_outside_an_entered_runtime thread
current_panics = refl

-- The contexts of the main thread and of the one that it spawns, each with its own.
abbrev Threads : Type 0
Threads = Option ℕ × Option ℕ

unfoldable threads : Threads
threads = (none, none)

abbrev on_main : {A : Type 0} → Script Thread A → Script Threads A
on_main script (main, spawned) = let (answer, main') = script main in (answer, (main', spawned))

abbrev on_spawned : {A : Type 0} → Script Thread A → Script Threads A
on_spawned script (main, spawned) =
    let (answer, spawned') = script spawned in (answer, (main, spawned'))

-- The guard of the spawned thread is dropped as the thread ends.
unfoldable context_is_local_to_each_thread : Script Threads (Unit {0})
unfolding enter current try_current leave
context_is_local_to_each_thread = do
  on_main (enter 0)
  before ← on_spawned try_current
  on_spawned (assert (is_none before))
  on_spawned (enter 1)
  handle ← on_spawned current
  on_spawned (assert (handle == 1))
  on_spawned leave
  after ← on_main current
  on_main (assert (after == 0))

thread_tests_pass : Passes threads (context_is_local_to_each_thread ∷ [])
unfolding threads context_is_local_to_each_thread
thread_tests_pass = (refl, tt)
