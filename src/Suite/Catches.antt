-- ===== src/Suite/Catches.antt =====
-- The tests of src/catch.rs: the futures that they wrap, and what two polls of each give.
use asyncr.Prelude.{
  ℕ, refl, List, [], ◌∷◌, Outcome, ok, panic, Panic, user_panic, Poll, ready, pending, Result,
  value, error, Bool, true, false, ◌==◌,
}
use asyncr.Catch
use asyncr.Catch.{CatchUnwind}
use asyncr.Suite.{Script, ◌>>=◌, ◌>>◌, assert, is_pending, Passes}

data Wrapped : Type 0 where
  returns panics never : Wrapped
  panics_second returns_second : (polled : Bool) → Wrapped

-- What the test keeps: the future under test.
abbrev Desk : Type 0
Desk = CatchUnwind Wrapped

unfoldable poll_wrapped : Unit {0} → Wrapped → Unit {0} → Outcome (Poll ℕ) × Wrapped × Unit {0}
poll_wrapped w returns s = (ok (ready 42), returns, s)
poll_wrapped w panics s = (panic user_panic, panics, s)
poll_wrapped w never s = (ok pending, never, s)
poll_wrapped w (panics_second false) s = (ok pending, panics_second true, s)
poll_wrapped w (panics_second true) s = (panic user_panic, panics_second true, s)
poll_wrapped w (returns_second false) s = (ok pending, returns_second true, s)
poll_wrapped w (returns_second true) s = (ok (ready 42), returns_second true, s)

unfoldable wrap : Wrapped → Script Desk (Unit {0})
unfolding Catch.new
wrap future d = (ok tt, Catch.new future)

unfoldable poll : Script Desk (Poll (Result ℕ Panic))
unfolding Catch.poll poll_wrapped
poll d = let (answer, d', s) = Catch.poll poll_wrapped tt d tt in (ok answer, d')

abbrev is_output : ℕ → Poll (Result ℕ Panic) → Bool
is_output n (ready (value output)) = output == n
is_output n _ = false

-- The payload is that of the test.
abbrev is_caught : Poll (Result ℕ Panic) → Bool
is_caught (ready (error user_panic)) = true
is_caught _ = false

unfoldable desk : Desk
unfolding Catch.new
desk = Catch.new never

unfoldable returns_output_when_future_completes : Script Desk (Unit {0})
unfolding wrap poll
returns_output_when_future_completes = do wrap returns; result ← poll; assert (is_output 42 result)

unfoldable catches_panic_on_first_poll : Script Desk (Unit {0})
unfolding wrap poll
catches_panic_on_first_poll = do wrap panics; result ← poll; assert (is_caught result)

unfoldable propagates_pending : Script Desk (Unit {0})
unfolding wrap poll
propagates_pending = do wrap never; result ← poll; assert (is_pending result)

unfoldable catches_panic_after_future_was_previously_pending : Script Desk (Unit {0})
unfolding wrap poll
catches_panic_after_future_was_previously_pending = do
  wrap (panics_second false)
  first ← poll
  assert (is_pending first)
  last ← poll
  assert (is_caught last)

unfoldable returns_output_after_future_was_previously_pending : Script Desk (Unit {0})
unfolding wrap poll
returns_output_after_future_was_previously_pending = do
  wrap (returns_second false)
  first ← poll
  assert (is_pending first)
  last ← poll
  assert (is_output 42 last)

abbrev tests : List (Script Desk (Unit {0}))
tests =
    returns_output_when_future_completes ∷ catches_panic_on_first_poll ∷ propagates_pending
    ∷ catches_panic_after_future_was_previously_pending
    ∷ returns_output_after_future_was_previously_pending ∷ []

tests_pass : Passes desk tests
unfolding desk returns_output_when_future_completes catches_panic_on_first_poll propagates_pending
    catches_panic_after_future_was_previously_pending
    returns_output_after_future_was_previously_pending
tests_pass = (refl, (refl, (refl, (refl, (refl, tt)))))
