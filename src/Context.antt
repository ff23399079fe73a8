-- ===== src/Context.antt =====
-- src/context.rs, and `enter` and `EnterGuard` of src/handle.rs: the handle that is current on a
-- thread. `H` is the type of handles.
use asyncr.Prelude.{
  Option, none, some, Outcome, ok, panic, no_current_runtime, already_entered, Result, value, error,
}

pub data SetCurrentError : Type 0 where
  already : SetCurrentError

module _ {H : Type 0} where
  unfoldable pub try_set_current : H → Option H → Result (Unit {0}) SetCurrentError × Option H
  try_set_current handle none = (value tt, some handle)
  try_set_current handle (some current) = (error already, some current)

  unfoldable pub clear_current : Option H → Option H
  clear_current context = none

  unfoldable pub try_current : Option H → Option H
  try_current context = context

  unfoldable pub current : Option H → Outcome H
  unfolding try_current
  current context = elim (try_current context) [
    | none ↦ panic no_current_runtime
    | some handle ↦ ok handle
  ]

  -- `Handle::enter`; the guard that it returns carries no data.
  unfoldable pub enter : H → Option H → Outcome (Unit {0}) × Option H
  unfolding try_set_current
  enter handle context =
      let (set, context') = try_set_current handle context in
      elim set [ value _ ↦ (ok tt, context') | error _ ↦ (panic already_entered, context') ]

  -- `EnterGuard::drop`.
  unfoldable pub drop_guard : Option H → Option H
  unfolding clear_current
  drop_guard context = clear_current context
