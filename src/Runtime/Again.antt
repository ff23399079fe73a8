-- ===== src/Runtime/Again.antt =====
-- One `Runtime::block_on` of src/runtime.rs after another.
use asyncr.Prelude.{
  ℕ, ◌≡◌, refl, subst, sym, inl, inr, false, List, [], Option, none, some, Outcome, Panic, Poll,
}
use asyncr.Shared.{Waker, Shared}
use asyncr.Executor.{Executor}
use asyncr.Executor.Usage.{Sound, Uses}
use asyncr.Executor.Polling.{Users}
use asyncr.Executor.Passes.{is_broken}
use asyncr.Executor.Run.{Arrival, Run, panicked}
use asyncr.Executor.Run.Root.{RootUser}
use asyncr.Executor.Run.Unbroken.{OfRoot, block_on-Sound, block_on-unbroken}
use asyncr.Runtime.{Runtime, block_on, driven, leave, leave_returned, leave_panicked}

leave-OfRoot :
    {H A : Type 0} (run : Run A) (context : Option H) → OfRoot run → leave run context ≡ none
leave-OfRoot run context (inl (a, e)) = leave_returned run context a e
leave-OfRoot run context (inr (p, e, _)) = leave_panicked run context p e

module _ {H F V R A : Type 0} (limit : ℕ) (wake_custom : Option H → ℕ → Shared F V → Shared F V)
    (drop_future : Option H → F → Shared F V → Shared F V)
    (poll_future : Option H → Waker → F → Shared F V → Outcome (Poll V) × F × Shared F V)
    (drop_root : Option H → R → Shared F V → Shared F V)
    (poll_root : Option H → Waker → R × Shared F V → Outcome (Poll A) × (R × Shared F V)) where
  abbrev blocked_on :
      ℕ
      → List Arrival
      → R
      → Runtime H F V
      → Option H
      → Run A × List Arrival × Runtime H F V × Option H
  blocked_on = block_on limit wake_custom drop_future poll_future drop_root poll_root

  abbrev on_executor :
      ℕ → List Arrival → R → Runtime H F V → Option H → Run A × List Arrival × Executor F V
  on_executor = driven limit wake_custom drop_future poll_future drop_root poll_root

  abbrev IsSound : Runtime H F V → Type 0
  IsSound runtime =
      (let ex = runtime.executor in Sound none [] ex.tasks ex.shared.spawns ex.shared.scheduler)

  -- A runtime serves again: once a `block_on` outside any runtime has returned, or its root has
  -- panicked, no runtime is current, the handle is the same, and the executor is as sound as before.
  -- So the next `block_on`, from what the first left, is not refused: it ends as the executor does
  -- under the handle, and if it panics then not for want of a task or of a state that its schedule
  -- should have. Under the handle futures and the root may wake and spawn while ids last, also as
  -- they are dropped, the wakers of user code wake but do not spawn, and the root does not raise the
  -- panics of a broken schedule itself. A panic is known for the root's when it is none of those of
  -- the clock and of a join pair that are named in `is_inner`.
  pub block_on_again :
      (runtime : Runtime H F V) (fuel later_fuel : ℕ) (env : List Arrival) (x y : R)
      → (let current = some runtime.handle in
          Users (wake_custom current) (drop_future current) (poll_future current))
      → (let current = some runtime.handle in
          RootUser (wake_custom current) (drop_future current) (poll_root current))
      → (let current = some runtime.handle in
          (z : R) (s : Shared F V)
          → Uses (wake_custom current) (drop_future current) s (drop_root current z s))
      → IsSound runtime
      → OfRoot (blocked_on fuel env x runtime none).0
      → let (run, env', runtime', context') = blocked_on fuel env x runtime none in
        (context' ≡ none)
        × (runtime'.handle ≡ runtime.handle)
        × IsSound runtime'
        × ((blocked_on later_fuel env' y runtime' context').0
            ≡ (on_executor later_fuel env' y runtime' (some runtime.handle)).0)
        × ((p : Panic)
            → (blocked_on later_fuel env' y runtime' context').0 ≡ panicked p
            → is_broken p ≡ false)
  unfolding block_on
  block_on_again runtime fuel later_fuel env x y users user drops sound ended =
      let current = some runtime.handle in
      let (run, env', runtime', context') = blocked_on fuel env x runtime none in
      let left : context' ≡ none = leave-OfRoot run current ended in
      let sound' : IsSound runtime' =
        block_on-Sound limit (wake_custom current) (drop_future current) (poll_future current) users
          (drop_root current) (poll_root current) user fuel env x runtime.executor drops sound
          ended in
      (
        left,
        refl,
        sound',
        subst
            (λ c.
              (blocked_on later_fuel env' y runtime' c).0
              ≡ (on_executor later_fuel env' y runtime' current).0)
            (sym left) refl,
        λ p e.
            block_on-unbroken limit (wake_custom current) (drop_future current)
              (poll_future current) users (drop_root current) (poll_root current) user later_fuel
              env' y runtime'.executor sound' p
              (subst (λ c. (blocked_on later_fuel env' y runtime' c).0 ≡ panicked p) left e),
      )
