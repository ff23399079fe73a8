-- ===== src/Tests/Again.antt =====
-- A runtime whose `block_on` is called twice; the first leaves a task that was spawned.
use asyncr.Prelude.{ℕ, ◌≡◌, refl, inl, false, [], none, Option, some, Panic, Outcome, Poll}
use asyncr.Shared.{Waker, spawn, wake}
use asyncr.Executor
use asyncr.Executor.Usage.{Sound, stays}
use asyncr.Executor.Passes.{is_broken}
use asyncr.Executor.Run.{panicked, returned}
use asyncr.Runtime.{Runtime, block_on, driven}
use asyncr.Runtime.Again.{block_on_again}
use asyncr.Tests.Sounding.{Common, ignore, at_once, users, with_child, with_child-Sound}
use asyncr.Tests.Returning.{counting, counting_user}

abbrev runtime : Runtime ℕ ℕ ℕ
runtime = record { executor = with_child; handle = 3 }

abbrev ignored : Option ℕ → ℕ → Common → Common
ignored context = ignore

abbrev polled : Option ℕ → Waker → ℕ → Common → Outcome (Poll ℕ) × ℕ × Common
polled context = at_once

abbrev counted : Option ℕ → Waker → ℕ × Common → Outcome (Poll ℕ) × (ℕ × Common)
counted context = counting

first_run :
    (block_on 1_000 ignored ignored polled ignored counted 20 [] 2 runtime none).0 ≡ returned 7
unfolding Executor.with_clock block_on spawn wake
first_run = refl

block_on_again_example :
    let (run, env, runtime', context) =
      block_on 1_000 ignored ignored polled ignored counted 20 [] 2 runtime none in
    let again =
      (block_on 1_000 ignored ignored polled ignored counted 9 env 4 runtime' context).0 in
    (context ≡ none)
    × (runtime'.handle ≡ 3)
    × (let ex = runtime'.executor in Sound none [] ex.tasks ex.shared.spawns ex.shared.scheduler)
    × (again ≡ (driven 1_000 ignored ignored polled ignored counted 9 env 4 runtime' (some 3)).0)
    × ((p : Panic) → again ≡ panicked p → is_broken p ≡ false)
block_on_again_example =
    block_on_again 1_000 ignored ignored polled ignored counted runtime 20 9 [] 2 4 users
      counting_user (λ z s. stays) with_child-Sound (inl (7, first_run))
