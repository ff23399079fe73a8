-- ===== src/Tests/Returning.antt =====
-- Runs of `block_on` with a spawned task and a root that wakes itself until it answers.
use asyncr.Prelude.{
  ℕ, zero, suc, ◌<◌, ◌≤◌, ◌≡◌, refl, ◌⊎◌, inl, inr, false, List, [], none, Outcome, ok, panic,
  Panic, clock_out_of_range, Poll, ready, pending, arith,
}
use asyncr.Shared.{Waker, task, wake, request_schedule, spawn}
use asyncr.Executor
use asyncr.Executor.Usage.{Sound, Uses, stays}
use asyncr.Executor.Polling.{wake-Uses}
use asyncr.Executor.Passes.{is_broken}
use asyncr.Executor.Run.{Arrival, block_on, returned, panicked}
use asyncr.Executor.Run.Root.{RootUser}
use asyncr.Executor.Run.Unbroken.{block_on-Sound}
use asyncr.Executor.Run.Awake.{Awake}
use asyncr.Executor.Run.Returns.{block_on-returns}
use asyncr.Tests.Sounding.{
  Common, ignore, at_once, users, with_child, with_child-Sound, with_child-IsIntact,
}

-- The root answers once it has been polled `n` times more.
abbrev pub counting : Waker → ℕ × Common → Outcome (Poll ℕ) × (ℕ × Common)
counting w (zero, s) = (ok (ready 7), (zero, s))
counting w (suc n, s) = (ok pending, (n, wake ignore ignore w s))

counting-polls : (w : Waker) (x : ℕ) (s : Common) → Uses ignore ignore s (counting w (x, s)).1.1
counting-polls w zero s = stays
counting-polls w (suc n) s = wake-Uses ignore ignore at_once users w s

counting-panics :
    (w : Waker) (x : ℕ) (s : Common) (p : Panic)
    → (counting w (x, s)).0 ≡ panic p
    → is_broken p ≡ false
counting-panics w zero s p e = cc
counting-panics w (suc n) s p e = cc

pub counting_user : RootUser ignore ignore counting
counting_user = record { polls = counting-polls; panics = counting-panics }

counting-answers :
    (r x : ℕ) (s : Common)
    → (let (answer, (x', s')) = counting (task r) (x, s) in
        ((a : ℕ) × (answer ≡ ok (ready a)))
        ⊎ ((answer ≡ ok pending)
            × (x' < x)
            × (between : Common) × Uses ignore ignore s between
            × Uses ignore ignore (request_schedule ignore ignore r between) s'))
unfolding wake
counting-answers r zero s = inl (7, refl)
counting-answers r (suc n) s = inr (refl, omega arith, s, stays, stays)

counting-Awake : Awake ignore ignore counting (λ x. x)
counting-Awake = record { answers = counting-answers }

block_on-returns_example :
    (enough : ℕ) × ((fuel : ℕ) (env : List Arrival)
      → enough ≤ fuel
      → (let run =
            (block_on 1_000 ignore ignore at_once ignore counting (suc fuel) env 2 with_child).0 in
          ((a : ℕ) × (run ≡ returned a)) ⊎ (run ≡ panicked clock_out_of_range)))
block_on-returns_example =
    block_on-returns 1_000 ignore ignore at_once users ignore counting counting_user (λ x. x)
      counting-Awake 2 with_child with_child-Sound with_child-IsIntact

counting_run :
    (block_on 1_000 ignore ignore at_once ignore counting 20 [] 2 with_child).0 ≡ returned 7
unfolding Executor.with_clock block_on spawn wake
counting_run = refl

block_on-Sound_example :
    (let (run, env, ex) = block_on 1_000 ignore ignore at_once ignore counting 20 [] 2 with_child in
      Sound none [] ex.tasks ex.shared.spawns ex.shared.scheduler)
block_on-Sound_example =
    block_on-Sound 1_000 ignore ignore at_once users ignore counting counting_user 20 [] 2
      with_child (λ y s. stays) with_child-Sound (inl (7, counting_run))
