-- ===== src/Executor/Run/Unbroken.antt =====
-- The panics of `block_on` in src/executor.rs, round by round, and what it leaves when it returns.
use asyncr.Prelude.{
  ℕ, zero, suc, ◌≡◌, refl, subst, ◌⊎◌, inl, inr, true, false, List, [], ◌∷◌, none, some, Outcome,
  ok, panic, Panic, Poll, ready, pending, arith, ◌==◌, Bool-cases, ==_iff,
}
use asyncr.Schedule
use asyncr.Schedule.{Scheduler, begin, finish, after_poll}
use asyncr.Shared.{Waker, task, Shared, root_task_id, request_schedule}
use asyncr.Executor.{Executor, in_poll, poll_task}
use asyncr.Executor.Usage.{Sound, Sound-request, Uses}
use asyncr.Executor.Polling.{Users, Uses-Sound}
use asyncr.Executor.Passes.{is_broken, is_inner, is_inner-is_broken}
use asyncr.Executor.Safety.{Settled, poll_task-Settled}
use asyncr.Executor.Run.{
  Arrival, Run, returned, panicked, blocked, unfinished, next_ready_id, drive, block_on,
  release_root,
}
use asyncr.Executor.Run.Safety.{Found, next_ready_id-Found}
use asyncr.Executor.Run.Root.{RootUser, Rooted, Sound-root, rooted, root-Rooted}

module _ {A : Type 0} where
  -- The run answered, or its root panicked.
  abbrev pub OfRoot : Run A → Type 0
  OfRoot run =
      ((a : A) × (run ≡ returned a)) ⊎ ((p : Panic) × (run ≡ panicked p) × (is_inner p ≡ false))

module _ {F V A : Type 0} where
  -- How a run ends: in a panic of the clock or of a join pair, in one of the root, or with an answer.
  abbrev pub Ended : Run A → Executor F V → Type 0
  Ended (panicked p) ex =
      (is_inner p ≡ true)
      ⊎ ((is_broken p ≡ false) × Sound none [] ex.tasks ex.shared.spawns ex.shared.scheduler)
  Ended (returned a) ex = Sound none [] ex.tasks ex.shared.spawns ex.shared.scheduler
  Ended _ ex = Unit

module _ {F V R A : Type 0} (limit : ℕ) (wake_custom : ℕ → Shared F V → Shared F V)
    (drop_future : F → Shared F V → Shared F V)
    (poll_future : Waker → F → Shared F V → Outcome (Poll V) × F × Shared F V)
    (users : Users wake_custom drop_future poll_future) (drop_root : R → Shared F V → Shared F V)
    (poll_root : Waker → R × Shared F V → Outcome (Poll A) × (R × Shared F V))
    (user : RootUser wake_custom drop_future poll_root) where
  abbrev Onward : ℕ → ℕ → Type 0
  Onward fuel r =
      (env : List Arrival) (x : R) (ex : Executor F V)
      → Sound (some r) [] ex.tasks ex.shared.spawns ex.shared.scheduler
      → (let (run, env', x', ex') =
            drive limit wake_custom drop_future poll_future drop_root poll_root fuel r env x ex in
          Ended run ex')

  -- One round of the loop.
  module _ (fuel r : ℕ) (onward : Onward fuel r) (env : List Arrival) (x : R)
      (ex : Executor F V) where
    abbrev found : Run ℕ × List Arrival × Executor F V
    found = next_ready_id limit wake_custom drop_future poll_future fuel env ex

    abbrev from_root : Outcome (Poll A) × (R × Shared F V)
    from_root = Schedule.poll in_poll r (poll_root (task r)) (x, found.2.shared)

    abbrev from_task : ℕ → Outcome (Unit {0}) × Executor F V
    from_task id = poll_task limit wake_custom drop_future poll_future id found.2

    abbrev Goal : Type 0
    Goal =
        (let (run, env', x', ex') =
            drive limit wake_custom drop_future poll_future drop_root poll_root (suc fuel) r env x
              ex in
          Ended run ex')

    after_root :
        (id : ℕ) (answer : Outcome (Poll A))
        → found.0 ≡ returned id
        → (id == root_task_id) ≡ true
        → from_root.0 ≡ answer
        → Rooted r found.2.tasks (answer, from_root.1)
        → Goal
    unfolding drive
    after_root id (panic p) e f h q = rw (drive, e, f, h) (inr q)
    after_root id (ok (ready a)) e f h q = rw (drive, e, f, h) q
    after_root id (ok pending) e f h q =
        rw (drive, e, f, h)
          (onward found.1 from_root.1.0 (let ex' = found.2 in record ex' { shared = from_root.1.1 })
            q)

    after_task :
        (id : ℕ)
        → found.0 ≡ returned id
        → (id == root_task_id) ≡ false
        → Settled (some r) (from_task id)
        → Goal
    unfolding drive
    after_task id e f (inl h) = rw (drive, e, f, h) (inl refl)
    after_task id e f (inr (h, i)) = rw (drive, e, f, h) (onward found.1 x (from_task id).1 i)

    round :
        (answer : Run ℕ)
        → found.0 ≡ answer
        → Found limit wake_custom drop_future poll_future users (some r) (answer, found.1, found.2)
        → Goal
    unfolding drive
    round (panicked p) e q = rw (drive, e) (inl q)
    round blocked e q = rw (drive, e) tt
    round unfinished e q = rw (drive, e) tt
    round (returned id) e (d, i) = elim (Bool-cases (id == root_task_id)) [
      | inl f ↦ after_root id from_root.0 e f refl (
          root-Rooted wake_custom drop_future poll_root user r x found.2 (
            subst
              (λ k.
                Sound (some r) (k ∷ []) found.2.tasks found.2.shared.spawns
                  found.2.shared.scheduler)
              ((==_iff id root_task_id).0 f) i))
      | inr f ↦ after_task id e f (
          poll_task-Settled (some r) limit wake_custom drop_future poll_future users id found.2 i d
            (λ g. ground (arith, f, g)))
    ]

  pub drive-Ended : (fuel r : ℕ) → Onward fuel r
  unfolding drive
  drive-Ended zero r env x ex i = tt
  drive-Ended (suc fuel) r env x ex i =
      round fuel r (drive-Ended fuel r) env x ex
        (next_ready_id limit wake_custom drop_future poll_future fuel env ex).0 refl
        (next_ready_id-Found limit wake_custom drop_future poll_future users (some r) fuel env ex i)

  rooted-Ended :
      (fuel : ℕ) (env : List Arrival) (x : R) (ex : Executor F V)
      → Sound none [] ex.tasks ex.shared.spawns ex.shared.scheduler
      → (let (r, ex') = rooted wake_custom drop_future ex in
          let (run, env', x', ex'') =
            drive limit wake_custom drop_future poll_future drop_root poll_root fuel r env x ex' in
          Ended run ex'')
  unfolding request_schedule
  rooted-Ended fuel env x ex i =
      let shared = ex.shared in
      let (r, ex') = rooted wake_custom drop_future ex in
      drive-Ended fuel r env x ex'
        (Sound-request r (Sound-root ex.tasks shared.spawns shared.scheduler i))

  unbroken : (p : Panic) (ex : Executor F V) → Ended {A = A} (panicked p) ex → is_broken p ≡ false
  unbroken p ex (inl h) = is_inner-is_broken p h
  unbroken p ex (inr (h, i)) = h

  -- Under any fuel and any arrivals, from an executor whose schedules, ready channel, table and
  -- pending spawns agree (`Sound`, with no root), a run of `block_on` that ends in a panic does not
  -- end in the panics of `begin_poll` and `finish_poll`, nor in that of `poll_task` for a task that
  -- was not admitted. Futures may wake and spawn while ids last, the wakers of user code wake but do
  -- not spawn, and the root does not raise these panics itself.
  pub block_on-unbroken :
      (fuel : ℕ) (env : List Arrival) (x : R) (ex : Executor F V)
      → Sound none [] ex.tasks ex.shared.spawns ex.shared.scheduler
      → (p : Panic)
      → (block_on limit wake_custom drop_future poll_future drop_root poll_root fuel env x ex).0
        ≡ panicked p
      → is_broken p ≡ false
  unfolding block_on
  block_on-unbroken fuel env x ex i p e =
      let (r, ex') = rooted wake_custom drop_future ex in
      let (run, env', x', ex'') =
        drive limit wake_custom drop_future poll_future drop_root poll_root fuel r env x ex' in
      unbroken p ex'' (subst (λ run. Ended run ex'') e (rooted-Ended fuel env x ex i))

  released :
      (run : Run A) (x : R) (ex : Executor F V)
      → ((y : R) (s : Shared F V) → Uses wake_custom drop_future s (drop_root y s))
      → OfRoot run
      → Ended run ex
      → (let ex' =
            release_root limit wake_custom drop_future poll_future drop_root poll_root run x ex in
          Sound none [] ex'.tasks ex'.shared.spawns ex'.shared.scheduler)
  unfolding release_root
  released (returned b) x ex drops e i = Uses-Sound wake_custom drop_future (drops x ex.shared) i
  released (panicked p) x ex drops e (inr (h, i)) =
      Uses-Sound wake_custom drop_future (drops x ex.shared) i
  released (panicked p) x ex drops (inl (a, e)) (inl h) = cc
  released (panicked p) x ex drops (inr (q, e, g)) (inl h) = ground (arith, e, g, h)
  released blocked x ex drops (inl (a, e)) i = cc
  released blocked x ex drops (inr (q, e, g)) i = cc
  released unfinished x ex drops (inl (a, e)) i = cc
  released unfinished x ex drops (inr (q, e, g)) i = cc

  -- A run of `block_on` that returns, or that its root ends by a panic, leaves the executor as sound
  -- as it found it, with no trace of the root: the schedules, the ready channel, the table and the
  -- pending spawns agree again, so that the next `block_on` starts from where `block_on-unbroken`
  -- does, and what was spawned goes on. Futures and the root may wake and spawn while ids last, also
  -- as they are dropped, the wakers of user code wake but do not spawn, and the root does not raise
  -- the panics of a broken schedule itself. A panic is known for the root's when it is none of those
  -- of the clock and of a join pair that are named in `is_inner`.
  pub block_on-Sound :
      (fuel : ℕ) (env : List Arrival) (x : R) (ex : Executor F V)
      → ((y : R) (s : Shared F V) → Uses wake_custom drop_future s (drop_root y s))
      → Sound none [] ex.tasks ex.shared.spawns ex.shared.scheduler
      → OfRoot
          (block_on limit wake_custom drop_future poll_future drop_root poll_root fuel env x ex).0
      → (let (run, env', ex') =
            block_on limit wake_custom drop_future poll_future drop_root poll_root fuel env x ex in
          Sound none [] ex'.tasks ex'.shared.spawns ex'.shared.scheduler)
  unfolding block_on
  block_on-Sound fuel env x ex drops i e =
      let (r, ex') = rooted wake_custom drop_future ex in
      let (run, env', x', ex'') =
        drive limit wake_custom drop_future poll_future drop_root poll_root fuel r env x ex' in
      released run x' ex'' drops e (rooted-Ended fuel env x ex i)
