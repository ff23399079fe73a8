-- ===== src/Executor/Run/Fairness.antt =====
-- The turns that `block_on` of src/executor.rs takes: an id off the channel, and the poll of its task.
use asyncr.Prelude.{
  ℕ, suc, ◌+◌, ◌≡◌, refl, sym, subst, ap, ◌∙◌, ◌⊎◌, false, List, ◌∷◌, some, Outcome, ok, panic,
  clock_out_of_range, Poll, ready, pending, arith, ◌==◌, get_elem?, if◌then◌else◌,
}
use asyncr.Schedule
use asyncr.Shared.{Waker, task, Shared, root_task_id}
use asyncr.Executor.{Executor, in_poll, Pass, received, pass, poll_task}
use asyncr.Executor.Polling.{Users}
use asyncr.Executor.Run.{
  Arrival, Run, returned, panicked, blocked, unfinished, next_ready_id, drive,
}
use asyncr.Executor.Run.Root.{RootUser}
use asyncr.Executor.Run.Front.{pass-Extends, pass_first, get_elem?-Extends}
use asyncr.Executor.Run.Queue.{Extends, Extends-trans, poll-Extends, poll_task-Extends}

module _ {F V : Type 0} (limit : ℕ) (wake_custom : ℕ → Shared F V → Shared F V)
    (drop_future : F → Shared F V → Shared F V)
    (poll_future : Waker → F → Shared F V → Outcome (Poll V) × F × Shared F V) {R A : Type 0}
    (drop_root : R → Shared F V → Shared F V)
    (poll_root : Waker → R × Shared F V → Outcome (Poll A) × (R × Shared F V)) (r : ℕ) where
  abbrev pub passed : Executor F V → Outcome Pass × Executor F V
  passed = pass limit wake_custom drop_future poll_future

  -- One round of `block_on` that goes on: the first pass receives an id, and the poll of its task
  -- does not end the run. `r` is the root's schedule.
  pub data Turn (root : R) (ex : Executor F V) : R → Executor F V → Type 0 where
    of_task :
        (id : ℕ) (taken after : Executor F V)
        → passed ex ≡ (ok (received id), taken)
        → (id == root_task_id) ≡ false
        → poll_task limit wake_custom drop_future poll_future id taken ≡ (ok tt, after)
        → Turn root ex root after
    of_root :
        (taken : Executor F V) (after : R × Shared F V)
        → passed ex ≡ (ok (received root_task_id), taken)
        → Schedule.poll in_poll r (poll_root (task r)) (root, taken.shared) ≡ (ok pending, after)
        → Turn root ex after.0 (record taken { shared = after.1 })

  pub data Turns (root : R) (ex : Executor F V) : ℕ → R → Executor F V → Type 0 where
    done : Turns root ex 0 root ex
    onward :
        {root' root'' : R} {ex' ex'' : Executor F V} {n : ℕ}
        → Turns root ex n root' ex'
        → Turn root' ex' root'' ex''
        → Turns root ex (suc n) root'' ex''

  abbrev pub driven : ℕ → List Arrival → R → Executor F V → Run A × List Arrival × R × Executor F V
  driven fuel env root ex =
      drive limit wake_custom drop_future poll_future drop_root poll_root fuel r env root ex

  pub next_received :
      (fuel id : ℕ) (env : List Arrival) (ex taken : Executor F V)
      → passed ex ≡ (ok (received id), taken)
      → next_ready_id limit wake_custom drop_future poll_future (suc fuel) env ex
        ≡ (returned id, env, taken)
  unfolding next_ready_id
  next_received fuel id env ex taken e =
      let first : (passed ex).0 ≡ ok (received id) = ap (λ p. p.0) e in
      let left : (passed ex).1 ≡ taken = ap (λ p. p.1) e in rw (next_ready_id, first) (rw left refl)

  -- The body of the loop once an id has been received.
  abbrev pub round :
      ℕ → R → Run ℕ × List Arrival × Executor F V → Run A × List Arrival × R × Executor F V
  round fuel root (next, env, ex) = elim next [
    | panicked p ↦ (panicked p, env, root, ex)
    | blocked ↦ (blocked, env, root, ex)
    | unfinished ↦ (unfinished, env, root, ex)
    | returned id ↦
        let (answer, after) = Schedule.poll in_poll r (poll_root (task r)) (root, ex.shared) in
        let ex' = record ex { shared = after.1 } in
        let (polled, ex'') = poll_task limit wake_custom drop_future poll_future id ex in
        let of_root : Run A × List Arrival × R × Executor F V = elim answer [
          | panic p ↦ (panicked p, env, after.0, ex')
          | ok (ready output) ↦ (returned output, env, after.0, ex')
          | ok pending ↦ driven fuel env after.0 ex'
        ] in
        let of_task : Run A × List Arrival × R × Executor F V = elim polled [
          | panic p ↦ (panicked p, env, root, ex'')
          | ok _ ↦ driven fuel env root ex''
        ] in
        if id == root_task_id then of_root else of_task
  ]

  pub drive-round :
      (fuel : ℕ) (env : List Arrival) (root : R) (ex : Executor F V)
      → driven (suc fuel) env root ex
        ≡ round fuel root (next_ready_id limit wake_custom drop_future poll_future fuel env ex)
  unfolding drive
  drive-round fuel env root ex = refl

  pub drive-Turn :
      (fuel : ℕ) (env : List Arrival) {root root' : R} {ex ex' : Executor F V}
      → Turn root ex root' ex'
      → driven (suc (suc fuel)) env root ex ≡ driven (suc fuel) env root' ex'
  drive-Turn fuel env {root = root} {ex = ex} (of_task id taken after e n p) =
      drive-round (suc fuel) env root ex
      ∙ ap (round (suc fuel) root) (next_received fuel id env ex taken e)
      ∙ rest
    where
      polled : (poll_task limit wake_custom drop_future poll_future id taken).0 ≡ ok tt
      polled = ap (λ x. x.0) p

      settled : (poll_task limit wake_custom drop_future poll_future id taken).1 ≡ after
      settled = ap (λ x. x.1) p

      rest : round (suc fuel) root (returned id, env, taken) ≡ driven (suc fuel) env root after
      rest = rw n (rw polled (rw settled refl))
  drive-Turn fuel env {root = root} {ex = ex} (of_root taken after e p) =
      drive-round (suc fuel) env root ex
      ∙ ap (round (suc fuel) root) (next_received fuel root_task_id env ex taken e)
      ∙ rest
    where
      root_poll : Outcome (Poll A) × (R × Shared F V)
      root_poll = Schedule.poll in_poll r (poll_root (task r)) (root, taken.shared)

      polled : root_poll.0 ≡ ok pending
      polled = ap (λ x. x.0) p

      settled : root_poll.1 ≡ after
      settled = ap (λ x. x.1) p

      rest :
          round (suc fuel) root (returned root_task_id, env, taken)
          ≡ driven (suc fuel) env after.0 (record taken { shared = after.1 })
      rest = rw polled (rw settled refl)

  module _ (users : Users wake_custom drop_future poll_future)
      (root_user : RootUser wake_custom drop_future poll_root) where
    Turn_taken :
        (ex taken : Executor F V) (id : ℕ) (after : List ℕ)
        → passed ex ≡ (ok (received id), taken)
        → Extends taken.shared.scheduler.ready after
        → Extends ex.shared.scheduler.ready (id ∷ after)
    Turn_taken ex taken id after e (more, f) =
        let left : (passed ex).1 ≡ taken = ap (λ x. x.1) e in
        Extends-trans ex.shared.scheduler.ready (id ∷ taken.shared.scheduler.ready) (id ∷ after)
          (rw (sym left)
            (pass-Extends limit wake_custom drop_future poll_future users ex id (ap (λ x. x.0) e)))
          (more, ap (◌∷◌ id) f)

    -- A turn takes one id off the channel, and puts new ones behind those that stand in it.
    Turn-Extends :
        {root root' : R} {ex ex' : Executor F V}
        → Turn root ex root' ex'
        → (id : ℕ) × Extends ex.shared.scheduler.ready (id ∷ ex'.shared.scheduler.ready)
    Turn-Extends {ex = ex} (of_task id taken after e n p) =
        let grown = poll_task-Extends wake_custom drop_future limit poll_future users id taken in
        let settled : (poll_task limit wake_custom drop_future poll_future id taken).1 ≡ after =
          ap (λ x. x.1) p in
        (id, Turn_taken ex taken id after.shared.scheduler.ready e (rw (sym settled) grown))
    Turn-Extends {root = root} {ex = ex} (of_root taken after e p) =
        let grown =
          poll-Extends wake_custom drop_future (poll_root (task r))
            (λ x s. root_user.polls (task r) x s) r root taken.shared in
        let settled : (Schedule.poll in_poll r (poll_root (task r)) (root, taken.shared)).1.1
            ≡ after.1 =
          ap (λ x. x.1.1) p in
        (
          root_task_id,
          Turn_taken ex taken root_task_id after.1.scheduler.ready e (rw (sym settled) grown),
        )

    -- Each turn brings what stands behind in the channel one place forward.
    pub Turns-get_elem? :
        {root : R} {ex : Executor F V} {root' : R} {ex' : Executor F V} {n : ℕ} (k i id : ℕ)
        → Turns root ex n root' ex'
        → i ≡ n + k
        → get_elem? ex.shared.scheduler.ready i ≡ some id
        → get_elem? ex'.shared.scheduler.ready k ≡ some id
    Turns-get_elem? {ex = ex} k i id done same e =
        subst (λ j. get_elem? ex.shared.scheduler.ready j ≡ some id) (omega (arith, same)) e
    Turns-get_elem? k i id (onward {ex' = middle} {ex'' = last} turns turn) same e =
        let (first, grown) = Turn-Extends turn in
        get_elem?-Extends middle.shared.scheduler.ready (first ∷ last.shared.scheduler.ready)
          (suc k) id grown (Turns-get_elem? (suc k) i id turns (omega (arith, same)) e)

    drive-Turns :
        {root : R} {ex : Executor F V} {root' : R} {ex' : Executor F V} {n : ℕ} (fuel more : ℕ)
        (env : List Arrival)
        → Turns root ex n root' ex'
        → more ≡ n + suc fuel
        → driven more env root ex ≡ driven (suc fuel) env root' ex'
    drive-Turns {root = root} {ex = ex} fuel more env done same =
        ap (λ m. driven m env root ex) (omega (arith, same))
    drive-Turns fuel more env (onward turns turn) same =
        drive-Turns (suc fuel) more env turns (omega (arith, same)) ∙ drive-Turn fuel env turn

    -- Nobody overtakes in the ready channel: a task whose id stands at place `i` is the one that
    -- `block_on` polls once it has taken `i` turns, however many tasks are woken and spawned in the
    -- meantime, unless the clock runs past its limit. The run of `block_on` is then at that turn. User
    -- code uses the executor by wakes, spawns and handles.
    pub drive-fair :
        (fuel i id : ℕ) (env : List Arrival) (root root' : R) (ex ex' : Executor F V)
        → get_elem? ex.shared.scheduler.ready i ≡ some id
        → Turns root ex i root' ex'
        → (driven (i + suc fuel) env root ex ≡ driven (suc fuel) env root' ex')
          × (((passed ex').0 ≡ ok (received id)) ⊎ ((passed ex').0 ≡ panic clock_out_of_range))
    drive-fair fuel i id env root root' ex ex' at turns = (
      drive-Turns fuel (i + suc fuel) env turns refl,
      pass_first limit wake_custom drop_future poll_future users ex' id
          (Turns-get_elem? 0 i id turns (omega arith) at),
    )
