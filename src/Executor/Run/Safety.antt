-- ===== src/Executor/Run/Safety.antt =====
-- The blocking receive and `next_ready_id` of src/executor.rs, round by round.
use asyncr.Prelude.{
  ℕ, zero, suc, ◌-◌, ◌≡◌, refl, subst, inl, inr, true, List, [], ◌∷◌, Option, none, some, Outcome,
  ok, panic, Poll, leb, Bool-cases,
}
use asyncr.Prelude.Map.{Map}
use asyncr.Shared.{Waker, LocalTask, SpawnState, Shared, request_schedule}
use asyncr.Executor.{Executor, pass, Pass, received, jumped, must_wait}
use asyncr.Executor.Usage.{Sound, Sound-request}
use asyncr.Executor.Polling.{Users}
use asyncr.Executor.Passes.{is_inner, Sound-take, Passed, pass-Passed}
use asyncr.Executor.Run.{
  Arrival, Received, got, timed_out, never, Run, returned, panicked, passes, wakes_by, take_ready,
  receive, next_ready_id,
}

module _ {F V : Type 0} (limit : ℕ) (wake_custom : ℕ → Shared F V → Shared F V)
    (drop_future : F → Shared F V → Shared F V)
    (poll_future : Waker → F → Shared F V → Outcome (Poll V) × F × Shared F V)
    (users : Users wake_custom drop_future poll_future) (root : Option ℕ) where
  -- The state after a blocking receive: the id it gave is in hand.
  abbrev Got : Map (LocalTask F) → SpawnState F → Received × List Arrival × Shared F V → Type 0
  Got tasks spawns (got id, env, s) =
      (s.spawns ≡ spawns) × Sound root (id ∷ []) tasks spawns s.scheduler
  Got tasks spawns (timed_out, env, s) =
      (s.spawns ≡ spawns) × Sound root [] tasks spawns s.scheduler
  Got tasks spawns (never, env, s) = Unit

  wakes_by-Sound :
      (rs : List ℕ) (tasks : Map (LocalTask F)) (s : Shared F V)
      → Sound root [] tasks s.spawns s.scheduler
      → (let after = wakes_by limit wake_custom drop_future poll_future rs s in
          (after.spawns ≡ s.spawns) × Sound root [] tasks s.spawns after.scheduler)
  unfolding wakes_by request_schedule
  wakes_by-Sound [] tasks s i = (refl, i)
  wakes_by-Sound (r ∷ rs) tasks s i =
      wakes_by-Sound rs tasks (request_schedule wake_custom drop_future r s) (Sound-request r i)

  taken :
      (ids : List ℕ) (tasks : Map (LocalTask F)) (spawns : SpawnState F) (s : Shared F V)
      (env : List Arrival) (rest : Received × List Arrival × Shared F V)
      → s.scheduler.ready ≡ ids
      → s.spawns ≡ spawns
      → Sound root [] tasks spawns s.scheduler
      → Got tasks spawns rest
      → Got tasks spawns (
          take_ready limit wake_custom drop_future poll_future ids s
            (λ id t. (got id, env, t))
            rest)
  taken [] tasks spawns s env rest e f i g = g
  taken (id ∷ ids) tasks spawns s env rest e f i g = (f, Sound-take s.scheduler id ids e i)

  receive-Got :
      (timeout : Option ℕ) (env : List Arrival) (tasks : Map (LocalTask F)) (s : Shared F V)
      → Sound root [] tasks s.spawns s.scheduler
      → Got tasks s.spawns (receive limit wake_custom drop_future poll_future timeout env s)
  unfolding receive
  receive-Got none [] tasks s i = tt
  receive-Got (some t) [] tasks s i = (refl, i)
  receive-Got none (a ∷ env) tasks s i =
      let s' =
        wakes_by limit wake_custom drop_future poll_future a.wakes
          (passes limit wake_custom drop_future poll_future a.elapsed s) in
      let (f, i') =
        wakes_by-Sound a.wakes tasks (passes limit wake_custom drop_future poll_future a.elapsed s)
          i in
      taken s'.scheduler.ready tasks s.spawns s' env
        (receive limit wake_custom drop_future poll_future none env s') refl f i'
        (subst (λ sp. Got tasks sp (receive limit wake_custom drop_future poll_future none env s'))
          f (receive-Got none env tasks s' (rw f i')))
  receive-Got (some t) (a ∷ env) tasks s i =
      let s' =
        wakes_by limit wake_custom drop_future poll_future a.wakes
          (passes limit wake_custom drop_future poll_future a.elapsed s) in
      let (f, i') =
        wakes_by-Sound a.wakes tasks (passes limit wake_custom drop_future poll_future a.elapsed s)
          i in
      let left : Option ℕ = some (t - a.elapsed) in
      elim (Bool-cases (leb t a.elapsed)) [
        | inl e ↦ rw e (refl, i)
        | inr e ↦ rw e (
            taken s'.scheduler.ready tasks s.spawns s' env
              (receive limit wake_custom drop_future poll_future left env s') refl f i'
              (subst
                (λ sp. Got tasks sp (receive limit wake_custom drop_future poll_future left env s'))
                f (receive-Got left env tasks s' (rw f i'))))
      ]

  -- An id that the loop returns is in hand, with no spawn pending.
  abbrev pub Found : Run ℕ × List Arrival × Executor F V → Type 0
  Found (returned id, env, ex) =
      (ex.shared.spawns.pending_spawns ≡ [])
      × Sound root (id ∷ []) ex.tasks ex.shared.spawns ex.shared.scheduler
  Found (panicked p, env, ex) = is_inner p ≡ true
  Found (_, env, ex) = Unit

  -- The loop from here on, as far as the fuel of the next round goes.
  abbrev Onward : ℕ → Type 0
  Onward fuel =
      (env : List Arrival) (ex : Executor F V)
      → Sound root [] ex.tasks ex.shared.spawns ex.shared.scheduler
      → Found (next_ready_id limit wake_custom drop_future poll_future fuel env ex)

  module _ (fuel : ℕ) (onward : Onward fuel) (env : List Arrival) (ex : Executor F V) where
    abbrev passed : Outcome Pass × Executor F V
    passed = pass limit wake_custom drop_future poll_future ex

    abbrev heard : Option ℕ → Received × List Arrival × Shared F V
    heard timeout = receive limit wake_custom drop_future poll_future timeout env passed.1.shared

    receive_round :
        (timeout : Option ℕ) (answer : Received)
        → passed.0 ≡ ok (must_wait timeout)
        → passed.1.shared.spawns.pending_spawns ≡ []
        → (heard timeout).0 ≡ answer
        → Got passed.1.tasks passed.1.shared.spawns (answer, (heard timeout).1, (heard timeout).2)
        → Found (next_ready_id limit wake_custom drop_future poll_future (suc fuel) env ex)
    unfolding next_ready_id
    receive_round timeout (got id) e d h (f, i) = rw (next_ready_id, e, h) (rw f d, rw f i)
    receive_round timeout timed_out e d h (f, i) =
        rw (next_ready_id, e, h)
          (onward (heard timeout).1
            (let ex' = passed.1 in record ex' { shared = (heard timeout).2 }) (rw f i))
    receive_round timeout never e d h g = rw (next_ready_id, e, h) tt

    pass_round :
        (answer : Outcome Pass)
        → passed.0 ≡ answer
        → Passed limit wake_custom drop_future poll_future users root (answer, passed.1)
        → Found (next_ready_id limit wake_custom drop_future poll_future (suc fuel) env ex)
    unfolding next_ready_id
    pass_round (panic p) e q = rw (next_ready_id, e) q
    pass_round (ok (received id)) e q = rw (next_ready_id, e) q
    pass_round (ok jumped) e q = rw (next_ready_id, e) (onward env passed.1 q.1)
    pass_round (ok (must_wait timeout)) e q =
        receive_round timeout (heard timeout).0 e q.0 refl
          (receive-Got timeout env passed.1.tasks passed.1.shared q.1)

  pub next_ready_id-Found : (fuel : ℕ) → Onward fuel
  unfolding next_ready_id
  next_ready_id-Found zero env ex i = tt
  next_ready_id-Found (suc fuel) env ex i =
      pass_round fuel (next_ready_id-Found fuel) env ex
        (pass limit wake_custom drop_future poll_future ex).0 refl
        (pass-Passed limit wake_custom drop_future poll_future users root ex i)
