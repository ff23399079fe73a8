-- ===== src/Schedule/Store/Standing.antt =====
-- A schedule of the store of src/scheduling/mod.rs in a state that wakes keep, as others are woken and
-- made.
use asyncr.Prelude.{
  ℕ, ◌≡◌, refl, sym, subst, inl, inr, true, some, arith, get_elem?, set, get_elem?-set_self,
  get_elem?-set_ne, get_elem?-append, ==_cases, Option-cases, Bool-cases,
}
use asyncr.Schedule.State.{
  ScheduleState, idle, running, ScheduleAction, enqueue, no_action, completed, wake,
}
use asyncr.Schedule.Race.{is_running}
use asyncr.Schedule.{TaskSchedule, Scheduler, send, apply_action, new, request_schedule}

-- The schedule `r`, whose id is `id`, is in a state that `At` holds of.
abbrev pub StandsAt : (ScheduleState → Type 0) → ℕ → ℕ → Scheduler → Type 0
StandsAt At r id s =
    (t : TaskSchedule) × (get_elem? s.schedules r ≡ some t) × (t.id ≡ id) × At t.state

abbrev pub Running : ScheduleState → Type 0
Running st = is_running st ≡ true

-- It is being polled.
abbrev pub RunsAt : ℕ → ℕ → Scheduler → Type 0
RunsAt = StandsAt Running

-- It was woken during its poll.
abbrev pub Notified : ScheduleState → Type 0
Notified st = st ≡ running true

pub wake-Running : (st : ScheduleState) → Running st → Running (wake st).0
unfolding wake
wake-Running st h = ground arith

pub wake-Notified : (st : ScheduleState) → Running st → Notified (wake st).0
unfolding wake
wake-Notified st h = ground arith

pub Notified-Running : (st : ScheduleState) → Notified st → Running st
Notified-Running st h = ground arith

apply_action-schedules :
    (s : Scheduler) (r : ℕ) (t : TaskSchedule) (st : ScheduleState) (action : ScheduleAction)
    → (apply_action r t (st, action) s).schedules ≡ set s.schedules r (record t { state = st })
unfolding apply_action send
apply_action-schedules s r t st enqueue = elim (Bool-cases s.open_rx) [
  | inl e ↦ rw e refl
  | inr e ↦ rw e refl
]
apply_action-schedules s r t st no_action = refl
apply_action-schedules s r t st completed = refl

module _ (At At' : ScheduleState → Type 0)
    (moves : (st : ScheduleState) → At st → At' (wake st).0) where
  -- A wake of the schedule itself.
  pub request_schedule_self :
      (r id : ℕ) (s : Scheduler) → StandsAt At r id s → StandsAt At' r id (request_schedule r s)
  unfolding request_schedule
  request_schedule_self r id s (t, at, named, h) =
      let t' = record t { state = (wake t.state).0 } in
      rw (request_schedule, at, apply_action-schedules s r t (wake t.state).0 (wake t.state).1)
        (t', get_elem?-set_self s.schedules r t' at, named, moves t.state h)

module _ (At : ScheduleState → Type 0) (wakes : (st : ScheduleState) → At st → At (wake st).0) where
  -- A wake of any task, the one at `r` included.
  pub request_schedule-StandsAt :
      (q r id : ℕ) (s : Scheduler) → StandsAt At r id s → StandsAt At r id (request_schedule q s)
  unfolding request_schedule
  request_schedule-StandsAt q r id s (t, at, named, runs) =
      elim (Option-cases (get_elem? s.schedules q)) [
        | inl e ↦ rw (e, request_schedule) (t, at, named, runs)
        | inr (u, e) ↦
            rw (e, request_schedule, apply_action-schedules s q u (wake u.state).0 (wake u.state).1)
              (woken u e)
      ]
    where
      woken :
          (u : TaskSchedule)
          → get_elem? s.schedules q ≡ some u
          → (v : TaskSchedule) × (get_elem?
                (set s.schedules q (record u { state = (wake u.state).0 }))
                r
              ≡ some v)
            × (v.id ≡ id)
            × (At v.state)
      woken u e = elim (==_cases q r) [
        | inl f ↦
            let u' = record u { state = (wake u.state).0 } in
            let same : u ≡ t = cc in
            (
              u',
              subst (λ p. get_elem? (set s.schedules q u') p ≡ some u') f
                  (get_elem?-set_self s.schedules q u' e),
              subst (λ x. x.id ≡ id) (sym same) named,
              wakes u.state (subst (λ x. At x.state) (sym same) runs),
            )
        | inr f ↦ (
          t,
          rw
              (get_elem?-set_ne s.schedules q r (record u { state = (wake u.state).0 })
                (λ g. ground (arith, f, g)))
              at,
          named,
          runs,
        )
      ]

  pub new-StandsAt :
      (i r id : ℕ) (s : Scheduler) → StandsAt At r id s → StandsAt At r id (new i s).1
  unfolding new
  new-StandsAt i r id s (t, at, named, runs) =
      (t, get_elem?-append s.schedules r (record { id = i; state = idle }) t at, named, runs)
