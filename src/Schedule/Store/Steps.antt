-- ===== src/Schedule/Store/Steps.antt =====
-- The operations of src/scheduling/mod.rs on a consistent store.
use asyncr.Prelude.{
  get_elem?-set_cases, ℕ, ◌+◌, ◌<◌, ◌≡◌, refl, sym, subst, inl, inr, true, false, List, [], ◌∷◌,
  ◌++◌, Option, some, ok, Poll, ready, pending, arith, get_elem?, set, get_elem?-set_self,
  occurrences, occurrences-append, Option-cases, Bool-cases,
}
use asyncr.Schedule.State.{
  ScheduleState, idle, queued, running, complete, ScheduleAction, enqueue, no_action, completed,
  wake, begin_poll, finish_poll,
}
use asyncr.Schedule.Race.{entries, sends, is_running}
use asyncr.Schedule.{TaskSchedule, Scheduler, send, apply_action, request_schedule, begin, finish}
use asyncr.Schedule.Store.Standing.{RunsAt}
use asyncr.Schedule.Store.{
  is_live, share, Consistent, waiting-set, get_elem?-set_id, waiting-Queued,
}

send-open :
    (id : ℕ) (s : Scheduler)
    → s.open_rx ≡ true
    → send id s ≡ record s { ready = s.ready ++ id ∷ [] }
unfolding send
send-open id s e = rw e refl

wake-is_live : (st : ScheduleState) → is_live (wake st).0 ≡ true → is_live st ≡ true
unfolding wake
wake-is_live st = ground arith

wake-entries : (st : ScheduleState) → entries st + sends (wake st).1 ≡ entries (wake st).0
unfolding wake
wake-entries st = ground arith

-- A poll that is done leaves its schedule complete.
abbrev pub Final : {A : Type 0} → Poll A → ScheduleState → Type 0
Final (ready _) st = is_live st ≡ false
Final pending st = Unit

finish_poll-running :
    {A : Type 0} (st : ScheduleState) (result : Poll A)
    → is_running st ≡ true
    → (p : ScheduleState × ScheduleAction) × (finish_poll st result ≡ ok p)
      × (entries st + sends p.1 ≡ entries p.0)
      × Final result p.0
unfolding finish_poll
finish_poll-running (running _) (ready a) h = ((complete, completed), refl, refl, refl)
finish_poll-running (running false) pending h = ((idle, no_action), refl, refl, tt)
finish_poll-running (running true) pending h = ((queued, enqueue), refl, refl, tt)
finish_poll-running idle result h = cc
finish_poll-running queued result h = cc
finish_poll-running complete result h = cc

apply_action-at :
    (s : Scheduler) (r : ℕ) (t : TaskSchedule) (st : ScheduleState) (action : ScheduleAction)
    → get_elem? s.schedules r ≡ some t
    → get_elem? (apply_action r t (st, action) s).schedules r ≡ some (record t { state = st })
unfolding apply_action send
apply_action-at s r t st enqueue at = elim (Bool-cases s.open_rx) [
  | inl e ↦ rw (e, get_elem?-set_self s.schedules r (record t { state = st }) at) refl
  | inr e ↦ rw (e, get_elem?-set_self s.schedules r (record t { state = st }) at) refl
]
apply_action-at s r t st no_action at =
    get_elem?-set_self s.schedules r (record t { state = st }) at
apply_action-at s r t st completed at =
    get_elem?-set_self s.schedules r (record t { state = st }) at

module _ {owner : ℕ → Option ℕ} {next : ℕ} where
  Consistent-set :
      {hand hand' : List ℕ} (ids : List ℕ) (s : Scheduler) (r : ℕ) (t : TaskSchedule)
      (st : ScheduleState)
      → Consistent owner hand next s
      → get_elem? s.schedules r ≡ some t
      → (is_live st ≡ true → owner t.id ≡ some r)
      → ((id : ℕ)
          → occurrences hand' id + occurrences ids id + share t id
            ≡ occurrences hand id + occurrences s.ready id + share (record t { state = st }) id)
      → Consistent owner hand' next
          (record s { schedules = set s.schedules r (record t { state = st }); ready = ids })
  Consistent-set ids s r t st c at live balance =
      let u = record t { state = st } in
      record {
        opened = c.opened;
        owned = λ j v k l. elim (get_elem?-set_cases s.schedules r j t u v at k) [
          | inl (e, f) ↦
              subst (λ x. owner x.id ≡ some j) (sym f)
                (subst (λ q. owner t.id ≡ some q) (sym e)
                  (live (subst (λ x. is_live x.state ≡ true) f l)))
          | inr e ↦ c.owned j v e l
        ];
        held = λ id q o.
            let (v, k, e) = c.held id q o in
            let (w, k', e') = get_elem?-set_id s.schedules r q t u v at refl k in (w, k', cc);
        counted =
            λ id. omega (arith, balance id, waiting-set s.schedules r t u id at, c.counted id);
        fresh = λ j v k. elim (get_elem?-set_cases s.schedules r j t u v at k) [
          | inl (e, f) ↦ subst (λ x. x.id < next) (sym f) (c.fresh r t at)
          | inr e ↦ c.fresh j v e
        ];
      }

  apply_action-Consistent :
      {hand : List ℕ} (s : Scheduler) (r : ℕ) (t : TaskSchedule) (st : ScheduleState)
      (action : ScheduleAction)
      → Consistent owner hand next s
      → get_elem? s.schedules r ≡ some t
      → (is_live st ≡ true → owner t.id ≡ some r)
      → entries t.state + sends action ≡ entries st
      → Consistent owner hand next (apply_action r t (st, action) s)
  unfolding apply_action
  apply_action-Consistent s r t st enqueue c at live e =
      rw
        (send-open t.id (record s { schedules = set s.schedules r (record t { state = st }) })
          c.opened)
        (Consistent-set (s.ready ++ t.id ∷ []) s r t st c at live
          (λ id. ground (arith, e, occurrences-append s.ready (t.id ∷ []) id)))
  apply_action-Consistent s r t st no_action c at live e =
      Consistent-set s.ready s r t st c at live (λ id. ground (arith, e))
  apply_action-Consistent s r t st completed c at live e =
      Consistent-set s.ready s r t st c at live (λ id. ground (arith, e))

  pub request_schedule-Consistent :
      {hand : List ℕ} (s : Scheduler) (r : ℕ)
      → Consistent owner hand next s
      → Consistent owner hand next (request_schedule r s)
  unfolding request_schedule
  request_schedule-Consistent s r c = elim (Option-cases (get_elem? s.schedules r)) [
    | inl e ↦ rw (e, request_schedule) c
    | inr (t, e) ↦
        rw (e, request_schedule)
          (apply_action-Consistent s r t (wake t.state).0 (wake t.state).1 c e
            (λ l. c.owned r t e (wake-is_live t.state l)) (wake-entries t.state))
  ]

  begin-queued :
      {hand : List ℕ} (id r : ℕ) (t : TaskSchedule) (s : Scheduler)
      → Consistent owner (id ∷ hand) next s
      → get_elem? s.schedules r ≡ some t
      → t.id ≡ id
      → t.state ≡ queued
      → (u : Scheduler) × (begin r s ≡ ok u) × Consistent owner hand next u × RunsAt r id u
  unfolding begin begin_poll
  begin-queued id r t s c at named is =
      let u = record t { state = running false } in
      (
        record s { schedules = set s.schedules r u },
        rw (at, begin, is) refl,
        Consistent-set s.ready s r t (running false) c at (λ l. cc)
            (λ i. ground (arith, is, named)),
        (u, get_elem?-set_self s.schedules r u at, named, refl),
      )

  -- The id in hand is that of a queued schedule, its owner.
  pub begin-Consistent :
      {hand : List ℕ} (id : ℕ) (s : Scheduler)
      → Consistent owner (id ∷ hand) next s
      → (r : ℕ) × (owner id ≡ some r)
        × (u : Scheduler) × (begin r s ≡ ok u)
        × Consistent owner hand next u
        × RunsAt r id u
  begin-Consistent id s c =
      let (r, t, at, named, is) = waiting-Queued s.schedules id (ground (arith, c.counted id)) in
      let begun = begin-queued id r t s c at named is in
      (
        r,
        subst (λ i. owner i ≡ some r) named (c.owned r t at (rw is refl)),
        begun.0,
        begun.1,
        begun.2,
        begun.3,
      )

  -- The second half of a poll of the schedule that runs.
  pub finish-Consistent :
      {A : Type 0} {hand : List ℕ} (r id : ℕ) (result : Poll A) (s : Scheduler)
      → Consistent owner hand next s
      → owner id ≡ some r
      → RunsAt r id s
      → (t : Scheduler) × (finish r result s ≡ ok t)
        × Consistent owner hand next t
        × (v : TaskSchedule) × (get_elem? t.schedules r ≡ some v)
        × Final result v.state
  unfolding finish
  finish-Consistent r id result s c o (t, at, named, runs) =
      let (p, e, balance, done) = finish_poll-running t.state result runs in
      (
        apply_action r t p s,
        rw (at, finish, e) refl,
        apply_action-Consistent s r t p.0 p.1 c at
            (λ l. subst (λ i. owner i ≡ some r) (sym named) o) balance,
        record t { state = p.0 },
        apply_action-at s r t p.0 p.1 at,
        done,
      )
