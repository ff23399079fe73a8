-- ===== src/Executor/Run/Awake.antt =====
-- A root of `block_on` (src/executor.rs) that keeps itself awake, and its poll.
use asyncr.Prelude.{
  ℕ, ◌<◌, ◌≡◌, refl, sym, subst, ap, ◌⊎◌, inl, inr, true, [], ◌∷◌, ◌++◌, some, Outcome, ok, Poll,
  ready, pending, arith, none, get_elem?, get_elem?-append_last, length,
}
use asyncr.Prelude.Map.{Map}
use asyncr.Join.Store.{IsIntact, Joined-IsIntact}
use asyncr.Schedule
use asyncr.Schedule.State.{ScheduleState, idle}
use asyncr.Schedule.{Scheduler, begin, finish, after_poll}
use asyncr.Schedule.Store.Standing.{
  StandsAt, RunsAt, Running, Notified, request_schedule_self, wake-Notified, Notified-Running,
}
use asyncr.Schedule.Store.Steps.{begin-Consistent, finish-Consistent}
use asyncr.Shared.{Waker, task, LocalTask, Shared, root_task_id, request_schedule}
use asyncr.Executor.{Executor, in_poll}
use asyncr.Executor.Joins.{Uses-Joined}
use asyncr.Executor.Usage.{Sound, Sound-request, Uses}
use asyncr.Executor.Polling.{Uses-Sound, Uses-RunsAt, Uses-StandsAt}
use asyncr.Executor.Run.Root.{RootUser, Sound-root, rooted}

-- A root that answers after at most `left x` further polls, and that until then wakes its waker
-- during each poll.
pub record Awake {F V R A : Type 0} (wake_custom : ℕ → Shared F V → Shared F V)
    (drop_future : F → Shared F V → Shared F V)
    (poll_root : Waker → R × Shared F V → Outcome (Poll A) × (R × Shared F V)) (left : R → ℕ)
    : Type 0 where
  pub answers :
      (r : ℕ) (x : R) (s : Shared F V)
      → (let (answer, (x', s')) = poll_root (task r) (x, s) in
          ((a : A) × (answer ≡ ok (ready a)))
          ⊎ ((answer ≡ ok pending)
              × (left x' < left x)
              × (between : Shared F V) × Uses wake_custom drop_future s between
              × Uses wake_custom drop_future
                  (request_schedule wake_custom drop_future r between)
                  s'))

Notified-kept : (st : ScheduleState) → Notified st → Notified (Schedule.State.wake st).0
Notified-kept st e = wake-Notified st (Notified-Running st e)

-- A poll that was woken while it ran sends its id as it ends.
finish-Notified :
    (A : Type 0) (r id : ℕ) (s after : Scheduler)
    → StandsAt Notified r id s
    → s.open_rx ≡ true
    → finish {A = A} r pending s ≡ ok after
    → after.ready ≡ s.ready ++ id ∷ []
unfolding finish Schedule.apply_action Schedule.send Schedule.State.finish_poll
finish-Notified A r id s after (t, at, named, notified) opened e =
    ground (arith, at, named, notified, opened, e)

module _ {F V R A : Type 0} (r : ℕ) (tasks : Map (LocalTask F)) where
  -- The root waits, and its id is in the channel.
  abbrev pub Waits : Outcome (Poll A) × (R × Shared F V) → Type 0
  Waits (answer, (x, s)) =
      (answer ≡ ok pending)
      × Sound (some r) [] tasks s.spawns s.scheduler
      × (i : ℕ) × (get_elem? s.scheduler.ready i ≡ some root_task_id)

  ready_settles :
      (a : A) (x : R) (s : Shared F V)
      → Sound (some r) [] tasks s.spawns s.scheduler
      → RunsAt r root_task_id s.scheduler
      → (after_poll in_poll r (ok (ready a), (x, s))).0 ≡ ok (ready a)
  unfolding after_poll
  ready_settles a x s i runs =
      let (after, e, _, _, _, _) =
        finish-Consistent r root_task_id (ready a) s.scheduler i.consistent refl runs in
      rw (after_poll, e) refl

  pending_settles :
      (x : R) (s : Shared F V)
      → Sound (some r) [] tasks s.spawns s.scheduler
      → RunsAt r root_task_id s.scheduler
      → StandsAt Notified r root_task_id s.scheduler
      → (let out = after_poll in_poll r (ok pending, (x, s)) in
          Waits out × (out.1.0 ≡ x) × (out.1.1.joins ≡ s.joins))
  unfolding after_poll
  pending_settles x s i runs notified =
      let result : Poll A = pending in
      let (after, e, c, _, _, _) =
        finish-Consistent r root_task_id result s.scheduler i.consistent refl runs in
      let sound : Sound (some r) [] tasks s.spawns after = record {
        consistent = c;
        keyed = i.keyed;
        counting = i.counting;
        accepting = i.accepting;
      } in
      let sent =
        finish-Notified A r root_task_id s.scheduler after notified i.consistent.opened e in
      let at : get_elem? after.ready (length s.scheduler.ready) ≡ some root_task_id =
        rw sent (get_elem?-append_last s.scheduler.ready root_task_id) in
      rw (after_poll, e) ((refl, sound, length s.scheduler.ready, at), refl, refl)

module _ {F V R A : Type 0} (wake_custom : ℕ → Shared F V → Shared F V)
    (drop_future : F → Shared F V → Shared F V)
    (poll_root : Waker → R × Shared F V → Outcome (Poll A) × (R × Shared F V)) (left : R → ℕ)
    (user : RootUser wake_custom drop_future poll_root)
    (awake : Awake wake_custom drop_future poll_root left) where
  -- A poll of the root answers, or the root is queued again with fewer polls left.
  pub root_polled :
      (r : ℕ) (x : R) (ex : Executor F V)
      → Sound (some r) (root_task_id ∷ []) ex.tasks ex.shared.spawns ex.shared.scheduler
      → IsIntact ex.shared.joins
      → (let out = Schedule.poll in_poll r (poll_root (task r)) (x, ex.shared) in
          ((a : A) × (out.0 ≡ ok (ready a)))
          ⊎ (Waits r ex.tasks out × (left out.1.0 < left x) × IsIntact out.1.1.joins))
  unfolding Schedule.poll request_schedule
  root_polled r x ex i intact =
      let (q, o, scheduler, e, c, runs) =
        begin-Consistent root_task_id ex.shared.scheduler i.consistent in
      let begun : Sound (some r) [] ex.tasks ex.shared.spawns scheduler = record {
        consistent = c;
        keyed = i.keyed;
        counting = i.counting;
        accepting = i.accepting;
      } in
      let same : r ≡ q = cc in
      let shared = ex.shared in
      let s : Shared F V = record shared { scheduler = scheduler } in
      let at_r = subst (λ p. RunsAt p root_task_id scheduler) (sym same) runs in
      rw (Schedule.poll, begins same e)
        (settled s (poll_root (task r) (x, s)) begun at_r (user.polls (task r) x s) intact
          (awake.answers r x s))
    where
      begins :
          {q : ℕ} {s : Scheduler}
          → r ≡ q
          → begin q ex.shared.scheduler ≡ ok s
          → begin r ex.shared.scheduler ≡ ok s
      begins same e = rw same e

      settled :
          (s : Shared F V) (out : Outcome (Poll A) × (R × Shared F V))
          → Sound (some r) [] ex.tasks s.spawns s.scheduler
          → RunsAt r root_task_id s.scheduler
          → Uses wake_custom drop_future s out.1.1
          → IsIntact s.joins
          → (((a : A) × (out.0 ≡ ok (ready a)))
              ⊎ ((out.0 ≡ ok pending)
                  × (left out.1.0 < left x)
                  × (between : Shared F V) × Uses wake_custom drop_future s between
                  × Uses wake_custom drop_future
                      (request_schedule wake_custom drop_future r between)
                      out.1.1))
          → (let after = after_poll in_poll r out in
              ((a : A) × (after.0 ≡ ok (ready a)))
              ⊎ (Waits r ex.tasks after × (left after.1.0 < left x) × IsIntact after.1.1.joins))
      settled s out i runs uses intact (inl (a, e)) =
          let at : out ≡ (ok (ready a), out.1) = ap (λ o. (o, out.1)) e in
          inl (
            a,
            subst (λ p. (after_poll in_poll r p).0 ≡ ok (ready a)) (sym at)
                (ready_settles r ex.tasks a out.1.0 out.1.1
                  (Uses-Sound wake_custom drop_future uses i)
                  (Uses-RunsAt wake_custom drop_future r root_task_id uses i runs)),
          )
      settled s out i runs uses intact (inr (e, fewer, between, first, rest)) =
          let at : out ≡ (ok pending, out.1) = ap (λ o. (o, out.1)) e in
          let runs_still = Uses-RunsAt wake_custom drop_future r root_task_id first i runs in
          let notified =
            request_schedule_self Running Notified wake-Notified r root_task_id between.scheduler
              runs_still in
          let sound = Sound-request r (Uses-Sound wake_custom drop_future first i) in
          let (waits, same, joins) =
            pending_settles {A = A} r ex.tasks out.1.0 out.1.1
              (Uses-Sound wake_custom drop_future uses i)
              (Uses-RunsAt wake_custom drop_future r root_task_id uses i runs)
              (Uses-StandsAt wake_custom drop_future Notified Notified-kept r root_task_id rest
                sound notified) in
          inr (
            subst
              (λ p.
                let after = after_poll in_poll r p in
                Waits r ex.tasks after × (left after.1.0 < left x) × IsIntact after.1.1.joins)
              (sym at)
              (
                waits,
                rw same fewer,
                rw joins (Joined-IsIntact (Uses-Joined wake_custom drop_future uses) intact),
              ))

-- What the loop keeps; the root's id stands at place `i` of the channel.
pub record Queued {F V : Type 0} (r : ℕ) (ex : Executor F V) (i : ℕ) : Type 0 where
  pub sound : Sound (some r) [] ex.tasks ex.shared.spawns ex.shared.scheduler
  pub intact : IsIntact ex.shared.joins
  pub place : get_elem? ex.shared.scheduler.ready i ≡ some root_task_id

-- The send of a new schedule's first request.
requested-ready :
    (id : ℕ) (s : Scheduler)
    → s.open_rx ≡ true
    → (let (r, s') = Schedule.new id s in (Schedule.request_schedule r s').ready)
      ≡ s.ready ++ id ∷ []
unfolding Schedule.new Schedule.request_schedule Schedule.apply_action Schedule.send
    Schedule.State.wake
requested-ready id s opened =
    rw
      (
        Schedule.request_schedule,
        get_elem?-append_last s.schedules (record { id = id; state = idle }),
      )
      (rw opened refl)

-- `block_on` queues the root behind what is in the channel.
pub rooted-Queued :
    {F V : Type 0} (wake_custom : ℕ → Shared F V → Shared F V)
    (drop_future : F → Shared F V → Shared F V) (ex : Executor F V)
    → Sound none [] ex.tasks ex.shared.spawns ex.shared.scheduler
    → IsIntact ex.shared.joins
    → (let (r, ex') = rooted wake_custom drop_future ex in
        Queued r ex' (length ex.shared.scheduler.ready))
unfolding request_schedule Schedule.new
rooted-Queued wake_custom drop_future ex sound intact = record {
  sound =
      Sound-request (length ex.shared.scheduler.schedules)
        (Sound-root ex.tasks ex.shared.spawns ex.shared.scheduler sound);
  intact = intact;
  place =
      rw (requested-ready root_task_id ex.shared.scheduler sound.consistent.opened)
        (get_elem?-append_last ex.shared.scheduler.ready root_task_id);
}
