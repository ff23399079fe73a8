-- ===== src/Executor/Polling.antt =====
-- User code under the executor of src/executor.rs, and the poll of the async block of a spawn.
use asyncr.Prelude.{
  ℕ, ◌≡◌, refl, ◌⊎◌, inl, inr, List, Option, none, some, Outcome, ok, panic, Poll, ready, pending,
  arith, length, Option-cases, get_elem?, set, Result,
}
use asyncr.Prelude.Map.{Map}
use asyncr.Schedule
use asyncr.Schedule.{Scheduler}
use asyncr.Schedule.State.{ScheduleState}
use asyncr.Schedule.Store.Standing.{
  StandsAt, RunsAt, Running, request_schedule-StandsAt, new-StandsAt, wake-Running,
}
use asyncr.Join
use asyncr.Join.Store.{Joined, as_before, stepped, publishes}
use asyncr.Join.{JoinError, Pair}
use asyncr.Catch
use asyncr.Shared.{
  Waker, task, custom, Spawned, LocalTask, Shared, request_schedule, wake, conclude, publish,
  poll_spawned, ended, to_join,
}
use asyncr.Executor.{admit}
use asyncr.Executor.Usage.{
  Sound, Quiet, Uses, stays, wakes, spawns, changes, Uses-trans, Quiet-Uses, spawn-parts, spawned,
  Sound-request, Sound-spawn, owner_of, owner_of-insert, admit-append, owned_before,
}

pub Poll-cases {ℓ} : {A : Type ℓ} (a : Poll A) → (a ≡ pending) ⊎ ((x : A) × (a ≡ ready x))
Poll-cases pending = inl refl
Poll-cases (ready x) = inr (x, refl)

module _ {F V : Type 0} (wake_custom : ℕ → Shared F V → Shared F V)
    (drop_future : F → Shared F V → Shared F V) where
  module _ {root : Option ℕ} {hand : List ℕ} {tasks : Map (LocalTask F)} where
    pub Uses-Sound :
        {s t : Shared F V}
        → Uses wake_custom drop_future s t
        → Sound root hand tasks s.spawns s.scheduler
        → Sound root hand tasks t.spawns t.scheduler
    unfolding request_schedule
    Uses-Sound stays i = i
    Uses-Sound (wakes r u) i = Sound-request r (Uses-Sound u i)
    Uses-Sound (spawns {t} future u accepting lt) i =
        let i' = Uses-Sound u i in
        let (e, f) = spawn-parts wake_custom drop_future future t i'.accepting i'.counting lt in
        rw (e, f)
          (Sound-request (length t.scheduler.schedules) (
            Sound-spawn t.spawns t.scheduler (spawned wake_custom drop_future future t) refl refl
              i'))
    Uses-Sound (changes u e f js) i = rw (e, f) (Uses-Sound u i)

    module _ (At : ScheduleState → Type 0)
        (keeps : (st : ScheduleState) → At st → At (Schedule.State.wake st).0) where
      pub Uses-StandsAt :
          {s t : Shared F V}
          → (r id : ℕ) → Uses wake_custom drop_future s t
          → Sound root hand tasks s.spawns s.scheduler
          → StandsAt At r id s.scheduler
          → StandsAt At r id t.scheduler
      unfolding request_schedule
      Uses-StandsAt r id stays i h = h
      Uses-StandsAt r id (wakes {t} q u) i h =
          request_schedule-StandsAt At keeps q r id t.scheduler (Uses-StandsAt r id u i h)
      Uses-StandsAt r id (spawns {t} future u accepting lt) i h =
          let i' = Uses-Sound u i in
          let (e, f) = spawn-parts wake_custom drop_future future t i'.accepting i'.counting lt in
          rw e (
            request_schedule-StandsAt At keeps (length t.scheduler.schedules) r id
              (Schedule.new t.spawns.next_id t.scheduler).1
              (new-StandsAt At keeps t.spawns.next_id r id t.scheduler (Uses-StandsAt r id u i h)))
      Uses-StandsAt r id (changes u e f js) i h = rw e (Uses-StandsAt r id u i h)

    pub Uses-RunsAt :
        {s t : Shared F V}
        → (r id : ℕ) → Uses wake_custom drop_future s t
        → Sound root hand tasks s.spawns s.scheduler
        → RunsAt r id s.scheduler
        → RunsAt r id t.scheduler
    Uses-RunsAt r id u i h = Uses-StandsAt Running wake-Running r id u i h

    -- The tasks that the executor has keep their schedules.
    pub Uses-owner :
        {s t : Shared F V} (id : ℕ) {r : ℕ}
        → Uses wake_custom drop_future s t
        → Sound root hand tasks s.spawns s.scheduler
        → owner_of root (admit s.spawns.pending_spawns tasks) id ≡ some r
        → owner_of root (admit t.spawns.pending_spawns tasks) id ≡ some r
    unfolding request_schedule
    Uses-owner id stays i h = h
    Uses-owner id (wakes q u) i h = Uses-owner id u i h
    Uses-owner id (spawns {t} future u accepting lt) i h =
        let i' = Uses-Sound u i in
        let h' = Uses-owner id u i h in
        let (e, f) = spawn-parts wake_custom drop_future future t i'.accepting i'.counting lt in
        let before = owned_before id i' h' in
        rw
          (
            f,
            admit-append t.spawns.pending_spawns (spawned wake_custom drop_future future t) tasks,
            owner_of-insert root (spawned wake_custom drop_future future t)
                (admit t.spawns.pending_spawns tasks) id i'.counting,
          )
          (ground (arith, h', before))
    Uses-owner id (changes u e f js) i h = rw f (Uses-owner id u i h)

  -- What user code is taken to do: its polls and drops use the executor, its wakers are quiet.
  pub record Users (poll_future : Waker → F → Shared F V → Outcome (Poll V) × F × Shared F V)
      : Type 0 where
    pub polls :
        (w : Waker) (f : F) (s : Shared F V) → Uses wake_custom drop_future s (poll_future w f s).2
    pub drops : (f : F) (s : Shared F V) → Uses wake_custom drop_future s (drop_future f s)
    pub rouses : (k : ℕ) (s : Shared F V) → Quiet wake_custom drop_future s (wake_custom k s)

  module _ (poll_future : Waker → F → Shared F V → Outcome (Poll V) × F × Shared F V)
      (users : Users poll_future) where
    pub wake-Uses :
        (w : Waker) (s : Shared F V)
        → Uses wake_custom drop_future s (wake wake_custom drop_future w s)
    unfolding wake
    wake-Uses (task r) s = wakes r stays
    wake-Uses (custom k) s = Quiet-Uses wake_custom drop_future (users.rouses k s)

    ended-state :
        (j : ℕ) (p : Outcome (Unit {0}) × Shared F V)
        → (ended wake_custom drop_future poll_future j p).1 ≡ p.1
    unfolding ended
    ended-state j (panic p, s) = refl
    ended-state j (ok _, s) = refl

    -- The pair `j` steps, and its waker is woken.
    pub conclude-Uses :
        (j : ℕ) (answer : Outcome (Option Waker) × Pair V Waker) (s : Shared F V)
        → Joined s.joins (set s.joins j answer.1)
        → Uses wake_custom drop_future s (conclude wake_custom drop_future j answer s).1
    unfolding conclude
    conclude-Uses j (panic p, pair) s js = changes stays refl refl js
    conclude-Uses j (ok none, pair) s js = changes stays refl refl js
    conclude-Uses j (ok (some w), pair) s js =
        Uses-trans wake_custom drop_future (changes stays refl refl js)
          (wake-Uses w (record s { joins = set s.joins j pair }))

    publish-Uses :
        (j : ℕ) (result : Result V JoinError) (s : Shared F V)
        → Uses wake_custom drop_future s (publish wake_custom drop_future j result s).1
    unfolding publish
    publish-Uses j result s = elim (Option-cases (get_elem? s.joins j)) [
      | inl e ↦ rw (publish, e) stays
      | inr (pair, e) ↦
          rw (publish, e)
            (conclude-Uses j (Join.publish result pair) s
              (stepped j as_before e (publishes result)))
    ]

    -- A poll of the async block of `Handle::spawn` uses the executor as user code does.
    pub poll_spawned-Uses :
        (w : Waker) (t : Spawned F) (s : Shared F V)
        → Uses wake_custom drop_future s
            (poll_spawned wake_custom drop_future poll_future w (t, s)).1.1
    unfolding poll_spawned Catch.poll
    poll_spawned-Uses w t s = elim (Poll-cases (Catch.poll poll_future w t.inner s).0) [
      | inl e ↦ rw (poll_spawned, e) (users.polls w t.inner.future s)
      | inr (result, e) ↦
          let (_, inner, s') = Catch.poll poll_future w t.inner s in
          rw
            (
              poll_spawned,
              e,
              ended-state t.join (
                  publish wake_custom drop_future t.join
                    (to_join wake_custom drop_future poll_future result)
                    (drop_future inner.future s')),
            )
            (Uses-trans wake_custom drop_future (users.polls w t.inner.future s) (
              Uses-trans wake_custom drop_future (users.drops inner.future s') (
                publish-Uses t.join (to_join wake_custom drop_future poll_future result)
                  (drop_future inner.future s'))))
    ]
