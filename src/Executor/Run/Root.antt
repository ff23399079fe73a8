-- ===== src/Executor/Run/Root.antt =====
-- The root of `block_on` in src/executor.rs: what is taken of it, and its poll.
use asyncr.Prelude.{
  ℕ, ◌≡◌, refl, sym, subst, inl, inr, true, false, [], ◌∷◌, none, some, Outcome, ok, panic, Panic,
  Poll, ready, pending, arith, ==_cases, get_elem?, length,
}
use asyncr.Prelude.Map.{Map, get}
use asyncr.Time.Clock.{Clock}
use asyncr.Schedule
use asyncr.Schedule.{Scheduler, TaskSchedule, begin, finish, after_poll}
use asyncr.Schedule.State.{ScheduleState}
use asyncr.Schedule.Race.{is_running}
use asyncr.Schedule.Store.{is_live}
use asyncr.Schedule.Store.Standing.{RunsAt}
use asyncr.Schedule.Store.Steps.{begin-Consistent, finish-Consistent}
use asyncr.Schedule.Store.Owners.{new-Consistent, Consistent-disown}
use asyncr.Shared.{Waker, task, LocalTask, SpawnState, Shared, root_task_id, request_schedule}
use asyncr.Executor.{Executor, with_clock, admit, in_poll}
use asyncr.Executor.Usage.{Sound, owner_of, Uses}
use asyncr.Executor.Polling.{Uses-Sound, Uses-RunsAt}
use asyncr.Executor.Passes.{is_broken}

-- The root uses the executor as spawned futures do, and its panics are its own.
pub record RootUser {F V R A : Type 0} (wake_custom : ℕ → Shared F V → Shared F V)
    (drop_future : F → Shared F V → Shared F V)
    (poll_root : Waker → R × Shared F V → Outcome (Poll A) × (R × Shared F V)) : Type 0 where
  pub polls :
      (w : Waker) (x : R) (s : Shared F V) → Uses wake_custom drop_future s (poll_root w (x, s)).1.1
  pub panics :
      (w : Waker) (x : R) (s : Shared F V) (p : Panic)
      → (poll_root w (x, s)).0 ≡ panic p
      → is_broken p ≡ false

-- A root that is done, or whose poll panicked, gives up its id.
Sound-rootless :
    {F : Type 0} (r : ℕ) (tasks : Map (LocalTask F)) (spawns : SpawnState F) (scheduler : Scheduler)
    (v : TaskSchedule)
    → Sound (some r) [] tasks spawns scheduler
    → get_elem? scheduler.schedules r ≡ some v
    → is_live v.state ≡ false
    → Sound none [] tasks spawns scheduler
Sound-rootless r tasks spawns scheduler v i at done = record {
  consistent =
      Consistent-disown scheduler r root_task_id v
        (owner_of none (admit spawns.pending_spawns tasks)) i.consistent at refl
        (λ j. elim (==_cases j root_task_id) [
          | inl e ↦ inr (done, e, rw e refl)
          | inr e ↦ inl (rw e refl)
        ]);
  keyed = i.keyed;
  counting = i.counting;
  accepting = i.accepting;
}

runs-is_live : (st : ScheduleState) → is_running st ≡ true → is_live st ≡ false
runs-is_live st h = ground arith

-- Where the poll of the root leaves the executor.
module _ {F V R A : Type 0} (r : ℕ) (tasks : Map (LocalTask F)) where
  abbrev pub Rooted : Outcome (Poll A) × (R × Shared F V) → Type 0
  Rooted (panic p, after) =
      (is_broken p ≡ false) × Sound none [] tasks after.1.spawns after.1.scheduler
  Rooted (ok (ready a), after) = Sound none [] tasks after.1.spawns after.1.scheduler
  Rooted (ok pending, after) = Sound (some r) [] tasks after.1.spawns after.1.scheduler

  root_settles :
      (answer : Outcome (Poll A)) (x : R) (s : Shared F V)
      → ((p : Panic) → answer ≡ panic p → is_broken p ≡ false)
      → Sound (some r) [] tasks s.spawns s.scheduler
      → RunsAt r root_task_id s.scheduler
      → Rooted (after_poll in_poll r (answer, (x, s)))
  unfolding after_poll
  root_settles (panic p) x s panics i (v, at, named, runs) = (
    panics p refl,
    Sound-rootless r tasks s.spawns s.scheduler v i at (runs-is_live v.state runs),
  )
  root_settles (ok (ready a)) x s panics i runs =
      let (after, e, c, v, at, done) =
        finish-Consistent r root_task_id (ready a) s.scheduler i.consistent refl runs in
      let sound : Sound (some r) [] tasks s.spawns after = record {
        consistent = c;
        keyed = i.keyed;
        counting = i.counting;
        accepting = i.accepting;
      } in
      rw (after_poll, e) (Sound-rootless r tasks s.spawns after v sound at done)
  root_settles (ok pending) x s panics i runs =
      let result : Poll A = pending in
      let (after, e, c, _, _, _) =
        finish-Consistent r root_task_id result s.scheduler i.consistent refl runs in
      let sound : Sound (some r) [] tasks s.spawns after = record {
        consistent = c;
        keyed = i.keyed;
        counting = i.counting;
        accepting = i.accepting;
      } in
      rw (after_poll, e) sound

-- `block_on` makes the root's schedule, and it owns the root's id.
pub Sound-root :
    {F : Type 0} (tasks : Map (LocalTask F)) (spawns : SpawnState F) (scheduler : Scheduler)
    → Sound none [] tasks spawns scheduler
    → Sound
        (some (Schedule.new root_task_id scheduler).0)
        []
        tasks
        spawns
        (Schedule.new root_task_id scheduler).1
unfolding Schedule.new
Sound-root tasks spawns scheduler i = record {
  consistent =
      new-Consistent scheduler root_task_id spawns.next_id
        (owner_of (some (length scheduler.schedules)) (admit spawns.pending_spawns tasks))
        i.consistent (λ j. ground arith) refl i.counting (omega arith);
  keyed = i.keyed;
  counting = i.counting;
  accepting = i.accepting;
}

module _ {F V : Type 0} (wake_custom : ℕ → Shared F V → Shared F V)
    (drop_future : F → Shared F V → Shared F V) where
  -- `block_on` before its loop: the root's schedule is made and requested.
  abbrev pub rooted : Executor F V → ℕ × Executor F V
  rooted ex =
      let shared = ex.shared in
      let (r, scheduler) = Schedule.new root_task_id shared.scheduler in
      (
        r,
        record ex {
          shared =
              request_schedule wake_custom drop_future r (record shared { scheduler = scheduler });
        },
      )

-- An executor as it is made.
pub with_clock-Sound :
    (F V : Type 0) (clock : Clock) (system : ℕ)
    → (let ex : Executor F V = with_clock clock system in
        Sound none [] ex.tasks ex.shared.spawns ex.shared.scheduler)
unfolding with_clock admit get
with_clock-Sound F V clock system = record {
  consistent = record {
    opened = refl;
    owned = λ r t k l. cc;
    held = λ id r o. absurd (ground (arith, o));
    counted = λ id. refl;
    fresh = λ r t k. cc;
  };
  keyed = λ id t e. cc;
  counting = omega arith;
  accepting = refl;
}

module _ {F V R A : Type 0} (wake_custom : ℕ → Shared F V → Shared F V)
    (drop_future : F → Shared F V → Shared F V)
    (poll_root : Waker → R × Shared F V → Outcome (Poll A) × (R × Shared F V))
    (user : RootUser wake_custom drop_future poll_root) where
  pub root-Rooted :
      (r : ℕ) (x : R) (ex : Executor F V)
      → Sound (some r) (root_task_id ∷ []) ex.tasks ex.shared.spawns ex.shared.scheduler
      → Rooted r ex.tasks (Schedule.poll in_poll r (poll_root (task r)) (x, ex.shared))
  unfolding Schedule.poll
  root-Rooted r x ex i =
      let (q, o, scheduler, e, c, runs) =
        begin-Consistent root_task_id ex.shared.scheduler i.consistent in
      let begun : Sound (some r) [] ex.tasks ex.shared.spawns scheduler = record {
        consistent = c;
        keyed = i.keyed;
        counting = i.counting;
        accepting = i.accepting;
      } in
      let same : r ≡ q = cc in
      let shared = ex.shared in
      let s = record shared { scheduler = scheduler } in
      let uses = user.polls (task r) x s in
      let (answer, after) = poll_root (task r) (x, s) in
      rw (Schedule.poll, begins same e)
        (root_settles r ex.tasks answer after.0 after.1 (user.panics (task r) x s)
          (Uses-Sound wake_custom drop_future uses begun)
          (Uses-RunsAt wake_custom drop_future r root_task_id uses begun
            (subst (λ p. RunsAt p root_task_id scheduler) (sym same) runs)))
    where
      begins :
          {q : ℕ} {s : Scheduler}
          → r ≡ q
          → begin q ex.shared.scheduler ≡ ok s
          → begin r ex.shared.scheduler ≡ ok s
      begins same e = rw same e
