-- ===== src/Executor/Passes.antt =====
-- One pass of `next_ready_id` in src/executor.rs over an executor that is sound.
use asyncr.Prelude.{
  Outcome-cases, ◌≢◌, ℕ, ◌≡◌, refl, ap, inl, inr, Bool, true, false, List, [], ◌∷◌, Option, some,
  Outcome, ok, panic, Panic, only_queued_polled, clock_out_of_range, clock_not_paused,
  clock_backwards, join_completed_twice, not_running_at_finish, not_admitted, Poll, arith,
}
use asyncr.Prelude.Map.{Map, get, insert}
use asyncr.Schedule.{Scheduler}
use asyncr.Time.Clock
use asyncr.Time.Driver
use asyncr.Join.Store.{as_before}
use asyncr.Shared.{
  Waker, task, custom, LocalTask, SpawnState, Shared, request_schedule, wake, wake_all,
}
use asyncr.Executor.{
  Executor, admit, drain_pending_spawns, Pass, received, jumped, must_wait, process_expired,
  look_ahead, try_recv, pass,
}
use asyncr.Executor.Usage.{
  Sound, keyed-insert, Quiet, silent, rouses, alters, Quiet-Uses, Quiet-spawns,
}
use asyncr.Executor.Polling.{Users, Uses-Sound}

-- The panics by which src/executor.rs and src/scheduling/ say that the executor is broken.
abbrev pub is_broken : Panic → Bool
is_broken only_queued_polled = true
is_broken not_running_at_finish = true
is_broken not_admitted = true
is_broken _ = false

-- The panics of the clock and of a join pair, which `block_on` ends in while it runs what is not the
-- root.
abbrev pub is_inner : Panic → Bool
is_inner clock_out_of_range = true
is_inner clock_not_paused = true
is_inner clock_backwards = true
is_inner join_completed_twice = true
is_inner _ = false

pub is_inner-is_broken : (p : Panic) → is_inner p ≡ true → is_broken p ≡ false
is_inner-is_broken p h = ground arith

module _ {F : Type 0} where
  admit-keyed :
      (ts : List (LocalTask F)) (tasks : Map (LocalTask F))
      → ((id : ℕ) (t : LocalTask F) → get id tasks ≡ some t → t.id ≡ id)
      → (id : ℕ) (t : LocalTask F) → get id (admit ts tasks) ≡ some t
      → t.id ≡ id
  unfolding admit
  admit-keyed [] tasks keyed = keyed
  admit-keyed (t ∷ ts) tasks keyed =
      admit-keyed ts (insert t.id t tasks) (λ id u. keyed-insert t tasks id u (keyed id))

module _ {F : Type 0} {root : Option ℕ} where
  pub Sound-drain :
      {hand : List ℕ} {tasks : Map (LocalTask F)} (spawns : SpawnState F) {scheduler : Scheduler}
      → Sound root hand tasks spawns scheduler
      → Sound root hand
          (admit spawns.pending_spawns tasks)
          (record spawns { pending_spawns = [] })
          scheduler
  unfolding admit
  Sound-drain {tasks = tasks} spawns i = record {
    consistent = i.consistent;
    keyed = admit-keyed spawns.pending_spawns tasks i.keyed;
    counting = i.counting;
    accepting = i.accepting;
  }

  -- The executor takes the first id of the channel.
  pub Sound-take :
      {tasks : Map (LocalTask F)} {spawns : SpawnState F} (scheduler : Scheduler) (id : ℕ)
      (ids : List ℕ)
      → scheduler.ready ≡ id ∷ ids
      → Sound root [] tasks spawns scheduler
      → Sound root (id ∷ []) tasks spawns (record scheduler { ready = ids })
  Sound-take scheduler id ids e i = record {
    consistent =
        let c = i.consistent in
        record {
          opened = c.opened;
          owned = c.owned;
          held = c.held;
          counted = λ j. ground (arith, c.counted j, e);
          fresh = c.fresh;
        };
    keyed = i.keyed;
    counting = i.counting;
    accepting = i.accepting;
  }

module _ {F V : Type 0} (limit : ℕ) (wake_custom : ℕ → Shared F V → Shared F V)
    (drop_future : F → Shared F V → Shared F V) where
  Quiet-trans :
      {s t u : Shared F V}
      → Quiet wake_custom drop_future s t
      → Quiet wake_custom drop_future t u
      → Quiet wake_custom drop_future s u
  Quiet-trans a silent = a
  Quiet-trans a (rouses r b) = rouses r (Quiet-trans a b)
  Quiet-trans a (alters b e f js) = alters (Quiet-trans a b) e f js

  now-panic :
      (system : ℕ) (clock : Clock.Clock) (p : Panic)
      → Clock.now limit system clock ≡ panic p
      → is_inner p ≡ true
  unfolding Clock.now
  now-panic system clock p e = ground arith

  module _ (poll_future : Waker → F → Shared F V → Outcome (Poll V) × F × Shared F V)
      (users : Users wake_custom drop_future poll_future) where
    wake_all-Quiet :
        (ws : List Waker) (s : Shared F V)
        → Quiet wake_custom drop_future s (wake_all wake_custom drop_future ws s)
    unfolding wake_all wake
    wake_all-Quiet [] s = silent
    wake_all-Quiet (task r ∷ ws) s =
        Quiet-trans (rouses r silent)
          (wake_all-Quiet ws (request_schedule wake_custom drop_future r s))
    wake_all-Quiet (custom k ∷ ws) s =
        Quiet-trans (users.rouses k s) (wake_all-Quiet ws (wake_custom k s))

    pub process_expired-Quiet :
        (s : Shared F V)
        → Quiet wake_custom drop_future s
            (process_expired limit wake_custom drop_future poll_future s).1
    unfolding process_expired
    process_expired-Quiet s = elim (Outcome-cases (Clock.now limit s.system s.clock)) [
      | inl (p, e) ↦ rw (process_expired, e) silent
      | inr (now, e) ↦
          let (wakers, timers) = Driver.process_expired now s.timers in
          rw (process_expired, e)
            (Quiet-trans (alters silent refl refl as_before)
              (wake_all-Quiet wakers (record s { timers = timers })))
    ]

    pub look_ahead-keeps :
        (s : Shared F V)
        → let (answer, after) = look_ahead limit wake_custom drop_future poll_future s in
          (after.scheduler ≡ s.scheduler)
          × (after.spawns ≡ s.spawns)
          × ((id : ℕ) → answer ≢ ok (received id))
          × ((p : Panic) → answer ≡ panic p → is_inner p ≡ true)
    unfolding look_ahead Driver.advance_to_next_deadline_if_paused Driver.time_until_next_deadline
        Clock.advance_to
    look_ahead-keeps s = ground (arith, now-panic s.system)

    process_expired-panic :
        (s : Shared F V) (p : Panic)
        → (process_expired limit wake_custom drop_future poll_future s).0 ≡ panic p
        → is_inner p ≡ true
    unfolding process_expired
    process_expired-panic s p e = ground (arith, now-panic s.system s.clock)

    module _ (root : Option ℕ) where
      -- What a pass leaves: no pending spawn, and the received id in hand.
      abbrev pub Passed : Outcome Pass × Executor F V → Type 0
      Passed (panic p, ex) = is_inner p ≡ true
      Passed (ok (received id), ex) =
          (ex.shared.spawns.pending_spawns ≡ [])
          × Sound root (id ∷ []) ex.tasks ex.shared.spawns ex.shared.scheduler
      Passed (ok _, ex) =
          (ex.shared.spawns.pending_spawns ≡ [])
          × Sound root [] ex.tasks ex.shared.spawns ex.shared.scheduler

      looked :
          (answer : Outcome Pass) (ex : Executor F V)
          → ex.shared.spawns.pending_spawns ≡ []
          → Sound root [] ex.tasks ex.shared.spawns ex.shared.scheduler
          → ((id : ℕ) → answer ≢ ok (received id))
          → ((p : Panic) → answer ≡ panic p → is_inner p ≡ true)
          → Passed (answer, ex)
      looked (panic p) ex d i unheard panics = panics p refl
      looked (ok (received id)) ex d i unheard panics = absurd (unheard id refl)
      looked (ok jumped) ex d i unheard panics = (d, i)
      looked (ok (must_wait t)) ex d i unheard panics = (d, i)

      tried :
          (ready_ids : List ℕ) (tasks : Map (LocalTask F)) (s : Shared F V)
          → s.scheduler.ready ≡ ready_ids
          → s.spawns.pending_spawns ≡ []
          → Sound root [] tasks s.spawns s.scheduler
          → (let (answer, after) = try_recv limit wake_custom drop_future poll_future ready_ids s in
              Passed (answer, record { tasks = tasks; shared = after }))
      unfolding try_recv
      tried (id ∷ ids) tasks s e d i = (d, Sound-take s.scheduler id ids e i)
      tried [] tasks s e d i =
          let (answer, after) = look_ahead limit wake_custom drop_future poll_future s in
          let (f, g, unheard, panics) = look_ahead-keeps s in
          looked answer (record { tasks = tasks; shared = after }) (rw g d) (rw (f, g) i) unheard
            panics

      pub pass-Passed :
          (ex : Executor F V)
          → Sound root [] ex.tasks ex.shared.spawns ex.shared.scheduler
          → Passed (pass limit wake_custom drop_future poll_future ex)
      unfolding pass drain_pending_spawns
      pass-Passed ex i =
          let ex' = drain_pending_spawns ex in
          let s = (process_expired limit wake_custom drop_future poll_future ex'.shared).1 in
          let quiet = process_expired-Quiet ex'.shared in
          elim (Outcome-cases
            (process_expired limit wake_custom drop_future poll_future ex'.shared).0) [
              | inl (p, e) ↦ rw (pass, e) (process_expired-panic ex'.shared p e)
              | inr (x, e) ↦
                  rw (pass, e)
                    (tried s.scheduler.ready ex'.tasks s refl
                      (ap (λ sp. sp.pending_spawns) (Quiet-spawns wake_custom drop_future quiet))
                      (Uses-Sound wake_custom drop_future (Quiet-Uses wake_custom drop_future quiet)
                        (Sound-drain ex.shared.spawns i)))
            ]
