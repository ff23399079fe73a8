-- ===== src/Executor/Run/Liveness.antt =====
-- How long `block_on` of src/executor.rs may take over a root that keeps itself awake.
use asyncr.Prelude.{
  ℕ, zero, suc, ◌<◌, ◌≡◌, subst, ap, ◌∙◌, inl, inr, false, [], some, Outcome, ok,
  join_completed_twice, Poll, arith, ◌==◌, get_elem?, Bool-cases, ==_iff,
}
use asyncr.Join.Store.{IsIntact}
use asyncr.Schedule
use asyncr.Shared.{Waker, task, Shared, root_task_id}
use asyncr.Executor.{Executor, in_poll, Pass, received, pass, poll_task}
use asyncr.Executor.Usage.{Sound}
use asyncr.Executor.Polling.{Users}
use asyncr.Executor.Passes.{pass-Passed, Passed}
use asyncr.Executor.Safety.{poll_task-Settled}
use asyncr.Executor.Run.Root.{RootUser}
use asyncr.Executor.Run.Front.{pass_first, get_elem?-first}
use asyncr.Executor.Run.Intact.{pass-Once}
use asyncr.Executor.Run.Twice.{poll_task-Once}
use asyncr.Executor.Run.Fairness.{Turn, of_task, of_root, done, onward, Turns-get_elem?}
use asyncr.Executor.Run.Ending
use asyncr.Executor.Run.Ending.{Turn-Ends, late-Ends, answer-Ends}
use asyncr.Executor.Run.Awake.{Awake, Queued, root_polled}

module _ {F V : Type 0} (limit : ℕ) (wake_custom : ℕ → Shared F V → Shared F V)
    (drop_future : F → Shared F V → Shared F V)
    (poll_future : Waker → F → Shared F V → Outcome (Poll V) × F × Shared F V)
    (users : Users wake_custom drop_future poll_future) {R A : Type 0}
    (drop_root : R → Shared F V → Shared F V)
    (poll_root : Waker → R × Shared F V → Outcome (Poll A) × (R × Shared F V))
    (user : RootUser wake_custom drop_future poll_root) (left : R → ℕ)
    (awake : Awake wake_custom drop_future poll_root left) (r : ℕ) where
  abbrev passed : Executor F V → Outcome Pass × Executor F V
  passed = pass limit wake_custom drop_future poll_future

  abbrev Ends : R → Executor F V → Type 0
  Ends = Ending.Ends limit wake_custom drop_future poll_future drop_root poll_root r

  -- Where the induction on the polls left goes on.
  abbrev pub Onward : ℕ → Type 0
  Onward n = (x : R) (ex : Executor F V) (i : ℕ) → left x < n → Queued r ex i → Ends x ex

  module _ (n : ℕ) (onward_from : Onward n) (x : R) (fewest : left x < suc n) where
    -- A round that receives the root.
    root-Ends :
        (ex : Executor F V)
        → (passed ex).0 ≡ ok (received root_task_id)
        → IsIntact ex.shared.joins
        → Passed limit wake_custom drop_future poll_future users (some r) (passed ex)
        → Ends x ex
    root-Ends ex e intact ahead =
        let taken = (passed ex).1 in
        let at : passed ex ≡ (ok (received root_task_id), taken) = ap (λ p. (p, taken)) e in
        let (_, sound) =
          subst (Passed limit wake_custom drop_future poll_future users (some r)) at ahead in
        let (kept, _) = pass-Once limit wake_custom drop_future poll_future users ex intact in
        let out = Schedule.poll in_poll r (poll_root (task r)) (x, taken.shared) in
        elim (root_polled wake_custom drop_future poll_root left user awake r x taken sound kept) [
          | inl (a, f) ↦
              answer-Ends limit wake_custom drop_future poll_future drop_root poll_root r x ex a at
                f
          | inr ((f, sound', i, place), fewer, intact') ↦
              let ex' : Executor F V = record taken { shared = out.1.1 } in
              Turn-Ends limit wake_custom drop_future poll_future drop_root poll_root r x out.1.0 ex
                ex' (of_root taken out.1 at (ap (λ p. (p, out.1)) f))
                (onward_from out.1.0 ex' i (omega (arith, fewer, fewest))
                  (record { sound = sound'; intact = intact'; place = place }))
        ]

    -- A round that receives a task.
    task-Ends :
        (id : ℕ) (ex : Executor F V)
        → (id == root_task_id) ≡ false
        → (passed ex).0 ≡ ok (received id)
        → IsIntact ex.shared.joins
        → Passed limit wake_custom drop_future poll_future users (some r) (passed ex)
        → ((after : Executor F V)
            → Turn limit wake_custom drop_future poll_future drop_root poll_root r x ex x after
            → Sound (some r) [] after.tasks after.shared.spawns after.shared.scheduler
            → IsIntact after.shared.joins
            → Ends x after)
        → Ends x ex
    task-Ends id ex ne e intact ahead go_on =
        let taken = (passed ex).1 in
        let at : passed ex ≡ (ok (received id), taken) = ap (λ p. (p, taken)) e in
        let (drained, sound) =
          subst (Passed limit wake_custom drop_future poll_future users (some r)) at ahead in
        let (kept, _) = pass-Once limit wake_custom drop_future poll_future users ex intact in
        let (intact', once) =
          poll_task-Once limit wake_custom drop_future poll_future users id taken kept in
        let out = poll_task limit wake_custom drop_future poll_future id taken in
        elim (poll_task-Settled (some r) limit wake_custom drop_future poll_future users id taken
          sound drained (λ f. ground (arith, ne, f))) [
            | inl f ↦ absurd (ground (arith, once join_completed_twice f))
            | inr (f, sound') ↦
                let turn = of_task id taken out.1 at ne (ap (λ p. (p, out.1)) f) in
                Turn-Ends limit wake_custom drop_future poll_future drop_root poll_root r x x ex
                  out.1 turn (go_on out.1 turn sound' intact')
          ]

    -- A round, whatever it receives.
    front-Ends :
        (i : ℕ) (ex : Executor F V)
        → Queued r ex i
        → ((id : ℕ) (after : Executor F V)
            → (id == root_task_id) ≡ false
            → get_elem? ex.shared.scheduler.ready 0 ≡ some id
            → Turn limit wake_custom drop_future poll_future drop_root poll_root r x ex x after
            → Sound (some r) [] after.tasks after.shared.spawns after.shared.scheduler
            → IsIntact after.shared.joins
            → Ends x after)
        → Ends x ex
    front-Ends i ex q go_on =
        let (id, first) = get_elem?-first ex.shared.scheduler.ready i root_task_id q.place in
        let ahead =
          pass-Passed limit wake_custom drop_future poll_future users (some r) ex q.sound in
        elim (pass_first limit wake_custom drop_future poll_future users ex id first) [
          | inr e ↦ late-Ends limit wake_custom drop_future poll_future drop_root poll_root r x ex e
          | inl e ↦ elim (Bool-cases (id == root_task_id)) [
            | inl f ↦
                root-Ends ex (e ∙ ap (λ j. ok (received j)) ((==_iff id root_task_id).0 f)) q.intact
                  ahead
            | inr f ↦
                task-Ends id ex f e q.intact ahead
                  (λ after turn sound intact. go_on id after f first turn sound intact)
          ]
        ]

    -- The tasks in front of the root take their turns.
    place-Ends : (i : ℕ) (ex : Executor F V) → Queued r ex i → Ends x ex
    place-Ends zero ex q =
        front-Ends zero ex q
          λ id after ne first turn sound intact. absurd (ground (arith, q.place, first, ne))
    place-Ends (suc i) ex q = front-Ends (suc i) ex q λ id after ne first turn sound intact.
        place-Ends i after (record {
          sound = sound;
          intact = intact;
          place =
              Turns-get_elem? limit wake_custom drop_future poll_future drop_root poll_root r users
                user i (suc i) root_task_id (onward done turn) (omega arith) q.place;
        })

  pub queued-Ends : (n : ℕ) → Onward n
  queued-Ends zero x ex i fewer q = absurd (omega (arith, fewer))
  queued-Ends (suc n) x ex i fewer q = place-Ends n (queued-Ends n) x fewer i ex q
