-- ===== src/Executor/Cancelling.antt =====
-- What becomes of one join pair of src/join.rs when the executor of src/executor.rs drops its tasks.
use asyncr.Prelude.{
  ℕ, zero, suc, ◌≡◌, ◌⊎◌, inl, inr, true, false, List, [], ◌∷◌, Option, none, some, Outcome, ok,
  panic, Poll, error, arith, get_elem?, set, Option-cases, Bool-cases, ◌==◌, ==_iff,
  get_elem?-set_self, get_elem?-set_ne, ◌≢◌,
}
use asyncr.Prelude.Map.{Map, get}
use asyncr.Join
use asyncr.Join.{Pair, waiting, finished, cancelled}
use asyncr.Shared.{
  Waker, task, custom, Spawned, LocalTask, Shared, conclude, wake, request_schedule, drop_sender,
  drop_spawned,
}
use asyncr.Executor.{drop_tasks, drop_pending}

-- The sender is there, and the handle has no result.
abbrev pub IsOpen : {V : Type 0} → Option (Pair V Waker) → Type 0
IsOpen o = (waker : Option Waker) × (o ≡ some (record { armed = true; state = waiting waker }))

-- The sender is gone, and the handle's next poll gives that the task was cancelled.
abbrev pub IsCancelled : {V : Type 0} → Option (Pair V Waker) → Type 0
IsCancelled o = o ≡ some (record { armed = false; state = finished (error cancelled) })

-- What holds of the pair `j` goes on to hold of it.
abbrev pub Keeps :
    {F V : Type 0} → (Option (Pair V Waker) → Type 0) → ℕ → (Shared F V → Shared F V) → Type 0
Keeps {F} {V} At j g = (s : Shared F V) → At (get_elem? s.joins j) → At (get_elem? (g s).joins j)

-- User code that does not take the result of the handle `j`, nor drop or publish by its sender. It may
-- poll the handle while there is no result, and drop it.
pub record Spares {F V : Type 0} (j : ℕ) (g : Shared F V → Shared F V) : Type 0 where
  pub opens : Keeps IsOpen j g
  pub cancels : Keeps IsCancelled j g

module _ {F V : Type 0} (wake_custom : ℕ → Shared F V → Shared F V)
    (drop_future : F → Shared F V → Shared F V) (j : ℕ) where
  module _ (At : Option (Pair V Waker) → Type 0)
      (rouses : (k : ℕ) → Keeps At j (wake_custom k)) where
    wake-Keeps : (w : Waker) → Keeps At j (wake wake_custom drop_future w)
    unfolding wake request_schedule
    wake-Keeps (task r) s h = h
    wake-Keeps (custom k) s h = rouses k s h

    conclude-Keeps :
        (i : ℕ) (answer : Outcome (Option Waker) × Pair V Waker) (s : Shared F V)
        → At (get_elem? (set s.joins i answer.1) j)
        → At (get_elem? (conclude wake_custom drop_future i answer s).1.joins j)
    unfolding conclude
    conclude-Keeps i (panic p, pair) s h = h
    conclude-Keeps i (ok none, pair) s h = h
    conclude-Keeps i (ok (some w), pair) s h =
        wake-Keeps w (record s { joins = set s.joins i pair }) h

    -- The senders of other pairs do nothing to it.
    drop_sender-Keeps :
        (i : ℕ) → i ≢ j → Keeps At j (λ s. (drop_sender wake_custom drop_future i s).1)
    unfolding drop_sender
    drop_sender-Keeps i ne s h = elim (Option-cases (get_elem? s.joins i)) [
      | inl e ↦ rw (drop_sender, e) h
      | inr (pair, e) ↦
          let answer = Join.drop_sender pair in
          rw (drop_sender, e)
            (conclude-Keeps i answer s (rw (get_elem?-set_ne s.joins i j answer.1 ne) h))
    ]

  module _ (drops : (f : F) → Spares j (drop_future f))
      (rouses : (k : ℕ) → Spares j (wake_custom k)) where
    -- The sender of the pair gives up.
    own-IsCancelled :
        (s : Shared F V)
        → IsOpen (get_elem? s.joins j)
        → IsCancelled (get_elem? (drop_sender wake_custom drop_future j s).1.joins j)
    unfolding drop_sender Join.drop_sender Join.publish_inner Join.complete
    own-IsCancelled s (waker, e) =
        let after : Pair V Waker = record { armed = false; state = finished (error cancelled) } in
        rw (drop_sender, e)
          (conclude-Keeps IsCancelled (λ k. (rouses k).cancels) j (ok waker, after) s
            (get_elem?-set_self s.joins j after e))

    sender-Keeps : (i : ℕ) → Keeps IsCancelled j (λ s. (drop_sender wake_custom drop_future i s).1)
    unfolding drop_sender Join.drop_sender Join.publish_inner
    sender-Keeps i s e = elim (Bool-cases (i == j)) [
      | inl f ↦
          let same = (==_iff i j).0 f in
          rw same (
            rw (drop_sender, e)
              (get_elem?-set_self s.joins j
                (record { armed = false; state = finished (error cancelled) }) e))
      | inr f ↦
          drop_sender-Keeps IsCancelled (λ k. (rouses k).cancels) i (λ g. ground (arith, f, g)) s e
    ]

    spawned-Keeps : (t : Spawned F) → Keeps IsCancelled j (drop_spawned wake_custom drop_future t)
    unfolding drop_spawned
    spawned-Keeps t s e =
        sender-Keeps t.join (drop_future t.inner.future s) ((drops t.inner.future).cancels s e)

    abbrev Either : Option (Pair V Waker) → Type 0
    Either o = IsOpen o ⊎ IsCancelled o

    -- The drop of the task that holds the sender.
    spawned-IsCancelled :
        (t : Spawned F) (s : Shared F V)
        → t.join ≡ j
        → Either (get_elem? s.joins j)
        → IsCancelled (get_elem? (drop_spawned wake_custom drop_future t s).joins j)
    unfolding drop_spawned
    spawned-IsCancelled t s same (inl h) =
        rw same (own-IsCancelled (drop_future t.inner.future s) ((drops t.inner.future).opens s h))
    spawned-IsCancelled t s same (inr e) = spawned-Keeps t s e

    -- The drop of any task.
    any-Keeps : (t : Spawned F) → Keeps Either j (drop_spawned wake_custom drop_future t)
    unfolding drop_spawned
    any-Keeps t s (inr e) = inr (spawned-Keeps t s e)
    any-Keeps t s (inl h) = elim (Bool-cases (t.join == j)) [
      | inl f ↦ inr (spawned-IsCancelled t s ((==_iff t.join j).0 f) (inl h))
      | inr f ↦ inl (
          drop_sender-Keeps IsOpen (λ k. (rouses k).opens) t.join (λ g. ground (arith, f, g))
            (drop_future t.inner.future s) ((drops t.inner.future).opens s h))
    ]

    module _ (limit : ℕ)
        (poll_future : Waker → F → Shared F V → Outcome (Poll V) × F × Shared F V) where
      abbrev tasks_dropped : Map (LocalTask F) → Shared F V → Shared F V
      tasks_dropped = drop_tasks limit wake_custom drop_future poll_future

      abbrev pending_dropped : List (LocalTask F) → Shared F V → Shared F V
      pending_dropped = drop_pending limit wake_custom drop_future poll_future

      pub drop_tasks-Keeps : (tasks : Map (LocalTask F)) → Keeps IsCancelled j (tasks_dropped tasks)
      unfolding drop_tasks
      drop_tasks-Keeps [] s e = e
      drop_tasks-Keeps ((id, t) ∷ tasks) s e =
          drop_tasks-Keeps tasks (drop_spawned wake_custom drop_future t.future s)
            (spawned-Keeps t.future s e)

      drop_pending-Keeps : (ts : List (LocalTask F)) → Keeps IsCancelled j (pending_dropped ts)
      unfolding drop_pending
      drop_pending-Keeps [] s e = e
      drop_pending-Keeps (t ∷ ts) s e =
          drop_pending-Keeps ts (drop_spawned wake_custom drop_future t.future s)
            (spawned-Keeps t.future s e)

      pub pending-Keeps : (ts : List (LocalTask F)) → Keeps Either j (pending_dropped ts)
      unfolding drop_pending
      pending-Keeps [] s e = e
      pending-Keeps (t ∷ ts) s e =
          pending-Keeps ts (drop_spawned wake_custom drop_future t.future s)
            (any-Keeps t.future s e)

      -- The table holds the task.
      pub drop_tasks-IsCancelled :
          (tasks : Map (LocalTask F)) (s : Shared F V) (id : ℕ) (t : LocalTask F)
          → get id tasks ≡ some t
          → t.future.join ≡ j
          → Either (get_elem? s.joins j)
          → IsCancelled (get_elem? (tasks_dropped tasks s).joins j)
      unfolding drop_tasks get
      drop_tasks-IsCancelled [] s id t e at h = cc
      drop_tasks-IsCancelled ((i, u) ∷ tasks) s id t e at h =
          let after = drop_spawned wake_custom drop_future u.future s in
          elim (Bool-cases (i == id)) [
            | inl f ↦
                let same : u ≡ t = ground (arith, e, f) in
                drop_tasks-Keeps tasks after (spawned-IsCancelled u.future s (rw same at) h)
            | inr f ↦
                drop_tasks-IsCancelled tasks after id t (ground (arith, e, f)) at
                  (any-Keeps u.future s h)
          ]

      -- The task is among the pending spawns.
      pub drop_pending-IsCancelled :
          (ts : List (LocalTask F)) (s : Shared F V) (i : ℕ) (t : LocalTask F)
          → get_elem? ts i ≡ some t
          → t.future.join ≡ j
          → Either (get_elem? s.joins j)
          → IsCancelled (get_elem? (pending_dropped ts s).joins j)
      unfolding drop_pending
      drop_pending-IsCancelled [] s i t e at h = cc
      drop_pending-IsCancelled (u ∷ ts) s zero t e at h =
          let same : u ≡ t = cc in
          drop_pending-Keeps ts (drop_spawned wake_custom drop_future u.future s)
            (spawned-IsCancelled u.future s (rw same at) h)
      drop_pending-IsCancelled (u ∷ ts) s (suc i) t e at h =
          drop_pending-IsCancelled ts (drop_spawned wake_custom drop_future u.future s) i t e at
            (any-Keeps u.future s h)
