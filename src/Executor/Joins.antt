-- ===== src/Executor/Joins.antt =====
-- The join pairs of src/join.rs under the executor of src/executor.rs.
use asyncr.Prelude.{
  ℕ, ◌≡◌, refl, ap, ◌≢◌, inl, inr, Bool, true, false, List, [], ◌∷◌, ◌++◌, Option, none, some,
  Outcome, ok, panic, Panic, Poll, arith, get_elem?, Option-cases, Result,
}
use asyncr.Join
use asyncr.Join.{Pair, join_pair, JoinError}
use asyncr.Join.Store.{Joined, as_before, opened, stepped, IsIntact, Joined-IsIntact, is_waiting}
use asyncr.Shared.{
  Waker, Spawned, SpawnState, Shared, request_schedule, conclude, spawn, submit, publish, ended,
  to_join, poll_spawned,
}
use asyncr.Catch
use asyncr.Executor.Usage.{Uses, stays, wakes, spawns, changes, Uses-trans}
use asyncr.Executor.Polling.{Users, Poll-cases, poll_spawned-Uses}

module _ {F V : Type 0} (wake_custom : ℕ → Shared F V → Shared F V)
    (drop_future : F → Shared F V → Shared F V) where
  spawn-joins :
      (future : F) (s : Shared F V)
      → s.spawns.closed ≡ false
      → (spawn wake_custom drop_future future s).1.joins ≡ s.joins ++ join_pair ∷ []
  unfolding spawn request_schedule
  spawn-joins future s accepting = rw (submit, accepting) refl

  pub Joined-trans : {js ks ls : List (Pair V Waker)} → Joined js ks → Joined ks ls → Joined js ls
  Joined-trans a as_before = a
  Joined-trans a (opened b) = opened (Joined-trans a b)
  Joined-trans a (stepped j b at step) = stepped j (Joined-trans a b) at step

  pub Uses-Joined : {s t : Shared F V} → Uses wake_custom drop_future s t → Joined s.joins t.joins
  unfolding request_schedule
  Uses-Joined stays = as_before
  Uses-Joined (wakes r u) = Uses-Joined u
  Uses-Joined (spawns {t} future u accepting lt) =
      rw (spawn-joins future t accepting) (opened (Uses-Joined u))
  Uses-Joined (changes u e f js) = Joined-trans (Uses-Joined u) js

  -- After the close nothing is spawned.
  pub Uses-closed :
      {s t : Shared F V}
      → Uses wake_custom drop_future s t
      → s.spawns.closed ≡ true
      → t.spawns ≡ s.spawns
  unfolding request_schedule
  Uses-closed stays e = refl
  Uses-closed (wakes r u) e = Uses-closed u e
  Uses-closed (spawns {t} future u accepting lt) e =
      absurd (open_and_closed (ap (λ (s : SpawnState F). s.closed) (Uses-closed u e)) e)
    where
      open_and_closed : {b : Bool} → t.spawns.closed ≡ b → b ≡ true → ⊥
      open_and_closed f g = cc
  Uses-closed (changes u e f js) g = cc (Uses-closed u g)

  module _ (poll_future : Waker → F → Shared F V → Outcome (Poll V) × F × Shared F V)
      (users : Users wake_custom drop_future poll_future) where
    Join_publish-ok :
        (result : Result V JoinError) (pair : Pair V Waker) (p : Panic)
        → pair.armed ≡ is_waiting pair.state
        → (Join.publish result pair).0 ≢ panic p
    unfolding Join.publish Join.publish_inner Join.drop_sender Join.complete
    Join_publish-ok result pair p intact e = ground arith

    conclude-ok :
        (j : ℕ) (answer : Outcome (Option Waker) × Pair V Waker) (s : Shared F V) (p : Panic)
        → ((q : Panic) → answer.0 ≢ panic q)
        → (conclude wake_custom drop_future j answer s).0 ≢ panic p
    unfolding conclude
    conclude-ok j (panic q, pair) s p h e = h q refl
    conclude-ok j (ok none, pair) s p h e = cc
    conclude-ok j (ok (some w), pair) s p h e = cc

    publish-ok :
        (j : ℕ) (result : Result V JoinError) (s : Shared F V) (p : Panic)
        → IsIntact s.joins
        → (publish wake_custom drop_future j result s).0 ≢ panic p
    unfolding publish
    publish-ok j result s p intact = elim (Option-cases (get_elem? s.joins j)) [
      | inl f ↦ rw (publish, f) (λ e. cc)
      | inr (pair, f) ↦
          rw (publish, f)
            (conclude-ok j (Join.publish result pair) s p
              (λ q. Join_publish-ok result pair q (intact j pair f)))
    ]

    ended-ok :
        (j : ℕ) (a : Outcome (Unit {0}) × Shared F V) (p : Panic)
        → ((q : Panic) → a.0 ≢ panic q)
        → (ended wake_custom drop_future poll_future j a).0 ≢ panic p
    unfolding ended
    ended-ok j (panic q, s) p h e = h q refl
    ended-ok j (ok _, s) p h e = cc

    -- A poll of the async block of a spawned task does not panic, also where the poll of its future
    -- does: that panic is caught, and no join is completed twice. It leaves the join pairs well formed:
    -- the sender is there exactly as long as no result is. They are so before, and user code uses the
    -- executor by wakes, spawns and handles; the drop of the future and the wakers of user code,
    -- which run outside the `catch_unwind`, are taken not to panic.
    pub poll_spawned-ok :
        (w : Waker) (t : Spawned F) (s : Shared F V)
        → IsIntact s.joins
        → let (answer, (t', s')) = poll_spawned wake_custom drop_future poll_future w (t, s) in
          ((p : Panic) → answer ≢ panic p) × IsIntact s'.joins
    unfolding poll_spawned Catch.poll
    poll_spawned-ok w t s intact = (
      (λ p. elim (Poll-cases (Catch.poll poll_future w t.inner s).0) [
        | inl f ↦ rw (poll_spawned, f) (λ e. cc)
        | inr (result, f) ↦
            let (_, inner, s') = Catch.poll poll_future w t.inner s in
            let dropped = drop_future inner.future s' in
            let uses =
              Uses-trans wake_custom drop_future (users.polls w t.inner.future s)
                (users.drops inner.future s') in
            let result' = to_join wake_custom drop_future poll_future result in
            rw (poll_spawned, f)
              (ended-ok t.join (publish wake_custom drop_future t.join result' dropped) p (λ q.
                publish-ok t.join result' dropped q (Joined-IsIntact (Uses-Joined uses) intact)))
      ]),
      Joined-IsIntact
          (Uses-Joined (poll_spawned-Uses wake_custom drop_future poll_future users w t s)) intact,
    )
