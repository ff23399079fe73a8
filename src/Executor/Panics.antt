-- ===== src/Executor/Panics.antt =====
-- The panics of the async block of a spawn, in src/handle.rs.
use asyncr.Prelude.{
  ◌≢◌, ℕ, ◌≡◌, refl, subst, inl, inr, Option, none, some, Outcome, ok, panic, Panic,
  join_completed_twice, Poll, ready, pending, arith, Option-cases, get_elem?, Result,
}
use asyncr.Join
use asyncr.Join.{JoinError, Pair}
use asyncr.Catch
use asyncr.Shared.{Waker, Spawned, Shared, conclude, publish, poll_spawned, ended, to_join}
use asyncr.Executor.Polling.{Poll-cases, Users}

ok≢panic {ℓ} : {A : Type ℓ} {a : A} {p : Panic} → ◌≢◌ (ok a) (panic p)
ok≢panic e = cc

module _ {F V : Type 0} (wake_custom : ℕ → Shared F V → Shared F V)
    (drop_future : F → Shared F V → Shared F V) where
  module _ (poll_future : Waker → F → Shared F V → Outcome (Poll V) × F × Shared F V)
      (users : Users wake_custom drop_future poll_future) where
    conclude-panic :
        (j : ℕ) (answer : Outcome (Option Waker) × Pair V Waker) (s : Shared F V) (p : Panic)
        → ((q : Panic) → answer.0 ≡ panic q → q ≡ join_completed_twice)
        → (conclude wake_custom drop_future j answer s).0 ≡ panic p
        → p ≡ join_completed_twice
    unfolding conclude
    conclude-panic j (panic q, pair) s p h e =
        let same : q ≡ p = cc in subst (λ x. x ≡ join_completed_twice) same (h q refl)
    conclude-panic j (ok none, pair) s p h e = cc
    conclude-panic j (ok (some w), pair) s p h e = cc

    Join_publish-panic :
        (result : Result V JoinError) (pair : Pair V Waker) (p : Panic)
        → (Join.publish result pair).0 ≡ panic p
        → p ≡ join_completed_twice
    unfolding Join.publish Join.publish_inner Join.drop_sender Join.complete
    Join_publish-panic result pair p e = ground arith

    publish-panic :
        (j : ℕ) (result : Result V JoinError) (s : Shared F V) (p : Panic)
        → (publish wake_custom drop_future j result s).0 ≡ panic p
        → p ≡ join_completed_twice
    unfolding publish
    publish-panic j result s p e = elim (Option-cases (get_elem? s.joins j)) [
      | inl f ↦ absurd (ok≢panic (subst (λ x. x.0 ≡ panic p) (unpublished f) e))
      | inr (pair, f) ↦
          conclude-panic j (Join.publish result pair) s p (Join_publish-panic result pair)
            (subst (λ x. x.0 ≡ panic p) (published pair f) e)
    ]
      where
        unpublished :
            get_elem? s.joins j ≡ none → publish wake_custom drop_future j result s ≡ (ok tt, s)
        unpublished f = rw (publish, f) refl

        published :
            (pair : Pair V Waker)
            → get_elem? s.joins j ≡ some pair
            → publish wake_custom drop_future j result s
              ≡ conclude wake_custom drop_future j (Join.publish result pair) s
        published pair f = rw (publish, f) refl

    ended-panic :
        (j : ℕ) (a : Outcome (Unit {0}) × Shared F V) (p : Panic)
        → ((q : Panic) → a.0 ≡ panic q → q ≡ join_completed_twice)
        → (ended wake_custom drop_future poll_future j a).0 ≡ panic p
        → p ≡ join_completed_twice
    unfolding ended
    ended-panic j (panic q, s) p h e =
        let same : q ≡ p = cc in subst (λ x. x ≡ join_completed_twice) same (h q refl)
    ended-panic j (ok _, s) p h e = cc

    -- The panics of the user's future are caught.
    pub poll_spawned-panic :
        (w : Waker) (t : Spawned F) (s : Shared F V) (p : Panic)
        → (poll_spawned wake_custom drop_future poll_future w (t, s)).0 ≡ panic p
        → p ≡ join_completed_twice
    unfolding poll_spawned Catch.poll
    poll_spawned-panic w t s p e = elim (Poll-cases (Catch.poll poll_future w t.inner s).0) [
      | inl f ↦ absurd (ok≢panic (subst (λ x. x.0 ≡ panic p) (unfinished f) e))
      | inr (result, f) ↦
          ended-panic t.join (end result) p
            (λ q.
              publish-panic t.join (to_join wake_custom drop_future poll_future result) (dropped) q)
            (subst (λ x. x ≡ panic p) (is_done result f) e)
    ]
      where
        polled : Catch.CatchUnwind F
        polled = (Catch.poll poll_future w t.inner s).1

        after : Shared F V
        after = (Catch.poll poll_future w t.inner s).2

        dropped : Shared F V
        dropped = drop_future polled.future after

        end : Result V Panic → Outcome (Unit {0}) × Shared F V
        end result =
            publish wake_custom drop_future t.join
              (to_join wake_custom drop_future poll_future result) dropped

        unfinished :
            (Catch.poll poll_future w t.inner s).0 ≡ pending
            → poll_spawned wake_custom drop_future poll_future w (t, s)
              ≡ (ok pending, (record t { inner = polled }, after))
        unfinished f = rw (poll_spawned, f) refl

        is_done :
            (result : Result V Panic)
            → (Catch.poll poll_future w t.inner s).0 ≡ ready result
            → (poll_spawned wake_custom drop_future poll_future w (t, s)).0
              ≡ (ended wake_custom drop_future poll_future t.join (end result)).0
        is_done result f = rw (poll_spawned, f) refl
