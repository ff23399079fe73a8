-- ===== src/Executor/Delivery.antt =====
-- How the result of a spawned task reaches its join handle: the async block of src/handle.rs over
-- src/catch.rs and src/join.rs.
use asyncr.Prelude.{
  ℕ, ◌≡◌, refl, ap, ◌∙◌, true, false, Option, none, some, Outcome, ok, panic, Poll, ready, pending,
  Result, value, error, arith, get_elem?, set, get_elem?-set_self,
}
use asyncr.Schedule
use asyncr.Schedule.{Scheduler}
use asyncr.Catch
use asyncr.Join
use asyncr.Join.{Pair, JoinError, JoinState, waiting, finished, panicked}
use asyncr.Shared.{
  Waker, task, Spawned, Shared, request_schedule, wake, conclude, publish, ended, poll_spawned,
}

-- What the join handle is to be given, once the future has ended.
abbrev pub result_of : {V : Type 0} → Outcome (Poll V) → Option (Result V JoinError)
result_of (ok (ready v)) = some (value v)
result_of (ok pending) = none
result_of (panic p) = some (error panicked)

-- The waker that the handle left: that of a task, where there is one.
abbrev pub waker_of : Option ℕ → Option Waker
waker_of none = none
waker_of (some r) = some (task r)

abbrev pub woken_by : Option ℕ → Scheduler → Scheduler
woken_by none s = s
woken_by (some r) s = Schedule.request_schedule r s

module _ {F V : Type 0} (wake_custom : ℕ → Shared F V → Shared F V)
    (drop_future : F → Shared F V → Shared F V)
    (poll_future : Waker → F → Shared F V → Outcome (Poll V) × F × Shared F V) where
  -- The pair once the result has been published.
  abbrev delivered : Result V JoinError → Pair V Waker
  delivered r = record { armed = false; state = finished r }

  publish-delivered :
      (j : ℕ) (r : Result V JoinError) (s : Shared F V) (o : Option ℕ)
      → get_elem? s.joins j ≡ some (record { armed = true; state = waiting (waker_of o) })
      → publish wake_custom drop_future j r s ≡ (
        ok tt,
        record s { joins = set s.joins j (delivered r); scheduler = woken_by o s.scheduler },
      )
  unfolding publish conclude wake request_schedule Join.publish Join.publish_inner Join.drop_sender
      Join.complete
  publish-delivered j r s none e = rw (publish, e)
  publish-delivered j r s (some q) e = rw (publish, e)

  -- The state in which the result is published: the future has been polled and dropped.
  abbrev pub dropped : Waker → Spawned F → Shared F V → Shared F V
  dropped w t s = let (_, future, s') = poll_future w t.inner.future s in drop_future future s'

  poll_spawned-published :
      (w : Waker) (t : Spawned F) (s : Shared F V) (answer : Outcome (Poll V))
      (r : Result V JoinError)
      → (poll_future w t.inner.future s).0 ≡ answer
      → result_of answer ≡ some r
      → let (end, after) =
          ended wake_custom drop_future poll_future t.join
            (publish wake_custom drop_future t.join r (dropped w t s)) in
        ((poll_spawned wake_custom drop_future poll_future w (t, s)).0 ≡ end)
        × ((poll_spawned wake_custom drop_future poll_future w (t, s)).1.1 ≡ after)
  unfolding poll_spawned Catch.poll Catch.caught
  poll_spawned-published w t s (ok (ready v)) r e f =
      let same : r ≡ value v = ground (arith, f) in rw same (rw (poll_spawned, e) (refl, refl))
  poll_spawned-published w t s (ok pending) r e f = cc
  poll_spawned-published w t s (panic p) r e f =
      let same : r ≡ error panicked = ground (arith, f) in
      rw same (rw (poll_spawned, e) (refl, refl))

  -- Once the future of a spawned task has ended, the poll of its task ends too, and the join handle
  -- has the result: the future's output, or that it panicked. The task that waits on the handle, if
  -- there is one, is woken, and nothing else changes. When the future had been dropped the handle
  -- was still waiting, without a waker or with a task's.
  pub poll_spawned-delivers :
      (w : Waker) (t : Spawned F) (s : Shared F V) (r : Result V JoinError) (o : Option ℕ)
      → result_of (poll_future w t.inner.future s).0 ≡ some r
      → get_elem? (dropped w t s).joins t.join
        ≡ some (record { armed = true; state = waiting (waker_of o) })
      → let (answer, (t', after)) = poll_spawned wake_custom drop_future poll_future w (t, s) in
        let before = dropped w t s in
        (answer ≡ ok (ready tt))
        × ((pair : Pair V Waker) × (get_elem? after.joins t.join ≡ some pair)
            × ((v : Waker) → (Join.poll v pair.state).0 ≡ ok (ready r)))
        × (after ≡ record before {
          joins = set before.joins t.join (delivered r);
          scheduler = woken_by o before.scheduler;
        })
  unfolding ended Join.poll
  poll_spawned-delivers w t s r o e f =
      let before = dropped w t s in
      let (answered, left) =
        poll_spawned-published w t s (poll_future w t.inner.future s).0 r refl e in
      let told = publish-delivered t.join r before o f in
      let finish : Shared F V = record before {
        joins = set before.joins t.join (delivered r);
        scheduler = woken_by o before.scheduler;
      } in
      let same : (poll_spawned wake_custom drop_future poll_future w (t, s)).1.1 ≡ finish =
        left ∙ ap (λ x. (ended wake_custom drop_future poll_future t.join x).1) told in
      (
        answered ∙ ap (λ x. (ended wake_custom drop_future poll_future t.join x).0) told,
        (
          delivered r,
          ap (λ (x : Shared F V). get_elem? x.joins t.join) same
              ∙ get_elem?-set_self before.joins t.join (delivered r) f,
          λ v. refl,
        ),
        same,
      )
