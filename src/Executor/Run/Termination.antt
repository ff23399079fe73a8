-- ===== src/Executor/Run/Termination.antt =====
-- How many rounds `next_ready_id` of src/executor.rs takes.
use asyncr.Prelude.{
  ℕ, zero, suc, ◌+◌, ◌≤◌, ◌<◌, ◌≡◌, refl, ap, sym, subst, ◌∙◌, ◌⊎◌, inl, inr, ◌≢◌, List, [], ◌∷◌,
  Option, none, some, Outcome, ok, panic, Panic, Poll, arith, length, Outcome-cases,
}
use asyncr.Time.Clock
use asyncr.Time.Driver
use asyncr.Time.Driver.Dwindling.{length-process_expired, length-process_expired_lt}
use asyncr.Time.Driver.Fired.{process_expired-removes}
use asyncr.Shared.{Waker, task, custom, Shared, request_schedule, wake, wake_all}
use asyncr.Executor.{
  Executor, drain_pending_spawns, Pass, received, jumped, must_wait, process_expired, look_ahead,
  try_recv, pass,
}
use asyncr.Time.Driver.Invariant.{Inv}
use asyncr.Executor.Waiting.{
  IsStarted, clockwork, IsDue, Ticking, look_jumped, look-Waited, look_ahead-system,
}
use asyncr.Executor.Run.{Arrival, Received, got, timed_out, never, unfinished, next_ready_id}
use asyncr.Executor.Run.Blocking.{heard, receive_forever, receive-IsLate}

module _ {F V : Type 0} (limit : ℕ) (wake_custom : ℕ → Shared F V → Shared F V)
    (drop_future : F → Shared F V → Shared F V)
    (poll_future : Waker → F → Shared F V → Outcome (Poll V) × F × Shared F V) where
  -- The state in front of a pass's look at the channel.
  abbrev middle : Executor F V → Outcome (Unit {0}) × Shared F V
  middle ex =
      process_expired limit wake_custom drop_future poll_future (drain_pending_spawns ex).shared

  module _ (still : (k : ℕ) (s : Shared F V) → clockwork (wake_custom k s) ≡ clockwork s) where
    wake_all-clockwork :
        (ws : List Waker) (s : Shared F V)
        → clockwork (wake_all wake_custom drop_future ws s) ≡ clockwork s
    unfolding wake_all wake request_schedule
    wake_all-clockwork [] s = refl
    wake_all-clockwork (task r ∷ ws) s =
        wake_all-clockwork ws (request_schedule wake_custom drop_future r s)
    wake_all-clockwork (custom k ∷ ws) s = wake_all-clockwork ws (wake_custom k s) ∙ still k s

    middle-clockwork :
        (now : ℕ) (ex : Executor F V)
        → Clock.now limit ex.shared.system ex.shared.clock ≡ ok now
        → clockwork (middle ex).1
          ≡ ((Driver.process_expired now ex.shared.timers).1, ex.shared.clock, ex.shared.system)
    unfolding process_expired drain_pending_spawns
    middle-clockwork now ex e =
        let (wakers, timers) = Driver.process_expired now ex.shared.timers in
        let shared = (drain_pending_spawns ex).shared in
        rw (process_expired, e) (wake_all-clockwork wakers (record shared { timers = timers }))

    -- A pass fires what is due.
    middle-Ticking :
        (now bound : ℕ) (ex : Executor F V)
        → Clock.now limit ex.shared.system ex.shared.clock ≡ ok now
        → Ticking limit (suc bound) (clockwork ex.shared)
        → IsDue limit (clockwork ex.shared) ⊎ (length ex.shared.timers.registrations ≤ bound)
        → Ticking limit bound (clockwork (middle ex).1)
    middle-Ticking now bound ex e g few =
        let (v, _, _) = process_expired-removes now ex.shared.timers g.timed in
        rw (middle-clockwork now ex e) (record {
          timed = v;
          started = g.started;
          few = elim few [
            | inl due ↦
                let (j, r, at, le) = due now e in
                omega
                  (arith, g.few, length-process_expired_lt now j r ex.shared.timers g.timed at le)
            | inr le ↦ omega (arith, le, length-process_expired now ex.shared.timers)
          ];
        })

    abbrev passed : Executor F V → Outcome Pass × Executor F V
    passed = pass limit wake_custom drop_future poll_future

    abbrev looked : Shared F V → Outcome Pass × Shared F V
    looked = look_ahead limit wake_custom drop_future poll_future

    tried :
        (ids : List ℕ) (q : Pass) (s : Shared F V)
        → ((id : ℕ) → q ≢ received id)
        → (try_recv limit wake_custom drop_future poll_future ids s).0 ≡ ok q
        → ((looked s).0 ≡ ok q)
          × ((try_recv limit wake_custom drop_future poll_future ids s).1 ≡ (looked s).1)
    unfolding try_recv
    tried (id ∷ ids) q s unheard e = absurd (unheard id (cc))
    tried [] q s unheard e = (e, refl)

    -- A pass that goes on has looked ahead.
    pass_looks :
        (q : Pass) (ex : Executor F V)
        → ((id : ℕ) → q ≢ received id)
        → (passed ex).0 ≡ ok q
        → ((looked (middle ex).1).0 ≡ ok q) × ((passed ex).1.shared ≡ (looked (middle ex).1).1)
    unfolding pass
    pass_looks q ex unheard e = elim (Outcome-cases (middle ex).0) [
      | inl (p, f) ↦ absurd (ok_panic (rw (pass, f) at e))
      | inr (x, f) ↦
          rw (pass, f)
            (tried (middle ex).1.scheduler.ready q (middle ex).1 unheard (rw (pass, f) at e))
    ]
      where
        ok_panic : {p : Panic} → ◌≡◌ {A = Outcome Pass} (panic p) (ok q) → ⊥
        ok_panic h = cc

    -- Without a reading of the clock the pass is the last.
    pass_lost :
        (p : Panic) (ex : Executor F V)
        → Clock.now limit ex.shared.system ex.shared.clock ≡ panic p
        → (passed ex).0 ≡ panic p
    unfolding pass process_expired drain_pending_spawns
    pass_lost p ex e = rw (pass, process_expired, e) refl

    module _ (bound : ℕ)
        (onward : (env : List Arrival) (ex : Executor F V)
          → IsDue limit (clockwork ex.shared)
          → Ticking limit bound (clockwork ex.shared)
          → (next_ready_id limit wake_custom drop_future poll_future (suc bound) env ex).0
            ≢ unfinished)
        (env : List Arrival) (ex : Executor F V)
        (g : Ticking limit bound (clockwork (middle ex).1)) where
      abbrev Goal : Type 0
      Goal =
          (next_ready_id limit wake_custom drop_future poll_future (suc (suc bound)) env ex).0
          ≢ unfinished

      after_wait :
          (timeout : Option ℕ) (answer : Received)
          → (passed ex).0 ≡ ok (must_wait timeout)
          → (heard limit wake_custom drop_future poll_future timeout env (passed ex).1.shared).0
            ≡ answer
          → Goal
      unfolding next_ready_id
      after_wait timeout (got id) e h = rw (next_ready_id, e, h) (λ k. cc)
      after_wait timeout never e h = rw (next_ready_id, e, h) (λ k. cc)
      after_wait none timed_out e h =
          absurd
            (receive_forever limit wake_custom drop_future poll_future env (passed ex).1.shared h)
      after_wait (some t) timed_out e h =
          let (l, same) = pass_looks (must_wait (some t)) ex (λ id k. cc) e in
          let s = (passed ex).1.shared in
          let out = heard limit wake_custom drop_future poll_future (some t) env s in
          let (a, b, late) = receive-IsLate limit wake_custom drop_future poll_future t env s h in
          let ahead = (looked (middle ex).1).1 in
          let same_system : s.system ≡ (middle ex).1.system =
            ap (λ (s : Shared F V). s.system) same
            ∙ look_ahead-system limit wake_custom drop_future poll_future (middle ex).1 in
          let shown : clockwork out.2 ≡ (ahead.timers, ahead.clock, out.2.system) = λ i. (
            (a ∙ ap (λ (s : Shared F V). s.timers) same) i,
            (b ∙ ap (λ (s : Shared F V). s.clock) same) i,
            out.2.system,
          ) in
          let (due, ticking) =
            look-Waited limit wake_custom drop_future poll_future bound t out.2.system (middle ex).1
              g l (omega (arith, late, same_system)) in
          rw (next_ready_id, e, h)
            (onward out.1 (let ex' = (passed ex).1 in record ex' { shared = out.2 })
              (subst (IsDue limit) (sym shown) due)
              (subst (Ticking limit bound) (sym shown) ticking))

      round : (answer : Outcome Pass) → (passed ex).0 ≡ answer → Goal
      unfolding next_ready_id
      round (panic p) e = rw (next_ready_id, e) (λ k. cc)
      round (ok (received id)) e = rw (next_ready_id, e) (λ k. cc)
      round (ok jumped) e =
          let (l, same) = pass_looks jumped ex (λ id k. cc) e in
          let (due, ticking) =
            look_jumped limit wake_custom drop_future poll_future bound (middle ex).1 g l in
          rw (next_ready_id, e) (onward env (passed ex).1 (rw same due) (rw same ticking))
      round (ok (must_wait timeout)) e =
          after_wait timeout
            (heard limit wake_custom drop_future poll_future timeout env (passed ex).1.shared).0 e
            refl

    ends :
        (bound : ℕ) (env : List Arrival) (ex : Executor F V)
        → Ticking limit bound (clockwork ex.shared)
        → IsDue limit (clockwork ex.shared) ⊎ (length ex.shared.timers.registrations < bound)
        → (next_ready_id limit wake_custom drop_future poll_future (suc bound) env ex).0
          ≢ unfinished
    unfolding next_ready_id
    ends zero env ex g few =
        elim (Outcome-cases (Clock.now limit ex.shared.system ex.shared.clock)) [
          | inl (p, e) ↦ rw (next_ready_id, pass_lost p ex e) (λ k. cc)
          | inr (now, e) ↦ elim few [
            | inl due ↦
                let (j, r, at, le) = due now e in
                absurd (
                  omega (
                    arith,
                    g.few,
                    length-process_expired_lt now j r ex.shared.timers g.timed at le,
                  ))
            | inr lt ↦ absurd (omega (arith, lt))
          ]
        ]
    ends (suc bound) env ex g few =
        elim (Outcome-cases (Clock.now limit ex.shared.system ex.shared.clock)) [
          | inl (p, e) ↦ rw (next_ready_id, pass_lost p ex e) (λ k. cc)
          | inr (now, e) ↦
              round bound (λ env' ex' due ticking. ends bound env' ex' ticking (inl due)) env ex
                (middle-Ticking now bound ex e g
                  (elim few [ inl due ↦ inl due | inr lt ↦ inr (omega (arith, lt)) ]))
                (passed ex).0 refl
        ]

    -- `next_ready_id` does not go round for ever: with two rounds more than there are timers it has
    -- received an id, has panicked, or is blocked with nothing left that could wake it, whatever
    -- arrives in the meantime, on a running clock and on a paused one. The timers are well formed,
    -- a running clock was started in the past, and the wakers of user code leave the timers and the
    -- clock alone.
    pub next_ready_id-ends :
        (fuel : ℕ) (env : List Arrival) (ex : Executor F V)
        → Inv ex.shared.timers
        → IsStarted ex.shared.clock ex.shared.system
        → length ex.shared.timers.registrations + 2 ≤ fuel
        → (next_ready_id limit wake_custom drop_future poll_future fuel env ex).0 ≢ unfinished
    next_ready_id-ends zero env ex v started enough = absurd (omega (arith, enough))
    next_ready_id-ends (suc fuel) env ex v started enough =
        ends fuel env ex (record { timed = v; started = started; few = omega (arith, enough) })
          (inr (omega (arith, enough)))
