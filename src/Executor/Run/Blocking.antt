-- ===== src/Executor/Run/Blocking.antt =====
-- The blocking receive of src/executor.rs: how long it waits, and what it leaves alone.
use asyncr.Prelude.{
  ℕ, ◌+◌, ◌-◌, ◌≤◌, ◌≡◌, refl, ap, ◌∙◌, inl, inr, ◌≢◌, List, [], ◌∷◌, Option, none, some, Outcome,
  Poll, arith, leb, Bool-cases,
}
use asyncr.Shared.{Waker, Shared, request_schedule}
use asyncr.Executor.Waiting.{Clockwork, clockwork}
use asyncr.Executor.Run.{Arrival, Received, got, timed_out, passes, wakes_by, take_ready, receive}

module _ {F V : Type 0} (limit : ℕ) (wake_custom : ℕ → Shared F V → Shared F V)
    (drop_future : F → Shared F V → Shared F V)
    (poll_future : Waker → F → Shared F V → Outcome (Poll V) × F × Shared F V) where
  abbrev pub heard : Option ℕ → List Arrival → Shared F V → Received × List Arrival × Shared F V
  heard = receive limit wake_custom drop_future poll_future

  pub wakes_by-clockwork :
      (rs : List ℕ) (s : Shared F V)
      → clockwork (wakes_by limit wake_custom drop_future poll_future rs s) ≡ clockwork s
  unfolding wakes_by request_schedule
  wakes_by-clockwork [] s = refl
  wakes_by-clockwork (r ∷ rs) s =
      wakes_by-clockwork rs (request_schedule wake_custom drop_future r s)

  -- A wait without a timeout does not time out.
  pub receive_forever : (env : List Arrival) (s : Shared F V) → (heard none env s).0 ≢ timed_out
  unfolding receive
  receive_forever [] s e = cc
  receive_forever (a ∷ env) s e = taken s'.scheduler.ready (receive_forever env s') e
    where
      s' : Shared F V
      s' =
          wakes_by limit wake_custom drop_future poll_future a.wakes
            (passes limit wake_custom drop_future poll_future a.elapsed s)

      taken :
          (ids : List ℕ)
          → (heard none env s').0 ≢ timed_out
          → (take_ready limit wake_custom drop_future poll_future ids s'
              (λ id t. (got id, env, t))
              (heard none env s')).0
            ≢ timed_out
      taken [] h e = h e
      taken (id ∷ ids) h e = cc

  -- A wait that times out has lasted as long as it should.
  abbrev pub IsLate : ℕ → Shared F V → Received × List Arrival × Shared F V → Type 0
  IsLate t s (answer, env, after) =
      answer ≡ timed_out
      → (after.timers ≡ s.timers) × (after.clock ≡ s.clock) × (s.system + t ≤ after.system)

  IsLate-taken :
      (ids : List ℕ) (t : ℕ) (env : List Arrival) (s s' : Shared F V)
      (rest : Received × List Arrival × Shared F V)
      → IsLate t s rest
      → IsLate t s (
          take_ready limit wake_custom drop_future poll_future ids s'
            (λ id t. (got id, env, t))
            rest)
  IsLate-taken [] t env s s' rest h = h
  IsLate-taken (id ∷ ids) t env s s' rest h = λ e. cc

  pub receive-IsLate :
      (t : ℕ) (env : List Arrival) (s : Shared F V) → IsLate t s (heard (some t) env s)
  unfolding receive
  receive-IsLate t [] s = λ e. (refl, refl, omega arith)
  receive-IsLate t (a ∷ env) s =
      let woken = passes limit wake_custom drop_future poll_future a.elapsed s in
      let s' = wakes_by limit wake_custom drop_future poll_future a.wakes woken in
      let rest = heard (some (t - a.elapsed)) env s' in
      elim (Bool-cases (leb t a.elapsed)) [
        | inl e ↦ rw e (λ _. (refl, refl, omega arith))
        | inr e ↦ rw e (
            IsLate-taken s'.scheduler.ready t env s s' rest (
              onward a.elapsed s' rest (wakes_by-clockwork a.wakes woken)
                (receive-IsLate (t - a.elapsed) env s')))
      ]
    where
      onward :
          (u : ℕ) (s' : Shared F V) (rest : Received × List Arrival × Shared F V)
          → clockwork s' ≡ (s.timers, s.clock, s.system + u)
          → IsLate (t - u) s' rest
          → IsLate t s rest
      onward u s' rest e h f =
          let (k, l, m) = h f in
          let same : s'.system ≡ s.system + u = ap (λ (c : Clockwork). c.2) e in
          (
            k ∙ ap (λ (c : Clockwork). c.0) e,
            l ∙ ap (λ (c : Clockwork). c.1) e,
            omega (arith, m, same),
          )
