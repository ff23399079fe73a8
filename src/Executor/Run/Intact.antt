-- ===== src/Executor/Run/Intact.antt =====
-- The join pairs of src/join.rs over the rounds of `next_ready_id` (src/executor.rs).
use asyncr.Prelude.{
  ℕ, zero, suc, ◌≡◌, refl, ap, ◌∙◌, inl, inr, Bool, true, false, List, [], ◌∷◌, Option, none, some,
  Outcome, ok, panic, Panic, join_completed_twice, Poll, arith, leb, Outcome-cases, Bool-cases, ◌-◌,
}
use asyncr.Join.Store.{IsIntact, Joined-IsIntact}
use asyncr.Time.Clock
use asyncr.Time.Driver
use asyncr.Shared.{Waker, Shared, request_schedule}
use asyncr.Executor.{
  Executor, drain_pending_spawns, Pass, received, jumped, must_wait, process_expired, look_ahead,
  try_recv, pass,
}
use asyncr.Executor.Usage.{Quiet-Uses}
use asyncr.Executor.Joins.{Uses-Joined}
use asyncr.Executor.Polling.{Users}
use asyncr.Executor.Passes.{process_expired-Quiet}
use asyncr.Executor.Run.{
  Arrival, Received, got, timed_out, never, Run, returned, panicked, blocked, passes, wakes_by,
  take_ready, receive, next_ready_id,
}

abbrev pub is_twice : Panic → Bool
is_twice join_completed_twice = true
is_twice _ = false

module _ {F V : Type 0} where
  -- What is intact stays so, and a panic is another one.
  abbrev pub Once : {A : Type 0} → Outcome A → Executor F V → Type 0
  Once answer ex = IsIntact ex.shared.joins × ((p : Panic) → answer ≡ panic p → is_twice p ≡ false)

  -- What the loops keep.
  abbrev pub Held : {A : Type 0} → Run A → Executor F V → Type 0
  Held run ex = IsIntact ex.shared.joins × ((p : Panic) → run ≡ panicked p → is_twice p ≡ false)

pub same_panic :
    {A B : Type 0} {p q : Panic}
    → ◌≡◌ {A = Outcome A} (panic p) (panic q)
    → ◌≡◌ {A = Outcome B} (panic p) (panic q)
same_panic e = let same : _ ≡ _ = cc e in ap panic same

module _ {F V : Type 0} (limit : ℕ) (wake_custom : ℕ → Shared F V → Shared F V)
    (drop_future : F → Shared F V → Shared F V)
    (poll_future : Waker → F → Shared F V → Outcome (Poll V) × F × Shared F V)
    (users : Users wake_custom drop_future poll_future) where
  process_expired-twice :
      (s : Shared F V) (p : Panic)
      → (process_expired limit wake_custom drop_future poll_future s).0 ≡ panic p
      → is_twice p ≡ false
  unfolding process_expired Clock.now
  process_expired-twice s p e = ground arith

  try_recv-joins :
      (ids : List ℕ) (s : Shared F V)
      → let (answer, after) = try_recv limit wake_custom drop_future poll_future ids s in
        (after.joins ≡ s.joins) × ((p : Panic) → answer ≡ panic p → is_twice p ≡ false)
  unfolding try_recv look_ahead Driver.advance_to_next_deadline_if_paused
      Driver.time_until_next_deadline Clock.advance_to Clock.now
  try_recv-joins (id ∷ ids) s = (refl, λ p e. cc)
  try_recv-joins [] s = ground arith

  pub pass-Once :
      (ex : Executor F V)
      → IsIntact ex.shared.joins
      → let (answer, after) = pass limit wake_custom drop_future poll_future ex in Once answer after
  unfolding pass drain_pending_spawns
  pass-Once ex intact =
      let ex' = drain_pending_spawns ex in
      let s = (process_expired limit wake_custom drop_future poll_future ex'.shared).1 in
      let kept : IsIntact s.joins =
        Joined-IsIntact
          (Uses-Joined wake_custom drop_future (
            Quiet-Uses wake_custom drop_future
              (process_expired-Quiet limit wake_custom drop_future poll_future users ex'.shared)))
          intact in
      elim (Outcome-cases
        (process_expired limit wake_custom drop_future poll_future ex'.shared).0) [
          | inl (p, e) ↦
              rw (pass, e) (kept, λ q f. process_expired-twice ex'.shared q (e ∙ same_panic f))
          | inr (x, e) ↦
              let (same, other) = try_recv-joins s.scheduler.ready s in
              rw (pass, e) (rw same kept, other)
        ]

  abbrev passed : Executor F V → Outcome Pass × Executor F V
  passed = pass limit wake_custom drop_future poll_future

  abbrev woken : Arrival → Shared F V → Shared F V
  woken a s =
      wakes_by limit wake_custom drop_future poll_future a.wakes
        (passes limit wake_custom drop_future poll_future a.elapsed s)

  wakes_by-joins :
      (rs : List ℕ) (s : Shared F V)
      → (wakes_by limit wake_custom drop_future poll_future rs s).joins ≡ s.joins
  unfolding wakes_by request_schedule
  wakes_by-joins [] s = refl
  wakes_by-joins (r ∷ rs) s = wakes_by-joins rs (request_schedule wake_custom drop_future r s)

  taken-joins :
      (ids : List ℕ) (env : List Arrival) (s s' : Shared F V)
      (rest : Received × List Arrival × Shared F V)
      → s'.joins ≡ s.joins
      → rest.2.joins ≡ s'.joins
      → (take_ready limit wake_custom drop_future poll_future ids s'
          (λ id after. (got id, env, after))
          rest).2.joins
        ≡ s.joins
  taken-joins [] env s s' rest e f = f ∙ e
  taken-joins (id ∷ ids) env s s' rest e f = e

  receive-joins :
      (timeout : Option ℕ) (env : List Arrival) (s : Shared F V)
      → (receive limit wake_custom drop_future poll_future timeout env s).2.joins ≡ s.joins
  unfolding receive
  receive-joins none [] s = refl
  receive-joins (some t) [] s = refl
  receive-joins none (a ∷ env) s =
      let s' = woken a s in
      taken-joins s'.scheduler.ready env s s'
        (receive limit wake_custom drop_future poll_future none env s')
        (wakes_by-joins a.wakes (passes limit wake_custom drop_future poll_future a.elapsed s))
        (receive-joins none env s')
  receive-joins (some t) (a ∷ env) s =
      let s' = woken a s in
      let later = receive-joins (some (t - a.elapsed)) env s' in
      elim (Bool-cases (leb t a.elapsed)) [
        | inl e ↦ rw e refl
        | inr e ↦ rw e (
            taken-joins s'.scheduler.ready env s s'
              (receive limit wake_custom drop_future poll_future (some (t - a.elapsed)) env s')
              (wakes_by-joins a.wakes
                (passes limit wake_custom drop_future poll_future a.elapsed s))
              later)
      ]

  -- The rest of a round of `next_ready_id`, behind its wait and behind its pass.
  abbrev OutcomeOf : Type 0
  OutcomeOf = Run ℕ × List Arrival × Executor F V

  abbrev HeldBy : OutcomeOf → Type 0
  HeldBy (run, _, ex) = Held run ex

  abbrev after_wait :
      (List Arrival → Executor F V → OutcomeOf)
      → Executor F V
      → Received × List Arrival × Shared F V
      → OutcomeOf
  after_wait again ex (answer, env, shared) = elim answer [
    | got id ↦ (returned id, env, record ex { shared = shared })
    | timed_out ↦ again env (record ex { shared = shared })
    | never ↦ (blocked, env, record ex { shared = shared })
  ]

  abbrev after_pass :
      (List Arrival → Executor F V → OutcomeOf)
      → List Arrival
      → Outcome Pass
      → Executor F V
      → OutcomeOf
  after_pass again env answer ex = elim answer [
    | panic p ↦ (panicked p, env, ex)
    | ok (received id) ↦ (returned id, env, ex)
    | ok jumped ↦ again env ex
    | ok (must_wait timeout) ↦
        after_wait again ex
          (receive limit wake_custom drop_future poll_future timeout env ex.shared)
  ]

  after_wait-Held :
      (again : List Arrival → Executor F V → OutcomeOf)
      → ((env : List Arrival) (ex : Executor F V)
          → IsIntact ex.shared.joins
          → HeldBy (again env ex))
      → (ex : Executor F V) (answer : Received) (env : List Arrival) (s : Shared F V)
      → IsIntact s.joins
      → HeldBy (after_wait again ex (answer, env, s))
  after_wait-Held again holds ex (got id) env s intact = (intact, λ p e. cc)
  after_wait-Held again holds ex timed_out env s intact =
      holds env (record ex { shared = s }) intact
  after_wait-Held again holds ex never env s intact = (intact, λ p e. cc)

  after_pass-Held :
      (again : List Arrival → Executor F V → OutcomeOf)
      → ((env : List Arrival) (ex : Executor F V)
          → IsIntact ex.shared.joins
          → HeldBy (again env ex))
      → (env : List Arrival) (answer : Outcome Pass) (ex : Executor F V) → Once answer ex
      → HeldBy (after_pass again env answer ex)
  after_pass-Held again holds env (panic p) ex (intact, other) =
      (intact, λ q e. other q (ap panic (panicked_same e)))
    where
      panicked_same : {q : Panic} → ◌≡◌ {A = Run ℕ} (panicked p) (panicked q) → p ≡ q
      panicked_same f = cc
  after_pass-Held again holds env (ok (received id)) ex (intact, other) = (intact, λ p e. cc)
  after_pass-Held again holds env (ok jumped) ex (intact, other) = holds env ex intact
  after_pass-Held again holds env (ok (must_wait timeout)) ex (intact, other) =
      let (answer, env', s) =
        receive limit wake_custom drop_future poll_future timeout env ex.shared in
      after_wait-Held again holds ex answer env' s (rw (receive-joins timeout env ex.shared) intact)

  pub next_ready_id-Held :
      (fuel : ℕ) (env : List Arrival) (ex : Executor F V)
      → IsIntact ex.shared.joins
      → HeldBy (next_ready_id limit wake_custom drop_future poll_future fuel env ex)
  unfolding next_ready_id
  next_ready_id-Held zero env ex intact = (intact, λ p e. cc)
  next_ready_id-Held (suc fuel) env ex intact =
      after_pass-Held (next_ready_id limit wake_custom drop_future poll_future fuel)
        (λ env' ex'. next_ready_id-Held fuel env' ex') env (passed ex).0 (passed ex).1
        (pass-Once ex intact)
