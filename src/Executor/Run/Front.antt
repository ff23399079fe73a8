-- ===== src/Executor/Run/Front.antt =====
-- The head of the ready channel of src/executor.rs, and the pass that takes it.
use asyncr.Prelude.{
  ℕ, zero, suc, ◌≡◌, refl, sym, ap, ◌∙◌, ◌⊎◌, inl, inr, List, [], ◌∷◌, ◌++◌, some, Outcome, ok,
  panic, Panic, clock_out_of_range, Poll, arith, get_elem?, Outcome-cases,
}
use asyncr.Time.Clock
use asyncr.Shared.{Waker, Shared}
use asyncr.Executor.{
  Executor, drain_pending_spawns, Pass, received, process_expired, try_recv, pass,
}
use asyncr.Executor.Usage.{Quiet-Uses}
use asyncr.Executor.Polling.{Users}
use asyncr.Executor.Passes.{process_expired-Quiet, look_ahead-keeps}
use asyncr.Executor.Run.Queue.{Extends, Uses-Extends}

pub get_elem?-Extends :
    (xs ys : List ℕ) (k id : ℕ)
    → Extends xs ys
    → get_elem? xs k ≡ some id
    → get_elem? ys k ≡ some id
get_elem?-Extends xs ys k id (more, e) f = rw e (in_front xs more k f)
  where
    in_front :
        (us vs : List ℕ) (j : ℕ) → get_elem? us j ≡ some id → get_elem? (us ++ vs) j ≡ some id
    in_front [] vs j g = cc
    in_front (u ∷ us) vs zero g = g
    in_front (u ∷ us) vs (suc j) g = in_front us vs j g

-- What stands somewhere in the channel has something at its head.
pub get_elem?-first :
    (ids : List ℕ) (i id : ℕ) → get_elem? ids i ≡ some id → (h : ℕ) × (get_elem? ids 0 ≡ some h)
get_elem?-first [] i id e = cc
get_elem?-first (h ∷ ids) i id e = (h, refl)

module _ {F V : Type 0} (limit : ℕ) (wake_custom : ℕ → Shared F V → Shared F V)
    (drop_future : F → Shared F V → Shared F V)
    (poll_future : Waker → F → Shared F V → Outcome (Poll V) × F × Shared F V)
    (users : Users wake_custom drop_future poll_future) where
  abbrev passed : Executor F V → Outcome Pass × Executor F V
  passed = pass limit wake_custom drop_future poll_future

  -- The state once the expired timers have been woken.
  abbrev fired : Executor F V → Outcome (Unit {0}) × Shared F V
  fired ex =
      process_expired limit wake_custom drop_future poll_future (drain_pending_spawns ex).shared

  fired-Extends :
      (ex : Executor F V) → Extends ex.shared.scheduler.ready (fired ex).1.scheduler.ready
  unfolding drain_pending_spawns
  fired-Extends ex = Uses-Extends wake_custom drop_future (
      Quiet-Uses wake_custom drop_future (
        process_expired-Quiet limit wake_custom drop_future poll_future users
          (drain_pending_spawns ex).shared))

  -- What stands in the channel comes first.
  heard :
      (ids : List ℕ) (s : Shared F V) (id : ℕ)
      → (try_recv limit wake_custom drop_future poll_future ids s).0 ≡ ok (received id)
      → ids ≡ id ∷ (try_recv limit wake_custom drop_future poll_future ids s).1.scheduler.ready
  unfolding try_recv
  heard (first ∷ ids) s id e = ground (arith, e)
  heard [] s id e =
      let (_, _, unheard, _) = look_ahead-keeps limit wake_custom drop_future poll_future users s in
      absurd (unheard id e)

  abbrev tried : Executor F V → Outcome Pass × Shared F V
  tried ex =
      let s = (fired ex).1 in try_recv limit wake_custom drop_future poll_future s.scheduler.ready s

  pass_lost : (ex : Executor F V) (p : Panic) → (fired ex).0 ≡ panic p → (passed ex).0 ≡ panic p
  unfolding pass
  pass_lost ex p e = rw (pass, e)

  pass_tried :
      (ex : Executor F V) (x : Unit {0})
      → (fired ex).0 ≡ ok x
      → passed ex ≡ ((tried ex).0, record (drain_pending_spawns ex) { shared = (tried ex).1 })
  unfolding pass
  pass_tried ex x e = rw (pass, e)

  received_panic : {o : Outcome Pass} (p : Panic) (id : ℕ) → o ≡ panic p → o ≡ ok (received id) → ⊥
  received_panic p id e f = cc

  pub pass-Extends :
      (ex : Executor F V) (id : ℕ)
      → (passed ex).0 ≡ ok (received id)
      → Extends ex.shared.scheduler.ready (id ∷ (passed ex).1.shared.scheduler.ready)
  pass-Extends ex id e = elim (Outcome-cases (fired ex).0) [
    | inl (p, f) ↦ absurd (received_panic p id (pass_lost ex p f) e)
    | inr (x, f) ↦
        let s = (fired ex).1 in
        let q = pass_tried ex x f in
        let front = heard s.scheduler.ready s id (sym (ap (λ o. o.0) q) ∙ e) in
        let left : (passed ex).1.shared.scheduler.ready ≡ (tried ex).1.scheduler.ready =
          ap (λ o. o.1.shared.scheduler.ready) q in
        rw left (rw (sym front) (fired-Extends ex))
  ]

  first_received :
      (i : ℕ) (ids : List ℕ) (s : Shared F V) {id : ℕ}
      → i ≡ id
      → (try_recv limit wake_custom drop_future poll_future (i ∷ ids) s).0 ≡ ok (received id)
  unfolding try_recv
  first_received i ids s e = rw e refl

  pass_late : (ex : Executor F V) (p : Panic) → (fired ex).0 ≡ panic p → p ≡ clock_out_of_range
  unfolding process_expired Clock.now
  pass_late ex p e = ground arith

  -- The id at the head of the channel is the one that a pass receives, unless the clock is past the
  -- limit.
  pub pass_first :
      (ex : Executor F V) (id : ℕ)
      → get_elem? ex.shared.scheduler.ready 0 ≡ some id
      → ((passed ex).0 ≡ ok (received id)) ⊎ ((passed ex).0 ≡ panic clock_out_of_range)
  pass_first ex id e = elim (Outcome-cases (fired ex).0) [
    | inl (p, f) ↦ inr (pass_lost ex p f ∙ ap panic (pass_late ex p f))
    | inr (x, f) ↦
        let s = (fired ex).1 in
        let at =
          get_elem?-Extends ex.shared.scheduler.ready s.scheduler.ready 0 id (fired-Extends ex) e in
        inl (ap (λ o. o.0) (pass_tried ex x f) ∙ first_taken s.scheduler.ready s at)
  ]
    where
      first_taken :
          (ids : List ℕ) (s : Shared F V)
          → get_elem? ids 0 ≡ some id
          → (try_recv limit wake_custom drop_future poll_future ids s).0 ≡ ok (received id)
      first_taken [] s g = cc
      first_taken (i ∷ ids) s g = first_received i ids s (ground (arith, g))
