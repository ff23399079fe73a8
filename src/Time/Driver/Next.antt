-- ===== src/Time/Driver/Next.antt =====
-- `next_deadline` of src/time/driver.rs is the earliest deadline of a registered timer.
use asyncr.Prelude.{
  ℕ, suc, ◌≤◌, ◌<◌, ◌-◌, ◌≡◌, refl, sym, subst, ◌∙◌, ◌⊎◌, ok, [], ◌∷◌, Option, none, some, arith,
  inl, inr, true, false, Bool-cases, Option-cases,
}
use asyncr.Prelude.Map.{Map, get}
use asyncr.Time.Heap.{Heap, From, IsSorted, From-Holds}
use asyncr.Time.Driver.{
  TimerRegistration, TimerState, is_current, prune, next_deadline, process_expired,
  time_until_next_deadline,
}
use asyncr.Time.Driver.Invariant.{Covers, Inv}
use asyncr.Time.Driver.Fired.{process_expired-removes}

waits_for : (n : ℕ) → ok (some n) ≡ ok (some 0) → n ≡ 0
waits_for n e = ground (arith, e)

module _ {W : Type 0} where
  -- No timer is registered; or some timer has this deadline, and none an earlier one.
  abbrev pub IsEarliest : Map (TimerRegistration W) → Option ℕ → Type 0
  IsEarliest m none = (j : ℕ) → get j m ≡ none
  IsEarliest m (some d) =
      ((j : ℕ) × (r : TimerRegistration W) × (get j m ≡ some r) × (r.deadline ≡ d))
      × ((j : ℕ) (r : TimerRegistration W) → get j m ≡ some r → d ≤ r.deadline)

  current_registered :
      (d i : ℕ) (m : Map (TimerRegistration W))
      → is_current d i m ≡ true
      → (r : TimerRegistration W) × (get i m ≡ some r) × (r.deadline ≡ d)
  unfolding is_current
  current_registered d i m e = elim (Option-cases (get i m)) [
    | inl f ↦ absurd (ground arith)
    | inr (r, f) ↦ (r, f, ground arith)
  ]

  -- A stale entry can go.
  stale-Covers :
      (d i : ℕ) (h : Heap) (m : Map (TimerRegistration W))
      → is_current d i m ≡ false
      → Covers ((d, i) ∷ h) m
      → Covers h m
  unfolding is_current
  stale-Covers d i h m e c j r f = ground (arith, c j r f)

  prune_current :
      (d i : ℕ) (h : Heap) (m : Map (TimerRegistration W))
      → is_current d i m ≡ true
      → prune ((d, i) ∷ h) m ≡ (some d, (d, i) ∷ h)
  unfolding prune
  prune_current d i h m e = rw e

  prune_stale :
      (d i : ℕ) (h : Heap) (m : Map (TimerRegistration W))
      → is_current d i m ≡ false
      → prune ((d, i) ∷ h) m ≡ prune h m
  unfolding prune
  prune_stale d i h m e = rw e

  pub prune-IsEarliest :
      (h : Heap) (m : Map (TimerRegistration W))
      → IsSorted h
      → Covers h m
      → IsEarliest m (prune h m).0
  prune-IsEarliest [] m s c =
      unfold prune in
      λ j. elim (Option-cases (get j m)) [ inl e ↦ e | inr (r, e) ↦ absurd (c j r e) ]
  prune-IsEarliest ((d, i) ∷ h) m s c = elim (Bool-cases (is_current d i m)) [
    | inl e ↦ rw (prune_current d i h m e) (
      (let (r, f, g) = current_registered d i m e in (i, r, f, g)),
      (λ j r f. From-Holds r.deadline j ((d, i) ∷ h) (omega arith, s.0) (c j r f)),
    )
    | inr e ↦ rw (prune_stale d i h m e) (prune-IsEarliest h m s.1 (stale-Covers d i h m e c))
  ]

  prune-keeps :
      (h : Heap) (m : Map (TimerRegistration W))
      → IsSorted h
      → Covers h m
      → IsSorted (prune h m).1 × Covers (prune h m).1 m
  prune-keeps [] m s c = unfold prune in (tt, c)
  prune-keeps ((d, i) ∷ h) m s c = elim (Bool-cases (is_current d i m)) [
    | inl e ↦ rw (prune_current d i h m e) (s, c)
    | inr e ↦ rw (prune_stale d i h m e) (prune-keeps h m s.1 (stale-Covers d i h m e c))
  ]

  prune_twice : (h : Heap) (m : Map (TimerRegistration W)) → prune (prune h m).1 m ≡ prune h m
  prune_twice [] m = unfold prune in refl
  prune_twice ((d, i) ∷ h) m = elim (Bool-cases (is_current d i m)) [
    | inl e ↦ rw (prune_current d i h m e) (prune_current d i h m e)
    | inr e ↦ rw (prune_stale d i h m e) (prune_twice h m)
  ]

  pub next_deadline_twice :
      (s : TimerState W) → (next_deadline (next_deadline s).1).0 ≡ (next_deadline s).0
  unfolding next_deadline
  next_deadline_twice s = rw (prune_twice s.deadlines s.registrations) refl

  -- `next_deadline` returns the earliest deadline of a registered timer, or none if there is no
  -- timer; it changes no registration, and keeps the invariant.
  pub next_deadline-IsEarliest :
      (s : TimerState W)
      → Inv s
      → let (next, s') = next_deadline s in
        IsEarliest s.registrations next × (s'.registrations ≡ s.registrations) × Inv s'
  unfolding next_deadline
  next_deadline-IsEarliest s v =
      let (sorted, covers) = prune-keeps s.deadlines s.registrations v.sorted v.covers in
      (
        prune-IsEarliest s.deadlines s.registrations v.sorted v.covers,
        refl,
        record { sorted = sorted; covers = covers },
      )

  prune-From :
      (c d : ℕ) (h : Heap) (m : Map (TimerRegistration W))
      → From c h
      → (prune h m).0 ≡ some d
      → c ≤ d
  prune-From c d [] m f e = absurd (unfold prune in cc)
  prune-From c d ((b, i) ∷ h) m f e = elim (Bool-cases (is_current b i m)) [
    | inl g ↦ ground (arith, prune_current b i h m g)
    | inr g ↦ prune-From c d h m f.1 (rw (prune_stale b i h m g) at e)
  ]

  -- Once the expired timers have been processed, the next deadline lies behind the reading that they
  -- were processed at.
  pub process_expired-next_deadline :
      (now d : ℕ) (s : TimerState W)
      → Inv s
      → (next_deadline (process_expired now s).1).0 ≡ some d
      → now < d
  unfolding next_deadline
  process_expired-next_deadline now d s v e =
      let s' = (process_expired now s).1 in
      prune-From (suc now) d s'.deadlines s'.registrations (process_expired-removes now s v).2 e

  -- Once the expired timers have been processed at the reading `now`, the wait that a later reading
  -- asks for ends just at the earliest deadline of a registered timer, and this lies behind `now`.
  -- The wait is for no time only where that deadline has come between the two readings. Without a
  -- registered timer the wait has no end. The driver's invariant holds before.
  pub process_expired-time_until_next_deadline :
      (now later : ℕ) (s : TimerState W)
      → Inv s
      → now ≤ later
      → let s' = (process_expired now s).1 in
        let timeout = (time_until_next_deadline (ok later) s').0 in
        ((timeout ≡ ok none) × IsEarliest s'.registrations none)
        ⊎ ((d : ℕ) × (timeout ≡ ok (some (d - later)))
            × IsEarliest s'.registrations (some d)
            × (now < d)
            × (timeout ≡ ok (some 0) → (now < later) × (d ≤ later)))
  unfolding time_until_next_deadline
  process_expired-time_until_next_deadline now later s v h =
      let s' = (process_expired now s).1 in
      let (earliest, _, _) = next_deadline-IsEarliest s' ((process_expired-removes now s v).0) in
      elim (Option-cases (next_deadline s').0) [
        | inl e ↦
            inl (
              rw (time_until_next_deadline, e) refl,
              subst (IsEarliest s'.registrations) e earliest,
            )
        | inr (d, e) ↦
            let ahead = process_expired-next_deadline now d s v e in
            let asked : (time_until_next_deadline (ok later) s').0 ≡ ok (some (d - later)) =
              rw (time_until_next_deadline, e) refl in
            inr (
              d,
              asked,
              subst (IsEarliest s'.registrations) e earliest,
              ahead,
              (λ g.
                  let none_left : d - later ≡ 0 = waits_for (d - later) (sym asked ∙ g) in
                  (omega (arith, none_left, ahead), omega (arith, none_left))),
            )
      ]
