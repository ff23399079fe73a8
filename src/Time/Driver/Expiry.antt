-- ===== src/Time/Driver/Expiry.antt =====
-- What `process_expired` of src/time/driver.rs does to the registrations, and whom it wakes.
use asyncr.Prelude.{
  ℕ, suc, ◌≤◌, ◌≡◌, refl, ◌∙◌, inl, inr, Bool, true, false, [], ◌∷◌, Option, none, some, arith, ltb,
  leb, ltb→lt, ltb→ge, ◌&&◌, ◌==◌, if◌then◌else◌, Option-cases, Bool-cases,
}
use asyncr.Prelude.Map.{Map, get, get-remove, remove}
use asyncr.Time.Heap.{Heap, From, IsSorted, From-mono, From-Holds}
use asyncr.Time.Driver.{TimerRegistration, is_current, fired_by, expire}
use asyncr.Time.Driver.Invariant.{Covers}

module _ {W : Type 0} where
  -- The registration exists and its deadline has come.
  abbrev pub is_due : ℕ → Option (TimerRegistration W) → Bool
  is_due now none = false
  is_due now (some r) = leb r.deadline now

  -- The registrations left once the entry (d, i) has been taken off the heap.
  abbrev pub popped : ℕ → ℕ → Map (TimerRegistration W) → Map (TimerRegistration W)
  popped d i m = if is_current d i m then remove i m else m

  pub get-popped :
      (d i j : ℕ) (m : Map (TimerRegistration W))
      → get j (popped d i m) ≡ (if i == j && is_current d i m then none else get j m)
  get-popped d i j m = ground (arith, get-remove i j m)

  pub popped-Covers :
      (d i : ℕ) (h : Heap) (m : Map (TimerRegistration W))
      → Covers ((d, i) ∷ h) m
      → Covers h (popped d i m)
  unfolding is_current
  popped-Covers d i h m c j r e = ground (arith, get-popped d i j m, c j r)

  -- A registration that has an entry in a heap without due entries is not due.
  pub not_due :
      (now j : ℕ) (h : Heap) (m : Map (TimerRegistration W))
      → From (suc now) h
      → Covers h m
      → is_due now (get j m) ≡ false
  not_due now j h m f c = elim (Option-cases (get j m)) [
    | inl e ↦ rw e
    | inr (r, e) ↦ rw e (ground (arith, From-Holds r.deadline j h f (c j r e)))
  ]

  pub expire_late :
      (now d i : ℕ) (h : Heap) (m : Map (TimerRegistration W))
      → ltb now d ≡ true
      → expire now ((d, i) ∷ h) m ≡ ((d, i) ∷ h, m, [])
  unfolding expire
  expire_late now d i h m e = rw e

  pub expire_due :
      (now d i : ℕ) (h : Heap) (m : Map (TimerRegistration W))
      → ltb now d ≡ false
      → let rest = expire now h (popped d i m) in
        expire now ((d, i) ∷ h) m ≡ (rest.0, rest.1, fired_by d i m rest.2)
  unfolding expire
  expire_due now d i h m e = rw e

  -- Taking off a due entry takes no registration away that is not due.
  popped_due :
      (now d i j : ℕ) (m : Map (TimerRegistration W))
      → d ≤ now
      → (if is_due now (get j (popped d i m)) then none else get j (popped d i m))
        ≡ (if is_due now (get j m) then none else get j m)
  unfolding is_current
  popped_due now d i j m le = ground (arith, get-popped d i j m)

  -- Exactly the due registrations are removed.
  pub get-expire :
      (now j : ℕ) (h : Heap) (m : Map (TimerRegistration W))
      → IsSorted h
      → Covers h m
      → get j (expire now h m).1 ≡ (if is_due now (get j m) then none else get j m)
  get-expire now j [] m s c = rw (not_due now j [] m tt c) (unfold expire in refl)
  get-expire now j ((d, i) ∷ h) m s c = elim (Bool-cases (ltb now d)) [
    | inl late ↦ rw (
      expire_late now d i h m late,
      not_due now j ((d, i) ∷ h) m (ltb→lt now d late, From-mono h (ltb→lt now d late) s.0) c,
    )
    | inr hit ↦ rw (expire_due now d i h m hit) (
        get-expire now j h (popped d i m) s.1 (popped-Covers d i h m c)
        ∙ popped_due now d i j m (ltb→ge now d hit))
  ]

  -- What is left covers the registrations, is sorted, and is due later.
  pub expire-Covers :
      (now : ℕ) (h : Heap) (m : Map (TimerRegistration W))
      → IsSorted h
      → Covers h m
      → IsSorted (expire now h m).0
        × From (suc now) (expire now h m).0
        × Covers (expire now h m).0 (expire now h m).1
  expire-Covers now [] m s c = unfold expire in (tt, tt, c)
  expire-Covers now ((d, i) ∷ h) m s c = elim (Bool-cases (ltb now d)) [
    | inl late ↦
        rw (expire_late now d i h m late)
          (s, (ltb→lt now d late, From-mono h (ltb→lt now d late) s.0), c)
    | inr hit ↦
        rw (expire_due now d i h m hit)
          (expire-Covers now h (popped d i m) s.1 (popped-Covers d i h m c))
  ]
