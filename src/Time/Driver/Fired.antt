-- ===== src/Time/Driver/Fired.antt =====
-- Whom `process_expired` of src/time/driver.rs wakes, and in which order.
use asyncr.Prelude.{
  ℕ, suc, ◌≤◌, ◌≡◌, refl, List, [], ◌∷◌, map, Option, none, some, arith, inl, inr, ltb, true, false,
  ltb→lt, ltb→ge, ◌==◌, if◌then◌else◌, occurrences, All, Bool-cases,
}
use asyncr.Prelude.Map.{Map, get}
use asyncr.Time.Heap.{Heap, From, IsSorted, From-mono}
use asyncr.Time.Driver.{
  TimerRegistration, TimerState, is_current, fired_by, expire, process_expired,
}
use asyncr.Time.Driver.Invariant.{Covers, Inv}
use asyncr.Time.Driver.Expiry.{
  is_due, popped, get-popped, popped-Covers, not_due, expire_late, expire_due, get-expire,
  expire-Covers,
}

module _ {W : Type 0} where
  abbrev pub ids : List (ℕ × TimerRegistration W) → List ℕ
  ids = map (λ p. p.0)

  abbrev pub wakers_of : List (ℕ × TimerRegistration W) → List W
  wakers_of = map (λ p. p.1.waker)

  abbrev pub Registered : Map (TimerRegistration W) → List (ℕ × TimerRegistration W) → Type 0
  Registered m = All (λ p. get p.0 m ≡ some p.1)

  abbrev DueFrom : ℕ → List (ℕ × TimerRegistration W) → Type 0
  DueFrom d = All (λ p. d ≤ p.1.deadline)

  -- Earlier deadlines come first.
  abbrev IsOrdered : List (ℕ × TimerRegistration W) → Type 0
  IsOrdered [] = Unit {0}
  IsOrdered ((i, r) ∷ ps) = DueFrom r.deadline ps × IsOrdered ps

  -- The list of timers that the specification speaks of.
  pub record Fires (now : ℕ) (m : Map (TimerRegistration W)) (wakers : List W) : Type 0 where
    pub timers : List (ℕ × TimerRegistration W)
    pub woken : wakers ≡ wakers_of timers
    pub once : (j : ℕ) → occurrences (ids timers) j ≡ (if is_due now (get j m) then 1 else 0)
    pub registered : Registered m timers
    pub ordered : IsOrdered timers

  Registered-popped :
      (d i : ℕ) (m : Map (TimerRegistration W)) (ps : List (ℕ × TimerRegistration W))
      → Registered (popped d i m) ps
      → Registered m ps
  Registered-popped d i m [] h = tt
  Registered-popped d i m ((j, r) ∷ ps) h =
      (ground (arith, get-popped d i j m), Registered-popped d i m ps h.1)

  -- The timer that the entry (d, i) fires, in front of others.
  fired_entry :
      ℕ
      → ℕ
      → Option (TimerRegistration W)
      → List (ℕ × TimerRegistration W)
      → List (ℕ × TimerRegistration W)
  fired_entry d i none ps = ps
  fired_entry d i (some r) ps = if r.deadline == d then (i, r) ∷ ps else ps

  fired : ℕ → Heap → Map (TimerRegistration W) → List (ℕ × TimerRegistration W)
  unfolding fired_entry
  fired now [] m = []
  fired now ((d, i) ∷ h) m =
      let rest = fired now h (popped d i m) in
      if ltb now d then [] else fired_entry d i (get i m) rest

  fired_late :
      (now d i : ℕ) (h : Heap) (m : Map (TimerRegistration W))
      → ltb now d ≡ true
      → fired now ((d, i) ∷ h) m ≡ []
  unfolding fired
  fired_late now d i h m e = rw e

  fired_due :
      (now d i : ℕ) (h : Heap) (m : Map (TimerRegistration W))
      → ltb now d ≡ false
      → fired now ((d, i) ∷ h) m ≡ fired_entry d i (get i m) (fired now h (popped d i m))
  unfolding fired
  fired_due now d i h m e = rw e

  wakers_of-entry :
      (d i : ℕ) (m : Map (TimerRegistration W)) (ws : List W) (ps : List (ℕ × TimerRegistration W))
      → ws ≡ wakers_of ps
      → fired_by d i m ws ≡ wakers_of (fired_entry d i (get i m) ps)
  unfolding fired_by fired_entry
  wakers_of-entry d i m ws ps e = ground arith

  fired-woken :
      (now : ℕ) (h : Heap) (m : Map (TimerRegistration W))
      → (expire now h m).2 ≡ wakers_of (fired now h m)
  fired-woken now [] m = unfold expire fired in refl
  fired-woken now ((d, i) ∷ h) m = elim (Bool-cases (ltb now d)) [
    | inl late ↦ rw (expire_late now d i h m late, fired_late now d i h m late)
    | inr hit ↦
        rw (expire_due now d i h m hit, fired_due now d i h m hit)
          (wakers_of-entry d i m _ _ (fired-woken now h (popped d i m)))
  ]

  occurrences-entry :
      (now d i j : ℕ) (m : Map (TimerRegistration W)) (ps : List (ℕ × TimerRegistration W))
      → d ≤ now
      → occurrences (ids ps) j ≡ (if is_due now (get j (popped d i m)) then 1 else 0)
      → occurrences (ids (fired_entry d i (get i m) ps)) j ≡ (if is_due now (get j m) then 1 else 0)
  unfolding fired_entry is_current
  occurrences-entry now d i j m ps le e = ground (arith, get-popped d i j m)

  fired-once :
      (now j : ℕ) (h : Heap) (m : Map (TimerRegistration W))
      → IsSorted h
      → Covers h m
      → occurrences (ids (fired now h m)) j ≡ (if is_due now (get j m) then 1 else 0)
  fired-once now j [] m s c = rw (not_due now j [] m tt c) (unfold fired in refl)
  fired-once now j ((d, i) ∷ h) m s c = elim (Bool-cases (ltb now d)) [
    | inl late ↦ rw (
      fired_late now d i h m late,
      not_due now j ((d, i) ∷ h) m (ltb→lt now d late, From-mono h (ltb→lt now d late) s.0) c,
    )
    | inr hit ↦ rw (fired_due now d i h m hit) (
        occurrences-entry now d i j m _ (ltb→ge now d hit)
          (fired-once now j h (popped d i m) s.1 (popped-Covers d i h m c)))
  ]

  entry-Registered :
      (d i : ℕ) (m : Map (TimerRegistration W)) (ps : List (ℕ × TimerRegistration W))
      → Registered m ps
      → Registered m (fired_entry d i (get i m) ps)
  unfolding fired_entry
  entry-Registered d i m ps h = ground arith

  fired-Registered :
      (now : ℕ) (h : Heap) (m : Map (TimerRegistration W)) → Registered m (fired now h m)
  fired-Registered now [] m = unfold fired in tt
  fired-Registered now ((d, i) ∷ h) m = elim (Bool-cases (ltb now d)) [
    | inl late ↦ rw (fired_late now d i h m late) tt
    | inr hit ↦ rw (fired_due now d i h m hit) (
        entry-Registered d i m _
          (Registered-popped d i m _ (fired-Registered now h (popped d i m))))
  ]

  entry-DueFrom :
      (c d i : ℕ) (o : Option (TimerRegistration W)) (ps : List (ℕ × TimerRegistration W))
      → c ≤ d
      → DueFrom c ps
      → DueFrom c (fired_entry d i o ps)
  unfolding fired_entry
  entry-DueFrom c d i o ps le h = ground arith

  fired-DueFrom :
      (c now : ℕ) (h : Heap) (m : Map (TimerRegistration W)) → From c h → DueFrom c (fired now h m)
  fired-DueFrom c now [] m f = unfold fired in tt
  fired-DueFrom c now ((d, i) ∷ h) m f = elim (Bool-cases (ltb now d)) [
    | inl late ↦ rw (fired_late now d i h m late) tt
    | inr hit ↦
        rw (fired_due now d i h m hit)
          (entry-DueFrom c d i (get i m) _ f.0 (fired-DueFrom c now h (popped d i m) f.1))
  ]

  entry-IsOrdered :
      (d i : ℕ) (o : Option (TimerRegistration W)) (ps : List (ℕ × TimerRegistration W))
      → DueFrom d ps
      → IsOrdered ps
      → IsOrdered (fired_entry d i o ps)
  unfolding fired_entry
  entry-IsOrdered d i o ps f s = ground arith

  fired-IsOrdered :
      (now : ℕ) (h : Heap) (m : Map (TimerRegistration W)) → IsSorted h → IsOrdered (fired now h m)
  fired-IsOrdered now [] m s = unfold fired in tt
  fired-IsOrdered now ((d, i) ∷ h) m s = elim (Bool-cases (ltb now d)) [
    | inl late ↦ rw (fired_late now d i h m late) tt
    | inr hit ↦ rw (fired_due now d i h m hit) (
        entry-IsOrdered d i (get i m) _ (fired-DueFrom d now h (popped d i m) s.0)
          (fired-IsOrdered now h (popped d i m) s.1))
  ]

  -- `process_expired` wakes the due timers and no others: each registration whose deadline has come
  -- fires exactly once, under the waker that it holds, and earlier deadlines come first.
  pub process_expired-Fires :
      (now : ℕ) (s : TimerState W) → Inv s → Fires now s.registrations (process_expired now s).0
  unfolding process_expired
  process_expired-Fires now s v = record {
    timers = fired now s.deadlines s.registrations;
    woken = fired-woken now s.deadlines s.registrations;
    once = λ j. fired-once now j s.deadlines s.registrations v.sorted v.covers;
    registered = fired-Registered now s.deadlines s.registrations;
    ordered = fired-IsOrdered now s.deadlines s.registrations v.sorted;
  }

  -- `process_expired` keeps the invariant, removes the due registrations and leaves every other one
  -- as it is, and leaves no heap entry that is due.
  pub process_expired-removes :
      (now : ℕ) (s : TimerState W)
      → Inv s
      → let s' = (process_expired now s).1 in
        Inv s'
        × ((j : ℕ)
            → get j s'.registrations
              ≡ (if is_due now (get j s.registrations) then none else get j s.registrations))
        × From (suc now) s'.deadlines
  unfolding process_expired
  process_expired-removes now s v =
      let (sorted, later, covers) =
        expire-Covers now s.deadlines s.registrations v.sorted v.covers in
      (
        record { sorted = sorted; covers = covers },
        (λ j. get-expire now j s.deadlines s.registrations v.sorted v.covers),
        later,
      )
