-- ===== src/Time/Driver/Dwindling.antt =====
-- How many timers `process_expired` of src/time/driver.rs leaves.
use asyncr.Prelude.{
  ℕ, ◌≤◌, ◌<◌, ◌≡◌, ◌∙◌, inl, inr, true, [], ◌∷◌, none, some, arith, ltb, length, Bool-cases,
  Option-cases,
}
use asyncr.Prelude.Map.{Map, get, remove}
use asyncr.Time.Heap.{Heap}
use asyncr.Time.Driver.{TimerRegistration, TimerState, is_current, expire, process_expired}
use asyncr.Time.Driver.Invariant.{Inv}
use asyncr.Time.Driver.Expiry.{popped, expire_late, expire_due, get-expire}

module _ {W : Type 0} where
  length-remove : (i : ℕ) (m : Map (TimerRegistration W)) → length (remove i m) ≤ length m
  unfolding remove
  length-remove i [] = omega arith
  length-remove i ((j, r) ∷ m) = ground (arith, length-remove i m)

  length-remove_lt :
      (i : ℕ) (m : Map (TimerRegistration W)) (r : TimerRegistration W)
      → get i m ≡ some r
      → length (remove i m) < length m
  unfolding remove get
  length-remove_lt i [] r e = cc
  length-remove_lt i ((j, q) ∷ m) r e = ground (arith, length-remove i m, length-remove_lt i m r)

  length-popped : (d i : ℕ) (m : Map (TimerRegistration W)) → length (popped d i m) ≤ length m
  length-popped d i m = ground (arith, length-remove i m)

  length-popped_lt :
      (d i : ℕ) (m : Map (TimerRegistration W))
      → is_current d i m ≡ true
      → length (popped d i m) < length m
  unfolding is_current
  length-popped_lt d i m e = elim (Option-cases (get i m)) [
    | inl f ↦ absurd (ground arith)
    | inr (r, f) ↦ ground (arith, length-remove_lt i m r f, e)
  ]

  pub length-expire :
      (now : ℕ) (h : Heap) (m : Map (TimerRegistration W)) → length (expire now h m).1 ≤ length m
  length-expire now [] m = unfold expire in omega arith
  length-expire now ((d, i) ∷ h) m = elim (Bool-cases (ltb now d)) [
    | inl late ↦ rw (expire_late now d i h m late) (omega arith)
    | inr hit ↦
        rw (expire_due now d i h m hit)
          (omega (arith, length-expire now h (popped d i m), length-popped d i m))
  ]

  -- A registration that is gone afterwards was counted before.
  pub length-expire_lt :
      (now j : ℕ) (r : TimerRegistration W) (h : Heap) (m : Map (TimerRegistration W))
      → get j m ≡ some r
      → get j (expire now h m).1 ≡ none
      → length (expire now h m).1 < length m
  length-expire_lt now j r [] m e f = absurd (unfold expire in cc)
  length-expire_lt now j r ((d, i) ∷ h) m e f = elim (Bool-cases (ltb now d)) [
    | inl late ↦ absurd (cc (expire_late now d i h m late))
    | inr hit ↦ elim (Bool-cases (is_current d i m)) [
      | inl c ↦
          rw (expire_due now d i h m hit)
            (omega (arith, length-expire now h (popped d i m), length-popped_lt d i m c))
      | inr c ↦
          rw (expire_due now d i h m hit, c)
            (length-expire_lt now j r h m e (rw (expire_due now d i h m hit, c) at f))
    ]
  ]

  -- A due timer goes.
  pub length-process_expired :
      (now : ℕ) (s : TimerState W)
      → length (process_expired now s).1.registrations ≤ length s.registrations
  unfolding process_expired
  length-process_expired now s = length-expire now s.deadlines s.registrations

  pub length-process_expired_lt :
      (now j : ℕ) (r : TimerRegistration W) (s : TimerState W)
      → Inv s
      → get j s.registrations ≡ some r
      → r.deadline ≤ now
      → length (process_expired now s).1.registrations < length s.registrations
  unfolding process_expired
  length-process_expired_lt now j r s v e due =
      length-expire_lt now j r s.deadlines s.registrations e
        (get-expire now j s.deadlines s.registrations v.sorted v.covers ∙ ground (arith, e))
