-- ===== src/Time/Driver/Invariant.antt =====
-- The well-formedness of the timer state (src/time/driver.rs), and that each operation keeps it.
use asyncr.Prelude.{ℕ, ◌≡◌, inl, inr, Bool, some, arith, Option-cases, Bool-cases}
use asyncr.Prelude.Map.{Map, get, get-remove, get-insert, insert, contains_key}
use asyncr.Time.Heap.{Heap, push, Holds, IsSorted, Holds-push_self, Holds-push, push-IsSorted}
use asyncr.Time.Driver.{
  TimerRegistration, TimerState, next_id, register, update_waker, cancel, reschedule,
}

module _ {W : Type 0} where
  -- Each live registration has its entry in the heap.
  abbrev pub Covers : Heap → Map (TimerRegistration W) → Type 0
  Covers h m = (j : ℕ) (r : TimerRegistration W) → get j m ≡ some r → Holds r.deadline j h

  pub record Inv (s : TimerState W) : Type 0 where
    pub sorted : IsSorted s.deadlines
    pub covers : Covers s.deadlines s.registrations

  pub insert-Covers :
      (d i : ℕ) (w : W) (h : Heap) (m : Map (TimerRegistration W))
      → Covers h m
      → Covers (push d i h) (insert i (record { deadline = d; waker = w }) m)
  insert-Covers d i w h m c j r e = ground (
    arith,
    get-insert i j (record { deadline = d; waker = w }) m,
    Holds-push_self d i h,
    Holds-push r.deadline j d i h,
    c j r,
  )

  pub register-Inv : (d : ℕ) (w : W) (s : TimerState W) → Inv s → Inv (register d w s).1
  unfolding register
  register-Inv d w s v = elim (Option-cases (get s.next_id s.registrations)) [
    | inl e ↦
        rw (e, register, next_id, contains_key)
          (record {
            sorted = push-IsSorted d s.next_id s.deadlines v.sorted;
            covers = insert-Covers d s.next_id w s.deadlines s.registrations v.covers;
          })
    | inr (r, e) ↦
        rw (e, register, next_id, contains_key) (record { sorted = v.sorted; covers = v.covers })
  ]

  -- A new waker under an old deadline.
  rewake-Covers :
      (i : ℕ) (r : TimerRegistration W) (w : W) (h : Heap) (m : Map (TimerRegistration W))
      → get i m ≡ some r
      → Covers h m
      → Covers h (insert i (record r { waker = w }) m)
  rewake-Covers i r w h m e c j q f =
      ground (arith, get-insert i j (record r { waker = w }) m, c j q, c i r e)

  pub update_waker-Inv :
      (will_wake : W → W → Bool) (i : ℕ) (w : W) (s : TimerState W)
      → Inv s
      → Inv (update_waker will_wake i w s).1
  unfolding update_waker
  update_waker-Inv will_wake i w s v = elim (Option-cases (get i s.registrations)) [
    | inl e ↦ rw (e, update_waker) (record { sorted = v.sorted; covers = v.covers })
    | inr (r, e) ↦
        rw (e, update_waker)
          (elim (Bool-cases (will_wake r.waker w)) [
            | inl same ↦ rw same (record { sorted = v.sorted; covers = v.covers })
            | inr other ↦ rw other (record {
              sorted = v.sorted;
              covers = rewake-Covers i r w s.deadlines s.registrations e v.covers;
            })
          ])
  ]

  pub cancel-Inv : (i : ℕ) (s : TimerState W) → Inv s → Inv (cancel i s)
  unfolding cancel
  cancel-Inv i s v = record {
    sorted = v.sorted;
    covers = λ j r e. v.covers j r (ground (arith, get-remove i j s.registrations));
  }

  pub reschedule-Inv : (i d : ℕ) (s : TimerState W) → Inv s → Inv (reschedule i d s).1
  unfolding reschedule
  reschedule-Inv i d s v = elim (Option-cases (get i s.registrations)) [
    | inl e ↦ rw (e, reschedule) (record { sorted = v.sorted; covers = v.covers })
    | inr (r, e) ↦
        rw (e, reschedule)
          (record {
            sorted = push-IsSorted d i s.deadlines v.sorted;
            covers = insert-Covers d i r.waker s.deadlines s.registrations v.covers;
          })
  ]
