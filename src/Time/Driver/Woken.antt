-- ===== src/Time/Driver/Woken.antt =====
-- That `process_expired` (src/time/driver.rs) wakes a given timer.
use asyncr.Prelude.{ℕ, ◌≤◌, ◌≡◌, inl, inr, List, [], ◌∷◌, some, arith, occurrences, Any, ==_cases}
use asyncr.Prelude.Map.{Map, get}
use asyncr.Time.Driver.{TimerRegistration, TimerState, process_expired}
use asyncr.Time.Driver.Invariant.{Inv}
use asyncr.Time.Driver.Fired.{ids, wakers_of, Registered, process_expired-Fires}

module _ {W : Type 0} where
  listed :
      (holds : W → Type 0) (id : ℕ) (r : TimerRegistration W) (m : Map (TimerRegistration W))
      (ps : List (ℕ × TimerRegistration W))
      → Registered m ps
      → occurrences (ids ps) id ≡ 1
      → get id m ≡ some r
      → holds r.waker
      → Any holds (wakers_of ps)
  listed holds id r m [] h e at p = ground arith
  listed holds id r m ((j, q) ∷ ps) h e at p = elim (==_cases j id) [
    | inl same ↦ inl (ground (arith, h.0, same, at, p))
    | inr other ↦ inr (listed holds id r m ps h.1 (ground (arith, e, other)) at p)
  ]

  -- The waker of a registration whose deadline has come is among those that are woken.
  pub due_woken :
      (holds : W → Type 0) (now id : ℕ) (r : TimerRegistration W) (s : TimerState W)
      → Inv s
      → get id s.registrations ≡ some r
      → r.deadline ≤ now
      → holds r.waker
      → Any holds (process_expired now s).0
  due_woken holds now id r s v at due p =
      let f = process_expired-Fires now s v in
      rw f.woken (
        listed holds id r s.registrations f.timers f.registered (ground (arith, f.once id, at, due))
          at p)
