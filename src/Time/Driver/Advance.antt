-- ===== src/Time/Driver/Advance.antt =====
-- The jump of a paused clock to the next deadline (src/time/driver.rs).
use asyncr.Prelude.{
  ℕ, ◌<◌, ◌≡◌, refl, Bool, true, false, Option, none, some, Outcome, ok, arith, inl, inr,
  Option-cases,
}
use asyncr.Time.Clock.{Clock, real, paused}
use asyncr.Time.Driver.{
  TimerState, process_expired, next_deadline, advance_to_next_deadline_if_paused,
}
use asyncr.Time.Driver.Invariant.{Inv}
use asyncr.Time.Driver.Next.{process_expired-next_deadline}

-- What the jump does to a paused clock at `t`: nothing if no timer is left, and else the clock
-- shows the next deadline, which is later.
abbrev pub Jumps : ℕ → Option ℕ → Outcome Bool → Clock → Type 0
Jumps t none answer clock = (answer ≡ ok false) × (clock ≡ paused t)
Jumps t (some d) answer clock = (answer ≡ ok true) × (clock ≡ paused d) × (t < d)

module _ {W : Type 0} where
  -- Behind `process_expired`, `advance_to_next_deadline_if_paused` never trips the check that a
  -- paused clock is not moved backwards: it moves the clock forward to the next deadline if there
  -- is one, and leaves it alone otherwise.
  pub process_expired-Jumps :
      (t : ℕ) (s : TimerState W)
      → Inv s
      → let s' = (process_expired t s).1 in
        let (answer, clock, s'') = advance_to_next_deadline_if_paused (paused t) s' in
        Jumps t (next_deadline s').0 answer clock × (s'' ≡ (next_deadline s').1)
  unfolding advance_to_next_deadline_if_paused
  process_expired-Jumps t s v = elim (Option-cases (next_deadline (process_expired t s).1).0) [
    | inl e ↦ ground arith
    | inr (d, e) ↦ ground (arith, process_expired-next_deadline t d s v)
  ]

  -- A running clock is left alone, and so are the timers.
  pub advance-real :
      (started_at base : ℕ) (s : TimerState W)
      → advance_to_next_deadline_if_paused (real started_at base) s
        ≡ (ok false, real started_at base, s)
  unfolding advance_to_next_deadline_if_paused
  advance-real started_at base s = refl
