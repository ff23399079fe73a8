-- ===== src/Time/Interval/Ticks.antt =====
-- Which ticks an interval of src/time/interval.rs gives.
use asyncr.Prelude.{
  ℕ, ◌+◌, ◌-◌, ◌*◌, ◌/◌, ◌%◌, ◌≤◌, ◌<◌, ◌≡◌, refl, ap, inl, inr, Bool, List, [], ◌∷◌, none, Outcome,
  ok, panic, timer_out_of_range, arith, Poll, ready, ltb, Bool-cases,
}
use asyncr.Time.Driver.{TimerState}
use asyncr.Time.Sleep
use asyncr.Time.Sleep.{Sleep}
use asyncr.Time.Interval.{
  MissedTickBehavior, burst, skip, delay, missed_tick_grace_delay, Interval, following, poll_tick,
}

-- Where the tick after one for `deadline`, handled at `later`, is due.
abbrev pub IsFollowing : MissedTickBehavior → ℕ → ℕ → ℕ → ℕ → Type 0
IsFollowing burst deadline later period next = next ≡ deadline + period
IsFollowing skip deadline later period next =
    (next ≡ deadline + ((later - deadline) / period + 1) * period)
    × (later < next)
    × (next ≤ later + period)
IsFollowing delay deadline later period next = next ≡ later + period

pub skip_arith :
    (deadline later period : ℕ)
    → 0 < period
    → deadline ≤ later
    → let next = later + (period - (later - deadline) % period) in
      (next ≡ deadline + ((later - deadline) / period + 1) * period)
      × (later < next)
      × (next ≤ later + period)
skip_arith deadline later period p h = (grind arith, grind arith, grind arith)

-- Past the grace delay the next tick is due one period after the missed one (burst), one period
-- from now (delay), or at the first multiple of the period after the missed tick that lies in the
-- future (skip); within the grace delay, and at its end, it is due one period after the missed one.
-- The code gives just this tick where it lies within the limit, and panics just where it does not.
-- The period is not zero, and the missed tick was due by now.
pub following-IsFollowing :
    (limit : ℕ) (behavior : MissedTickBehavior) (deadline later period : ℕ)
    → 0 < period
    → deadline ≤ later
    → (next : ℕ) × (missed_tick_grace_delay < later - deadline
        → IsFollowing behavior deadline later period next)
      × (later - deadline ≤ missed_tick_grace_delay → next ≡ deadline + period)
      × (next ≤ limit → following limit behavior deadline later period ≡ ok next)
      × (limit < next → following limit behavior deadline later period ≡ panic timer_out_of_range)
unfolding following
following-IsFollowing limit burst deadline later period p h =
    (deadline + period, (λ _. refl), (λ _. refl), (λ b. ground arith), (λ b. ground arith))
following-IsFollowing limit delay deadline later period p h =
    elim (Bool-cases (ltb missed_tick_grace_delay (later - deadline))) [
      | inl g ↦ (
        later + period,
        (λ _. refl),
        (λ k. absurd (ground arith)),
        (λ b. ground arith),
        (λ b. ground arith),
      )
      | inr g ↦ (
        deadline + period,
        (λ k. absurd (ground arith)),
        (λ _. refl),
        (λ b. ground arith),
        (λ b. ground arith),
      )
    ]
following-IsFollowing limit skip deadline later period p h =
    elim (Bool-cases (ltb missed_tick_grace_delay (later - deadline))) [
      | inl g ↦ (
        later + (period - (later - deadline) % period),
        (λ _. skip_arith deadline later period p h),
        (λ k. absurd (ground arith)),
        (λ b. ground arith),
        (λ b. ground arith),
      )
      | inr g ↦ (
        deadline + period,
        (λ k. absurd (ground arith)),
        (λ _. refl),
        (λ b. ground arith),
        (λ b. ground arith),
      )
    ]

module _ {W : Type 0} (will_wake : W → W → Bool) (limit : ℕ) where
  -- A poll at or after the deadline gives the tick, and sets the sleep to the tick that follows.
  pub poll_tick_due :
      (now later next : ℕ) (w : W) (interval : Interval) (timers : TimerState W)
      → interval.sleep.deadline ≤ now
      → following limit interval.missed_tick_behavior interval.sleep.deadline later interval.period
        ≡ ok next
      → poll_tick limit will_wake now later w interval timers ≡ (
        ok (ready interval.sleep.deadline),
        record interval { sleep = record { deadline = next; registration = none } },
        Sleep.release interval.sleep.registration timers,
      )
  unfolding poll_tick
  poll_tick_due now later next w interval timers h e = ground (arith, e)

  -- The ticks that polls at the given readings give, one after the other.
  unfoldable pub ticks : List (ℕ × ℕ) → W → Interval → TimerState W → List (Outcome (Poll ℕ))
  ticks [] w interval timers = []
  ticks ((now, later) ∷ readings) w interval timers =
      let (tick, interval', timers') = poll_tick limit will_wake now later w interval timers in
      tick ∷ ticks readings w interval' timers'

  -- Each poll comes when its tick is due, and every deadline is within the limit.
  abbrev pub AllDue : ℕ → ℕ → List (ℕ × ℕ) → Type 0
  AllDue deadline period [] = Unit {0}
  AllDue deadline period ((now, later) ∷ readings) =
      (deadline ≤ now) × (deadline + period ≤ limit) × AllDue (deadline + period) period readings

  abbrev pub schedule : ℕ → ℕ → List (ℕ × ℕ) → List (Outcome (Poll ℕ))
  schedule deadline period [] = []
  schedule deadline period (_ ∷ readings) =
      ok (ready deadline) ∷ schedule (deadline + period) period readings

  following_burst :
      (deadline later period : ℕ)
      → deadline + period ≤ limit
      → following limit burst deadline later period ≡ ok (deadline + period)
  unfolding following
  following_burst deadline later period h = ground arith

  -- With the burst behaviour the ticks do not drift: however late the polls come, the ticks that
  -- they give are the start, the start plus one period, plus two periods, and so on.
  pub ticks-burst :
      (readings : List (ℕ × ℕ)) (w : W) (interval : Interval) (timers : TimerState W)
      → interval.missed_tick_behavior ≡ burst
      → AllDue interval.sleep.deadline interval.period readings
      → ticks readings w interval timers ≡ schedule interval.sleep.deadline interval.period readings
  unfolding ticks
  ticks-burst [] w interval timers b d = refl
  ticks-burst ((now, later) ∷ readings) w interval timers b (due, fits, rest) =
      let next = interval.sleep.deadline + interval.period in
      rw
        (poll_tick_due now later next w interval timers due
          (rw b (following_burst interval.sleep.deadline later interval.period fits)))
        (ap (◌∷◌ (ok (ready interval.sleep.deadline))) (
          ticks-burst readings w
            (record interval { sleep = record { deadline = next; registration = none } })
            (Sleep.release interval.sleep.registration timers) b rest))
