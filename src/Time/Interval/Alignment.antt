-- ===== src/Time/Interval/Alignment.antt =====
-- The grid on which the ticks of an interval of src/time/interval.rs lie, over whole runs of polls.
use asyncr.Prelude.{
  ℕ, suc, ◌+◌, ◌-◌, ◌*◌, ◌/◌, ◌≤◌, ◌<◌, ◌≡◌, ◌≢◌, refl, subst, ◌⊎◌, inl, inr, Bool, true, false,
  List, [], ◌∷◌, Outcome, ok, panic, arith, Poll, ready, pending, ltb, leb, Bool-cases,
  Outcome-cases, All,
}
use asyncr.Time.Driver.{TimerState}
use asyncr.Time.Sleep
use asyncr.Time.Sleep.{Sleep}
use asyncr.Time.Sleep.Link.{reset-IsLinked}
use asyncr.Time.Interval.{
  MissedTickBehavior, burst, skip, delay, missed_tick_grace_delay, Interval, following, tick_ready,
  poll_tick,
}
use asyncr.Time.Interval.Ticks.{ticks, skip_arith}

-- Some number of periods after the start.
abbrev pub IsOnGrid : ℕ → ℕ → ℕ → Type 0
IsOnGrid start period instant = (k : ℕ) × (instant ≡ start + k * period)

following-IsOnGrid :
    (limit : ℕ) (behavior : MissedTickBehavior) (deadline later period next : ℕ)
    → behavior ≢ delay
    → 0 < period
    → deadline ≤ later
    → following limit behavior deadline later period ≡ ok next
    → IsOnGrid deadline period next × (deadline < next)
unfolding following
following-IsOnGrid limit burst deadline later period next n p h e =
    ((1, ground (arith, e)), ground (arith, e))
following-IsOnGrid limit delay deadline later period next n p h e = absurd (n refl)
following-IsOnGrid limit skip deadline later period next n p h e =
    elim (Bool-cases (ltb missed_tick_grace_delay (later - deadline))) [
      | inl g ↦
          let (grid, late, _) = skip_arith deadline later period p h in
          (
            ((later - deadline) / period + 1, ground (arith, e, g, grid)),
            ground (arith, e, g, late),
          )
      | inr g ↦ ((1, ground (arith, e, g)), ground (arith, e, g))
    ]

-- The ticks among the answers.
abbrev pub given : List (Outcome (Poll ℕ)) → List ℕ
given [] = []
given (ok (ready t) ∷ answers) = t ∷ given answers
given (ok pending ∷ answers) = given answers
given (panic p ∷ answers) = given answers

-- The instants lie on the grid, at or after `floor`, each later than the one before.
abbrev pub Climbs : ℕ → ℕ → ℕ → List ℕ → Type 0
Climbs start period floor [] = Unit {0}
Climbs start period floor (t ∷ ts) =
    IsOnGrid start period t × (floor ≤ t) × Climbs start period (suc t) ts

IsOnGrid-trans :
    (start period d e : ℕ) → IsOnGrid start period d → IsOnGrid d period e → IsOnGrid start period e
IsOnGrid-trans start period d e (a, f) (b, g) = (a + b, grind (arith, f, g))

module _ {W : Type 0} (will_wake : W → W → Bool) (limit : ℕ) where
  poll-deadline :
      (now : ℕ) (w : W) (sleep : Sleep) (timers : TimerState W)
      → (Sleep.poll will_wake now w sleep timers).1.deadline ≡ sleep.deadline
  unfolding Sleep.poll Sleep.poll_registration
  poll-deadline now w sleep timers = ground arith

  poll_early :
      (now : ℕ) (w : W) (sleep : Sleep) (timers : TimerState W)
      → leb sleep.deadline now ≡ false
      → (Sleep.poll will_wake now w sleep timers).0 ≢ ok (ready tt)
  unfolding Sleep.poll Sleep.poll_registration
  poll_early now w sleep timers early = ground (arith, early)

  -- What one poll does to the interval: nothing, or it gives the tick and moves on along the grid.
  abbrev MovesFrom : ℕ → Interval → Outcome (Poll ℕ) × Interval × TimerState W → Type 0
  MovesFrom deadline interval (answer, interval', timers') =
      (interval'.period ≡ interval.period)
      × (interval'.missed_tick_behavior ≡ interval.missed_tick_behavior)
      × (((interval'.sleep.deadline ≡ deadline) × ((t : ℕ) → answer ≢ ok (ready t)))
          ⊎ ((answer ≡ ok (ready deadline))
              × IsOnGrid deadline interval.period interval'.sleep.deadline
              × (deadline < interval'.sleep.deadline)))

  abbrev Moves : Interval → Outcome (Poll ℕ) × Interval × TimerState W → Type 0
  Moves interval out = MovesFrom interval.sleep.deadline interval out

  tick_ready-Moves :
      (later : ℕ) (interval : Interval) (timers : TimerState W)
      → interval.missed_tick_behavior ≢ delay
      → 0 < interval.period
      → interval.sleep.deadline ≤ later
      → Moves interval (tick_ready limit later interval timers)
  unfolding tick_ready
  tick_ready-Moves later interval timers n p h =
      let answer =
        following limit interval.missed_tick_behavior interval.sleep.deadline later
          interval.period in
      elim (Outcome-cases answer) [
        | inl (q, e) ↦ rw (tick_ready, e) (refl, refl, inl (refl, λ t. cc))
        | inr (next, e) ↦
            let (grid, further) =
              following-IsOnGrid limit interval.missed_tick_behavior interval.sleep.deadline later
                interval.period next n p h e in
            let there = (reset-IsLinked later next interval.sleep timers).0 in
            rw (tick_ready, e) (refl, refl, inr (refl, rw there grid, rw there further))
      ]

  poll_tick-Moves :
      (now later : ℕ) (w : W) (interval : Interval) (timers : TimerState W)
      → interval.missed_tick_behavior ≢ delay
      → 0 < interval.period
      → now ≤ later
      → Moves interval (poll_tick limit will_wake now later w interval timers)
  unfolding poll_tick
  poll_tick-Moves now later w interval timers n p h =
      polled (Sleep.poll will_wake now w interval.sleep timers).0 refl
    where
      sleep' : Sleep
      sleep' = (Sleep.poll will_wake now w interval.sleep timers).1

      same : sleep'.deadline ≡ interval.sleep.deadline
      same = poll-deadline now w interval.sleep timers

      due_le : leb interval.sleep.deadline now ≡ true → interval.sleep.deadline ≤ now
      due_le due = ground (arith, due)

      polled :
          (answer : Outcome (Poll (Unit {0})))
          → (Sleep.poll will_wake now w interval.sleep timers).0 ≡ answer
          → Moves interval (poll_tick limit will_wake now later w interval timers)
      polled (panic q) e = rw (poll_tick, e) (refl, refl, inl (same, λ t. cc))
      polled (ok pending) e = rw (poll_tick, e) (refl, refl, inl (same, λ t. cc))
      polled (ok (ready _)) e = elim (Bool-cases (leb interval.sleep.deadline now)) [
        | inl due ↦
            let middle : Interval = record interval { sleep = sleep' } in
            let timers' = (Sleep.poll will_wake now w interval.sleep timers).2 in
            rw (poll_tick, e)
              (subst (λ d. MovesFrom d interval (tick_ready limit later middle timers')) same
                (tick_ready-Moves later middle timers' n p (omega (arith, same, due_le due, h))))
        | inr early ↦ absurd (poll_early now w interval.sleep timers early e)
      ]

  -- The first answer, in front of those that follow.
  climb :
      (start floor : ℕ) (interval interval' : Interval) (timers : TimerState W)
      (answer : Outcome (Poll ℕ)) (more : List (Outcome (Poll ℕ)))
      → Moves interval (answer, interval', timers)
      → IsOnGrid start interval.period interval.sleep.deadline
      → floor ≤ interval.sleep.deadline
      → ((floor' : ℕ)
          → IsOnGrid start interval.period interval'.sleep.deadline
          → floor' ≤ interval'.sleep.deadline
          → Climbs start interval.period floor' (given more))
      → Climbs start interval.period floor (given (answer ∷ more))
  climb start floor interval interval' timers (ok (ready t)) more (_, _, inl (same, n)) on le rest =
      absurd (n t refl)
  climb start floor interval interval' timers (ok pending) more (_, _, inl (same, n)) on le rest =
      rest floor (rw same on) (omega (arith, same, le))
  climb start floor interval interval' timers (panic q) more (_, _, inl (same, n)) on le rest =
      rest floor (rw same on) (omega (arith, same, le))
  climb start floor interval interval' timers (ok (ready t)) more (_, _, inr (e, grid, further)) on
        le rest =
      let here : t ≡ interval.sleep.deadline = cc e in
      (
        rw here on,
        omega (arith, here, le),
        rest (suc t)
            (IsOnGrid-trans start interval.period interval.sleep.deadline interval'.sleep.deadline
              on grid)
            (omega (arith, here, further)),
      )
  climb start floor interval interval' timers (ok pending) more (_, _, inr (e, grid, further)) on le
        rest =
      absurd (cc e)
  climb start floor interval interval' timers (panic q) more (_, _, inr (e, grid, further)) on le
        rest =
      absurd (cc e)

  climbs :
      (start : ℕ) (readings : List (ℕ × ℕ)) (w : W) (interval : Interval) (timers : TimerState W)
      → interval.missed_tick_behavior ≢ delay
      → 0 < interval.period
      → All (λ r. r.0 ≤ r.1) readings
      → IsOnGrid start interval.period interval.sleep.deadline
      → (floor : ℕ) → floor ≤ interval.sleep.deadline
      → Climbs start interval.period floor
          (given (ticks will_wake limit readings w interval timers))
  unfolding ticks
  climbs start [] w interval timers n p h on floor le = tt
  climbs start ((now, later) ∷ readings) w interval timers n p (h, hs) on floor le =
      let (answer, interval', timers') = poll_tick limit will_wake now later w interval timers in
      let moved = poll_tick-Moves now later w interval timers n p h in
      let (period', behavior', _) = moved in
      climb start floor interval interval' timers' answer
        (ticks will_wake limit readings w interval' timers') moved on le
        (λ floor' on' le'.
          subst
            (λ q.
              Climbs start q floor' (given (ticks will_wake limit readings w interval' timers')))
            period'
            (climbs start readings w interval' timers' (rw behavior' n) (rw period' p) hs
              (rw period' on') floor' le'))

  -- An interval that skips or catches up does not drift, over any run of polls, early and late ones:
  -- each tick that it gives is the first deadline plus some number of periods, and each is later than
  -- the one before, so that no tick is given twice.
  pub ticks-Climbs :
      (readings : List (ℕ × ℕ)) (w : W) (interval : Interval) (timers : TimerState W)
      → interval.missed_tick_behavior ≢ delay
      → 0 < interval.period
      → All (λ r. r.0 ≤ r.1) readings
      → Climbs interval.sleep.deadline interval.period interval.sleep.deadline
          (given (ticks will_wake limit readings w interval timers))
  ticks-Climbs readings w interval timers n p h =
      climbs interval.sleep.deadline readings w interval timers n p h (0, omega arith)
        interval.sleep.deadline (omega arith)
