-- ===== src/Executor/Waiting.antt =====
-- What a pass of `next_ready_id` in src/executor.rs leaves of the timers, and for when it waits.
use asyncr.Prelude.{
  ℕ, ◌+◌, ◌-◌, ◌≤◌, ◌≡◌, refl, sym, subst, ◌⊎◌, inl, inr, ◌≢◌, none, some, Outcome, ok, panic,
  Panic, Poll, arith, length, Option-cases, Outcome-cases,
}
use asyncr.Prelude.Map.{get}
use asyncr.Time.Clock
use asyncr.Time.Clock.{Clock, real, paused}
use asyncr.Time.Driver.{
  TimerRegistration, TimerState, next_deadline, advance_to_next_deadline_if_paused,
  time_until_next_deadline,
}
use asyncr.Time.Driver.Invariant.{Inv}
use asyncr.Time.Driver.Next.{IsEarliest, next_deadline-IsEarliest, next_deadline_twice}
use asyncr.Shared.{Waker, Shared}
use asyncr.Executor.{Pass, jumped, must_wait, look_ahead}

Clock-cases : (c : Clock) → ((a : ℕ) × (b : ℕ) × (c ≡ real a b)) ⊎ ((t : ℕ) × (c ≡ paused t))
Clock-cases (real a b) = inl (a, b, refl)
Clock-cases (paused t) = inr (t, refl)

abbrev pub Clockwork : Type 0
Clockwork = TimerState Waker × Clock × ℕ

abbrev pub clockwork : {F V : Type 0} → Shared F V → Clockwork
clockwork s = (s.timers, s.clock, s.system)

-- A clock that runs was started in the past.
abbrev pub IsStarted : Clock → ℕ → Type 0
IsStarted (real started_at base) system = started_at ≤ system
IsStarted (paused instant) system = Unit {0}

-- A timer's deadline has come by what the clock shows, if it shows an instant at all.
abbrev pub IsDue : ℕ → Clockwork → Type 0
IsDue limit (timers, clock, system) =
    (t : ℕ)
    → Clock.now limit system clock ≡ ok t
    → (j : ℕ) × (r : TimerRegistration Waker) × (get j timers.registrations ≡ some r)
      × (r.deadline ≤ t)

earliest_registered :
    (d t : ℕ) (s : TimerState Waker)
    → Inv s
    → (next_deadline s).0 ≡ some d
    → d ≤ t
    → (j : ℕ) × (r : TimerRegistration Waker) × (get j (next_deadline s).1.registrations ≡ some r)
      × (r.deadline ≤ t)
earliest_registered d t s v e le =
    let (earliest, same, _) = next_deadline-IsEarliest s v in
    let ((j, r, at, f), _) = subst (IsEarliest s.registrations) e earliest in
    (j, r, rw same at, rw f le)

-- What the loop needs of the timers and the clock, in front of each round.
pub record Ticking (limit bound : ℕ) (c : Clockwork) : Type 0 where
  pub timed : Inv c.0
  pub started : IsStarted c.1 c.2
  pub few : length c.0.registrations ≤ bound

-- A wait in which the system's time has come to `later`.
abbrev pub Waited : ℕ → ℕ → ℕ → Clockwork → Type 0
Waited limit bound later (timers, clock, system) =
    IsDue limit (timers, clock, later) × Ticking limit bound (timers, clock, later)

module _ {F V : Type 0} (limit : ℕ) (wake_custom : ℕ → Shared F V → Shared F V)
    (drop_future : F → Shared F V → Shared F V)
    (poll_future : Waker → F → Shared F V → Outcome (Poll V) × F × Shared F V) where
  abbrev looked : Shared F V → Outcome Pass × Shared F V
  looked = look_ahead limit wake_custom drop_future poll_future

  look_paused :
      (t : ℕ) (s : Shared F V)
      → s.clock ≡ paused t
      → (looked s).0 ≡ ok jumped
      → (d : ℕ) × ((next_deadline s.timers).0 ≡ some d)
        × (clockwork (looked s).1 ≡ ((next_deadline s.timers).1, paused d, s.system))
  unfolding look_ahead advance_to_next_deadline_if_paused Clock.advance_to time_until_next_deadline
  look_paused t s c e = elim (Option-cases (next_deadline s.timers).0) [
    | inl f ↦ absurd (ground arith)
    | inr (d, f) ↦ (d, f, ground arith)
  ]

  look_real : (a b : ℕ) (s : Shared F V) → s.clock ≡ real a b → (looked s).0 ≢ ok jumped
  unfolding look_ahead advance_to_next_deadline_if_paused time_until_next_deadline
  look_real a b s c e = ground arith

  look_paused_wait :
      (t u : ℕ) (s : Shared F V) → s.clock ≡ paused u → (looked s).0 ≢ ok (must_wait (some t))
  unfolding look_ahead advance_to_next_deadline_if_paused Clock.advance_to time_until_next_deadline
  look_paused_wait t u s c e = elim (Option-cases (next_deadline s.timers).0) [
    | inl f ↦ ground (arith, next_deadline_twice s.timers, c, e, f)
    | inr (d, f) ↦ ground (arith, c, e, f)
  ]

  look_idle_wait :
      (t a b : ℕ) (s : Shared F V)
      → s.clock ≡ real a b
      → (next_deadline s.timers).0 ≡ none
      → (looked s).0 ≢ ok (must_wait (some t))
  unfolding look_ahead advance_to_next_deadline_if_paused time_until_next_deadline
  look_idle_wait t a b s c f e = ground arith

  look_lost_wait :
      (t d a b : ℕ) (p : Panic) (s : Shared F V)
      → s.clock ≡ real a b
      → (next_deadline s.timers).0 ≡ some d
      → Clock.now limit s.system s.clock ≡ panic p
      → (looked s).0 ≢ ok (must_wait (some t))
  unfolding look_ahead advance_to_next_deadline_if_paused time_until_next_deadline
  look_lost_wait t d a b p s c f g e = ground arith

  look_wait :
      (t a b d now : ℕ) (s : Shared F V)
      → s.clock ≡ real a b
      → (next_deadline s.timers).0 ≡ some d
      → Clock.now limit s.system s.clock ≡ ok now
      → (looked s).0 ≡ ok (must_wait (some t))
      → (t ≡ d - now) × (clockwork (looked s).1 ≡ ((next_deadline s.timers).1, s.clock, s.system))
  unfolding look_ahead advance_to_next_deadline_if_paused time_until_next_deadline
  look_wait t a b d now s c f g e = ground arith

  -- The wait ends no earlier than the deadline that it is for.
  wait-IsDue :
      (a b d now t later : ℕ) (timers : TimerState Waker) (s : Shared F V)
      → Inv s.timers
      → (next_deadline s.timers).0 ≡ some d
      → a ≤ s.system
      → Clock.now limit s.system (real a b) ≡ ok now
      → s.system + (d - now) ≤ later
      → IsDue limit ((next_deadline s.timers).1, real a b, later)
  unfolding Clock.now
  wait-IsDue a b d now t later timers s v f h n l u m =
      earliest_registered d u s.timers v f (ground arith)

  jump-IsDue :
      (d : ℕ) (s : Shared F V)
      → Inv s.timers
      → (next_deadline s.timers).0 ≡ some d
      → IsDue limit ((next_deadline s.timers).1, paused d, s.system)
  unfolding Clock.now
  jump-IsDue d s v f u m = earliest_registered d u s.timers v f (ground (arith, m))

  pub look_ahead-system : (s : Shared F V) → (looked s).1.system ≡ s.system
  unfolding look_ahead
  look_ahead-system s = ground arith

  pub look_jumped :
      (bound : ℕ) (s : Shared F V)
      → Ticking limit bound (clockwork s)
      → (looked s).0 ≡ ok jumped
      → IsDue limit (clockwork (looked s).1) × Ticking limit bound (clockwork (looked s).1)
  look_jumped bound s g e = elim (Clock-cases s.clock) [
    | inl (a, b, c) ↦ absurd (look_real a b s c e)
    | inr (t, c) ↦
        let (d, f, h) = look_paused t s c e in
        let (_, same, v) = next_deadline-IsEarliest s.timers g.timed in
        rw h (jump-IsDue d s g.timed f, record { timed = v; started = tt; few = rw same g.few })
  ]

  pub look-Waited :
      (bound t later : ℕ) (s : Shared F V)
      → Ticking limit bound (clockwork s)
      → (looked s).0 ≡ ok (must_wait (some t))
      → s.system + t ≤ later
      → Waited limit bound later (clockwork (looked s).1)
  look-Waited bound t later s g e le = elim (Clock-cases s.clock) [
    | inr (u, c) ↦ absurd (look_paused_wait t u s c e)
    | inl (a, b, c) ↦ elim (Option-cases (next_deadline s.timers).0) [
      | inl f ↦ absurd (look_idle_wait t a b s c f e)
      | inr (d, f) ↦ elim (Outcome-cases (Clock.now limit s.system s.clock)) [
        | inl (p, m) ↦ absurd (look_lost_wait t d a b p s c f m e)
        | inr (now, m) ↦
            let (k, h) = look_wait t a b d now s c f m e in
            let (_, same, v) = next_deadline-IsEarliest s.timers g.timed in
            let begun : a ≤ s.system = subst (λ k. IsStarted k s.system) c g.started in
            subst (Waited limit bound later) (sym h) (
              rw c (
                wait-IsDue a b d now t later s.timers s g.timed f begun
                    (subst (λ k. Clock.now limit s.system k ≡ ok now) c m) (omega (arith, le, k)),
                record { timed = v; started = omega (arith, begun, le); few = rw same g.few },
              ))
      ]
    ]
  ]
