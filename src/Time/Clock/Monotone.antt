-- ===== src/Time/Clock/Monotone.antt =====
-- The time that a clock of src/time/clock.rs shows never falls.
use asyncr.Prelude.{ℕ, ◌+◌, ◌-◌, ◌≤◌, ◌≡◌, ok, arith}
use asyncr.Time.Clock.{
  release_now, Clock, real, paused, new, now, pause, resume, advance, advance_to,
}

-- What can happen to a clock, together with the system's clock beside it.
pub data Step (limit : ℕ) : ℕ → Clock → ℕ → Clock → Type 0 where
  passes : (system later : ℕ) (c : Clock) → system ≤ later → Step limit system c later c
  pauses : (system : ℕ) (c d : Clock) → pause limit system c ≡ ok d → Step limit system c system d
  resumes : (system : ℕ) (c d : Clock) → resume system c ≡ ok d → Step limit system c system d
  advances :
      (system duration : ℕ) (c d : Clock)
      → advance limit duration c ≡ ok d
      → Step limit system c system d
  jumps :
      (system instant : ℕ) (c d : Clock)
      → advance_to instant c ≡ ok d
      → Step limit system c system d

pub data Steps (limit : ℕ) : ℕ → Clock → ℕ → Clock → Type 0 where
  stay : (system : ℕ) (c : Clock) → Steps limit system c system c
  onward :
      {a b e : ℕ} {c d f : Clock} → Steps limit a c b d → Step limit b d e f → Steps limit a c e f

-- The instant that the clock shows if that is not past the limit.
abbrev pub shown : ℕ → Clock → ℕ
shown system (real started_at base) = base + (system - started_at)
shown system (paused instant) = instant

pub now-shown : (limit system t : ℕ) (c : Clock) → now limit system c ≡ ok t → shown system c ≡ t
unfolding now
now-shown limit system t (real started_at base) e = ground arith
now-shown limit system t (paused instant) e = ground arith

Step-shown : {limit a b : ℕ} {c d : Clock} → Step limit a c b d → shown a c ≤ shown b d
unfolding pause resume advance advance_to
Step-shown (passes a b (real started_at base) h) = ground arith
Step-shown (passes a b (paused instant) h) = ground arith
Step-shown (pauses a (real started_at base) d e) = ground arith
Step-shown (pauses a (paused instant) d e) = ground arith
Step-shown (resumes a (real started_at base) d e) = ground arith
Step-shown (resumes a (paused instant) d e) = ground arith
Step-shown (advances a t (real started_at base) d e) = ground arith
Step-shown (advances a t (paused instant) d e) = ground arith
Step-shown (jumps a t (real started_at base) d e) = ground arith
Step-shown (jumps a t (paused instant) d e) = ground arith

Steps-shown : {limit a b : ℕ} {c d : Clock} → Steps limit a c b d → shown a c ≤ shown b d
Steps-shown (stay a c) = omega arith
Steps-shown (onward ss st) = omega (arith, Steps-shown ss, Step-shown st)

-- Whatever is done to a clock (pausing, resuming, advancing, the system's time passing), two
-- readings of it are in order.
pub Steps-now :
    {limit a b t u : ℕ} {c d : Clock}
    → Steps limit a c b d
    → now limit a c ≡ ok t
    → now limit b d ≡ ok u
    → t ≤ u
Steps-now {limit} {a} {b} {t} {u} {c} {d} ss p q =
    omega (arith, Steps-shown ss, now-shown limit a t c p, now-shown limit b u d q)

-- A new clock that is left running shows the system's time, as the clock of a build without tests.
pub now-new :
    (limit started_at system : ℕ)
    → started_at ≤ system
    → system ≤ limit
    → now limit system (new started_at) ≡ ok (release_now system)
unfolding now new release_now
now-new limit started_at system h k = ground arith
