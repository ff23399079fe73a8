-- ===== src/Suite.antt =====
-- What the unit tests of src/ are written in: scripts over a bench that may fail, with the clock, the
-- timers and the wakers that have been woken. A waker is a number; the paused clock begins at
-- 1000 seconds.
pub mod Timers
pub mod Sleeps
pub mod Intervals
pub mod Timeouts
pub mod Clocks
pub mod Joins
pub mod Schedules
pub mod Contexts
pub mod Catches
pub mod Transitions
pub mod Async
pub mod Stage
pub mod Executors
pub mod Host
pub mod Runtimes
pub mod Drives
pub mod Spawns
use asyncr.Prelude.{
  ℕ, ◌+◌, ◌*◌, Bool, true, false, List, [], ◌++◌, Option, none, some, Outcome, ok, panic, Panic,
  user_panic, Poll, ready, pending, ◌==◌, occurrences, All, leb, ◌≡◌, if◌then◌else◌,
}
use asyncr.TestUtils.{paused_timer_driver}
use asyncr.Time.Clock
use asyncr.Time.Clock.{Clock}
use asyncr.Time.Driver
use asyncr.Time.Driver.{TimerState}

abbrev pub Script : Type 0 → Type 0 → Type 0
Script S A = S → Outcome A × S

infixl 5 ◌>>=◌ ◌>>◌
abbrev pub ◌>>=◌ : {S A B : Type 0} → Script S A → (A → Script S B) → Script S B
◌>>=◌ first next s =
    let (answer, s') = first s in elim answer [ ok a ↦ next a s' | panic p ↦ (panic p, s') ]

abbrev pub ◌>>◌ : {S A B : Type 0} → Script S A → Script S B → Script S B
first >> next = first >>= λ a. next

-- A failed `assert!` panics.
abbrev pub assert : {S : Type 0} → Bool → Script S (Unit {0})
assert true s = (ok tt, s)
assert false s = (panic user_panic, s)

-- What a test ends in.
abbrev pub outcome : {S A : Type 0} → Script S A → S → Outcome A
outcome script s = (script s).0

abbrev pub second : ℕ
second = 1_000_000_000

abbrev pub limit : ℕ
limit = 1_000_000 * second

abbrev pub is_ready : {A : Type 0} → Poll A → Bool
is_ready (ready a) = true
is_ready pending = false

abbrev pub is_pending : {A : Type 0} → Poll A → Bool
is_pending (ready a) = false
is_pending pending = true

abbrev pub is_at : Option ℕ → ℕ → Bool
is_at none instant = false
is_at (some deadline) instant = deadline == instant

abbrev pub is_none : {A : Type 0} → Option A → Bool
is_none none = true
is_none (some a) = false

abbrev pub will_wake : ℕ → ℕ → Bool
will_wake waker other = waker == other

-- The clock, the timers behind driver and handle, and the wakers woken so far.
pub record Bench : Type 0 where
  pub clock : Clock
  pub timers : TimerState ℕ
  pub woken : List ℕ

unfoldable pub bench : Bench
unfolding paused_timer_driver
bench =
    let (clock, timers) = paused_timer_driver (1_000 * second) in
    record { clock = clock; timers = timers; woken = [] }

unfoldable pub now : Script Bench ℕ
unfolding Clock.now
now b = (Clock.now limit 0 b.clock, b)

unfoldable pub advance : ℕ → Script Bench (Unit {0})
unfolding Clock.advance
advance duration b = elim (Clock.advance limit duration b.clock) [
  | ok clock ↦ (ok tt, record b { clock = clock })
  | panic p ↦ (panic p, b)
]

unfoldable pub register : ℕ → ℕ → Script Bench ℕ
unfolding Driver.register
register deadline waker b =
    let (answer, timers) = Driver.register deadline waker b.timers in
    (answer, record b { timers = timers })

unfoldable pub update_waker : ℕ → ℕ → Script Bench (Unit {0})
unfolding Driver.update_waker
update_waker id waker b =
    let (answer, timers) = Driver.update_waker will_wake id waker b.timers in
    (answer, record b { timers = timers })

unfoldable pub cancel : ℕ → Script Bench (Unit {0})
unfolding Driver.cancel
cancel id b = (ok tt, record b { timers = Driver.cancel id b.timers })

unfoldable pub reschedule : ℕ → ℕ → Script Bench Bool
unfolding Driver.reschedule
reschedule id deadline b =
    let (found, timers) = Driver.reschedule id deadline b.timers in
    (ok found, record b { timers = timers })

-- The driver wakes each waker that it finds.
unfoldable pub process_expired : Script Bench (Unit {0})
unfolding now Driver.process_expired
process_expired = do
  instant ← now
  λ b.
      let (wakers, timers) = Driver.process_expired instant b.timers in
      (ok tt, record b { timers = timers; woken = b.woken ++ wakers })

unfoldable pub next_deadline : Script Bench (Option ℕ)
unfolding Driver.next_deadline
next_deadline b =
    let (deadline, timers) = Driver.next_deadline b.timers in
    (ok deadline, record b { timers = timers })

-- `counter.count()`, where the counting waker is the number.
abbrev pub count : ℕ → Script Bench ℕ
count waker b = (ok (occurrences b.woken waker), b)

abbrev pub assert_count : ℕ → ℕ → Script Bench (Unit {0})
assert_count waker expected = do counted ← count waker; assert (counted == expected)

-- `recv_timeout` on the channel of the waker, which no earlier call has emptied.
abbrev pub assert_heard : ℕ → Script Bench (Unit {0})
assert_heard waker = do counted ← count waker; assert (leb 1 counted)

unfoldable pub assert_next : ℕ → Script Bench (Unit {0})
unfolding next_deadline
assert_next deadline = do next ← next_deadline; assert (is_at next deadline)

unfoldable pub assert_no_next : Script Bench (Unit {0})
unfolding next_deadline
assert_no_next = do next ← next_deadline; assert (is_none next)

abbrev pub attempt : {S A : Type 0} → Outcome A → Script S A
attempt answer s = (answer, s)

abbrev pub Passes : {S : Type 0} → S → List (Script S (Unit {0})) → Type 0
Passes s = All (λ test. outcome test s ≡ ok tt)
