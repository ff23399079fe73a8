-- ===== src/Tests/Timing.antt =====
-- The results on src/time at concrete inputs: wakers are numbers, and the limit is 1000 seconds.
use asyncr.Prelude.{
  ℕ, ◌≤◌, ◌<◌, ◌≡◌, refl, Bool, [], ◌∷◌, none, some, Outcome, ok, panic, timer_out_of_range, ◌-◌,
  ◌⊎◌, Poll, ready, pending, Place, arith, ◌==◌, if◌then◌else◌,
}
use asyncr.Prelude.Map.{get, contains_key}
use asyncr.Time.Heap.{From}
use asyncr.Time.Driver.{
  TimerState, register, process_expired, next_deadline, advance_to_next_deadline_if_paused,
}
use asyncr.Time.Driver.Invariant.{Inv, register-Inv}
use asyncr.Time.Driver.Expiry.{is_due}
use asyncr.Time.Driver.Fired.{Fires, process_expired-Fires, process_expired-removes}
use asyncr.Time.Driver.Next.{
  IsEarliest, next_deadline-IsEarliest, process_expired-time_until_next_deadline,
}
use asyncr.Time.Driver.Advance.{Jumps, process_expired-Jumps}
use asyncr.Time.Driver.{cancel, time_until_next_deadline}
use asyncr.Time.Driver.Independence.{SameTimers, cancel-register}
use asyncr.Time.Clock.Resumed.{pause-resume}
use asyncr.Time.Interval.Alignment.{Climbs, given, ticks-Climbs}
use asyncr.Time.Clock
use asyncr.Time.Clock.{Clock, paused}
use asyncr.Time.Clock.Monotone.{
  passes, pauses, advances, resumes, Steps, stay, onward, Steps-now, now-new,
}
use asyncr.Time.Sleep.{Sleep}
use asyncr.Time.Interval.{burst, skip, Interval, missed_tick_grace_delay, following}
use asyncr.Time.Interval.Ticks.{IsFollowing, following-IsFollowing, ticks, ticks-burst}
use asyncr.Time.Timeout.Outcomes.{Pends, polled, poll-pending}

abbrev empty : TimerState ℕ
empty = record { next_id = 0; deadlines = []; registrations = [] }

empty-Inv : Inv empty
unfolding get
empty-Inv = record { sorted = tt; covers = λ j r e. absurd (ground arith) }

-- Timers for the instants 10 and 5, under the wakers 7 and 8.
abbrev two : TimerState ℕ
two = (register 5 8 (register 10 7 empty).1).1

two-Inv : Inv two
two-Inv = register-Inv 5 8 (register 10 7 empty).1 (register-Inv 10 7 empty empty-Inv)

two_fires : (process_expired 6 two).0 ≡ 8 ∷ []
unfolding process_expired register
two_fires = refl

process_expired-Fires_example : Fires 6 two.registrations (process_expired 6 two).0
process_expired-Fires_example = process_expired-Fires 6 two two-Inv

process_expired-removes_example :
    let s' = (process_expired 6 two).1 in
    Inv s'
    × ((j : ℕ)
        → get j s'.registrations
          ≡ (if is_due 6 (get j two.registrations) then none else get j two.registrations))
    × From 7 s'.deadlines
process_expired-removes_example = process_expired-removes 6 two two-Inv

next_deadline-IsEarliest_example :
    let (next, s') = next_deadline two in
    IsEarliest two.registrations next × (s'.registrations ≡ two.registrations) × Inv s'
next_deadline-IsEarliest_example = next_deadline-IsEarliest two two-Inv

process_expired-time_until_next_deadline_example :
    let s' = (process_expired 6 two).1 in
    let timeout = (time_until_next_deadline (ok 11) s').0 in
    ((timeout ≡ ok none) × IsEarliest s'.registrations none)
    ⊎ ((d : ℕ) × (timeout ≡ ok (some (d - 11)))
        × IsEarliest s'.registrations (some d)
        × (6 < d)
        × (timeout ≡ ok (some 0) → (6 < 11) × (d ≤ 11)))
process_expired-time_until_next_deadline_example =
    process_expired-time_until_next_deadline 6 11 two two-Inv (omega arith)

process_expired-Jumps_example :
    let s' = (process_expired 6 two).1 in
    let (answer, clock, s'') = advance_to_next_deadline_if_paused (paused 6) s' in
    Jumps 6 (next_deadline s').0 answer clock × (s'' ≡ (next_deadline s').1)
process_expired-Jumps_example = process_expired-Jumps 6 two two-Inv

-- A running clock is paused at 30, moved on by 5, and goes on at 40.
moved-Steps : Steps 1000 20 (Clock.new 20) 40 (Clock.real 40 35)
unfolding Clock.new Clock.pause Clock.advance Clock.resume
moved-Steps =
    onward
      (onward
        (onward
          (onward (onward (stay 20 _) (passes 20 30 _ (omega arith)))
            (pauses 30 _ (paused 30) refl))
          (advances 30 5 _ (paused 35) refl))
        (passes 30 40 _ (omega arith)))
      (resumes 40 _ (Clock.real 40 35) refl)

Steps-now_example : 20 ≤ 35
unfolding Clock.now Clock.new
Steps-now_example = Steps-now moved-Steps refl refl

abbrev wakes_same : ℕ → ℕ → Bool
wakes_same a b = a == b

abbrev fresh_sleep : Sleep
fresh_sleep = record { deadline = 12; registration = none }

following-IsFollowing_example :
    let answer = following 1_000_000_000_000 skip 10_000_000_000 35_000_000_000 10_000_000_000 in
    (next : ℕ) × (missed_tick_grace_delay < 25_000_000_000
      → IsFollowing skip 10_000_000_000 35_000_000_000 10_000_000_000 next)
    × (25_000_000_000 ≤ missed_tick_grace_delay → next ≡ 20_000_000_000)
    × (next ≤ 1_000_000_000_000 → answer ≡ ok next)
    × (1_000_000_000_000 < next → answer ≡ panic timer_out_of_range)
following-IsFollowing_example =
    following-IsFollowing 1_000_000_000_000 skip 10_000_000_000 35_000_000_000 10_000_000_000
      (omega arith) (omega arith)

abbrev every_ten : Interval
every_ten = record {
  sleep = record { deadline = 10; registration = none };
  period = 10;
  missed_tick_behavior = burst;
}

ticks-burst_example :
    ticks wakes_same 1000 ((45, 45) ∷ (46, 47) ∷ []) 9 every_ten two
    ≡ ok (ready 10) ∷ ok (ready 20) ∷ []
ticks-burst_example =
    ticks-burst wakes_same 1000 ((45, 45) ∷ (46, 47) ∷ []) 9 every_ten two refl (omega arith)

-- The shared state is the timers alone, and the future is pending for ever.
abbrev whole : Place (TimerState ℕ) (TimerState ℕ)
whole = record {
  view = λ s. s;
  put = λ s _. s;
  view-put = λ a w. refl;
  put-put = λ a b w. refl;
  put-view = λ w. refl;
}

abbrev for_ever : ℕ → Unit {0} → TimerState ℕ → Outcome (Poll ℕ) × Unit {0} × TimerState ℕ
for_ever w f s = (ok pending, f, s)

abbrev no_drop : Unit {0} → TimerState ℕ → TimerState ℕ
no_drop f s = s

poll-pending_example :
    Pends whole for_ever no_drop wakes_same
      (λ _. 12)
      9
      tt
      fresh_sleep
      two
      (polled whole for_ever no_drop wakes_same
        (λ _. 12)
        9
        (record { future = some tt; sleep = some fresh_sleep })
        two)
unfolding contains_key register
poll-pending_example =
    poll-pending whole for_ever no_drop wakes_same (λ _. 12) 9 tt fresh_sleep two refl tt refl

-- A registration for the instant 3 under the waker 9, and its cancellation.
cancel-register_example :
    let t = cancel 2 (register 3 9 two).1 in
    SameTimers t two
    × ((next_deadline t).0 ≡ (next_deadline two).0)
    × ((now : ℕ)
        → SameTimers (process_expired now t).1 (process_expired now two).1
          × ((next_deadline (process_expired now t).1).0
              ≡ (next_deadline (process_expired now two).1).0))
unfolding contains_key register
cancel-register_example = cancel-register 3 9 two two-Inv refl

pause-resume_example :
    (running : Clock) × (Clock.resume 20 (paused 35) ≡ ok running)
    × (Clock.now 1000 20 running ≡ ok 35)
    × (Clock.pause 1000 50 running ≡ ok (paused 65))
    × (Clock.pause 1000 20 running ≡ ok (paused 35))
pause-resume_example = pause-resume 1000 20 50 35 (omega arith) (omega arith)

ticks-Climbs_example : Climbs 10 10 10 (
    given (
      ticks wakes_same 1000
        ((5, 5) ∷ (12, 13) ∷ (47, 48) ∷ [])
        9
        (record {
          sleep = record { deadline = 10; registration = none };
          period = 10;
          missed_tick_behavior = skip;
        })
        two))
ticks-Climbs_example =
    ticks-Climbs wakes_same 1000 ((5, 5) ∷ (12, 13) ∷ (47, 48) ∷ []) 9
      (record {
        sleep = record { deadline = 10; registration = none };
        period = 10;
        missed_tick_behavior = skip;
      })
      two (λ e. cc) (omega arith) (omega arith, (omega arith, (omega arith, tt)))

now-new_example : Clock.now 1000 50 (Clock.new 20) ≡ ok (Clock.release_now 50)
now-new_example = now-new 1000 20 50 (omega arith) (omega arith)
