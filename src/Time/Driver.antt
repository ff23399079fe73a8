-- ===== src/Time/Driver.antt =====
-- src/time/driver.rs. The shared `Rc<RefCell<TimerState>>` is a state that each operation takes and
-- returns; an operation that reads the clock takes the reading. `W` is the type of wakers.
pub mod Invariant
pub mod Access
pub mod Expiry
pub mod Fired
pub mod Next
pub mod Woken
pub mod Independence
pub mod Advance
pub mod Dwindling
use asyncr.Prelude.{
  ℕ, ◌+◌, ◌-◌, ◌%◌, ◌^◌, Bool, true, false, not, List, [], ◌∷◌, Option, none, some, Outcome, ok,
  panic, missing_registration, timer_id_exhausted, ltb, ◌==◌, if◌then◌else◌,
}
use asyncr.Prelude.Map.{Map, get, remove, insert, contains_key}
use asyncr.Time.Clock.{Clock, is_paused, advance_to}
use asyncr.Time.Heap.{Heap, push}

pub record TimerRegistration (W : Type 0) : Type 0 where
  pub deadline : ℕ
  pub waker : W

pub record TimerState (W : Type 0) : Type 0 where
  pub next_id : ℕ
  pub deadlines : Heap
  pub registrations : Map (TimerRegistration W)

-- `TimerDriver::new`: the state that the driver and its handle share.
unfoldable pub new : {W : Type 0} → TimerState W
new = record { next_id = 0; deadlines = []; registrations = [] }

module _ {W : Type 0} where
  unfoldable pub next_id : TimerState W → Outcome ℕ × TimerState W
  unfolding contains_key
  next_id s =
      let id = s.next_id in
      let s' = record s { next_id = (id + 1) % 2 ^ 64 } in
      (if contains_key id s.registrations then panic timer_id_exhausted else ok id, s')

  unfoldable pub register : ℕ → W → TimerState W → Outcome ℕ × TimerState W
  unfolding next_id push insert
  register deadline waker s =
      let (answer, s') = next_id s in
      elim answer [
        | panic p ↦ (panic p, s')
        | ok id ↦ (
          ok id,
          record s' {
            deadlines = push deadline id s'.deadlines;
            registrations =
                insert id (record { deadline = deadline; waker = waker }) s'.registrations;
          },
        )
      ]

  -- `will_wake` is `Waker::will_wake`.
  unfoldable pub update_waker :
      (W → W → Bool) → ℕ → W → TimerState W → Outcome (Unit {0}) × TimerState W
  unfolding get insert
  update_waker will_wake id waker s = elim (get id s.registrations) [
    | none ↦ (panic missing_registration, s)
    | some r ↦ (
      ok tt,
      if will_wake r.waker waker
          then s
          else record s { registrations = insert id (record r { waker = waker }) s.registrations },
    )
  ]

  unfoldable pub cancel : ℕ → TimerState W → TimerState W
  unfolding remove
  cancel id s = record s { registrations = remove id s.registrations }

  unfoldable pub reschedule : ℕ → ℕ → TimerState W → Bool × TimerState W
  unfolding get push insert
  reschedule id new_deadline s = elim (get id s.registrations) [
    | none ↦ (false, s)
    | some r ↦ (
      true,
      record s {
        deadlines = push new_deadline id s.deadlines;
        registrations = insert id (record r { deadline = new_deadline }) s.registrations;
      },
    )
  ]

  -- The entry is the one its timer is registered under now.
  unfoldable pub is_current : ℕ → ℕ → Map (TimerRegistration W) → Bool
  unfolding get
  is_current deadline id registrations = elim (get id registrations) [
    | none ↦ false
    | some r ↦ r.deadline == deadline
  ]

  -- The waker that the entry's round adds to `wakers`.
  unfoldable pub fired_by : ℕ → ℕ → Map (TimerRegistration W) → List W → List W
  unfolding get
  fired_by deadline id registrations wakers = elim (get id registrations) [
    | none ↦ wakers
    | some r ↦ if r.deadline == deadline then r.waker ∷ wakers else wakers
  ]

  -- The `while let` of `process_expired`: the heap and the registrations left, and the wakers.
  unfoldable pub expire :
      ℕ → Heap → Map (TimerRegistration W) → Heap × Map (TimerRegistration W) × List W
  unfolding is_current fired_by remove
  expire now [] registrations = ([], registrations, [])
  expire now ((deadline, id) ∷ h) registrations =
      let kept =
        if is_current deadline id registrations then remove id registrations else registrations in
      let rest = expire now h kept in
      if ltb now deadline
      then ((deadline, id) ∷ h, registrations, [])
      else (rest.0, rest.1, fired_by deadline id registrations rest.2)

  -- The wakers are returned, and woken by the caller once the borrow has ended.
  unfoldable pub process_expired : ℕ → TimerState W → List W × TimerState W
  unfolding expire
  process_expired now s =
      let (deadlines, registrations, wakers) = expire now s.deadlines s.registrations in
      (wakers, record s { deadlines = deadlines; registrations = registrations })

  unfoldable pub prune : Heap → Map (TimerRegistration W) → Option ℕ × Heap
  unfolding is_current
  prune [] registrations = (none, [])
  prune ((deadline, id) ∷ h) registrations =
      let rest = prune h registrations in
      if is_current deadline id registrations then (some deadline, (deadline, id) ∷ h) else rest

  unfoldable pub next_deadline : TimerState W → Option ℕ × TimerState W
  unfolding prune
  next_deadline s =
      let (deadline, deadlines) = prune s.deadlines s.registrations in
      (deadline, record s { deadlines = deadlines })

  -- `saturating_duration_since` stops at 0, as `-` does. The clock is read only where there is a
  -- deadline; `reading` is what it gives then.
  unfoldable pub time_until_next_deadline :
      Outcome ℕ → TimerState W → Outcome (Option ℕ) × TimerState W
  unfolding next_deadline
  time_until_next_deadline reading s =
      let (next, s') = next_deadline s in
      elim next [
        | none ↦ (ok none, s')
        | some deadline ↦ elim reading [
          | panic p ↦ (panic p, s')
          | ok now ↦ (ok (some (deadline - now)), s')
        ]
      ]

  unfoldable pub advance_to_next_deadline_if_paused :
      Clock → TimerState W → Outcome Bool × Clock × TimerState W
  unfolding next_deadline is_paused advance_to
  advance_to_next_deadline_if_paused clock s =
      let (next, s') = next_deadline s in
      if not (is_paused clock) then (ok false, clock, s) else elim next [
        | none ↦ (ok false, clock, s')
        | some deadline ↦ elim (advance_to deadline clock) [
          | panic p ↦ (panic p, clock, s')
          | ok clock' ↦ (ok true, clock', s')
        ]
      ]
