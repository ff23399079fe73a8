-- ===== src/Time/Driver/Access.antt =====
-- What each operation of a `TimerHandle` (src/time/driver.rs) does to the registrations.
use asyncr.Prelude.{
  ℕ, ◌+◌, ◌%◌, ◌^◌, ◌≡◌, refl, inl, inr, Bool, true, false, none, some, ok, arith, ◌==◌,
  if◌then◌else◌, Bool-cases,
}
use asyncr.Prelude.Map.{get, get-insert, get-remove, contains_key}
use asyncr.Time.Driver.{
  TimerRegistration, TimerState, next_id, register, update_waker, cancel, reschedule,
}

module _ {W : Type 0} where
  -- A free id is handed out, and the new timer stands under it; nothing else changes.
  pub register_lem :
      (d : ℕ) (w : W) (s : TimerState W)
      → contains_key s.next_id s.registrations ≡ false
      → let (answer, s') = register d w s in
        (answer ≡ ok s.next_id)
        × (s'.next_id ≡ (s.next_id + 1) % 2 ^ 64)
        × ((j : ℕ)
            → get j s'.registrations ≡ (
                if s.next_id == j
                then some (record { deadline = d; waker = w })
                else get j s.registrations))
  unfolding register next_id
  register_lem d w s e =
      rw (e, register, next_id) (refl, refl, λ j. get-insert s.next_id j _ s.registrations)

  -- The registration keeps its deadline; the waker is replaced unless it would wake the same task.
  pub update_waker_lem :
      (will_wake : W → W → Bool) (i : ℕ) (w : W) (s : TimerState W) (r : TimerRegistration W)
      → get i s.registrations ≡ some r
      → let (answer, s') = update_waker will_wake i w s in
        (answer ≡ ok tt)
        × ((j : ℕ)
            → get j s'.registrations ≡ (
                if i == j
                then some (record r { waker = if will_wake r.waker w then r.waker else w })
                else get j s.registrations))
  unfolding update_waker
  update_waker_lem will_wake i w s r e =
      rw (e, update_waker)
        (elim (Bool-cases (will_wake r.waker w)) [
          | inl same ↦ rw same (refl, λ j. ground (arith, e))
          | inr other ↦ rw other (refl, λ j. get-insert i j _ s.registrations)
        ])

  -- A timer that has fired or was cancelled cannot be rescheduled, and nothing changes.
  pub reschedule-none :
      (i d : ℕ) (s : TimerState W) → get i s.registrations ≡ none → reschedule i d s ≡ (false, s)
  unfolding reschedule
  reschedule-none i d s e = rw (e, reschedule)

  pub reschedule-some :
      (i d : ℕ) (s : TimerState W) (r : TimerRegistration W)
      → get i s.registrations ≡ some r
      → let (found, s') = reschedule i d s in
        (found ≡ true)
        × ((j : ℕ)
            → get j s'.registrations
              ≡ (if i == j then some (record r { deadline = d }) else get j s.registrations))
  unfolding reschedule
  reschedule-some i d s r e = rw (e, reschedule) (refl, λ j. get-insert i j _ s.registrations)

  pub get-cancel :
      (i j : ℕ) (s : TimerState W)
      → get j (cancel i s).registrations ≡ (if i == j then none else get j s.registrations)
  unfolding cancel
  get-cancel i j s = get-remove i j s.registrations
