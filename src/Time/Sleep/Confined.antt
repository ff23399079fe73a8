-- ===== src/Time/Sleep/Confined.antt =====
-- How far an operation of a `Sleep` (src/time/sleep.rs) reaches into the timers that it shares.
use asyncr.Prelude.{
  ℕ, suc, ◌^◌, ◌≤◌, ◌<◌, ◌≡◌, refl, ◌≢◌, ◌⊎◌, inl, inr, Bool, false, Option, none, some, arith, leb,
  Bool-cases, Option-cases,
}
use asyncr.Prelude.Map.{get, contains_key}
use asyncr.Time.Driver.{TimerState, update_waker, cancel, reschedule}
use asyncr.Time.Driver.Invariant.{Inv, register-Inv, update_waker-Inv, cancel-Inv, reschedule-Inv}
use asyncr.Time.Driver.Access.{
  register_lem, update_waker_lem, reschedule-none, reschedule-some, get-cancel,
}
use asyncr.Time.Sleep.{Sleep, release, reset, poll_registration, poll, drop}

module _ {W : Type 0} where
  -- What happens to the timers where a sleep goes from holding the id `o` to holding the id `o'`.
  pub record Confined (o o' : Option ℕ) (t t' : TimerState W) : Type 0 where
    pub inv : Inv t'
    pub spares : (j : ℕ) → o ≢ some j → o' ≢ some j → get j t'.registrations ≡ get j t.registrations
    pub frees : (j : ℕ) → o ≡ some j → o' ≢ some j → get j t'.registrations ≡ none
    pub takes :
        (j : ℕ) → o' ≡ some j → (o ≡ some j) ⊎ ((j ≡ t.next_id) × (t'.next_id ≡ suc t.next_id))
    pub grows : t.next_id ≤ t'.next_id

  pub release-Confined : (o : Option ℕ) (t : TimerState W) → Inv t → Confined o none t (release o t)
  unfolding release cancel
  release-Confined none t v = record {
    inv = v;
    spares = λ j e f. refl;
    frees = λ j e f. cc;
    takes = λ j e. cc;
    grows = omega arith;
  }
  release-Confined (some id) t v = record {
    inv = cancel-Inv id t v;
    spares = λ j e f. ground (arith, get-cancel id j t);
    frees = λ j e f. ground (arith, get-cancel id j t);
    takes = λ j e. cc;
    grows = omega arith;
  }

  -- The next id is free, and the counter does not wrap.
  abbrev pub IsFresh : TimerState W → Type 0
  IsFresh t = (contains_key t.next_id t.registrations ≡ false) × (suc t.next_id < 2 ^ 64)

  next_id-update_waker :
      (will_wake : W → W → Bool) (id : ℕ) (w : W) (t : TimerState W)
      → (update_waker will_wake id w t).1.next_id ≡ t.next_id
  unfolding update_waker
  next_id-update_waker will_wake id w t = ground arith

  next_id-reschedule : (id d : ℕ) (t : TimerState W) → (reschedule id d t).1.next_id ≡ t.next_id
  unfolding reschedule
  next_id-reschedule id d t = ground arith

  poll_registration-Confined :
      (will_wake : W → W → Bool) (w : W) (sleep : Sleep) (t : TimerState W) (o : Option ℕ)
      → sleep.registration ≡ o
      → Inv t
      → IsFresh t
      → ((id : ℕ) → o ≡ some id → get id t.registrations ≢ none)
      → Confined o
          (poll_registration will_wake w sleep t).1.registration
          t
          (poll_registration will_wake w sleep t).2
  unfolding poll_registration
  poll_registration-Confined will_wake w sleep t none e v (free, fits) live =
      let (answered, next, at) = register_lem sleep.deadline w t free in
      rw (e, poll_registration)
        (rw answered (record {
          inv = register-Inv sleep.deadline w t v;
          spares = λ j f g. ground (arith, at j);
          frees = λ j f g. cc;
          takes = λ j f. inr (ground arith, omega (arith, next, fits));
          grows = omega (arith, next, fits);
        }))
  poll_registration-Confined will_wake w sleep t (some id) e v fresh live =
      elim (Option-cases (get id t.registrations)) [
        | inl gone ↦ absurd (live id refl gone)
        | inr (r, here) ↦
            let (answered, at) = update_waker_lem will_wake id w t r here in
            let kept = next_id-update_waker will_wake id w t in
            rw (e, poll_registration)
              (rw (answered, e)
                (record {
                  inv = update_waker-Inv will_wake id w t v;
                  spares = λ j f g. ground (arith, at j);
                  frees = λ j f g. absurd (g f);
                  takes = λ j f. inl f;
                  grows = omega (arith, kept);
                }))
      ]

  -- A sleep whose deadline is to come holds a live registration.
  abbrev pub IsLive : ℕ → Sleep → TimerState W → Type 0
  IsLive now sleep t =
      now < sleep.deadline → (id : ℕ) → sleep.registration ≡ some id → get id t.registrations ≢ none

  pub poll-Confined :
      (will_wake : W → W → Bool) (now : ℕ) (w : W) (sleep : Sleep) (t : TimerState W)
      → Inv t
      → IsFresh t
      → IsLive now sleep t
      → let (_, sleep', t') = poll will_wake now w sleep t in
        Confined sleep.registration sleep'.registration t t'
  unfolding poll
  poll-Confined will_wake now w sleep t v fresh live = elim (Bool-cases (leb sleep.deadline now)) [
    | inl due ↦ rw due (release-Confined sleep.registration t v)
    | inr late ↦ rw late (
        poll_registration-Confined will_wake w sleep t sleep.registration refl v fresh
          (live (ground arith)))
  ]

  reset_cases :
      (d : ℕ) (sleep : Sleep) (t : TimerState W) (o : Option ℕ)
      → sleep.registration ≡ o
      → Inv t
      → let (sleep', t') = reset d sleep t in Confined o sleep'.registration t t'
  unfolding reset
  reset_cases d sleep t none e v =
      rw (e, reset)
        (rw e (record {
          inv = v;
          spares = λ j f g. refl;
          frees = λ j f g. cc;
          takes = λ j f. inl f;
          grows = omega arith;
        }))
  reset_cases d sleep t (some id) e v = elim (Option-cases (get id t.registrations)) [
    | inl gone ↦
        rw (e, reset)
          (rw (reschedule-none id d t gone) (record {
            inv = v;
            spares = λ j f g. refl;
            frees = λ j f g. ground (arith, gone);
            takes = λ j f. cc;
            grows = omega arith;
          }))
    | inr (r, here) ↦
        let (found, at) = reschedule-some id d t r here in
        let kept = next_id-reschedule id d t in
        rw (e, reset)
          (rw (found, e)
            (record {
              inv = reschedule-Inv id d t v;
              spares = λ j f g. ground (arith, at j);
              frees = λ j f g. absurd (g f);
              takes = λ j f. inl f;
              grows = omega (arith, kept);
            }))
  ]

  pub reset-Confined :
      (d : ℕ) (sleep : Sleep) (t : TimerState W)
      → Inv t
      → let (sleep', t') = reset d sleep t in Confined sleep.registration sleep'.registration t t'
  reset-Confined d sleep t v = reset_cases d sleep t sleep.registration refl v

  pub drop-Confined :
      (sleep : Sleep) (t : TimerState W) → Inv t → Confined sleep.registration none t (drop sleep t)
  unfolding drop
  drop-Confined sleep t v = release-Confined sleep.registration t v
