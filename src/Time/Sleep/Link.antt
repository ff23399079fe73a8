-- ===== src/Time/Sleep/Link.antt =====
-- How a sleep of src/time/sleep.rs and its registration in src/time/driver.rs hang together.
use asyncr.Prelude.{
  ℕ, ◌≤◌, ◌<◌, ◌≡◌, refl, sym, ◌⊎◌, inl, inr, Bool, true, false, Option, none, some, Outcome, ok,
  arith, Poll, ready, pending, leb, if◌then◌else◌, Bool-cases, Option-cases,
}
use asyncr.Prelude.Map.{get, contains_key}
use asyncr.Time.Driver.{TimerRegistration, TimerState, process_expired}
use asyncr.Time.Driver.Invariant.{Inv}
use asyncr.Time.Driver.Expiry.{is_due}
use asyncr.Time.Driver.Fired.{process_expired-removes}
use asyncr.Time.Driver.Access.{register_lem, update_waker_lem, reschedule-none, reschedule-some}
use asyncr.Time.Sleep.{Sleep, reset, poll_registration, poll}

module _ {W : Type 0} where
  -- The registration of a sleep stands under the sleep's deadline, or is gone because the deadline
  -- has come.
  abbrev pub LinkedAt : ℕ → ℕ → Option (TimerRegistration W) → Type 0
  LinkedAt now deadline none = deadline ≤ now
  LinkedAt now deadline (some r) = r.deadline ≡ deadline

  abbrev pub LinkedBy : ℕ → ℕ → Option ℕ → TimerState W → Type 0
  LinkedBy now deadline none timers = Unit {0}
  LinkedBy now deadline (some id) timers = LinkedAt now deadline (get id timers.registrations)

  abbrev pub IsLinked : ℕ → Sleep → TimerState W → Type 0
  IsLinked now sleep timers = LinkedBy now sleep.deadline sleep.registration timers

  -- What a poll leaves behind that answers `pending`: a live registration under the sleep's deadline
  -- and a waker that wakes the polled task.
  pub record IsWaiting (will_wake : W → W → Bool) (w : W) (deadline : ℕ) (sleep : Sleep)
      (timers : TimerState W) : Type 0 where
    pub id : ℕ
    pub waker : W
    pub holds : sleep.registration ≡ some id
    pub registered :
        get id timers.registrations ≡ some (record { deadline = deadline; waker = waker })
    pub wakes : (waker ≡ w) ⊎ (will_wake waker w ≡ true)

  -- The answer of a poll, and what it leaves behind.
  abbrev pub Answers :
      (W → W → Bool) → ℕ → W → Sleep → Outcome (Poll (Unit {0})) × Sleep × TimerState W → Type 0
  Answers will_wake now w sleep (answer, sleep', timers') =
      (sleep'.deadline ≡ sleep.deadline)
      × (((sleep.deadline ≤ now) × (answer ≡ ok (ready tt)) × (sleep'.registration ≡ none))
          ⊎ ((now < sleep.deadline)
              × (answer ≡ ok pending)
              × IsWaiting will_wake w sleep.deadline sleep' timers'))

  poll_registration-Answers :
      (will_wake : W → W → Bool) (now : ℕ) (w : W) (sleep : Sleep) (timers : TimerState W)
      (o : Option ℕ)
      → sleep.registration ≡ o
      → LinkedBy now sleep.deadline o timers
      → now < sleep.deadline
      → contains_key timers.next_id timers.registrations ≡ false
      → Answers will_wake now w sleep (poll_registration will_wake w sleep timers)
  unfolding poll_registration
  poll_registration-Answers will_wake now w sleep timers none e l late free =
      let (answered, _, at) = register_lem sleep.deadline w timers free in
      let here = at timers.next_id in
      rw (e, poll_registration)
        (rw answered (
          refl,
          inr (
            late,
            refl,
            record {
              id = timers.next_id;
              waker = w;
              holds = refl;
              registered = ground (arith, here);
              wakes = inl refl;
            },
          ),
        ))
  poll_registration-Answers will_wake now w sleep timers (some id) e l late free =
      elim (Option-cases (get id timers.registrations)) [
        | inl gone ↦ absurd (ground arith)
        | inr (r, live) ↦
            let (answered, at) = update_waker_lem will_wake id w timers r live in
            let here = at id in
            rw (e, poll_registration)
              (rw answered (
                refl,
                inr (
                  late,
                  refl,
                  record {
                    id = id;
                    waker = if will_wake r.waker w then r.waker else w;
                    holds = e;
                    registered = ground (arith, here);
                    wakes = ground arith;
                  },
                ),
              ))
      ]

  -- A linked sleep answers each poll: it is ready exactly when its deadline has come, and otherwise
  -- it waits under its deadline with a waker of the polled task.
  pub poll-Answers :
      (will_wake : W → W → Bool) (now : ℕ) (w : W) (sleep : Sleep) (timers : TimerState W)
      → IsLinked now sleep timers
      → contains_key timers.next_id timers.registrations ≡ false
      → Answers will_wake now w sleep (poll will_wake now w sleep timers)
  unfolding poll
  poll-Answers will_wake now w sleep timers l free = elim (Bool-cases (leb sleep.deadline now)) [
    | inl due ↦ rw due (refl, inl (ground arith, refl, refl))
    | inr late ↦ rw late (
        poll_registration-Answers will_wake now w sleep timers sleep.registration refl l
          (ground arith) free)
  ]

  Waiting-IsLinked :
      (will_wake : W → W → Bool) (now d : ℕ) (w : W) (sleep : Sleep) (timers : TimerState W)
      → sleep.deadline ≡ d
      → IsWaiting will_wake w d sleep timers
      → IsLinked now sleep timers
  Waiting-IsLinked will_wake now d w sleep timers e q = rw (q.holds, q.registered) (sym e)

  pub Answers-IsLinked :
      (will_wake : W → W → Bool) (now : ℕ) (w : W) (sleep : Sleep)
      (out : Outcome (Poll (Unit {0})) × Sleep × TimerState W)
      → Answers will_wake now w sleep out
      → IsLinked now out.1 out.2
  Answers-IsLinked will_wake now w sleep (answer, sleep', timers') (d, inl (_, _, none')) =
      rw none' tt
  Answers-IsLinked will_wake now w sleep (answer, sleep', timers') (d, inr (_, _, q)) =
      Waiting-IsLinked will_wake now sleep.deadline w sleep' timers' d q

  reset_cases :
      (now d : ℕ) (sleep : Sleep) (timers : TimerState W) (o : Option ℕ)
      → sleep.registration ≡ o
      → let (sleep', timers') = reset d sleep timers in
        (sleep'.deadline ≡ d) × IsLinked now sleep' timers'
  unfolding reset
  reset_cases now d sleep timers none e = rw (e, reset) (refl, rw e tt)
  reset_cases now d sleep timers (some id) e = elim (Option-cases (get id timers.registrations)) [
    | inl gone ↦ rw (e, reset) (rw (reschedule-none id d timers gone) (refl, tt))
    | inr (r, live) ↦
        let (found, at) = reschedule-some id d timers r live in
        let here = at id in rw (e, reset) (rw found (refl, rw e (ground (arith, here))))
  ]

  -- A reset leaves the sleep linked at any time, whether its timer is live or has fired.
  pub reset-IsLinked :
      (now d : ℕ) (sleep : Sleep) (timers : TimerState W)
      → let (sleep', timers') = reset d sleep timers in
        (sleep'.deadline ≡ d) × IsLinked now sleep' timers'
  reset-IsLinked now d sleep timers = reset_cases now d sleep timers sleep.registration refl

  -- Processing the expired timers keeps a sleep linked.
  pub process_expired-IsLinked :
      (now later : ℕ) (sleep : Sleep) (timers : TimerState W)
      → Inv timers
      → now ≤ later
      → IsLinked now sleep timers
      → IsLinked later sleep (process_expired later timers).1
  process_expired-IsLinked now later sleep timers v le l =
      let (_, at, _) = process_expired-removes later timers v in
      keep sleep.registration (λ id. at id) l
    where
      keep :
          (o : Option ℕ)
          → ((id : ℕ)
              → get id (process_expired later timers).1.registrations ≡ (
                  if is_due later (get id timers.registrations)
                  then none
                  else get id timers.registrations))
          → LinkedBy now sleep.deadline o timers
          → LinkedBy later sleep.deadline o (process_expired later timers).1
      keep none at l = tt
      keep (some id) at l = ground (arith, at id)
