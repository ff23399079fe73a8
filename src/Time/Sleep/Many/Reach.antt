-- ===== src/Time/Sleep/Many/Reach.antt =====
-- What many sleeps (src/time/sleep.rs) and their timers look like at any time.
use asyncr.Prelude.{
  ℕ, suc, ◌^◌, ◌≤◌, ◌<◌, ◌≡◌, refl, subst, inl, inr, Bool, List, [], Option, none, some, arith,
  Option-cases,
}
use asyncr.Prelude.Map.{get}
use asyncr.Time.Driver
use asyncr.Time.Driver.{TimerRegistration, TimerState, process_expired}
use asyncr.Time.Driver.Fired.{process_expired-removes}
use asyncr.Time.Sleep
use asyncr.Time.Sleep.{Sleep}
use asyncr.Time.Sleep.Link.{LinkedBy, IsLinked, Answers, poll-Answers, process_expired-IsLinked}
use asyncr.Time.Sleep.Many.{World, Step, creates, polls, resets, drops, waits, fires, Sound}
use asyncr.Time.Sleep.Many.One.{
  replaced-Sound, fresh, polled-Replaced, reset-Replaced, drop-Replaced, new-Replaced,
}

module _ {W : Type 0} where
  process_expired-next_id :
      (now : ℕ) (t : TimerState W) → (process_expired now t).1.next_id ≡ t.next_id
  unfolding process_expired
  process_expired-next_id now t = refl

  fired-Sound :
      (x : World W) (woken : List W)
      → Sound x
      → Sound (record x { timers = (process_expired x.now x.timers).1; woken = woken })
  fired-Sound x woken v =
      let (inv, at, _) = process_expired-removes x.now x.timers v.inv in
      let same = process_expired-next_id x.now x.timers in
      record {
        inv = inv;
        linked = λ k sleep e.
            process_expired-IsLinked x.now x.now sleep x.timers v.inv (omega arith)
              (v.linked k sleep e);
        apart = v.apart;
        below = λ k id e. omega (arith, same, v.below k id e);
        owned = λ id r e. v.owned id r (ground (arith, e, at id));
      }

  waits-IsLinked :
      (now later : ℕ) (sleep : Sleep) (t : TimerState W)
      → now ≤ later
      → IsLinked now sleep t
      → IsLinked later sleep t
  waits-IsLinked now later sleep t le l = keep sleep.registration l
    where
      keep : (o : Option ℕ) → LinkedBy now sleep.deadline o t → LinkedBy later sleep.deadline o t
      keep none l = tt
      keep (some id) l = ground (arith, le, l)

  -- Every step keeps the sleeps and the timers in order.
  pub Step-Sound :
      {will_wake : W → W → Bool} {x y : World W} → Step will_wake x y → Sound x → Sound y
  Step-Sound {x = x} (creates k d e) v = replaced-Sound x v k _ _ (new-Replaced k d x v e)
  Step-Sound {will_wake = will_wake} {x = x} (polls k w sleep e fits) v =
      replaced-Sound x v k _ _ (polled-Replaced will_wake k w sleep x v e fits)
  Step-Sound {x = x} (resets k d sleep e) v =
      replaced-Sound x v k _ _ (reset-Replaced k d sleep x v e)
  Step-Sound {x = x} (drops k sleep e) v = replaced-Sound x v k _ _ (drop-Replaced k sleep x v e)
  Step-Sound {x = x} (waits later le) v = record {
    inv = v.inv;
    linked = λ k sleep e. waits-IsLinked x.now later sleep x.timers le (v.linked k sleep e);
    apart = v.apart;
    below = v.below;
    owned = v.owned;
  }
  Step-Sound {x = x} fires v = fired-Sound x _ v

  -- A runtime begins without sleeps and without timers.
  pub data Reach (will_wake : W → W → Bool) : World W → Type 0 where
    starts :
        (now : ℕ)
        → Reach will_wake (record { sleeps = []; timers = Driver.new; now = now; woken = [] })
    onward : {x y : World W} → Reach will_wake x → Step will_wake x y → Reach will_wake y

  pub Reach-Sound : {will_wake : W → W → Bool} {x : World W} → Reach will_wake x → Sound x
  unfolding get Driver.new
  Reach-Sound (starts now) = record {
    inv = record { sorted = tt; covers = λ j r e. absurd (ground arith) };
    linked = λ k sleep e. absurd (ground arith);
    apart = λ i j id e f. absurd (ground arith);
    below = λ k id e. absurd (ground arith);
    owned = λ id r e. absurd (ground arith);
  }
  Reach-Sound (onward reach step) = Step-Sound step (Reach-Sound reach)

  -- However many sleeps are created, polled, reset and dropped over one driver, and however often it
  -- fires, a poll of any of them answers and never panics: it is ready exactly when the sleep's
  -- deadline has come, and otherwise it waits under its deadline with a waker of the polled task. An
  -- id is left for a further timer.
  pub Reach-Answers :
      (will_wake : W → W → Bool) (x : World W) (k : ℕ) (w : W) (sleep : Sleep)
      → Reach will_wake x
      → get k x.sleeps ≡ some sleep
      → suc x.timers.next_id < 2 ^ 64
      → Answers will_wake x.now w sleep (Sleep.poll will_wake x.now w sleep x.timers)
  Reach-Answers will_wake x k w sleep reach e fits =
      let v = Reach-Sound reach in
      poll-Answers will_wake x.now w sleep x.timers (v.linked k sleep e) (fresh x v fits).0

  -- No timer outlives its sleep: each registration belongs to exactly one sleep that is still there,
  -- and stands under its deadline.
  pub Reach-owned :
      (will_wake : W → W → Bool) (x : World W) (id : ℕ) (r : TimerRegistration W)
      → Reach will_wake x
      → get id x.timers.registrations ≡ some r
      → (k : ℕ) × (sleep : Sleep) × (get k x.sleeps ≡ some sleep)
        × (sleep.registration ≡ some id)
        × (sleep.deadline ≡ r.deadline)
        × ((j : ℕ) (other : Sleep)
            → get j x.sleeps ≡ some other
            → other.registration ≡ some id
            → k ≡ j)
  Reach-owned will_wake x id r reach e =
      let v = Reach-Sound reach in
      let (k, h) = v.owned id r e in
      elim (Option-cases (get k x.sleeps)) [
        | inl none' ↦ absurd (ground (arith, none', h))
        | inr (sleep, f) ↦
            let g : sleep.registration ≡ some id = ground (arith, f, h) in
            (
              k,
              sleep,
              f,
              g,
              ground (
                arith,
                e,
                subst (λ o. LinkedBy x.now sleep.deadline o x.timers) g (v.linked k sleep f),
              ),
              λ j other at holds. v.apart k j id h (ground (arith, at, holds)),
            )
      ]
