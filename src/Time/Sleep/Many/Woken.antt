-- ===== src/Time/Sleep/Many/Woken.antt =====
-- From a poll of a sleep (src/time/sleep.rs) that is pending to the waking of its task by the driver
-- (src/time/driver.rs), while other sleeps go on.
use asyncr.Prelude.{
  ℕ, suc, ◌^◌, ◌≤◌, ◌<◌, ◌≡◌, ◌∙◌, ◌⊎◌, inl, inr, Bool, true, false, [], ◌++◌, some, Outcome, ok,
  Poll, ready, pending, arith, leb, Bool-cases, ◌==◌, Any, Any-append_left, Any-append_right,
}
use asyncr.Prelude.Map.{Map, get, get-insert, insert}
use asyncr.Time.Driver.{process_expired, TimerState}
use asyncr.Time.Driver.Fired.{process_expired-removes}
use asyncr.Time.Driver.Woken.{due_woken}
use asyncr.Time.Sleep
use asyncr.Time.Sleep.{Sleep}
use asyncr.Time.Sleep.Link.{IsWaiting}
use asyncr.Time.Sleep.Many.{
  World, polled, Step, creates, polls, resets, drops, waits, fires, Sound, Replaced,
}
use asyncr.Time.Sleep.Many.One.{
  replaced_spares, polled-Replaced, reset-Replaced, drop-Replaced, new-Replaced,
}
use asyncr.Time.Sleep.Many.Reach.{Step-Sound, Reach, Reach-Sound, Reach-Answers}

module _ {W : Type 0} where
  -- The step is not an operation of the sleep `k`.
  abbrev pub IsElsewhere :
      (k : ℕ) {will_wake : W → W → Bool} {x y : World W} → Step will_wake x y → Type 0
  IsElsewhere k (creates j d e) = (j == k) ≡ false
  IsElsewhere k (polls j w sleep e fits) = (j == k) ≡ false
  IsElsewhere k (resets j d sleep e) = (j == k) ≡ false
  IsElsewhere k (drops j sleep e) = (j == k) ≡ false
  IsElsewhere k (waits later le) = Unit {0}
  IsElsewhere k fires = Unit {0}

  pub data Elapses (will_wake : W → W → Bool) (k : ℕ) (x : World W) : World W → Type 0 where
    at_once : Elapses will_wake k x x
    further :
        {y z : World W}
        → Elapses will_wake k x y
        → (step : Step will_wake y z) → IsElsewhere k step
        → Elapses will_wake k x z

  abbrev pub Wakes : (W → W → Bool) → W → W → Type 0
  Wakes will_wake w v = (v ≡ w) ⊎ (will_wake v w ≡ true)

  -- What the driver does next.
  abbrev pub fired : World W → World W
  fired x =
      let (wakers, timers') = process_expired x.now x.timers in
      record x { timers = timers'; woken = x.woken ++ wakers }

  module _ (will_wake : W → W → Bool) (k d : ℕ) (w : W) where
    abbrev Waits : World W → Type 0
    Waits x =
        (sleep : Sleep) × (get k x.sleeps ≡ some sleep) × IsWaiting will_wake w d sleep x.timers

    abbrev IsWoken : World W → Type 0
    IsWoken x = Any (Wakes will_wake w) x.woken

    -- Another sleep becomes another one, or goes.
    beside :
        (x : World W) (j : ℕ) (sleeps : _) (t : TimerState W)
        → Sound x
        → Replaced x j sleeps t
        → (j == k) ≡ false
        → Waits x
        → Waits (record x { sleeps = sleeps; timers = t })
    beside x j sleeps t v change apart (sleep, e, q) =
        let (same, kept) =
          replaced_spares x v j sleeps t change k q.id apart (ground (arith, e, q.holds)) in
        (
          sleep,
          same ∙ e,
          record {
            id = q.id;
            waker = q.waker;
            holds = q.holds;
            registered = kept ∙ q.registered;
            wakes = q.wakes;
          },
        )

    IsWoken-due : (x : World W) → Sound x → Waits x → d ≤ x.now → IsWoken (fired x)
    IsWoken-due x v (sleep, e, q) le =
        Any-append_right (Wakes will_wake w) x.woken _
          (due_woken (Wakes will_wake w) x.now q.id _ x.timers v.inv q.registered le q.wakes)

    fired-Waits : (x : World W) → Sound x → Waits x → Waits (fired x) ⊎ IsWoken (fired x)
    fired-Waits x v (sleep, e, q) = elim (Bool-cases (leb d x.now)) [
      | inl due ↦ inr (IsWoken-due x v (sleep, e, q) (ground (arith, due)))
      | inr late ↦
          let (_, at, _) = process_expired-removes x.now x.timers v.inv in
          inl (
            sleep,
            e,
            record {
              id = q.id;
              waker = q.waker;
              holds = q.holds;
              registered = ground (arith, at q.id, q.registered, late);
              wakes = q.wakes;
            },
          )
    ]

    Step-Waits :
        {x y : World W} (step : Step will_wake x y)
        → IsElsewhere k step
        → Sound x
        → Waits x
        → Waits y ⊎ IsWoken y
    Step-Waits {x = x} (creates j d' e) away v q =
        inl (beside x j _ _ v (new-Replaced j d' x v e) away q)
    Step-Waits {x = x} (polls j w' sleep e fits) away v q =
        inl (beside x j _ _ v (polled-Replaced will_wake j w' sleep x v e fits) away q)
    Step-Waits {x = x} (resets j d' sleep e) away v q =
        inl (beside x j _ _ v (reset-Replaced j d' sleep x v e) away q)
    Step-Waits {x = x} (drops j sleep e) away v q =
        inl (beside x j _ _ v (drop-Replaced j sleep x v e) away q)
    Step-Waits (waits later le) away v q = inl q
    Step-Waits {x = x} fires away v q = fired-Waits x v q

    Step-IsWoken : {x y : World W} → Step will_wake x y → IsWoken x → IsWoken y
    Step-IsWoken (creates j d' e) h = h
    Step-IsWoken (polls j w' sleep e fits) h = h
    Step-IsWoken (resets j d' sleep e) h = h
    Step-IsWoken (drops j sleep e) h = h
    Step-IsWoken (waits later le) h = h
    Step-IsWoken {x = x} fires h = Any-append_left (Wakes will_wake w) x.woken _ h

    Elapses-Sound : {x y : World W} → Elapses will_wake k x y → Sound x → Sound y
    Elapses-Sound at_once v = v
    Elapses-Sound (further path step away) v = Step-Sound step (Elapses-Sound path v)

    Elapses-Waits :
        {x y : World W} → Elapses will_wake k x y → Sound x → Waits x → Waits y ⊎ IsWoken y
    Elapses-Waits at_once v q = inl q
    Elapses-Waits (further path step away) v q = elim (Elapses-Waits path v q) [
      | inl waiting ↦ Step-Waits step away (Elapses-Sound path v) waiting
      | inr woken ↦ inr (Step-IsWoken step woken)
    ]

  unlogged : (x : World W) → Sound x → Sound (record x { woken = [] })
  unlogged x v = record {
    inv = v.inv;
    linked = v.linked;
    apart = v.apart;
    below = v.below;
    owned = v.owned;
  }

  -- Once a poll of a sleep has answered `pending`, whatever the other sleeps do in the meantime, and
  -- however often the driver fires, the task that polled is woken by the time that the driver has
  -- fired at or after the sleep's deadline: among the wakers woken since the poll is one that wakes
  -- this task. The sleep itself is left alone after the poll, and an id was left for its timer.
  pub pending-woken :
      (will_wake : W → W → Bool) (x y : World W) (k : ℕ) (w : W) (sleep : Sleep)
      → Reach will_wake x
      → get k x.sleeps ≡ some sleep
      → suc x.timers.next_id < 2 ^ 64
      → (Sleep.poll will_wake x.now w sleep x.timers).0 ≡ ok pending
      → Elapses will_wake k (record (polled will_wake k w sleep x) { woken = [] }) y
      → sleep.deadline ≤ y.now
      → Any (Wakes will_wake w) (fired y).woken
  pending-woken will_wake x y k w sleep reach e fits unready path due =
      let (_, answer) = Reach-Answers will_wake x k w sleep reach e fits in
      elim answer [
        | inl (_, done, _) ↦ absurd (ready_and_pending done unready)
        | inr (_, _, q) ↦
            let v = unlogged _ (Step-Sound (polls k w sleep e fits) (Reach-Sound reach)) in
            let sleep' = (Sleep.poll will_wake x.now w sleep x.timers).1 in
            let waiting =
              Elapses-Waits will_wake k sleep.deadline w path v
                (sleep', get-inserted sleep' x.sleeps, q) in
            elim waiting [
              | inl still ↦
                  IsWoken-due will_wake k sleep.deadline w y
                    (Elapses-Sound will_wake k sleep.deadline w path v) still due
              | inr woken ↦ Any-append_left (Wakes will_wake w) y.woken _ woken
            ]
      ]
    where
      ready_and_pending : {o : Outcome (Poll (Unit {0}))} → o ≡ ok (ready tt) → o ≡ ok pending → ⊥
      ready_and_pending f g = cc

      get-inserted : (s : Sleep) (m : Map Sleep) → get k (insert k s m) ≡ some s
      get-inserted s m = ground (arith, get-insert k k s m)
