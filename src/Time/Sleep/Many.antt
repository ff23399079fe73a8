-- ===== src/Time/Sleep/Many.antt =====
-- Many sleeps (src/time/sleep.rs) over one timer driver (src/time/driver.rs), as the tasks of a
-- runtime have them. A sleep goes by a name; `now` is what the clock shows, and `woken` are the wakers
-- that the driver has woken.
pub mod One
pub mod Reach
pub mod Woken
use asyncr.Prelude.{
  ℕ, suc, ◌^◌, ◌≤◌, ◌<◌, ◌≡◌, refl, sym, ◌∙◌, subst, ◌≢◌, ◌⊎◌, inl, inr, Bool, true, false, List,
  [], ◌++◌, Option, none, some, Outcome, ok, arith, Poll, if◌then◌else◌, Bool-cases, Option-cases,
  ◌==◌, ==_cases,
}
use asyncr.Prelude.Map.{Map, get, get-insert, get-remove, insert, remove, contains_key}
use asyncr.Time.Driver.{TimerRegistration, TimerState, process_expired}
use asyncr.Time.Driver.Invariant.{Inv}
use asyncr.Time.Driver.Expiry.{is_due}
use asyncr.Time.Driver.Fired.{process_expired-removes}
use asyncr.Time.Sleep
use asyncr.Time.Sleep.{Sleep}
use asyncr.Time.Sleep.Confined.{
  Confined, IsFresh, release-Confined, IsLive, poll-Confined, reset-Confined, drop-Confined,
}
use asyncr.Time.Sleep.Link.{
  LinkedAt, LinkedBy, IsLinked, Answers, poll-Answers, Answers-IsLinked, reset-IsLinked,
  process_expired-IsLinked,
}

-- The id that a sleep, where there is one, holds.
abbrev pub held_by : Option Sleep → Option ℕ
held_by none = none
held_by (some sleep) = sleep.registration

abbrev pub held : ℕ → Map Sleep → Option ℕ
held k sleeps = held_by (get k sleeps)

pub record World (W : Type 0) : Type 0 where
  pub sleeps : Map Sleep
  pub timers : TimerState W
  pub now : ℕ
  pub woken : List W

module _ {W : Type 0} where
  abbrev pub polled : (W → W → Bool) → ℕ → W → Sleep → World W → World W
  polled will_wake k w sleep x =
      let (_, sleep', timers') = Sleep.poll will_wake x.now w sleep x.timers in
      record x { sleeps = insert k sleep' x.sleeps; timers = timers' }

  -- What the tasks and the driver do. A poll may register a timer, for which an id is left.
  pub data Step (will_wake : W → W → Bool) (x : World W) : World W → Type 0 where
    creates :
        (k d : ℕ)
        → get k x.sleeps ≡ none
        → Step will_wake x (record x { sleeps = insert k (Sleep.new d) x.sleeps })
    polls :
        (k : ℕ) (w : W) (sleep : Sleep)
        → get k x.sleeps ≡ some sleep
        → suc x.timers.next_id < 2 ^ 64
        → Step will_wake x (polled will_wake k w sleep x)
    resets :
        (k d : ℕ) (sleep : Sleep)
        → get k x.sleeps ≡ some sleep
        → Step will_wake x (
            let (sleep', timers') = Sleep.reset d sleep x.timers in
            record x { sleeps = insert k sleep' x.sleeps; timers = timers' })
    drops :
        (k : ℕ) (sleep : Sleep)
        → get k x.sleeps ≡ some sleep
        → Step will_wake x
            (record x { sleeps = remove k x.sleeps; timers = Sleep.drop sleep x.timers })
    waits : (later : ℕ) → x.now ≤ later → Step will_wake x (record x { now = later })
    fires : Step will_wake x (
        let (wakers, timers') = process_expired x.now x.timers in
        record x { timers = timers'; woken = x.woken ++ wakers })

  pub record Sound (x : World W) : Type 0 where
    pub inv : Inv x.timers
    pub linked :
        (k : ℕ) (sleep : Sleep) → get k x.sleeps ≡ some sleep → IsLinked x.now sleep x.timers
    pub apart : (i j id : ℕ) → held i x.sleeps ≡ some id → held j x.sleeps ≡ some id → i ≡ j
    pub below : (k id : ℕ) → held k x.sleeps ≡ some id → id < x.timers.next_id
    pub owned :
        (id : ℕ) (r : TimerRegistration W)
        → get id x.timers.registrations ≡ some r
        → (k : ℕ) × (held k x.sleeps ≡ some id)

  -- The sleep `k` becomes another one, or goes, and the timers follow.
  pub record Replaced (x : World W) (k : ℕ) (sleeps : Map Sleep) (t : TimerState W) : Type 0 where
    pub next : Option Sleep
    pub at : (j : ℕ) → get j sleeps ≡ (if k == j then next else get j x.sleeps)
    pub confined : Confined (held k x.sleeps) (held_by next) x.timers t
    pub mine : (sleep : Sleep) → next ≡ some sleep → IsLinked x.now sleep t
