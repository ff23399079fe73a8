-- ===== src/Tests/Sleeping.antt =====
-- Two sleeps over one driver: wakers are numbers, and each wakes a task of its own.
use asyncr.Prelude.{ℕ, ◌≡◌, refl, Bool, [], ◌∷◌, some, arith, ◌==◌, Any}
use asyncr.Prelude.Map.{get, insert, remove}
use asyncr.Time.Driver
use asyncr.Time.Driver.{TimerState, TimerRegistration, process_expired}
use asyncr.Time.Sleep
use asyncr.Time.Sleep.{Sleep}
use asyncr.Time.Sleep.Link.{Answers}
use asyncr.Time.Sleep.Many.{World, polled, creates, polls, drops, waits, fires}
use asyncr.Time.Sleep.Many.Reach.{Reach, starts, onward, Reach-Answers, Reach-owned}
use asyncr.Time.Sleep.Many.Woken.{Elapses, at_once, further, Wakes, fired, pending-woken}

abbrev same_task : ℕ → ℕ → Bool
same_task a b = a == b

abbrev created : ℕ → ℕ → World ℕ → World ℕ
created k d x = record x { sleeps = insert k (Sleep.new d) x.sleeps }

abbrev at : ℕ → World ℕ → World ℕ
at later x = record x { now = later }

-- Sleeps until 10 and until 5, not polled yet.
abbrev two_sleeps : World ℕ
two_sleeps =
    created 1 5 (created 0 10 (record { sleeps = []; timers = Driver.new; now = 0; woken = [] }))

two_sleeps-Reach : Reach same_task two_sleeps
unfolding get insert
two_sleeps-Reach = onward (onward (starts 0) (creates 0 10 refl)) (creates 1 5 refl)

-- The first one has been polled by the task 7.
abbrev first_waits : World ℕ
first_waits = polled same_task 0 7 (Sleep.new 10) two_sleeps

first_waits-Reach : Reach same_task first_waits
unfolding get insert Driver.new
first_waits-Reach = onward two_sleeps-Reach (polls 0 7 (Sleep.new 10) refl (omega arith))

abbrev waiting_sleep : Sleep
waiting_sleep = record { deadline = 10; registration = some 0 }

Reach-Answers_example :
    Answers same_task 0 9 waiting_sleep (Sleep.poll same_task 0 9 waiting_sleep first_waits.timers)
unfolding get insert Driver.new Sleep.new Sleep.poll Driver.register
Reach-Answers_example =
    Reach-Answers same_task first_waits 0 9 waiting_sleep first_waits-Reach refl (omega arith)

abbrev first_timer : TimerRegistration ℕ
first_timer = record { deadline = 10; waker = 7 }

Reach-owned_example :
    (k : ℕ) × (sleep : Sleep) × (get k first_waits.sleeps ≡ some sleep)
    × (sleep.registration ≡ some 0)
    × (sleep.deadline ≡ 10)
    × ((j : ℕ) (other : Sleep)
        → get j first_waits.sleeps ≡ some other
        → other.registration ≡ some 0
        → k ≡ j)
unfolding get insert Driver.new Sleep.new Sleep.poll Driver.register
Reach-owned_example = Reach-owned same_task first_waits 0 first_timer first_waits-Reach refl

abbrev since_poll : World ℕ
since_poll = record first_waits { woken = [] }

-- The second one is polled by the task 8, is woken at 6, and is dropped.
abbrev second_waits : World ℕ
second_waits = polled same_task 1 8 (Sleep.new 5) since_poll

abbrev second_gone : World ℕ
second_gone =
    (let x = fired (at 6 second_waits) in
      record x {
        sleeps = remove 1 x.sleeps;
        timers = Sleep.drop (record { deadline = 5; registration = some 1 }) x.timers;
      })

second_gone-Elapses : Elapses same_task 0 since_poll second_gone
unfolding get insert Driver.new Sleep.new Sleep.poll Driver.register process_expired
second_gone-Elapses =
    further
      (further
        (further (further at_once (polls 1 8 (Sleep.new 5) refl (omega arith)) refl)
          (waits 6 (omega arith)) tt)
        fires tt)
      (drops 1 (record { deadline = 5; registration = some 1 }) refl) refl

pending-woken_example : Any (Wakes same_task 7) (fired (at 12 second_gone)).woken
unfolding get insert Driver.new Sleep.new Sleep.poll Driver.register
pending-woken_example =
    pending-woken same_task two_sleeps (at 12 second_gone) 0 7 (Sleep.new 10) two_sleeps-Reach refl
      (omega arith) refl (further second_gone-Elapses (waits 12 (omega arith)) tt) (omega arith)

two_woken : (fired (at 12 second_gone)).woken ≡ 8 ∷ 7 ∷ []
unfolding get insert Driver.new Sleep.new Sleep.poll Driver.register process_expired Sleep.drop
two_woken = refl
