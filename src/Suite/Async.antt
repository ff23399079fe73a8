-- ===== src/Suite/Async.antt =====
-- The async blocks of the tests of src/executor.rs, src/runtime.rs and src/task.rs as data: each
-- constructor is what a block does next, with what it does then, and a suspended block is what is left
-- of it. Handles are numbers, and outputs too. What the blocks share with their tests, as flags,
-- counters and traces, is the list of their marks in `cells`.
use asyncr.Prelude.{
  ℕ, ◌++◌, Bool, false, Place, refl, [], ◌∷◌, Option, none, some, Outcome, ok, panic, user_panic,
  Poll, ready, pending, Result, value, error, ◌==◌, get_elem?, set,
}
use asyncr.Api
use asyncr.Join
use asyncr.Join.{JoinError, Pair}
use asyncr.Shared.{Waker, task, custom, Shared, wake}
use asyncr.Time.Clock
use asyncr.Time.Sleep
use asyncr.Time.Sleep.{Sleep}
use asyncr.Time.Driver.{TimerState}
use asyncr.Time.Timeout
use asyncr.Time.Timeout.{Timeout, Elapsed}
use asyncr.Time.Interval
use asyncr.Time.Interval.{Interval}
use asyncr.Suite.{limit}

pub data Async : Type 0 where
  returns : ℕ → Async
  panics : Async
  marks : ℕ → Async → Async
  yields : Async → Async  -- wakes its waker, and is pending once
  waits : Async → Async  -- is pending once
  spawns : Async → (ℕ → Async) → Async  -- `spawn(..)`; a join handle is the index of its pair
  awaits : ℕ → (Result ℕ JoinError → Async) → Async
  releases : ℕ → Async → Async  -- the drop of a join handle
  sleeps : ℕ → Async → Async
  naps : Sleep → Async → Async  -- within the sleep
  counts : Sleep → Async → Async  -- a `poll_fn` that marks each poll, and polls the sleep
  times : ℕ → (Result (Unit {0}) Elapsed → Async) → Async  -- `timeout(.., pending()).await`
  timing : Timeout (Unit {0}) → (Result (Unit {0}) Elapsed → Async) → Async  -- within the timeout
  repeats : ℕ → (Interval → Async) → Async  -- `interval(..)`
  ticks : Interval → (ℕ → Interval → Async) → Async  -- `interval.tick().await`
  drops : Interval → Async → Async
  asks : (Option ℕ → Async) → Async  -- `Handle::try_current()`

abbrev pub Common : Type 0
Common = Shared Async ℕ

abbrev pub same : Waker → Waker → Bool
same (task r) (task q) = r == q
same (custom j) (custom k) = j == k
same _ _ = false

-- No waker of user code does anything, the `noop_context()` of the tests included.
abbrev pub ignore : ℕ → Common → Common
ignore k s = s

unfoldable pub poll_join :
    Waker → ℕ → Option (Pair ℕ Waker) → Common → Outcome (Poll (Result ℕ JoinError)) × Common
unfolding Join.poll
poll_join waker j none s = (ok pending, s)
poll_join waker j (some pair) s =
    let (answer, state) = Join.poll waker pair.state in
    (answer, record s { joins = set s.joins j (record pair { state = state }) })

unfoldable pub drop_join : ℕ → Option (Pair ℕ Waker) → Common → Common
unfolding Join.drop_handle
drop_join j none s = s
drop_join j (some pair) s = record s {
  joins = set s.joins j (record pair { state = Join.drop_handle pair.state });
}

abbrev timers : Place Common (TimerState Waker)
timers = record {
  view = λ s. s.timers;
  put = λ t s. record s { timers = t };
  view-put = λ t s. refl;
  put-put = λ t u s. refl;
  put-view = λ s. refl;
}

-- `pending::<()>()`.
abbrev poll_never : Waker → Unit {0} → Common → Outcome (Poll (Unit {0})) × Unit {0} × Common
poll_never waker never s = (ok pending, never, s)

abbrev drop_never : Unit {0} → Common → Common
drop_never never s = s

-- What a suspended block holds. An interval that is not being awaited is dropped by `drops`.
unfoldable pub drop_async : Async → Common → Common
unfolding Sleep.drop drop_join Timeout.drop
drop_async (naps sleep next) s = record s { timers = Sleep.drop sleep s.timers }
drop_async (awaits j next) s = drop_join j (get_elem? s.joins j) s
drop_async (counts sleep next) s = record s { timers = Sleep.drop sleep s.timers }
drop_async (timing timeout next) s = Timeout.drop timers poll_never drop_never same timeout s
drop_async _ s = s

unfoldable pub poll_nap : Waker → Sleep → Common → Outcome (Poll (Unit {0})) × Sleep × Common
unfolding Sleep.poll Clock.now
poll_nap waker sleep s = elim (Clock.now limit s.system s.clock) [
  | panic p ↦ (panic p, sleep, s)
  | ok now ↦
      let (answer, sleep', timers) = Sleep.poll same now waker sleep s.timers in
      (answer, sleep', record s { timers = timers })
]

abbrev shown : Outcome ℕ → ℕ
shown (ok instant) = instant
shown (panic p) = 0

abbrev now : Common → Outcome ℕ
now s = Clock.now limit s.system s.clock

-- The clock has shown an instant when the timeout was made.
unfoldable poll_timeout :
    Waker
    → Timeout (Unit {0})
    → Common
    → Outcome (Poll (Result (Unit {0}) Elapsed)) × Timeout (Unit {0}) × Common
unfolding Timeout.poll Clock.now
poll_timeout waker timeout s =
    Timeout.poll timers poll_never drop_never same (λ t. shown (now t)) waker timeout s

unfoldable poll_tick : Waker → Interval → Common → Outcome (Poll ℕ) × Interval × Common
unfolding Interval.poll_tick Clock.now
poll_tick waker interval s = elim (now s) [
  | panic p ↦ (panic p, interval, s)
  | ok instant ↦
      let (answer, interval', timers') =
        Interval.poll_tick limit same instant instant waker interval s.timers in
      (answer, interval', record s { timers = timers' })
]

-- `context` is what is current on the thread.
unfoldable pub poll_async : Option ℕ → Waker → Async → Common → Outcome (Poll ℕ) × Async × Common
unfolding poll_join drop_join drop_async poll_nap poll_timeout poll_tick Sleep.drop Api.spawn
    Api.sleep Api.timeout Api.interval wake
poll_async context waker (returns n) s = (ok (ready n), returns n, s)
poll_async context waker panics s = (panic user_panic, panics, s)
poll_async context waker (marks mark next) s =
    poll_async context waker next (record s { cells = s.cells ++ mark ∷ [] })
poll_async context waker (yields next) s = (ok pending, next, wake ignore drop_async waker s)
poll_async context waker (waits next) s = (ok pending, next, s)
poll_async context waker (spawns child next) s =
    elim (Api.spawn limit (λ handle. s) ignore drop_async child context) [
      | panic p ↦ (panic p, panics, s)
      | ok (_, j, s') ↦ poll_async context waker (next j) s'
    ]
poll_async context waker (awaits j next) s =
    let (answer, s') = poll_join waker j (get_elem? s.joins j) s in
    elim answer [
      | panic p ↦ (panic p, awaits j next, s')
      | ok pending ↦ (ok pending, awaits j next, s')
      | ok (ready result) ↦
          poll_async context waker (next result) (drop_join j (get_elem? s'.joins j) s')
    ]
poll_async context waker (releases j next) s =
    poll_async context waker next (drop_join j (get_elem? s.joins j) s)
poll_async context waker (sleeps duration next) s =
    elim (Api.sleep limit (λ handle. s) duration context) [
      | panic p ↦ (panic p, panics, s)
      | ok (_, sleep) ↦
          let (answer, sleep', s') = poll_nap waker sleep s in
          elim answer [
            | panic p ↦ (panic p, naps sleep' next, s')
            | ok pending ↦ (ok pending, naps sleep' next, s')
            | ok (ready _) ↦ poll_async context waker next s'
          ]
    ]
poll_async context waker (naps sleep next) s =
    let (answer, sleep', s') = poll_nap waker sleep s in
    elim answer [
      | panic p ↦ (panic p, naps sleep' next, s')
      | ok pending ↦ (ok pending, naps sleep' next, s')
      | ok (ready _) ↦ poll_async context waker next s'
    ]
poll_async context waker (counts sleep next) s =
    let (answer, sleep', s') = poll_nap waker sleep (record s { cells = s.cells ++ 1 ∷ [] }) in
    elim answer [
      | panic p ↦ (panic p, counts sleep' next, s')
      | ok pending ↦ (ok pending, counts sleep' next, s')
      | ok (ready _) ↦ poll_async context waker next s'
    ]
poll_async context waker (times duration next) s =
    elim (Api.timeout limit (λ handle. s) duration tt context) [
      | panic p ↦ (panic p, panics, s)
      | ok (_, timeout) ↦
          let (answer, timeout', s') = poll_timeout waker timeout s in
          elim answer [
            | panic p ↦ (panic p, timing timeout' next, s')
            | ok pending ↦ (ok pending, timing timeout' next, s')
            | ok (ready result) ↦ poll_async context waker (next result) s'
          ]
    ]
poll_async context waker (timing timeout next) s =
    let (answer, timeout', s') = poll_timeout waker timeout s in
    elim answer [
      | panic p ↦ (panic p, timing timeout' next, s')
      | ok pending ↦ (ok pending, timing timeout' next, s')
      | ok (ready result) ↦ poll_async context waker (next result) s'
    ]
poll_async context waker (repeats period next) s =
    elim (Api.interval limit (λ handle. s) period context) [
      | panic p ↦ (panic p, panics, s)
      | ok (_, interval) ↦ poll_async context waker (next interval) s
    ]
poll_async context waker (ticks interval next) s =
    let (answer, interval', s') = poll_tick waker interval s in
    elim answer [
      | panic p ↦ (panic p, ticks interval' next, s')
      | ok pending ↦ (ok pending, ticks interval' next, s')
      | ok (ready instant) ↦ poll_async context waker (next instant interval') s'
    ]
poll_async context waker (drops interval next) s =
    poll_async context waker next (record s { timers = Sleep.drop interval.sleep s.timers })
poll_async context waker (asks next) s = poll_async context waker (next context) s

-- The block as the root of `block_on`.
unfoldable pub poll_root : Option ℕ → Waker → Async × Common → Outcome (Poll ℕ) × (Async × Common)
unfolding poll_async
poll_root context waker (block, s) =
    let (answer, block', s') = poll_async context waker block s in (answer, (block', s'))

-- `child.await.unwrap()`, and what follows.
abbrev pub unwrap : (ℕ → Async) → Result ℕ JoinError → Async
unwrap next (value n) = next n
unwrap next (error e) = panics
