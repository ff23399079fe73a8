-- ===== src/Tests/Sounding.antt =====
-- A run of `block_on` with a spawned task and a root that wakes itself, and the hypotheses under
-- which the executor is never found broken, for it; and a run outside these hypotheses.
use asyncr.Prelude.{
  ℕ, false, zero, suc, ◌≡◌, refl, [], none, Outcome, ok, panic, Panic, user_panic,
  clock_out_of_range, not_admitted, Poll, ready, pending, arith, true, some, get_elem?, ◌≢◌,
  join_completed_twice, ◌⊎◌, set, value, error, inl,
}
use asyncr.Shared.{Spawned, Waker, custom, Shared, wake, spawn, LocalTask, poll_spawned}
use asyncr.Prelude.Map.{get}
use asyncr.Join
use asyncr.Join.{Pair, finished, cancelled}
use asyncr.Catch
use asyncr.Join.Store.{IsIntact}
use asyncr.Time.Driver.Invariant.{Inv, register-Inv}
use asyncr.Executor.Run.{next_ready_id, drive, unfinished}
use asyncr.Executor.Run.Fairness.{Turns, done, onward, of_task, drive-fair}
use asyncr.Executor.Run.Intact.{is_twice}
use asyncr.Executor.Run.Once.{block_on-once}
use asyncr.Executor.Run.Termination.{next_ready_id-ends}
use asyncr.Executor.Delivery.{dropped, poll_spawned-delivers}
use asyncr.Executor.Joins.{poll_spawned-ok}
use asyncr.Executor.Cancelling.{Spares}
use asyncr.Executor.Dropping.{drop-answers}
use asyncr.Time.Clock
use asyncr.Time.Driver
use asyncr.Executor
use asyncr.Executor.{Executor, received, pass, poll_task}
use asyncr.Executor.Usage.{Sound, Uses, stays, spawns, silent}
use asyncr.Executor.Polling.{Users, Uses-Sound, wake-Uses}
use asyncr.Executor.Passes.{is_broken}
use asyncr.Executor.Run.{block_on, panicked}
use asyncr.Executor.Run.Root.{RootUser, with_clock-Sound}
use asyncr.Executor.Run.Unbroken.{block_on-unbroken}

abbrev pub Common : Type 0
Common = Shared ℕ ℕ

abbrev pub ignore : ℕ → Common → Common
ignore k s = s

abbrev pub at_once : Waker → ℕ → Common → Outcome (Poll ℕ) × ℕ × Common
at_once w f s = (ok (ready f), f, s)

pub users : Users ignore ignore at_once
users = record { polls = λ w f s. stays; drops = λ f s. stays; rouses = λ k s. silent }

-- The root panics at its third poll.
abbrev yielding : Waker → ℕ × Common → Outcome (Poll ℕ) × (ℕ × Common)
yielding w (zero, s) = (panic user_panic, (zero, s))
yielding w (suc n, s) = (ok pending, (n, wake ignore ignore w s))

yielding-polls : (w : Waker) (x : ℕ) (s : Common) → Uses ignore ignore s (yielding w (x, s)).1.1
yielding-polls w zero s = stays
yielding-polls w (suc n) s = wake-Uses ignore ignore at_once users w s

yielding-panics :
    (w : Waker) (x : ℕ) (s : Common) (p : Panic)
    → (yielding w (x, s)).0 ≡ panic p
    → is_broken p ≡ false
yielding-panics w zero s p e = ground arith
yielding-panics w (suc n) s p e = cc

yielding_user : RootUser ignore ignore yielding
yielding_user = record { polls = yielding-polls; panics = yielding-panics }

abbrev pub at_first : Executor ℕ ℕ
at_first = Executor.with_clock (Clock.paused 0) 0

abbrev pub with_child : Executor ℕ ℕ
with_child = (let ex = at_first in record ex { shared = (spawn ignore ignore 42 ex.shared).1 })

pub with_child-Sound :
    Sound none [] with_child.tasks with_child.shared.spawns with_child.shared.scheduler
unfolding Executor.with_clock
with_child-Sound =
    Uses-Sound ignore ignore (spawns 42 stays refl (omega arith))
      (with_clock-Sound ℕ ℕ (Clock.paused 0) 0)

yielding_run :
    (block_on 1_000 ignore ignore at_once ignore yielding 20 [] 2 with_child).0
    ≡ panicked user_panic
unfolding Executor.with_clock block_on spawn wake
yielding_run = refl

block_on-unbroken_example : is_broken user_panic ≡ false
block_on-unbroken_example =
    block_on-unbroken 1_000 ignore ignore at_once users ignore yielding yielding_user 20 [] 2
      with_child with_child-Sound user_panic yielding_run

-- A waker of user code that spawns when a timer wakes it, after the pending spawns were admitted.
abbrev spawning : ℕ → Common → Common
spawning k s = (spawn ignore ignore k s).1

abbrev registering : Waker → ℕ × Common → Outcome (Poll ℕ) × (ℕ × Common)
registering w (x, s) =
    (ok pending, (x, record s { timers = (Driver.register 5 (custom 0) s.timers).1 }))

spawning_run :
    (block_on 1_000 spawning ignore at_once ignore registering 20 [] 2 at_first).0
    ≡ panicked not_admitted
unfolding Executor.with_clock block_on spawn wake Driver.register
spawning_run = refl

-- An executor with a timer, on a paused clock.
abbrev with_timer : Executor ℕ ℕ
with_timer =
    (let ex = at_first in
      let s = ex.shared in
      record ex { shared = record s { timers = (Driver.register 5 (custom 0) s.timers).1 } })

at_first-Inv : Inv at_first.shared.timers
unfolding Executor.with_clock get Driver.new
at_first-Inv = record { sorted = tt; covers = λ j r e. absurd (ground arith) }

with_timer-Inv : Inv with_timer.shared.timers
with_timer-Inv = register-Inv 5 (custom 0) at_first.shared.timers at_first-Inv

next_ready_id-ends_example :
    (next_ready_id 1_000 ignore ignore at_once 3 [] with_timer).0 ≢ unfinished
unfolding Executor.with_clock Driver.register
next_ready_id-ends_example =
    next_ready_id-ends 1_000 ignore ignore at_once (λ k s. refl) 3 [] with_timer with_timer-Inv tt
      (omega arith)

pub with_child-IsIntact : IsIntact with_child.shared.joins
unfolding Executor.with_clock spawn
with_child-IsIntact zero pair e = ground arith
with_child-IsIntact (suc j) pair e = ground arith

poll_spawned-ok_example :
    let (answer, (t', s')) =
      poll_spawned ignore ignore at_once
        (custom 0)
        (record { inner = Catch.new 42; join = 0 }, with_child.shared) in
    ((p : Panic) → answer ≢ panic p) × IsIntact s'.joins
poll_spawned-ok_example =
    poll_spawned-ok ignore ignore at_once users (custom 0)
      (record { inner = Catch.new 42; join = 0 }) with_child.shared with_child-IsIntact

spared : (k : ℕ) → Spares 0 (ignore k)
spared k = record { opens = λ s h. h; cancels = λ s h. h }

abbrev child_held : LocalTask ℕ
child_held = record { id = 1; future = record { inner = Catch.new 42; join = 0 }; schedule = 0 }

drop-answers_example :
    let after = Executor.drop 1_000 ignore ignore at_once with_child in
    (after.spawns.closed ≡ true)
    × (after.spawns.pending_spawns ≡ [])
    × (after.scheduler.open_rx ≡ false)
    × (pair : Pair ℕ Waker) × (get_elem? after.joins 0 ≡ some pair)
    × ((w : Waker) → (Join.poll w pair.state).0 ≡ ok (ready (error cancelled)))
unfolding Executor.with_clock spawn
drop-answers_example =
    drop-answers ignore ignore at_once users 1_000 with_child child_held (inl (0, refl))
      (none, refl) (λ f. spared f) (λ k. spared k)

-- Two spawned tasks, whose ids 1 and 2 stand in the channel.
abbrev with_children : Executor ℕ ℕ
with_children = (let ex = with_child in record ex { shared = (spawn ignore ignore 43 ex.shared).1 })

-- The first one has been taken off the channel, and polled.
abbrev first_taken : Executor ℕ ℕ
first_taken = (pass 1_000 ignore ignore at_once with_children).1

abbrev first_polled : Executor ℕ ℕ
first_polled = (poll_task 1_000 ignore ignore at_once 1 first_taken).1

one_turn : Turns 1_000 ignore ignore at_once ignore yielding 0 0 with_children 1 0 first_polled
unfolding Executor.with_clock spawn pass poll_task
one_turn = onward done (of_task 1 first_taken first_polled refl refl refl)

drive-fair_example :
    (drive 1_000 ignore ignore at_once ignore yielding 11 0 [] 0 with_children
      ≡ drive 1_000 ignore ignore at_once ignore yielding 10 0 [] 0 first_polled)
    × (((pass 1_000 ignore ignore at_once first_polled).0 ≡ ok (received 2))
        ⊎ ((pass 1_000 ignore ignore at_once first_polled).0 ≡ panic clock_out_of_range))
unfolding Executor.with_clock spawn
drive-fair_example =
    drive-fair 1_000 ignore ignore at_once ignore yielding 0 users yielding_user 9 1 2 [] 0 0
      with_children first_polled refl one_turn

abbrev child : Spawned ℕ
child = record { inner = Catch.new 42; join = 0 }

poll_spawned-delivers_example :
    let (answer, (t', after)) =
      poll_spawned ignore ignore at_once (custom 0) (child, with_child.shared) in
    let before = dropped ignore ignore at_once (custom 0) child with_child.shared in
    (answer ≡ ok (ready tt))
    × ((pair : Pair ℕ Waker) × (get_elem? after.joins 0 ≡ some pair)
        × ((v : Waker) → (Join.poll v pair.state).0 ≡ ok (ready (value 42))))
    × (after ≡ record before {
      joins = set before.joins 0 (record { armed = false; state = finished (value 42) });
      scheduler = before.scheduler;
    })
unfolding Executor.with_clock spawn Catch.new
poll_spawned-delivers_example =
    poll_spawned-delivers ignore ignore at_once (custom 0) child with_child.shared (value 42) none
      refl refl

yielding-once :
    (w : Waker) (x : ℕ) (s : Common) (p : Panic)
    → (yielding w (x, s)).0 ≡ panic p
    → is_twice p ≡ false
yielding-once w zero s p e = ground arith
yielding-once w (suc n) s p e = cc

block_on-once_example :
    (block_on 1_000 ignore ignore at_once ignore yielding 20 [] 2 with_child).0
    ≢ panicked join_completed_twice
block_on-once_example =
    block_on-once 1_000 ignore ignore at_once users ignore yielding yielding_user yielding-once 20
      [] 2 with_child with_child-IsIntact
