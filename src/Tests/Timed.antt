-- ===== src/Tests/Timed.antt =====
-- A sleep and a timeout as roots of `block_on`, on a clock that is paused at 5.
use asyncr.Prelude.{◌≡◌, [], ◌∷◌, none, error}
use asyncr.Time.Clock.{paused}
use asyncr.Time.Sleep
use asyncr.Time.Timeout
use asyncr.Time.Timeout.{elapsed}
use asyncr.Executor.Run.{Arrival, returned}
use asyncr.Runtime.{block_on, with_clock}
use asyncr.Runtime.Sleeping.{poll_sleep, drop_sleep, block_on-sleep}
use asyncr.Runtime.Elapsing.{poll_timeout, drop_timeout, block_on-timeout}
use asyncr.Suite.Async.{ignore, drop_async, poll_async, same}

-- What another thread would do, if there were a wait.
abbrev arrival : Arrival
arrival = record { elapsed = 3; wakes = 0 ∷ [] }

block_on-sleep_example :
    let (run, env', runtime, context) =
      block_on 1_000
        (λ context. ignore)
        (λ context. drop_async)
        poll_async
        (λ context. drop_sleep)
        (λ context. poll_sleep 1_000 same)
        4
        (arrival ∷ [])
        (Sleep.new 12)
        (with_clock 1 (paused 5) 0)
        none in
    let s = runtime.executor.shared in
    (run ≡ returned tt)
    × (s.clock ≡ paused 12)
    × (s.system ≡ 0)
    × (env' ≡ arrival ∷ [])
    × (s.timers.registrations ≡ [])
    × (context ≡ none)
block_on-sleep_example =
    block_on-sleep 1_000 (λ context. ignore) (λ context. drop_async) poll_async same 1 0 0
      (arrival ∷ []) 12 5

block_on-timeout_example :
    let (run, env', runtime, context) =
      block_on 1_000
        (λ context. ignore)
        (λ context. drop_async)
        poll_async
        (λ context. drop_timeout)
        (λ context. poll_timeout 1_000 same)
        4
        (arrival ∷ [])
        (Timeout.new (Sleep.new 12) tt)
        (with_clock 1 (paused 5) 0)
        none in
    let s = runtime.executor.shared in
    (run ≡ returned (error elapsed))
    × (s.clock ≡ paused 12)
    × (s.system ≡ 0)
    × (env' ≡ arrival ∷ [])
    × (s.timers.registrations ≡ [])
    × (context ≡ none)
block_on-timeout_example =
    block_on-timeout 1_000 (λ context. ignore) (λ context. drop_async) poll_async same 1 0 0
      (arrival ∷ []) 12 5
