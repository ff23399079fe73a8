-- ===== src/Lib.antt =====
-- asyncr: a single-threaded async runtime (src/).
--
-- The program's parts and the files that model them:
-- - src/scheduling/state.rs: the state machine of one task's schedule. Schedule/State.antt has
--   `wake`, `begin_poll` and `finish_poll`; an `unreachable!` is a panic value.
-- - src/scheduling/mod.rs: `TaskSchedule`. Schedule.antt keeps the schedules in a list, so that an
--   `Arc` or a waker is an index, together with the ready channel. Schedule/Race.antt takes one
--   schedule apart into the steps that threads interleave: the two locks of `poll`, the lock of
--   `request_schedule`, the sends and the receive.
-- - src/executor.rs, src/task.rs, src/handle.rs: Shared.antt is what handles, wakers and executor
--   share, with `spawn`, `submit` and the async block of a spawned task; Executor.antt has the task
--   table, `poll_task`, one pass of `next_ready_id`, and the drop; Executor/Run.antt has the loops.
-- - src/join.rs: Join.antt; a waker that the code wakes is returned to the caller.
--   Executor/Run/Handles.antt has the handle of a spawned task as the root of `block_on`, and
--   Executor/Run/Serving.antt the polls of the two.
-- - src/catch.rs: Catch.antt. src/context.rs, with `enter` of src/handle.rs and the guard that
--   it returns: Context.antt.
-- - src/runtime.rs: Runtime.antt, the executor under the guard of the context. Its children follow a
--   whole `block_on` over one sleep and over one timeout, from the runtime down to the timers, and
--   one `block_on` after another.
-- - src/time: Time.antt and its children Heap, Driver, Clock, Sleep, Interval and Timeout.
-- - The free functions sleep, timeout, interval and spawn, which read the current handle: Api.antt.
-- - The unit tests: Suite.antt and its children, each test as a script over a bench of the model's
--   operations, with its run. Suite/Async.antt has the async blocks of the tests of src/executor.rs,
--   src/runtime.rs and src/task.rs as data, which Executors, Runtimes, Drives and Spawns run.
-- - src/test_utils.rs: TestUtils.antt. The polling by single tasks that the tests of src/executor.rs
--   do: Executor/Stepping.antt.
--
-- Time/Sleep/Many.antt has the sleeps of many tasks over one driver as a step relation,
-- Executor/Run/Fairness.antt the turns of `block_on` as one. The invariant of the executor is
-- `Consistent` of Schedule/Store.antt, on the schedules and the ready channel, and `Sound` of
-- Executor/Usage.antt, which adds the task table and the pending spawns; the other files below them
-- follow it through one operation or loop each.
--
-- Prelude holds what they share: Boolean tests, lists, maps, the panics, and `Place`, by which a
-- component acts on its part of a larger state. Tests holds concrete runs.
--
-- Conventions. An instant is a number of nanoseconds; `limit` is the latest instant that the
-- platform represents, past which `checked_add` fails. Panics are values of `Outcome` that name the
-- message; the state beside them is the one that unwinding leaves. Timer ids and task ids are 64-bit
-- counters that wrap. The `BinaryHeap` of `Reverse` pairs is the sorted list of its entries, a
-- `HashMap` an association list. User code enters as functions: `poll_future`, `drop_future` and
-- `wake_custom` act on the shared state, whose `cells` are the memory that user code has outside the
-- runtime, and which no operation of the runtime reads or writes; under `Runtime::block_on` they also
-- see which handle is current. A reading of the clock is an argument of the operation that
-- reads it, or is taken from the clock in the shared state. Where a theorem is about all user code,
-- the records `Users` and `RootUser` say what that code does: it uses the executor by wakes, spawns
-- and handles, and its wakers do not spawn when they are woken.
--
-- Loops. `process_expired` and `next_deadline` recur on the heap. The loop of `SpawnState::next_id`
-- is written out, since it ends in its second round; Executor/Ids.antt has it as it stands.
-- `next_ready_id` and `block_on` run on fuel, over a list of what arrives while the thread is
-- blocked; for `next_ready_id` two rounds more than there are timers are enough, and for `block_on` over a root
-- that keeps itself awake Executor/Run/Liveness.antt finds enough turn by turn.
--
-- Not modelled: panics of user code while it is dropped or woken, the poisoning of a mutex by a
-- panic, `mem::forget` of guards, and the order in which the executor's table drops its tasks beyond
-- that of the list.
pub mod Prelude
pub mod Schedule
pub mod Time
pub mod Join
pub mod Catch
pub mod Context
pub mod Shared
pub mod Executor
pub mod Api
pub mod Runtime
pub mod TestUtils
pub mod Suite
pub mod Tests
