-- ===== src/Lib.antt =====
-- uefi-async is an asynchronous runtime for UEFI programs, with three lines of executors that share
-- futures, synchronisation and time:
--
--   - `common` (async/src/common): signals, a mutex, combinators, timers, yields and pacing. These are
--     futures, which any executor polls.
--   - the heap-free line (async/src/no_alloc): tasks in static pools, one work-stealing queue for each
--     core, an executor that pops, steals and polls, and wakers that queue a task again.
--   - the nano line (async/src/nano_alloc): a linked list of tasks with rates, polled in passes.
--   - the dynamic line (async/src/dynamic): tasks that are spawned, stolen and cancelled at run time,
--     with a global registry of what is alive.
--
-- A future is its state with a poll function, which may change a world that futures share (Base.Polls).
-- A wake, where the source has one, is a value that the operation returns or a change of that world.
--
-- Which file models what:
--
--   Common.Mutex        async/src/common/mutex.rs. `AsyncMutex` with the nodes of its waiters in memory,
--     an address for each; `link`, `unlink`, `unlock`, `try_lock`, `lock`, write by write. Segments,
--     Queue, Detach, Unlink, Pops and Wakes relate the linked nodes to a list of waiters.
--   Common.Mutex.Contention   the same operations with `LockFuture::poll`, its drop and the drop of
--     guards, as steps of many futures in any order; Soundness, Steps and Progress hold the invariant,
--     Outcomes an undisturbed poll, Stranding a wake that is lost, and Far and Stays what the steps of
--     others do to a future.
--   Common.Signal       async/src/common/signal.rs, the multi-core signal in steps likewise.
--   Common.Control      async/src/common/control.rs: `Join`, `TryJoin`, `JoinAll`, `Select`.
--   Common.Tick, Common.Time, Common.Step   tick.rs, time.rs and step.rs of async/src/common.
--   Static.Lifo         async/src/no_alloc/lifo.rs. Deque is what the queue promises, Window the circular
--     buffer as a list; Refine (push, pop), Thieves and Steals, Drains and Extends compare the two, and
--     Race has a steal in progress on a full queue. Stealing has steals as steps that others come
--     between; Atomic is what the queue promises then.
--   Static.Task         `TaskSlot`, `TaskPool` and `WakePolicy` of async/src/no_alloc/task.rs and waker.rs.
--   Static.Executor     async/src/no_alloc/executor.rs with `waker_wake`; Tasks is one task in a round,
--     Rounds many rounds, Wakes repeated wakes.
--   Static.Channel      async/src/no_alloc/channel.rs; Polls is one poll, Deliveries many in any order.
--   Nano.Channel, Nano.Executor   channel.rs, and task.rs with executor.rs, of async/src/nano_alloc.
--   Dynamic.Queues      the operations of the crate `st3` that the dynamic executor calls, and their laws.
--   Dynamic.Registry, Dynamic.Executor   async/src/dynamic/task.rs and executor.rs.
--   Macros              macros/src/nano.rs: the code that `join!`, `try_join!`, `join_all!` and `select!`
--     generate; Joins and Polled poll its futures (Futures), by the theorems on the combinators.
--     Macros.Nano is `nano!`: its parsers (RoundTrip) and what its statements do to the executors of the
--     nano line (Registers).
--     Macros.Init is `init` of macros/src/lib.rs.
--   Runner              tools/qemu-test/src/main.rs: Images runs the commands that build the disk, Markers
--     waits for a marker in the log (Markers.Rounds: for how long), Exits is `main`.
--   Base                shared helpers: tests, lists, words, polls, updates of functions, queues of
--     libraries (Base.Fifo, with lists as an instance).
--
-- Modules called Tests hold the concrete inputs.
--
-- Numbers and bounds. Words are natural numbers with the wrap-around of the operation written
-- out: 32 bits in the queue, 64 bits in time. A plain `+`, `-` or `*` of the source wraps, as in
-- a build without overflow checks. Capacities of the work-stealing queue are powers of two (the
-- source asserts this) below 2^32. Loops over the waiters of the mutex run on fuel: one more than
-- the length of the queue is enough, and in Contention the number of calls of `link` so far, plus
-- one, is given, which is never too little. The loop of Runner.Markers that waits for a marker runs
-- for at most `timeout / 500 + 2` rounds, and Rounds shows that it always ends within them. All other
-- loops recur on a list or on a count.
--
-- Memory is sequentially consistent: the orderings of the atomics are not modelled. Where a
-- module says that operations run without interference, only one thread is inside it;
-- Common.Mutex.Contention, Common.Signal, Static.Lifo.Race, Static.Lifo.Stealing and
-- Nano.Channel.Cores are the modules in which others come between. In Contention a guard may be
-- dropped at any time after it is made. The queues of the crates `st3`, `nblfq` and `crossbeam` are
-- parameters with what their documentation says of them.
--
-- Not modelled: the reading of the cycle counter and the stall of the calibration (assembly and
-- firmware), key input and the global allocator (calls of firmware and of the crate `talc`), the
-- attribute macro on tasks (macros/src/task.rs), the parsers of the crate `syn`, the test
-- applications (testy), and what the emulator runner does on macOS or prints.
pub mod Base
pub mod Nano
pub mod Runner
pub mod Static
pub mod Macros
pub mod Dynamic
pub mod Common
