-- ===== src/Lib.antt =====
-- command-executor: a thread pool over a bounded blocking queue.
--
-- The program. A ThreadPool (src/thread_pool.rs) starts a number of worker threads that take commands
-- from one queue and execute them. Clients submit commands and wait while the queue is full, run a
-- function in every worker with in_all_threads, and at the end shut the pool down in one of two modes
-- (src/shutdown_mode.rs). The queue stands behind a BlockingQueueAdapter
-- (src/blocking_queue_adapter.rs) and is of one of two types: a BlockingQueue (src/blocking_queue.rs), a
-- VecDeque and two flags behind two mutexes, with a condition variable for producers and one for
-- consumers; or a CrossbeamBlockingQueue (src/crossbeam_blocking_queue.rs), which retries on a lock-free
-- array until the time is up. A ThreadPoolBuilder (src/thread_pool_builder.rs) holds the settings.
--
-- The files.
-- - Base and its children: names of the libraries, and lemmas on tests, lists and families of numbers.
-- - Duration: the timeouts of the wait loops. `count_down` is the arithmetic on `t` and `start`, with
--   the two readings of the clock as arguments; a Duration is a number of nanoseconds.
-- - BlockingQueue: the state and the methods of src/blocking_queue.rs. A method is split where it gives
--   up the mutex of the flags: `try_enqueue` runs from the start of the method to its first wait or
--   its return, `resume_enqueue` from the return of `wait_timeout` to the next wait or the return, and
--   in the same way for `try_dequeue` and `wait_empty`. A Segment holds the new queue, the signals
--   sent and where the thread stands.
--   . Invariant: what a segment does to the queue.
--   . System: any number of threads that run these segments on one queue, wait on the condition
--     variables, and are chosen by `notify_one` and `notify_all`, wake by a timeout, or for no reason.
--   . Fifo: the bounded FIFO queue as the specification of every run of System.
--   . Waits, Loop, Timeouts: one call on its own, against any sequence of wakes and clock readings.
--   . Waiters, Turns, Awake, Wakeups: the notifications that reach a waiting thread.
--   . Schedule, Forgotten: an executable run of System, and runs in which a notification is lost.
--   . Unbounded: the capacity 0.
-- - CrossbeamBlockingQueue: the methods of src/crossbeam_blocking_queue.rs over crossbeam's ArrayQueue,
--   which is a parameter. A method is the start of its local variables (`try_enqueue`) and a number of
--   attempts (`attempt_enqueue`), each an access to the array and two readings of the clock.
--   . Array: the interface of ArrayQueue, and as laws what its documentation says.
--   . System: any number of threads, whose attempts interleave. Attempts, Fifo: what they do to the
--     elements.
--   . Retries, Timeouts: one call on its own, against any script of arrays and clock readings.
--   . Places: a list in the place of ArrayQueue, which has the laws.
-- - BlockingQueueAdapter: src/blocking_queue_adapter.rs and src/queue_type.rs. A method hands the call
--   on, and `Begun` says how far it has come then.
--   . Contract: the first access of a call to the queue, for either type. Scripts: any sequence of calls.
-- - ThreadPool: the workers, clients and the owner of src/thread_pool.rs, as steps on a System in which
--   the queue is the specification above. `init` is ThreadPool::new after its start barrier,
--   `test_stopped` and `execute` are the loop of create_thread, Client and `release` in_all_threads and
--   in_all_threads_mut, Phase and `enter_shutdown` the method shutdown.
--   . Commands: each command is taken in order and executed once.
--   . Stopping, Pending, Shutdown: what the two shutdown modes promise.
--   . Broadcast: the barrier of in_all_threads.
--   . Hang: shutdowns that do not return.
--   . Unchecked: the same with unchecked_submit and further calls of shutdown. Again: a second shutdown.
--   . Deadlock: several calls of in_all_threads at once.
--   . Join: the method join, over the list of ended threads, with the back of the vector at the head;
--     the handler and the printing of an error are parameters, a message is a text.
--   . Expired: submit and try_submit, and what clients can do after a shutdown has begun.
--   . Locals: what commands do to a thread local of their worker and to what they share, along a run;
--     set_thread_local. `carry` is what a step does, `memory` what a run has done.
--   . Results: the local `r` of create_thread over the commands that one worker executes.
-- - ThreadPoolBuilder: src/thread_pool_builder.rs; Settings: a chain of calls on a builder.
-- - Pipeline: examples/pipeline.rs and examples/read_process_write_pipeline.rs, as moves of `main` and of
--   the workers of a chain of pools, each of which is a System of ThreadPool. A command of one stage
--   submits one to the next; the command of the last stage does `sink` to the world of the program, which
--   holds the thread locals and what the workers share.
--   . Stages, Accounts, Passes, Moves, Done: where the payloads are, from the source to the file.
--   . Fitness, Alive, Progress: which moves there are when a thread waits. Costs, Ending: a number that every
--     move lowers. Fine, Completion: the way to the end of `main`.
--   . Files: programs whose last stage, of one worker, writes lines to a file, with its thread local.
--   . Numbers: the settings of pipeline.rs, and its comparison of source and result.
--   . Hashes: the settings of read_process_write_pipeline.rs.
-- - Printing: examples/thread_pool.rs as a program of Pipeline with one stage, which prints. Printed: what it
--   has printed at its end.
-- - Configured: examples/thread_local.rs, the thread local that its commands read. Kept: it stays set.
-- - Fetch: examples/fetch_thread_local.rs, with a HashSet by its members.
--   . Calls, Taken: which commands came before a call of in_all_threads, and are executed at its barrier.
--   . Budget, Once: how many commands a call submits, and how often each worker runs its function.
--   . Sets, Collected: what the threads have stored, and what `fetch` returns.
--   . Stages, Gathered, Outcome: `main` as a program of Pipeline with two stages up to the end of the
--     first, and from there the steps of the second stage and of `main` in in_all_threads_mut.
-- - Flush: examples/flush_thread_local.rs. Flushed: `flush` on its own, on the second stage of Fetch.
--   . Stages: `main` from the end of the first stage on, as moves on the second stage with its thread locals,
--     the third stage and the file of the result. Up to there it is the code of fetch_thread_local.rs.
--   . Sent, Handed: which payloads are sent to the third stage. Written: what its worker writes. Along,
--     Outcome: both together, and what `main` compares.
--
-- What is assumed. A thread that changes the deque holds both mutexes, and every method takes them in
-- the same order, so that a segment is one step. Condition variables may wake a thread at any time.
-- Memory is sequentially consistent, as the code asks for. A usize is a natural number, since the
-- lengths are bounded by the capacity. In ThreadPool a call with `Duration::MAX` (584 billion years)
-- ends only by its effect, a client's command and the function of in_all_threads are inputs that
-- succeed, fail or panic, and the owner calls shutdown when no client is inside the pool, as
-- `&mut self` demands: once in a Step, and again in a Call of Unchecked. Its queue is meant to have a
-- place: what a BlockingQueue made with capacity 0 does is in BlockingQueue/Unbounded, and crossbeam's
-- ArrayQueue refuses that size. In Flush a HashSet is gone over in any order of its members.
--
-- In Pipeline, `main` starts after set_next, so that every worker knows the next pool; an error that `main`
-- passes on with `?`, or a join that fails, ends it (`failed`); a line is read from the source as it is.
--
-- What is not modelled: src/lib.rs, which is documentation; benches and tests; the last shutdown of
-- examples/fetch_thread_local.rs, whose pool has nothing left to do; the download of the source of
-- examples/read_process_write_pipeline.rs, and what a failed write leaves in a file.
mod Base
pub mod Duration
pub mod BlockingQueue
pub mod CrossbeamBlockingQueue
pub mod BlockingQueueAdapter
pub mod ThreadPool
pub mod ThreadPoolBuilder
pub mod Pipeline
pub mod Printing
pub mod Configured
pub mod Fetch
pub mod Flush
