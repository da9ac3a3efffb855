-- ===== src/ThreadPool.antt =====
-- src/thread_pool.rs and src/shutdown_mode.rs: the worker threads, the clients that submit commands,
-- and the shutdown, one shared access at a time. The queue is the bounded FIFO queue that
-- src/blocking_queue.rs implements, and a call with `Duration::MAX` takes effect when it can.
pub mod Commands
pub mod Stopping
pub mod Pending
pub mod Shutdown
pub mod Broadcast
pub mod Hang
pub mod Unchecked
pub mod Again
pub mod Join
pub mod Deadlock
pub mod Results
pub mod Failures
pub mod Locals
pub mod Expired
mod Examples
mod JoinExamples
pub mod LocalsExamples
use command_executor.Base.{
  ℕ, zero, suc, ◌+◌, ◌≤◌, ◌<◌, ◌≡◌, Bool, true, false, List, [], ◌∷◌, ◌++◌, length, update, tally,
  if◌then◌else◌, ◌==◌,
}

pub data ShutdownMode : Type 0 where
  immediate complete_pending : ShutdownMode

-- `Result<(), anyhow::Error>`
pub data Result {ℓ} (X : Type ℓ) : Type ℓ where
  ok : Result X
  err : X → Result X

-- What a worker may take from the queue: a client's command, the `EmptyCommand` of a shutdown, or
-- one of the commands with which `in_all_threads` reaches every worker, with the number of its
-- barrier.
pub data Command {ℓ} (C : Type ℓ) : Type ℓ where
  user : C → Command C
  empty : Command C
  run_in_all_threads : ℕ → Command C

-- How the code of a client ends: a command's `execute`, or the `f` of `in_all_threads`.
pub data Executed {ℓ} (X : Type ℓ) : Type ℓ where
  succeeds : Executed X
  fails : X → Executed X
  panics : Executed X

-- Where a worker stands in the closure of `create_thread`, with its local `r`: at the test of the
-- loop, in `dequeue`, in `execute`, at a barrier, or out of the loop.
pub data Worker {ℓ} (C X : Type ℓ) : Type ℓ where
  tests dequeues : Result X → Worker C X
  executes : Command C → Result X → Worker C X
  waits_at : ℕ → Result X → Worker C X
  returned : Result X → Worker C X
  panicked : Worker C X

-- A client is outside, in the loop of `in_all_threads` with a barrier and a number of commands still
-- to submit, or at the barrier.
pub data Client : Type 0 where
  free : Client
  broadcasts : ℕ → ℕ → Client
  waits_for : ℕ → Client

-- Where the owner stands in `shutdown`: not called; in `wait_empty`; before the store to `stopped`;
-- with a number of `EmptyCommand`s still to submit; returned.
pub data Phase : Type 0 where
  running draining storing : Phase
  waking : ℕ → Phase
  down : Phase

module _ {ℓ} {C X : Type ℓ} where
  -- `while !stopped.load()`
  unfoldable pub test_stopped : Bool → Result X → Worker C X
  test_stopped stopped r = if stopped then returned r else dequeues r

  -- `match c.execute()`: an error replaces the result, success leaves it.
  unfoldable pub execute : Command C → Result X → Executed X → Worker C X
  execute (user c) r succeeds = tests r
  execute (user c) r (fails e) = tests (err e)
  execute (user c) r panics = panicked
  execute empty r x = tests r
  execute (run_in_all_threads b) r panics = panicked
  execute (run_in_all_threads b) r x = waits_at b r

  -- A worker at the barrier `b` that opens.
  unfoldable pub release : ℕ → Worker C X → Worker C X
  release b (waits_at b' r) = if b == b' then tests r else waits_at b' r
  release b w = w

  -- 1 for a worker at the barrier
  abbrev pub at_barrier : ℕ → Worker C X → ℕ
  at_barrier b (waits_at b' r) = if b == b' then 1 else 0
  at_barrier b w = 0

-- `match self.shutdown_mode`
unfoldable pub enter_shutdown : ShutdownMode → Phase
enter_shutdown immediate = storing
enter_shutdown complete_pending = draining

-- `submitted`, `taken` and `completed` record the commands that were put into the queue, taken from
-- it, and executed.
pub record System {ℓ} (C X : Type ℓ) : Type ℓ where
  pub queue : List (Command C)
  pub stopped : Bool
  pub phase : Phase
  pub workers : ℕ → Worker C X
  pub clients : ℕ → Client
  pub barriers : ℕ
  pub submitted : List (Command C)
  pub taken : List (Command C)
  pub completed : List (Command C)

module _ {ℓ} {C X : Type ℓ} where
  -- `ThreadPool::new`, when the start barrier has let the workers and the creator go.
  abbrev pub init : System C X
  init = record {
    queue = [];
    stopped = false;
    phase = running;
    workers = λ _. tests ok;
    clients = λ _. free;
    barriers = 0;
    submitted = [];
    taken = [];
    completed = [];
  }

  -- A command at the back of the queue.
  abbrev pub enqueued : Command C → System C X → System C X
  enqueued c s = record s { queue = s.queue ++ (c ∷ []); submitted = s.submitted ++ (c ∷ []) }

-- `tasks` workers on a queue of `capacity` places.
module _ {ℓ} {C X : Type ℓ} (tasks capacity : ℕ) (mode : ShutdownMode) where
  pub data Step (s : System C X) : System C X → Type ℓ where
    -- `submit`
    submits : (c : C) → s.phase ≡ running → length s.queue < capacity → Step s (enqueued (user c) s)
    -- `in_all_threads`: a new barrier, `tasks` commands, then the barrier
    broadcast_begins :
        (j : ℕ)
        → s.phase ≡ running
        → s.clients j ≡ free
        → Step s (record s {
          clients = update s.clients j (broadcasts s.barriers tasks);
          barriers = s.barriers + 1;
        })
    broadcast_submits :
        (j : ℕ) {b k : ℕ}
        → s.clients j ≡ broadcasts b (suc k)
        → length s.queue < capacity
        → Step s (
            enqueued
              (run_in_all_threads b)
              (record s { clients = update s.clients j (broadcasts b k) }))
    broadcast_waits :
        (j : ℕ) {b : ℕ}
        → s.clients j ≡ broadcasts b 0
        → Step s (record s { clients = update s.clients j (waits_for b) })
    -- the client and the workers at its barrier are `tasks + 1` threads
    barrier_opens :
        (j : ℕ) {b : ℕ}
        → s.clients j ≡ waits_for b
        → tally (at_barrier b) tasks s.workers + 1 ≡ tasks + 1
        → Step s
            (record s { clients = update s.clients j free; workers = λ i. release b (s.workers i) })
    -- `shutdown` has `&mut self`, so no client is inside the pool
    shutdown_begins :
        s.phase ≡ running
        → ((j : ℕ) → s.clients j ≡ free)
        → Step s (record s { phase = enter_shutdown mode })
    shutdown_drained : s.phase ≡ draining → s.queue ≡ [] → Step s (record s { phase = storing })
    shutdown_stores : s.phase ≡ storing → Step s (record s { stopped = true; phase = waking tasks })
    shutdown_wakes :
        {k : ℕ}
        → s.phase ≡ waking (suc k)
        → length s.queue < capacity
        → Step s (enqueued empty (record s { phase = waking k }))
    shutdown_returns : s.phase ≡ waking 0 → Step s (record s { phase = down })
    -- a worker
    worker_tests :
        (i : ℕ) {r : Result X}
        → i < tasks
        → s.workers i ≡ tests r
        → Step s (record s { workers = update s.workers i (test_stopped s.stopped r) })
    worker_takes :
        (i : ℕ) {r : Result X} {c : Command C} {rest : List (Command C)}
        → i < tasks
        → s.workers i ≡ dequeues r
        → s.queue ≡ c ∷ rest
        → Step s (record s {
          queue = rest;
          workers = update s.workers i (executes c r);
          taken = s.taken ++ (c ∷ []);
        })
    worker_executes :
        (i : ℕ) {r : Result X} {c : Command C} (x : Executed X)
        → i < tasks
        → s.workers i ≡ executes c r
        → Step s (record s {
          workers = update s.workers i (execute c r x);
          completed = s.completed ++ (c ∷ []);
        })

  pub data Reach : System C X → Type ℓ where
    start : Reach init
    later : {s t : System C X} → Reach s → Step s t → Reach t
