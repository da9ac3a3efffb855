-- ===== src/ThreadPool/Examples.antt =====
-- Runs of src/thread_pool.rs, and the theorems about it at concrete pools.
use command_executor.Base.{
  weigh, ℕ, ℕ_discrete, zero, suc, ◌+◌, ◌≤◌, ◌<◌, ◌≡◌, refl, true, List, [], ◌∷◌, ◌++◌, length,
  arith, update, tally,
}
use native.Mathlib.Nat.{le_refl}
use command_executor.ThreadPool.{
  ShutdownMode, immediate, complete_pending, ok, err, Command, user, empty, run_in_all_threads,
  succeeds, fails, tests, dequeues, executes, returned, test_stopped, execute, draining, waking,
  down, enter_shutdown, System, init, enqueued, submits, shutdown_begins, shutdown_drained,
  shutdown_stores, shutdown_wakes, shutdown_returns, worker_tests, worker_takes, worker_executes,
  Reach, start, later,
}
use command_executor.ThreadPool.Commands.{load}
use command_executor.ThreadPool.Unchecked.{
  Calls, stays, goes_on, steps, unchecked_submits, Reach-Calls, once_in_order,
}
use command_executor.ThreadPool.Again.{second_shutdown_hangs}
use command_executor.ThreadPool.Shutdown.{
  IsOver, pending_all_executed, pending_never_blocks, no_worker_stranded,
}
use command_executor.ThreadPool.Expired.{try_submit, assertion_fails, closed_to_clients}
use command_executor.ThreadPool.Hang.{IsStuck, immediate_shutdown_hangs, pending_shutdown_hangs}

abbrev Pool : Type 0
Pool = System ℕ ℕ

-- `r = Err(e)` keeps the last error, and success does not clear it.
last_error_kept :
    (execute {C = ℕ} {X = ℕ} (user 5) (err 1) (fails 2) ≡ tests (err 2))
    × (execute {C = ℕ} {X = ℕ} (user 5) (err 1) succeeds ≡ tests (err 1))
unfolding execute
last_error_kept = (refl, refl)

-- A pool of one worker and one place: the client submits 5, and the worker takes it.
abbrev loaded : Pool
loaded = enqueued (user 5) init

abbrev ready : Pool
ready = record loaded { workers = update loaded.workers 0 (dequeues ok) }

abbrev busy : Pool
busy = record ready {
  queue = [];
  workers = update ready.workers 0 (executes (user 5) ok);
  taken = user 5 ∷ [];
}

busy-Reach : {mode : ShutdownMode} → Reach 1 1 mode busy
unfolding test_stopped ℕ_discrete
busy-Reach =
    later (later (later start (submits 5 refl (omega arith))) (worker_tests 0 (omega arith) refl))
      (worker_takes 0 (omega arith) refl refl)

-- While it executes, another client calls `unchecked_submit`.
abbrev unchecked : Pool
unchecked = enqueued (user 6) busy

unchecked-Calls : {mode : ShutdownMode} → Calls 1 1 mode init unchecked
unchecked-Calls {mode} =
    goes_on (Reach-Calls (busy-Reach {mode = mode})) (unchecked_submits 6 (omega arith))

once_in_order_example :
    (unchecked.submitted ≡ unchecked.taken ++ unchecked.queue)
    × (length unchecked.queue ≤ 1)
    × ((w : Command ℕ → ℕ)
        → weigh w unchecked.taken
          ≡ weigh w unchecked.completed + tally (load w) 1 unchecked.workers)
once_in_order_example = once_in_order (unchecked-Calls {mode = immediate})

second_shutdown_hangs_example :
    (s : Pool) × Calls 2 3 complete_pending init s
    × (s.phase ≡ draining)
    × ((t : Pool)
        → Calls 2 3 complete_pending s t
        → (t.phase ≡ draining) × (t.completed ≡ s.completed))
second_shutdown_hangs_example = second_shutdown_hangs 2 3 (omega arith) (omega arith)

-- It has executed the command, and waits in `dequeue` again when the owner shuts the pool down.
abbrev resting : Pool
resting = record busy {
  workers = update (update busy.workers 0 (tests ok)) 0 (dequeues ok);
  completed = user 5 ∷ [];
}

abbrev stopping : Pool
stopping = record resting { stopped = true; phase = waking 1 }

stopping-Reach : Reach 1 1 complete_pending stopping
unfolding test_stopped execute enter_shutdown ℕ_discrete
stopping-Reach =
    let worked = later busy-Reach (worker_executes 0 succeeds (omega arith) refl) in
    let waiting = later worked (worker_tests 0 (omega arith) refl) in
    later (later (later waiting (shutdown_begins refl (λ j. refl))) (shutdown_drained refl refl))
      (shutdown_stores refl)

pending_never_blocks_example : length stopping.queue < 1
pending_never_blocks_example = pending_never_blocks (le_refl 1) stopping-Reach refl

-- `shutdown` has returned, with its `EmptyCommand` in the queue.
abbrev closed : Pool
closed = record (enqueued empty stopping) { phase = down }

closed-Reach : Reach 1 1 complete_pending closed
closed-Reach =
    later (later stopping-Reach (shutdown_wakes refl (omega arith))) (shutdown_returns refl)

no_worker_stranded_example :
    (closed.stopped ≡ true)
    × ((c : Command ℕ) × (rest : List (Command ℕ)) × (closed.queue ≡ c ∷ rest))
unfolding ℕ_discrete
no_worker_stranded_example = no_worker_stranded {x = ok} closed-Reach refl 0 (omega arith) refl

-- The worker takes it and ends.
abbrev emptied : Pool
emptied = record closed {
  queue = [];
  workers =
      update (update (update closed.workers 0 (executes empty ok)) 0 (tests ok)) 0 (returned ok);
  taken = user 5 ∷ empty ∷ [];
  completed = user 5 ∷ empty ∷ [];
}

emptied-Reach : Reach 1 1 complete_pending emptied
unfolding test_stopped execute ℕ_discrete
emptied-Reach =
    later
      (later (later closed-Reach (worker_takes 0 (omega arith) refl refl))
        (worker_executes 0 succeeds (omega arith) refl))
      (worker_tests 0 (omega arith) refl)

emptied-IsOver : (i : ℕ) → i < 1 → IsOver (emptied.workers i)
unfolding ℕ_discrete
emptied-IsOver zero lt = tt
emptied-IsOver (suc i) lt = absurd (omega arith)

-- 1 for a command of a client
abbrev of_client : Command ℕ → ℕ
of_client (user c) = 1
of_client empty = 0
of_client (run_in_all_threads b) = 0

pending_all_executed_example : weigh of_client emptied.submitted ≡ weigh of_client emptied.completed
pending_all_executed_example = pending_all_executed emptied-Reach refl emptied-IsOver of_client refl

immediate_shutdown_hangs_example :
    (s : Pool) × Reach 1 2 immediate s × (s.phase ≡ waking 1) × IsStuck 1 2 immediate s
immediate_shutdown_hangs_example = immediate_shutdown_hangs 1 2 5 (omega arith)

pending_shutdown_hangs_example :
    (s : Pool) × (k : ℕ) × Reach 3 2 complete_pending s
    × (s.phase ≡ waking (suc k))
    × IsStuck 3 2 complete_pending s
pending_shutdown_hangs_example = pending_shutdown_hangs 3 2 (omega arith)

-- The owner ends its shutdown, the worker takes the `EmptyCommand`, and a client calls `unchecked_submit`.
abbrev after_shutdown : Pool
after_shutdown = enqueued (user 6) (record closed {
  queue = [];
  workers = update closed.workers 0 (executes empty ok);
  taken = user 5 ∷ empty ∷ [];
})

closed_to_clients_example :
    (try_submit 9 true after_shutdown ≡ assertion_fails)
    × (weigh of_client after_shutdown.submitted ≡ weigh of_client stopping.submitted + 1)
unfolding ℕ_discrete
closed_to_clients_example =
    closed_to_clients of_client 9 true refl (Reach-Calls stopping-Reach) (λ e. cc)
      (goes_on
        (goes_on
          (goes_on (goes_on stays (steps (shutdown_wakes refl (omega arith))))
            (steps (shutdown_returns refl)))
          (steps (worker_takes 0 (omega arith) refl refl)))
        (unchecked_submits 6 (omega arith)))
