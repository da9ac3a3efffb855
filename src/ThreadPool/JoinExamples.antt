-- ===== src/ThreadPool/JoinExamples.antt =====
-- Joins, results of workers, and two broadcasts at once, at concrete pools of src/thread_pool.rs.
use command_executor.Base.{
  false, some, none, ℕ, ℕ_discrete, ◌≡◌, refl, true, List, [], ◌∷◌, arith, update,
}
use command_executor.ThreadPool.{
  immediate, ok, err, broadcasts, broadcast_begins, broadcast_submits, broadcast_waits,
  run_in_all_threads, succeeds, fails, tests, dequeues, executes, waits_at, test_stopped, execute,
  free, waits_for, System, init, enqueued, worker_tests, worker_takes, worker_executes, Reach,
  start, later,
}
use Prim.Native.String.{String}
use command_executor.ThreadPool.Join.{
  JoinHandle, finished, panicked, returns, join_texts, conclude, join, reports, returned_ok,
  unwound, join_takes_all, join_panicking_handler,
}
use command_executor.ThreadPool.Results.{execute_all, worker_result}
use command_executor.ThreadPool.Deadlock.{Steps, stays, goes_on, barriers_never_open}

-- Three threads of a pool, the last one first: one panicked with a formatted message, one ended well,
-- and one returned an error.
abbrev ended : List (JoinHandle ℕ)
ended =
    record { name = some "p-2"; ended = panicked none }
    ∷ record { name = some "p-1"; ended = finished ok }
    ∷ record { name = some "p-0"; ended = finished (err 3) }
    ∷ []

abbrev debug : ℕ → String
debug n = "error"

join_takes_all_example :
    let j = join debug (λ _ _. true) "p" ended in
    (j.threads ≡ [])
    × (j.calls ≡ ("p-2", "Unknown error") ∷ ("p-0", "error") ∷ [])
    × (j.exit
        ≡ returns (err "Errors occurred while joining threads in the p pool: Unknown error, error"))
    × (returned_ok j.exit ≡ false)
unfolding reports conclude join_texts
join_takes_all_example = join_takes_all debug (λ _ _. true) "p" (λ n m. refl) ended

join_panicking_handler_example :
    let j = join debug (λ _ _. false) "p" ended in
    (j.calls ≡ ("p-2", "Unknown error") ∷ []) × (unwound j.exit ≡ true)
unfolding reports
join_panicking_handler_example = join_panicking_handler debug (λ _ _. false) "p" (λ n m. refl) ended

worker_result_example :
    execute_all {C = ℕ} {X = ℕ} ((5, fails 1) ∷ (6, fails 2) ∷ (7, succeeds) ∷ []) ok
    ≡ tests (err 2)
worker_result_example = worker_result ((5, fails 1) ∷ (6, fails 2) ∷ (7, succeeds) ∷ []) ok

-- The clients 0 and 1 are both in `in_all_threads`, and each worker has executed a command of another.
abbrev apart : System ℕ ℕ
apart = record init {
  clients =
      update
        (update (update (update (λ _. free) 0 (broadcasts 0 2)) 0 (broadcasts 0 1)) 1
          (broadcasts 1 2))
        1 (broadcasts 1 1);
  workers =
      update
        (update
          (update
            (update
              (update (update (λ _. tests ok) 0 (dequeues ok)) 0
                (executes (run_in_all_threads 0) ok))
              0 (waits_at 0 ok))
            1 (dequeues ok))
          1 (executes (run_in_all_threads 1) ok))
        1 (waits_at 1 ok);
  barriers = 2;
  submitted = run_in_all_threads 0 ∷ run_in_all_threads 1 ∷ [];
  taken = run_in_all_threads 0 ∷ run_in_all_threads 1 ∷ [];
  completed = run_in_all_threads 0 ∷ run_in_all_threads 1 ∷ [];
}

apart-Reach : Reach 2 2 immediate apart
unfolding test_stopped execute ℕ_discrete
apart-Reach =
    let called = later start (broadcast_begins 0 refl refl) in
    let submitted = later called (broadcast_submits 0 refl (omega arith)) in
    let called_twice = later submitted (broadcast_begins 1 refl refl) in
    let both = later called_twice (broadcast_submits 1 refl (omega arith)) in
    let first =
      later
        (later (later both (worker_tests 0 (omega arith) refl))
          (worker_takes 0 (omega arith) refl refl))
        (worker_executes 0 succeeds (omega arith) refl) in
    later
      (later (later first (worker_tests 1 (omega arith) refl))
        (worker_takes 1 (omega arith) refl refl))
      (worker_executes 1 succeeds (omega arith) refl)

-- The client 0 submits its last command and waits.
abbrev blocked : System ℕ ℕ
blocked =
    let s =
      enqueued (run_in_all_threads 0)
        (record apart { clients = update apart.clients 0 (broadcasts 0 0) }) in
    record s { clients = update s.clients 0 (waits_for 0) }

blocked-Steps : Steps 2 2 immediate apart blocked
unfolding ℕ_discrete
blocked-Steps =
    goes_on (goes_on stays (broadcast_submits 0 refl (omega arith))) (broadcast_waits 0 refl)

barriers_never_open_example :
    (blocked.workers 0 ≡ waits_at 0 ok) × (blocked.workers 1 ≡ waits_at 1 ok)
unfolding ℕ_discrete
barriers_never_open_example =
    barriers_never_open 0 1 (omega arith) (omega arith) (λ e. omega (arith, e)) refl refl
      blocked-Steps
