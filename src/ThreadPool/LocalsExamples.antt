-- ===== src/ThreadPool/LocalsExamples.antt =====
-- `set_thread_local` of src/thread_pool.rs on a pool of one worker that has executed a command.
use command_executor.Base.{below, ℕ, ℕ_discrete, ◌+◌, ◌≡◌, refl, tally}
use command_executor.ThreadPool.{
  immediate, Executed, succeeds, free, waits_for, test_stopped, execute, System, Step, submits,
  broadcast_begins, broadcast_submits, broadcast_waits, barrier_opens, worker_tests, worker_takes,
  worker_executes, Reach, start, later,
}
use command_executor.ThreadPool.Locals.{memory, set_thread_local, set_thread_local_reaches_all}

-- The client 0 has submitted 5 and called `in_all_threads`, and the worker has come to the barrier.
unfoldable pub met :
    (s : System ℕ ℕ) × Reach 1 4 immediate s
    × (s.clients 0 ≡ waits_for 0)
    × ((t : System ℕ ℕ) × Step 1 4 immediate s t × (t.clients 0 ≡ free))
unfolding test_stopped execute ℕ_discrete tally
met =
    let r0 = later start (submits 5 refl (below refl)) in
    let r1 = later r0 (worker_tests 0 (below refl) refl) in
    let r2 = later r1 (worker_takes 0 (below refl) refl refl) in
    let r3 = later r2 (worker_executes 0 succeeds (below refl) refl) in
    let r4 = later r3 (broadcast_begins 0 refl refl) in
    let r5 = later r4 (broadcast_submits 0 refl (below refl)) in
    let r6 = later r5 (broadcast_waits 0 refl) in
    let r7 = later r6 (worker_tests 0 (below refl) refl) in
    let r8 = later r7 (worker_takes 0 (below refl) refl refl) in
    let r9 = later r8 (worker_executes 0 succeeds (below refl) refl) in
    (_, r9, refl, (_, barrier_opens 0 refl refl, refl))

-- The command counts up the thread local.
abbrev count : ℕ → Executed ℕ → ℕ × ℕ → ℕ × ℕ
count c x (value, shared) = (value + c, shared)

set_thread_local_reaches_all_example :
    (memory count (λ b x. set_thread_local 7) 1 0 (later met.1 met.3.1)).0 0 ≡ 7
set_thread_local_reaches_all_example =
    set_thread_local_reaches_all count (λ b x. set_thread_local 7) 1 0 met.1 met.3.1 0 0 7
      (λ x ends. refl) met.2 met.3.2 0 (below refl)
