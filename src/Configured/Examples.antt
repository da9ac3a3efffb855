-- ===== src/Configured/Examples.antt =====
-- A run of examples/thread_local.rs: the call of `set_thread_local`, and a command that the third worker takes.
use command_executor.Base.{ℕ, ℕ_discrete, ◌≡◌, refl, tally, below}
use command_executor.ThreadPool.{
  succeeds, free, waits_for, test_stopped, execute, release, System, submits, broadcast_begins,
  broadcast_submits, broadcast_waits, barrier_opens, worker_tests, worker_takes, worker_executes,
  start, later,
}
use command_executor.ThreadPool.Deadlock.{stays, goes_on}
use command_executor.Configured.{create_thread_pool, execute_command}
use command_executor.Configured.Kept.{
  configs, further, PoolReach, PoolStep, PoolSteps, commands_configured,
}

set :
    (s : System ℕ ℕ) × PoolReach s
    × (s.clients 0 ≡ waits_for 0)
    × ((t : System ℕ ℕ) × PoolStep s t × (t.clients 0 ≡ free) × ((u : System ℕ ℕ) × PoolSteps t u))
unfolding create_thread_pool test_stopped execute release ℕ_discrete tally
set =
    let r0 = later start (broadcast_begins 0 refl refl) in
    let r1 = later r0 (broadcast_submits 0 refl (below refl)) in
    let r2 = later r1 (broadcast_submits 0 refl (below refl)) in
    let r3 = later r2 (broadcast_submits 0 refl (below refl)) in
    let r4 = later r3 (broadcast_submits 0 refl (below refl)) in
    let r5 = later r4 (broadcast_waits 0 refl) in
    let r6 = later r5 (worker_tests 0 (below refl) refl) in
    let r7 = later r6 (worker_takes 0 (below refl) refl refl) in
    let r8 = later r7 (worker_executes 0 succeeds (below refl) refl) in
    let r9 = later r8 (worker_tests 1 (below refl) refl) in
    let r10 = later r9 (worker_takes 1 (below refl) refl refl) in
    let r11 = later r10 (worker_executes 1 succeeds (below refl) refl) in
    let r12 = later r11 (worker_tests 2 (below refl) refl) in
    let r13 = later r12 (worker_takes 2 (below refl) refl refl) in
    let r14 = later r13 (worker_executes 2 succeeds (below refl) refl) in
    let r15 = later r14 (worker_tests 3 (below refl) refl) in
    let r16 = later r15 (worker_takes 3 (below refl) refl refl) in
    let r17 = later r16 (worker_executes 3 succeeds (below refl) refl) in
    (
      _,
      r17,
      refl,
      (
        _,
        barrier_opens 0 refl refl,
        refl,
        (
          _,
          goes_on
              (goes_on (goes_on stays (submits 7 refl (below refl)))
                (worker_tests 2 (below refl) refl))
              (worker_takes 2 (below refl) refl refl),
        ),
      ),
    )

commands_configured_example :
    execute_command {X = ℕ} ((configs (further (later set.1 set.3.1) set.3.3.1)).0 2) ≡ succeeds
unfolding create_thread_pool
commands_configured_example =
    commands_configured set.1 set.3.1 0 0 set.2 set.3.2 set.3.3.1 2 (below refl)
