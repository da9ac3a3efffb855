-- ===== src/Fetch/Examples.antt =====
-- `main` of examples/fetch_thread_local.rs with one number.
use command_executor.Base.{ℕ, ℕ_discrete, ap, ◌≡◌, refl, tally, ltb, below}
use command_executor.ThreadPool.{
  Result, waits_at, tests, later, user, enqueued, succeeds, test_stopped, execute, enter_shutdown,
  free, waits_for, System, shutdown_begins, shutdown_drained, shutdown_stores, shutdown_wakes,
  shutdown_returns, worker_tests, worker_takes, worker_executes, broadcast_begins,
  broadcast_submits, broadcast_waits, barrier_opens,
}
use command_executor.Pipeline.{
  closing, Run, Reached, main_submits, main_closes, main_shuts_down, main_joins, worker_moves,
  worker_forwards, starts, moves,
}
use command_executor.Pipeline.Examples.{begun, begun-IsStart, below_2, within}
use command_executor.Fetch.{HashSet, empty_set}
use command_executor.Fetch.Sets.{carry_sets}
use command_executor.Fetch.Stages as Two
use command_executor.Fetch.Stages.{
  next_payload, store_numbers, SecondStep, Fetching, calls, goes_on,
}
use command_executor.Fetch.Outcome.{fetch_outcome}
use command_executor.Fetch.Once.{executions, in_all_threads_runs_once}
use command_executor.ThreadPool.LocalsExamples.{met}

-- The number has gone through the first stage, which `main` has closed.
abbrev pub second : System ℕ ℕ
unfolding Two.stages
second = enqueued (user 0) ((begun (store_numbers 1)).pools 1)

pub first_ended :
    (s : Run ℕ (ℕ → HashSet) ℕ) × Reached (store_numbers 1) s
    × (s.main ≡ closing 1)
    × (s.pools 1 ≡ second)
    × (s.world ≡ (λ i. empty_set))
unfolding Two.stages ℕ_discrete tally test_stopped execute enter_shutdown next_payload
first_ended =
    let P = store_numbers 1 in
    let r0 = moves (starts (begun-IsStart P)) (main_submits refl (refl, below refl)) in
    let r1 = moves r0 (worker_moves 0 (within refl) (worker_tests 0 (below refl) refl) tt) in
    let r2 = moves r1 (worker_moves 0 (within refl) (worker_takes 0 (below refl) refl refl) tt) in
    let r3 = moves r2 (worker_forwards 0 0 (below refl) (below refl) refl (refl, below refl)) in
    let r4 = moves r3 (main_closes refl) in
    let r5 = moves r4 (main_shuts_down refl (within refl) (shutdown_begins refl (λ j. refl)) tt) in
    let r6 = moves r5 (main_shuts_down refl (within refl) (shutdown_drained refl refl) tt) in
    let r7 = moves r6 (main_shuts_down refl (within refl) (shutdown_stores refl) tt) in
    let r8 = moves r7 (worker_moves 0 (within refl) (worker_tests 0 (below refl) refl) tt) in
    let r9 = moves r8 (worker_moves 0 (within refl) (worker_tests 1 (below refl) refl) tt) in
    let r10 = moves r9 (main_shuts_down refl (within refl) (shutdown_wakes refl (below refl)) tt) in
    let r11 =
      moves r10 (main_shuts_down refl (within refl) (shutdown_wakes refl (below refl)) tt) in
    let r12 = moves r11 (main_shuts_down refl (within refl) (shutdown_returns refl) tt) in
    let r13 = moves r12 (main_joins refl (within refl) refl (below_2 _ refl refl)) in
    (_, r13, refl, refl, refl)

second_begins : Fetching 1 second (λ i. empty_set, empty_set)
unfolding Two.stages
second_begins =
    let start : Fetching 1 (first_ended.0.pools 1) (first_ended.0.world, empty_set) =
      calls first_ended.1 first_ended.2 (ap (λ p. p.phase) first_ended.3) in
    rw (first_ended.3, first_ended.4) at start

-- The second stage has stored it, and `main` and the two workers of the stage have come to the barrier.
gathered :
    (p : System ℕ ℕ) × (m : (ℕ → HashSet) × HashSet) × Fetching 1 p m
    × (p.clients 0 ≡ waits_for 0)
    × ((q : System ℕ ℕ) × SecondStep 1 p q × (q.clients 0 ≡ free))
unfolding Two.stages ℕ_discrete tally test_stopped execute enter_shutdown
gathered =
    let f0 = goes_on (second_begins) (worker_tests 1 (below refl) refl) tt in
    let f1 = goes_on f0 (broadcast_begins 0 refl refl) refl in
    let f2 = goes_on f1 (broadcast_submits 0 refl (below refl)) refl in
    let f3 = goes_on f2 (broadcast_submits 0 refl (below refl)) refl in
    let f4 = goes_on f3 (broadcast_waits 0 refl) refl in
    let f5 = goes_on f4 (worker_takes 1 (below refl) refl refl) tt in
    let f6 = goes_on f5 (worker_tests 0 (below refl) refl) tt in
    let f7 = goes_on f6 (worker_takes 0 (below refl) refl refl) tt in
    let f8 = goes_on f7 (worker_executes 1 succeeds (below refl) refl) tt in
    let f9 = goes_on f8 (worker_executes 0 succeeds (below refl) refl) tt in
    let f10 = goes_on f9 (worker_tests 1 (below refl) refl) tt in
    let f11 = goes_on f10 (worker_takes 1 (below refl) refl refl) tt in
    let f12 = goes_on f11 (worker_executes 1 succeeds (below refl) refl) tt in
    (_, _, f12, refl, (_, barrier_opens 0 refl refl, refl))

fetch_outcome_example : (carry_sets gathered.4.1 gathered.1).1 0 ≡ ltb 0 1
fetch_outcome_example = fetch_outcome 1 0 gathered.2 gathered.4.1 gathered.3 gathered.4.2 0

-- A pool of one worker, which has run the function of a call.
in_all_threads_runs_once_example :
    (executions 0 (later met.1 met.3.1) 0 ≡ 1)
    × ((x : Result ℕ) × (met.0.workers 0 ≡ waits_at 0 x) × (met.3.0.workers 0 ≡ tests x))
in_all_threads_runs_once_example =
    in_all_threads_runs_once met.1 met.3.1 0 0 met.2 met.3.2 0 (below refl)
