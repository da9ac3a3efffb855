-- ===== src/Printing/Examples.antt =====
-- A run of examples/thread_pool.rs with one number, which the third worker prints.
use Prim.Native.String.{String}
use command_executor.Base.{
  ℕ, ℕ_discrete, zero, suc, ◌<◌, ◌≡◌, refl, List, map, weigh, All, below, arith,
}
use command_executor.ThreadPool.{
  test_stopped, execute, enter_shutdown, shutdown_begins, shutdown_drained, shutdown_stores,
  shutdown_wakes, shutdown_returns, worker_tests, worker_takes,
}
use command_executor.Pipeline.{
  closing, Run, main_submits, main_closes, main_shuts_down, main_joins, worker_moves, worker_writes,
  Reached, starts, moves,
}
use command_executor.Pipeline.Numbers.{range}
use command_executor.Pipeline.Examples.{begun-IsStart, within, unary}
use command_executor.Printing.{create_thread_pool, line, thread_pool}
use command_executor.Printing.Printed.{source_printed}

below_4 {ℓ} :
    {A : Type ℓ} (f : ℕ → A) {a : A}
    → f 0 ≡ a
    → f 1 ≡ a
    → f 2 ≡ a
    → f 3 ≡ a
    → (i : ℕ) → i < 4
    → f i ≡ a
below_4 f h0 h1 h2 h3 zero lt = h0
below_4 f h0 h1 h2 h3 (suc zero) lt = h1
below_4 f h0 h1 h2 h3 (suc (suc zero)) lt = h2
below_4 f h0 h1 h2 h3 (suc (suc (suc zero))) lt = h3
below_4 f h0 h1 h2 h3 (suc (suc (suc (suc i)))) lt = absurd (omega arith)

print_one : (s : Run ℕ (List String) ℕ) × Reached (thread_pool unary 1) s × (s.main ≡ closing 1)
unfolding create_thread_pool ℕ_discrete test_stopped execute enter_shutdown
print_one =
    let P = thread_pool unary 1 in
    let r0 = moves (starts (begun-IsStart P)) (main_submits refl (refl, below refl)) in
    let r1 = moves r0 (worker_moves 0 (within refl) (worker_tests 2 (below refl) refl) tt) in
    let r2 = moves r1 (worker_moves 0 (within refl) (worker_takes 2 (below refl) refl refl) tt) in
    let r3 = moves r2 (worker_writes 2 (below refl) refl) in
    let r4 = moves r3 (main_closes refl) in
    let r5 = moves r4 (main_shuts_down refl (within refl) (shutdown_begins refl (λ j. refl)) tt) in
    let r6 = moves r5 (main_shuts_down refl (within refl) (shutdown_drained refl refl) tt) in
    let r7 = moves r6 (main_shuts_down refl (within refl) (shutdown_stores refl) tt) in
    let r8 = moves r7 (worker_moves 0 (within refl) (worker_tests 0 (below refl) refl) tt) in
    let r9 = moves r8 (worker_moves 0 (within refl) (worker_tests 1 (below refl) refl) tt) in
    let r10 = moves r9 (worker_moves 0 (within refl) (worker_tests 2 (below refl) refl) tt) in
    let r11 = moves r10 (worker_moves 0 (within refl) (worker_tests 3 (below refl) refl) tt) in
    let r12 =
      moves r11 (main_shuts_down refl (within refl) (shutdown_wakes refl (below refl)) tt) in
    let r13 =
      moves r12 (main_shuts_down refl (within refl) (shutdown_wakes refl (below refl)) tt) in
    let r14 =
      moves r13 (main_shuts_down refl (within refl) (shutdown_wakes refl (below refl)) tt) in
    let r15 =
      moves r14 (main_shuts_down refl (within refl) (shutdown_wakes refl (below refl)) tt) in
    let r16 = moves r15 (main_shuts_down refl (within refl) (shutdown_returns refl) tt) in
    let r17 = moves r16 (main_joins refl (within refl) refl (below_4 _ refl refl refl refl)) in
    (_, r17, refl)

source_printed_example :
    (executed : List (ℕ × ℕ)) × (print_one.0.world ≡ map (λ d. line unary d.0 d.1) executed)
    × All (λ d. d.1 < 4) executed
    × ((v : ℕ → ℕ) → weigh (λ d. v d.0) executed ≡ weigh v (range 0 1))
source_printed_example = source_printed unary 1 print_one.1 print_one.2
