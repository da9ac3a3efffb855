-- ===== src/Pipeline/Examples.antt =====
-- A run of examples/pipeline.rs on one number, and of examples/read_process_write_pipeline.rs on one line.
use Prim.Native.String.{String}
use Prim.Native.String as Text
use Prim.Native.String.count as Count
use command_executor.Base.{
  below, ℕ, ℕ_discrete, zero, suc, ◌≤◌, ◌<◌, ◌≡◌, refl, ap, ◌∙◌, false, Option, some, List, [], ◌∷◌,
  ltb, weigh, arith,
}
use command_executor.ThreadPool.{
  test_stopped, execute, enter_shutdown, init, shutdown_begins, shutdown_drained, shutdown_stores,
  shutdown_wakes, shutdown_returns, worker_tests, worker_takes, start,
}
use command_executor.Pipeline.{
  Program, submitting, closing, Run, main_submits, main_closes, main_shuts_down, main_joins,
  worker_moves, worker_forwards, worker_writes, IsStart, Reached, starts, moves,
}
use command_executor.Pipeline.Numbers as Numbers
use command_executor.Pipeline.Files.{Output, write_line, write_command}
use command_executor.Pipeline.Numbers.{pipeline, next_payload, range, read_results, pipeline_result}
use command_executor.Pipeline.Hashes as Hashes
use command_executor.Pipeline.Hashes.{Line, process, read_process_write, read_process_write_result}

abbrev pub unary : ℕ → String
unary zero = Text.[]
unary (suc n) = Text.◌∷◌ "1" (unary n)

abbrev pub from_unary : String → Option ℕ
from_unary text = some (Text.count text)

pub count-unary : (n : ℕ) → Text.count (unary n) ≡ n
count-unary zero = Count.nil
count-unary (suc n) = Count.cons "1" (unary n) ∙ ap suc (count-unary n)

abbrev pub old_lines : List String
old_lines = "old" ∷ []

abbrev pub begun : {C W : Type 0} → Program C W → Run C W ℕ
begun P = record {
  main = submitting P.source;
  pools = λ n. init;
  world = P.world;
  written = [];
  lost = [];
}

pub begun-IsStart : {C W : Type 0} (P : Program C W) → IsStart P (begun P)
begun-IsStart P = record {
  at_main = refl;
  reached = λ n. start;
  is_running = λ n. refl;
  no_clients = λ n j. refl;
  nothing_queued = λ n. refl;
  at_loop = λ n i. tt;
  no_commands = λ n. refl;
  at_world = refl;
  none_written = refl;
  none_lost = refl;
}

pub below_1 {ℓ} : {A : Type ℓ} (f : ℕ → A) {a : A} → f 0 ≡ a → (i : ℕ) → i < 1 → f i ≡ a
below_1 f h zero lt = h
below_1 f h (suc i) lt = absurd (omega arith)

pub below_2 {ℓ} : {A : Type ℓ} (f : ℕ → A) {a : A} → f 0 ≡ a → f 1 ≡ a → (i : ℕ) → i < 2 → f i ≡ a
below_2 f h h' zero lt = h
below_2 f h h' (suc zero) lt = h'
below_2 f h h' (suc (suc i)) lt = absurd (omega arith)

pub within : {m n : ℕ} → ltb n m ≡ false → m ≤ n
within h = ground arith

-- One number goes through the three stages, and `main` closes them.
run_one : (s : Run ℕ Output ℕ) × Reached (pipeline unary 1 old_lines) s × (s.main ≡ closing 3)
unfolding Numbers.stages ℕ_discrete test_stopped execute enter_shutdown write_line write_command
    next_payload
run_one =
    let P = pipeline unary 1 old_lines in
    let r0 = moves (starts (begun-IsStart P)) (main_submits refl (refl, below refl)) in
    let r1 = moves r0 (worker_moves 0 (within refl) (worker_tests 0 (below refl) refl) tt) in
    let r2 = moves r1 (worker_moves 0 (within refl) (worker_takes 0 (below refl) refl refl) tt) in
    let r3 = moves r2 (worker_forwards 0 0 (below refl) (below refl) refl (refl, below refl)) in
    let r4 = moves r3 (worker_moves 1 (within refl) (worker_tests 0 (below refl) refl) tt) in
    let r5 = moves r4 (worker_moves 1 (within refl) (worker_takes 0 (below refl) refl refl) tt) in
    let r6 = moves r5 (worker_forwards 1 0 (below refl) (below refl) refl (refl, below refl)) in
    let r7 = moves r6 (worker_moves 2 (within refl) (worker_tests 0 (below refl) refl) tt) in
    let r8 = moves r7 (worker_moves 2 (within refl) (worker_takes 0 (below refl) refl refl) tt) in
    let r9 = moves r8 (worker_writes 0 (below refl) refl) in
    let r10 = moves r9 (main_closes refl) in
    let r11 =
      moves r10 (main_shuts_down refl (within refl) (shutdown_begins refl (λ j. refl)) tt) in
    let r12 = moves r11 (main_shuts_down refl (within refl) (shutdown_drained refl refl) tt) in
    let r13 = moves r12 (main_shuts_down refl (within refl) (shutdown_stores refl) tt) in
    let r14 = moves r13 (worker_moves 0 (within refl) (worker_tests 0 (below refl) refl) tt) in
    let r15 = moves r14 (worker_moves 0 (within refl) (worker_tests 1 (below refl) refl) tt) in
    let r16 =
      moves r15 (main_shuts_down refl (within refl) (shutdown_wakes refl (below refl)) tt) in
    let r17 =
      moves r16 (main_shuts_down refl (within refl) (shutdown_wakes refl (below refl)) tt) in
    let r18 = moves r17 (main_shuts_down refl (within refl) (shutdown_returns refl) tt) in
    let r19 = moves r18 (main_joins refl (within refl) refl (below_2 _ refl refl)) in
    let r20 =
      moves r19 (main_shuts_down refl (within refl) (shutdown_begins refl (λ j. refl)) tt) in
    let r21 = moves r20 (main_shuts_down refl (within refl) (shutdown_drained refl refl) tt) in
    let r22 = moves r21 (main_shuts_down refl (within refl) (shutdown_stores refl) tt) in
    let r23 = moves r22 (worker_moves 1 (within refl) (worker_tests 0 (below refl) refl) tt) in
    let r24 = moves r23 (worker_moves 1 (within refl) (worker_tests 1 (below refl) refl) tt) in
    let r25 =
      moves r24 (main_shuts_down refl (within refl) (shutdown_wakes refl (below refl)) tt) in
    let r26 =
      moves r25 (main_shuts_down refl (within refl) (shutdown_wakes refl (below refl)) tt) in
    let r27 = moves r26 (main_shuts_down refl (within refl) (shutdown_returns refl) tt) in
    let r28 = moves r27 (main_joins refl (within refl) refl (below_2 _ refl refl)) in
    let r29 =
      moves r28 (main_shuts_down refl (within refl) (shutdown_begins refl (λ j. refl)) tt) in
    let r30 = moves r29 (main_shuts_down refl (within refl) (shutdown_drained refl refl) tt) in
    let r31 = moves r30 (main_shuts_down refl (within refl) (shutdown_stores refl) tt) in
    let r32 = moves r31 (worker_moves 2 (within refl) (worker_tests 0 (below refl) refl) tt) in
    let r33 =
      moves r32 (main_shuts_down refl (within refl) (shutdown_wakes refl (below refl)) tt) in
    let r34 = moves r33 (main_shuts_down refl (within refl) (shutdown_returns refl) tt) in
    let r35 = moves r34 (main_joins refl (within refl) refl (below_1 _ refl)) in (_, r35, refl)

pipeline_result_example :
    (result : List ℕ) × (read_results from_unary run_one.0.world.file ≡ some result)
    × ((v : ℕ → ℕ) → weigh v result ≡ weigh v (range 0 1))
pipeline_result_example =
    pipeline_result unary from_unary 2 1 old_lines (λ n lt. ap some (count-unary n)) (omega arith)
      (omega arith) run_one.1 run_one.2

below_8 {ℓ} :
    {A : Type ℓ} (f : ℕ → A) {a : A}
    → f 0 ≡ a
    → f 1 ≡ a
    → f 2 ≡ a
    → f 3 ≡ a
    → f 4 ≡ a
    → f 5 ≡ a
    → f 6 ≡ a
    → f 7 ≡ a
    → (i : ℕ) → i < 8
    → f i ≡ a
below_8 f a0 a1 a2 a3 a4 a5 a6 a7 zero lt = a0
below_8 f a0 a1 a2 a3 a4 a5 a6 a7 (suc zero) lt = a1
below_8 f a0 a1 a2 a3 a4 a5 a6 a7 (suc (suc zero)) lt = a2
below_8 f a0 a1 a2 a3 a4 a5 a6 a7 (suc (suc (suc zero))) lt = a3
below_8 f a0 a1 a2 a3 a4 a5 a6 a7 (suc (suc (suc (suc zero)))) lt = a4
below_8 f a0 a1 a2 a3 a4 a5 a6 a7 (suc (suc (suc (suc (suc zero))))) lt = a5
below_8 f a0 a1 a2 a3 a4 a5 a6 a7 (suc (suc (suc (suc (suc (suc zero)))))) lt = a6
below_8 f a0 a1 a2 a3 a4 a5 a6 a7 (suc (suc (suc (suc (suc (suc (suc zero))))))) lt = a7
below_8 f a0 a1 a2 a3 a4 a5 a6 a7 (suc (suc (suc (suc (suc (suc (suc (suc i)))))))) lt =
    absurd (omega arith)

abbrev identity : String → String
identity text = text

abbrev one_line : List String
one_line = "a line" ∷ []

-- One line goes through the two stages, and `main` closes them.
run_line :
    (s : Run Line Output ℕ) × Reached (read_process_write identity one_line old_lines) s
    × (s.main ≡ closing 2)
unfolding Hashes.stages ℕ_discrete test_stopped execute enter_shutdown write_line write_command
    process
run_line =
    let P = read_process_write identity one_line old_lines in
    let r0 = moves (starts (begun-IsStart P)) (main_submits refl (refl, below refl)) in
    let r1 = moves r0 (worker_moves 0 (within refl) (worker_tests 0 (below refl) refl) tt) in
    let r2 = moves r1 (worker_moves 0 (within refl) (worker_takes 0 (below refl) refl refl) tt) in
    let r3 = moves r2 (worker_forwards 0 0 (below refl) (below refl) refl (refl, below refl)) in
    let r4 = moves r3 (worker_moves 1 (within refl) (worker_tests 0 (below refl) refl) tt) in
    let r5 = moves r4 (worker_moves 1 (within refl) (worker_takes 0 (below refl) refl refl) tt) in
    let r6 = moves r5 (worker_writes 0 (below refl) refl) in
    let r7 = moves r6 (main_closes refl) in
    let r8 = moves r7 (main_shuts_down refl (within refl) (shutdown_begins refl (λ j. refl)) tt) in
    let r9 = moves r8 (main_shuts_down refl (within refl) (shutdown_drained refl refl) tt) in
    let r10 = moves r9 (main_shuts_down refl (within refl) (shutdown_stores refl) tt) in
    let r11 = moves r10 (worker_moves 0 (within refl) (worker_tests 0 (below refl) refl) tt) in
    let r12 = moves r11 (worker_moves 0 (within refl) (worker_tests 1 (below refl) refl) tt) in
    let r13 = moves r12 (worker_moves 0 (within refl) (worker_tests 2 (below refl) refl) tt) in
    let r14 = moves r13 (worker_moves 0 (within refl) (worker_tests 3 (below refl) refl) tt) in
    let r15 = moves r14 (worker_moves 0 (within refl) (worker_tests 4 (below refl) refl) tt) in
    let r16 = moves r15 (worker_moves 0 (within refl) (worker_tests 5 (below refl) refl) tt) in
    let r17 = moves r16 (worker_moves 0 (within refl) (worker_tests 6 (below refl) refl) tt) in
    let r18 = moves r17 (worker_moves 0 (within refl) (worker_tests 7 (below refl) refl) tt) in
    let r19 =
      moves r18 (main_shuts_down refl (within refl) (shutdown_wakes refl (below refl)) tt) in
    let r20 =
      moves r19 (main_shuts_down refl (within refl) (shutdown_wakes refl (below refl)) tt) in
    let r21 =
      moves r20 (main_shuts_down refl (within refl) (shutdown_wakes refl (below refl)) tt) in
    let r22 =
      moves r21 (main_shuts_down refl (within refl) (shutdown_wakes refl (below refl)) tt) in
    let r23 =
      moves r22 (main_shuts_down refl (within refl) (shutdown_wakes refl (below refl)) tt) in
    let r24 =
      moves r23 (main_shuts_down refl (within refl) (shutdown_wakes refl (below refl)) tt) in
    let r25 =
      moves r24 (main_shuts_down refl (within refl) (shutdown_wakes refl (below refl)) tt) in
    let r26 =
      moves r25 (main_shuts_down refl (within refl) (shutdown_wakes refl (below refl)) tt) in
    let r27 = moves r26 (main_shuts_down refl (within refl) (shutdown_returns refl) tt) in
    let r28 =
      moves r27
        (main_joins refl (within refl) refl (below_8 _ refl refl refl refl refl refl refl refl)) in
    let r29 =
      moves r28 (main_shuts_down refl (within refl) (shutdown_begins refl (λ j. refl)) tt) in
    let r30 = moves r29 (main_shuts_down refl (within refl) (shutdown_drained refl refl) tt) in
    let r31 = moves r30 (main_shuts_down refl (within refl) (shutdown_stores refl) tt) in
    let r32 = moves r31 (worker_moves 1 (within refl) (worker_tests 0 (below refl) refl) tt) in
    let r33 =
      moves r32 (main_shuts_down refl (within refl) (shutdown_wakes refl (below refl)) tt) in
    let r34 = moves r33 (main_shuts_down refl (within refl) (shutdown_returns refl) tt) in
    let r35 = moves r34 (main_joins refl (within refl) refl (below_1 _ refl)) in (_, r35, refl)

read_process_write_result_example :
    weigh Text.count run_line.0.world.file
    ≡ weigh (λ l. Text.count (Text.◌++◌ (identity l) (Text.◌++◌ "\t" l))) one_line
read_process_write_result_example =
    read_process_write_result identity one_line old_lines (below refl) run_line.1 run_line.2
      Text.count
