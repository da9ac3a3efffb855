-- ===== src/Pipeline/ProgressExamples.antt =====
-- examples/pipeline.rs with one number in its first queue and `main` in `shutdown`: the run goes on, and
-- ends.
use command_executor.Base.{[], below, ℕ, zero, suc, ◌+◌, ◌≤◌, ◌<◌, ◌≡◌, refl, arith}
use command_executor.Pipeline.{
  Program, closing, Run, main_submits, main_closes, Reached, starts, moves,
}
use command_executor.Pipeline.Files.{Output}
use command_executor.Pipeline.Numbers.{stages, pipeline, modes}
use command_executor.Pipeline.Progress.{CanMove, never_stuck}
use command_executor.Pipeline.Completion.{Continues, main_completes}
use command_executor.Pipeline.Ending.{Moves, none, one_more, run_cost, moves_bounded}
use command_executor.Pipeline.Examples.{old_lines, unary, begun, begun-IsStart}

abbrev one_number : Program ℕ Output
one_number = pipeline unary 1 old_lines

ready : (n : ℕ) → 0 < (stages n).tasks
unfolding stages
ready zero = omega arith
ready (suc zero) = omega arith
ready (suc (suc n)) = omega arith

fits : (n : ℕ) → (stages n).tasks ≤ (stages n).queue_size
unfolding stages
fits zero = omega arith
fits (suc zero) = omega arith
fits (suc (suc n)) = omega arith

closing_first :
    (s : Run ℕ Output ℕ) × Reached one_number s
    × (s.main ≡ closing 0)
    × Moves one_number (begun one_number) 2 s
    × (s.lost ≡ [])
unfolding stages
closing_first = (
  _,
  moves (moves (starts (begun-IsStart one_number)) (main_submits refl (refl, below refl)))
      (main_closes refl),
  refl,
  one_more (one_more none (main_submits refl (refl, below refl))) (main_closes refl),
  refl,
)

never_stuck_example : CanMove one_number closing_first.0
never_stuck_example =
    never_stuck one_number modes ready fits closing_first.1 (λ e. let here = closing_first.2 in cc)
      (λ e. let here = closing_first.2 in cc)

moves_bounded_example :
    2 + run_cost one_number closing_first.0 ≤ run_cost one_number (begun {C = ℕ} one_number)
moves_bounded_example = moves_bounded one_number closing_first.3

main_completes_example :
    (t : Run ℕ Output ℕ) × Continues one_number closing_first.0 t × (t.main ≡ closing 3)
main_completes_example =
    main_completes one_number modes ready fits closing_first.1 closing_first.4
      (λ e. let here = closing_first.2 in cc)
