-- ===== src/Flush/Examples.antt =====
-- `main` of examples/flush_thread_local.rs with one number, and `flush` on a pool of one worker.
use command_executor.Base.{
  ℕ, ℕ_discrete, false, some, List, [], ◌∷◌, ◌≡◌, refl, sym, ap, ◌∙◌, update, update_same,
  update_other, tally, weigh, ltb, below, arith,
}
use command_executor.ThreadPool.{
  Client, free, ok, returned, down, init, start, succeeds, test_stopped, execute, release,
  enter_shutdown, shutdown_begins, shutdown_drained, shutdown_stores, shutdown_wakes,
  shutdown_returns, worker_tests, worker_takes, worker_executes, broadcast_begins,
  broadcast_submits, broadcast_waits,
}
use command_executor.Pipeline.Numbers.{read_results}
use command_executor.Pipeline.Examples.{below_2, unary, from_unary, count-unary, old_lines}
use command_executor.Fetch.{empty_set, insert, store, is_payload}
use command_executor.Fetch.Stages as Two
use command_executor.Fetch.Examples.{first_ended, second}
use command_executor.Flush.{flush, write_lines, write_payload}
use command_executor.Flush.Stages.{
  third_stage, flushes, closes_third, Flushing, IsOrderOf, second_moves, worker_flushes,
  flush_returns, second_joins, third_shuts_down, third_moves, third_writes, IsBegun, Flushes,
  begins, goes_on,
}
use command_executor.Flush.Outcome.{flush_outcome}

none_in : IsOrderOf empty_set []
none_in x = refl

zero_in : IsOrderOf (insert 0 empty_set) (0 ∷ [])
unfolding insert
zero_in x = ground arith

-- Only the client 0 has been in the pool.
passed :
    (clients : ℕ → Client) (c : Client)
    → ((j : ℕ) → ¬ (0 ≡ j) → clients j ≡ free)
    → (j : ℕ) → ¬ (0 ≡ j)
    → update clients 0 c j ≡ free
passed clients c h j other = update_other clients {i = 0} {j = j} c other ∙ h j other

back :
    (clients : ℕ → Client)
    → ((j : ℕ) → ¬ (0 ≡ j) → clients j ≡ free)
    → (j : ℕ) → update clients 0 free j ≡ free
back clients h j = elim (ℕ_discrete 0 j) [
  | yes same ↦ rw (← same) (update_same clients 0 free)
  | no other ↦ update_other clients {i = 0} {j = j} free other ∙ h j other
]

abbrev first_flushed : Flushing ℕ
first_flushed = record {
  stand = flushes;
  second = second;
  locals = λ i. empty_set;
  third = init;
  out = record { opened = λ i. false; file = old_lines };
}

first_flushed-IsBegun : IsBegun unary 1 first_flushed
unfolding Two.stages third_stage
first_flushed-IsBegun = record {
  begun = first_ended.0;
  reached = first_ended.1;
  at_main = first_ended.2;
  at_flush = refl;
  at_second = sym first_ended.3;
  is_running = refl;
  at_locals = sym first_ended.4;
  third_reached = start;
  no_commands = refl;
  closed = refl;
}

-- The two stages have passed the number on, and `main` has shut down the third.
all_closed :
    (s : Flushing ℕ) × Flushes unary 1 s
    × (s.stand ≡ closes_third)
    × (s.third.phase ≡ down)
    × (s.third.workers 0 ≡ returned ok)
unfolding Two.stages third_stage ℕ_discrete tally test_stopped execute release enter_shutdown flush
    write_lines write_payload store insert
all_closed =
    let begun : Flushes unary 1 first_flushed = begins first_flushed-IsBegun in
    let r0 = goes_on begun (second_moves (worker_tests 1 (below refl) refl) tt) in
    let r1 = goes_on r0 (second_moves (broadcast_begins 0 refl refl) (refl, refl)) in
    let r2 = goes_on r1 (second_moves (broadcast_submits 0 refl (below refl)) (refl, refl)) in
    let r3 = goes_on r2 (second_moves (broadcast_submits 0 refl (below refl)) (refl, refl)) in
    let r4 = goes_on r3 (second_moves (broadcast_waits 0 refl) (refl, refl)) in
    let r5 = goes_on r4 (second_moves (worker_takes 1 (below refl) refl refl) tt) in
    let r6 = goes_on r5 (second_moves (worker_tests 0 (below refl) refl) tt) in
    let r7 = goes_on r6 (second_moves (worker_takes 0 (below refl) refl refl) tt) in
    let r8 = goes_on r7 (second_moves (worker_executes 1 succeeds (below refl) refl) tt) in
    let r9 = goes_on r8 (worker_flushes 0 (below refl) refl refl (below refl)) in
    let r10 = goes_on r9 (second_moves (worker_tests 1 (below refl) refl) tt) in
    let r11 = goes_on r10 (second_moves (worker_takes 1 (below refl) refl refl) tt) in
    let r12 = goes_on r11 (worker_flushes 1 (below refl) refl refl (below refl)) in
    let r13 = goes_on r12 (flush_returns refl refl refl) in
    let r14 = goes_on r13 (
      second_moves
        (shutdown_begins refl
          (back _ (passed _ _ (passed _ _ (passed _ _ (passed _ _ (λ j other. refl)))))))
        refl) in
    let r15 = goes_on r14 (second_moves (shutdown_drained refl refl) refl) in
    let r16 = goes_on r15 (second_moves (shutdown_stores refl) refl) in
    let r17 = goes_on r16 (second_moves (worker_tests 0 (below refl) refl) tt) in
    let r18 = goes_on r17 (second_moves (worker_tests 1 (below refl) refl) tt) in
    let r19 = goes_on r18 (second_moves (shutdown_wakes refl (below refl)) refl) in
    let r20 = goes_on r19 (second_moves (shutdown_wakes refl (below refl)) refl) in
    let r21 = goes_on r20 (second_moves (shutdown_returns refl) refl) in
    let r22 = goes_on r21 (second_joins refl refl (below_2 _ refl refl)) in
    let r23 = goes_on r22 (third_moves (worker_tests 0 (below refl) refl) tt) in
    let r24 = goes_on r23 (third_moves (worker_takes 0 (below refl) refl refl) tt) in
    let r25 = goes_on r24 (third_writes [] none_in refl) in
    let r26 = goes_on r25 (third_moves (worker_tests 0 (below refl) refl) tt) in
    let r27 = goes_on r26 (third_moves (worker_takes 0 (below refl) refl refl) tt) in
    let r28 = goes_on r27 (third_writes (0 ∷ []) zero_in refl) in
    let r29 = goes_on r28 (third_shuts_down refl (shutdown_begins refl (λ j. refl)) tt) in
    let r30 = goes_on r29 (third_shuts_down refl (shutdown_drained refl refl) tt) in
    let r31 = goes_on r30 (third_shuts_down refl (shutdown_stores refl) tt) in
    let r32 = goes_on r31 (third_moves (worker_tests 0 (below refl) refl) tt) in
    let r33 = goes_on r32 (third_shuts_down refl (shutdown_wakes refl (below refl)) tt) in
    let r34 = goes_on r33 (third_shuts_down refl (shutdown_returns refl) tt) in
    (_, r34, refl, refl, refl)

flush_outcome_example :
    (result : List ℕ) × (read_results from_unary all_closed.0.out.file ≡ some result)
    × ((x : ℕ) → ltb 0 (weigh (is_payload x) result) ≡ ltb x 1)
flush_outcome_example =
    flush_outcome unary from_unary 1 1 (λ n lt. ap some (count-unary n)) (below refl) (below refl)
      all_closed.1 all_closed.2 all_closed.3 all_closed.4
