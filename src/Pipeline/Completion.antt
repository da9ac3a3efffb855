-- ===== src/Pipeline/Completion.antt =====
-- Every run of examples/pipeline.rs without errors can be brought to its end.
use command_executor.Base.{
  ℕ, zero, suc, ◌≤◌, ◌<◌, ◌≡◌, ◌≢◌, refl, ap, ◌⊎◌, inl, inr, [], arith, ℕ_discrete,
}
use command_executor.ThreadPool.{
  complete_pending, ok, err, Worker, tests, dequeues, executes, waits_at, returned, panicked,
}
use command_executor.ThreadPool.Shutdown.{IsOver}
use command_executor.Pipeline.{
  Program, Main, submitting, closing, failed, Run, Move, main_submits, main_gives_up, main_closes,
  main_shuts_down, main_joins, main_join_fails, worker_moves, worker_forwards, worker_writes,
  worker_fails_to_write, Reached, moves,
}
use command_executor.Pipeline.Progress.{IsRegular, never_stuck}
use command_executor.Pipeline.Fine.{IsFine, Reached-AllFine}
use command_executor.Pipeline.Ending.{run_cost, Move-lowers}

over_fine {ℓ} : {C X : Type ℓ} (w : Worker C X) → IsOver w → IsFine w → w ≡ returned ok
over_fine (returned ok) o f = refl
over_fine (returned (err e)) o f = absurd f
over_fine panicked o f = absurd f
over_fine (tests r) o f = absurd o
over_fine (dequeues r) o f = absurd o
over_fine (executes c r) o f = absurd o
over_fine (waits_at b r) o f = absurd o

module _ {ℓ} {C W X : Type ℓ} (P : Program C W) where
  -- Moves that are no error of a lock, of the source or of the file, one after the other.
  pub data Continues : Run C W X → Run C W X → Type ℓ where
    here : {s : Run C W X} → Continues s s
    onward : {s t u : Run C W X} (m : Move P s t) → IsRegular m → Continues t u → Continues s u

  -- Where no line was lost, such a move loses none, and `main` does not fail.
  regular-kept :
      {s t : Run C W X}
      → Reached P s
      → s.lost ≡ []
      → s.main ≢ failed
      → (m : Move P s t) → IsRegular m
      → (t.lost ≡ []) × (t.main ≢ failed)
  regular-kept r none alive (main_submits e room) g = (none, λ x. cc)
  regular-kept r none alive (main_gives_up e) g = absurd g
  regular-kept r none alive (main_closes e) g = (none, λ x. cc)
  regular-kept r none alive (main_shuts_down e le st o) g = (none, alive)
  regular-kept r none alive (main_joins e le ph ended) g = (none, λ x. cc)
  regular-kept {s} r none alive (main_join_fails {n} i e le lt ph bad over) g =
      absurd (bad (over_fine ((s.pools n).workers i) (over i lt) (Reached-AllFine P r none n i)))
  regular-kept r none alive (worker_moves n le st o) g = (none, alive)
  regular-kept r none alive (worker_forwards n i below lt e room) g = (none, alive)
  regular-kept r none alive (worker_writes i lt e) g = (none, alive)
  regular-kept r none alive (worker_fails_to_write i x may lt e) g = absurd g

closed_or_not {ℓ} :
    {C : Type ℓ} (last : ℕ) (main : Main C) → (main ≡ closing last) ⊎ (main ≢ closing last)
closed_or_not last failed = inr (λ e. cc)
closed_or_not last (submitting rest) = inr (λ e. cc)
closed_or_not last (closing n) = elim (ℕ_discrete n last) [
  | yes same ↦ inl (ap closing same)
  | no other ↦ inr (λ e. other (cc))
]

module _ {ℓ} {C W X : Type ℓ} (P : Program C W)
    (modes : (n : ℕ) → (P.stages n).shutdown_mode ≡ complete_pending)
    (ready : (n : ℕ) → 0 < (P.stages n).tasks)
    (fits : (n : ℕ) → (P.stages n).tasks ≤ (P.stages n).queue_size) where
  -- The moves are counted down by what they cost.
  completes_within :
      (fuel : ℕ) {s : Run C W X}
      → Reached P s
      → s.lost ≡ []
      → s.main ≢ failed
      → run_cost P s ≤ fuel
      → (t : Run C W X) × Continues P s t × (t.main ≡ closing (suc P.last))
  completes_within zero {s} r none alive enough = elim (closed_or_not (suc P.last) s.main) [
    | inl closed ↦ (s, here, closed)
    | inr unfinished ↦
        let (t, m, regular) = never_stuck P modes ready fits r alive unfinished in
        absurd (omega (arith, Move-lowers P m))
  ]
  completes_within (suc fuel) {s} r none alive enough = elim (closed_or_not (suc P.last) s.main) [
    | inl closed ↦ (s, here, closed)
    | inr unfinished ↦
        let (t, m, regular) = never_stuck P modes ready fits r alive unfinished in
        let (none', alive') = regular-kept P r none alive m regular in
        let (u, more, closed) =
          completes_within fuel (moves r m) none' alive' (omega (arith, Move-lowers P m)) in
        (u, onward m regular more, closed)
  ]

  -- Where every stage is shut down with `CompletePending`, and has a worker and a place in its queue
  -- for each of its workers: from every state that a run
  -- reaches, in which no line was lost and `main` has not failed, moves that are no error of a lock, of
  -- the source or of the file bring `main` to the end of its last join, without a join that fails.
  pub main_completes :
      {s : Run C W X}
      → Reached P s
      → s.lost ≡ []
      → s.main ≢ failed
      → (t : Run C W X) × Continues P s t × (t.main ≡ closing (suc P.last))
  main_completes {s} r none alive = completes_within (run_cost P s) r none alive (omega arith)
