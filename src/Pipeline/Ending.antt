-- ===== src/Pipeline/Ending.antt =====
-- Runs of examples/pipeline.rs are finite: every move lowers what there is still to do.
use command_executor.Base.{
  ℕ, suc, ◌+◌, ◌-◌, ◌*◌, ◌≤◌, ◌<◌, ◌≡◌, ap, length, arith, update, update_other, tally_at,
  tally_at-update,
}
use command_executor.ThreadPool.{
  Result, user, Executed, succeeds, fails, executes, System, enqueued,
}
use command_executor.Pipeline.{
  Program, Main, submitting, closing, failed, Run, OfOwner, OfWorker, PoolStep, executed, Move,
  main_submits, main_gives_up, main_closes, main_shuts_down, main_joins, main_join_fails,
  worker_moves, worker_forwards, worker_writes, worker_fails_to_write,
}
use command_executor.Pipeline.Costs.{
  pool_cost, enqueued-cost, executed-cost, owner-lowers, worker-lowers,
}

module _ {ℓ} {C W : Type ℓ} (P : Program C W) where
  -- A command costs three in every stage that it comes through.
  abbrev rate : ℕ → ℕ
  rate n = 3 * (suc P.last - n)

  abbrev main_cost : Main C → ℕ
  main_cost (submitting rest) = (rate 0 + 1) * length rest + P.last + 3
  main_cost (closing n) = suc P.last - n
  main_cost failed = 0

module _ {ℓ} {C W X : Type ℓ} (P : Program C W) where
  unfoldable pub stage_cost : ℕ → System C X → ℕ
  stage_cost n p = pool_cost (rate P n) (P.stages n).tasks p

  abbrev pub run_cost : Run C W X → ℕ
  run_cost s = main_cost P s.main + tally_at stage_cost (suc P.last) s.pools

  stage-enqueued :
      (n : ℕ) (p : System C X) (c : C)
      → stage_cost n (enqueued (user c) p) ≡ stage_cost n p + rate P n
  unfolding stage_cost
  stage-enqueued n p c = enqueued-cost (rate P n) (P.stages n).tasks p (user c)

  stage-executed :
      (n : ℕ) (p : System C X) (i : ℕ) {c : C} {r : Result X} (x : Executed X)
      → i < (P.stages n).tasks
      → p.workers i ≡ executes (user c) r
      → stage_cost n (executed p i c r x) + rate P n ≤ stage_cost n p + 2
  unfolding stage_cost
  stage-executed n p i x lt e = executed-cost (rate P n) (P.stages n).tasks p i x lt e

  stage-owner :
      (n : ℕ) {p q : System C X} (st : PoolStep P n p q)
      → OfOwner st
      → stage_cost n q < stage_cost n p
  unfolding stage_cost
  stage-owner n st o = owner-lowers (rate P n) (P.stages n).tasks st o

  stage-worker :
      (n : ℕ) {p q : System C X} (st : PoolStep P n p q)
      → OfWorker st
      → stage_cost n q < stage_cost n p
  unfolding stage_cost
  stage-worker n st o = worker-lowers (rate P n) (P.stages n).tasks st o

  replaced :
      (pools : ℕ → System C X) (k : ℕ) (p : System C X)
      → k ≤ P.last
      → tally_at stage_cost (suc P.last) (update pools k p) + stage_cost k (pools k)
        ≡ tally_at stage_cost (suc P.last) pools + stage_cost k p
  replaced pools k p le = tally_at-update stage_cost (suc P.last) k pools p (omega arith)

  pub Move-lowers : {s t : Run C W X} → Move P s t → run_cost t < run_cost s
  Move-lowers {s} (main_submits {c} {rest} e room) = omega (
    arith,
    ap (main_cost P) e,
    replaced s.pools 0 (enqueued (user c) (s.pools 0)) (omega arith),
    stage-enqueued 0 (s.pools 0) c,
  )
  Move-lowers (main_gives_up e) = omega (arith, ap (main_cost P) e)
  Move-lowers (main_closes e) = omega (arith, ap (main_cost P) e)
  Move-lowers {s} (main_shuts_down {n} {p} e le st o) =
      omega (arith, replaced s.pools n p le, stage-owner n st o)
  Move-lowers (main_joins e le ph all) = omega (arith, ap (main_cost P) e)
  Move-lowers (main_join_fails i e le lt ph bad over) = omega (arith, ap (main_cost P) e)
  Move-lowers {s} (worker_moves n {p} le st o) =
      omega (arith, replaced s.pools n p le, stage-worker n st o)
  Move-lowers {s} (worker_forwards n i {c} {r} below lt e room) =
      let p = executed (s.pools n) i c r succeeds in
      let q = enqueued (user (P.forward n c)) (s.pools (suc n)) in
      omega (
        arith,
        replaced s.pools n p (omega arith),
        replaced (update s.pools n p) (suc n) q (omega arith),
        ap (stage_cost (suc n)) (update_other s.pools {i = n} {j = suc n} p (λ same. omega arith)),
        stage-executed n (s.pools n) i succeeds lt e,
        stage-enqueued (suc n) (s.pools (suc n)) (P.forward n c),
      )
  Move-lowers {s} (worker_writes i {c} {r} lt e) = omega (
    arith,
    replaced s.pools P.last (executed (s.pools P.last) i c r succeeds) (omega arith),
    stage-executed P.last (s.pools P.last) i succeeds lt e,
  )
  Move-lowers {s} (worker_fails_to_write i {c} {r} x may lt e) = omega (
    arith,
    replaced s.pools P.last (executed (s.pools P.last) i c r (fails x)) (omega arith),
    stage-executed P.last (s.pools P.last) i (fails x) lt e,
  )

  -- A number of moves, one after the other.
  pub data Moves (s : Run C W X) : ℕ → Run C W X → Type ℓ where
    none : Moves s 0 s
    one_more : {n : ℕ} {t u : Run C W X} → Moves s n t → Move P t u → Moves s (suc n) u

  -- However `main` and the workers of all stages take turns, and whatever fails: every move lowers the
  -- cost of what is to do, so that a run makes no more moves than the state that it starts from costs.
  pub moves_bounded : {s t : Run C W X} {n : ℕ} → Moves s n t → n + run_cost t ≤ run_cost s
  moves_bounded none = omega arith
  moves_bounded (one_more ms m) = omega (arith, moves_bounded ms, Move-lowers m)
