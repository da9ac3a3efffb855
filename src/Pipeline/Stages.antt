-- ===== src/Pipeline/Stages.antt =====
-- What the steps of one pool of examples/pipeline.rs do to the commands of its stage.
use command_executor.Base.{
  ℕ, ◌+◌, ◌<◌, ◌≡◌, refl, [], ◌∷◌, weigh, weigh-append, arith, update, update_same, update_other,
  ℕ_discrete,
}
use command_executor.ThreadPool.{
  ShutdownMode, Result, ok, err, Command, user, empty, run_in_all_threads, Executed, Worker,
  executes, returned, System, enqueued, Step, shutdown_begins, shutdown_drained, shutdown_stores,
  shutdown_wakes, shutdown_returns, worker_tests, worker_takes, worker_executes,
}
use command_executor.ThreadPool.Failures.{HasFailed, test_stopped-HasFailed, execute-HasFailed}
use command_executor.Pipeline.{OfOwner, OfWorker, OfPool, of_client, executed}

of_client-OfPool {ℓ} : {C : Type ℓ} (v : C → ℕ) (c : Command C) → OfPool c → of_client v c ≡ 0
of_client-OfPool v empty h = refl
of_client-OfPool v (run_in_all_threads b) h = refl
of_client-OfPool v (user c) h = absurd h

module _ {ℓ} {C X : Type ℓ} where
  -- The clients' commands that were submitted to a pool, and that it executed.
  abbrev pub entered : (C → ℕ) → System C X → ℕ
  entered v s = weigh (of_client v) s.submitted

  abbrev pub left : (C → ℕ) → System C X → ℕ
  left v s = weigh (of_client v) s.completed

  pub changed-HasFailed :
      (workers : ℕ → Worker C X) (i j : ℕ) {a : Worker C X} (b : Worker C X)
      → workers j ≡ a
      → (HasFailed a → HasFailed b)
      → HasFailed (workers i)
      → HasFailed (update workers j b i)
  changed-HasFailed workers i j b e f h = elim (ℕ_discrete j i) [
    | yes same ↦ rw (← same, update_same workers j b) (f (rw e at (rw (← same) at h)))
    | no other ↦ rw (update_other workers {i = j} {j = i} b other) h
  ]

module _ {ℓ} {C X : Type ℓ} where
  pub executed-left :
      (v : C → ℕ) (p : System C X) (i : ℕ) (c : C) (r : Result X) (x : Executed X)
      → left v (executed p i c r x) ≡ left v p + v c
  executed-left v p i c r x = omega (arith, weigh-append (of_client v) p.completed (user c ∷ []))

  pub enqueued-entered :
      (v : C → ℕ) (p : System C X) (c : C) → entered v (enqueued (user c) p) ≡ entered v p + v c
  enqueued-entered v p c = omega (arith, weigh-append (of_client v) p.submitted (user c ∷ []))

  pub executed-HasFailed :
      (p : System C X) (i : ℕ) {c : C} {r : Result X} (x : Executed X)
      → p.workers i ≡ executes (user c) r
      → (j : ℕ) → HasFailed (p.workers j)
      → HasFailed ((executed p i c r x).workers j)
  executed-HasFailed p i {c} {r} x e j h =
      changed-HasFailed p.workers j i _ e (execute-HasFailed (user c) r x) h

module _ {ℓ} {C X : Type ℓ} {tasks capacity : ℕ} {mode : ShutdownMode} where
  -- Neither the owner nor a worker on its own submits or executes a command of a stage.
  pub owner-accounts :
      (v : C → ℕ) {s t : System C X} (st : Step tasks capacity mode s t)
      → OfOwner st
      → (entered v t ≡ entered v s) × (left v t ≡ left v s)
  owner-accounts v (shutdown_begins ph h) o = (refl, refl)
  owner-accounts v (shutdown_drained ph e) o = (refl, refl)
  owner-accounts v (shutdown_stores ph) o = (refl, refl)
  owner-accounts v {s} (shutdown_wakes ph room) o =
      (omega (arith, weigh-append (of_client v) s.submitted (Command.empty ∷ [])), refl)
  owner-accounts v (shutdown_returns ph) o = (refl, refl)
  owner-accounts v _ o = absurd o

  pub worker-accounts :
      (v : C → ℕ) {s t : System C X} (st : Step tasks capacity mode s t)
      → OfWorker st
      → (entered v t ≡ entered v s) × (left v t ≡ left v s)
  worker-accounts v (worker_tests i lt e) o = (refl, refl)
  worker-accounts v (worker_takes i lt e q) o = (refl, refl)
  worker-accounts v {s} (worker_executes i {c = c} x lt e) o =
      (refl, omega (arith, weigh-append (of_client v) s.completed (c ∷ []), of_client-OfPool v c o))
  worker-accounts v _ o = absurd o

  -- A worker that has ended takes no step.
  pub ended-OfWorker :
      {s t : System C X} (st : Step tasks capacity mode s t)
      → OfWorker st
      → ¬ ((i : ℕ) → i < tasks → s.workers i ≡ returned ok)
  ended-OfWorker (worker_tests i lt e) o h = let over = h i lt in cc
  ended-OfWorker (worker_takes i lt e q) o h = let over = h i lt in cc
  ended-OfWorker (worker_executes i x lt e) o h = let over = h i lt in cc
  ended-OfWorker _ o h = absurd o

  pub owner-HasFailed :
      {s t : System C X} (st : Step tasks capacity mode s t)
      → OfOwner st
      → (i : ℕ) → HasFailed (s.workers i)
      → HasFailed (t.workers i)
  owner-HasFailed (shutdown_begins ph h) o i f = f
  owner-HasFailed (shutdown_drained ph e) o i f = f
  owner-HasFailed (shutdown_stores ph) o i f = f
  owner-HasFailed (shutdown_wakes ph room) o i f = f
  owner-HasFailed (shutdown_returns ph) o i f = f
  owner-HasFailed _ o i f = absurd o

  pub worker-HasFailed :
      {s t : System C X} (st : Step tasks capacity mode s t)
      → OfWorker st
      → (i : ℕ) → HasFailed (s.workers i)
      → HasFailed (t.workers i)
  worker-HasFailed {s} (worker_tests j {r} lt e) o i f =
      changed-HasFailed s.workers i j _ e (test_stopped-HasFailed C s.stopped r) f
  worker-HasFailed {s} (worker_takes j {r = ok} {c = c} lt e q) o i f =
      changed-HasFailed s.workers i j (executes c ok) e (λ h. h) f
  worker-HasFailed {s} (worker_takes j {r = err x} {c = c} lt e q) o i f =
      changed-HasFailed s.workers i j (executes c (err x)) e (λ h. tt) f
  worker-HasFailed {s} (worker_executes j {r} {c} x lt e) o i f =
      changed-HasFailed s.workers i j _ e (execute-HasFailed c r x) f
  worker-HasFailed _ o i f = absurd o
