-- ===== src/Pipeline/Fine.antt =====
-- While no write of examples/pipeline.rs has failed, no worker has an error.
use command_executor.Base.{
  ℕ, suc, ◌≡◌, ap, Bool, true, false, [], update, update_all, arith, length, length-snoc,
}
use command_executor.ThreadPool.{
  ShutdownMode, Result, ok, err, Command, user, empty, run_in_all_threads, Executed, succeeds,
  Worker, tests, dequeues, executes, returned, execute, test_stopped, System, Step, shutdown_begins,
  shutdown_drained, shutdown_stores, shutdown_wakes, shutdown_returns, worker_tests, worker_takes,
  worker_executes,
}
use command_executor.Pipeline.{
  Program, Run, OfOwner, OfWorker, OfPool, executed, IsAtLoop, Move, main_submits, main_shuts_down,
  worker_moves, worker_forwards, worker_writes, worker_fails_to_write, Reached, starts, moves,
}
use command_executor.Pipeline.Fitness.{IsPlain, AllFit}
use command_executor.Pipeline.Alive.{Reached-IsAlive}

module _ {ℓ} {C X : Type ℓ} where
  -- The local `r` of the worker is `Ok`.
  abbrev pub IsFine : Worker C X → Type 0
  IsFine (tests ok) = Unit
  IsFine (dequeues ok) = Unit
  IsFine (executes c ok) = Unit
  IsFine (returned ok) = Unit
  IsFine _ = ⊥

  abbrev pub AllFine : System C X → Type 0
  AllFine p = (i : ℕ) → IsFine (p.workers i)

  IsAtLoop-IsFine : (w : Worker C X) → IsAtLoop w → IsFine w
  IsAtLoop-IsFine (tests ok) h = tt
  IsAtLoop-IsFine (dequeues ok) h = tt
  IsAtLoop-IsFine _ h = absurd h

  executed-IsFine :
      (c : Command C) (r : Result X) (x : Executed X)
      → OfPool c
      → IsPlain c
      → IsFine (executes c r)
      → IsFine (execute c r x)
  unfolding execute
  executed-IsFine empty ok x o h f = tt
  executed-IsFine empty (err e) x o h f = absurd f
  executed-IsFine (user c) r x o h f = absurd o
  executed-IsFine (run_in_all_threads b) r x o h f = absurd h

  succeeded-AllFine :
      (p : System C X) (i : ℕ) (c : C) (r : Result X)
      → p.workers i ≡ executes (user c) r
      → AllFine p
      → AllFine (executed p i c r succeeds)
  unfolding execute
  succeeded-AllFine p i c ok e f = update_all IsFine p.workers i _ f tt
  succeeded-AllFine p i c (err x) e f = absurd (rw e at (f i))

tested-IsFine {ℓ} :
    (C : Type ℓ) {X : Type ℓ} (stopped : Bool) (r : Result X)
    → IsFine {C = C} (tests r)
    → IsFine {C = C} (test_stopped stopped r)
unfolding test_stopped
tested-IsFine C true ok f = tt
tested-IsFine C false ok f = tt
tested-IsFine C stopped (err e) f = absurd f

taken-IsFine {ℓ} :
    {C X : Type ℓ} (c : Command C) (r : Result X)
    → IsFine {C = C} (dequeues r)
    → IsFine (executes c r)
taken-IsFine c ok f = tt
taken-IsFine c (err e) f = absurd f

module _ {ℓ} {C X : Type ℓ} {tasks capacity : ℕ} {mode : ShutdownMode} where
  owner-AllFine :
      {s t : System C X} (st : Step tasks capacity mode s t) → OfOwner st → AllFine s → AllFine t
  owner-AllFine (shutdown_begins ph h) o f = f
  owner-AllFine (shutdown_drained ph e) o f = f
  owner-AllFine (shutdown_stores ph) o f = f
  owner-AllFine (shutdown_wakes ph room) o f = f
  owner-AllFine (shutdown_returns ph) o f = f
  owner-AllFine _ o f = absurd o

  worker-AllFine :
      {s t : System C X} (st : Step tasks capacity mode s t)
      → OfWorker st
      → AllFit s
      → AllFine s
      → AllFine t
  worker-AllFine {s} (worker_tests i {r} lt e) o v f =
      update_all IsFine s.workers i _ f (tested-IsFine C s.stopped r (rw e at (f i)))
  worker-AllFine {s} (worker_takes i {r} {c} lt e q) o v f =
      update_all IsFine s.workers i _ f (taken-IsFine c r (rw e at (f i)))
  worker-AllFine {s} (worker_executes i {r} {c} x lt e) o v f =
      update_all IsFine s.workers i _ f
        (executed-IsFine c r x o (rw e at (v.fit i)) (rw e at (f i)))
  worker-AllFine _ o v f = absurd o

module _ {ℓ} {C W X : Type ℓ} (P : Program C W) where
  Move-AllFine :
      {s t : Run C W X}
      → Reached P s
      → Move P s t
      → (s.lost ≡ [] → (n : ℕ) → AllFine (s.pools n))
      → t.lost ≡ []
      → (n : ℕ) → AllFine (t.pools n)
  Move-AllFine {s} r (main_submits {c} e room) f none =
      update_all AllFine s.pools 0 _ (f none) (f none 0)
  Move-AllFine {s} r (main_shuts_down {n} {p} e le st o) f none =
      update_all AllFine s.pools n p (f none) (owner-AllFine st o (f none n))
  Move-AllFine {s} r (worker_moves n {p} le st o) f none =
      update_all AllFine s.pools n p (f none)
        (worker-AllFine st o ((Reached-IsAlive P r).pools_fit n) (f none n))
  Move-AllFine {s} r (worker_forwards n i {c} {r = x} below lt e room) f none =
      let p = executed (s.pools n) i c x succeeds in
      update_all AllFine (update s.pools n p) (suc n) _
        (update_all AllFine s.pools n p (f none) (succeeded-AllFine (s.pools n) i c x e (f none n)))
        (f none (suc n))
  Move-AllFine {s} r (worker_writes i {c} {r = x} lt e) f none =
      update_all AllFine s.pools P.last _ (f none)
        (succeeded-AllFine (s.pools P.last) i c x e (f none P.last))
  Move-AllFine {s} r (worker_fails_to_write i {c} x may lt e) f none =
      absurd (omega (arith, ap (length {A = C}) none, length-snoc s.lost c))
  Move-AllFine r _ f none = f none

  pub Reached-AllFine : {s : Run C W X} → Reached P s → s.lost ≡ [] → (n : ℕ) → AllFine (s.pools n)
  Reached-AllFine {s} (starts h) none n i = IsAtLoop-IsFine ((s.pools n).workers i) (h.at_loop n i)
  Reached-AllFine (moves r m) none n i = Move-AllFine r m (Reached-AllFine r) none n i
