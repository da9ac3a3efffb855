-- ===== src/Pipeline/Fitness.antt =====
-- The workers of examples/pipeline.rs between two moves: no one waits at a barrier or has panicked, and
-- no one leaves its loop before its stage is stopped.
use command_executor.Base.{ℕ, ◌≡◌, refl, Bool, true, false, List, [], ◌∷◌, ◌++◌, All, update_all}
use command_executor.ThreadPool.{
  ShutdownMode, Result, Command, user, empty, run_in_all_threads, Executed, succeeds, fails, Worker,
  tests, dequeues, executes, waits_at, returned, panicked, free, execute, test_stopped, System,
  enqueued, Step, shutdown_begins, shutdown_drained, shutdown_stores, shutdown_wakes,
  shutdown_returns, worker_tests, worker_takes, worker_executes,
}
use command_executor.Pipeline.{OfOwner, OfWorker, OfPool, executed, IsAtLoop}

module _ {ℓ} {C : Type ℓ} where
  -- No command of `in_all_threads`.
  abbrev pub IsPlain : Command C → Type 0
  IsPlain (run_in_all_threads b) = ⊥
  IsPlain _ = Unit

  All-snoc :
      (cs : List (Command C)) (c : Command C)
      → All IsPlain cs
      → IsPlain c
      → All IsPlain (cs ++ (c ∷ []))
  All-snoc [] c h k = (k, tt)
  All-snoc (d ∷ cs) c h k = (h.0, All-snoc cs c h.1 k)

module _ {ℓ} {C X : Type ℓ} where
  -- A worker in a pool that is stopped, or is not.
  abbrev pub IsFit : Bool → Worker C X → Type 0
  IsFit stopped (tests r) = Unit
  IsFit stopped (dequeues r) = Unit
  IsFit stopped (executes c r) = IsPlain c
  IsFit stopped (waits_at b r) = ⊥
  IsFit true (returned r) = Unit
  IsFit false (returned r) = ⊥
  IsFit stopped panicked = ⊥

  pub record AllFit (p : System C X) : Type 0 where
    pub no_clients : (j : ℕ) → p.clients j ≡ free
    pub plain : All IsPlain p.queue
    pub fit : (i : ℕ) → IsFit p.stopped (p.workers i)

  IsFit-stop : (stopped : Bool) (w : Worker C X) → IsFit stopped w → IsFit true w
  IsFit-stop stopped (tests r) h = tt
  IsFit-stop stopped (dequeues r) h = tt
  IsFit-stop stopped (executes c r) h = h
  IsFit-stop stopped (waits_at b r) h = absurd h
  IsFit-stop stopped (returned r) h = tt
  IsFit-stop stopped panicked h = absurd h

  IsFit-execute :
      (stopped : Bool) (c : Command C) (r : Result X) (x : Executed X)
      → OfPool c
      → IsPlain c
      → IsFit stopped (execute c r x)
  unfolding execute
  IsFit-execute stopped (user c) r x o h = absurd o
  IsFit-execute stopped empty r x o h = tt
  IsFit-execute stopped (run_in_all_threads b) r x o h = absurd h

  pub IsAtLoop-IsFit : (stopped : Bool) (w : Worker C X) → IsAtLoop w → IsFit stopped w
  IsAtLoop-IsFit stopped (tests r) h = tt
  IsAtLoop-IsFit stopped (dequeues r) h = tt
  IsAtLoop-IsFit stopped (executes c r) h = absurd h
  IsAtLoop-IsFit stopped (waits_at b r) h = absurd h
  IsAtLoop-IsFit stopped (returned r) h = absurd h
  IsAtLoop-IsFit stopped panicked h = absurd h

IsFit-test_stopped {ℓ} :
    (C : Type ℓ) {X : Type ℓ} (stopped : Bool) (r : Result X)
    → IsFit {C = C} stopped (test_stopped stopped r)
unfolding test_stopped
IsFit-test_stopped C true r = tt
IsFit-test_stopped C false r = tt

module _ {ℓ} {C X : Type ℓ} {tasks capacity : ℕ} {mode : ShutdownMode} where
  pub owner-AllFit :
      {s t : System C X} (st : Step tasks capacity mode s t) → OfOwner st → AllFit s → AllFit t
  owner-AllFit (shutdown_begins ph h) o v = record {
    no_clients = v.no_clients;
    plain = v.plain;
    fit = v.fit;
  }
  owner-AllFit (shutdown_drained ph e) o v = record {
    no_clients = v.no_clients;
    plain = v.plain;
    fit = v.fit;
  }
  owner-AllFit {s} (shutdown_stores ph) o v = record {
    no_clients = v.no_clients;
    plain = v.plain;
    fit = λ i. IsFit-stop s.stopped (s.workers i) (v.fit i);
  }
  owner-AllFit {s} (shutdown_wakes ph room) o v = record {
    no_clients = v.no_clients;
    plain = All-snoc s.queue Command.empty v.plain tt;
    fit = v.fit;
  }
  owner-AllFit (shutdown_returns ph) o v = record {
    no_clients = v.no_clients;
    plain = v.plain;
    fit = v.fit;
  }
  owner-AllFit _ o v = absurd o

  pub worker-AllFit :
      {s t : System C X} (st : Step tasks capacity mode s t) → OfWorker st → AllFit s → AllFit t
  worker-AllFit {s} (worker_tests i {r} lt e) o v = record {
    no_clients = v.no_clients;
    plain = v.plain;
    fit = update_all (IsFit s.stopped) s.workers i _ v.fit (IsFit-test_stopped C s.stopped r);
  }
  worker-AllFit {s} (worker_takes i {r} {c} {rest} lt e q) o v =
      let front : All IsPlain (c ∷ rest) = rw q at v.plain in
      record {
        no_clients = v.no_clients;
        plain = front.1;
        fit = update_all (IsFit s.stopped) s.workers i (executes c r) v.fit front.0;
      }
  worker-AllFit {s} (worker_executes i {r} {c} x lt e) o v = record {
    no_clients = v.no_clients;
    plain = v.plain;
    fit =
        update_all (IsFit s.stopped) s.workers i _ v.fit
          (IsFit-execute s.stopped c r x o (rw e at (v.fit i)));
  }
  worker-AllFit _ o v = absurd o

  pub worker-phase :
      {s t : System C X} (st : Step tasks capacity mode s t) → OfWorker st → t.phase ≡ s.phase
  worker-phase (worker_tests i lt e) o = refl
  worker-phase (worker_takes i lt e q) o = refl
  worker-phase (worker_executes i x lt e) o = refl
  worker-phase _ o = absurd o

module _ {ℓ} {C X : Type ℓ} where
  pub enqueued-AllFit : (c : C) (p : System C X) → AllFit p → AllFit (enqueued (user c) p)
  enqueued-AllFit c p v = record {
    no_clients = v.no_clients;
    plain = All-snoc p.queue (user c) v.plain tt;
    fit = v.fit;
  }

  pub succeeded-AllFit :
      (p : System C X) (i : ℕ) (c : C) (r : Result X)
      → AllFit p
      → AllFit (executed p i c r succeeds)
  unfolding execute
  succeeded-AllFit p i c r v = record {
    no_clients = v.no_clients;
    plain = v.plain;
    fit = update_all (IsFit p.stopped) p.workers i _ v.fit tt;
  }

  pub failed-AllFit :
      (p : System C X) (i : ℕ) (c : C) (r : Result X) (e : X)
      → AllFit p
      → AllFit (executed p i c r (fails e))
  unfolding execute
  failed-AllFit p i c r e v = record {
    no_clients = v.no_clients;
    plain = v.plain;
    fit = update_all (IsFit p.stopped) p.workers i _ v.fit tt;
  }
