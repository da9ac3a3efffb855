-- ===== src/ThreadPool/Stopping.antt =====
-- The shutdown of src/thread_pool.rs, step by step: who is still in the pool, and how many of the
-- workers still wait for a command.
use command_executor.Base.{
  ℕ, suc, ◌+◌, ◌≤◌, ◌≡◌, ◌≢◌, refl, ap, Bool, true, false, List, length, length-snoc, arith, tally,
  tally-update, tally_map, tally-le,
}
use command_executor.ThreadPool.{
  ShutdownMode, immediate, complete_pending, Result, Command, user, run_in_all_threads, Executed,
  Worker, dequeues, executes, Client, free, Phase, running, draining, storing, waking, down,
  test_stopped, execute, release, enter_shutdown, System, Step, submits, broadcast_begins,
  broadcast_submits, broadcast_waits, barrier_opens, shutdown_begins, shutdown_drained,
  shutdown_stores, shutdown_wakes, shutdown_returns, worker_tests, worker_takes, worker_executes,
  Reach, start, later,
}

-- Once a shutdown has begun no client is inside the pool.
abbrev pub Quiet : Phase → (ℕ → Client) → Type 0
Quiet running clients = Unit
Quiet _ clients = (j : ℕ) → clients j ≡ free

-- A client inside the pool shows that no shutdown has begun.
pub Quiet-busy :
    (ph : Phase) (clients clients' : ℕ → Client) (j : ℕ)
    → Quiet ph clients
    → clients j ≢ free
    → Quiet ph clients'
Quiet-busy running clients clients' j q busy = tt
Quiet-busy draining clients clients' j q busy = absurd (busy (q j))
Quiet-busy storing clients clients' j q busy = absurd (busy (q j))
Quiet-busy (waking k) clients clients' j q busy = absurd (busy (q j))
Quiet-busy down clients clients' j q busy = absurd (busy (q j))

module _ {ℓ} {C X : Type ℓ} where
  -- 1 for a worker in `dequeue`
  abbrev pub hungry : Worker C X → ℕ
  hungry (dequeues r) = 1
  hungry _ = 0

  -- From the store to `stopped` on, the workers in `dequeue` are no more than the commands in the
  -- queue and the `EmptyCommand`s still to come.
  abbrev pub Served : ℕ → Phase → Bool → List (Command C) → (ℕ → Worker C X) → Type 0
  Served tasks (waking k) stopped queue workers =
      (stopped ≡ true) × (tally hungry tasks workers ≤ length queue + k)
  Served tasks down stopped queue workers =
      (stopped ≡ true) × (tally hungry tasks workers ≤ length queue)
  Served tasks _ stopped queue workers = stopped ≡ false

  pub record IsStopping (tasks : ℕ) (s : System C X) : Type 0 where
    pub quiet : Quiet s.phase s.clients
    pub served : Served tasks s.phase s.stopped s.queue s.workers

  -- A step that adds no more workers in `dequeue` than commands to the queue.
  Served-step :
      (tasks : ℕ) (ph : Phase) (stopped : Bool) (queue queue' : List (Command C))
      (workers workers' : ℕ → Worker C X)
      → Served tasks ph stopped queue workers
      → (stopped ≡ true
          → tally hungry tasks workers' + length queue ≤ tally hungry tasks workers + length queue')
      → Served tasks ph stopped queue' workers'
  Served-step tasks running stopped queue queue' workers workers' v h = v
  Served-step tasks draining stopped queue queue' workers workers' v h = v
  Served-step tasks storing stopped queue queue' workers workers' v h = v
  Served-step tasks (waking k) stopped queue queue' workers workers' v h =
      (v.0, omega (arith, v.1, h v.0))
  Served-step tasks down stopped queue queue' workers workers' v h =
      (v.0, omega (arith, v.1, h v.0))

  hungry-execute : (c : Command C) (r : Result X) (x : Executed X) → hungry (execute c r x) ≡ 0
  unfolding execute
  hungry-execute c r x = ground arith

  hungry-release : (b : ℕ) (th : Worker C X) → hungry (release b th) ≡ hungry th
  unfolding release
  hungry-release b th = ground arith

  hungry-le : (th : Worker C X) → hungry th ≤ 1
  hungry-le th = ground arith

  Served-begin :
      (tasks : ℕ) (mode : ShutdownMode) (stopped : Bool) (queue : List (Command C))
      (workers : ℕ → Worker C X)
      → stopped ≡ false
      → Served tasks (enter_shutdown mode) stopped queue workers
  unfolding enter_shutdown
  Served-begin tasks immediate stopped queue workers h = h
  Served-begin tasks complete_pending stopped queue workers h = h

hungry-test_stopped {ℓ} :
    (C : Type ℓ) {X : Type ℓ} (b : Bool) (r : Result X)
    → b ≡ true
    → hungry (test_stopped {C = C} b r) ≡ 0
unfolding test_stopped
hungry-test_stopped C b r h = ground arith

Quiet-begin :
    (mode : ShutdownMode) {clients : ℕ → Client}
    → ((j : ℕ) → clients j ≡ free)
    → Quiet (enter_shutdown mode) clients
unfolding enter_shutdown
Quiet-begin immediate h = h
Quiet-begin complete_pending h = h

module _ {ℓ} {C X : Type ℓ} {tasks capacity : ℕ} {mode : ShutdownMode} where
  pub Step-IsStopping :
      {s t : System C X} → Step tasks capacity mode s t → IsStopping tasks s → IsStopping tasks t
  Step-IsStopping {s} (submits c ph room) v = record {
    quiet = v.quiet;
    served =
        Served-step tasks s.phase s.stopped s.queue _ s.workers _ v.served
          (λ _. omega (arith, length-snoc s.queue (user c)));
  }
  Step-IsStopping {s} (broadcast_begins j ph e) v = record { quiet = rw ph tt; served = v.served }
  Step-IsStopping {s} (broadcast_submits j {b} e room) v = record {
    quiet = Quiet-busy s.phase s.clients _ j v.quiet (λ f. cc);
    served =
        Served-step tasks s.phase s.stopped s.queue _ s.workers _ v.served
          (λ _. omega (arith, length-snoc s.queue (run_in_all_threads b)));
  }
  Step-IsStopping {s} (broadcast_waits j e) v = record {
    quiet = Quiet-busy s.phase s.clients _ j v.quiet (λ f. cc);
    served = v.served;
  }
  Step-IsStopping {s} (barrier_opens j {b} e all) v = record {
    quiet = Quiet-busy s.phase s.clients _ j v.quiet (λ f. cc);
    served = Served-step tasks s.phase s.stopped s.queue _ s.workers _ v.served (λ _. omega (
      arith,
      tally_map hungry tasks (λ i. release b (s.workers i)) s.workers
          (λ i. hungry-release b (s.workers i)),
    ));
  }
  Step-IsStopping {s} (shutdown_begins ph h) v = record {
    quiet = Quiet-begin mode h;
    served = Served-begin tasks mode s.stopped s.queue s.workers (rw ph at v.served);
  }
  Step-IsStopping (shutdown_drained ph e) v = record {
    quiet = rw ph at v.quiet;
    served = rw ph at v.served;
  }
  Step-IsStopping {s} (shutdown_stores ph) v = record {
    quiet = rw ph at v.quiet;
    served = (refl, omega (arith, tally-le hungry tasks s.workers hungry-le));
  }
  Step-IsStopping {s} (shutdown_wakes {k} ph room) v = record {
    quiet = rw ph at v.quiet;
    served =
        let w : Served tasks (waking (suc k)) s.stopped s.queue s.workers = rw ph at v.served in
        (w.0, omega (arith, w.1, length-snoc s.queue Command.empty));
  }
  Step-IsStopping {s} (shutdown_returns ph) v = record {
    quiet = rw ph at v.quiet;
    served =
        let w : Served tasks (waking 0) s.stopped s.queue s.workers = rw ph at v.served in
        (w.0, omega (arith, w.1));
  }
  Step-IsStopping {s} (worker_tests i {r} lt e) v = record {
    quiet = v.quiet;
    served = Served-step tasks s.phase s.stopped s.queue _ s.workers _ v.served (λ h. omega (
      arith,
      tally-update hungry tasks i s.workers (test_stopped s.stopped r) lt,
      hungry-test_stopped C s.stopped r h,
      ap hungry e,
    ));
  }
  Step-IsStopping {s} (worker_takes i {r} {c} lt e q) v = record {
    quiet = v.quiet;
    served = Served-step tasks s.phase s.stopped s.queue _ s.workers _ v.served (λ h. omega (
      arith,
      tally-update hungry tasks i s.workers (executes c r) lt,
      ap hungry e,
      ap (length {A = Command C}) q,
    ));
  }
  Step-IsStopping {s} (worker_executes i {r} {c} x lt e) v = record {
    quiet = v.quiet;
    served = Served-step tasks s.phase s.stopped s.queue _ s.workers _ v.served (λ h. omega (
      arith,
      tally-update hungry tasks i s.workers (execute c r x) lt,
      hungry-execute c r x,
      ap hungry e,
    ));
  }

  pub Reach-IsStopping : {s : System C X} → Reach tasks capacity mode s → IsStopping tasks s
  Reach-IsStopping start = record { quiet = tt; served = refl }
  Reach-IsStopping (later r st) = Step-IsStopping st (Reach-IsStopping r)
