-- ===== src/ThreadPool/Commands.antt =====
-- src/thread_pool.rs: commands are taken in the order of submission, and each is executed once.
use command_executor.Base.{
  ℕ, ◌+◌, ◌≤◌, ◌<◌, ◌≡◌, refl, sym, ap, ◌∙◌, Bool, true, false, [], ◌∷◌, ◌++◌, append_assoc, length,
  length-snoc, arith, update, weigh, weigh-append, tally, tally-update, tally-eq-zero, tally_map,
}
use command_executor.ThreadPool.{
  ShutdownMode, Result, Command, user, empty, run_in_all_threads, Executed, Worker, tests, executes,
  Client, Phase, test_stopped, execute, release, System, enqueued, Step, submits, broadcast_begins,
  broadcast_submits, broadcast_waits, barrier_opens, shutdown_begins, shutdown_drained,
  shutdown_stores, shutdown_wakes, shutdown_returns, worker_tests, worker_takes, worker_executes,
  Reach, start, later,
}

module _ {ℓ} {C X : Type ℓ} where
  -- The number of the command that a worker executes.
  abbrev pub load : (Command C → ℕ) → Worker C X → ℕ
  load w (executes c r) = w c
  load w _ = 0

  -- The queue is bounded; what was submitted was taken, in order, or waits; what was taken was
  -- executed or is being executed.
  pub record IsSound (tasks capacity : ℕ) (s : System C X) : Type ℓ where
    pub in_order : s.submitted ≡ s.taken ++ s.queue
    pub within : length s.queue ≤ capacity
    pub executed :
        (w : Command C → ℕ) → weigh w s.taken ≡ weigh w s.completed + tally (load w) tasks s.workers

  load-test_stopped : (w : Command C → ℕ) (b : _) (r : Result X) → load w (test_stopped b r) ≡ 0
  unfolding test_stopped
  load-test_stopped w true r = refl
  load-test_stopped w false r = refl

  load-release : (w : Command C → ℕ) (b : ℕ) (th : Worker C X) → load w (release b th) ≡ load w th
  unfolding release
  load-release w b th = ground arith

  load-execute :
      (w : Command C → ℕ) (c : Command C) (r : Result X) (x : Executed X)
      → load w (execute c r x) ≡ 0
  unfolding execute
  load-execute w c r x = ground arith

  module _ {tasks capacity : ℕ} where
    pub enqueued-IsSound :
        {s : System C X} (c : Command C)
        → length s.queue < capacity
        → IsSound tasks capacity s
        → IsSound tasks capacity (enqueued c s)
    enqueued-IsSound {s} c room v = record {
      in_order = rw v.in_order (append_assoc s.taken s.queue (c ∷ []));
      within = omega (arith, length-snoc s.queue c);
      executed = v.executed;
    }

    -- A worker that does not execute goes on without executing.
    moved-IsSound :
        {s : System C X} (i : ℕ) {a : Worker C X} (b : Worker C X)
        → i < tasks
        → s.workers i ≡ a
        → ((w : Command C → ℕ) → (load w a ≡ 0) × (load w b ≡ 0))
        → IsSound tasks capacity s
        → IsSound tasks capacity (record s { workers = update s.workers i b })
    moved-IsSound {s} i b lt e idle v = record {
      in_order = v.in_order;
      within = v.within;
      executed = λ w. omega (
        arith,
        v.executed w,
        idle w,
        ap (load w) e,
        tally-update (load w) tasks i s.workers b lt,
      );
    }

    -- Only the queue, the workers and the history matter to it.
    pub kept :
        {s : System C X} {stopped : Bool} {phase : Phase} {clients : ℕ → Client} {barriers : ℕ}
        → IsSound tasks capacity s
        → IsSound tasks capacity
            (record s { stopped = stopped; phase = phase; clients = clients; barriers = barriers })
    kept v = record { in_order = v.in_order; within = v.within; executed = v.executed }

  module _ {tasks capacity : ℕ} {mode : ShutdownMode} where
    pub Step-IsSound :
        {s t : System C X}
        → Step tasks capacity mode s t
        → IsSound tasks capacity s
        → IsSound tasks capacity t
    Step-IsSound (submits c ph room) v = enqueued-IsSound (user c) room v
    Step-IsSound (broadcast_begins j ph e) v = kept v
    Step-IsSound (broadcast_submits j {b} e room) v =
        enqueued-IsSound (run_in_all_threads b) room (kept v)
    Step-IsSound (broadcast_waits j e) v = kept v
    Step-IsSound {s} (barrier_opens j {b} e full) v = record {
      in_order = v.in_order;
      within = v.within;
      executed = λ w. omega (
        arith,
        v.executed w,
        tally_map (load w) tasks (λ i. release b (s.workers i)) s.workers
            (λ i. load-release w b (s.workers i)),
      );
    }
    Step-IsSound (shutdown_begins ph free) v = kept v
    Step-IsSound (shutdown_drained ph e) v = kept v
    Step-IsSound (shutdown_stores ph) v = kept v
    Step-IsSound (shutdown_wakes ph room) v = enqueued-IsSound empty room (kept v)
    Step-IsSound (shutdown_returns ph) v = kept v
    Step-IsSound {s} (worker_tests i {r} lt e) v =
        moved-IsSound i _ lt e (λ w. (refl, load-test_stopped w s.stopped r)) v
    Step-IsSound {s} (worker_takes i {r} {c} {rest} lt e q) v = record {
      in_order = v.in_order ∙ ap (◌++◌ s.taken) q ∙ sym (append_assoc s.taken (c ∷ []) rest);
      within = omega (arith, v.within, ap (length {A = Command C}) q);
      executed = λ w. omega (
        arith,
        v.executed w,
        ap (load w) e,
        weigh-append w s.taken (c ∷ []),
        tally-update (load w) tasks i s.workers (executes c r) lt,
      );
    }
    Step-IsSound {s} (worker_executes i {r} {c} x lt e) v = record {
      in_order = v.in_order;
      within = v.within;
      executed = λ w. omega (
        arith,
        v.executed w,
        ap (load w) e,
        load-execute w c r x,
        weigh-append w s.completed (c ∷ []),
        tally-update (load w) tasks i s.workers (execute c r x) lt,
      );
    }

    pub Reach-IsSound : {s : System C X} → Reach tasks capacity mode s → IsSound tasks capacity s
    Reach-IsSound start = record {
      in_order = refl;
      within = omega arith;
      executed =
          λ w. omega (arith, tally-eq-zero (load w) tasks (λ _. tests Result.ok) (λ i lt. refl));
    }
    Reach-IsSound (later r st) = Step-IsSound st (Reach-IsSound r)

    -- With any number of clients and workers: the commands submitted are, in order, those taken by
    -- the workers and then those in the queue; the queue holds no more than its capacity; and, however
    -- commands are counted, those taken are those executed, each as often, and those in execution.
    pub commands_once_in_order :
        {s : System C X}
        → Reach tasks capacity mode s
        → (s.submitted ≡ s.taken ++ s.queue)
          × (length s.queue ≤ capacity)
          × ((w : Command C → ℕ)
              → weigh w s.taken ≡ weigh w s.completed + tally (load w) tasks s.workers)
    commands_once_in_order r = let v = Reach-IsSound r in (v.in_order, v.within, v.executed)
