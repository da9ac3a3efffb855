-- ===== src/ThreadPool/Shutdown.antt =====
-- What the shutdown of src/thread_pool.rs promises.
use command_executor.Base.{
  weigh, weigh-append, ℕ, suc, ◌≤◌, ◌<◌, ◌≡◌, refl, ap, true, List, [], ◌∷◌, length, arith,
  tally-eq-zero, size-le-tally,
}
use command_executor.ThreadPool.{
  ShutdownMode, complete_pending, Result, Command, empty, Worker, dequeues, returned, panicked,
  waking, down, System, Reach,
}
use command_executor.ThreadPool.Commands.{IsSound, Reach-IsSound, load}
use command_executor.ThreadPool.Stopping.{hungry, Served, Reach-IsStopping}
use command_executor.ThreadPool.Pending.{Drained, weigh-AllEmpty, Reach-Drained}

module _ {ℓ} {C X : Type ℓ} where
  -- The thread has ended.
  abbrev pub IsOver : Worker C X → Type 0
  IsOver (returned r) = Unit
  IsOver panicked = Unit
  IsOver _ = ⊥

  load-IsOver : (w : Command C → ℕ) (th : Worker C X) → IsOver th → load w th ≡ 0
  load-IsOver w th h = ground arith

module _ {ℓ} {C X : Type ℓ} {tasks capacity : ℕ} where
  -- With `CompletePending`, when `shutdown` has returned and the threads have ended: however commands
  -- other than `EmptyCommand` are counted, those submitted are those executed, each as often.
  pub pending_all_executed :
      {s : System C X}
      → Reach tasks capacity complete_pending s
      → s.phase ≡ down
      → ((i : ℕ) → i < tasks → IsOver (s.workers i))
      → (w : Command C → ℕ) → w empty ≡ 0
      → weigh w s.submitted ≡ weigh w s.completed
  pending_all_executed {s} r ph over w z = omega (
    arith,
    ap (weigh w) v.in_order,
    weigh-append w s.taken s.queue,
    v.executed w,
    weigh-AllEmpty w s.queue d.0 z,
    tally-eq-zero (load w) tasks s.workers (λ i lt. load-IsOver w (s.workers i) (over i lt)),
  )
    where
      v : IsSound tasks capacity s
      v = Reach-IsSound r

      d : Drained tasks down s.queue
      d = rw ph at (Reach-Drained r)

  -- With `CompletePending` and a queue with a place for each worker, `shutdown` never waits for room:
  -- whenever it has an `EmptyCommand` to submit the queue has room.
  pub pending_never_blocks :
      {s : System C X} {k : ℕ}
      → tasks ≤ capacity
      → Reach tasks capacity complete_pending s
      → s.phase ≡ waking (suc k)
      → length s.queue < capacity
  pending_never_blocks {s} {k} fits r ph =
      let d : Drained tasks (waking (suc k)) s.queue = rw ph at (Reach-Drained r) in
      omega (arith, d.1)

  -- In either mode, when `shutdown` has returned, a worker in `dequeue` finds a command in the queue.
  pub no_worker_stranded :
      {mode : ShutdownMode} {s : System C X} {x : Result X}
      → Reach tasks capacity mode s
      → s.phase ≡ down
      → (i : ℕ) → i < tasks
      → s.workers i ≡ dequeues x
      → (s.stopped ≡ true) × ((c : Command C) × (rest : List (Command C)) × (s.queue ≡ c ∷ rest))
  no_worker_stranded {s = s} r ph i lt e = (
    d.0,
    filled s.queue (omega (arith, d.1, ap hungry e, size-le-tally hungry tasks i s.workers lt)),
  )
    where
      d : Served tasks down s.stopped s.queue s.workers
      d = rw ph at (Reach-IsStopping r).served

      filled :
          (q : List (Command C))
          → 0 < length q
          → (c : Command C) × (rest : List (Command C)) × (q ≡ c ∷ rest)
      filled [] h = absurd (omega arith)
      filled (c ∷ rest) h = (c, rest, refl)
