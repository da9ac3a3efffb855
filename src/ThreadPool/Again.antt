-- ===== src/ThreadPool/Again.antt =====
-- A pool of src/thread_pool.rs whose workers have ended, and a second call of its `shutdown`.
use command_executor.Base.{ℕ, ◌≤◌, ◌<◌, ◌≡◌, refl, ap, length, length-snoc, arith}
use native.Mathlib.Nat.{le_refl}
use command_executor.ThreadPool.{
  ShutdownMode, complete_pending, Command, user, run_in_all_threads, Worker, release, draining,
  enter_shutdown, System, init, enqueued, Step, submits, broadcast_begins, broadcast_submits,
  broadcast_waits, barrier_opens, shutdown_begins, shutdown_drained, shutdown_stores,
  shutdown_wakes, shutdown_returns, worker_tests, worker_takes, worker_executes, start, later,
}
use command_executor.ThreadPool.Shutdown.{IsOver}
use command_executor.ThreadPool.Hang.{
  init-IsFresh, stored-IsHalted, workers_end, owner_submits, with_count,
}
use command_executor.ThreadPool.Unchecked.{
  Call, steps, unchecked_submits, shuts_down_again, Calls, stays, goes_on, Reach-Calls,
}

module _ {ℓ} {C X : Type ℓ} where
  release-IsOver : (b : ℕ) (w : Worker C X) → IsOver w → IsOver (release b w)
  unfolding release
  release-IsOver b w h = ground arith

  -- The workers have ended; since then nothing was executed or taken.
  record IsEnded (tasks : ℕ) (s t : System C X) : Type ℓ where
    over : (i : ℕ) → i < tasks → IsOver (t.workers i)
    completed : t.completed ≡ s.completed
    queued : length s.queue ≤ length t.queue

  enqueued-IsEnded :
      {tasks : ℕ} {s t : System C X} (c : Command C)
      → IsEnded tasks s t
      → IsEnded tasks s (enqueued c t)
  enqueued-IsEnded {t = t} c v = record {
    over = v.over;
    completed = v.completed;
    queued = omega (arith, v.queued, length-snoc t.queue c);
  }

module _ {ℓ} {C X : Type ℓ} {tasks capacity : ℕ} {mode : ShutdownMode} where
  Step-IsEnded :
      {s t u : System C X} → Step tasks capacity mode t u → IsEnded tasks s t → IsEnded tasks s u
  Step-IsEnded {t = t} (submits c ph room) v = enqueued-IsEnded {t = t} (user c) v
  Step-IsEnded {t = t} (broadcast_submits j {b = b} e room) v =
      enqueued-IsEnded (run_in_all_threads b)
        (record { over = v.over; completed = v.completed; queued = v.queued })
  Step-IsEnded {t = t} (shutdown_wakes ph room) v =
      enqueued-IsEnded Command.empty
        (record { over = v.over; completed = v.completed; queued = v.queued })
  Step-IsEnded {t = t} (barrier_opens j {b = b} e full) v = record {
    over = λ i lt. release-IsOver b (t.workers i) (v.over i lt);
    completed = v.completed;
    queued = v.queued;
  }
  Step-IsEnded (worker_tests i lt e) v = absurd (rw e at (v.over i lt))
  Step-IsEnded (worker_takes i lt e q) v = absurd (rw e at (v.over i lt))
  Step-IsEnded (worker_executes i x lt e) v = absurd (rw e at (v.over i lt))
  Step-IsEnded _ v = record { over = v.over; completed = v.completed; queued = v.queued }

  Call-IsEnded :
      {s t u : System C X} → Call tasks capacity mode t u → IsEnded tasks s t → IsEnded tasks s u
  Call-IsEnded (steps st) v = Step-IsEnded st v
  Call-IsEnded (unchecked_submits c room) v = enqueued-IsEnded (user c) v
  Call-IsEnded (shuts_down_again ph nobody) v = record {
    over = v.over;
    completed = v.completed;
    queued = v.queued;
  }

  -- The owner waits for the queue to be empty, which it is not.
  Step-draining :
      {t u : System C X}
      → Step tasks capacity mode t u
      → 0 < length t.queue
      → t.phase ≡ draining
      → u.phase ≡ draining
  Step-draining (shutdown_begins ph h) some e = cc
  Step-draining (shutdown_drained ph none_in) some e =
      absurd (omega (arith, some, ap (length {A = Command C}) none_in))
  Step-draining (shutdown_stores ph) some e = cc
  Step-draining (shutdown_wakes ph room) some e = cc
  Step-draining (shutdown_returns ph) some e = cc
  Step-draining (submits c ph room) some e = e
  Step-draining (broadcast_begins j ph h) some e = e
  Step-draining (broadcast_submits j h room) some e = e
  Step-draining (broadcast_waits j h) some e = e
  Step-draining (barrier_opens j h full) some e = e
  Step-draining (worker_tests i lt h) some e = e
  Step-draining (worker_takes i lt h q) some e = e
  Step-draining (worker_executes i x lt h) some e = e

  Call-draining :
      {t u : System C X}
      → Call tasks capacity mode t u
      → 0 < length t.queue
      → t.phase ≡ draining
      → u.phase ≡ draining
  Call-draining (steps st) more e = Step-draining st more e
  Call-draining (unchecked_submits c room) more e = e
  Call-draining (shuts_down_again ph nobody) more e = cc

  Calls-stuck :
      {s t : System C X}
      → Calls tasks capacity mode s t
      → ((i : ℕ) → i < tasks → IsOver (s.workers i))
      → 0 < length s.queue
      → s.phase ≡ draining
      → IsEnded tasks s t × (t.phase ≡ draining)
  Calls-stuck {s} stays over more e =
      (record { over = over; completed = refl; queued = le_refl (length s.queue) }, e)
  Calls-stuck (goes_on r c) over more e =
      let (v, ph) = Calls-stuck r over more e in
      (Call-IsEnded c v, Call-draining c (omega (arith, v.queued, more)) ph)

module _ {ℓ} {C X : Type ℓ} where
  -- With `CompletePending`, at least one worker and a place in the queue for each: a state is reachable in which
  -- a second call of `shutdown` waits for the empty queue, and whatever calls and steps follow, it goes on
  -- waiting, and no command is executed any more. The first call left its `EmptyCommand`s in the queue.
  pub second_shutdown_hangs :
      (tasks capacity : ℕ)
      → 0 < tasks
      → tasks ≤ capacity
      → (s : System C X) × Calls tasks capacity complete_pending init s
        × (s.phase ≡ draining)
        × ((t : System C X)
            → Calls tasks capacity complete_pending s t
            → (t.phase ≡ draining) × (t.completed ≡ s.completed))
  unfolding enter_shutdown
  second_shutdown_hangs tasks capacity some_worker fits =
      let (t, r, h) =
        workers_end {capacity = capacity} tasks (le_refl tasks)
          (later
            (later (later start (shutdown_begins refl (λ j. refl))) (shutdown_drained refl refl))
            (shutdown_stores refl))
          (stored-IsHalted tasks {s = init} init-IsFresh) in
      let (u, r', h') =
        owner_submits tasks {k = 0} {q = 0} (omega arith) r (with_count (omega arith) h) in
      let down_again =
        goes_on (Reach-Calls (later r' (shutdown_returns h'.at_phase)))
          (shuts_down_again refl h'.nobody) in
      (
        _,
        down_again,
        refl,
        λ v c.
            let (ended, ph) = Calls-stuck c h'.over (omega (arith, h'.queued)) refl in
            (ph, ended.completed),
      )
