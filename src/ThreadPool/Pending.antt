-- ===== src/ThreadPool/Pending.antt =====
-- A shutdown of src/thread_pool.rs with `ShutdownMode::CompletePending`: what the queue holds while
-- it proceeds.
use command_executor.Base.{
  weigh, ℕ, suc, ◌+◌, ◌≤◌, ◌≡◌, ◌≢◌, refl, List, [], ◌∷◌, ◌++◌, length, length-snoc, arith,
}
use command_executor.ThreadPool.{
  complete_pending, Command, user, empty, run_in_all_threads, Client, free, Phase, running,
  draining, storing, waking, down, enter_shutdown, System, Step, submits, broadcast_begins,
  broadcast_submits, broadcast_waits, barrier_opens, shutdown_begins, shutdown_drained,
  shutdown_stores, shutdown_wakes, shutdown_returns, worker_tests, worker_takes, worker_executes,
  Reach, start, later,
}
use command_executor.ThreadPool.Stopping.{Quiet, IsStopping, Reach-IsStopping}

module _ {ℓ} {C : Type ℓ} where
  -- Only `EmptyCommand`s.
  abbrev pub AllEmpty : List (Command C) → Type 0
  AllEmpty [] = Unit
  AllEmpty (empty ∷ cs) = AllEmpty cs
  AllEmpty (c ∷ cs) = ⊥

  AllEmpty-snoc : (cs : List (Command C)) → AllEmpty cs → AllEmpty (cs ++ (empty ∷ []))
  AllEmpty-snoc [] h = tt
  AllEmpty-snoc (empty ∷ cs) h = AllEmpty-snoc cs h
  AllEmpty-snoc (user c ∷ cs) h = absurd h
  AllEmpty-snoc (run_in_all_threads b ∷ cs) h = absurd h

  AllEmpty-tail : (c : Command C) (cs : List (Command C)) → AllEmpty (c ∷ cs) → AllEmpty cs
  AllEmpty-tail empty cs h = h
  AllEmpty-tail (user c) cs h = absurd h
  AllEmpty-tail (run_in_all_threads b) cs h = absurd h

  pub weigh-AllEmpty :
      (w : Command C → ℕ) (cs : List (Command C)) → AllEmpty cs → w empty ≡ 0 → weigh w cs ≡ 0
  weigh-AllEmpty w [] h z = refl
  weigh-AllEmpty w (empty ∷ cs) h z = omega (arith, z, weigh-AllEmpty w cs h z)
  weigh-AllEmpty w (user c ∷ cs) h z = absurd h
  weigh-AllEmpty w (run_in_all_threads b ∷ cs) h z = absurd h

  -- Once `wait_empty` has returned the queue holds `EmptyCommand`s at most, and with those to come
  -- no more than there are workers.
  abbrev pub Drained : ℕ → Phase → List (Command C) → Type 0
  Drained tasks storing queue = AllEmpty queue × (length queue ≡ 0)
  Drained tasks (waking k) queue = AllEmpty queue × (length queue + k ≤ tasks)
  Drained tasks down queue = AllEmpty queue × (length queue ≤ tasks)
  Drained tasks _ queue = Unit

  Drained-busy :
      (tasks : ℕ) (ph : Phase) (clients : ℕ → Client) (queue : List (Command C)) (j : ℕ)
      → Quiet ph clients
      → clients j ≢ free
      → Drained tasks ph queue
  Drained-busy tasks running clients queue j q busy = tt
  Drained-busy tasks draining clients queue j q busy = tt
  Drained-busy tasks storing clients queue j q busy = absurd (busy (q j))
  Drained-busy tasks (waking k) clients queue j q busy = absurd (busy (q j))
  Drained-busy tasks down clients queue j q busy = absurd (busy (q j))

  Drained-take :
      (tasks : ℕ) (ph : Phase) (c : Command C) (queue : List (Command C))
      → Drained tasks ph (c ∷ queue)
      → Drained tasks ph queue
  Drained-take tasks running c queue d = tt
  Drained-take tasks draining c queue d = tt
  Drained-take tasks storing c queue d = absurd (omega (arith, d.1))
  Drained-take tasks (waking k) c queue d = (AllEmpty-tail c queue d.0, omega (arith, d.1))
  Drained-take tasks down c queue d = (AllEmpty-tail c queue d.0, omega (arith, d.1))

module _ {ℓ} {C X : Type ℓ} {tasks capacity : ℕ} where
  Step-Drained :
      {s t : System C X}
      → Step tasks capacity complete_pending s t
      → IsStopping tasks s
      → Drained tasks s.phase s.queue
      → Drained tasks t.phase t.queue
  unfolding enter_shutdown
  Step-Drained (submits c ph room) v d = rw ph tt
  Step-Drained (broadcast_begins j ph e) v d = d
  Step-Drained {s} (broadcast_submits j e room) v d =
      Drained-busy tasks s.phase s.clients _ j v.quiet (λ f. cc)
  Step-Drained (broadcast_waits j e) v d = d
  Step-Drained (barrier_opens j e all) v d = d
  Step-Drained (shutdown_begins ph h) v d = tt
  Step-Drained (shutdown_drained ph e) v d = rw e (tt, refl)
  Step-Drained (shutdown_stores ph) v d =
      let w : Drained tasks storing _ = rw ph at d in (w.0, omega (arith, w.1))
  Step-Drained {s} (shutdown_wakes {k} ph room) v d =
      let w : Drained tasks (waking (suc k)) s.queue = rw ph at d in
      (AllEmpty-snoc s.queue w.0, omega (arith, w.1, length-snoc s.queue Command.empty))
  Step-Drained {s} (shutdown_returns ph) v d =
      let w : Drained tasks (waking 0) s.queue = rw ph at d in (w.0, omega (arith, w.1))
  Step-Drained (worker_tests i lt e) v d = d
  Step-Drained {s} (worker_takes i {r} {c} {rest} lt e q) v d =
      Drained-take tasks s.phase c rest (rw q at d)
  Step-Drained (worker_executes i x lt e) v d = d

  pub Reach-Drained :
      {s : System C X} → Reach tasks capacity complete_pending s → Drained tasks s.phase s.queue
  Reach-Drained start = tt
  Reach-Drained (later r st) = Step-Drained st (Reach-IsStopping r) (Reach-Drained r)
