-- ===== src/ThreadPool/Hang.antt =====
-- A shutdown of src/thread_pool.rs that never returns: the owner waits for room in a full queue, and
-- all workers have ended.
use command_executor.Base.{
  ℕ, zero, suc, ◌+◌, ◌-◌, ◌≤◌, ◌<◌, ◌≡◌, refl, Bool, true, length, length-snoc, arith, update,
  update_same, update_other, ℕ_discrete,
}
use native.Mathlib.Nat.{le_refl, le_of_eq, zero-add, add-zero, add-suc, suc-add}
use Prim.Native.Nat.add
use command_executor.ThreadPool.{
  ShutdownMode, immediate, complete_pending, Result, ok, Command, user, tests, returned,
  test_stopped, free, running, waking, enter_shutdown, System, init, Step, submits,
  broadcast_begins, broadcast_submits, broadcast_waits, barrier_opens, shutdown_begins,
  shutdown_drained, shutdown_stores, shutdown_wakes, shutdown_returns, worker_tests, worker_takes,
  worker_executes, Reach, start, later,
}
use command_executor.ThreadPool.Shutdown.{IsOver}

module _ {ℓ} {C X : Type ℓ} where
  -- The owner has `k` commands to submit, `q` are in the queue, and the first `m` workers have ended,
  -- while the others are at the test of their loop.
  pub record IsHalted (k q m : ℕ) (s : System C X) : Type ℓ where
    pub at_phase : s.phase ≡ waking k
    pub queued : length s.queue ≡ q
    pub is_stopped : s.stopped ≡ true
    pub nobody : (j : ℕ) → s.clients j ≡ free
    pub over : (i : ℕ) → i < m → IsOver (s.workers i)
    pub rest : (i : ℕ) → m ≤ i → s.workers i ≡ tests ok

  -- A running pool with `q` commands that no worker has looked at.
  pub record IsFresh (q : ℕ) (s : System C X) : Type ℓ where
    pub at_phase : s.phase ≡ running
    pub queued : length s.queue ≡ q
    pub nobody : (j : ℕ) → s.clients j ≡ free
    pub rest : (i : ℕ) → s.workers i ≡ tests ok

  -- No thread can take a step.
  abbrev pub IsStuck : ℕ → ℕ → ShutdownMode → System C X → Type ℓ
  IsStuck tasks capacity mode s = (t : System C X) → ¬ Step tasks capacity mode s t

test_stopped-true {ℓ} :
    (C : Type ℓ) {X : Type ℓ} (b : Bool) (r : Result X)
    → b ≡ true
    → test_stopped {C = C} b r ≡ returned r
unfolding test_stopped
test_stopped-true C b r h = rw h refl

module _ {ℓ} {C X : Type ℓ} where
  -- The next worker finds `stopped` set and ends.
  worker_ends :
      {m k q : ℕ} {t : System C X}
      → IsHalted k q m t
      → IsHalted k q (suc m) (record t { workers = update t.workers m (test_stopped t.stopped ok) })
  worker_ends {m} {t = t} h = record {
    at_phase = h.at_phase;
    queued = h.queued;
    is_stopped = h.is_stopped;
    nobody = h.nobody;
    over = λ i lt. elim (ℕ_discrete i m) [
      | yes last ↦ rw last (
          rw (update_same t.workers m (test_stopped t.stopped ok))
            (rw (test_stopped-true C t.stopped ok h.is_stopped) tt))
      | no before ↦
          rw (update_other t.workers {i = m} {j = i} (test_stopped t.stopped ok) (λ e. omega arith))
            (h.over i (omega arith))
    ];
    rest = λ i le.
        rw (update_other t.workers {i = m} {j = i} (test_stopped t.stopped ok) (λ e. omega arith))
          (h.rest i (omega arith));
  }

module _ {ℓ} {C X : Type ℓ} where
  pub init-IsFresh : IsFresh {C = C} {X = X} 0 init
  init-IsFresh = record { at_phase = refl; queued = refl; nobody = λ j. refl; rest = λ i. refl }

  pub stored-IsHalted :
      (tasks : ℕ) {q : ℕ} {s : System C X}
      → IsFresh q s
      → IsHalted tasks q 0 (record s { stopped = true; phase = waking tasks })
  stored-IsHalted tasks h = record {
    at_phase = refl;
    queued = h.queued;
    is_stopped = refl;
    nobody = h.nobody;
    over = λ i lt. absurd (omega arith);
    rest = λ i le. h.rest i;
  }

  pub with_count : {k k' q m : ℕ} {s : System C X} → k ≡ k' → IsHalted k q m s → IsHalted k' q m s
  with_count e h = rw e at h

module _ {ℓ} {C X : Type ℓ} {tasks capacity : ℕ} {mode : ShutdownMode} where
  -- Nobody submits, the owner has no room, and the workers have ended.
  halted-IsStuck :
      {k : ℕ} {s : System C X} → IsHalted (suc k) capacity tasks s → IsStuck tasks capacity mode s
  halted-IsStuck h t (submits c ph room) = let p = h.at_phase in cc
  halted-IsStuck h t (broadcast_begins j ph e) = let p = h.at_phase in cc
  halted-IsStuck h t (broadcast_submits j e room) = let p = h.nobody j in cc
  halted-IsStuck h t (broadcast_waits j e) = let p = h.nobody j in cc
  halted-IsStuck h t (barrier_opens j e all) = let p = h.nobody j in cc
  halted-IsStuck h t (shutdown_begins ph f) = let p = h.at_phase in cc
  halted-IsStuck h t (shutdown_drained ph e) = let p = h.at_phase in cc
  halted-IsStuck h t (shutdown_stores ph) = let p = h.at_phase in cc
  halted-IsStuck h t (shutdown_wakes ph room) = omega (arith, h.queued)
  halted-IsStuck h t (shutdown_returns ph) = let p = h.at_phase in cc
  halted-IsStuck h t (worker_tests i lt e) = rw e at (h.over i lt)
  halted-IsStuck h t (worker_takes i lt e q) = rw e at (h.over i lt)
  halted-IsStuck h t (worker_executes i x lt e) = rw e at (h.over i lt)

  -- One after the other, the workers find `stopped` set and end.
  pub workers_end :
      (m : ℕ) {k q : ℕ} {s : System C X}
      → m ≤ tasks
      → Reach tasks capacity mode s
      → IsHalted k q 0 s
      → (t : System C X) × Reach tasks capacity mode t × IsHalted k q m t
  workers_end zero {s = s} le r h = (s, r, h)
  workers_end (suc m) le r h =
      let (t, r', h') = workers_end m (omega arith) r h in
      (_, later r' (worker_tests m (omega arith) (h'.rest m (omega arith))), worker_ends h')

  -- The owner submits while there is room.
  pub owner_submits :
      (m : ℕ) {k q : ℕ} {s : System C X}
      → q + m ≤ capacity
      → Reach tasks capacity mode s
      → IsHalted (m + k) q tasks s
      → (t : System C X) × Reach tasks capacity mode t × IsHalted k (q + m) tasks t
  owner_submits zero {k = k} {q = q} {s = s} le r h = (s, r, rw (add-zero q) (rw (add.zero k) at h))
  owner_submits (suc m) {k = k} {q = q} {s = s} le r h =
      let ph : s.phase ≡ waking (suc (m + k)) = rw (suc-add m k) at h.at_phase in
      let room : length s.queue < capacity = omega (arith, h.queued) in
      let (t, r', h') =
        owner_submits m {k = k} {q = suc q} (omega arith) (later r (shutdown_wakes ph room))
          (record {
            at_phase = refl;
            queued = omega (arith, h.queued, length-snoc s.queue Command.empty);
            is_stopped = h.is_stopped;
            nobody = h.nobody;
            over = h.over;
            rest = h.rest;
          }) in
      (t, r', rw (add-suc q m, ← suc-add q m) h')

  -- A client submits the command `c` many times.
  fill :
      (c : C) (m : ℕ) → m ≤ capacity → (s : System C X) × Reach tasks capacity mode s × IsFresh m s
  fill c zero le = (init, start, init-IsFresh)
  fill c (suc m) le =
      let (s, r, h) = fill c m (omega arith) in
      (
        _,
        later r (submits c h.at_phase (omega (arith, h.queued))),
        record {
          at_phase = h.at_phase;
          queued = omega (arith, h.queued, length-snoc s.queue (user c));
          nobody = h.nobody;
          rest = h.rest;
        },
      )

module _ {ℓ} {C X : Type ℓ} where
  -- With `Immediate`, at least one worker, and a queue bounded by its capacity, a state is reachable in which the owner has commands to
  -- submit inside `shutdown` and no thread can take a step: the queue was full when the store to
  -- `stopped` let every worker end.
  pub immediate_shutdown_hangs :
      (tasks capacity : ℕ) (c : C)
      → 0 < tasks
      → (s : System C X) × Reach tasks capacity immediate s
        × (s.phase ≡ waking tasks)
        × IsStuck tasks capacity immediate s
  unfolding enter_shutdown
  immediate_shutdown_hangs zero capacity c some_worker = absurd (omega arith)
  immediate_shutdown_hangs (suc n) capacity c some_worker =
      let (s, r, h) = fill {tasks = suc n} {mode = immediate} c capacity (le_refl capacity) in
      let (t, r', h') =
        workers_end (suc n) (le_refl (suc n))
          (later (later r (shutdown_begins h.at_phase h.nobody)) (shutdown_stores refl))
          (stored-IsHalted (suc n) h) in
      (t, r', h'.at_phase, halted-IsStuck h')

  -- With `CompletePending` and more workers than places in a queue bounded by its capacity, a state is reachable in which
  -- the owner has commands to submit inside `shutdown` and no thread can take a step: every worker
  -- ended after the store to `stopped`, so that nobody makes room in the queue.
  pub pending_shutdown_hangs :
      (tasks capacity : ℕ)
      → capacity < tasks
      → (s : System C X) × (k : ℕ) × Reach tasks capacity complete_pending s
        × (s.phase ≡ waking (suc k))
        × IsStuck tasks capacity complete_pending s
  unfolding enter_shutdown
  pending_shutdown_hangs tasks capacity more =
      let k = tasks - suc capacity in
      let split : tasks ≡ capacity + suc k = omega arith in
      let (t, r, h) =
        workers_end {capacity = capacity} tasks (le_refl tasks)
          (later
            (later (later start (shutdown_begins refl (λ j. refl))) (shutdown_drained refl refl))
            (shutdown_stores refl))
          (stored-IsHalted tasks {s = init} init-IsFresh) in
      let (u, r', h') =
        owner_submits capacity {k = suc k} {q = 0} (le_of_eq (zero-add capacity)) r
          (with_count split h) in
      (u, k, r', h'.at_phase, halted-IsStuck (rw (zero-add capacity) at h'))
