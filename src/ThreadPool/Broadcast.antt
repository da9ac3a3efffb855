-- ===== src/ThreadPool/Broadcast.antt =====
-- `in_all_threads` of src/thread_pool.rs: the barrier between the client and the workers.
use command_executor.Base.{
  ℕ, ◌+◌, ◌≤◌, ◌<◌, ◌≡◌, sym, ap, ◌∙◌, arith, tally, tally_full, update, update_same, update_other,
  ℕ_discrete,
}
use command_executor.ThreadPool.{
  ShutdownMode, Result, Worker, tests, dequeues, executes, waits_at, returned, panicked, Client,
  free, waits_for, at_barrier, release, System, Step, broadcast_begins, broadcast_submits,
  broadcast_waits, barrier_opens,
}

module _ {ℓ} {C X : Type ℓ} where
  at_barrier-le : (b : ℕ) (th : Worker C X) → at_barrier b th ≤ 1
  at_barrier-le b th = ground arith

  -- A worker that counts at the barrier is there, and goes on when it opens.
  at_barrier-release :
      (b : ℕ) (th : Worker C X)
      → at_barrier b th ≡ 1
      → (r : Result X) × (th ≡ waits_at b r) × (release b th ≡ tests r)
  unfolding release
  at_barrier-release b (waits_at b' r) h = (r, ground arith, ground arith)
  at_barrier-release b (tests r) h = absurd (omega arith)
  at_barrier-release b (dequeues r) h = absurd (omega arith)
  at_barrier-release b (executes c r) h = absurd (omega arith)
  at_barrier-release b (returned r) h = absurd (omega arith)
  at_barrier-release b panicked h = absurd (omega arith)

pub barrier_full {ℓ} :
    {C X : Type ℓ} (tasks b : ℕ) (workers : ℕ → Worker C X)
    → tally (at_barrier b) tasks workers + 1 ≡ tasks + 1
    → (i : ℕ) → i < tasks
    → (r : Result X) × (workers i ≡ waits_at b r) × (release b (workers i) ≡ tests r)
barrier_full tasks b workers all i lt =
    at_barrier-release b (workers i)
      (tally_full (at_barrier b) tasks workers (at_barrier-le b) (omega arith) i lt)

-- A client that a step takes out of its barrier is the one that the step moves.
other_client :
    (clients : ℕ → Client) (i j : ℕ) (c : Client) (b : ℕ)
    → clients j ≡ waits_for b
    → update clients i c j ≡ free
    → (i ≡ j) × (c ≡ free)
other_client clients i j c b e f = elim (ℕ_discrete i j) [
  | yes same ↦ (same, sym (update_same clients i c) ∙ rw (← same) at f)
  | no differ ↦
      let stays : clients j ≡ free = rw (update_other clients {i = i} {j = j} c differ) at f in cc
]

module _ {ℓ} {C X : Type ℓ} {tasks capacity : ℕ} {mode : ShutdownMode} where
  -- A step that lets a client return from the barrier of `in_all_threads` finds every worker at that
  -- barrier, which it reaches by running `f`, and sends every worker back to its loop.
  pub in_all_threads_waits_for_all :
      {s t : System C X} (j : ℕ) {b : ℕ}
      → Step tasks capacity mode s t
      → s.clients j ≡ waits_for b
      → t.clients j ≡ free
      → (i : ℕ) → i < tasks
      → (r : Result X) × (s.workers i ≡ waits_at b r) × (t.workers i ≡ tests r)
  in_all_threads_waits_for_all {s} j {b} (barrier_opens j' {b = b'} e' all) e f i lt =
      rw (← same) (barrier_full tasks b' s.workers all i lt)
    where
      same : b' ≡ b
      same =
          let here : waits_for b' ≡ waits_for b =
            sym e' ∙ ap s.clients (other_client s.clients j' j free b e f).0 ∙ e in
          cc
  in_all_threads_waits_for_all {s} j {b} (broadcast_begins j' ph e') e f i lt =
      let moved = (other_client s.clients j' j _ b e f).1 in absurd (cc moved)
  in_all_threads_waits_for_all {s} j {b} (broadcast_submits j' e' room) e f i lt =
      let moved = (other_client s.clients j' j _ b e f).1 in absurd (cc moved)
  in_all_threads_waits_for_all {s} j {b} (broadcast_waits j' e') e f i lt =
      let moved = (other_client s.clients j' j _ b e f).1 in absurd (cc moved)
  in_all_threads_waits_for_all {s} j {b} _ e f i lt = absurd (cc)
