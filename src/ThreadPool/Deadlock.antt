-- ===== src/ThreadPool/Deadlock.antt =====
-- Two calls of `in_all_threads` of src/thread_pool.rs at once: workers at different barriers.
use command_executor.Base.{ℕ, ◌<◌, ◌≡◌, ◌≢◌, sym, ap, ◌∙◌, update, update_other, ℕ_discrete}
use command_executor.ThreadPool.{
  ShutdownMode, Worker, waits_at, Result, System, Step, barrier_opens, worker_tests, worker_takes,
  worker_executes,
}
use command_executor.ThreadPool.Broadcast.{barrier_full}

module _ {ℓ} {C X : Type ℓ} where
  -- A worker that the step moves is not one that waits at a barrier.
  waits_on :
      (workers : ℕ → Worker C X) (k i : ℕ) {a : Worker C X} (w : Worker C X) {b : ℕ} {r : Result X}
      → workers k ≡ a
      → a ≢ waits_at b r
      → workers i ≡ waits_at b r
      → update workers k w i ≡ waits_at b r
  waits_on workers k i w e moves here = elim (ℕ_discrete k i) [
    | yes same ↦ absurd (moves (sym e ∙ ap workers same ∙ here))
    | no other ↦ rw (update_other workers {i = k} {j = i} w other) here
  ]

  module _ (tasks capacity : ℕ) (mode : ShutdownMode) where
    -- Any number of steps.
    pub data Steps (s : System C X) : System C X → Type ℓ where
      stays : Steps s s
      goes_on : {t u : System C X} → Steps s t → Step tasks capacity mode t u → Steps s u

  -- No step lets two workers go that wait at different barriers.
  Step-apart :
      {tasks capacity : ℕ} {mode : ShutdownMode} {s t : System C X} (i j : ℕ) {b b' : ℕ}
      {r r' : Result X}
      → i < tasks
      → j < tasks
      → b ≢ b'
      → Step tasks capacity mode s t
      → s.workers i ≡ waits_at b r
      → s.workers j ≡ waits_at b' r'
      → (t.workers i ≡ waits_at b r) × (t.workers j ≡ waits_at b' r')
  Step-apart {tasks} {s = s} i j {b} {b'} lt lt' apart (barrier_opens k {b = c} e all) h h' =
      let (r₁, at_i, _) = barrier_full tasks c s.workers all i lt in
      let (r₂, at_j, _) = barrier_full tasks c s.workers all j lt' in
      let first : c ≡ b = cc in let second : c ≡ b' = cc in absurd (apart (sym first ∙ second))
  Step-apart {s = s} i j lt lt' apart (worker_tests k lt₁ e) h h' =
      (waits_on s.workers k i _ e (λ x. cc) h, waits_on s.workers k j _ e (λ x. cc) h')
  Step-apart {s = s} i j lt lt' apart (worker_takes k lt₁ e q) h h' =
      (waits_on s.workers k i _ e (λ x. cc) h, waits_on s.workers k j _ e (λ x. cc) h')
  Step-apart {s = s} i j lt lt' apart (worker_executes k x lt₁ e) h h' =
      (waits_on s.workers k i _ e (λ y. cc) h, waits_on s.workers k j _ e (λ y. cc) h')
  Step-apart i j lt lt' apart _ h h' = (h, h')

  -- Two workers that wait at different barriers, as two calls of `in_all_threads` at once can bring
  -- about, wait there after any number of steps of the pool, whatever its threads do.
  pub barriers_never_open :
      {tasks capacity : ℕ} {mode : ShutdownMode} {s t : System C X} (i j : ℕ) {b b' : ℕ}
      {r r' : Result X}
      → i < tasks
      → j < tasks
      → b ≢ b'
      → s.workers i ≡ waits_at b r
      → s.workers j ≡ waits_at b' r'
      → Steps tasks capacity mode s t
      → (t.workers i ≡ waits_at b r) × (t.workers j ≡ waits_at b' r')
  barriers_never_open i j lt lt' apart h h' stays = (h, h')
  barriers_never_open i j lt lt' apart h h' (goes_on steps st) =
      let (k, k') = barriers_never_open i j lt lt' apart h h' steps in
      Step-apart i j lt lt' apart st k k'
