-- ===== src/Fetch/Once.antt =====
-- How often a call of `in_all_threads` of src/thread_pool.rs runs its function.
use command_executor.Base.{
  ◌≢◌, ℕ, zero, suc, ◌+◌, ◌≤◌, ◌<◌, ◌≡◌, refl, ap, ◌∙◌, [], ◌∷◌, weigh, weigh-append, ◌==◌,
  if◌then◌else◌, arith, update, update_same, update_other, ℕ_discrete, tally, tally-update,
  tally-eq-zero,
}
use command_executor.ThreadPool.{
  Result, waits_at, tests, ShutdownMode, Command, user, empty, run_in_all_threads, Executed,
  succeeds, fails, panics, free, waits_for, System, Step, worker_executes, Reach, start, later,
}
use command_executor.ThreadPool.Commands.{commands_once_in_order}
use command_executor.ThreadPool.Broadcast.{in_all_threads_waits_for_all}
use command_executor.ThreadPool.Locals.{effect, memory, memory-AtBarrier, waiting-memory}
use command_executor.Fetch.Calls.{of_call}
use command_executor.Fetch.Budget.{Reach-IsBudgeted}

-- The function of the call with the barrier `b` counts up a number of its worker, and nothing else does.
abbrev keep : {C X : Type 0} → C → Executed X → ℕ × ℕ → ℕ × ℕ
keep c x m = m

abbrev counts : {X : Type 0} → ℕ → ℕ → Executed X → ℕ × ℕ → ℕ × ℕ
counts b o x (n, g) = (if b == o then suc n else n, g)

effect-of_call :
    {C X : Type 0} (b : ℕ) (c : Command C) (x : Executed X) (n g : ℕ)
    → (effect keep (counts b) c x (n, g)).0 ≤ n + of_call b c
effect-of_call b (user c) x n g = omega arith
effect-of_call b empty x n g = omega arith
effect-of_call b (run_in_all_threads o) succeeds n g = ground arith
effect-of_call b (run_in_all_threads o) (fails e) n g = ground arith
effect-of_call b (run_in_all_threads o) panics n g = ground arith

counts-pos :
    {X : Type 0} (b o : ℕ) (x : Executed X) (m : ℕ × ℕ)
    → x ≢ panics
    → b ≡ o
    → 0 < (counts b o x m).0
counts-pos b o x m ends same = ground arith

module _ {C X : Type 0} {tasks capacity : ℕ} {mode : ShutdownMode} where
  -- How often each worker has run it.
  abbrev pub executions : ℕ → {s : System C X} → Reach tasks capacity mode s → ℕ → ℕ
  executions b r = (memory keep (counts b) 0 0 r).0

  executions-le :
      (b : ℕ) {s : System C X} (r : Reach tasks capacity mode s)
      → tally (λ n. n) tasks (executions b r) ≤ weigh (of_call b) s.completed
  executions-le b start = omega (arith, tally-eq-zero (λ n. n) tasks (λ i. 0) (λ i lt. refl))
  executions-le b (later {s} r (worker_executes i {c = c} x lt e)) =
      let m = memory keep (counts b) 0 0 r in
      omega (
        arith,
        executions-le b r,
        effect-of_call b c x (m.0 i) m.1,
        tally-update (λ n. n) tasks i m.0 (effect keep (counts b) c x (m.0 i, m.1)).0 lt,
        weigh-append (of_call b) s.completed (c ∷ []),
      )
  executions-le b (later r _) = executions-le b r

least : (n : ℕ) (f : ℕ → ℕ) → ((i : ℕ) → i < n → 0 < f i) → n ≤ tally (λ k. k) n f
unfolding tally
least zero f h = omega arith
least (suc n) f h = omega (arith, h n (omega arith), least n f (λ i lt. h i (omega arith)))

-- Positive numbers of which there are as many as their sum are 1.
each_once :
    (n : ℕ) (f : ℕ → ℕ)
    → ((i : ℕ) → i < n → 0 < f i)
    → tally (λ k. k) n f ≤ n
    → (i : ℕ) → i < n
    → f i ≡ 1
each_once n f h le i lt = omega (
  arith,
  h i lt,
  le,
  tally-update (λ k. k) n i f 1 lt,
  least n (update f i 1) (λ j below. elim (ℕ_discrete i j) [
    | yes same ↦ rw (← same, update_same f i 1) (omega arith)
    | no other ↦ rw (update_other f {i = i} {j = j} 1 other) (h j below)
  ]),
)

module _ {C X : Type 0} {tasks capacity : ℕ} {mode : ShutdownMode} where
  -- When a call of `in_all_threads` or `in_all_threads_mut` returns, in any run with any number of clients: every
  -- worker has run its function once and stands at its barrier, and the worker goes on to its loop.
  pub in_all_threads_runs_once :
      {s t : System C X} (r : Reach tasks capacity mode s) (st : Step tasks capacity mode s t)
      (j b : ℕ)
      → s.clients j ≡ waits_for b
      → t.clients j ≡ free
      → (i : ℕ) → i < tasks
      → (executions b (later r st) i ≡ 1)
        × ((x : Result X) × (s.workers i ≡ waits_at b x) × (t.workers i ≡ tests x))
  in_all_threads_runs_once {s} r st j b w back i lt =
      let there : (k : ℕ) → k < tasks → 0 < executions b r k = λ k below.
        let (y, at, on) = in_all_threads_waits_for_all j st w back k below in
        memory-AtBarrier keep (counts b) (λ o n. b ≡ o → 0 < n) (counts-pos b) 0 0 r k b y at
          refl in
      let (y, at, on) = in_all_threads_waits_for_all j st w back i lt in
      let (in_order, bounded, done) = commands_once_in_order r in
      (
        waiting-memory keep (counts b) 0 0 r st at
            ∙ each_once tasks (executions b r) there
                (omega (
                  arith,
                  executions-le b r,
                  done (of_call b),
                  ap (weigh (of_call b)) in_order,
                  weigh-append (of_call b) s.taken s.queue,
                  (Reach-IsBudgeted r).within b,
                ))
                i lt,
        (y, at, on),
      )
