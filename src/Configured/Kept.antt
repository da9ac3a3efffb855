-- ===== src/Configured/Kept.antt =====
-- After `set_thread_local` of examples/thread_local.rs every worker keeps its configuration.
use command_executor.Base.{
  ℕ, ◌<◌, ◌≡◌, refl, ◌∙◌, Option, none, some, List, [], update_same, update_other, ℕ_discrete,
}
use command_executor.ThreadPool.{
  ShutdownMode, Command, user, empty, run_in_all_threads, Executed, succeeds, fails, panics, free,
  waits_for, System, Step, worker_executes, Reach, later,
}
use command_executor.ThreadPool.Deadlock.{Steps, stays, goes_on}
use command_executor.ThreadPool.Locals.{
  set_thread_local, effect, carry, memory, set_thread_local_reaches_all,
}
use command_executor.Configured.{Config, default, execute_command, act, create_thread_pool}

-- Every call of `in_all_threads` is the one of `set_thread_local`.
abbrev pub call :
    {X : Type 0} → ℕ → Executed X → Option Config × List (ℕ × ℕ) → Option Config × List (ℕ × ℕ)
call b x = set_thread_local (some default)

effect_keeps :
    {X : Type 0} (c : Command ℕ) (x : Executed X) (local : Option Config) (done : List (ℕ × ℕ))
    → local ≡ some default
    → (effect act call c x (local, done)).0 ≡ some default
unfolding act set_thread_local
effect_keeps (user c) x (some config) done h = h
effect_keeps (user c) x none done h = h
effect_keeps empty x local done h = h
effect_keeps (run_in_all_threads b) succeeds local done h = refl
effect_keeps (run_in_all_threads b) (fails e) local done h = refl
effect_keeps (run_in_all_threads b) panics local done h = refl

-- The workers are configured.
abbrev AreSet : ℕ → (ℕ → Option Config) → Type 0
AreSet tasks locals = (i : ℕ) → i < tasks → locals i ≡ some default

module _ {X : Type 0} {tasks capacity : ℕ} {mode : ShutdownMode} where
  carry-AreSet :
      {s t : System ℕ X} (m : (ℕ → Option Config) × List (ℕ × ℕ))
      (st : Step tasks capacity mode s t)
      → AreSet tasks m.0
      → AreSet tasks (carry act call st m).0
  carry-AreSet m (worker_executes k {c = c} x lt e) h i lt' = elim (ℕ_discrete k i) [
    | yes same ↦
        rw (← same, update_same m.0 k (effect act call c x (m.0 k, m.1)).0)
          (effect_keeps c x (m.0 k) m.1 (h k lt))
    | no other ↦ update_other m.0 {i = k} {j = i} _ other ∙ h i lt'
  ]
  carry-AreSet m _ h i lt' = h i lt'

  -- The run with further steps.
  abbrev pub further :
      {s t : System ℕ X}
      → Reach tasks capacity mode s
      → Steps tasks capacity mode s t
      → Reach tasks capacity mode t
  further r stays = r
  further r (goes_on steps st) = later (further r steps) st

  abbrev pub configs :
      {s : System ℕ X} → Reach tasks capacity mode s → (ℕ → Option Config) × List (ℕ × ℕ)
  configs r = memory act call none [] r

  further-AreSet :
      {s t : System ℕ X} (r : Reach tasks capacity mode s) (steps : Steps tasks capacity mode s t)
      → AreSet tasks (configs r).0
      → AreSet tasks (configs (further r steps)).0
  further-AreSet r stays h = h
  further-AreSet r (goes_on steps st) h =
      carry-AreSet (configs (further r steps)) st (further-AreSet r steps h)

module _ {X : Type 0} where
  abbrev pub PoolStep : System ℕ X → System ℕ X → Type 0
  PoolStep = let a = create_thread_pool in Step a.tasks a.queue_size a.shutdown_mode

  abbrev pub PoolSteps : System ℕ X → System ℕ X → Type 0
  PoolSteps = let a = create_thread_pool in Steps a.tasks a.queue_size a.shutdown_mode

  abbrev pub PoolReach : System ℕ X → Type 0
  PoolReach = let a = create_thread_pool in Reach a.tasks a.queue_size a.shutdown_mode

-- When `set_thread_local` has returned, and after any number of steps of the pool from then on: a command that
-- is executed in any of the four workers does not panic, since it finds the configuration.
pub commands_configured :
    {X : Type 0} {s t u : System ℕ X} (r : PoolReach s) (st : PoolStep s t) (j b : ℕ)
    → s.clients j ≡ waits_for b
    → t.clients j ≡ free
    → (steps : PoolSteps t u) (i : ℕ) → i < create_thread_pool.tasks
    → execute_command {X = X} ((configs (further (later r st) steps)).0 i) ≡ succeeds
unfolding execute_command
commands_configured r st j b w back steps i lt =
    rw
      (further-AreSet (later r st) steps
        (set_thread_local_reaches_all act call none [] r st j b (some default) (λ x ends. refl) w
          back)
        i lt)
      refl
