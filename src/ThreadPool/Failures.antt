-- ===== src/ThreadPool/Failures.antt =====
-- A worker of src/thread_pool.rs that has failed: its result is an error, or it panicked.
use command_executor.Base.{Bool, true, false}
use command_executor.ThreadPool.{
  Result, ok, err, Command, user, empty, run_in_all_threads, Executed, succeeds, fails, panics,
  Worker, tests, dequeues, executes, waits_at, returned, panicked, test_stopped, execute,
}

module _ {ℓ} {C X : Type ℓ} where
  abbrev pub HasFailed : Worker C X → Type 0
  HasFailed (tests (err e)) = Unit
  HasFailed (dequeues (err e)) = Unit
  HasFailed (executes c (err e)) = Unit
  HasFailed (waits_at b (err e)) = Unit
  HasFailed (returned (err e)) = Unit
  HasFailed panicked = Unit
  HasFailed _ = ⊥

  -- A failure stays.
  pub execute-HasFailed :
      (c : Command C) (r : Result X) (x : Executed X)
      → HasFailed (executes c r)
      → HasFailed (execute c r x)
  unfolding execute
  execute-HasFailed c ok x h = absurd h
  execute-HasFailed (user c) (err e) succeeds h = tt
  execute-HasFailed (user c) (err e) (fails e') h = tt
  execute-HasFailed (user c) (err e) panics h = tt
  execute-HasFailed empty (err e) x h = tt
  execute-HasFailed (run_in_all_threads b) (err e) succeeds h = tt
  execute-HasFailed (run_in_all_threads b) (err e) (fails e') h = tt
  execute-HasFailed (run_in_all_threads b) (err e) panics h = tt

  -- A command of a client that fails makes its worker one that has failed.
  pub execute-fails : (c : C) (r : Result X) (e : X) → HasFailed (execute (user c) r (fails e))
  unfolding execute
  execute-fails c r e = tt

-- A failure stays when the worker looks at `stopped`.
pub test_stopped-HasFailed {ℓ} :
    (C : Type ℓ) {X : Type ℓ} (stopped : Bool) (r : Result X)
    → HasFailed {C = C} (tests r)
    → HasFailed (test_stopped {C = C} stopped r)
unfolding test_stopped
test_stopped-HasFailed C true (err e) h = tt
test_stopped-HasFailed C false (err e) h = tt
test_stopped-HasFailed C stopped ok h = absurd h
