-- ===== src/Pipeline/Costs.antt =====
-- What is still to do in one pool of examples/pipeline.rs, as a number that its steps lower.
use command_executor.Base.{
  ℕ, ◌+◌, ◌*◌, ◌≤◌, ◌<◌, ◌≡◌, ap, Bool, [], ◌∷◌, weigh, weigh-append, arith, update, tally,
  tally-update,
}
use command_executor.ThreadPool.{
  ShutdownMode, immediate, complete_pending, Result, Command, user, empty, run_in_all_threads,
  Executed, succeeds, fails, panics, Worker, tests, dequeues, executes, Phase, running, draining,
  storing, waking, down, execute, test_stopped, enter_shutdown, System, enqueued, Step,
  shutdown_begins, shutdown_drained, shutdown_stores, shutdown_wakes, shutdown_returns,
  worker_tests, worker_takes, worker_executes,
}
use command_executor.Pipeline.{OfOwner, OfWorker, OfPool, executed}

-- `rate` is what a command of a stage costs in it and in the stages after.
module _ {ℓ} {C : Type ℓ} (rate : ℕ) where
  abbrev pub command_cost : Command C → ℕ
  command_cost (user c) = rate
  command_cost _ = 3

module _ {ℓ} {C X : Type ℓ} (rate : ℕ) where
  abbrev pub worker_cost : Worker C X → ℕ
  worker_cost (tests r) = 2
  worker_cost (dequeues r) = 1
  worker_cost (executes c r) = command_cost rate c
  worker_cost _ = 0

abbrev phase_cost : ℕ → Phase → ℕ
phase_cost tasks running = 4 * tasks + 4
phase_cost tasks draining = 4 * tasks + 3
phase_cost tasks storing = 4 * tasks + 2
phase_cost tasks (waking k) = 4 * k + 1
phase_cost tasks down = 0

enter_shutdown-cost :
    (tasks : ℕ) (mode : ShutdownMode)
    → phase_cost tasks (enter_shutdown mode) < phase_cost tasks running
unfolding enter_shutdown
enter_shutdown-cost tasks immediate = omega arith
enter_shutdown-cost tasks complete_pending = omega arith

test_stopped-cost {ℓ} :
    (C : Type ℓ) {X : Type ℓ} (rate : ℕ) (stopped : Bool) (r : Result X)
    → worker_cost {C = C} rate (test_stopped stopped r) < 2
unfolding test_stopped
test_stopped-cost C rate stopped r = ground arith

module _ {ℓ} {C X : Type ℓ} (rate tasks : ℕ) where
  abbrev pub pool_cost : System C X → ℕ
  pool_cost p =
      weigh (command_cost rate) p.queue
      + tally (worker_cost rate) tasks p.workers
      + phase_cost tasks p.phase

  moved-cost :
      (p : System C X) (i : ℕ) {a : Worker C X} (b : Worker C X)
      → i < tasks
      → p.workers i ≡ a
      → tally (worker_cost rate) tasks (update p.workers i b) + worker_cost rate a
        ≡ tally (worker_cost rate) tasks p.workers + worker_cost rate b
  moved-cost p i b lt e =
      omega (arith, tally-update (worker_cost rate) tasks i p.workers b lt, ap (worker_cost rate) e)

  pub enqueued-cost :
      (p : System C X) (c : Command C)
      → pool_cost (enqueued c p) ≡ pool_cost p + command_cost rate c
  enqueued-cost p c = omega (arith, weigh-append (command_cost rate) p.queue (c ∷ []))

  execute-cost :
      (c : C) (r : Result X) (x : Executed X) → worker_cost rate (execute (user c) r x) ≤ 2
  unfolding execute
  execute-cost c r x = ground arith

  pub executed-cost :
      (p : System C X) (i : ℕ) {c : C} {r : Result X} (x : Executed X)
      → i < tasks
      → p.workers i ≡ executes (user c) r
      → pool_cost (executed p i c r x) + rate ≤ pool_cost p + 2
  executed-cost p i {c} {r} x lt e =
      omega (arith, moved-cost p i (execute (user c) r x) lt e, execute-cost c r x)

  execute-lowers :
      (c : Command C) (r : Result X) (x : Executed X)
      → OfPool c
      → worker_cost rate (execute c r x) < command_cost rate c
  unfolding execute
  execute-lowers (user c) r x o = absurd o
  execute-lowers empty r x o = omega arith
  execute-lowers (run_in_all_threads b) r succeeds o = omega arith
  execute-lowers (run_in_all_threads b) r (fails e) o = omega arith
  execute-lowers (run_in_all_threads b) r panics o = omega arith

  module _ {capacity : ℕ} {mode : ShutdownMode} where
    pub owner-lowers :
        {p q : System C X} (st : Step tasks capacity mode p q)
        → OfOwner st
        → pool_cost q < pool_cost p
    owner-lowers (shutdown_begins ph h) o =
        omega (arith, ap (phase_cost tasks) ph, enter_shutdown-cost tasks mode)
    owner-lowers (shutdown_drained ph e) o = omega (arith, ap (phase_cost tasks) ph)
    owner-lowers (shutdown_stores ph) o = omega (arith, ap (phase_cost tasks) ph)
    owner-lowers {p} (shutdown_wakes {k} ph room) o = omega (
      arith,
      ap (phase_cost tasks) ph,
      weigh-append (command_cost rate) p.queue (Command.empty ∷ []),
    )
    owner-lowers (shutdown_returns ph) o = omega (arith, ap (phase_cost tasks) ph)
    owner-lowers _ o = absurd o

    pub worker-lowers :
        {p q : System C X} (st : Step tasks capacity mode p q)
        → OfWorker st
        → pool_cost q < pool_cost p
    worker-lowers {p} (worker_tests i {r} lt e) o = omega (
      arith,
      moved-cost p i (test_stopped p.stopped r) lt e,
      test_stopped-cost C rate p.stopped r,
    )
    worker-lowers {p} (worker_takes i {r} {c} {rest} lt e q) o =
        omega (arith, moved-cost p i (executes c r) lt e, ap (weigh (command_cost rate)) q)
    worker-lowers {p} (worker_executes i {r} {c} x lt e) o =
        omega (arith, moved-cost p i (execute c r x) lt e, execute-lowers c r x o)
    worker-lowers _ o = absurd o
