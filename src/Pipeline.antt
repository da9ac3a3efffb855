-- ===== src/Pipeline.antt =====
-- examples/pipeline.rs and examples/read_process_write_pipeline.rs: a chain of thread pools, in which
-- the commands of one stage submit those of the next, and the last stage writes lines to a file.
pub mod Stages
pub mod Accounts
pub mod Passes
pub mod Moves
pub mod Done
pub mod Files
pub mod Fitness
pub mod Alive
pub mod Progress
pub mod Fine
pub mod Costs
pub mod Ending
pub mod Completion
pub mod Numbers
pub mod Hashes
pub mod Examples
mod ProgressExamples
use Prim.Native.String.{String}
use command_executor.Base.{
  ℕ, suc, ◌≤◌, ◌<◌, ◌≡◌, ◌≢◌, Bool, true, false, List, [], ◌∷◌, ◌++◌, length, weigh, update,
}
use command_executor.ThreadPool.{
  tests, dequeues, free, ShutdownMode, Result, ok, Command, user, empty, run_in_all_threads,
  Executed, succeeds, fails, Worker, executes, returned, panicked, execute, Phase, running, down,
  System, enqueued, Step, submits, broadcast_begins, broadcast_submits, broadcast_waits,
  barrier_opens, shutdown_begins, shutdown_drained, shutdown_stores, shutdown_wakes,
  shutdown_returns, worker_tests, worker_takes, worker_executes, Reach,
}
use command_executor.ThreadPool.Shutdown.{IsOver}
use command_executor.ThreadPoolBuilder.{Arguments}

-- The payload of a command of the stage `n` is in `C`; its command submits one with the payload
-- `forward n` of it to the stage after. The command of the stage `last` does `sink` to `W`, which holds the
-- thread locals of the workers and what they share, by the number of its worker; it may fail, or not.
pub record Program {ℓ} (C W : Type ℓ) : Type ℓ where
  pub stages : ℕ → Arguments
  pub last : ℕ
  pub source : List C
  pub forward : ℕ → C → C
  pub world : W
  pub sink : ℕ → C → W → W
  pub may_fail : Bool

-- Where `main` stands: in the loop that submits, with what is left of the source; in `shutdown` of
-- the stage `n`, with all stages before it joined; or left by an error.
pub data Main {ℓ} (C : Type ℓ) : Type ℓ where
  submitting : List C → Main C
  closing : ℕ → Main C
  failed : Main C

-- `written` and `lost` record the payloads of the last stage's commands that succeeded, and failed.
pub record Run {ℓ} (C W X : Type ℓ) : Type ℓ where
  pub main : Main C
  pub pools : ℕ → System C X
  pub world : W
  pub written : List C
  pub lost : List C

-- The number of a client's command.
abbrev pub of_client {ℓ} : {C : Type ℓ} → (C → ℕ) → Command C → ℕ
of_client v (user c) = v c
of_client v _ = 0

-- A command of the pool, and not of a stage.
abbrev pub OfPool {ℓ} : {C : Type ℓ} → Command C → Type 0
OfPool (user c) = ⊥
OfPool _ = Unit

module _ {ℓ} {C X : Type ℓ} {tasks capacity : ℕ} {mode : ShutdownMode} where
  -- The steps of the owner inside `shutdown`.
  abbrev pub OfOwner : {s t : System C X} → Step tasks capacity mode s t → Type 0
  OfOwner (shutdown_begins ph h) = Unit
  OfOwner (shutdown_drained ph e) = Unit
  OfOwner (shutdown_stores ph) = Unit
  OfOwner (shutdown_wakes ph room) = Unit
  OfOwner (shutdown_returns ph) = Unit
  OfOwner _ = ⊥

  -- The steps of a worker that are no execution of a stage's command.
  abbrev pub OfWorker : {s t : System C X} → Step tasks capacity mode s t → Type 0
  OfWorker (worker_tests i lt e) = Unit
  OfWorker (worker_takes i lt e q) = Unit
  OfWorker (worker_executes i {c = c} x lt e) = OfPool c
  OfWorker _ = ⊥

module _ {ℓ} {C X : Type ℓ} where
  -- A pool when its worker `i` has executed the command of a client.
  abbrev pub executed : System C X → ℕ → C → Result X → Executed X → System C X
  executed s i c r x = record s {
    workers = update s.workers i (execute (user c) r x);
    completed = s.completed ++ (user c ∷ []);
  }

  -- Before the test of the loop, or in `dequeue`, without an error.
  abbrev pub IsAtLoop : Worker C X → Type 0
  IsAtLoop (tests ok) = Unit
  IsAtLoop (dequeues ok) = Unit
  IsAtLoop _ = ⊥

  -- All commands of clients that were submitted, counted.
  abbrev pub HasNoClients : System C X → Type 0
  HasNoClients s = weigh (λ c. of_client (λ _. 1) c) s.submitted ≡ 0

module _ {ℓ} {C W X : Type ℓ} (P : Program C W) where
  abbrev pub PoolStep : ℕ → System C X → System C X → Type ℓ
  PoolStep n = let a = P.stages n in Step a.tasks a.queue_size a.shutdown_mode

  -- A queue with room, in a pool that is not shut down.
  abbrev pub Accepts : ℕ → System C X → Type 0
  Accepts n s = (s.phase ≡ running) × (length s.queue < (P.stages n).queue_size)

  pub data Move (s : Run C W X) : Run C W X → Type ℓ where
    -- `tp.submit(...)` in the loop of `main`
    main_submits :
        {c : C} {rest : List C}
        → s.main ≡ submitting (c ∷ rest)
        → Accepts 0 (s.pools 0)
        → Move s (record s {
          main = submitting rest;
          pools = update s.pools 0 (enqueued (user c) (s.pools 0));
        })
    -- a `?` in the loop of `main`, of a lock or of the source
    main_gives_up : {rest : List C} → s.main ≡ submitting rest → Move s (record s { main = failed })
    main_closes : s.main ≡ submitting [] → Move s (record s { main = closing 0 })
    -- `tp.shutdown()`
    main_shuts_down :
        {n : ℕ} {p : System C X}
        → s.main ≡ closing n
        → n ≤ P.last
        → (st : PoolStep n (s.pools n) p) → OfOwner st
        → Move s (record s { pools = update s.pools n p })
    -- `tp.join()?`, which returns when all threads have ended, and fails if one of them did
    main_joins :
        {n : ℕ}
        → s.main ≡ closing n
        → n ≤ P.last
        → (s.pools n).phase ≡ down
        → ((i : ℕ) → i < (P.stages n).tasks → (s.pools n).workers i ≡ returned ok)
        → Move s (record s { main = closing (suc n) })
    main_join_fails :
        {n : ℕ} (i : ℕ)
        → s.main ≡ closing n
        → n ≤ P.last
        → i < (P.stages n).tasks
        → (s.pools n).phase ≡ down
        → (s.pools n).workers i ≢ returned ok
        → ((j : ℕ) → j < (P.stages n).tasks → IsOver ((s.pools n).workers j))
        → Move s (record s { main = failed })
    -- a worker of any stage on its own
    worker_moves :
        (n : ℕ) {p : System C X}
        → n ≤ P.last
        → (st : PoolStep n (s.pools n) p) → OfWorker st
        → Move s (record s { pools = update s.pools n p })
    -- a command of a stage submits one to the next
    worker_forwards :
        (n i : ℕ) {c : C} {r : Result X}
        → n < P.last
        → i < (P.stages n).tasks
        → (s.pools n).workers i ≡ executes (user c) r
        → Accepts (suc n) (s.pools (suc n))
        → Move s (record s {
          pools =
              update
                (update s.pools n (executed (s.pools n) i c r succeeds))
                (suc n)
                (enqueued (user (P.forward n c)) (s.pools (suc n)));
        })
    -- a command of the last stage does its work
    worker_writes :
        (i : ℕ) {c : C} {r : Result X}
        → i < (P.stages P.last).tasks
        → (s.pools P.last).workers i ≡ executes (user c) r
        → Move s (record s {
          pools = update s.pools P.last (executed (s.pools P.last) i c r succeeds);
          world = P.sink i c s.world;
          written = s.written ++ (c ∷ []);
        })
    -- or returns an error; what a failed write leaves in a file is not modelled
    worker_fails_to_write :
        (i : ℕ) {c : C} {r : Result X} (e : X)
        → P.may_fail ≡ true
        → i < (P.stages P.last).tasks
        → (s.pools P.last).workers i ≡ executes (user c) r
        → Move s (record s {
          pools = update s.pools P.last (executed (s.pools P.last) i c r (fails e));
          lost = s.lost ++ (c ∷ []);
        })

  -- `main` when the pools are built and `set_next` has returned: every pool is running, no command of
  -- a stage has been submitted, and every worker is in its loop again.
  pub record IsStart (s : Run C W X) : Type ℓ where
    pub at_main : s.main ≡ submitting P.source
    pub reached :
        (n : ℕ) → (let a = P.stages n in Reach a.tasks a.queue_size a.shutdown_mode (s.pools n))
    pub is_running : (n : ℕ) → (s.pools n).phase ≡ running
    pub no_clients : (n j : ℕ) → (s.pools n).clients j ≡ free
    pub nothing_queued : (n : ℕ) → (s.pools n).queue ≡ []
    pub at_loop : (n i : ℕ) → IsAtLoop ((s.pools n).workers i)
    pub no_commands : (n : ℕ) → HasNoClients (s.pools n)
    pub at_world : s.world ≡ P.world
    pub none_written : s.written ≡ []
    pub none_lost : s.lost ≡ []

  pub data Reached : Run C W X → Type ℓ where
    starts : {s : Run C W X} → IsStart s → Reached s
    moves : {s t : Run C W X} → Reached s → Move s t → Reached t
