-- ===== src/Flush/Stages.antt =====
-- `main` of examples/flush_thread_local.rs from the end of the first stage on. The first two stages are those
-- of examples/fetch_thread_local.rs, and the third has one worker.
use Prim.Native.String.{String}
use command_executor.Base.{
  ℕ, ◌+◌, ◌<◌, ◌≡◌, false, List, [], ◌∷◌, ◌++◌, length, weigh, tally, update, if◌then◌else◌,
}
use command_executor.ThreadPool.{
  complete_pending, running, down, free, waits_for, ok, returned, executes, execute, at_barrier,
  release, Result, succeeds, fails, user, empty, run_in_all_threads, System, enqueued, Step,
  broadcast_begins, broadcast_submits, broadcast_waits, shutdown_begins, shutdown_drained,
  shutdown_stores, shutdown_wakes, shutdown_returns, worker_tests, worker_takes, worker_executes,
  Reach,
}
use command_executor.ThreadPoolBuilder.{
  Arguments, new, with_name_str, with_tasks, with_queue_size, with_shutdown_mode, build,
}
use command_executor.Pipeline.{
  Program, closing, Run, OfOwner, OfWorker, executed, HasNoClients, Reached,
}
use command_executor.Pipeline.Files.{Output}
use command_executor.Fetch.{HashSet, empty_set, is_payload}
use command_executor.Fetch.Sets.{carry_sets}
use command_executor.Fetch.Stages.{store_numbers, SecondStep}
use command_executor.Flush.{flush, write_payload}

unfoldable pub create_thread_pool : String → ℕ → Arguments
unfolding build with_shutdown_mode with_queue_size with_tasks with_name_str new
create_thread_pool name tasks = build (
    with_shutdown_mode complete_pending
      (with_queue_size 4 (with_tasks tasks (with_name_str name new))))

unfoldable pub third_stage : Arguments
unfolding create_thread_pool
third_stage = create_thread_pool "third" 1

-- `main` up to the end of the first stage. The first two pools, `FirstStageCommand`, `SecondStageCommand` and the
-- loop are the same code as in examples/fetch_thread_local.rs.
abbrev pub first_stages : ℕ → Program ℕ (ℕ → HashSet)
first_stages = store_numbers

-- Where `main` stands: in `flush`, in the shutdown of the second or of the third stage, or left by an
-- error.
pub data Stand : Type 0 where
  flushes : Stand
  closes_second : Stand
  closes_third : Stand
  failed : Stand

-- `locals` holds `INTERMEDIATE_RESULT` of the workers of the second stage.
pub record Flushing (X : Type 0) : Type 0 where
  pub stand : Stand
  pub second : System ℕ X
  pub locals : ℕ → HashSet
  pub third : System HashSet X
  pub out : Output

abbrev pub ThirdStep : {X : Type 0} → System HashSet X → System HashSet X → Type 0
ThirdStep = let a = third_stage in Step a.tasks a.queue_size a.shutdown_mode

-- 1 for a set with the member
abbrev pub member : ℕ → HashSet → ℕ
member x set = if set x then 1 else 0

-- An order of the members of a set, in which `for i in payload` may go over it.
abbrev pub IsOrderOf : HashSet → List ℕ → Type 0
IsOrderOf set order = (x : ℕ) → weigh (is_payload x) order ≡ member x set

module _ {X : Type 0} (count : ℕ) where
  -- The steps of the second stage in `flush` and in its shutdown, but for the return of
  -- `in_all_threads` and what it does in the workers.
  abbrev pub IsOfSecond : Stand → {p q : System ℕ X} → SecondStep count p q → Type 0
  IsOfSecond m (broadcast_begins j ph e) = (m ≡ flushes) × (j ≡ 0)
  IsOfSecond m (broadcast_submits j e room) = (m ≡ flushes) × (j ≡ 0)
  IsOfSecond m (broadcast_waits j e) = (m ≡ flushes) × (j ≡ 0)
  IsOfSecond m (shutdown_begins ph h) = m ≡ closes_second
  IsOfSecond m (shutdown_drained ph e) = m ≡ closes_second
  IsOfSecond m (shutdown_stores ph) = m ≡ closes_second
  IsOfSecond m (shutdown_wakes ph room) = m ≡ closes_second
  IsOfSecond m (shutdown_returns ph) = m ≡ closes_second
  IsOfSecond m (worker_tests i lt e) = Unit
  IsOfSecond m (worker_takes i lt e q) = Unit
  IsOfSecond m (worker_executes i {c = user c} x lt e) = Unit
  IsOfSecond m (worker_executes i {c = empty} x lt e) = Unit
  IsOfSecond m _ = ⊥

module _ {X : Type 0} (to_string : ℕ → String) (count : ℕ) where
  pub data Move (s : Flushing X) : Flushing X → Type 0 where
    second_moves :
        {p : System ℕ X} (st : SecondStep count s.second p)
        → IsOfSecond count s.stand st
        → Move s (record s { second = p; locals = (carry_sets st (s.locals, empty_set)).0 })
    -- the closure of `flush` in a worker, with `submit` to the third stage
    worker_flushes :
        (i : ℕ) {b : ℕ} {r : Result X}
        → i < 2
        → s.second.workers i ≡ executes (run_in_all_threads b) r
        → s.third.phase ≡ running
        → length s.third.queue < third_stage.queue_size
        → Move s (record s {
          second = record s.second {
            workers = update s.second.workers i (execute (run_in_all_threads b) r succeeds);
            completed = s.second.completed ++ (run_in_all_threads b ∷ []);
          };
          locals = update s.locals i (flush (s.locals i)).0;
          third = enqueued (user (flush (s.locals i)).1) s.third;
        })
    -- `in_all_threads` returns
    flush_returns :
        {b : ℕ}
        → s.stand ≡ flushes
        → s.second.clients 0 ≡ waits_for b
        → tally (at_barrier b) 2 s.second.workers + 1 ≡ 2 + 1
        → Move s (record s {
          stand = closes_second;
          second = record s.second {
            clients = update s.second.clients 0 free;
            workers = λ i. release b (s.second.workers i);
          };
        })
    second_joins :
        s.stand ≡ closes_second
        → s.second.phase ≡ down
        → ((i : ℕ) → i < 2 → s.second.workers i ≡ returned ok)
        → Move s (record s { stand = closes_third })
    third_shuts_down :
        {q : System HashSet X}
        → s.stand ≡ closes_third
        → (st : ThirdStep s.third q) → OfOwner st
        → Move s (record s { third = q })
    -- a lock, or a join of a stage in which a thread has failed
    main_fails : Move s (record s { stand = failed })
    third_moves :
        {q : System HashSet X} (st : ThirdStep s.third q)
        → OfWorker st
        → Move s (record s { third = q })
    third_writes :
        {set : HashSet} {r : Result X} (order : List ℕ)
        → IsOrderOf set order
        → s.third.workers 0 ≡ executes (user set) r
        → Move s (record s {
          third = executed s.third 0 set r succeeds;
          out = write_payload to_string order 0 s.out;
        })
    -- what a failed write leaves in the file is not modelled
    third_fails_to_write :
        {set : HashSet} {r : Result X} (e : X)
        → s.third.workers 0 ≡ executes (user set) r
        → Move s (record s { third = executed s.third 0 set r (fails e) })

  -- When the first stage has ended: the third stage has executed nothing, and the result file of its
  -- worker is closed.
  pub record IsBegun (s : Flushing X) : Type 0 where
    pub begun : Run ℕ (ℕ → HashSet) X
    pub reached : Reached (first_stages count) begun
    pub at_main : begun.main ≡ closing 1
    pub at_flush : s.stand ≡ flushes
    pub at_second : s.second ≡ begun.pools 1
    pub is_running : s.second.phase ≡ running
    pub at_locals : s.locals ≡ begun.world
    pub third_reached : (let a = third_stage in Reach a.tasks a.queue_size a.shutdown_mode s.third)
    pub no_commands : HasNoClients s.third
    pub closed : s.out.opened 0 ≡ false

  pub data Flushes : Flushing X → Type 0 where
    begins : {s : Flushing X} → IsBegun s → Flushes s
    goes_on : {s t : Flushing X} → Flushes s → Move s t → Flushes t
