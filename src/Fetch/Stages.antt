-- ===== src/Fetch/Stages.antt =====
-- `main` of examples/fetch_thread_local.rs: two stages, and the call of `in_all_threads_mut` between the
-- end of the first and the shutdown of the second.
use Prim.Native.String.{String}
use command_executor.Base.{ℕ, zero, suc, ◌≡◌, false, update}
use command_executor.ThreadPool.{
  complete_pending, running, System, broadcast_begins, broadcast_submits, broadcast_waits,
  barrier_opens, worker_tests, worker_takes, worker_executes,
}
use command_executor.ThreadPoolBuilder.{
  Arguments, new, with_name_str, with_tasks, with_queue_size, with_shutdown_mode, build,
}
use command_executor.Pipeline.{Program, closing, Run, PoolStep, Reached}
use command_executor.Pipeline.Numbers.{range}
use command_executor.Fetch.{HashSet, empty_set, insert}
use command_executor.Fetch.Sets.{carry_sets}

unfoldable pub create_thread_pool : String → ℕ → Arguments
unfolding build with_shutdown_mode with_queue_size with_tasks with_name_str new
create_thread_pool name tasks = build (
    with_shutdown_mode complete_pending
      (with_queue_size 4 (with_tasks tasks (with_name_str name new))))

-- The pools of `main`.
unfoldable pub stages : ℕ → Arguments
unfolding create_thread_pool
stages zero = create_thread_pool "first" 2
stages (suc n) = create_thread_pool "second" 2

-- `FirstStageCommand`: the payload goes into the next command.
unfoldable pub next_payload : ℕ → ℕ → ℕ
next_payload stage payload = payload

-- `main` up to the end of the first stage, with the numbers below `count`; the thread locals
-- `INTERMEDIATE_RESULT` are empty at the start.
abbrev pub store_numbers : ℕ → Program ℕ (ℕ → HashSet)
store_numbers count = record {
  stages = stages;
  last = 1;
  source = range 0 count;
  forward = next_payload;
  world = λ i. empty_set;
  sink = λ i payload locals. update locals i (insert payload (locals i));
  may_fail = false;
}

module _ {X : Type 0} (count : ℕ) where
  abbrev pub SecondStep : System ℕ X → System ℕ X → Type 0
  SecondStep = PoolStep {W = ℕ → HashSet} (store_numbers count) 1

  -- The steps of the second stage's workers, and of `main` inside `in_all_threads_mut`.
  abbrev pub IsOfFetch : {p q : System ℕ X} → SecondStep p q → Type 0
  IsOfFetch (broadcast_begins j ph e) = j ≡ 0
  IsOfFetch (broadcast_submits j e room) = j ≡ 0
  IsOfFetch (broadcast_waits j e) = j ≡ 0
  IsOfFetch (barrier_opens j e full) = j ≡ 0
  IsOfFetch (worker_tests i lt e) = Unit
  IsOfFetch (worker_takes i lt e q) = Unit
  IsOfFetch (worker_executes i x lt e) = Unit
  IsOfFetch _ = ⊥

  -- The second stage with its thread locals and `result_set`, from the end of the first stage on.
  pub data Fetching : System ℕ X → (ℕ → HashSet) × HashSet → Type 0 where
    calls :
        {s : Run ℕ (ℕ → HashSet) X}
        → Reached (store_numbers count) s
        → s.main ≡ closing 1
        → (s.pools 1).phase ≡ running
        → Fetching (s.pools 1) (s.world, empty_set)
    goes_on :
        {p q : System ℕ X} {m : (ℕ → HashSet) × HashSet}
        → Fetching p m
        → (st : SecondStep p q) → IsOfFetch st
        → Fetching q (carry_sets st m)
