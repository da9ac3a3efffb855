-- ===== src/Configured.antt =====
-- examples/thread_local.rs: a pool whose commands read a thread local that `main` has set.
pub mod Kept
mod Examples
use command_executor.Base.{ℕ, Option, none, some, List, [], ◌∷◌, ◌++◌}
use command_executor.ThreadPool.{complete_pending, Executed, succeeds, panics}
use command_executor.ThreadPoolBuilder.{
  Arguments, new, with_name_str, with_tasks, with_queue_size, with_shutdown_mode, build,
}

-- `main`'s pool
unfoldable pub create_thread_pool : Arguments
unfolding build with_shutdown_mode with_queue_size with_tasks with_name_str new
create_thread_pool = build (
    with_shutdown_mode complete_pending
      (with_queue_size 16 (with_tasks 4 (with_name_str "example" new))))

pub record Config : Type 0 where
  pub sleep_time : ℕ

-- `Config::default()`
abbrev pub default : Config
default = record { sleep_time = 1 }

-- How `ThreadLocalExampleCommand::execute` ends, by the thread local `THREAD_LOCAL_CONFIG`: `unwrap` panics
-- on `None`.
unfoldable pub execute_command : {X : Type 0} → Option Config → Executed X
execute_command none = panics
execute_command (some config) = succeeds

-- What it does: it leaves the thread local as it is, and sleeps and prints its payload, in this order, of
-- which the sleep time and the payload are recorded.
unfoldable pub act :
    {X : Type 0} → ℕ → Executed X → Option Config × List (ℕ × ℕ) → Option Config × List (ℕ × ℕ)
act payload x (none, done) = (none, done)
act payload x (some config, done) = (some config, done ++ ((config.sleep_time, payload) ∷ []))
