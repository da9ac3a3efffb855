-- ===== src/Printing.antt =====
-- examples/thread_pool.rs: one pool, whose commands print their payloads.
pub mod Printed
mod Examples
use Prim.Native.String.{String}
use Prim.Native.String as Text
use command_executor.Base.{ℕ, false, Option, none, some, List, [], ◌∷◌, ◌++◌}
use command_executor.ThreadPool.{complete_pending}
use command_executor.ThreadPoolBuilder.{
  Arguments, new, with_name_str, with_tasks, with_queue_size, with_shutdown_mode, build,
}
use command_executor.Pipeline.{Program}
use command_executor.Pipeline.Numbers.{range}

-- `main`'s pool
unfoldable pub create_thread_pool : Arguments
unfolding build with_shutdown_mode with_queue_size with_tasks with_name_str new
create_thread_pool = build (
    with_shutdown_mode complete_pending
      (with_queue_size 16 (with_tasks 4 (with_name_str "example" new))))

-- The name that `create_thread` gives to a worker of a pool.
unfoldable pub worker_name : (ℕ → String) → String → ℕ → String
worker_name to_string name index = Text.◌++◌ name (Text.◌++◌ "-" (to_string index))

-- `thread::current().name().unwrap_or("unnamed")`
unfoldable pub unwrap_name : Option String → String
unwrap_name none = "unnamed"
unwrap_name (some name) = name

-- The line that the command with a payload prints in the worker with an index.
unfoldable pub line : (ℕ → String) → ℕ → ℕ → String
line to_string payload index = Text.◌++◌ "processing " (
    Text.◌++◌ (to_string payload)
      (Text.◌++◌ " in " (unwrap_name (some (worker_name to_string create_thread_pool.name index)))))

-- `main` with the numbers below `count`, and what is printed.
abbrev pub thread_pool : (ℕ → String) → ℕ → Program ℕ (List String)
thread_pool to_string count = record {
  stages = λ n. create_thread_pool;
  last = 0;
  source = range 0 count;
  forward = λ n payload. payload;
  world = [];
  sink = λ index payload printed. printed ++ (line to_string payload index ∷ []);
  may_fail = false;
}
