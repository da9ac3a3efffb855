-- ===== src/ThreadPoolBuilder.antt =====
-- src/thread_pool_builder.rs: the settings of a pool, changed one at a time.
pub mod Settings
mod Examples
use Prim.Native.String.{String}
use command_executor.Base.{ℕ, Bool, false}
use command_executor.BlockingQueueAdapter.{QueueType, crossbeam_blocking_queue}
use command_executor.ThreadPool.{ShutdownMode, immediate}

-- A handler is told by whether it returns, as in `ThreadPool.Join`.
pub record ThreadPoolBuilder : Type 0 where
  pub name : String
  pub tasks : ℕ
  pub queue_type : QueueType
  pub queue_size : ℕ
  pub join_error_handler : String → String → Bool
  pub shutdown_mode : ShutdownMode

-- The default handler panics.
unfoldable pub new : ThreadPoolBuilder
new = record {
  name = "unnamed";
  tasks = 1;
  queue_type = crossbeam_blocking_queue;
  queue_size = 16;
  join_error_handler = λ name message. false;
  shutdown_mode = immediate;
}

unfoldable pub with_name : String → ThreadPoolBuilder → ThreadPoolBuilder
with_name name b = record b { name = name }

unfoldable pub with_name_str : String → ThreadPoolBuilder → ThreadPoolBuilder
with_name_str name b = record b { name = name }

unfoldable pub with_tasks : ℕ → ThreadPoolBuilder → ThreadPoolBuilder
with_tasks tasks b = record b { tasks = tasks }

unfoldable pub with_shutdown_mode : ShutdownMode → ThreadPoolBuilder → ThreadPoolBuilder
with_shutdown_mode mode b = record b { shutdown_mode = mode }

unfoldable pub with_queue_type : QueueType → ThreadPoolBuilder → ThreadPoolBuilder
with_queue_type type b = record b { queue_type = type }

unfoldable pub with_queue_size : ℕ → ThreadPoolBuilder → ThreadPoolBuilder
with_queue_size size b = record b { queue_size = size }

unfoldable pub with_join_error_handler :
    (String → String → Bool) → ThreadPoolBuilder → ThreadPoolBuilder
with_join_error_handler handler b = record b { join_error_handler = handler }

-- The arguments of `ThreadPool::new`, in its order.
pub record Arguments : Type 0 where
  pub name : String
  pub tasks : ℕ
  pub queue_type : QueueType
  pub queue_size : ℕ
  pub join_error_handler : String → String → Bool
  pub shutdown_mode : ShutdownMode

unfoldable pub build : ThreadPoolBuilder → Arguments
build b = record {
  name = b.name;
  tasks = b.tasks;
  queue_type = b.queue_type;
  queue_size = b.queue_size;
  join_error_handler = b.join_error_handler;
  shutdown_mode = b.shutdown_mode;
}
