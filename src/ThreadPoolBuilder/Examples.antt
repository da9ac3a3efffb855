-- ===== src/ThreadPoolBuilder/Examples.antt =====
-- A builder of src/thread_pool_builder.rs after a chain of calls.
use command_executor.Base.{◌≡◌, false, List, [], ◌∷◌}
use command_executor.BlockingQueueAdapter.{crossbeam_blocking_queue}
use command_executor.ThreadPool.{complete_pending}
use command_executor.ThreadPoolBuilder.{new, build}
use command_executor.ThreadPoolBuilder.Settings.{
  Setting, sets_name_str, sets_tasks, sets_shutdown_mode, configure, build_last_settings,
}

abbrev chain : List Setting
chain =
    sets_name_str "example" ∷ sets_tasks 2 ∷ sets_shutdown_mode complete_pending ∷ sets_tasks 4 ∷ []

build_last_settings_example :
    let a = build (configure chain new) in
    (a.name ≡ "example")
    × (a.tasks ≡ 4)
    × (a.queue_type ≡ crossbeam_blocking_queue)
    × (a.queue_size ≡ 16)
    × (a.join_error_handler ≡ (λ name message. false))
    × (a.shutdown_mode ≡ complete_pending)
build_last_settings_example = build_last_settings chain
