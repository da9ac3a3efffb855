-- ===== src/ThreadPoolBuilder/Settings.antt =====
-- A chain of calls on a builder of src/thread_pool_builder.rs.
use Prim.Native.String.{String}
use command_executor.Base.{ℕ, ◌≡◌, refl, Bool, false, Option, none, some, List, [], ◌∷◌}
use command_executor.BlockingQueueAdapter.{QueueType, crossbeam_blocking_queue}
use command_executor.ThreadPool.{ShutdownMode, immediate}
use command_executor.ThreadPoolBuilder.{
  ThreadPoolBuilder, new, with_name, with_name_str, with_tasks, with_shutdown_mode, with_queue_type,
  with_queue_size, with_join_error_handler, build,
}

-- A call on the builder.
pub data Setting : Type 0 where
  sets_name sets_name_str : String → Setting
  sets_tasks : ℕ → Setting
  sets_shutdown_mode : ShutdownMode → Setting
  sets_queue_type : QueueType → Setting
  sets_queue_size : ℕ → Setting
  sets_join_error_handler : (String → String → Bool) → Setting

unfoldable pub apply : Setting → ThreadPoolBuilder → ThreadPoolBuilder
unfolding with_name with_name_str with_tasks with_shutdown_mode with_queue_type with_queue_size
    with_join_error_handler
apply (sets_name name) b = with_name name b
apply (sets_name_str name) b = with_name_str name b
apply (sets_tasks tasks) b = with_tasks tasks b
apply (sets_shutdown_mode mode) b = with_shutdown_mode mode b
apply (sets_queue_type type) b = with_queue_type type b
apply (sets_queue_size size) b = with_queue_size size b
apply (sets_join_error_handler handler) b = with_join_error_handler handler b

unfoldable pub configure : List Setting → ThreadPoolBuilder → ThreadPoolBuilder
unfolding apply
configure [] b = b
configure (s ∷ ss) b = configure ss (apply s b)

abbrev pub get_or {ℓ} : {A : Type ℓ} → A → Option A → A
get_or a none = a
get_or a (some a') = a'

-- The last value that a chain sets, or the default.
abbrev pub last_set {ℓ} : {A : Type ℓ} → (Setting → Option A) → A → List Setting → A
last_set pick a [] = a
last_set pick a (s ∷ ss) = last_set pick (get_or a (pick s)) ss

abbrev pub set_name : Setting → Option String
set_name (sets_name name) = some name
set_name (sets_name_str name) = some name
set_name _ = none

abbrev pub set_tasks : Setting → Option ℕ
set_tasks (sets_tasks tasks) = some tasks
set_tasks _ = none

abbrev pub set_queue_type : Setting → Option QueueType
set_queue_type (sets_queue_type type) = some type
set_queue_type _ = none

abbrev pub set_queue_size : Setting → Option ℕ
set_queue_size (sets_queue_size size) = some size
set_queue_size _ = none

abbrev pub set_handler : Setting → Option (String → String → Bool)
set_handler (sets_join_error_handler handler) = some handler
set_handler _ = none

abbrev pub set_shutdown_mode : Setting → Option ShutdownMode
set_shutdown_mode (sets_shutdown_mode mode) = some mode
set_shutdown_mode _ = none

-- A field that each call sets as `pick` says.
configure-field {ℓ} :
    {A : Type ℓ} (field : ThreadPoolBuilder → A) (pick : Setting → Option A)
    → ((s : Setting) (b : ThreadPoolBuilder) → field (apply s b) ≡ get_or (field b) (pick s))
    → (ss : List Setting) (b : ThreadPoolBuilder)
    → field (configure ss b) ≡ last_set pick (field b) ss
unfolding configure
configure-field field pick h [] b = refl
configure-field field pick h (s ∷ ss) b = rw (← h s b) (configure-field field pick h ss (apply s b))

-- A call sets its own field and leaves the others.
apply-fields :
    (s : Setting) (b : ThreadPoolBuilder)
    → ((apply s b).name ≡ get_or b.name (set_name s))
      × ((apply s b).tasks ≡ get_or b.tasks (set_tasks s))
      × ((apply s b).queue_type ≡ get_or b.queue_type (set_queue_type s))
      × ((apply s b).queue_size ≡ get_or b.queue_size (set_queue_size s))
      × ((apply s b).join_error_handler ≡ get_or b.join_error_handler (set_handler s))
      × ((apply s b).shutdown_mode ≡ get_or b.shutdown_mode (set_shutdown_mode s))
unfolding apply
apply-fields (sets_name n) b = (refl, refl, refl, refl, refl, refl)
apply-fields (sets_name_str n) b = (refl, refl, refl, refl, refl, refl)
apply-fields (sets_tasks n) b = (refl, refl, refl, refl, refl, refl)
apply-fields (sets_shutdown_mode m) b = (refl, refl, refl, refl, refl, refl)
apply-fields (sets_queue_type t) b = (refl, refl, refl, refl, refl, refl)
apply-fields (sets_queue_size n) b = (refl, refl, refl, refl, refl, refl)
apply-fields (sets_join_error_handler h) b = (refl, refl, refl, refl, refl, refl)

-- A pool built after any chain of calls on a new builder gets, for each setting, the value of the
-- last call that sets it, whatever the other calls, and the default where there is none: the name
-- "unnamed", 1 task, a crossbeam queue of 16 places, a handler that panics, an immediate shutdown.
pub build_last_settings :
    (ss : List Setting)
    → let a = build (configure ss new) in
      (a.name ≡ last_set set_name "unnamed" ss)
      × (a.tasks ≡ last_set set_tasks 1 ss)
      × (a.queue_type ≡ last_set set_queue_type crossbeam_blocking_queue ss)
      × (a.queue_size ≡ last_set set_queue_size 16 ss)
      × (a.join_error_handler ≡ last_set set_handler (λ name message. false) ss)
      × (a.shutdown_mode ≡ last_set set_shutdown_mode immediate ss)
unfolding build new
build_last_settings ss = (
  configure-field (λ b. b.name) set_name (λ s b. (apply-fields s b).0) ss new,
  configure-field (λ b. b.tasks) set_tasks (λ s b. (apply-fields s b).1) ss new,
  configure-field (λ b. b.queue_type) set_queue_type (λ s b. (apply-fields s b).2) ss new,
  configure-field (λ b. b.queue_size) set_queue_size (λ s b. (apply-fields s b).3) ss new,
  configure-field (λ b. b.join_error_handler) set_handler (λ s b. (apply-fields s b).4) ss new,
  configure-field (λ b. b.shutdown_mode) set_shutdown_mode (λ s b. (apply-fields s b).5) ss new,
)
