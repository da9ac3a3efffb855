-- ===== src/BlockingQueueAdapter.antt =====
-- src/blocking_queue_adapter.rs and src/queue_type.rs: one interface to the two queues.
pub mod Contract
pub mod Scripts
mod Examples
use Prim.Native.String.{String}
use command_executor.Base.{ℕ, Bool, Option, none, some}
use command_executor.Duration.{Timer}
use command_executor.BlockingQueue as Locked
use command_executor.BlockingQueue.{BlockingQueue, Segment}
use command_executor.CrossbeamBlockingQueue as Crossbeam
use command_executor.CrossbeamBlockingQueue.{Offer}
use command_executor.CrossbeamBlockingQueue.Array.{ArrayQueue}

pub data QueueType : Type 0 where
  blocking_queue crossbeam_blocking_queue : QueueType

-- `Display for QueueType`
unfoldable pub fmt : QueueType → String
fmt blocking_queue = "BlockingQueue"
fmt crossbeam_blocking_queue = "CrossbeamBlockingQueue"

pub data BlockingQueueAdapter {ℓ κ} (E : Type ℓ) (S : Type κ) : Type (ℓ ⊔ κ) where
  blocking_queue : BlockingQueue E → BlockingQueueAdapter E S
  crossbeam_blocking_queue : S → BlockingQueueAdapter E S

-- How far a call has come when it has been handed on: through the first segment of the one queue, or
-- to the loop of the other, whose variables are in `L`.
pub data Begun {ℓ κ μ} (E : Type ℓ) (R : Type κ) (L : Type μ) : Type (ℓ ⊔ κ ⊔ μ) where
  segment : Segment E R → Begun E R L
  loop : L → Begun E R L

module _ {ℓ κ} {E : Type ℓ} {S : Type κ} (A : ArrayQueue E S) where
  -- `none` is the panic of `ArrayQueue::new`.
  unfoldable pub new : QueueType → ℕ → Option (BlockingQueueAdapter E S)
  unfolding Locked.new
  new blocking_queue size = some (blocking_queue (Locked.new size))
  new crossbeam_blocking_queue size = elim (Crossbeam.new A size) [
    | none ↦ none
    | some s ↦ some (crossbeam_blocking_queue s)
  ]

  unfoldable pub len : BlockingQueueAdapter E S → ℕ
  unfolding Locked.len
  len (blocking_queue q) = Locked.len q
  len (crossbeam_blocking_queue s) = Crossbeam.len A s

  unfoldable pub capacity : BlockingQueueAdapter E S → ℕ
  unfolding Locked.capacity
  capacity (blocking_queue q) = Locked.capacity q
  capacity (crossbeam_blocking_queue s) = Crossbeam.capacity A s

  unfoldable pub is_empty : BlockingQueueAdapter E S → Bool
  unfolding Locked.is_empty
  is_empty (blocking_queue q) = Locked.is_empty q
  is_empty (crossbeam_blocking_queue s) = Crossbeam.is_empty A s

  unfoldable pub is_full : BlockingQueueAdapter E S → Bool
  unfolding Locked.is_full
  is_full (blocking_queue q) = Locked.is_full q
  is_full (crossbeam_blocking_queue s) = Crossbeam.is_full A s

module _ {ℓ κ} {E : Type ℓ} {S : Type κ} where
  unfoldable pub wait_empty : ℕ → ℕ → BlockingQueueAdapter E S → Begun E Bool Timer
  unfolding Locked.wait_empty
  wait_empty timeout now (blocking_queue q) = segment (Locked.wait_empty timeout now q)
  wait_empty timeout now (crossbeam_blocking_queue s) = loop (Crossbeam.wait_empty timeout now)

  unfoldable pub enqueue : E → ℕ → BlockingQueueAdapter E S → Begun E (Unit {0}) (Offer E)
  unfolding Locked.enqueue
  enqueue element now (blocking_queue q) = segment (Locked.enqueue element now q)
  enqueue element now (crossbeam_blocking_queue s) = loop (Crossbeam.enqueue element now)

  unfoldable pub try_enqueue : E → ℕ → ℕ → BlockingQueueAdapter E S → Begun E (Option E) (Offer E)
  unfolding Locked.try_enqueue
  try_enqueue element timeout now (blocking_queue q) =
      segment (Locked.try_enqueue element timeout now q)
  try_enqueue element timeout now (crossbeam_blocking_queue s) =
      loop (Crossbeam.try_enqueue element timeout now)

  unfoldable pub dequeue : ℕ → BlockingQueueAdapter E S → Begun E (Option E) Timer
  unfolding Locked.dequeue
  dequeue now (blocking_queue q) = segment (Locked.dequeue now q)
  dequeue now (crossbeam_blocking_queue s) = loop (Crossbeam.dequeue now)

  unfoldable pub try_dequeue : ℕ → ℕ → BlockingQueueAdapter E S → Begun E (Option E) Timer
  unfolding Locked.try_dequeue
  try_dequeue timeout now (blocking_queue q) = segment (Locked.try_dequeue timeout now q)
  try_dequeue timeout now (crossbeam_blocking_queue s) = loop (Crossbeam.try_dequeue timeout now)
