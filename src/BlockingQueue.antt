-- ===== src/BlockingQueue.antt =====
-- src/blocking_queue.rs: the bounded queue over two mutexes and two condition variables.
pub mod Invariant
pub mod System
pub mod Fifo
pub mod Waits
pub mod Loop
pub mod Timeouts
pub mod Waiters
pub mod Turns
pub mod Awake
pub mod Wakeups
pub mod Schedule
pub mod Forgotten
pub mod Unbounded
mod Examples
use command_executor.Base.{
  ℕ, Bool, true, false, not, Option, none, some, List, [], ◌∷◌, ◌++◌, length, is_nil, ◌==◌,
  if◌then◌else◌,
}
use command_executor.Duration.{Timer, start_timer, after_wait, max_duration}

pub record QueueFlags : Type 0 where
  pub empty : Bool
  pub full : Bool

abbrev pub new_flags : QueueFlags
new_flags = record { empty = true; full = false }

-- The two condition variables, and what is done to them.
pub data Condvar : Type 0 where
  empty full : Condvar

pub data Signal : Type 0 where
  notify_one notify_all : Condvar → Signal

-- The head of `elements` is the front of the deque. The threads that wait on the condition
-- variables are in `BlockingQueue.System`.
pub record BlockingQueue {ℓ} (E : Type ℓ) : Type ℓ where
  pub flags : QueueFlags
  pub elements : List E
  pub capacity : ℕ

-- Where a thread stands when it gives up the mutex of the flags: it returned, or it waits on a
-- condition variable with its loop variables.
pub data Outcome {ℓ} (R : Type ℓ) : Type ℓ where
  returned : R → Outcome R
  waits : Condvar → Timer → Outcome R

-- What a thread does while it holds the mutex: the new queue, its signals in order, and where it
-- stands then. Whoever changes the deque holds both mutexes, so nobody sees it half changed.
pub record Segment {ℓ κ} (E : Type ℓ) (R : Type κ) : Type (ℓ ⊔ κ) where
  pub queue : BlockingQueue E
  pub signals : List Signal
  pub outcome : Outcome R

abbrev pub map_outcome {ℓ κ} : {R : Type ℓ} {S : Type κ} → (R → S) → Outcome R → Outcome S
map_outcome f (returned r) = returned (f r)
map_outcome f (waits c w) = waits c w

-- The same with another value returned.
abbrev pub map_segment {ℓ κ κ'} :
    {E : Type ℓ} {R : Type κ} {S : Type κ'} → (R → S) → Segment E R → Segment E S
map_segment f g = record { queue = g.queue; signals = g.signals; outcome = map_outcome f g.outcome }

-- A segment that leaves the queue alone.
abbrev idle {ℓ κ} : {E : Type ℓ} {R : Type κ} → BlockingQueue E → Outcome R → Segment E R
idle q o = record { queue = q; signals = []; outcome = o }

module _ {ℓ} {E : Type ℓ} where
  unfoldable pub new : ℕ → BlockingQueue E
  new capacity = record { flags = new_flags; elements = []; capacity = capacity }

  unfoldable pub len : BlockingQueue E → ℕ
  len q = length q.elements

  unfoldable pub capacity : BlockingQueue E → ℕ
  capacity q = q.capacity

  unfoldable pub is_empty : BlockingQueue E → Bool
  is_empty q = is_nil q.elements

  unfoldable pub is_full : BlockingQueue E → Bool
  unfolding len capacity
  is_full q = len q == capacity q

  -- `if elements.len() == self.capacity() { flags.full = true; full.notify_all() }`
  note_full : BlockingQueue E → List Signal × BlockingQueue E
  unfolding capacity
  note_full q =
      if length q.elements == capacity q
      then (notify_all full ∷ [], record q { flags = record q.flags { full = true } })
      else ([], q)

  -- The end of `try_enqueue`, under both mutexes.
  push_element : E → BlockingQueue E → Segment E (Option E)
  unfolding note_full
  push_element e q =
      let (more, noted) = note_full (record q {
        elements = q.elements ++ (e ∷ []);
        flags = record q.flags { empty = false };
      }) in
      record { queue = noted; signals = notify_one empty ∷ more; outcome = returned none }

  -- `while flags.full`, and what follows when the loop ends by its test.
  pub enqueue_loop : E → Timer → BlockingQueue E → Segment E (Option E)
  unfolding push_element
  enqueue_loop e w q = if q.flags.full then idle q (waits full w) else push_element e q

  -- `try_enqueue`, from its start to its first wait or its return.
  unfoldable pub try_enqueue : E → ℕ → ℕ → BlockingQueue E → Segment E (Option E)
  unfolding enqueue_loop
  try_enqueue e timeout now q = enqueue_loop e (start_timer timeout now) q

  -- `try_enqueue`, from the return of `wait_timeout` to the next wait or the return.
  unfoldable pub resume_enqueue : E → Bool → ℕ → ℕ → Timer → BlockingQueue E → Segment E (Option E)
  unfolding enqueue_loop after_wait
  resume_enqueue e timed_out now restart w q = elim (after_wait timed_out now restart w) [
    | none ↦ idle q (returned (some e))
    | some w' ↦ enqueue_loop e w' q
  ]

  -- `enqueue` drops the result of `try_enqueue`.
  unfoldable pub enqueue : E → ℕ → BlockingQueue E → Segment E (Unit {0})
  unfolding try_enqueue
  enqueue e now q = map_segment (λ _. tt) (try_enqueue e max_duration now q)

  -- `VecDeque::pop_front`
  abbrev pub pop_front : List E → Option E × List E
  pop_front [] = (none, [])
  pop_front (x ∷ xs) = (some x, xs)

  -- `if elements.is_empty() { flags.empty = true; empty.notify_all(); }`
  note_empty : BlockingQueue E → List Signal × BlockingQueue E
  note_empty q =
      if is_nil q.elements
      then (notify_all empty ∷ [], record q { flags = record q.flags { empty = true } })
      else ([], q)

  -- The end of `try_dequeue`, under both mutexes.
  pop_element : BlockingQueue E → Segment E (Option E)
  unfolding note_empty
  pop_element q =
      let (element, rest) = pop_front q.elements in
      let (more, noted) =
        note_empty (record q { elements = rest; flags = record q.flags { full = false } }) in
      record { queue = noted; signals = notify_one full ∷ more; outcome = returned element }

  -- `while flags.empty`, and what follows when the loop ends by its test.
  pub dequeue_loop : Timer → BlockingQueue E → Segment E (Option E)
  unfolding pop_element
  dequeue_loop w q = if q.flags.empty then idle q (waits empty w) else pop_element q

  -- `try_dequeue`, from its start to its first wait or its return.
  unfoldable pub try_dequeue : ℕ → ℕ → BlockingQueue E → Segment E (Option E)
  unfolding dequeue_loop
  try_dequeue timeout now q = dequeue_loop (start_timer timeout now) q

  -- `try_dequeue`, from the return of `wait_timeout` to the next wait or the return.
  unfoldable pub resume_dequeue : Bool → ℕ → ℕ → Timer → BlockingQueue E → Segment E (Option E)
  unfolding dequeue_loop after_wait
  resume_dequeue timed_out now restart w q = elim (after_wait timed_out now restart w) [
    | none ↦ idle q (returned none)
    | some w' ↦ dequeue_loop w' q
  ]

  unfoldable pub dequeue : ℕ → BlockingQueue E → Segment E (Option E)
  unfolding try_dequeue
  dequeue now q = try_dequeue max_duration now q

  -- `while !flags.empty`; the flag is returned however the loop ends.
  pub wait_empty_loop : Timer → BlockingQueue E → Segment E Bool
  wait_empty_loop w q = idle q (if not q.flags.empty then waits empty w else returned q.flags.empty)

  -- `wait_empty`, from its start to its first wait or its return.
  unfoldable pub wait_empty : ℕ → ℕ → BlockingQueue E → Segment E Bool
  unfolding wait_empty_loop
  wait_empty timeout now q = wait_empty_loop (start_timer timeout now) q

  -- `wait_empty`, from the return of `wait_timeout` to the next wait or the return.
  unfoldable pub resume_wait_empty : Bool → ℕ → ℕ → Timer → BlockingQueue E → Segment E Bool
  unfolding wait_empty_loop after_wait
  resume_wait_empty timed_out now restart w q = elim (after_wait timed_out now restart w) [
    | none ↦ idle q (returned q.flags.empty)
    | some w' ↦ wait_empty_loop w' q
  ]
