-- ===== src/CrossbeamBlockingQueue.antt =====
-- src/crossbeam_blocking_queue.rs: the loops that retry an operation of crossbeam's lock-free
-- ArrayQueue until it succeeds or the time is up.
pub mod Array
pub mod System
pub mod Attempts
pub mod Fifo
pub mod Retries
pub mod Timeouts
pub mod Places
mod Examples
use command_executor.Base.{ℕ, Bool, Option, none, some, if◌then◌else◌}
use command_executor.Duration.{Timer, start_timer, count_down, max_duration}
use command_executor.CrossbeamBlockingQueue.Array.{ArrayQueue}

-- A loop after one attempt: the method returns, or it goes round with its local variables.
pub data Outcome {ℓ κ} (L : Type ℓ) (R : Type κ) : Type (ℓ ⊔ κ) where
  returned : R → Outcome L R
  retries : L → Outcome L R

-- The variables `e`, and `t` and `start`, of `try_enqueue`.
pub record Offer {ℓ} (E : Type ℓ) : Type ℓ where
  pub e : E
  pub timer : Timer

-- The time left: go round with the rest of it, or return.
unfoldable pub go_round {ℓ κ} :
    {L : Type ℓ} {R : Type κ} → ℕ → ℕ → Timer → (Timer → L) → R → Outcome L R
unfolding count_down
go_round now restart w again r = elim (count_down now restart w) [
  | none ↦ returned r
  | some w' ↦ retries (again w')
]

module _ {ℓ} {E : Type ℓ} where
  -- `match result` of a `push`
  unfoldable pub after_push : ℕ → ℕ → Timer → Option E → Outcome (Offer E) (Option E)
  unfolding go_round
  after_push now restart w none = returned none
  after_push now restart w (some element) =
      go_round now restart w (λ w'. record { e = element; timer = w' }) (some element)

  -- `if element.is_none()`
  unfoldable pub after_pop : ℕ → ℕ → Timer → Option E → Outcome Timer (Option E)
  unfolding go_round
  after_pop now restart w none = go_round now restart w (λ w'. w') none
  after_pop now restart w (some element) = returned (some element)

  -- The start of `try_enqueue`, before its first attempt.
  abbrev pub try_enqueue : E → ℕ → ℕ → Offer E
  try_enqueue element timeout now = record { e = element; timer = start_timer timeout now }

  -- `enqueue` drops the result of `try_enqueue`.
  abbrev pub enqueue : E → ℕ → Offer E
  enqueue element now = try_enqueue element max_duration now

abbrev pub try_dequeue : ℕ → ℕ → Timer
try_dequeue timeout now = start_timer timeout now

abbrev pub dequeue : ℕ → Timer
dequeue now = try_dequeue max_duration now

abbrev pub wait_empty : ℕ → ℕ → Timer
wait_empty timeout now = start_timer timeout now

-- The array is the only thing that threads share, so that an attempt is one access to it and then
-- the readings of the clock. `Backoff::spin` only passes the time.
module _ {ℓ κ} {E : Type ℓ} {S : Type κ} (A : ArrayQueue E S) where
  -- `ArrayQueue::new` panics for the size 0.
  abbrev pub new : ℕ → Option S
  new size = A.new size

  abbrev pub len : S → ℕ
  len s = A.len s

  abbrev pub capacity : S → ℕ
  capacity s = A.capacity s

  abbrev pub is_empty : S → Bool
  is_empty s = A.is_empty s

  abbrev pub is_full : S → Bool
  is_full s = A.is_full s

  -- One round of its `loop`.
  unfoldable pub attempt_enqueue : ℕ → ℕ → Offer E → S → Outcome (Offer E) (Option E) × S
  unfolding after_push
  attempt_enqueue now restart o s =
      let (result, s') = A.push o.e s in (after_push now restart o.timer result, s')

  -- One round of the `loop` of `try_dequeue`.
  unfoldable pub attempt_dequeue : ℕ → ℕ → Timer → S → Outcome Timer (Option E) × S
  unfolding after_pop
  attempt_dequeue now restart w s =
      let (element, s') = A.pop s in (after_pop now restart w element, s')

  -- One round of `while !self.elements.is_empty()`; `tt` when the loop has ended.
  unfoldable pub attempt_wait_empty : ℕ → ℕ → Timer → S → Outcome Timer (Unit {0})
  unfolding go_round
  attempt_wait_empty now restart w s =
      if A.is_empty s then returned tt else go_round now restart w (λ w'. w') tt

  -- What `wait_empty` returns after its loop is a second reading.
  abbrev pub answer_wait_empty : S → Bool
  answer_wait_empty s = A.is_empty s
