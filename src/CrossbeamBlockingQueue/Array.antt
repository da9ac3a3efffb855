-- ===== src/CrossbeamBlockingQueue/Array.antt =====
-- crossbeam::queue::ArrayQueue, which src/crossbeam_blocking_queue.rs calls: its operations as a
-- parameter, and what its documentation says of them.
use command_executor.Base.{
  ℕ, ◌≤◌, ◌<◌, ◌≡◌, Bool, Option, none, some, List, [], ◌∷◌, ◌++◌, length, is_nil, ◌==◌,
}

-- Each operation takes effect at one moment. `new` panics by `none`, and `push` succeeds by `none`.
pub record ArrayQueue {ℓ κ} (E : Type ℓ) (S : Type κ) : Type (ℓ ⊔ κ) where
  pub new : ℕ → Option S
  pub len : S → ℕ
  pub capacity : S → ℕ
  pub is_empty : S → Bool
  pub is_full : S → Bool
  pub push : E → S → Option E × S
  pub pop : S → Option E × S

module _ {ℓ} {E : Type ℓ} where
  -- From `xs` to `ys`: the element is at the back, or the queue was full and it comes back.
  abbrev pub Pushes : ℕ → E → List E → Option E → List E → Type ℓ
  Pushes capacity e xs none ys = (length xs < capacity) × (ys ≡ xs ++ (e ∷ []))
  Pushes capacity e xs (some e') ys = (e' ≡ e) × (capacity ≤ length xs) × (ys ≡ xs)

  -- The front is gone, or there was none.
  abbrev pub Pops : List E → Option E → List E → Type ℓ
  Pops xs none ys = (xs ≡ []) × (ys ≡ xs)
  Pops xs (some x) ys = xs ≡ x ∷ ys

-- A queue of fixed capacity: "Panics if the capacity is zero", "if the queue is full, the element is
-- returned back as an error", "if the queue is empty, None is returned".
pub record IsArrayQueue {ℓ κ} {E : Type ℓ} {S : Type κ} (A : ArrayQueue E S) : Type (ℓ ⊔ κ) where
  pub contents : S → List E
  pub new_refuses : A.new 0 ≡ none
  pub new_makes :
      (size : ℕ)
      → 0 < size
      → (s : S) × (A.new size ≡ some s) × (contents s ≡ []) × (A.capacity s ≡ size)
  pub len_counts : (s : S) → A.len s ≡ length (contents s)
  pub is_empty_tests : (s : S) → A.is_empty s ≡ is_nil (contents s)
  pub is_full_tests : (s : S) → A.is_full s ≡ (length (contents s) == A.capacity s)
  pub push_capacity : (e : E) (s : S) → A.capacity (A.push e s).1 ≡ A.capacity s
  pub push_effect :
      (e : E) (s : S)
      → Pushes (A.capacity s) e (contents s) (A.push e s).0 (contents (A.push e s).1)
  pub pop_capacity : (s : S) → A.capacity (A.pop s).1 ≡ A.capacity s
  pub pop_effect : (s : S) → Pops (contents s) (A.pop s).0 (contents (A.pop s).1)
