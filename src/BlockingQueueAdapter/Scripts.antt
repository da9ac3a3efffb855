-- ===== src/BlockingQueueAdapter/Scripts.antt =====
-- A queue made behind src/blocking_queue_adapter.rs, and a bounded list, through any number of calls.
use command_executor.Base.{
  ℕ, ◌<◌, ◌≡◌, refl, ap, ◌∙◌, Bool, Option, some, List, [], ◌∷◌, ◌++◌, length, is_nil, ltb, ◌==◌,
  if◌then◌else◌, arith,
}
use command_executor.BlockingQueue.{pop_front}
use command_executor.CrossbeamBlockingQueue.Array.{ArrayQueue, IsArrayQueue}
use command_executor.BlockingQueueAdapter.{
  QueueType, blocking_queue, crossbeam_blocking_queue, BlockingQueueAdapter, new, len, capacity,
  is_empty, is_full,
}
use command_executor.BlockingQueueAdapter.Contract.{
  enqueue_once, dequeue_once, accepted, taken, contents, IsGood, enqueue_contract, dequeue_contract,
  new_contract, observers_contract,
}

-- A call: the timeout and the readings of the clock that the first access of a blocking one sees.
pub data Operation {ℓ} (E : Type ℓ) : Type ℓ where
  enqueues : E → ℕ → ℕ → ℕ → ℕ → Operation E
  dequeues : ℕ → ℕ → ℕ → ℕ → Operation E
  counts tests_empty tests_full : Operation E

-- What it says: whether the element is in, the element taken, or what is observed.
pub data Answer {ℓ} (E : Type ℓ) : Type ℓ where
  took : Bool → Answer E
  gave : Option E → Answer E
  counted : ℕ → Answer E
  tested : Bool → Answer E

-- A list of at most `size` elements.
abbrev pub list_step {ℓ} : {E : Type ℓ} → ℕ → Operation E → List E → Answer E × List E
list_step size (enqueues e timeout start now restart) xs =
    let room = ltb (length xs) size in (took room, (if room then xs ++ (e ∷ []) else xs))
list_step size (dequeues timeout start now restart) xs = (gave (pop_front xs).0, (pop_front xs).1)
list_step size counts xs = (counted (length xs), xs)
list_step size tests_empty xs = (tested (is_nil xs), xs)
list_step size tests_full xs = (tested (length xs == size), xs)

abbrev pub list_answers {ℓ} : {E : Type ℓ} → ℕ → List (Operation E) → List E → List (Answer E)
list_answers size [] xs = []
list_answers size (o ∷ os) xs = let (r, ys) = list_step size o xs in r ∷ list_answers size os ys

-- Which queue is behind the adapter.
abbrev pub type_of {ℓ κ} : {E : Type ℓ} {S : Type κ} → BlockingQueueAdapter E S → QueueType
type_of (blocking_queue q) = blocking_queue
type_of (crossbeam_blocking_queue s) = crossbeam_blocking_queue

module _ {ℓ κ} {E : Type ℓ} {S : Type κ} (A : ArrayQueue E S) where
  -- The adapter through the first access of a call.
  abbrev pub step : Operation E → BlockingQueueAdapter E S → Answer E × BlockingQueueAdapter E S
  step (enqueues e timeout start now restart) a =
      let (r, b) = enqueue_once A e timeout start now restart a in (took (accepted r), b)
  step (dequeues timeout start now restart) a =
      let (r, b) = dequeue_once A timeout start now restart a in (gave (taken r), b)
  step counts a = (counted (len A a), a)
  step tests_empty a = (tested (is_empty A a), a)
  step tests_full a = (tested (is_full A a), a)

  abbrev pub answers : List (Operation E) → BlockingQueueAdapter E S → List (Answer E)
  answers [] a = []
  answers (o ∷ os) a = let (r, b) = step o a in r ∷ answers os b

module _ {ℓ κ} {E : Type ℓ} {S : Type κ} {A : ArrayQueue E S} (L : IsArrayQueue A) where
  -- The adapter holds the list.
  record Holds (size : ℕ) (xs : List E) (a : BlockingQueueAdapter E S) : Type ℓ where
    same : contents L a ≡ xs
    sized : capacity A a ≡ size
    good : IsGood L a

  step-Holds :
      (size : ℕ) (o : Operation E) (xs : List E) (a : BlockingQueueAdapter E S)
      → Holds size xs a
      → ((step A o a).0 ≡ (list_step size o xs).0)
        × Holds size (list_step size o xs).1 (step A o a).1
  step-Holds size (enqueues e timeout start now restart) xs a h =
      let (said, moved, kept, good) = enqueue_contract L e timeout start now restart a h.good in
      (
        ap {B = Answer E} took (rw (h.same, h.sized) at said),
        record { same = rw (h.same, h.sized) at moved; sized = kept ∙ h.sized; good = good },
      )
  step-Holds size (dequeues timeout start now restart) xs a h =
      let (said, moved, kept, good) = dequeue_contract L timeout start now restart a h.good in
      (
        ap {B = Answer E} gave (rw h.same at said),
        record { same = rw h.same at moved; sized = kept ∙ h.sized; good = good },
      )
  step-Holds size counts xs a h = (ap counted ((observers_contract L a).0 ∙ ap length h.same), h)
  step-Holds size tests_empty xs a h =
      (ap tested ((observers_contract L a).1 ∙ ap is_nil h.same), h)
  step-Holds size tests_full xs a h =
      (ap tested (rw (h.same, h.sized) at (observers_contract L a).2), h)

  answers-Holds :
      (size : ℕ) (os : List (Operation E)) (xs : List E) (a : BlockingQueueAdapter E S)
      → Holds size xs a
      → answers A os a ≡ list_answers size os xs
  answers-Holds size [] xs a h = refl
  answers-Holds size (o ∷ os) xs a h =
      let (said, next) = step-Holds size o xs a h in
      rw (said, answers-Holds size os (list_step size o xs).1 (step A o a).1 next) refl

  new-type_of :
      (type : QueueType) (size : ℕ) (a : BlockingQueueAdapter E S)
      → new A type size ≡ some a
      → type_of a ≡ type
  unfolding new
  new-type_of type size a made = ground arith

  -- For either queue type and a size above 0: `new` makes a queue of that type, and any sequence of calls
  -- of `try_enqueue`, `try_dequeue`, `len`, `is_empty` and `is_full` on it, whatever their timeouts and the
  -- clock, is answered as by a list of at most `size` elements, each blocking call by its first access.
  pub answers_of_list :
      (type : QueueType) (size : ℕ)
      → 0 < size
      → (os : List (Operation E))
      → (a : BlockingQueueAdapter E S) × (new A type size ≡ some a)
        × (type_of a ≡ type)
        × (answers A os a ≡ list_answers size os [])
  answers_of_list type size h os =
      let (a, made, none_in, sized, good) = new_contract L type size h in
      (
        a,
        made,
        new-type_of type size a made,
        answers-Holds size os [] a (record { same = none_in; sized = sized; good = good }),
      )
