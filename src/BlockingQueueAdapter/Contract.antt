-- ===== src/BlockingQueueAdapter/Contract.antt =====
-- Either queue behind src/blocking_queue_adapter.rs is one bounded FIFO queue to its caller.
use command_executor.Base.{
  ℕ, ◌<◌, ◌≡◌, refl, ◌≢◌, Bool, true, false, Option, none, some, List, [], ◌∷◌, ◌++◌, length,
  is_nil, ltb, ◌==◌, if◌then◌else◌, arith,
}
use command_executor.Duration.{Timer, start_timer}
use command_executor.BlockingQueue as Locked
use command_executor.BlockingQueue.{BlockingQueue, Outcome, returned, waits, Segment, pop_front}
use command_executor.BlockingQueue.Invariant.{
  IsConsistent, Enqueues, Dequeues, new-IsConsistent, try_enqueue-Keeps, try_dequeue-Keeps,
}
use command_executor.BlockingQueue.Timeouts.{enqueue_loop-not-refused, dequeue_loop-not-refused}
use command_executor.CrossbeamBlockingQueue as Crossbeam
use command_executor.CrossbeamBlockingQueue.{Offer, attempt_enqueue, attempt_dequeue}
use command_executor.CrossbeamBlockingQueue.Array.{ArrayQueue, IsArrayQueue}
use command_executor.CrossbeamBlockingQueue.Attempts.{
  Offers, Takes, attempt_enqueue-Offers, attempt_dequeue-Takes,
}
use command_executor.BlockingQueueAdapter.{
  QueueType, blocking_queue, crossbeam_blocking_queue, BlockingQueueAdapter, Begun, segment, loop,
  new, len, capacity, is_empty, is_full, try_enqueue, try_dequeue,
}

-- What a call has returned, if it has.
abbrev pub locked_result {ℓ} : {R : Type ℓ} → Outcome R → Option R
locked_result (returned r) = some r
locked_result (waits v w) = none

abbrev pub crossbeam_result {ℓ κ} : {L : Type ℓ} {R : Type κ} → Crossbeam.Outcome L R → Option R
crossbeam_result (Crossbeam.returned r) = some r
crossbeam_result (Crossbeam.retries l) = none

module _ {ℓ} {E : Type ℓ} where
  -- Whether `try_enqueue` has put its element into the queue, and what `try_dequeue` has taken.
  abbrev pub accepted : Option (Option E) → Bool
  accepted (some none) = true
  accepted _ = false

  abbrev pub taken : Option (Option E) → Option E
  taken (some r) = r
  taken none = none

  -- From `xs` to `ys` in one access, with room or without.
  abbrev EnqueuesOnce : ℕ → E → List E → Option (Option E) → List E → Type ℓ
  EnqueuesOnce capacity e xs r ys =
      (accepted r ≡ ltb (length xs) capacity)
      × (ys ≡ (if ltb (length xs) capacity then xs ++ (e ∷ []) else xs))

  abbrev DequeuesOnce : List E → Option (Option E) → List E → Type ℓ
  DequeuesOnce xs r ys = (taken r ≡ (pop_front xs).0) × (ys ≡ (pop_front xs).1)

  Enqueues-once :
      (capacity : ℕ) (e : E) (xs ys : List E) (o : Outcome (Option E))
      → ((e' : E) → o ≢ returned (some e'))
      → Enqueues capacity e xs o ys
      → EnqueuesOnce capacity e xs (locked_result o) ys
  Enqueues-once capacity e xs ys (returned none) h k = ground arith
  Enqueues-once capacity e xs ys (returned (some e')) h k = absurd (h e' refl)
  Enqueues-once capacity e xs ys (waits v w) h k = ground arith

  Offers-once :
      (capacity : ℕ) (e : E) (xs ys : List E) (o : Crossbeam.Outcome (Offer E) (Option E))
      → Offers capacity e xs o ys
      → EnqueuesOnce capacity e xs (crossbeam_result o) ys
  Offers-once capacity e xs ys (Crossbeam.returned none) k = ground arith
  Offers-once capacity e xs ys (Crossbeam.returned (some e')) k = ground arith
  Offers-once capacity e xs ys (Crossbeam.retries l) k = ground arith

  Dequeues-once :
      (xs ys : List E) (o : Outcome (Option E))
      → o ≢ returned none
      → Dequeues xs o ys
      → DequeuesOnce xs (locked_result o) ys
  Dequeues-once xs ys (returned none) h k = absurd (h refl)
  Dequeues-once xs ys (returned (some x)) h k = rw k (refl, refl)
  Dequeues-once xs ys (waits v w) h k = rw (k.2, k.1) (refl, refl)

  Takes-once :
      (xs ys : List E) (o : Crossbeam.Outcome Timer (Option E))
      → Takes xs o ys
      → DequeuesOnce xs (crossbeam_result o) ys
  Takes-once xs ys (Crossbeam.returned none) k = rw (k.1, k.0) (refl, refl)
  Takes-once xs ys (Crossbeam.returned (some x)) k = rw k (refl, refl)
  Takes-once xs ys (Crossbeam.retries l) k = rw (k.1, k.0) (refl, refl)

-- The first access of a call to the queue, with the readings of the clock that follow it.
module _ {ℓ κ} {E : Type ℓ} {S : Type κ} (A : ArrayQueue E S) where
  pub after_enqueue :
      ℕ
      → ℕ
      → BlockingQueueAdapter E S
      → Begun E (Option E) (Offer E)
      → Option (Option E) × BlockingQueueAdapter E S
  after_enqueue now restart a (segment g) = (locked_result g.outcome, blocking_queue g.queue)
  after_enqueue now restart (crossbeam_blocking_queue s) (loop o) =
      let (out, s') = attempt_enqueue A now restart o s in
      (crossbeam_result out, crossbeam_blocking_queue s')
  after_enqueue now restart (blocking_queue q) (loop o) = (none, blocking_queue q)

  pub enqueue_once :
      E → ℕ → ℕ → ℕ → ℕ → BlockingQueueAdapter E S → Option (Option E) × BlockingQueueAdapter E S
  unfolding after_enqueue try_enqueue
  enqueue_once e timeout start now restart a =
      after_enqueue now restart a (try_enqueue e timeout start a)

  pub after_dequeue :
      ℕ
      → ℕ
      → BlockingQueueAdapter E S
      → Begun E (Option E) Timer
      → Option (Option E) × BlockingQueueAdapter E S
  after_dequeue now restart a (segment g) = (locked_result g.outcome, blocking_queue g.queue)
  after_dequeue now restart (crossbeam_blocking_queue s) (loop w) =
      let (out, s') = attempt_dequeue A now restart w s in
      (crossbeam_result out, crossbeam_blocking_queue s')
  after_dequeue now restart (blocking_queue q) (loop w) = (none, blocking_queue q)

  pub dequeue_once :
      ℕ → ℕ → ℕ → ℕ → BlockingQueueAdapter E S → Option (Option E) × BlockingQueueAdapter E S
  unfolding after_dequeue try_dequeue
  dequeue_once timeout start now restart a =
      after_dequeue now restart a (try_dequeue timeout start a)

module _ {ℓ κ} {E : Type ℓ} {S : Type κ} {A : ArrayQueue E S} (L : IsArrayQueue A) where
  abbrev pub contents : BlockingQueueAdapter E S → List E
  contents (blocking_queue q) = q.elements
  contents (crossbeam_blocking_queue s) = L.contents s

  -- The flags of the one queue are exact.
  abbrev pub IsGood : BlockingQueueAdapter E S → Type 0
  IsGood (blocking_queue q) = IsConsistent q
  IsGood (crossbeam_blocking_queue s) = Unit

  -- Behind an adapter of either type, `try_enqueue` in its first access to the queue, whatever its
  -- timeout and the clock, puts its element at the back if there is room and says so, and otherwise
  -- leaves the elements alone; the capacity stays, and exact flags stay exact.
  pub enqueue_contract :
      (e : E) (timeout start now restart : ℕ) (a : BlockingQueueAdapter E S)
      → IsGood a
      → let (r, b) = enqueue_once A e timeout start now restart a in
        let room = ltb (length (contents a)) (capacity A a) in
        (accepted r ≡ room)
        × (contents b ≡ (if room then contents a ++ (e ∷ []) else contents a))
        × (capacity A b ≡ capacity A a)
        × IsGood b
  unfolding enqueue_once after_enqueue try_enqueue Locked.try_enqueue capacity Locked.capacity
  enqueue_contract e timeout start now restart (blocking_queue q) v =
      let k = try_enqueue-Keeps e timeout start q v in
      let (said, moved) =
        Enqueues-once q.capacity e _ _ _ (enqueue_loop-not-refused e (start_timer timeout start) q)
          k.effect in
      (said, moved, k.same_capacity, k.consistent)
  enqueue_contract e timeout start now restart (crossbeam_blocking_queue s) v =
      let o = Crossbeam.try_enqueue e timeout start in
      let (effect, same) = attempt_enqueue-Offers L now restart o s in
      let (said, moved) = Offers-once _ e _ _ _ effect in (said, moved, same, tt)

  -- Behind an adapter of either type, `try_dequeue` in its first access to the queue takes the front
  -- if there is one, and otherwise nothing; the capacity stays, and exact flags stay exact.
  pub dequeue_contract :
      (timeout start now restart : ℕ) (a : BlockingQueueAdapter E S)
      → IsGood a
      → let (r, b) = dequeue_once A timeout start now restart a in
        (taken r ≡ (pop_front (contents a)).0)
        × (contents b ≡ (pop_front (contents a)).1)
        × (capacity A b ≡ capacity A a)
        × IsGood b
  unfolding dequeue_once after_dequeue try_dequeue Locked.try_dequeue capacity Locked.capacity
  dequeue_contract timeout start now restart (blocking_queue q) v =
      let k = try_dequeue-Keeps timeout start q v in
      let (said, moved) =
        Dequeues-once _ _ _ (dequeue_loop-not-refused (start_timer timeout start) q v) k.effect in
      (said, moved, k.same_capacity, k.consistent)
  dequeue_contract timeout start now restart (crossbeam_blocking_queue s) v =
      let w = Crossbeam.try_dequeue timeout start in
      let (effect, same) = attempt_dequeue-Takes L now restart w s in
      let (said, moved) = Takes-once _ _ _ effect in (said, moved, same, tt)

  -- Behind an adapter of either type, in the first access to the queue, whatever the timeout and the clock:
  -- `try_enqueue` puts its element at the back if there is room and says so, and otherwise leaves the
  -- elements alone; `try_dequeue` takes the front if there is one, and otherwise nothing; the capacity
  -- stays, and exact flags stay exact.
  pub access_contract :
      (e : E) (timeout start now restart : ℕ) (a : BlockingQueueAdapter E S)
      → IsGood a
      → (let (r, b) = enqueue_once A e timeout start now restart a in
          let room = ltb (length (contents a)) (capacity A a) in
          (accepted r ≡ room)
          × (contents b ≡ (if room then contents a ++ (e ∷ []) else contents a))
          × (capacity A b ≡ capacity A a)
          × IsGood b)
        × (let (r, b) = dequeue_once A timeout start now restart a in
            (taken r ≡ (pop_front (contents a)).0)
            × (contents b ≡ (pop_front (contents a)).1)
            × (capacity A b ≡ capacity A a)
            × IsGood b)
  access_contract e timeout start now restart a v = (
    enqueue_contract e timeout start now restart a v,
    dequeue_contract timeout start now restart a v,
  )

  -- Made with a size above 0, an adapter of either type is empty and has that size as its capacity;
  -- its flags are exact.
  pub new_contract :
      (type : QueueType) (size : ℕ)
      → 0 < size
      → (a : BlockingQueueAdapter E S) × (new A type size ≡ some a)
        × (contents a ≡ [])
        × (capacity A a ≡ size)
        × IsGood a
  unfolding new Locked.new capacity Locked.capacity
  new_contract blocking_queue size h =
      (blocking_queue (Locked.new size), refl, refl, refl, new-IsConsistent size h)
  new_contract crossbeam_blocking_queue size h =
      let (s, made, none_in, same) = L.new_makes size h in
      (crossbeam_blocking_queue s, rw (made, new) refl, none_in, same, tt)

  -- The observers of an adapter of either type agree: `len` counts the elements, `is_empty` says
  -- whether there is none, and `is_full` whether there are as many as the capacity.
  pub observers_contract :
      (a : BlockingQueueAdapter E S)
      → (len A a ≡ length (contents a))
        × (is_empty A a ≡ is_nil (contents a))
        × (is_full A a ≡ (length (contents a) == capacity A a))
  unfolding len Locked.len is_empty Locked.is_empty is_full Locked.is_full capacity Locked.capacity
  observers_contract (blocking_queue q) = (refl, refl, refl)
  observers_contract (crossbeam_blocking_queue s) =
      (L.len_counts s, L.is_empty_tests s, L.is_full_tests s)
