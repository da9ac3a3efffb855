-- ===== src/BlockingQueue/Invariant.antt =====
-- What one segment of src/blocking_queue.rs does to the queue, and that the flags tell the truth
-- about the deque whenever the mutex is free.
use command_executor.Base.{
  ℕ, ◌≤◌, ◌<◌, ◌≡◌, refl, inl, inr, Bool, true, false, Option, none, some, List, [], ◌∷◌, ◌++◌,
  length, is_nil, length-snoc, is_nil-snoc, ◌==◌, arith, Option-cases, Bool-cases, if_cases,
}
use command_executor.Duration.{Timer, start_timer, after_wait}
use command_executor.BlockingQueue.{
  BlockingQueue, Outcome, returned, waits, Segment, full, empty, new, push_element, enqueue_loop,
  try_enqueue, resume_enqueue, dequeue_loop, try_dequeue, resume_dequeue, wait_empty_loop,
  wait_empty, resume_wait_empty,
}

module _ {ℓ} {E : Type ℓ} where
  -- The flags are exact and the bound holds.
  pub record IsConsistent (q : BlockingQueue E) : Type 0 where
    pub empty_exact : q.flags.empty ≡ is_nil q.elements
    pub full_exact : q.flags.full ≡ (length q.elements == q.capacity)
    pub within : length q.elements ≤ q.capacity

  pub new-IsConsistent : (capacity : ℕ) → 0 < capacity → IsConsistent (new capacity)
  unfolding new
  new-IsConsistent capacity h = ground arith

  -- A bounded queue of `capacity` places, from `xs` to `ys`: `e` goes to the back, where there is
  -- room, or comes back; a wait is for a full queue.
  abbrev pub Enqueues : ℕ → E → List E → Outcome (Option E) → List E → Type ℓ
  Enqueues capacity e xs (returned none) ys = (length xs < capacity) × (ys ≡ xs ++ (e ∷ []))
  Enqueues capacity e xs (returned (some e')) ys = (e' ≡ e) × (ys ≡ xs)
  Enqueues capacity e xs (waits c w) ys = (c ≡ full) × (length xs ≡ capacity) × (ys ≡ xs)

  -- The front leaves, or nothing does; a wait is for an empty queue.
  abbrev pub Dequeues : List E → Outcome (Option E) → List E → Type ℓ
  Dequeues xs (returned (some x)) ys = xs ≡ x ∷ ys
  Dequeues xs (returned none) ys = ys ≡ xs
  Dequeues xs (waits c w) ys = (c ≡ empty) × (xs ≡ []) × (ys ≡ xs)

  -- The answer is whether the queue is empty; a wait is for one that is not.
  abbrev pub Observes : List E → Outcome Bool → List E → Type ℓ
  Observes xs (returned b) ys = (b ≡ is_nil xs) × (ys ≡ xs)
  Observes xs (waits c w) ys = (c ≡ empty) × (is_nil xs ≡ false) × (ys ≡ xs)

  -- A segment keeps the queue consistent and its capacity, and does to the elements what `P` says.
  pub record Keeps {κ} {R : Type κ} (P : List E → Outcome R → List E → Type ℓ) (q : BlockingQueue E)
      (g : Segment E R) : Type ℓ where
    pub consistent : IsConsistent g.queue
    pub same_capacity : g.queue.capacity ≡ q.capacity
    pub effect : P q.elements g.outcome g.queue.elements

  push_element-IsConsistent :
      (e : E) (q : BlockingQueue E)
      → IsConsistent q
      → q.flags.full ≡ false
      → IsConsistent (push_element e q).queue
  unfolding push_element
  push_element-IsConsistent e q v room =
      ground (arith, length-snoc q.elements e, is_nil-snoc q.elements e)

  -- What `push_element` does besides setting the flags.
  push_element-effect :
      (e : E) (q : BlockingQueue E)
      → let g = push_element e q in
        (g.queue.elements ≡ q.elements ++ (e ∷ []))
        × (g.queue.capacity ≡ q.capacity)
        × (g.outcome ≡ returned none)
  unfolding push_element
  push_element-effect e q = elim (Bool-cases (length (q.elements ++ (e ∷ [])) == q.capacity)) [
    | inl last ↦ rw (last, push_element) (refl, refl, refl)
    | inr more ↦ rw (more, push_element) (refl, refl, refl)
  ]

  -- A queue whose flag `full` is down has room.
  pub has_room :
      (q : BlockingQueue E) → IsConsistent q → q.flags.full ≡ false → length q.elements < q.capacity
  has_room q v room = ground arith

  pub no_room :
      (q : BlockingQueue E) → IsConsistent q → q.flags.full ≡ true → length q.elements ≡ q.capacity
  no_room q v room = ground arith

  push_element-Keeps :
      (e : E) (q : BlockingQueue E)
      → IsConsistent q
      → q.flags.full ≡ false
      → Keeps (Enqueues q.capacity e) q (push_element e q)
  push_element-Keeps e q v room =
      let (elements, same, done) = push_element-effect e q in
      record {
        consistent = push_element-IsConsistent e q v room;
        same_capacity = same;
        effect = rw done (has_room q v room, elements);
      }

  enqueue_loop-Keeps :
      (e : E) (w : Timer) (q : BlockingQueue E)
      → IsConsistent q
      → Keeps (Enqueues q.capacity e) q (enqueue_loop e w q)
  unfolding enqueue_loop
  enqueue_loop-Keeps e w q v =
      if_cases (Keeps (Enqueues q.capacity e) q) q.flags.full
        (λ taken. record {
          consistent = v;
          same_capacity = refl;
          effect = (refl, no_room q v taken, refl);
        })
        (λ room. push_element-Keeps e q v room)

  -- `try_enqueue` appends, gives the element back, or waits for a full queue.
  pub try_enqueue-Keeps :
      (e : E) (timeout now : ℕ) (q : BlockingQueue E)
      → IsConsistent q
      → Keeps (Enqueues q.capacity e) q (try_enqueue e timeout now q)
  unfolding try_enqueue
  try_enqueue-Keeps e timeout now q v = enqueue_loop-Keeps e (start_timer timeout now) q v

  -- The same after a wait, however it ended.
  pub resume_enqueue-Keeps :
      (e : E) (timed_out : Bool) (now restart : ℕ) (w : Timer) (q : BlockingQueue E)
      → IsConsistent q
      → Keeps (Enqueues q.capacity e) q (resume_enqueue e timed_out now restart w q)
  unfolding resume_enqueue
  resume_enqueue-Keeps e timed_out now restart w q v =
      elim (Option-cases (after_wait timed_out now restart w)) [
        | inl x ↦ rw (x, resume_enqueue) (ground arith)
        | inr (w', x) ↦ rw (x, resume_enqueue) (enqueue_loop-Keeps e w' q v)
      ]

  dequeue_loop-Keeps :
      (w : Timer) (q : BlockingQueue E) → IsConsistent q → Keeps Dequeues q (dequeue_loop w q)
  unfolding dequeue_loop
  dequeue_loop-Keeps w q v = ground arith

  -- `try_dequeue` takes the front or waits for an empty queue.
  pub try_dequeue-Keeps :
      (timeout now : ℕ) (q : BlockingQueue E)
      → IsConsistent q
      → Keeps Dequeues q (try_dequeue timeout now q)
  unfolding try_dequeue
  try_dequeue-Keeps timeout now q v = dequeue_loop-Keeps (start_timer timeout now) q v

  -- The same after a wait, however it ended.
  pub resume_dequeue-Keeps :
      (timed_out : Bool) (now restart : ℕ) (w : Timer) (q : BlockingQueue E)
      → IsConsistent q
      → Keeps Dequeues q (resume_dequeue timed_out now restart w q)
  unfolding resume_dequeue
  resume_dequeue-Keeps timed_out now restart w q v =
      elim (Option-cases (after_wait timed_out now restart w)) [
        | inl x ↦ rw (x, resume_dequeue) (ground arith)
        | inr (w', x) ↦ rw (x, resume_dequeue) (dequeue_loop-Keeps w' q v)
      ]

  wait_empty_loop-Keeps :
      (w : Timer) (q : BlockingQueue E) → IsConsistent q → Keeps Observes q (wait_empty_loop w q)
  unfolding wait_empty_loop
  wait_empty_loop-Keeps w q v = ground arith

  -- `wait_empty` answers at once or waits for a queue that is not empty.
  pub wait_empty-Keeps :
      (timeout now : ℕ) (q : BlockingQueue E)
      → IsConsistent q
      → Keeps Observes q (wait_empty timeout now q)
  unfolding wait_empty
  wait_empty-Keeps timeout now q v = wait_empty_loop-Keeps (start_timer timeout now) q v

  -- The same after a wait, however it ended.
  pub resume_wait_empty-Keeps :
      (timed_out : Bool) (now restart : ℕ) (w : Timer) (q : BlockingQueue E)
      → IsConsistent q
      → Keeps Observes q (resume_wait_empty timed_out now restart w q)
  unfolding resume_wait_empty
  resume_wait_empty-Keeps timed_out now restart w q v =
      elim (Option-cases (after_wait timed_out now restart w)) [
        | inl x ↦ rw (x, resume_wait_empty) (ground arith)
        | inr (w', x) ↦ rw (x, resume_wait_empty) (wait_empty_loop-Keeps w' q v)
      ]

  -- On a queue whose flags are exact, each method from its start and after a wait, however the wait
  -- ended, leaves the flags exact, the elements within the capacity, and the capacity as it is.
  -- `try_enqueue` appends its element, which happens only where there is room, or gives it back with the
  -- elements unchanged, or waits on `full` for a queue that is full; `try_dequeue` takes the front, or
  -- returns `None` with the elements unchanged, or waits on `empty` for a queue that is empty;
  -- `wait_empty` returns whether the queue is empty or waits on `empty` for one that is not, and changes
  -- no element.
  pub all_segments-Keeps :
      (e : E) (timeout : ℕ) (timed_out : Bool) (now restart : ℕ) (w : Timer) (q : BlockingQueue E)
      → IsConsistent q
      → Keeps (Enqueues q.capacity e) q (try_enqueue e timeout now q)
        × Keeps (Enqueues q.capacity e) q (resume_enqueue e timed_out now restart w q)
        × Keeps Dequeues q (try_dequeue timeout now q)
        × Keeps Dequeues q (resume_dequeue timed_out now restart w q)
        × Keeps Observes q (wait_empty timeout now q)
        × Keeps Observes q (resume_wait_empty timed_out now restart w q)
  all_segments-Keeps e timeout timed_out now restart w q v = (
    try_enqueue-Keeps e timeout now q v,
    resume_enqueue-Keeps e timed_out now restart w q v,
    try_dequeue-Keeps timeout now q v,
    resume_dequeue-Keeps timed_out now restart w q v,
    wait_empty-Keeps timeout now q v,
    resume_wait_empty-Keeps timed_out now restart w q v,
  )
