-- ===== src/BlockingQueue/Turns.antt =====
-- A segment of a producer or a consumer of src/blocking_queue.rs: what it takes from those who wait
-- for the queue, and what it signals to them.
use command_executor.Base.{
  ℕ, ◌+◌, ◌-◌, ◌≤◌, ◌≡◌, refl, ap, ◌⊎◌, inl, inr, Bool, false, none, some, [], length, length-snoc,
  arith, if_cases,
}
use command_executor.Duration.{Timer, start_timer, after_wait}
use command_executor.BlockingQueue.{
  BlockingQueue, Condvar, empty, full, returned, waits, Segment, map_segment, map_outcome,
  push_element, enqueue_loop, try_enqueue, pop_element, dequeue_loop, try_dequeue,
}
use command_executor.BlockingQueue.Invariant.{IsConsistent, has_room, no_room}
use command_executor.BlockingQueue.Waits.{resume_enqueue-again, resume_dequeue-again}
use command_executor.BlockingQueue.System.{
  Call, enqueues, dequeues, waits_until_empty, enqueued, dequeued, begin, resume,
}
use command_executor.BlockingQueue.Waiters.{is, ones}

module _ {ℓ} {E : Type ℓ} where
  -- How many of the sleepers on a condition variable the queue could serve now.
  abbrev pub demand : Condvar → BlockingQueue E → ℕ
  demand full q = q.capacity - length q.elements
  demand empty q = length q.elements

  -- A segment of a call that waits on `v` either waits, since it cannot be served, or serves itself
  -- and signals as much as it adds to the demand.
  abbrev pub Turns {κ} : {R : Type κ} → Condvar → BlockingQueue E → Segment E R → Type (ℓ ⊔ κ)
  Turns {R = R} v q g =
      ((w : Timer) × (g.outcome ≡ waits v w) × (g.signals ≡ []) × (g.queue ≡ q) × (demand v q ≡ 0))
      ⊎ ((r : R) × (g.outcome ≡ returned r)
          × ((u : Condvar) → demand u g.queue + is u v ≤ demand u q + ones u g.signals))

  push-Turns :
      (e : E) (q : BlockingQueue E)
      → IsConsistent q
      → q.flags.full ≡ false
      → (u : Condvar)
      → demand u (push_element e q).queue + is u full
        ≤ demand u q + ones u (push_element e q).signals
  unfolding push_element
  push-Turns e q v room u = ground (arith, has_room q v room, length-snoc q.elements e)

  enqueue_loop-Turns :
      (e : E) (w : Timer) (q : BlockingQueue E) → IsConsistent q → Turns full q (enqueue_loop e w q)
  unfolding enqueue_loop
  enqueue_loop-Turns e w q v =
      if_cases (Turns full q) q.flags.full
        (λ taken. inl (w, refl, refl, refl, omega (arith, no_room q v taken)))
        (λ room. inr (none, refl, push-Turns e q v room))

  pop-Turns :
      (q : BlockingQueue E)
      → IsConsistent q
      → q.flags.empty ≡ false
      → (u : Condvar)
      → demand u (pop_element q).queue + is u empty ≤ demand u q + ones u (pop_element q).signals
  unfolding pop_element
  pop-Turns q v some_left u = ground arith

  dequeue_loop-Turns :
      (w : Timer) (q : BlockingQueue E) → IsConsistent q → Turns empty q (dequeue_loop w q)
  unfolding dequeue_loop
  dequeue_loop-Turns w q v =
      if_cases (Turns empty q) q.flags.empty (λ none_left. inl (w, refl, refl, refl, ground arith))
        (λ some_left. inr (_, refl, pop-Turns q v some_left))

  Turns-map_segment {κ κ'} :
      {R : Type κ} {S : Type κ'} (f : R → S) (v : Condvar) (q : BlockingQueue E) (g : Segment E R)
      → Turns v q g
      → Turns v q (map_segment f g)
  Turns-map_segment f v q g (inl (w, o, s, e, z)) = inl (w, ap (map_outcome f) o, s, e, z)
  Turns-map_segment f v q g (inr (r, o, d)) = inr (f r, ap (map_outcome f) o, d)

  -- A call that puts an element in or takes one out.
  abbrev pub IsWork : Call E → Type 0
  IsWork waits_until_empty = ⊥
  IsWork c = Unit

  -- The condition variable that a call waits on.
  abbrev pub side : Call E → Condvar
  side (enqueues e) = full
  side _ = empty

  try_enqueue-Turns :
      (e : E) (timeout now : ℕ) (q : BlockingQueue E)
      → IsConsistent q
      → Turns full q (try_enqueue e timeout now q)
  unfolding try_enqueue
  try_enqueue-Turns e timeout now q v = enqueue_loop-Turns e (start_timer timeout now) q v

  try_dequeue-Turns :
      (timeout now : ℕ) (q : BlockingQueue E)
      → IsConsistent q
      → Turns empty q (try_dequeue timeout now q)
  unfolding try_dequeue
  try_dequeue-Turns timeout now q v = dequeue_loop-Turns (start_timer timeout now) q v

  pub begin-Turns :
      (c : Call E) (timeout now : ℕ) (q : BlockingQueue E)
      → IsWork c
      → IsConsistent q
      → Turns (side c) q (begin c timeout now q)
  unfolding begin
  begin-Turns (enqueues e) timeout now q h v =
      Turns-map_segment enqueued full q _ (try_enqueue-Turns e timeout now q v)
  begin-Turns dequeues timeout now q h v =
      Turns-map_segment dequeued empty q _ (try_dequeue-Turns timeout now q v)
  begin-Turns waits_until_empty timeout now q h v = absurd h

  pub resume-Turns :
      (c : Call E) (timed_out : Bool) (now restart : ℕ) (w w' : Timer) (q : BlockingQueue E)
      → IsWork c
      → after_wait timed_out now restart w ≡ some w'
      → IsConsistent q
      → Turns (side c) q (resume c timed_out now restart w q)
  unfolding resume
  resume-Turns (enqueues e) timed_out now restart w w' q h again v =
      rw (resume_enqueue-again timed_out now restart w w' q again e)
        (Turns-map_segment enqueued full q _ (enqueue_loop-Turns e w' q v))
  resume-Turns dequeues timed_out now restart w w' q h again v =
      rw (resume_dequeue-again timed_out now restart w w' q again)
        (Turns-map_segment dequeued empty q _ (dequeue_loop-Turns w' q v))
  resume-Turns waits_until_empty timed_out now restart w w' q h again v = absurd h
