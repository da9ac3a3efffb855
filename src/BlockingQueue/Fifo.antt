-- ===== src/BlockingQueue/Fifo.antt =====
-- Any number of threads on a queue of src/blocking_queue.rs, in any order: what goes in comes out,
-- once and in order.
use command_executor.Base.{
  ℕ, ◌≤◌, ◌<◌, length, is_nil, ◌==◌, ◌≡◌, refl, sym, ap, ◌∙◌, Bool, true, false, Option, none, some,
  List, ◌++◌, append_assoc, append-nil,
}
use command_executor.Duration.{Timer}
use command_executor.BlockingQueue.{
  BlockingQueue, Outcome, returned, waits, Segment, map_segment, map_outcome, new,
}
use command_executor.BlockingQueue.Invariant.{
  IsConsistent, Keeps, Enqueues, Dequeues, Observes, new-IsConsistent, try_enqueue-Keeps,
  resume_enqueue-Keeps, try_dequeue-Keeps, resume_dequeue-Keeps, wait_empty-Keeps,
  resume_wait_empty-Keeps,
}
use command_executor.BlockingQueue.System.{
  Call, enqueues, dequeues, waits_until_empty, Reply, enqueued, dequeued, emptied, begin, resume,
  accepts, delivers, Thread, System, init, after, Step, tick, calls, stirs, resumes, expires, Reach,
  start, later,
}

module _ {ℓ} {E : Type ℓ} where
  -- A segment takes its element from the front, or puts one at the back.
  abbrev Moves : Call E → List E → Outcome (Reply E) → List E → Type ℓ
  Moves c xs o ys = xs ++ accepts c o ≡ delivers o ++ ys

  enqueue-Moves :
      (e : E) (capacity : ℕ) (xs ys : List E) (o : Outcome (Option E))
      → Enqueues capacity e xs o ys
      → Moves (enqueues e) xs (map_outcome enqueued o) ys
  enqueue-Moves e capacity xs ys (returned none) h = sym h.1
  enqueue-Moves e capacity xs ys (returned (some e')) h = append-nil xs ∙ sym h.1
  enqueue-Moves e capacity xs ys (waits v w) h = append-nil xs ∙ sym h.2

  dequeue-Moves :
      (xs ys : List E) (o : Outcome (Option E))
      → Dequeues xs o ys
      → Moves dequeues xs (map_outcome dequeued o) ys
  dequeue-Moves xs ys (returned none) h = append-nil xs ∙ sym h
  dequeue-Moves xs ys (returned (some x)) h = append-nil xs ∙ h
  dequeue-Moves xs ys (waits v w) h = append-nil xs ∙ sym h.2

  wait_empty-Moves :
      (xs ys : List E) (o : Outcome Bool)
      → Observes xs o ys
      → Moves waits_until_empty xs (map_outcome emptied o) ys
  wait_empty-Moves xs ys (returned b) h = append-nil xs ∙ sym h.1
  wait_empty-Moves xs ys (waits v w) h = append-nil xs ∙ sym h.2

  -- To forget what a segment does but for the order of the elements.
  Keeps-map_segment {κ} :
      {R : Type κ} {P : List E → Outcome R → List E → Type ℓ} (c : Call E) (f : R → Reply E)
      → ((xs ys : List E) (o : Outcome R) → P xs o ys → Moves c xs (map_outcome f o) ys)
      → {q : BlockingQueue E} {g : Segment E R} → Keeps P q g
      → Keeps (Moves c) q (map_segment f g)
  Keeps-map_segment c f weaker {q} {g} k = record {
    consistent = k.consistent;
    same_capacity = k.same_capacity;
    effect = weaker q.elements g.queue.elements g.outcome k.effect;
  }

  begin-Keeps :
      (c : Call E) (timeout now : ℕ) (q : BlockingQueue E)
      → IsConsistent q
      → Keeps (Moves c) q (begin c timeout now q)
  unfolding begin
  begin-Keeps (enqueues e) timeout now q v =
      Keeps-map_segment (enqueues e) enqueued (enqueue-Moves e q.capacity)
        (try_enqueue-Keeps e timeout now q v)
  begin-Keeps dequeues timeout now q v =
      Keeps-map_segment dequeues dequeued dequeue-Moves (try_dequeue-Keeps timeout now q v)
  begin-Keeps waits_until_empty timeout now q v =
      Keeps-map_segment waits_until_empty emptied wait_empty-Moves
        (wait_empty-Keeps timeout now q v)

  resume-Keeps :
      (c : Call E) (timed_out : Bool) (now restart : ℕ) (w : Timer) (q : BlockingQueue E)
      → IsConsistent q
      → Keeps (Moves c) q (resume c timed_out now restart w q)
  unfolding resume
  resume-Keeps (enqueues e) timed_out now restart w q v =
      Keeps-map_segment (enqueues e) enqueued (enqueue-Moves e q.capacity)
        (resume_enqueue-Keeps e timed_out now restart w q v)
  resume-Keeps dequeues timed_out now restart w q v =
      Keeps-map_segment dequeues dequeued dequeue-Moves
        (resume_dequeue-Keeps timed_out now restart w q v)
  resume-Keeps waits_until_empty timed_out now restart w q v =
      Keeps-map_segment waits_until_empty emptied wait_empty-Moves
        (resume_wait_empty-Keeps timed_out now restart w q v)

  -- What holds of the queue and its history between two segments.
  pub record IsSound (capacity : ℕ) (s : System E) : Type ℓ where
    pub consistent : IsConsistent s.queue
    pub bounded : s.queue.capacity ≡ capacity
    pub in_order : s.accepted ≡ s.delivered ++ s.queue.elements

  in_order-step :
      (accepted delivered xs ys a d : List E)
      → accepted ≡ delivered ++ xs
      → xs ++ a ≡ d ++ ys
      → accepted ++ a ≡ (delivered ++ d) ++ ys
  in_order-step accepted delivered xs ys a d h m =
      rw h (append_assoc delivered xs a ∙ ap (◌++◌ delivered) m ∙ sym (append_assoc delivered d ys))

  after-IsSound :
      {capacity : ℕ} {s : System E} (c : Call E) (g : Segment E (Reply E)) (ts : ℕ → Thread E)
      (clock : ℕ)
      → IsSound capacity s
      → Keeps (Moves c) s.queue g
      → IsSound capacity (after s c g ts clock)
  after-IsSound {s} c g ts clock v k = record {
    consistent = k.consistent;
    bounded = k.same_capacity ∙ v.bounded;
    in_order = in_order-step s.accepted s.delivered _ _ _ _ v.in_order k.effect;
  }

  -- Neither the threads nor the clock matter to it.
  same_queue :
      {capacity : ℕ} {s : System E} {ts : ℕ → Thread E} {clock : ℕ}
      → IsSound capacity s
      → IsSound capacity (record s { threads = ts; clock = clock })
  same_queue v = record { consistent = v.consistent; bounded = v.bounded; in_order = v.in_order }

  -- Every step keeps the flags exact, the bound, and the order of the elements.
  pub Step-IsSound :
      {n capacity : ℕ} {s t : System E} → Step n s t → IsSound capacity s → IsSound capacity t
  Step-IsSound (tick d) v = same_queue v
  Step-IsSound {s} (calls i c timeout lt e sig) v =
      after-IsSound c _ _ _ v (begin-Keeps c timeout s.clock s.queue v.consistent)
  Step-IsSound (stirs i lt e) v = same_queue v
  Step-IsSound {s} (resumes i restart {c} {w} lt e le sig) v =
      after-IsSound c _ _ _ v (resume-Keeps c false s.clock restart w s.queue v.consistent)
  Step-IsSound {s} (expires i {c} {w = w} lt e le sig) v =
      after-IsSound c _ _ _ v (resume-Keeps c true s.clock s.clock w s.queue v.consistent)

  pub init-IsSound : (capacity : ℕ) → 0 < capacity → IsSound capacity (init capacity)
  unfolding new
  init-IsSound capacity h = record {
    consistent = new-IsConsistent capacity h;
    bounded = refl;
    in_order = refl;
  }

  pub Reach-IsSound :
      {n capacity : ℕ} {s : System E} → 0 < capacity → Reach n capacity s → IsSound capacity s
  Reach-IsSound {capacity = capacity} h start = init-IsSound capacity h
  Reach-IsSound h (later r st) = Step-IsSound st (Reach-IsSound h r)

  -- In a queue made with at least one place, after any interleaving of calls by any number of
  -- threads: the elements accepted are, in order, those delivered and then those in the queue; the
  -- queue holds no more than its capacity; the flags say whether it is empty and whether it is full.
  pub fifo_bounded :
      {n capacity : ℕ} {s : System E}
      → 0 < capacity
      → Reach n capacity s
      → (s.accepted ≡ s.delivered ++ s.queue.elements)
        × (length s.queue.elements ≤ capacity)
        × (s.queue.flags.empty ≡ is_nil s.queue.elements)
        × (s.queue.flags.full ≡ (length s.queue.elements == capacity))
  fifo_bounded {capacity = capacity} {s} h r =
      let v = Reach-IsSound h r in
      (
        v.in_order,
        rw (← v.bounded) v.consistent.within,
        v.consistent.empty_exact,
        rw (← v.bounded) v.consistent.full_exact,
      )
