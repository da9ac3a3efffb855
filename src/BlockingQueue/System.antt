-- ===== src/BlockingQueue/System.antt =====
-- Any number of threads that share one queue of src/blocking_queue.rs. A thread runs a segment
-- under the mutex of the flags, so the segments interleave in any order.
use command_executor.Base.{
  ℕ, ◌+◌, ◌≤◌, ◌<◌, ◌≡◌, Bool, true, false, Option, none, some, List, [], ◌∷◌, ◌++◌, update,
}
use command_executor.Duration.{Timer, elapsed}
use command_executor.BlockingQueue.{
  BlockingQueue, Condvar, empty, full, Signal, notify_one, notify_all, Outcome, returned, waits,
  Segment, map_segment, new, try_enqueue, resume_enqueue, try_dequeue, resume_dequeue, wait_empty,
  resume_wait_empty,
}

-- A call of one of the three methods that block, without its timeout.
pub data Call {ℓ} (E : Type ℓ) : Type ℓ where
  enqueues : E → Call E
  dequeues waits_until_empty : Call E

pub data Reply {ℓ} (E : Type ℓ) : Type ℓ where
  enqueued dequeued : Option E → Reply E
  emptied : Bool → Reply E

-- A thread is outside the queue, in the wait set of a condition variable, or woken and about to
-- lock the mutex again.
pub data Thread {ℓ} (E : Type ℓ) : Type ℓ where
  outside : Thread E
  blocked : Call E → Condvar → Timer → Thread E
  notified : Call E → Timer → Thread E

module _ {ℓ} {E : Type ℓ} where
  unfoldable pub begin : Call E → ℕ → ℕ → BlockingQueue E → Segment E (Reply E)
  begin (enqueues e) timeout now q = map_segment enqueued (try_enqueue e timeout now q)
  begin dequeues timeout now q = map_segment dequeued (try_dequeue timeout now q)
  begin waits_until_empty timeout now q = map_segment emptied (wait_empty timeout now q)

  unfoldable pub resume : Call E → Bool → ℕ → ℕ → Timer → BlockingQueue E → Segment E (Reply E)
  resume (enqueues e) timed_out now restart w q =
      map_segment enqueued (resume_enqueue e timed_out now restart w q)
  resume dequeues timed_out now restart w q =
      map_segment dequeued (resume_dequeue timed_out now restart w q)
  resume waits_until_empty timed_out now restart w q =
      map_segment emptied (resume_wait_empty timed_out now restart w q)

  -- The element that a call put in, and the one that it took out.
  abbrev pub accepts : Call E → Outcome (Reply E) → List E
  accepts (enqueues e) (returned (enqueued none)) = e ∷ []
  accepts _ _ = []

  abbrev pub delivers : Outcome (Reply E) → List E
  delivers (returned (dequeued (some x))) = x ∷ []
  delivers _ = []

  -- Where a thread is after a segment.
  abbrev pub land : Call E → Outcome (Reply E) → Thread E
  land c (returned r) = outside
  land c (waits v w) = blocked c v w

  abbrev pub is_waiting : Condvar → Thread E → Bool
  is_waiting empty (blocked c empty w) = true
  is_waiting full (blocked c full w) = true
  is_waiting v th = false

  abbrev pub wake : Condvar → Thread E → Thread E
  wake empty (blocked c empty w) = notified c w
  wake full (blocked c full w) = notified c w
  wake v th = th

  -- What the signals of a segment do to the threads, in order. `notify_one` wakes any one thread
  -- of the wait set, and is lost if there is none.
  pub data Signalled (n : ℕ) : List Signal → (ℕ → Thread E) → (ℕ → Thread E) → Type ℓ where
    settled : {ts : ℕ → Thread E} → Signalled n [] ts ts
    wakes_one :
        {v : Condvar} {rest : List Signal} {ts us : ℕ → Thread E} (i : ℕ)
        → i < n
        → is_waiting v (ts i) ≡ true
        → Signalled n rest (update ts i (wake v (ts i))) us
        → Signalled n (notify_one v ∷ rest) ts us
    wakes_none :
        {v : Condvar} {rest : List Signal} {ts us : ℕ → Thread E}
        → ((i : ℕ) → i < n → is_waiting v (ts i) ≡ false)
        → Signalled n rest ts us
        → Signalled n (notify_one v ∷ rest) ts us
    wakes_all :
        {v : Condvar} {rest : List Signal} {ts us : ℕ → Thread E}
        → Signalled n rest (λ i. wake v (ts i)) us
        → Signalled n (notify_all v ∷ rest) ts us

-- The queue, its users and the clock; `accepted` and `delivered` record what went in and out.
pub record System {ℓ} (E : Type ℓ) : Type ℓ where
  pub queue : BlockingQueue E
  pub threads : ℕ → Thread E
  pub clock : ℕ
  pub accepted : List E
  pub delivered : List E

module _ {ℓ} {E : Type ℓ} where
  abbrev pub init : ℕ → System E
  init capacity = record {
    queue = new capacity;
    threads = λ _. outside;
    clock = 0;
    accepted = [];
    delivered = [];
  }

  -- The system after a segment of a call.
  abbrev pub after : System E → Call E → Segment E (Reply E) → (ℕ → Thread E) → ℕ → System E
  after s c g ts clock = record {
    queue = g.queue;
    threads = ts;
    clock = clock;
    accepted = s.accepted ++ accepts c g.outcome;
    delivered = s.delivered ++ delivers g.outcome;
  }

  pub data Step (n : ℕ) (s : System E) : System E → Type ℓ where
    -- time passes
    tick : (d : ℕ) → Step n s (record s { clock = s.clock + d })
    -- a thread calls a method
    calls :
        (i : ℕ) (c : Call E) (timeout : ℕ) {ts : ℕ → Thread E}
        → i < n
        → s.threads i ≡ outside
        → (let g = begin c timeout s.clock s.queue in
            Signalled n g.signals (update s.threads i (land c g.outcome)) ts)
        → Step n s (after s c (begin c timeout s.clock s.queue) ts s.clock)
    -- a wait ends by itself, as those of a condition variable may
    stirs :
        (i : ℕ) {c : Call E} {v : Condvar} {w : Timer}
        → i < n
        → s.threads i ≡ blocked c v w
        → Step n s (record s { threads = update s.threads i (notified c w) })
    -- a woken thread has the mutex again; it reads the clock now and at `restart`
    resumes :
        (i restart : ℕ) {c : Call E} {w : Timer} {ts : ℕ → Thread E}
        → i < n
        → s.threads i ≡ notified c w
        → s.clock ≤ restart
        → (let g = resume c false s.clock restart w s.queue in
            Signalled n g.signals (update s.threads i (land c g.outcome)) ts)
        → Step n s (after s c (resume c false s.clock restart w s.queue) ts restart)
    -- the time of a wait is up, and the thread has the mutex again
    expires :
        (i : ℕ) {c : Call E} {v : Condvar} {w : Timer} {ts : ℕ → Thread E}
        → i < n
        → s.threads i ≡ blocked c v w
        → w.t ≤ elapsed w s.clock
        → (let g = resume c true s.clock s.clock w s.queue in
            Signalled n g.signals (update s.threads i (land c g.outcome)) ts)
        → Step n s (after s c (resume c true s.clock s.clock w s.queue) ts s.clock)

  pub data Reach (n capacity : ℕ) : System E → Type ℓ where
    start : Reach n capacity (init capacity)
    later : {s t : System E} → Reach n capacity s → Step n s t → Reach n capacity t
