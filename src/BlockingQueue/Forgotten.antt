-- ===== src/BlockingQueue/Forgotten.antt =====
-- A wakeup of src/blocking_queue.rs that is lost: a thread that was notified and finds its time up
-- leaves, and passes the notification on to nobody.
use command_executor.Base.{
  ◌≢◌, append-nil, ℕ, ◌≤◌, ◌<◌, ◌≡◌, refl, false, none, some, [], ◌∷◌, arith, update, ℕ_discrete,
}
use command_executor.Duration.{Timer, elapsed, after_wait, max_duration}
use command_executor.BlockingQueue.{
  full, empty, returned, new, try_enqueue, resume_enqueue, try_dequeue, resume_dequeue, wait_empty,
  resume_wait_empty,
}
use command_executor.BlockingQueue.System.{
  enqueued, enqueues, dequeues, waits_until_empty, outside, blocked, notified, begin, resume,
  settled, System, Step, expires, start, later, resumes, Reach,
}
use command_executor.BlockingQueue.Schedule.{schedule, enters, runs, passes}
use command_executor.BlockingQueue.Waits.{resume_enqueue-over}

timed-out :
    (now restart : ℕ) (w : Timer) → w.t ≤ elapsed w now → after_wait false now restart w ≡ none
unfolding after_wait
timed-out now restart w h = ground arith

module _ {ℓ} {E : Type ℓ} where
  -- A producer that has been woken, and whose timeout is over when it runs, can take a step in which
  -- its call returns its element to its caller: nothing is accepted or delivered, the queue stays as it
  -- was, the producer leaves, and no other thread is woken, however many sleep.
  pub wakeup_dropped :
      {n : ℕ} {s : System E} (i : ℕ) {e : E} {w : Timer}
      → i < n
      → s.threads i ≡ notified (enqueues e) w
      → w.t ≤ elapsed w s.clock
      → (t : System E) × Step n s t
        × ((resume (enqueues e) false s.clock s.clock w s.queue).outcome
            ≡ returned (enqueued (some e)))
        × (t.accepted ≡ s.accepted)
        × (t.delivered ≡ s.delivered)
        × (t.queue ≡ s.queue)
        × (t.threads ≡ update s.threads i outside)
  unfolding resume
  wakeup_dropped {n} {s} i {e} {w} lt th h = (
    _,
    resumes i s.clock lt th (omega arith) (rw over settled),
    rw over refl,
    rw over (append-nil s.accepted),
    rw over (append-nil s.delivered),
    rw over refl,
    refl,
  )
    where
      over :
          resume_enqueue e false s.clock s.clock w s.queue
          ≡ record { queue = s.queue; signals = []; outcome = returned (some e) }
      over = resume_enqueue-over false s.clock s.clock w e s.queue (timed-out s.clock s.clock w h)

  -- Two producers and a consumer on a queue with one place come to a state in which a producer
  -- without a timeout sleeps while the queue is empty, the consumer sleeps, and nobody is awake.
  pub asleep_over_empty_queue :
      (a b c : E)
      → (s : System E) × Reach 3 1 s
        × (s.queue.elements ≡ [])
        × (s.threads 0 ≡ blocked (enqueues c) full (record { t = max_duration; start = 0 }))
        × (s.threads 1 ≡ outside)
        × (s.threads 2 ≡ blocked dequeues empty (record { t = max_duration; start = 10 }))
  unfolding schedule begin resume try_enqueue resume_enqueue try_dequeue new ℕ_discrete
  asleep_over_empty_queue a b c =
      let r = schedule 3 1 (
        enters 0 (enqueues a) 0
        ∷ enters 0 (enqueues c) max_duration
        ∷ enters 1 (enqueues b) 10
        ∷ enters 2 dequeues max_duration
        ∷ passes 10
        ∷ runs 1
        ∷ enters 2 dequeues max_duration
        ∷ []) in
      (r.last, r.reach, refl, refl, refl, refl)

  -- No wait ends by its timeout.
  abbrev IsUntimed : {n : ℕ} {s t : System E} → Step n s t → Type 0
  IsUntimed {s = s} (resumes i restart {w = w} lt e le sig) =
      after_wait false s.clock restart w ≢ none
  IsUntimed (expires i lt e le sig) = ⊥
  IsUntimed _ = Unit

  abbrev pub AreUntimed : {n capacity : ℕ} {s : System E} → Reach n capacity s → Type 0
  AreUntimed start = Unit
  AreUntimed (later r st) = AreUntimed r × IsUntimed st

  -- On a queue with five places, used by a producer, two consumers and a caller of `wait_empty`, a
  -- state is reachable by a run in which no wait ends by its timeout, where a consumer sleeps while the
  -- queue holds an element, and nobody is awake: the caller of `wait_empty` sleeps on the same condition
  -- variable, and the other two are outside.
  pub asleep_over_element :
      (a b c : E)
      → (s : System E) × ((r : Reach 4 5 s) × AreUntimed r)
        × (s.queue.elements ≡ c ∷ [])
        × (s.threads 0 ≡ outside)
        × (s.threads 1 ≡ blocked dequeues empty (record { t = max_duration; start = 0 }))
        × (s.threads 2 ≡ outside)
        × (s.threads 3 ≡ blocked waits_until_empty empty (record { t = max_duration; start = 0 }))
  unfolding schedule begin resume try_enqueue resume_enqueue try_dequeue resume_dequeue wait_empty
      resume_wait_empty new ℕ_discrete after_wait
  asleep_over_element a b c =
      let r = schedule 4 5 (
        enters 0 (enqueues a) 0
        ∷ enters 3 waits_until_empty max_duration
        ∷ enters 1 dequeues 0
        ∷ enters 1 dequeues max_duration
        ∷ enters 2 dequeues max_duration
        ∷ enters 0 (enqueues b) 0
        ∷ runs 3
        ∷ enters 0 (enqueues c) 0
        ∷ runs 2
        ∷ runs 3
        ∷ []) in
      (
        r.last,
        (
          r.reach,
          ((((((((((tt, tt), tt), tt), tt), tt), tt), (λ e. cc)), tt), (λ e. cc)), (λ e. cc)),
        ),
        refl,
        refl,
        refl,
        refl,
        refl,
      )
