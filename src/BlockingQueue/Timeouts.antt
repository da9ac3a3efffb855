-- ===== src/BlockingQueue/Timeouts.antt =====
-- The timeouts of `try_enqueue`, `try_dequeue` and `wait_empty` in src/blocking_queue.rs.
use command_executor.Base.{
  All, All-Unit, ℕ, ◌<◌, ◌≡◌, refl, ◌≢◌, Bool, false, Option, none, some, [], List, length, arith,
  if_cases,
}
use command_executor.Duration.{Timer}
use command_executor.BlockingQueue.{
  BlockingQueue, returned, waits, Segment, enqueue_loop, try_enqueue, resume_enqueue, pop_element,
  dequeue_loop, try_dequeue, resume_dequeue, wait_empty_loop, wait_empty, resume_wait_empty,
}
use command_executor.BlockingQueue.Invariant.{IsConsistent}
use command_executor.BlockingQueue.Waits.{
  Wake, run_enqueue, run_dequeue, run_wait_empty, Advances, Untimed, spent, resume_wait_empty-again,
  resume_enqueue-over, resume_dequeue-over, resume_wait_empty-over, resume_enqueue-again,
  resume_dequeue-again,
}
use command_executor.BlockingQueue.Loop.{IsLoop, loop_ends, loop_patient}

module _ {ℓ} {E : Type ℓ} where
  -- A loop that waits does so with the timer that it was given.
  enqueue_loop-waits :
      (e : E) (w : Timer) (q : BlockingQueue E) (v : _) (w' : Timer)
      → (enqueue_loop e w q).outcome ≡ waits v w'
      → w ≡ w'
  unfolding enqueue_loop
  enqueue_loop-waits e w q v w' =
      if_cases (λ (g : Segment E (Option E)). g.outcome ≡ waits v w' → w ≡ w') q.flags.full
        (λ _ h. cc) (λ _ h. cc)

  dequeue_loop-waits :
      (w : Timer) (q : BlockingQueue E) (v : _) (w' : Timer)
      → (dequeue_loop w q).outcome ≡ waits v w'
      → w ≡ w'
  unfolding dequeue_loop
  dequeue_loop-waits w q v w' =
      if_cases (λ (g : Segment E (Option E)). g.outcome ≡ waits v w' → w ≡ w') q.flags.empty
        (λ _ h. cc) (λ _ h. cc)

  wait_empty_loop-waits :
      (w : Timer) (q : BlockingQueue E) (v : _) (w' : Timer)
      → (wait_empty_loop w q).outcome ≡ waits v w'
      → w ≡ w'
  unfolding wait_empty_loop
  wait_empty_loop-waits w q v w' h = ground arith

  enqueue-IsLoop :
      (e : E)
      → IsLoop
          (λ x w. resume_enqueue e x.timed_out x.now x.restart w x.queue)
          (λ q. record { queue = q; signals = []; outcome = returned (some e) })
          (enqueue_loop e)
  enqueue-IsLoop e = record {
    over = λ x w gone. resume_enqueue-over x.timed_out x.now x.restart w e x.queue gone;
    again = λ x w w' more. resume_enqueue-again x.timed_out x.now x.restart w w' x.queue more e;
    gives_up = λ q. (some e, refl);
    waits_with = enqueue_loop-waits e;
  }

  dequeue-IsLoop :
      IsLoop
        (λ x w. resume_dequeue x.timed_out x.now x.restart w x.queue)
        (λ (q : BlockingQueue E). record { queue = q; signals = []; outcome = returned none })
        dequeue_loop
  dequeue-IsLoop = record {
    over = λ x w gone. resume_dequeue-over x.timed_out x.now x.restart w x.queue gone;
    again = λ x w w' more. resume_dequeue-again x.timed_out x.now x.restart w w' x.queue more;
    gives_up = λ q. (none, refl);
    waits_with = dequeue_loop-waits;
  }

  wait_empty-IsLoop :
      IsLoop
        (λ x w. resume_wait_empty x.timed_out x.now x.restart w x.queue)
        (λ (q : BlockingQueue E). record {
          queue = q;
          signals = [];
          outcome = returned q.flags.empty;
        })
        wait_empty_loop
  wait_empty-IsLoop = record {
    over = λ x w gone. resume_wait_empty-over x.timed_out x.now x.restart w x.queue gone;
    again = λ x w w' more. resume_wait_empty-again x.timed_out x.now x.restart w w' x.queue more;
    gives_up = λ q. (q.flags.empty, refl);
    waits_with = wait_empty_loop-waits;
  }

  -- If the clock moves on between any two waits, each of the three methods returns before its waits
  -- outnumber the time units of its timeout, whatever the other threads do to the queue.
  pub calls_return :
      (e : E) (timeout now : ℕ) (q : BlockingQueue E) (wakes : List (Wake E))
      → Advances now wakes
      → timeout < length wakes
      → ((r : Option E) × ((run_enqueue e timeout now q wakes).outcome ≡ returned r))
        × ((r : Option E) × ((run_dequeue timeout now q wakes).outcome ≡ returned r))
        × ((b : Bool) × ((run_wait_empty timeout now q wakes).outcome ≡ returned b))
  unfolding run_enqueue run_dequeue run_wait_empty try_enqueue try_dequeue wait_empty
  calls_return e timeout now q wakes a h = (
    loop_ends (enqueue-IsLoop e) timeout now q wakes a h,
    loop_ends dequeue-IsLoop timeout now q wakes a h,
    loop_ends wait_empty-IsLoop timeout now q wakes a h,
  )

  pub enqueue_loop-not-refused :
      (e : E) (w : Timer) (q : BlockingQueue E) (e' : E)
      → (enqueue_loop e w q).outcome ≢ returned (some e')
  unfolding enqueue_loop
  enqueue_loop-not-refused e w q e' =
      if_cases (λ (g : Segment E (Option E)). g.outcome ≢ returned (some e')) q.flags.full
        (λ _ h. cc) (λ _ h. cc)

  -- `try_enqueue` gives its element back only if a wait reports a timeout or the time counted
  -- between the waits reaches the timeout.
  enqueue_not_refused_early :
      (e : E) (timeout now : ℕ) (q : BlockingQueue E) (wakes : List (Wake E))
      → Untimed wakes
      → spent now wakes < timeout
      → (e' : E) → (run_enqueue e timeout now q wakes).outcome ≢ returned (some e')
  unfolding run_enqueue try_enqueue
  enqueue_not_refused_early e timeout now q wakes u h e' =
      loop_patient (enqueue-IsLoop e) (λ o. o ≡ returned (some e')) (λ v w h. cc) (λ q. Unit)
        (λ w q _. enqueue_loop-not-refused e w q e') timeout now q wakes tt (All-Unit wakes) u h

  pop_element-some :
      (q : BlockingQueue E)
      → IsConsistent q
      → q.flags.empty ≡ false
      → (pop_element q).outcome ≢ returned none
  unfolding pop_element
  pop_element-some q v left h = ground arith

  pub dequeue_loop-not-refused :
      (w : Timer) (q : BlockingQueue E)
      → IsConsistent q
      → (dequeue_loop w q).outcome ≢ returned none
  unfolding dequeue_loop
  dequeue_loop-not-refused w q v =
      if_cases (λ (g : Segment E (Option E)). g.outcome ≢ returned none) q.flags.empty (λ _ h. cc)
        (λ left h. pop_element-some q v left h)

  -- `try_dequeue` on a queue whose flags are exact, at the start and after each wait, returns `None`
  -- only if a wait reports a timeout or the time counted between the waits reaches the timeout.
  dequeue_not_refused_early :
      (timeout now : ℕ) (q : BlockingQueue E) (wakes : List (Wake E))
      → IsConsistent q
      → All (λ x. IsConsistent x.queue) wakes
      → Untimed wakes
      → spent now wakes < timeout
      → (run_dequeue timeout now q wakes).outcome ≢ returned none
  unfolding run_dequeue try_dequeue
  dequeue_not_refused_early timeout now q wakes v vs u h =
      loop_patient dequeue-IsLoop (λ o. o ≡ returned none) (λ v w h. cc) IsConsistent
        dequeue_loop-not-refused timeout now q wakes v vs u h

  wait_empty_loop-not-false :
      (w : Timer) (q : BlockingQueue E) → (wait_empty_loop w q).outcome ≢ returned false
  unfolding wait_empty_loop
  wait_empty_loop-not-false w q h = ground arith

  -- `wait_empty` returns `false` only if a wait reports a timeout or the time counted between the
  -- waits reaches the timeout.
  wait_empty_not_false_early :
      (timeout now : ℕ) (q : BlockingQueue E) (wakes : List (Wake E))
      → Untimed wakes
      → spent now wakes < timeout
      → (run_wait_empty timeout now q wakes).outcome ≢ returned false
  unfolding run_wait_empty wait_empty
  wait_empty_not_false_early timeout now q wakes u h =
      loop_patient wait_empty-IsLoop (λ o. o ≡ returned false) (λ v w h. cc) (λ q. Unit)
        (λ w q _. wait_empty_loop-not-false w q) timeout now q wakes tt (All-Unit wakes) u h

  -- On a queue whose flags are exact, at the start and after each wait: before a wait reports a timeout,
  -- and before the time counted between the waits reaches the timeout, `try_enqueue` does not give its
  -- element back, `try_dequeue` does not return `None`, and `wait_empty` does not return `false`.
  pub calls_patient :
      (e : E) (timeout now : ℕ) (q : BlockingQueue E) (wakes : List (Wake E))
      → IsConsistent q
      → All (λ x. IsConsistent x.queue) wakes
      → Untimed wakes
      → spent now wakes < timeout
      → ((e' : E) → (run_enqueue e timeout now q wakes).outcome ≢ returned (some e'))
        × ((run_dequeue timeout now q wakes).outcome ≢ returned none)
        × ((run_wait_empty timeout now q wakes).outcome ≢ returned false)
  calls_patient e timeout now q wakes v vs u h = (
    enqueue_not_refused_early e timeout now q wakes u h,
    dequeue_not_refused_early timeout now q wakes v vs u h,
    wait_empty_not_false_early timeout now q wakes u h,
  )
