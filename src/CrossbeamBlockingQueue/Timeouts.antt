-- ===== src/CrossbeamBlockingQueue/Timeouts.antt =====
-- The timeouts of src/crossbeam_blocking_queue.rs.
use command_executor.Base.{
  All, All-Unit, ℕ, ◌<◌, ◌≡◌, refl, ◌≢◌, false, Option, none, some, List, length, if_cases,
}
use command_executor.Duration.{Timer, count_down}
use command_executor.CrossbeamBlockingQueue.{
  Outcome, returned, retries, Offer, after_push, after_pop, try_enqueue, attempt_enqueue,
  try_dequeue, attempt_dequeue, wait_empty, attempt_wait_empty,
}
use command_executor.CrossbeamBlockingQueue.Array.{ArrayQueue}
use command_executor.CrossbeamBlockingQueue.Retries.{
  Moment, Advances, spent, run_enqueue, run_dequeue, run_wait_empty, drive_ends, drive_patient,
  go_round-retries, go_round-returned,
}

-- The three attempts count down their timers.
module _ {ℓ} {E : Type ℓ} (now restart : ℕ) (w : Timer) where
  after_push-retries :
      (r : Option E) (o : Offer E)
      → after_push now restart w r ≡ retries o
      → count_down now restart w ≡ some o.timer
  unfolding after_push
  after_push-retries none o e = cc
  after_push-retries (some x) o e =
      let (w', more, same) = go_round-retries now restart w _ _ o e in rw same more

  after_push-refuses :
      (r : Option E) (x : E)
      → after_push now restart w r ≡ returned (some x)
      → count_down now restart w ≡ none
  unfolding after_push
  after_push-refuses none x e = cc
  after_push-refuses (some y) x e = go_round-returned now restart w _ _ _ e

  after_pop-retries :
      (r : Option E) (w' : Timer)
      → after_pop now restart w r ≡ retries w'
      → count_down now restart w ≡ some w'
  unfolding after_pop
  after_pop-retries (some x) w' e = cc
  after_pop-retries none w' e =
      let (w₁, more, same) = go_round-retries now restart w _ _ w' e in rw same more

  after_pop-refuses :
      (r : Option E) → after_pop now restart w r ≡ returned none → count_down now restart w ≡ none
  unfolding after_pop
  after_pop-refuses (some x) e = cc
  after_pop-refuses none e = go_round-returned now restart w _ _ _ e

module _ {ℓ κ} {E : Type ℓ} {S : Type κ} (A : ArrayQueue E S) where
  attempt_wait_empty-retries :
      (now restart : ℕ) (w w' : Timer) (a : S)
      → attempt_wait_empty A now restart w a ≡ retries w'
      → count_down now restart w ≡ some w'
  unfolding attempt_wait_empty
  attempt_wait_empty-retries now restart w w' a =
      if_cases
        (λ (o : Outcome Timer (Unit {0})). o ≡ retries w' → count_down now restart w ≡ some w')
        (A.is_empty a) (λ _ h. cc)
        (λ _ h. let (w₁, more, same) = go_round-retries now restart w _ _ w' h in rw same more)

  attempt_wait_empty-leaves :
      (now restart : ℕ) (w : Timer) (a : S)
      → A.is_empty a ≡ false
      → attempt_wait_empty A now restart w a ≡ returned tt
      → count_down now restart w ≡ none
  unfolding attempt_wait_empty
  attempt_wait_empty-leaves now restart w a h e = go_round-returned now restart w _ _ _ (rw h at e)

  -- If the clock moves on between any two attempts, each of the loops of `try_enqueue`, `try_dequeue`
  -- and `wait_empty` has ended before its attempts outnumber the time units of its timeout,
  -- whatever `ArrayQueue` does and whatever the other threads do to it.
  pub attempts_return :
      (e : E) (timeout now : ℕ) (moments : List (Moment S))
      → Advances now moments
      → timeout < length moments
      → ((r : Option E) × (run_enqueue A e timeout now moments ≡ returned r))
        × ((r : Option E) × (run_dequeue A timeout now moments ≡ returned r))
        × ((r : Unit {0}) × (run_wait_empty A timeout now moments ≡ returned r))
  unfolding run_enqueue run_dequeue run_wait_empty attempt_enqueue attempt_dequeue
  attempts_return e timeout now moments a h = (
    drive_ends (λ (o : Offer E). o.timer) _
        (λ m o o' more. after_push-retries m.now m.restart o.timer (A.push o.e m.array).0 o' more)
        moments (try_enqueue e timeout now) a h,
    drive_ends (λ w. w) _
        (λ m w w' more. after_pop-retries m.now m.restart w (A.pop m.array).0 w' more) moments
        (try_dequeue timeout now) a h,
    drive_ends (λ w. w) _
        (λ m w w' more. attempt_wait_empty-retries m.now m.restart w w' m.array more) moments
        (wait_empty timeout now) a h,
  )

  -- While the time counted between the attempts stays below the timeout, `try_enqueue` does not give
  -- its element or any other back, and `try_dequeue` does not return `None`.
  pub attempts_patient :
      (e e' : E) (timeout now : ℕ) (moments : List (Moment S))
      → spent now moments < timeout
      → (run_enqueue A e timeout now moments ≢ returned (some e'))
        × (run_dequeue A timeout now moments ≢ returned none)
  unfolding run_enqueue run_dequeue attempt_enqueue attempt_dequeue
  attempts_patient e e' timeout now moments h = (
    λ r.
        drive_patient (λ (o : Offer E). o.timer) _ (λ x. x ≡ some e') (λ _. Unit {0})
          (λ m o o' more. after_push-retries m.now m.restart o.timer (A.push o.e m.array).0 o' more)
          (λ m o x _ done bad.
            after_push-refuses m.now m.restart o.timer (A.push o.e m.array).0 e' (rw bad at done))
          moments (try_enqueue e timeout now) (All-Unit moments) h (some e') r refl,
    λ r.
        drive_patient (λ w. w) _ (λ x. x ≡ none) (λ _. Unit {0})
          (λ m w w' more. after_pop-retries m.now m.restart w (A.pop m.array).0 w' more)
          (λ m w x _ done bad.
            after_pop-refuses m.now m.restart w (A.pop m.array).0 (rw bad at done))
          moments (try_dequeue timeout now) (All-Unit moments) h none r refl,
  )

  -- While the time counted between the attempts stays below the timeout and no attempt finds the
  -- array empty, `wait_empty` does not leave its loop.
  pub wait_empty_stays :
      (timeout now : ℕ) (moments : List (Moment S))
      → All (λ m. A.is_empty m.array ≡ false) moments
      → spent now moments < timeout
      → run_wait_empty A timeout now moments ≢ returned tt
  unfolding run_wait_empty
  wait_empty_stays timeout now moments full h r =
      drive_patient (λ w. w) _ (λ x. Unit {0}) (λ m. A.is_empty m.array ≡ false)
        (λ m w w' more. attempt_wait_empty-retries m.now m.restart w w' m.array more)
        (λ m w x left done _. attempt_wait_empty-leaves m.now m.restart w m.array left done) moments
        (wait_empty timeout now) full h tt r tt
