-- ===== src/BlockingQueue/Waiters.antt =====
-- The wait sets of src/blocking_queue.rs counted: who sleeps on which condition variable, who has
-- been woken, and what the signals of a segment do to the two numbers.
use command_executor.Base.{
  ℕ, ◌+◌, ◌≤◌, ◌<◌, ◌≡◌, true, false, List, [], ◌∷◌, arith, update, update_all, tally, tally-update,
  tally-eq-zero, tally_mono,
}
use command_executor.BlockingQueue.{Condvar, empty, full, Signal, notify_one, notify_all}
use command_executor.BlockingQueue.System.{
  enqueues, dequeues, waits_until_empty, Thread, blocked, notified, is_waiting, wake, Signalled,
  settled, wakes_one, wakes_none, wakes_all,
}

-- 1 for the same condition variable
abbrev pub is : Condvar → Condvar → ℕ
is empty empty = 1
is full full = 1
is u v = 0

-- How many of the signals are a `notify_one` on `u`.
abbrev pub ones : Condvar → List Signal → ℕ
ones u [] = 0
ones u (notify_one v ∷ rest) = is u v + ones u rest
ones u (notify_all v ∷ rest) = ones u rest

module _ {ℓ} {E : Type ℓ} where
  -- A producer sleeps on `full` and a consumer on `empty`; nobody is in `wait_empty`.
  abbrev pub IsWorker : Thread E → Type 0
  IsWorker (blocked (enqueues e) full w) = Unit
  IsWorker (blocked dequeues empty w) = Unit
  IsWorker (blocked c v w) = ⊥
  IsWorker (notified waits_until_empty w) = ⊥
  IsWorker th = Unit

  -- 1 for a thread that sleeps on the condition variable
  abbrev pub asleep : Condvar → Thread E → ℕ
  asleep empty (blocked c empty w) = 1
  asleep full (blocked c full w) = 1
  asleep v th = 0

  -- 1 for a thread that was woken from it and has not run yet
  abbrev pub woken : Condvar → Thread E → ℕ
  woken empty (notified dequeues w) = 1
  woken full (notified (enqueues e) w) = 1
  woken v th = 0

  IsWorker-wake : (v : Condvar) (th : Thread E) → IsWorker th → IsWorker (wake v th)
  IsWorker-wake v th h = ground arith

  wake_one :
      (u v : Condvar) (th : Thread E)
      → IsWorker th
      → is_waiting v th ≡ true
      → (asleep u (wake v th) + is u v ≡ asleep u th) × (woken u (wake v th) ≡ woken u th + is u v)
  wake_one u v th h w = ground arith

  wake_none :
      (u v : Condvar) (th : Thread E) → is_waiting v th ≡ false → 0 < is u v → asleep u th ≡ 0
  wake_none u v th w p = ground arith

  asleep-wake-le : (u v : Condvar) (th : Thread E) → asleep u (wake v th) ≤ asleep u th
  asleep-wake-le u v th = ground arith

  woken-le-wake : (u v : Condvar) (th : Thread E) → woken u th ≤ woken u (wake v th)
  woken-le-wake u v th = ground arith

  asleep-wake : (u v : Condvar) (th : Thread E) → 0 < is u v → asleep u (wake v th) ≡ 0
  asleep-wake u v th p = ground arith

  -- What signals do to the counts of `u`. No signal is lost while somebody still sleeps.
  pub record Rouses (n : ℕ) (u : Condvar) (signals : List Signal) (ts us : ℕ → Thread E)
      : Type 0 where
    pub fewer : tally (asleep u) n us ≤ tally (asleep u) n ts
    pub more : tally (woken u) n ts ≤ tally (woken u) n us
    pub gained :
        0 < tally (asleep u) n us → tally (woken u) n ts + ones u signals ≤ tally (woken u) n us

  abbrev pub AllWorkers : (ℕ → Thread E) → Type 0
  AllWorkers ts = (i : ℕ) → IsWorker (ts i)

  pub Signalled-AllWorkers :
      {n : ℕ} {signals : List Signal} {ts us : ℕ → Thread E}
      → Signalled n signals ts us
      → AllWorkers ts
      → AllWorkers us
  Signalled-AllWorkers settled h = h
  Signalled-AllWorkers (wakes_one {v} {ts = ts} i lt w rest) h =
      Signalled-AllWorkers rest (update_all IsWorker ts i _ h (IsWorker-wake v (ts i) (h i)))
  Signalled-AllWorkers (wakes_none w rest) h = Signalled-AllWorkers rest h
  Signalled-AllWorkers (wakes_all {v} {ts = ts} rest) h =
      Signalled-AllWorkers rest (λ i. IsWorker-wake v (ts i) (h i))

  module _ (n : ℕ) (u : Condvar) where
    Rouses-one :
        (v : Condvar) (rest : List Signal) (ts us : ℕ → Thread E) (i : ℕ)
        → i < n
        → is_waiting v (ts i) ≡ true
        → IsWorker (ts i)
        → Rouses n u rest (update ts i (wake v (ts i))) us
        → Rouses n u (notify_one v ∷ rest) ts us
    Rouses-one v rest ts us i lt w h r = omega (
      arith,
      tally-update (asleep u) n i ts (wake v (ts i)) lt,
      tally-update (woken u) n i ts (wake v (ts i)) lt,
      wake_one u v (ts i) h w,
    )

    Rouses-none :
        (v : Condvar) (rest : List Signal) (ts us : ℕ → Thread E)
        → ((i : ℕ) → i < n → is_waiting v (ts i) ≡ false)
        → Rouses n u rest ts us
        → Rouses n u (notify_one v ∷ rest) ts us
    Rouses-none v rest ts us w r = grind (arith, nobody)
      where
        nobody : 0 < is u v → tally (asleep u) n ts ≡ 0
        nobody p = tally-eq-zero (asleep u) n ts (λ i lt. wake_none u v (ts i) (w i lt) p)

    Rouses-all :
        (v : Condvar) (rest : List Signal) (ts us : ℕ → Thread E)
        → Rouses n u rest (λ i. wake v (ts i)) us
        → Rouses n u (notify_all v ∷ rest) ts us
    Rouses-all v rest ts us r = grind (arith, fewer, more, nobody)
      where
        fewer : tally (asleep u) n (λ i. wake v (ts i)) ≤ tally (asleep u) n ts
        fewer = tally_mono _ _ n _ _ (λ i. asleep-wake-le u v (ts i))

        more : tally (woken u) n ts ≤ tally (woken u) n (λ i. wake v (ts i))
        more = tally_mono _ _ n _ _ (λ i. woken-le-wake u v (ts i))

        nobody : 0 < is u v → tally (asleep u) n (λ i. wake v (ts i)) ≡ 0
        nobody p = tally-eq-zero (asleep u) n _ (λ i lt. asleep-wake u v (ts i) p)

  pub Signalled-Rouses :
      {n : ℕ} (u : Condvar) {signals : List Signal} {ts us : ℕ → Thread E}
      → Signalled n signals ts us
      → AllWorkers ts
      → Rouses n u signals ts us
  Signalled-Rouses u settled h = omega arith
  Signalled-Rouses {n} u (wakes_one {v} {rest} {ts} {us} i lt w sig) h =
      Rouses-one n u v rest ts us i lt w (h i)
        (Signalled-Rouses u sig (update_all IsWorker ts i _ h (IsWorker-wake v (ts i) (h i))))
  Signalled-Rouses {n} u (wakes_none {v} {rest} {ts} {us} w sig) h =
      Rouses-none n u v rest ts us w (Signalled-Rouses u sig h)
  Signalled-Rouses {n} u (wakes_all {v} {rest} {ts} {us} sig) h =
      Rouses-all n u v rest ts us (Signalled-Rouses u sig (λ i. IsWorker-wake v (ts i) (h i)))
