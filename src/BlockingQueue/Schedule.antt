-- ===== src/BlockingQueue/Schedule.antt =====
-- Reachable states of the threads on a queue of src/blocking_queue.rs by evaluation: a schedule says
-- who acts next, and `notify_one` wakes the thread with the highest number.
use command_executor.Base.{
  ℕ, zero, suc, ◌<◌, ◌≡◌, refl, ◌⊎◌, inl, inr, true, false, List, [], ◌∷◌, foldl, arith, update,
  Bool-cases, dec_lt, ℕ_discrete,
}
use command_executor.BlockingQueue.{Condvar, Signal, notify_one, notify_all}
use command_executor.BlockingQueue.System.{
  Call, Thread, outside, blocked, notified, begin, resume, land, is_waiting, wake, Signalled,
  settled, wakes_one, wakes_none, wakes_all, System, init, Step, tick, resumes, Reach, start, later,
}
use command_executor.BlockingQueue.System

module _ {ℓ} {E : Type ℓ} where
  find_waiter :
      (v : Condvar) (n : ℕ) (ts : ℕ → Thread E)
      → ((i : ℕ) × (i < n) × (is_waiting v (ts i) ≡ true))
        ⊎ ((i : ℕ) → i < n → is_waiting v (ts i) ≡ false)
  find_waiter v zero ts = inr (λ i lt. absurd (omega arith))
  find_waiter v (suc n) ts = elim (Bool-cases (is_waiting v (ts n))) [
    | inl here ↦ inl (n, omega arith, here)
    | inr quiet ↦ elim (find_waiter v n ts) [
      | inl (i, lt, w) ↦ inl (i, omega arith, w)
      | inr nobody ↦
          inr
            (λ i lt. elim (ℕ_discrete i n) [ yes e ↦ rw e quiet | no ne ↦ nobody i (omega arith) ])
    ]
  ]

  unfoldable pub deliver_signals :
      (n : ℕ) (signals : List Signal) (ts : ℕ → Thread E)
      → (us : ℕ → Thread E) × Signalled n signals ts us
  unfolding find_waiter Bool-cases
  deliver_signals n [] ts = (ts, settled)
  deliver_signals n (notify_one v ∷ rest) ts = elim (find_waiter v n ts) [
    | inl (i, lt, w) ↦
        let (us, sig) = deliver_signals n rest (update ts i (wake v (ts i))) in
        (us, wakes_one i lt w sig)
    | inr nobody ↦ let (us, sig) = deliver_signals n rest ts in (us, wakes_none nobody sig)
  ]
  deliver_signals n (notify_all v ∷ rest) ts =
      let (us, sig) = deliver_signals n rest (λ i. wake v (ts i)) in (us, wakes_all sig)

pub record Run {ℓ} (n capacity : ℕ) (E : Type ℓ) : Type ℓ where
  pub last : System E
  pub open last use *
  pub reach : Reach n capacity last

pub data Action {ℓ} (E : Type ℓ) : Type ℓ where
  -- thread, call and timeout
  enters : ℕ → Call E → ℕ → Action E
  -- a thread that was woken has the mutex
  runs : ℕ → Action E
  passes : ℕ → Action E

module _ {ℓ} {E : Type ℓ} {n capacity : ℕ} (r : Run n capacity E) where
  -- An action that cannot be taken changes nothing.
  enter : (i : ℕ) → i < n → Call E → ℕ → (th : Thread E) → r.threads i ≡ th → Run n capacity E
  unfolding deliver_signals
  enter i lt c timeout outside e =
      let g = begin c timeout r.clock r.queue in
      let (ts, sig) = deliver_signals n g.signals (update r.threads i (land c g.outcome)) in
      record { last = _; reach = later r.reach (System.calls i c timeout lt e sig) }
  enter i lt c timeout _ e = r

  run : (i : ℕ) → i < n → (th : Thread E) → r.threads i ≡ th → Run n capacity E
  unfolding deliver_signals
  run i lt (notified c w) e =
      let g = resume c false r.clock r.clock w r.queue in
      let (ts, sig) = deliver_signals n g.signals (update r.threads i (land c g.outcome)) in
      record { last = _; reach = later r.reach (resumes i r.clock lt e (omega arith) sig) }
  run i lt outside e = r
  run i lt (blocked c v w) e = r

  act : Action E → Run n capacity E
  unfolding enter run dec_lt ℕ_discrete
  act (enters i c timeout) = elim (dec_lt i n) [
    | yes lt ↦ enter i lt c timeout (r.threads i) refl
    | no _ ↦ r
  ]
  act (runs i) = elim (dec_lt i n) [ yes lt ↦ run i lt (r.threads i) refl | no _ ↦ r ]
  act (passes d) = record { last = _; reach = later r.reach (tick d) }

unfoldable pub schedule {ℓ} : {E : Type ℓ} (n capacity : ℕ) → List (Action E) → Run n capacity E
unfolding act
schedule n capacity = foldl act (record { last = _; reach = start })
