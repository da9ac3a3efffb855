-- ===== src/BlockingQueue/Wakeups.antt =====
-- No wakeup is lost among producers and consumers of src/blocking_queue.rs whose waits do not end
-- by their timeouts.
use command_executor.Base.{
  ℕ, ◌<◌, ◌≡◌, refl, ap, ◌⊎◌, inl, inr, length, arith, tally, tally_pos, size-le-tally, dec_lt,
}
use command_executor.Duration.{Timer}
use command_executor.BlockingQueue.{BlockingQueue, Condvar, empty, full}
use command_executor.BlockingQueue.System.{
  Call, enqueues, dequeues, waits_until_empty, Thread, outside, blocked, notified, System,
}
use command_executor.BlockingQueue.Waiters.{IsWorker, asleep, woken}
use command_executor.BlockingQueue.Turns.{demand, side}
use command_executor.BlockingQueue.Awake.{IsAwake, PatientReach, PatientReach-IsSound}

module _ {ℓ} {E : Type ℓ} where
  woken-full :
      (th : Thread E) → 0 < woken full th → (e : E) × (w : Timer) × (th ≡ notified (enqueues e) w)
  woken-full (notified (enqueues e) w) p = (e, w, refl)
  woken-full outside p = absurd (omega arith)
  woken-full (blocked c v w) p = absurd (omega arith)
  woken-full (notified dequeues w) p = absurd (omega arith)
  woken-full (notified waits_until_empty w) p = absurd (omega arith)

  woken-empty : (th : Thread E) → 0 < woken empty th → (w : Timer) × (th ≡ notified dequeues w)
  woken-empty (notified dequeues w) p = (w, refl)
  woken-empty outside p = absurd (omega arith)
  woken-empty (blocked c v w) p = absurd (omega arith)
  woken-empty (notified (enqueues e) w) p = absurd (omega arith)
  woken-empty (notified waits_until_empty w) p = absurd (omega arith)

  asleep-side :
      (c : Call E) (v : Condvar) (w : Timer)
      → IsWorker (blocked c v w)
      → 0 < asleep (side c) (blocked c v w)
  asleep-side c v w h = ground arith

  -- If a thread sleeps in the call, and the queue could serve it, a thread is awake for the queue.
  awake_for :
      {n : ℕ} {q : BlockingQueue E} {ts : ℕ → Thread E} {c : Call E} {v : Condvar} {w : Timer}
      → IsAwake n q ts
      → (i : ℕ) → i < n
      → ts i ≡ blocked c v w
      → (demand (side c) q ≡ 0) ⊎ ((j : ℕ) × (j < n) × (0 < woken (side c) (ts j)))
  awake_for {n} {q} {ts} {c} {v} {w} a i lt e = elim (dec_lt 0 (demand (side c) q)) [
    | no idle ↦ inl (omega arith)
    | yes busy ↦ inr (tally_pos (woken (side c)) n ts (omega (arith, a.covered (side c) sleeps)))
  ]
    where
      sleeps : 0 < tally (asleep (side c)) n ts
      sleeps = omega (
        arith,
        size-le-tally (asleep (side c)) n i ts lt,
        ap (asleep (side c)) e,
        asleep-side c v w (rw e at (a.workers i)),
      )

  -- In a queue made with at least one place, used by any number of producers and consumers whose waits
  -- do not end by their timeouts, and by no call of `wait_empty`: while a producer sleeps there is room
  -- only if another producer has been woken and has yet to run.
  pub producer_not_forgotten :
      {n capacity : ℕ} {s : System E} {e : E} {v : Condvar} {w : Timer}
      → 0 < capacity
      → PatientReach n capacity s
      → (i : ℕ) → i < n
      → s.threads i ≡ blocked (enqueues e) v w
      → (length s.queue.elements ≡ capacity)
        ⊎ ((j : ℕ) × (j < n) × (e' : E) × (w' : Timer) × (s.threads j ≡ notified (enqueues e') w'))
  producer_not_forgotten {s} h r i lt e =
      let (sound, awake) = PatientReach-IsSound h r in
      elim (awake_for awake i lt e) [
        | inl idle ↦ inl (omega (arith, sound.bounded, sound.consistent.within))
        | inr (j, below, p) ↦
            let (e', w', woke) = woken-full (s.threads j) p in inr (j, below, e', w', woke)
      ]

  -- In a queue made with at least one place, used by any number of producers and consumers whose waits
  -- do not end by their timeouts, and by no call of `wait_empty`: while a consumer sleeps the queue holds
  -- an element only if another consumer has been woken and has yet to run.
  pub consumer_not_forgotten :
      {n capacity : ℕ} {s : System E} {v : Condvar} {w : Timer}
      → 0 < capacity
      → PatientReach n capacity s
      → (i : ℕ) → i < n
      → s.threads i ≡ blocked dequeues v w
      → (length s.queue.elements ≡ 0)
        ⊎ ((j : ℕ) × (j < n) × (w' : Timer) × (s.threads j ≡ notified dequeues w'))
  consumer_not_forgotten {s} h r i lt e =
      let (sound, awake) = PatientReach-IsSound h r in
      elim (awake_for awake i lt e) [
        | inl idle ↦ inl idle
        | inr (j, below, p) ↦
            let (w', woke) = woken-empty (s.threads j) p in inr (j, below, w', woke)
      ]
