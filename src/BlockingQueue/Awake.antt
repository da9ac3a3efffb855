-- ===== src/BlockingQueue/Awake.antt =====
-- Producers and consumers of src/blocking_queue.rs whose waits do not end by their timeouts: the
-- count of those who are awake, through every step.
use command_executor.Base.{
  ℕ, ◌+◌, ◌≤◌, ◌<◌, ◌≡◌, refl, ap, ◌≢◌, ◌⊎◌, inl, inr, false, none, [], arith, update, update_all,
  tally, tally-update, tally-eq-zero, Option-cases,
}
use command_executor.Duration.{Timer, after_wait}
use command_executor.BlockingQueue.{BlockingQueue, Condvar, empty, full, Segment}
use command_executor.BlockingQueue.Invariant.{IsConsistent}
use command_executor.BlockingQueue.System.{
  Call, enqueues, dequeues, waits_until_empty, Reply, Thread, outside, blocked, notified, land,
  Signalled, settled, System, init, Step, tick, calls, stirs, resumes, expires,
}
use command_executor.BlockingQueue.Fifo.{IsSound, init-IsSound, Step-IsSound}
use command_executor.BlockingQueue.Waiters.{
  is, ones, IsWorker, asleep, woken, AllWorkers, Signalled-AllWorkers, Signalled-Rouses,
}
use command_executor.BlockingQueue.Turns.{demand, Turns, side, IsWork, begin-Turns, resume-Turns}

module _ {ℓ} {E : Type ℓ} where
  -- While somebody sleeps on a condition variable, as many threads are awake for it as the queue
  -- could serve.
  pub record IsAwake (n : ℕ) (q : BlockingQueue E) (ts : ℕ → Thread E) : Type 0 where
    pub workers : AllWorkers ts
    pub covered : (u : Condvar) → 0 < tally (asleep u) n ts → demand u q ≤ tally (woken u) n ts

  -- A thread that may run a segment of the call.
  abbrev Runs : Call E → Thread E → Type ℓ
  Runs c th = (th ≡ outside) ⊎ ((w : Timer) × (th ≡ notified c w))

  Runs-counts :
      (c : Call E) (th : Thread E) (u : Condvar)
      → Runs c th
      → (asleep u th ≡ 0) × (woken u th ≤ is u (side c))
  Runs-counts c th u r = ground arith

  land-IsWorker : (c : Call E) (w : Timer) → IsWork c → IsWorker (blocked c (side c) w)
  land-IsWorker (enqueues e) w h = tt
  land-IsWorker dequeues w h = tt
  land-IsWorker waits_until_empty w h = absurd h

  land-counts :
      (c : Call E) (w : Timer) (u : Condvar)
      → (asleep u (blocked c (side c) w) ≡ is u (side c)) × (woken u (blocked c (side c) w) ≡ 0)
  land-counts c w u = ground arith

  unsignalled : {n : ℕ} {ts us : ℕ → Thread E} → Signalled n [] ts us → us ≡ ts
  unsignalled settled = refl

  module _ {n : ℕ} {q : BlockingQueue E} {ts : ℕ → Thread E} (v : IsAwake n q ts) (i : ℕ)
      (lt : i < n) (c : Call E) (run : Runs c (ts i)) where
    wait-IsAwake :
        (w : Timer)
        → IsWork c
        → demand (side c) q ≡ 0
        → IsAwake n q (update ts i (blocked c (side c) w))
    wait-IsAwake w h idle = record {
      workers = update_all IsWorker ts i _ v.workers (land-IsWorker c w h);
      covered = λ u p. grind (
        arith,
        v.covered u,
        idle,
        Runs-counts c (ts i) u run,
        land-counts c w u,
        tally-update (asleep u) n i ts (blocked c (side c) w) lt,
        tally-update (woken u) n i ts (blocked c (side c) w) lt,
      );
    }

    serve-IsAwake :
        (g : Segment E (Reply E)) {us : ℕ → Thread E}
        → ((u : Condvar) → demand u g.queue + is u (side c) ≤ demand u q + ones u g.signals)
        → Signalled n g.signals (update ts i outside) us
        → IsAwake n g.queue us
    serve-IsAwake g h sig = record {
      workers = Signalled-AllWorkers sig rest;
      covered = λ u p. grind (
        arith,
        v.covered u,
        h u,
        Signalled-Rouses u sig rest,
        Runs-counts c (ts i) u run,
        tally-update (asleep u) n i ts outside lt,
        tally-update (woken u) n i ts outside lt,
      );
    }
      where
        rest : AllWorkers (update ts i outside)
        rest = update_all IsWorker ts i outside v.workers tt

    segment-IsAwake :
        (g : Segment E (Reply E)) {us : ℕ → Thread E}
        → IsWork c
        → Turns (side c) q g
        → Signalled n g.signals (update ts i (land c g.outcome)) us
        → IsAwake n g.queue us
    segment-IsAwake g {us} h (inl (w, o, s, e, z)) sig =
        rw (e, unsignalled (rw s at sig), o) (wait-IsAwake w h z)
    segment-IsAwake g h (inr (r, o, d)) sig = serve-IsAwake g d (rw o at sig)

  -- What the theorem asks of a step: no call of `wait_empty`, and no wait that ends by its timeout.
  abbrev pub IsPatient : {n : ℕ} {s t : System E} → Step n s t → Type 0
  IsPatient (calls i c timeout lt e sig) = IsWork c
  IsPatient {s} (resumes i restart {w = w} lt e le sig) = after_wait false s.clock restart w ≢ none
  IsPatient (expires i lt e le sig) = ⊥
  IsPatient _ = Unit

  pub data PatientReach (n capacity : ℕ) : System E → Type ℓ where
    at_start : PatientReach n capacity (init capacity)
    and_then :
        {s t : System E}
        → PatientReach n capacity s
        → (st : Step n s t) → IsPatient st
        → PatientReach n capacity t

  notified-IsWork : (c : Call E) (w : Timer) → IsWorker (notified c w) → IsWork c
  notified-IsWork c w h = ground arith

  stirred-IsWorker :
      (c : Call E) (u : Condvar) (w : Timer) → IsWorker (blocked c u w) → IsWorker (notified c w)
  stirred-IsWorker c u w h = ground arith

  stirred-counts :
      (c : Call E) (u : Condvar) (w : Timer) (x : Condvar)
      → (asleep x (notified c w) ≡ 0) × (woken x (blocked c u w) ≡ 0)
  stirred-counts c u w x = ground arith

  stir-IsAwake :
      {n : ℕ} {q : BlockingQueue E} {ts : ℕ → Thread E} {c : Call E} {u : Condvar} {w : Timer}
      (i : ℕ)
      → i < n
      → ts i ≡ blocked c u w
      → IsAwake n q ts
      → IsAwake n q (update ts i (notified c w))
  stir-IsAwake {n} {q} {ts} {c} {u} {w} i lt e v = record {
    workers = update_all IsWorker ts i _ v.workers (stirred-IsWorker c u w (rw e at (v.workers i)));
    covered = λ x p. grind (
      arith,
      v.covered x,
      stirred-counts c u w x,
      ap (woken x) e,
      tally-update (asleep x) n i ts (notified c w) lt,
      tally-update (woken x) n i ts (notified c w) lt,
    );
  }

  Step-IsAwake :
      {n : ℕ} {s t : System E} (st : Step n s t)
      → IsPatient st
      → IsConsistent s.queue
      → IsAwake n s.queue s.threads
      → IsAwake n t.queue t.threads
  Step-IsAwake (tick d) p k v = v
  Step-IsAwake {s} (calls i c timeout lt e sig) p k v =
      segment-IsAwake v i lt c (inl e) _ p (begin-Turns c timeout s.clock s.queue p k) sig
  Step-IsAwake (stirs i lt e) p k v = stir-IsAwake i lt e v
  Step-IsAwake {s} (resumes i restart {c} {w} lt e le sig) p k v =
      elim (Option-cases (after_wait false s.clock restart w)) [
        | inl x ↦ absurd (p x)
        | inr (w', x) ↦
            segment-IsAwake v i lt c (inr (w, e)) _ user
              (resume-Turns c false s.clock restart w w' s.queue user x k) sig
      ]
    where
      user : IsWork c
      user = notified-IsWork c w (rw e at (v.workers i))
  Step-IsAwake (expires i lt e le sig) p k v = absurd p

  init-IsAwake : (n capacity : ℕ) → IsAwake n (init {E = E} capacity).queue (init capacity).threads
  init-IsAwake n capacity = record {
    workers = λ i. tt;
    covered = λ u p. absurd (omega (arith, tally-eq-zero (asleep {E = E} u) n _ (λ i lt. idle u)));
  }
    where
      idle : (u : Condvar) → asleep {E = E} u outside ≡ 0
      idle empty = refl
      idle full = refl

  pub PatientReach-IsSound :
      {n capacity : ℕ} {s : System E}
      → 0 < capacity
      → PatientReach n capacity s
      → IsSound capacity s × IsAwake n s.queue s.threads
  PatientReach-IsSound {n} {capacity} h at_start =
      (init-IsSound capacity h, init-IsAwake n capacity)
  PatientReach-IsSound h (and_then r st p) =
      let (sound, awake) = PatientReach-IsSound h r in
      (Step-IsSound st sound, Step-IsAwake st p sound.consistent awake)
