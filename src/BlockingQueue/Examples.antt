-- ===== src/BlockingQueue/Examples.antt =====
-- Runs of src/blocking_queue.rs, and the theorems about it at concrete queues.
use command_executor.Base.{
  ℕ, ◌<◌, ◌≡◌, refl, ◌≢◌, ◌⊎◌, Bool, true, false, Option, none, some, List, [], ◌∷◌, ◌++◌, length,
  arith, update, ℕ_discrete,
}
use command_executor.Duration.{Timer, max_duration}
use command_executor.BlockingQueue.{
  BlockingQueue, empty, full, returned, waits, new, try_enqueue, resume_enqueue, try_dequeue,
  resume_dequeue, wait_empty, resume_wait_empty,
}
use command_executor.BlockingQueue.Invariant.{
  IsConsistent, Enqueues, Dequeues, Observes, Keeps, all_segments-Keeps,
}
use command_executor.BlockingQueue.System.{
  enqueued, Call, waits_until_empty, enqueues, land, dequeues, blocked, notified, outside, begin,
  resume, System, init, Step, calls, Reach,
}
use command_executor.BlockingQueue.Schedule.{deliver_signals, schedule, enters, runs, Run}
use command_executor.BlockingQueue.Fifo.{fifo_bounded}
use command_executor.BlockingQueue.Waits.{Wake, run_enqueue, run_dequeue, run_wait_empty}
use command_executor.BlockingQueue.Timeouts.{calls_return, calls_patient}
use command_executor.BlockingQueue.Turns.{IsWork}
use command_executor.BlockingQueue.Awake.{PatientReach, at_start, and_then}
use command_executor.BlockingQueue.Wakeups.{producer_not_forgotten, consumer_not_forgotten}
use command_executor.BlockingQueue.Unbounded.{enqueue_all, zero_capacity_unbounded}
use command_executor.BlockingQueue.Forgotten.{
  wakeup_dropped, asleep_over_empty_queue, asleep_over_element, AreUntimed,
}

-- One place, taken by 7.
abbrev taken : BlockingQueue ℕ
taken = record { flags = record { empty = false; full = true }; elements = 7 ∷ []; capacity = 1 }

taken-IsConsistent : IsConsistent taken
taken-IsConsistent = record { empty_exact = refl; full_exact = refl; within = omega arith }

abbrev timer : Timer
timer = record { t = 10; start = 0 }

-- `test_try_dequeue`: an empty queue makes the caller wait.
try_dequeue_waits : (try_dequeue {E = ℕ} 10 0 (new 128)).outcome ≡ waits empty timer
unfolding try_dequeue new
try_dequeue_waits = refl

-- `test_try_enqueue`: a full queue gives the element back after the timeout.
resume_enqueue_gives_back :
    (resume_enqueue {E = ℕ} 128 true 12 12 timer taken).outcome ≡ returned (some 128)
unfolding resume_enqueue
resume_enqueue_gives_back = refl

all_segments-Keeps_example :
    Keeps (Enqueues 1 8) taken (try_enqueue 8 5 3 taken)
    × Keeps (Enqueues 1 8) taken (resume_enqueue 8 false 3 4 timer taken)
    × Keeps Dequeues taken (try_dequeue 5 3 taken)
    × Keeps Dequeues taken (resume_dequeue false 3 4 timer taken)
    × Keeps Observes taken (wait_empty 5 3 taken)
    × Keeps Observes taken (resume_wait_empty false 3 4 timer taken)
all_segments-Keeps_example = all_segments-Keeps 8 5 false 3 4 timer taken taken-IsConsistent

-- Thread 0 puts 7 and 8 in; thread 1 waits for the one place and gets it when thread 2 takes 7.
abbrev busy : Run 3 2 ℕ
busy = schedule 3 2 (
    enters 0 (enqueues 7) 0
    ∷ enters 0 (enqueues 8) 0
    ∷ enters 1 (enqueues 9) max_duration
    ∷ enters 2 dequeues max_duration
    ∷ runs 1
    ∷ [])

fifo_bounded_example : busy.accepted ≡ busy.delivered ++ busy.queue.elements
fifo_bounded_example = (fifo_bounded {n = 3} {capacity = 2} (omega arith) busy.reach).0

busy_result : (busy.delivered ≡ 7 ∷ []) × (busy.queue.elements ≡ 8 ∷ 9 ∷ [])
unfolding schedule begin resume try_enqueue resume_enqueue try_dequeue new ℕ_discrete
busy_result = (refl, refl)

-- The clock moves on at each of three waits.
abbrev three_waits : List (Wake ℕ)
three_waits =
    record { timed_out = false; now = 1; restart = 1; queue = taken }
    ∷ record { timed_out = false; now = 2; restart = 2; queue = taken }
    ∷ record { timed_out = false; now = 3; restart = 4; queue = taken }
    ∷ []

calls_return_example :
    ((r : Option ℕ) × ((run_enqueue 8 2 0 taken three_waits).outcome ≡ returned r))
    × ((r : Option ℕ) × ((run_dequeue 2 0 taken three_waits).outcome ≡ returned r))
    × ((b : Bool) × ((run_wait_empty 2 0 taken three_waits).outcome ≡ returned b))
calls_return_example = calls_return 8 2 0 taken three_waits (omega arith) (omega arith)

calls_patient_example :
    ((e' : ℕ) → (run_enqueue 8 5 0 taken three_waits).outcome ≢ returned (some e'))
    × ((run_dequeue 5 0 taken three_waits).outcome ≢ returned none)
    × ((run_wait_empty 5 0 taken three_waits).outcome ≢ returned false)
calls_patient_example =
    calls_patient 8 5 0 taken three_waits taken-IsConsistent
      (taken-IsConsistent, (taken-IsConsistent, (taken-IsConsistent, tt)))
      (refl, (refl, (refl, tt))) (omega arith)

-- A state that patient threads reach, and how.
abbrev Patient : ℕ → ℕ → Type 0
Patient n capacity = (s : System ℕ) × PatientReach n capacity s

-- Thread `i` calls a method.
abbrev then_calls :
    {n capacity : ℕ} (p : Patient n capacity) (i : ℕ) (c : Call ℕ)
    → i < n
    → p.0.threads i ≡ outside
    → IsWork c
    → Patient n capacity
then_calls {n} (s, r) i c lt e h =
    let g = begin c max_duration s.clock s.queue in
    let (ts, sig) = deliver_signals n g.signals (update s.threads i (land c g.outcome)) in
    (_, and_then r (calls i c max_duration lt e sig) h)

-- Thread 0 takes the one place, and thread 1 waits for it.
abbrev producer_waits : Patient 2 1
unfolding begin try_enqueue new ℕ_discrete deliver_signals
producer_waits =
    then_calls (then_calls (init 1, at_start) 0 (enqueues 7) (omega arith) refl tt) 1 (enqueues 8)
      (omega arith) refl tt

producer_not_forgotten_example :
    (length producer_waits.0.queue.elements ≡ 1)
    ⊎ ((j : ℕ) × (j < 2)
        × (e : ℕ) × (w : Timer) × (producer_waits.0.threads j ≡ notified (enqueues e) w))
unfolding producer_waits
producer_not_forgotten_example =
    producer_not_forgotten {w = record { t = max_duration; start = 0 }} (omega arith)
      producer_waits.1 1 (omega arith) refl

abbrev consumer_waits : Patient 2 1
unfolding begin try_dequeue new ℕ_discrete deliver_signals
consumer_waits = then_calls (init 1, at_start) 1 dequeues (omega arith) refl tt

consumer_not_forgotten_example :
    (length consumer_waits.0.queue.elements ≡ 0)
    ⊎ ((j : ℕ) × (j < 2) × (w : Timer) × (consumer_waits.0.threads j ≡ notified dequeues w))
unfolding consumer_waits
consumer_not_forgotten_example =
    consumer_not_forgotten {w = record { t = max_duration; start = 0 }} (omega arith)
      consumer_waits.1 1 (omega arith) refl

zero_capacity_unbounded_example :
    (enqueue_all {E = ℕ} (7 ∷ 8 ∷ 9 ∷ []) 0 0 (new 0)).elements ≡ 7 ∷ 8 ∷ 9 ∷ []
zero_capacity_unbounded_example = zero_capacity_unbounded (7 ∷ 8 ∷ 9 ∷ []) 0 0

-- Thread 0 was woken for the empty queue at time 12, after its timeout; thread 1 sleeps on.
abbrev late_wakeup : System ℕ
late_wakeup = record {
  queue = new 1;
  threads =
      update (update (λ _. outside) 1 (blocked (enqueues 9) full timer)) 0
        (notified (enqueues 8) timer);
  clock = 12;
  accepted = 7 ∷ [];
  delivered = 7 ∷ [];
}

wakeup_dropped_example :
    (t : System ℕ) × Step 2 late_wakeup t
    × ((resume {E = ℕ} (enqueues 8) false 12 12 timer (new 1)).outcome
        ≡ returned (enqueued (some 8)))
    × (t.accepted ≡ 7 ∷ [])
    × (t.delivered ≡ 7 ∷ [])
    × (t.queue ≡ new 1)
    × (t.threads ≡ update late_wakeup.threads 0 outside)
unfolding ℕ_discrete
wakeup_dropped_example = wakeup_dropped 0 {e = 8} {w = timer} (omega arith) refl (omega arith)

asleep_over_empty_queue_example :
    (s : System ℕ) × Reach 3 1 s
    × (s.queue.elements ≡ [])
    × (s.threads 0 ≡ blocked (enqueues 9) full (record { t = max_duration; start = 0 }))
    × (s.threads 1 ≡ outside)
    × (s.threads 2 ≡ blocked dequeues empty (record { t = max_duration; start = 10 }))
asleep_over_empty_queue_example = asleep_over_empty_queue 7 8 9

asleep_over_element_example :
    (s : System ℕ) × ((r : Reach 4 5 s) × AreUntimed r)
    × (s.queue.elements ≡ 9 ∷ [])
    × (s.threads 0 ≡ outside)
    × (s.threads 1 ≡ blocked dequeues empty (record { t = max_duration; start = 0 }))
    × (s.threads 2 ≡ outside)
    × (s.threads 3 ≡ blocked waits_until_empty empty (record { t = max_duration; start = 0 }))
asleep_over_element_example = asleep_over_element 7 8 9
