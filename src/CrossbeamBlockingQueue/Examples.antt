-- ===== src/CrossbeamBlockingQueue/Examples.antt =====
-- Runs of src/crossbeam_blocking_queue.rs over a list in the place of `ArrayQueue`, and the theorems
-- about it at concrete queues.
use command_executor.Base.{
  ℕ, ℕ_discrete, ◌+◌, ◌≤◌, ◌≡◌, refl, ◌≢◌, Option, none, some, List, [], ◌∷◌, ◌++◌, length, weigh,
  tally, arith, update,
}
use command_executor.CrossbeamBlockingQueue.{returned, after_push, try_enqueue, attempt_enqueue}
use command_executor.CrossbeamBlockingQueue.System.{
  outside, enqueuing, System, init, calls_enqueue, attempts_enqueue, Reach, start, later,
}
use command_executor.CrossbeamBlockingQueue.Attempts.{carried}
use command_executor.CrossbeamBlockingQueue.Fifo.{retries_keep_elements}
use command_executor.CrossbeamBlockingQueue.Retries.{
  Moment, run_enqueue, run_dequeue, run_wait_empty,
}
use command_executor.CrossbeamBlockingQueue.Timeouts.{
  attempts_return, attempts_patient, wait_empty_stays,
}
use command_executor.CrossbeamBlockingQueue.Places.{Places, in_places, in_places-IsArrayQueue}

-- One place, taken by 7, and none.
abbrev one : Places
one = record { places = 1; elements = 7 ∷ [] }

-- Three attempts, one unit of time before each.
abbrev moments : Places → List (Moment Places)
moments s =
    record { array = s; now = 1; restart = 1 }
    ∷ record { array = s; now = 2; restart = 2 }
    ∷ record { array = s; now = 3; restart = 3 }
    ∷ []

attempts_return_example :
    ((r : Option ℕ) × (run_enqueue in_places 8 2 0 (moments one) ≡ returned r))
    × ((r : Option ℕ) × (run_dequeue in_places 2 0 (moments one) ≡ returned r))
    × ((r : Unit {0}) × (run_wait_empty in_places 2 0 (moments one) ≡ returned r))
attempts_return_example =
    attempts_return in_places 8 2 0 (moments one) (omega arith, (omega arith, (omega arith, tt)))
      (omega arith)

attempts_patient_example :
    (run_enqueue in_places 8 4 0 (moments one) ≢ returned (some 8))
    × (run_dequeue in_places 4 0 (moments one) ≢ returned none)
attempts_patient_example = attempts_patient in_places 8 8 4 0 (moments one) (omega arith)

wait_empty_stays_example : run_wait_empty in_places 4 0 (moments one) ≢ returned tt
wait_empty_stays_example =
    wait_empty_stays in_places 4 0 (moments one) (refl, (refl, (refl, tt))) (omega arith)

-- A queue of one place: the thread 0 puts 5 into it, and the thread 1 waits with 6.
abbrev shared : System ℕ Places
shared = record (init (record { places = 1; elements = [] })) {
  array = record { places = 1; elements = 5 ∷ [] };
  threads =
      update
        (update (update (λ _. outside) 0 (enqueuing (try_enqueue 5 9 0))) 1
          (enqueuing (try_enqueue 6 9 0)))
        0 outside;
  given = 5 ∷ 6 ∷ [];
  accepted = 5 ∷ [];
}

shared-Reach : Reach in_places 2 1 shared
unfolding ℕ_discrete attempt_enqueue after_push
shared-Reach =
    later
      (later (later (start refl) (calls_enqueue 0 5 9 0 (omega arith) refl))
        (calls_enqueue 1 6 9 0 (omega arith) refl))
      (attempts_enqueue 0 1 1 (omega arith) refl)

retries_keep_elements_example :
    (shared.accepted ≡ shared.delivered ++ shared.array.elements)
    × (length shared.array.elements ≤ 1)
    × ((w : ℕ → ℕ)
        → weigh w shared.given
          ≡ weigh w shared.accepted + weigh w shared.refused + tally (carried w) 2 shared.threads)
unfolding in_places-IsArrayQueue
retries_keep_elements_example = retries_keep_elements in_places-IsArrayQueue shared-Reach
