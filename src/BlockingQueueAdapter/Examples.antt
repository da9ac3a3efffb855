-- ===== src/BlockingQueueAdapter/Examples.antt =====
-- The theorems about src/blocking_queue_adapter.rs at concrete queues.
use command_executor.Base.{ℕ, ◌≡◌, refl, true, false, none, some, List, [], ◌∷◌, arith}
use command_executor.CrossbeamBlockingQueue.Places.{Places, in_places, in_places-IsArrayQueue}
use command_executor.BlockingQueue as Locked
use command_executor.BlockingQueueAdapter.{
  blocking_queue, crossbeam_blocking_queue, BlockingQueueAdapter, fmt, new, capacity,
}
use command_executor.BlockingQueueAdapter.Scripts.{
  Operation, enqueues, dequeues, counts, tests_empty, tests_full, Answer, took, gave, counted,
  tested, type_of, answers, answers_of_list,
}
use command_executor.BlockingQueueAdapter.Contract.{
  enqueue_once, dequeue_once, accepted, taken, contents, IsGood, access_contract,
}

-- One place, taken by 7, behind a BlockingQueue.
abbrev locked : BlockingQueueAdapter ℕ Places
locked =
    blocking_queue
      (record { flags = record { empty = false; full = true }; elements = 7 ∷ []; capacity = 1 })

access_contract_example :
    (let b = (enqueue_once in_places 8 10 0 1 1 locked).1 in
      (accepted (enqueue_once in_places 8 10 0 1 1 locked).0 ≡ false)
      × (contents in_places-IsArrayQueue b ≡ 7 ∷ [])
      × (capacity in_places b ≡ capacity in_places locked)
      × IsGood in_places-IsArrayQueue b)
    × (let b = (dequeue_once in_places 10 0 1 1 locked).1 in
        (taken (dequeue_once in_places 10 0 1 1 locked).0 ≡ some 7)
        × (contents in_places-IsArrayQueue b ≡ [])
        × (capacity in_places b ≡ capacity in_places locked)
        × IsGood in_places-IsArrayQueue b)
unfolding capacity Locked.capacity
access_contract_example =
    access_contract in_places-IsArrayQueue 8 10 0 1 1 locked
      (record { empty_exact = refl; full_exact = refl; within = omega arith })

abbrev script : List (Operation ℕ)
script =
    enqueues 7 10 0 1 1
    ∷ tests_full
    ∷ enqueues 8 10 0 1 1
    ∷ counts
    ∷ dequeues 10 0 1 1
    ∷ dequeues 10 0 1 1
    ∷ tests_empty
    ∷ []

abbrev said : List (Answer ℕ)
said =
    took true ∷ tested true ∷ took false ∷ counted 1 ∷ gave (some 7) ∷ gave none ∷ tested true ∷ []

answers_of_list_example :
    (a : BlockingQueueAdapter ℕ Places) × (new in_places crossbeam_blocking_queue 1 ≡ some a)
    × (type_of a ≡ crossbeam_blocking_queue)
    × (answers in_places script a ≡ said)
answers_of_list_example =
    answers_of_list in_places-IsArrayQueue crossbeam_blocking_queue 1 (omega arith) script

-- `to_string` of the type that a pool has by default.
fmt_default : fmt crossbeam_blocking_queue ≡ "CrossbeamBlockingQueue"
unfolding fmt
fmt_default = refl
