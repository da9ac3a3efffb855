-- ===== src/ThreadPool/Unchecked.antt =====
-- All calls of src/thread_pool.rs: `unchecked_submit`, which looks at no flag, and further calls of `shutdown`.
use command_executor.Base.{ℕ, ◌+◌, ◌≤◌, ◌<◌, ◌≡◌, ◌++◌, length, weigh, tally}
use command_executor.ThreadPool.{
  ShutdownMode, Command, user, free, down, enter_shutdown, System, init, enqueued, Step, Reach,
  start, later,
}
use command_executor.ThreadPool.Commands.{
  load, IsSound, Reach-IsSound, Step-IsSound, enqueued-IsSound, kept,
}

module _ {ℓ} {C X : Type ℓ} (tasks capacity : ℕ) (mode : ShutdownMode) where
  -- A step of the pool, or the begin of a further call.
  pub data Call (s : System C X) : System C X → Type ℓ where
    steps : {t : System C X} → Step tasks capacity mode s t → Call s t
    unchecked_submits : (c : C) → length s.queue < capacity → Call s (enqueued (user c) s)
    shuts_down_again :
        s.phase ≡ down
        → ((j : ℕ) → s.clients j ≡ free)
        → Call s (record s { phase = enter_shutdown mode })

  pub data Calls (s : System C X) : System C X → Type ℓ where
    stays : Calls s s
    goes_on : {t u : System C X} → Calls s t → Call t u → Calls s u

module _ {ℓ} {C X : Type ℓ} {tasks capacity : ℕ} {mode : ShutdownMode} where
  pub Reach-Calls :
      {s : System C X} → Reach tasks capacity mode s → Calls tasks capacity mode init s
  Reach-Calls start = stays
  Reach-Calls (later r st) = goes_on (Reach-Calls r) (steps st)

  Call-IsSound :
      {s t : System C X}
      → Call tasks capacity mode s t
      → IsSound tasks capacity s
      → IsSound tasks capacity t
  Call-IsSound (steps st) v = Step-IsSound st v
  Call-IsSound (unchecked_submits c room) v = enqueued-IsSound (user c) room v
  Call-IsSound (shuts_down_again ph nobody) v = kept v

  Calls-IsSound : {s : System C X} → Calls tasks capacity mode init s → IsSound tasks capacity s
  Calls-IsSound stays = Reach-IsSound {mode = mode} start
  Calls-IsSound (goes_on r c) = Call-IsSound c (Calls-IsSound r)

  -- With any number of clients and workers, with commands submitted by `submit`, `try_submit`, `in_all_threads`
  -- or `unchecked_submit`, and any number of calls of `shutdown`: the commands submitted are, in order,
  -- those taken by the workers and then those in the queue; the queue holds no more than its capacity; and,
  -- however commands are counted, those taken are those executed, each as often, and those in execution.
  pub once_in_order :
      {s : System C X}
      → Calls tasks capacity mode init s
      → (s.submitted ≡ s.taken ++ s.queue)
        × (length s.queue ≤ capacity)
        × ((w : Command C → ℕ)
            → weigh w s.taken ≡ weigh w s.completed + tally (load w) tasks s.workers)
  once_in_order r = let v = Calls-IsSound r in (v.in_order, v.within, v.executed)
