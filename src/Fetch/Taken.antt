-- ===== src/Fetch/Taken.antt =====
-- When all workers stand at the barrier of a call of `in_all_threads`, they have executed all commands
-- that were submitted before that call.
use command_executor.Base.{
  ℕ, ◌+◌, ◌≤◌, ◌<◌, ◌≡◌, sym, ap, ◌∙◌, List, [], ◌∷◌, ◌++◌, weigh, weigh-append, arith, update,
  update_same, update_other, tally-eq-zero, ℕ_discrete, dec_lt,
}
use command_executor.ThreadPool.{
  ShutdownMode, Result, Command, Executed, Worker, executes, waits_at, execute, System,
  barrier_opens, worker_tests, worker_takes, worker_executes, Reach, start, later,
}
use command_executor.ThreadPool.Commands.{load, commands_once_in_order}
use command_executor.ThreadPool.Locals.{AtBarrier, away-AtBarrier, test_stopped-away, release-stays}
use command_executor.Fetch.{called}
use command_executor.Fetch.Calls.{of_call, taken_before, Reach-IsNumbered}

abbrev Sent : {C : Type 0} → ℕ → List (Command C) → Type 0
Sent b cs = 0 < weigh (of_call b) cs

module _ {C X : Type 0} where
  -- A worker that comes to a barrier has executed a command of its call.
  abbrev Came : List (Command C) → (ℕ → Worker C X) → Type 0
  Came completed workers = AtBarrier Sent (λ i. completed) workers

  execute-of_call :
      (c : Command C) (r : Result X) (x : Executed X) (b : ℕ) (r' : Result X)
      → execute c r x ≡ waits_at b r'
      → of_call b c ≡ 1
  unfolding execute
  execute-of_call c r x b r' e = ground arith

  executed-Came :
      (completed : List (Command C)) (workers : ℕ → Worker C X) (i : ℕ) (c : Command C)
      (r : Result X) (x : Executed X)
      → Came completed workers
      → Came (completed ++ (c ∷ [])) (update workers i (execute c r x))
  executed-Came completed workers i c r x h j b r' e = elim (ℕ_discrete i j) [
    | yes same ↦
        let now =
          execute-of_call c r x b r'
            (sym (update_same workers i (execute c r x)) ∙ rw (← same) at e) in
        omega (arith, now, weigh-append (of_call b) completed (c ∷ []))
    | no other ↦
        let before =
          h j b r' (sym (update_other workers {i = i} {j = j} (execute c r x) other) ∙ e) in
        omega (arith, before, weigh-append (of_call b) completed (c ∷ []))
  ]

module _ {C X : Type 0} {tasks capacity : ℕ} {mode : ShutdownMode} where
  Reach-Came : {s : System C X} → Reach tasks capacity mode s → Came s.completed s.workers
  Reach-Came start = λ i b r e. absurd (cc)
  Reach-Came (later {s} r (worker_executes i {r = y} {c = c} x lt e)) =
      executed-Came s.completed s.workers i c y x (Reach-Came r)
  Reach-Came (later {s} r (worker_tests i {r = x} lt e)) =
      away-AtBarrier Sent (λ k. s.completed) s.workers i _ (test_stopped-away C s.stopped x)
        (Reach-Came r)
  Reach-Came (later {s} r (worker_takes i {r = x} {c = c} lt e q)) =
      away-AtBarrier Sent (λ k. s.completed) s.workers i (executes c x) (λ b y h. cc) (Reach-Came r)
  Reach-Came (later {s} r (barrier_opens j {b = o} e all)) =
      λ i b x h. Reach-Came r i b x (release-stays o (s.workers i) b x h)
  Reach-Came (later r _) = Reach-Came r

  -- At the barrier every command taken has been executed, and what was submitted before has been taken.
  pub before_completed :
      {s : System C X} (r : Reach tasks capacity mode s) (b : ℕ)
      → 0 < tasks
      → ((i : ℕ) → i < tasks → (x : Result X) × (s.workers i ≡ waits_at b x))
      → (v : Command C → ℕ)
      → (weigh v (called r b) ≤ weigh v s.completed) × (weigh v s.completed ≤ weigh v s.submitted)
  before_completed {s} r b some there v =
      let (in_order, within, executed) = commands_once_in_order r in
      let n = Reach-IsNumbered r in
      let all : (w : Command C → ℕ) → weigh w s.taken ≡ weigh w s.completed = λ w. omega (
        arith,
        executed w,
        tally-eq-zero (load w) tasks s.workers (λ i lt. ap (load w) (there i lt).1),
      ) in
      let all_in : (w : Command C → ℕ) → weigh w s.submitted ≡ weigh w s.taken + weigh w s.queue =
        λ w. ap (weigh w) in_order ∙ weigh-append w s.taken s.queue in
      let (x, here) = there 0 some in
      let sent : 0 < weigh (of_call b) s.completed = Reach-Came r 0 b x here in
      elim (dec_lt b s.barriers) [
        | yes begun ↦
            let (since, place, none) = n.placed b begun in
            let taken =
              taken_before (of_call b) v (called r b) since s.taken s.queue (sym in_order ∙ place)
                none (omega (arith, sent, all (of_call b))) in
            (omega (arith, taken, all v), omega (arith, all v, all_in v))
        | no unborn ↦
            absurd (
              omega (arith, sent, all (of_call b), all_in (of_call b), n.none_sent b (omega arith)))
      ]
