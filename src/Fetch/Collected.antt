-- ===== src/Fetch/Collected.antt =====
-- What `fetch` of examples/fetch_thread_local.rs returns.
use command_executor.Base.{
  ℕ, zero, suc, ◌+◌, ◌<◌, ◌≡◌, refl, ap, ◌∙◌, Bool, true, false, weigh, tally, tally-eq-zero, arith,
  ltb, if◌then◌else◌,
}
use command_executor.ThreadPool.{
  ShutdownMode, Result, waits_at, free, waits_for, System, Step, worker_executes, Reach, later,
}
use command_executor.ThreadPool.Broadcast.{in_all_threads_waits_for_all}
use command_executor.Fetch.{HashSet, one, payloads, called}
use command_executor.Fetch.Taken.{before_completed}
use command_executor.Fetch.Sets.{sets, carry_sets, IsKept, Reach-IsKept}

-- A test that agrees with a count.
agrees :
    (g : Bool) (others n m : ℕ)
    → others ≡ 0
    → n ≡ m
    → (0 < (if g then 1 else 0) + others → 0 < n)
    → (0 < n → 0 < (if g then 1 else 0) + others)
    → g ≡ ltb 0 m
agrees true others n m none same sound kept = let some = sound (omega arith) in ground arith
agrees false others zero m none same sound kept = ground arith
agrees false others (suc n) m none same sound kept =
    absurd (let some = kept (omega arith) in omega arith)

module _ {X : Type 0} {tasks capacity : ℕ} {mode : ShutdownMode} where
  -- Nothing is collected while a call returns.
  return-carry :
      {s t : System ℕ X} (m : (ℕ → HashSet) × HashSet) (st : Step tasks capacity mode s t) {j b : ℕ}
      → s.clients j ≡ waits_for b
      → t.clients j ≡ free
      → (carry_sets st m).1 ≡ m.1
  return-carry m (worker_executes i x lt e) w f = absurd (cc)
  return-carry m _ w f = refl

  -- When a call returns, since whose start no payload was submitted: the payloads collected.
  pub returned_payloads :
      {s t : System ℕ X} (r : Reach tasks capacity mode s) (m : (ℕ → HashSet) × HashSet)
      (st : Step tasks capacity mode s t) (j b : ℕ)
      → IsKept tasks s m
      → 0 < tasks
      → s.clients j ≡ waits_for b
      → t.clients j ≡ free
      → ((x : ℕ) → weigh (one x) (called r b) ≡ weigh (one x) s.submitted)
      → (x : ℕ) → (carry_sets st m).1 x ≡ payloads s.submitted x
  returned_payloads {s} r m st j b k some w f quiet x =
      let there : (i : ℕ) → i < tasks → (y : Result X) × (s.workers i ≡ waits_at b y) =
        λ i lt. let (y, here, back) = in_all_threads_waits_for_all j st w f i lt in (y, here) in
      let (low, high) = before_completed r b some there (one x) in
      let none : tally (λ (set : HashSet). if set x then 1 else 0) tasks m.0 ≡ 0 =
        tally-eq-zero (λ (set : HashSet). if set x then 1 else 0) tasks m.0
          (λ i lt. rw (k.at_barrier i b (there i lt).0 (there i lt).1 x) refl) in
      ap (λ set. set x) (return-carry m st w f)
      ∙ agrees (m.1 x) _ (weigh (one x) s.completed) (weigh (one x) s.submitted) none
          (omega (arith, low, high, quiet x)) (k.sound x) (k.complete x)

  -- If no command has been submitted since the call of `in_all_threads_mut` began, as after the shutdown of
  -- the first stage: when that call returns, what the calls have collected is the set of the payloads
  -- of all commands submitted.
  pub fetch_returns_all :
      {s t : System ℕ X} (r : Reach tasks capacity mode s) (st : Step tasks capacity mode s t)
      (j b : ℕ)
      → 0 < tasks
      → s.clients j ≡ waits_for b
      → t.clients j ≡ free
      → ((x : ℕ) → weigh (one x) (called r b) ≡ weigh (one x) s.submitted)
      → (x : ℕ) → (sets (later r st)).1 x ≡ payloads s.submitted x
  fetch_returns_all r st j b some w f quiet x =
      returned_payloads r (sets r) st j b (Reach-IsKept r) some w f quiet x
