-- ===== src/Fetch/Outcome.antt =====
-- What `main` of examples/fetch_thread_local.rs compares.
use command_executor.Base.{
  ℕ, zero, suc, ◌+◌, ◌≡◌, refl, ap, ◌∙◌, [], ◌∷◌, weigh, weigh-append, ltb, if◌then◌else◌, arith,
  update_same,
}
use command_executor.ThreadPool.{
  Client, free, broadcasts, waits_for, run_in_all_threads, System, later, broadcast_begins,
  broadcast_submits, broadcast_waits, barrier_opens, worker_tests, worker_takes, worker_executes,
}
use command_executor.Pipeline.Numbers.{range}
use command_executor.Pipeline.Accounts.{PoolReach}
use command_executor.Pipeline.Done.{Reached-IsSound}
use command_executor.Pipeline.Alive.{Reached-IsAlive}
use command_executor.Fetch.{HashSet, is_payload, one, called}
use command_executor.Fetch.Sets.{carry_sets, carry-IsKept, IsKept}
use command_executor.Fetch.Collected.{returned_payloads}
use command_executor.Fetch.Stages.{
  stages, store_numbers, SecondStep, IsOfFetch, Fetching, calls, goes_on,
}
use command_executor.Fetch.Gathered.{second-IsKept, second_submitted}

-- The client is inside the call with the barrier.
abbrev IsInside : Client → ℕ → Type 0
IsInside (broadcasts o k) b = o ≡ b
IsInside (waits_for o) b = o ≡ b
IsInside free b = ⊥

module _ {X : Type 0} (count : ℕ) where
  -- Of the payloads, nothing is submitted while `main` is inside the call.
  abbrev Settled : (p : System ℕ X) → PoolReach (store_numbers count) 1 p → Type 0
  Settled p r =
      (b : ℕ)
      → IsInside (p.clients 0) b
      → (x : ℕ) → weigh (one x) (called r b) ≡ weigh (one x) p.submitted

  pub record IsCalled (p : System ℕ X) (m : (ℕ → HashSet) × HashSet) : Type 0 where
    pub reach : PoolReach (store_numbers count) 1 p
    pub kept : IsKept 2 p m
    pub all_submitted : (x : ℕ) → weigh (one x) p.submitted ≡ weigh (is_payload x) (range 0 count)
    pub settled : Settled p reach

  step_submitted :
      {p q : System ℕ X} (st : SecondStep count p q)
      → IsOfFetch count st
      → (x : ℕ) → weigh (one x) q.submitted ≡ weigh (one x) p.submitted
  step_submitted {p} (broadcast_submits j {b = a} e room) o x =
      omega (arith, weigh-append (one x) p.submitted (run_in_all_threads a ∷ []))
  step_submitted (broadcast_begins j ph e) o x = refl
  step_submitted (broadcast_waits j e) o x = refl
  step_submitted (barrier_opens j e full) o x = refl
  step_submitted (worker_tests i lt e) o x = refl
  step_submitted (worker_takes i lt e q) o x = refl
  step_submitted (worker_executes i y lt e) o x = refl
  step_submitted _ o x = absurd o

  step-Settled :
      {p q : System ℕ X} (r : PoolReach (store_numbers count) 1 p) (st : SecondStep count p q)
      → IsOfFetch count st
      → Settled p r
      → Settled q (later r st)
  unfolding stages
  step-Settled {p} r (broadcast_begins j ph e) o v b w x =
      let now : p.barriers ≡ b = rw (o, update_same p.clients 0 (broadcasts p.barriers 2)) at w in
      rw (← now, update_same (called r) p.barriers p.submitted) refl
  step-Settled {p} r (broadcast_submits j {b = a} {k = k} e room) o v b w x =
      let now : a ≡ b = rw (o, update_same p.clients 0 (broadcasts a k)) at w in
      let before = v b (rw (rw o at e) now) x in
      omega (arith, before, weigh-append (one x) p.submitted (run_in_all_threads a ∷ []))
  step-Settled {p} r (broadcast_waits j {b = a} e) o v b w x =
      let now : a ≡ b = rw (o, update_same p.clients 0 (waits_for a)) at w in
      v b (rw (rw o at e) now) x
  step-Settled {p} r (barrier_opens j e full) o v b w x =
      absurd (rw (o, update_same p.clients 0 free) at w)
  step-Settled r (worker_tests i lt e) o v b w x = v b w x
  step-Settled r (worker_takes i lt e q) o v b w x = v b w x
  step-Settled r (worker_executes i y lt e) o v b w x = v b w x
  step-Settled r _ o v b w x = absurd o

  pub Fetching-IsCalled :
      {p : System ℕ X} {m : (ℕ → HashSet) × HashSet} → Fetching count p m → IsCalled p m
  unfolding stages
  Fetching-IsCalled (calls {s} r e ph) = record {
    reach = (Reached-IsSound (store_numbers count) r).reached 1;
    kept = second-IsKept count r;
    all_submitted = second_submitted count r e;
    settled = λ b w.
        absurd (rw (((Reached-IsAlive (store_numbers count) r).pools_fit 1).no_clients 0) at w);
  }
  Fetching-IsCalled (goes_on {m = m} f st o) =
      let v = Fetching-IsCalled f in
      record {
        reach = later v.reach st;
        kept = carry-IsKept m st v.kept;
        all_submitted = λ x. step_submitted st o x ∙ v.all_submitted x;
        settled = step-Settled v.reach st o v.settled;
      }

-- The numbers below `count`, each once.
pub weigh-range :
    (x i count : ℕ)
    → (weigh (is_payload x) (range i count)
        ≡ (if ltb x i then 0 else if ltb x (i + count) then 1 else 0))
weigh-range x i zero = ground arith
weigh-range x i (suc count) = ground (arith, weigh-range x (suc i) count)

-- In every run of `main`, with any interleaving of `main` and the workers of both stages: when its call of
-- `in_all_threads_mut` returns, `result_set` is the set of the numbers below `count`, which is `source_set`.
pub fetch_outcome :
    {X : Type 0} (count : ℕ) {p q : System ℕ X} {m : (ℕ → HashSet) × HashSet} (b : ℕ)
    → Fetching count p m
    → (st : SecondStep count p q) → p.clients 0 ≡ waits_for b
    → q.clients 0 ≡ free
    → (x : ℕ) → (carry_sets st m).1 x ≡ ltb x count
unfolding stages
fetch_outcome count {p} {q} {m} b f st w back x =
    let v = Fetching-IsCalled count f in
    returned_payloads v.reach m st 0 b v.kept (omega arith) w back (v.settled b (rw w refl)) x
    ∙ ap (ltb 0) (v.all_submitted x ∙ weigh-range x 0 count)
    ∙ ground arith
