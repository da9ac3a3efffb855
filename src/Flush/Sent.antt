-- ===== src/Flush/Sent.antt =====
-- What `flush` of examples/flush_thread_local.rs sends to the third stage, in every run.
use command_executor.Base.{
  ℕ, ◌<◌, ◌≡◌, refl, ◌∙◌, List, [], ◌∷◌, ◌++◌, weigh, weigh-append, ltb, arith,
}
use command_executor.ThreadPool.{
  later, user, empty, run_in_all_threads, Command, System, barrier_opens, broadcast_begins,
  broadcast_submits, broadcast_waits, shutdown_begins, shutdown_drained, shutdown_stores,
  shutdown_wakes, shutdown_returns, worker_tests, worker_takes, worker_executes,
}
use command_executor.Pipeline.{of_client}
use command_executor.Pipeline.Accounts.{PoolReach}
use command_executor.Pipeline.Numbers.{range}
use command_executor.Fetch.{HashSet, empty_set, store, extend, is_payload, one}
use command_executor.Fetch.Sets.{carry_sets, IsKept, carry-IsKept}
use command_executor.Fetch.Stages as Fetch
use command_executor.Fetch.Stages.{store_numbers, SecondStep, IsOfFetch, Fetching}
use command_executor.Flush.Stages.{
  Stand, flushes, closes_second, closes_third, failed, member, IsOfSecond,
}

-- The sets with the member in the payloads of a list of commands, counted.
abbrev pub members : ℕ → List (Command HashSet) → ℕ
members x cs = weigh (of_client (member x)) cs

-- What was sent with a further set.
pub sent_more :
    (g set : HashSet) (cs : List (Command HashSet)) (x : ℕ)
    → g x ≡ ltb 0 (members x cs)
    → extend g set x ≡ ltb 0 (members x (cs ++ (user set ∷ [])))
unfolding extend
sent_more g set cs x same =
    rw (same, weigh-append (of_client (member x)) cs (user set ∷ [])) (ground arith)

module _ {X : Type 0} (count : ℕ) where
  -- The payloads of the second stage's commands are those of the source; those executed are in the sets
  -- of the threads and in those sent.
  pub record IsFed (p : System ℕ X) (locals : ℕ → HashSet) (cs : List (Command HashSet))
      : Type 0 where
    pub reach : PoolReach (store_numbers count) 1 p
    pub collected : HashSet
    pub same : (x : ℕ) → collected x ≡ ltb 0 (members x cs)
    pub kept : IsKept 2 p (locals, collected)
    pub all_submitted : (x : ℕ) → weigh (one x) p.submitted ≡ weigh (is_payload x) (range 0 count)

  -- As above, and all of the source has been sent.
  abbrev pub IsFlushed : System ℕ X → (ℕ → HashSet) → List (Command HashSet) → Type 0
  IsFlushed p locals cs = IsFed p locals cs × ((x : ℕ) → x < count → 0 < members x cs)

  -- In `flush` the second stage is as in examples/fetch_thread_local.rs, with what was sent in the place of
  -- what was collected.
  abbrev pub InStand : Stand → System ℕ X → (ℕ → HashSet) → List (Command HashSet) → Type 0
  InStand flushes p locals cs =
      (g : HashSet) × Fetching count p (locals, g) × ((x : ℕ) → g x ≡ ltb 0 (members x cs))
  InStand closes_second p locals cs = IsFlushed p locals cs
  InStand closes_third p locals cs = IsFlushed p locals cs
  InStand failed p locals cs = Unit

  -- A step of the second stage sends nothing.
  carry_same :
      (m : Stand) {p q : System ℕ X} (st : SecondStep count p q) (locals : ℕ → HashSet)
      (g : HashSet)
      → IsOfSecond count m st
      → carry_sets st (locals, g) ≡ ((carry_sets st (locals, empty_set)).0, g)
  unfolding store
  carry_same m (worker_executes i {c = user c} x lt e) locals g o = refl
  carry_same m (worker_executes i {c = empty} x lt e) locals g o = refl
  carry_same m (worker_executes i {c = run_in_all_threads b} x lt e) locals g o = absurd o
  carry_same m (worker_tests i lt e) locals g o = refl
  carry_same m (worker_takes i lt e q) locals g o = refl
  carry_same m _ locals g o = refl

  of_fetch :
      {p q : System ℕ X} (st : SecondStep count p q)
      → IsOfSecond count flushes st
      → IsOfFetch count st
  of_fetch (broadcast_begins j ph e) o = o.1
  of_fetch (broadcast_submits j e room) o = o.1
  of_fetch (broadcast_waits j e) o = o.1
  of_fetch (barrier_opens j e full) o = absurd o
  of_fetch (shutdown_begins ph h) o = absurd (cc)
  of_fetch (shutdown_drained ph e) o = absurd (cc)
  of_fetch (shutdown_stores ph) o = absurd (cc)
  of_fetch (shutdown_wakes ph room) o = absurd (cc)
  of_fetch (shutdown_returns ph) o = absurd (cc)
  of_fetch (worker_tests i lt e) o = tt
  of_fetch (worker_takes i lt e q) o = tt
  of_fetch (worker_executes i x lt e) o = tt
  of_fetch _ o = absurd o

  -- After `flush` nothing is submitted to the second stage but the commands of the shutdown.
  after_submitted :
      (m : Stand) {p q : System ℕ X} (st : SecondStep count p q)
      → IsOfSecond count m st
      → ¬ (m ≡ flushes)
      → (x : ℕ) → weigh (one x) q.submitted ≡ weigh (one x) p.submitted
  after_submitted m (broadcast_begins j ph e) o n x = refl
  after_submitted m (broadcast_submits j e room) o n x = absurd (n o.0)
  after_submitted m (broadcast_waits j e) o n x = refl
  after_submitted m (barrier_opens j e full) o n x = refl
  after_submitted m (shutdown_begins ph h) o n x = refl
  after_submitted m (shutdown_drained ph e) o n x = refl
  after_submitted m (shutdown_stores ph) o n x = refl
  after_submitted m {p} (shutdown_wakes ph room) o n x =
      omega (arith, weigh-append (one x) p.submitted (Command.empty ∷ []))
  after_submitted m (shutdown_returns ph) o n x = refl
  after_submitted m (worker_tests i lt e) o n x = refl
  after_submitted m (worker_takes i lt e q) o n x = refl
  after_submitted m (worker_executes i x lt e) o n y = refl
  after_submitted m _ o n x = absurd o

  second-IsFlushed :
      (m : Stand) {p q : System ℕ X} (st : SecondStep count p q) (locals : ℕ → HashSet)
      (cs : List (Command HashSet))
      → IsOfSecond count m st
      → ¬ (m ≡ flushes)
      → IsFlushed p locals cs
      → IsFlushed q (carry_sets st (locals, empty_set)).0 cs
  unfolding Fetch.stages
  second-IsFlushed m st locals cs o n (v, sent) = (
    record {
      reach = later v.reach st;
      collected = v.collected;
      same = v.same;
      kept =
          rw (carry_same m st locals v.collected o) at
            (carry-IsKept (locals, v.collected) st v.kept);
      all_submitted = λ x. after_submitted m st o n x ∙ v.all_submitted x;
    },
    sent,
  )

  pub second-InStand :
      (m : Stand) {p q : System ℕ X} (st : SecondStep count p q) (locals : ℕ → HashSet)
      (cs : List (Command HashSet))
      → IsOfSecond count m st
      → InStand m p locals cs
      → InStand m q (carry_sets st (locals, empty_set)).0 cs
  second-InStand flushes st locals cs o (g, f, same) =
      (g, rw (carry_same flushes st locals g o) at (Fetching.goes_on f st (of_fetch st o)), same)
  second-InStand closes_second st locals cs o v =
      second-IsFlushed closes_second st locals cs o (λ e. cc) v
  second-InStand closes_third st locals cs o v =
      second-IsFlushed closes_third st locals cs o (λ e. cc) v
  second-InStand failed st locals cs o v = tt
