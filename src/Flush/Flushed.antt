-- ===== src/Flush/Flushed.antt =====
-- What `flush` of examples/flush_thread_local.rs sends is what `fetch` of examples/fetch_thread_local.rs
-- would collect.
use command_executor.Base.{
  ℕ, ◌<◌, ◌≡◌, refl, ap, ◌∙◌, ◌||◌, List, [], ◌∷◌, ◌++◌, weigh, update, arith,
}
use command_executor.ThreadPool.{
  ShutdownMode, Command, user, empty, run_in_all_threads, Executed, succeeds, fails, panics, free,
  waits_for, System, Step, worker_executes, Reach, start, later,
}
use command_executor.ThreadPool.Locals.{effect, memory}
use command_executor.Fetch.{HashSet, empty_set, extend, store, fetch, one, payloads, called}
use command_executor.Fetch.Sets.{change, sets}
use command_executor.Fetch.Collected.{fetch_returns_all}
use command_executor.Flush.{flush, union}

union-snoc :
    (all : List HashSet) (set : HashSet) (x : ℕ)
    → union (all ++ (set ∷ [])) x ≡ (union all x || set x)
union-snoc [] set x = ground arith
union-snoc (first ∷ all) set x = rw (union-snoc all set x) (ground arith)

-- The closure of `flush`, with the sets sent to the third stage.
abbrev sends : HashSet × List HashSet → HashSet × List HashSet
sends (intermediate, submitted) =
    let (left, payload) = flush intermediate in (left, submitted ++ (payload ∷ []))

-- The two programs after the same command.
change-flush :
    {X : Type 0} (c : Command ℕ) (y : Executed X) (local collected : HashSet)
    (submitted : List HashSet)
    → ((x : ℕ) → union submitted x ≡ collected x)
    → (let (value, more) = effect store (λ b y. sends) c y (local, submitted) in
        let (value', more') = change c y (local, collected) in
        (value ≡ value') × ((x : ℕ) → union more x ≡ more' x))
unfolding store fetch flush extend
change-flush (user c) y local collected submitted same = (refl, same)
change-flush empty y local collected submitted same = (refl, same)
change-flush (run_in_all_threads b) panics local collected submitted same =
    (refl, λ x. rw (union-snoc submitted local x, same x) refl)
change-flush (run_in_all_threads b) succeeds local collected submitted same =
    (refl, λ x. rw (union-snoc submitted local x, same x) refl)
change-flush (run_in_all_threads b) (fails e) local collected submitted same =
    (refl, λ x. rw (union-snoc submitted local x, same x) refl)

module _ {X : Type 0} {tasks capacity : ℕ} {mode : ShutdownMode} where
  -- The sets of the threads, and those sent to the third stage.
  abbrev pub flushed : {s : System ℕ X} → Reach tasks capacity mode s → (ℕ → HashSet) × List HashSet
  flushed r = memory store (λ b y. sends) empty_set [] r

  flushed-sets :
      {s : System ℕ X} (r : Reach tasks capacity mode s)
      → ((flushed r).0 ≡ (sets r).0) × ((x : ℕ) → union (flushed r).1 x ≡ (sets r).1 x)
  flushed-sets start = (refl, λ x. refl)
  flushed-sets (later r (worker_executes i {c = c} y lt e)) =
      let (locals, shared) = flushed-sets r in
      let (own, more) = change-flush c y ((sets r).0 i) (sets r).1 (flushed r).1 shared in
      rw locals (ap (update (sets r).0 i) own, more)
  flushed-sets (later r _) = flushed-sets r

  -- If no command has been submitted since the call of `in_all_threads` began, as after the shutdown of the
  -- first stage: when that call returns, the payloads of all commands submitted are what the sets sent
  -- to the third stage hold together.
  pub flush_sends_all :
      {s t : System ℕ X} (r : Reach tasks capacity mode s) (st : Step tasks capacity mode s t)
      (j b : ℕ)
      → 0 < tasks
      → s.clients j ≡ waits_for b
      → t.clients j ≡ free
      → ((x : ℕ) → weigh (one x) (called r b) ≡ weigh (one x) s.submitted)
      → (x : ℕ) → union (flushed (later r st)).1 x ≡ payloads s.submitted x
  flush_sends_all r st j b some w f quiet x =
      (flushed-sets (later r st)).1 x ∙ fetch_returns_all r st j b some w f quiet x
