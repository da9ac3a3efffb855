-- ===== src/Flush/Handed.antt =====
-- What is sent to the third stage of examples/flush_thread_local.rs in the moves that are no steps of the second.
use command_executor.Base.{
  ℕ, ◌+◌, ◌⊎◌, inl, inr, ◌<◌, ◌≡◌, sym, ap, ◌∙◌, List, [], ◌∷◌, ◌++◌, weigh-append, ltb, arith,
  update, update_same, tally,
}
use command_executor.ThreadPool.{
  later, Result, executes, execute, waits_for, at_barrier, release, free, user, run_in_all_threads,
  Command, succeeds, System, barrier_opens, worker_executes,
}
use command_executor.Pipeline.{of_client, OfOwner, OfWorker}
use command_executor.Pipeline.Stages.{owner-accounts, worker-accounts}
use command_executor.Fetch.{HashSet, fetch, extend}
use command_executor.Fetch.Sets.{carry-IsKept}
use command_executor.Fetch.Stages as Fetch
use command_executor.Fetch.Stages.{store_numbers, SecondStep, IsOfFetch, Fetching}
use command_executor.Fetch.Outcome.{Fetching-IsCalled, fetch_outcome}
use command_executor.Flush.{flush}
use command_executor.Flush.Stages.{
  Stand, flushes, closes_second, closes_third, failed, ThirdStep, member,
}
use command_executor.Flush.Sent.{members, IsFlushed, InStand, sent_more}

module _ {X : Type 0} (count : ℕ) where
  worker_flushes-IsFlushed :
      {p : System ℕ X} (i : ℕ) {b : ℕ} {r : Result X} (locals : ℕ → HashSet)
      (cs : List (Command HashSet))
      → i < 2
      → p.workers i ≡ executes (run_in_all_threads b) r
      → IsFlushed count p locals cs
      → IsFlushed count
          (record p {
            workers = update p.workers i (execute (run_in_all_threads b) r succeeds);
            completed = p.completed ++ (run_in_all_threads b ∷ []);
          })
          (update locals i (flush (locals i)).0)
          (cs ++ (user (flush (locals i)).1 ∷ []))
  unfolding Fetch.stages flush fetch
  worker_flushes-IsFlushed {p} i {b} {r} locals cs lt e (v, sent) =
      let st : SecondStep count p _ = worker_executes i {c = run_in_all_threads b} succeeds lt e in
      (
        record {
          reach = later v.reach st;
          collected = extend v.collected (locals i);
          same = λ x. sent_more v.collected (locals i) cs x (v.same x);
          kept = carry-IsKept (locals, v.collected) st v.kept;
          all_submitted = v.all_submitted;
        },
        λ x lt'.
            omega
              (arith, sent x lt', weigh-append (of_client (member x)) cs (user (locals i) ∷ [])),
      )

  -- The closure of `flush` in a worker.
  pub worker_flushes-InStand :
      (m : Stand) (p : System ℕ X) (i : ℕ) {b : ℕ} {r : Result X} (locals : ℕ → HashSet)
      (cs : List (Command HashSet))
      → i < 2
      → p.workers i ≡ executes (run_in_all_threads b) r
      → InStand count m p locals cs
      → InStand count m
          (record p {
            workers = update p.workers i (execute (run_in_all_threads b) r succeeds);
            completed = p.completed ++ (run_in_all_threads b ∷ []);
          })
          (update locals i (flush (locals i)).0)
          (cs ++ (user (flush (locals i)).1 ∷ []))
  unfolding Fetch.stages flush fetch
  worker_flushes-InStand flushes p i locals cs lt e (g, f, same) = (
    extend g (locals i),
    Fetching.goes_on f (worker_executes i succeeds lt e) tt,
    λ x. sent_more g (locals i) cs x (same x),
  )
  worker_flushes-InStand closes_second p i {b} {r} locals cs lt e v =
      worker_flushes-IsFlushed i {b = b} {r = r} locals cs lt e v
  worker_flushes-InStand closes_third p i {b} {r} locals cs lt e v =
      worker_flushes-IsFlushed i {b = b} {r = r} locals cs lt e v
  worker_flushes-InStand failed p i locals cs lt e v = tt

  -- `in_all_threads` returns.
  pub flush_returns-IsFlushed :
      {p : System ℕ X} {b : ℕ} (locals : ℕ → HashSet) (cs : List (Command HashSet))
      → p.clients 0 ≡ waits_for b
      → tally (at_barrier b) 2 p.workers + 1 ≡ 2 + 1
      → InStand count flushes p locals cs
      → IsFlushed count
          (record p { clients = update p.clients 0 free; workers = λ i. release b (p.workers i) })
          locals
          cs
  unfolding Fetch.stages
  flush_returns-IsFlushed {p} {b} locals cs w full (g, f, same) =
      let st : SecondStep count p _ = barrier_opens 0 w full in
      let v = Fetching-IsCalled count f in
      (
        record {
          reach = later v.reach st;
          collected = g;
          same = same;
          kept = carry-IsKept (locals, g) st v.kept;
          all_submitted = v.all_submitted;
        },
        λ x lt.
            let all : g x ≡ ltb x count =
              fetch_outcome count b f st w (update_same p.clients 0 free) x in
            ground (arith, all, same x, lt),
      )

  resent-IsFlushed :
      {p : System ℕ X} {locals : ℕ → HashSet} (cs ds : List (Command HashSet))
      → ((x : ℕ) → members x ds ≡ members x cs)
      → IsFlushed count p locals cs
      → IsFlushed count p locals ds
  resent-IsFlushed cs ds same (v, sent) = (
    record {
      reach = v.reach;
      collected = v.collected;
      same = λ x. v.same x ∙ ap (ltb 0) (sym (same x));
      kept = v.kept;
      all_submitted = v.all_submitted;
    },
    λ x lt. omega (arith, same x, sent x lt),
  )

  resent-InStand :
      (m : Stand) (p : System ℕ X) (locals : ℕ → HashSet) (cs ds : List (Command HashSet))
      → ((x : ℕ) → members x ds ≡ members x cs)
      → InStand count m p locals cs
      → InStand count m p locals ds
  resent-InStand flushes p locals cs ds same (g, f, h) =
      (g, f, λ x. h x ∙ ap (ltb 0) (sym (same x)))
  resent-InStand closes_second p locals cs ds same v = resent-IsFlushed cs ds same v
  resent-InStand closes_third p locals cs ds same v = resent-IsFlushed cs ds same v
  resent-InStand failed p locals cs ds same v = tt

  -- A step of the third stage in which nothing is sent to it.
  pub quiet-InStand :
      (m : Stand) (p : System ℕ X) (locals : ℕ → HashSet) {t u : System HashSet X}
      (st : ThirdStep t u)
      → OfOwner st ⊎ OfWorker st
      → InStand count m p locals t.submitted
      → InStand count m p locals u.submitted
  quiet-InStand m p locals {t} {u} st o h =
      let same : (x : ℕ) → members x u.submitted ≡ members x t.submitted = λ x. elim o [
        | inl owner ↦ (owner-accounts (member x) st owner).0
        | inr worker ↦ (worker-accounts (member x) st worker).0
      ] in
      resent-InStand m p locals t.submitted u.submitted same h
