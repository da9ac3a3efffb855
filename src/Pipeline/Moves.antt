-- ===== src/Pipeline/Moves.antt =====
-- The accounts of examples/pipeline.rs are kept by every move.
use command_executor.Base.{
  ℕ, suc, ◌+◌, ◌<◌, ◌≡◌, refl, sym, ap, ◌∙◌, inr, List, [], ◌∷◌, weigh, weigh-append, arith, update,
  update_same, update_other, update_each, update_view, ℕ_discrete,
}
use command_executor.ThreadPool.{
  Result, Command, user, empty, run_in_all_threads, Executed, succeeds, fails, executes, submits,
  worker_executes, later, execute,
}
use command_executor.ThreadPool.Failures.{execute-fails}
use command_executor.Pipeline.{
  Program, Main, submitting, closing, Run, of_client, executed, PoolStep, Move, main_submits,
  main_gives_up, main_closes, main_shuts_down, main_joins, main_join_fails, worker_moves,
  worker_forwards, worker_writes, worker_fails_to_write,
}
use command_executor.Pipeline.Stages.{
  entered, left, owner-accounts, worker-accounts, ended-OfWorker, owner-HasFailed, worker-HasFailed,
  executed-left, executed-HasFailed,
}
use command_executor.Pipeline.Accounts.{
  PoolReach, Fed, Joined, Told, IsSound, Fed-kept, Joined-update, busy-Joined, Told-step,
  quiet-IsSound, submitted-IsSound,
}
use command_executor.Pipeline.Passes.{forwarded-IsSound}

-- Where there is no command of a client, none counts.
pub weigh-of_client {ℓ} :
    {C : Type ℓ} (v : C → ℕ) (cs : List (Command C))
    → weigh (of_client (λ _. 1)) cs ≡ 0
    → weigh (of_client v) cs ≡ 0
weigh-of_client v [] h = refl
weigh-of_client v (user c ∷ cs) h = absurd (omega arith)
weigh-of_client v (empty ∷ cs) h = omega (arith, weigh-of_client v cs (omega arith))
weigh-of_client v (run_in_all_threads b ∷ cs) h = omega (arith, weigh-of_client v cs (omega arith))

module _ {ℓ} {C W X : Type ℓ} (P : Program C W) where
  -- A command of the last stage has been executed.
  printed-IsSound :
      {s : Run C W X} (i : ℕ) {c : C} {r : Result X} (x : Executed X) (world : W)
      (written lost : List C)
      → i < (P.stages P.last).tasks
      → (s.pools P.last).workers i ≡ executes (user c) r
      → PoolStep P P.last (s.pools P.last) (executed (s.pools P.last) i c r x)
      → ((v : C → ℕ) → weigh v written + weigh v lost ≡ weigh v s.written + weigh v s.lost + v c)
      → Told P lost (executed (s.pools P.last) i c r x)
      → IsSound P s
      → IsSound P (record {
        main = s.main;
        pools = update s.pools P.last (executed (s.pools P.last) i c r x);
        world = world;
        written = written;
        lost = lost;
      })
  printed-IsSound {s} i {c} {r} x world written lost lt e st count told v =
      let p = executed (s.pools P.last) i c r x in
      record {
        reached =
            update_each (PoolReach P) s.pools P.last p v.reached (later (v.reached P.last) st);
        fed = λ w.
            Fed-kept P w s.main _ _ (update_view (entered w) s.pools P.last p refl 0) (v.fed w);
        linked = λ w n below.
            update_view (entered w) s.pools P.last p refl (suc n)
            ∙ v.linked w n below
            ∙ ap (left (λ d. w (P.forward n d)))
                (sym (update_other s.pools {i = P.last} {j = n} p (λ y. omega arith)));
        sunk = λ w.
            rw (update_same s.pools P.last p)
              (omega (arith, executed-left w (s.pools P.last) i c r x, v.sunk w, count w));
        joined =
            Joined-update P s.main s.pools P.last p
              (busy-Joined P s.main s.pools P.last i v.joined lt e) v.joined;
        told = rw (update_same s.pools P.last p) told;
      }

  pub Move-IsSound : {s t : Run C W X} → Move P s t → IsSound P s → IsSound P t
  Move-IsSound (main_submits e (ph, room)) v = submitted-IsSound P e ph (submits _ ph room) v
  Move-IsSound (main_gives_up e) v = record {
    reached = v.reached;
    fed = λ w. tt;
    linked = v.linked;
    sunk = v.sunk;
    joined = tt;
    told = v.told;
  }
  Move-IsSound {s} (main_closes e) v = record {
    reached = v.reached;
    fed = λ w. let before : Fed P w (submitting []) (s.pools 0) = rw e at (v.fed w) in omega arith;
    linked = v.linked;
    sunk = v.sunk;
    joined = λ n lt. absurd (omega arith);
    told = v.told;
  }
  Move-IsSound {s} (main_shuts_down {n} e le st o) v =
      quiet-IsSound P n st (λ w. owner-accounts w st o)
        (λ m here lt.
          let same : ◌≡◌ {A = Main C} (closing n) (closing m) = sym e ∙ here in
          let equal : n ≡ m = cc in omega arith)
        (owner-HasFailed st o) v
  Move-IsSound {s} (main_joins {n} e le ph ended) v = record {
    reached = v.reached;
    fed = λ w. let before : Fed P w (closing n) (s.pools 0) = rw e at (v.fed w) in before;
    linked = v.linked;
    sunk = v.sunk;
    joined =
        let before : Joined P (closing n) s.pools = rw e at v.joined in
        λ m lt. elim (ℕ_discrete m n) [
          | yes now ↦ rw now (ph, ended)
          | no other ↦ before m (omega arith)
        ];
    told = v.told;
  }
  Move-IsSound (main_join_fails i e le lt ph bad over) v = record {
    reached = v.reached;
    fed = λ w. tt;
    linked = v.linked;
    sunk = v.sunk;
    joined = tt;
    told = v.told;
  }
  Move-IsSound {s} (worker_moves n le st o) v =
      quiet-IsSound P n st (λ w. worker-accounts w st o)
        (λ m here lt.
          let joined : Joined P (closing m) s.pools = rw here at v.joined in
          ended-OfWorker st o (joined n lt).1)
        (worker-HasFailed st o) v
  Move-IsSound (worker_forwards n i below lt e (ph, room)) v =
      forwarded-IsSound P n i below lt e ph (worker_executes i succeeds lt e) (submits _ ph room) v
  Move-IsSound {s} (worker_writes i {c} {r} lt e) v =
      printed-IsSound i succeeds _ _ _ lt e (worker_executes i succeeds lt e)
        (λ w. omega (arith, weigh-append w s.written (c ∷ [])))
        (Told-step P s.lost (s.pools P.last) (executed (s.pools P.last) i c r succeeds)
          (executed-HasFailed (s.pools P.last) i succeeds e) v.told)
        v
  Move-IsSound {s} (worker_fails_to_write i {c} {r} x may lt e) v =
      printed-IsSound i (fails x) _ _ _ lt e (worker_executes i (fails x) lt e)
        (λ w. omega (arith, weigh-append w s.lost (c ∷ [])))
        (inr (
          i,
          lt,
          rw (update_same (s.pools P.last).workers i (execute (user c) r (fails x)))
              (execute-fails c r x),
        ))
        v
