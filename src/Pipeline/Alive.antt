-- ===== src/Pipeline/Alive.antt =====
-- Every run of examples/pipeline.rs keeps its workers fit, and the stages that `main` has not come to
-- running.
use command_executor.Base.{
  ◌∙◌, update_other, ℕ, suc, ◌≤◌, ◌<◌, ◌≡◌, refl, sym, ap, List, [], ◌∷◌, arith, update, update_all,
  update_view,
}
use command_executor.ThreadPool.{user, succeeds, running, System, enqueued}
use command_executor.Pipeline.{
  Program, Main, submitting, closing, failed, Run, executed, Move, main_submits, main_gives_up,
  main_closes, main_shuts_down, main_joins, main_join_fails, worker_moves, worker_forwards,
  worker_writes, worker_fails_to_write, Reached, starts, moves,
}
use command_executor.Pipeline.Fitness.{
  AllFit, owner-AllFit, worker-AllFit, worker-phase, enqueued-AllFit, succeeded-AllFit,
  failed-AllFit, IsAtLoop-IsFit,
}

module _ {ℓ} {C W X : Type ℓ} (P : Program C W) where
  -- The stages that `main` has not come to are running.
  abbrev pub Ahead : Main C → (ℕ → System C X) → Type 0
  Ahead (submitting rest) pools = (m : ℕ) → (pools m).phase ≡ running
  Ahead (closing n) pools = (n ≤ suc P.last) × ((m : ℕ) → n < m → (pools m).phase ≡ running)
  Ahead failed pools = Unit

  pub record IsAlive (s : Run C W X) : Type ℓ where
    pub pools_fit : (n : ℕ) → AllFit (s.pools n)
    pub ahead : Ahead s.main s.pools

  -- A pool that stays in its phase.
  Ahead-update :
      (main : Main C) (pools : ℕ → System C X) (n : ℕ) (p : System C X)
      → p.phase ≡ (pools n).phase
      → Ahead main pools
      → Ahead main (update pools n p)
  Ahead-update (submitting rest) pools n p same h =
      λ m. update_view (λ q. q.phase) pools n p same m ∙ h m
  Ahead-update (closing k) pools n p same h =
      (h.0, λ m lt. update_view (λ q. q.phase) pools n p same m ∙ h.1 m lt)
  Ahead-update failed pools n p same h = tt

  -- A move in which one pool changes, and stays in its phase.
  changed-IsAlive :
      {s : Run C W X} (n : ℕ) (p : System C X) {world : W} {written lost : List C}
      → p.phase ≡ (s.pools n).phase
      → AllFit p
      → IsAlive s
      → IsAlive (record {
        main = s.main;
        pools = update s.pools n p;
        world = world;
        written = written;
        lost = lost;
      })
  changed-IsAlive {s} n p same fit v = record {
    pools_fit = update_all AllFit s.pools n p v.pools_fit fit;
    ahead = Ahead-update s.main s.pools n p same v.ahead;
  }

  pub Move-IsAlive : {s t : Run C W X} → Move P s t → IsAlive s → IsAlive t
  Move-IsAlive {s} (main_submits {c} {rest} e (ph, room)) v = record {
    pools_fit =
        update_all AllFit s.pools 0 _ v.pools_fit (enqueued-AllFit c (s.pools 0) (v.pools_fit 0));
    ahead =
        let before : Ahead (submitting (c ∷ rest)) s.pools = rw e at v.ahead in
        Ahead-update (submitting rest) s.pools 0 _ refl before;
  }
  Move-IsAlive (main_gives_up e) v = record { pools_fit = v.pools_fit; ahead = tt }
  Move-IsAlive {s} (main_closes e) v = record {
    pools_fit = v.pools_fit;
    ahead =
        let before : Ahead (submitting []) s.pools = rw e at v.ahead in
        (omega arith, λ m lt. before m);
  }
  Move-IsAlive {s} (main_shuts_down {n} {p} e le st o) v = record {
    pools_fit = update_all AllFit s.pools n p v.pools_fit (owner-AllFit st o (v.pools_fit n));
    ahead =
        let before : Ahead (closing n) s.pools = rw e at v.ahead in
        rw e (
          before.0,
          λ m lt.
              ap (λ q. q.phase) (update_other s.pools {i = n} {j = m} p (λ same. omega arith))
              ∙ before.1 m lt,
        );
  }
  Move-IsAlive {s} (main_joins {n} e le ph ended) v = record {
    pools_fit = v.pools_fit;
    ahead =
        let before : Ahead (closing n) s.pools = rw e at v.ahead in
        (omega arith, λ m lt. before.1 m (omega arith));
  }
  Move-IsAlive (main_join_fails i e le lt ph bad over) v = record {
    pools_fit = v.pools_fit;
    ahead = tt;
  }
  Move-IsAlive {s} (worker_moves n {p} le st o) v =
      changed-IsAlive n p (worker-phase st o) (worker-AllFit st o (v.pools_fit n)) v
  Move-IsAlive {s} (worker_forwards n i {c} {r} below lt e (ph, room)) v =
      let p = executed (s.pools n) i c r succeeds in
      let q = enqueued (user (P.forward n c)) (s.pools (suc n)) in
      let after : IsAlive (record s { pools = update s.pools n p }) =
        changed-IsAlive n p refl (succeeded-AllFit (s.pools n) i c r (v.pools_fit n)) v in
      changed-IsAlive (suc n) q
        (ap (λ x. x.phase) (sym (update_other s.pools {i = n} {j = suc n} p (λ same. omega arith))))
        (enqueued-AllFit (P.forward n c) (s.pools (suc n)) (v.pools_fit (suc n))) after
  Move-IsAlive {s} (worker_writes i {c} {r} lt e) v =
      changed-IsAlive P.last _ refl (succeeded-AllFit (s.pools P.last) i c r (v.pools_fit P.last)) v
  Move-IsAlive {s} (worker_fails_to_write i {c} {r} x may lt e) v =
      changed-IsAlive P.last _ refl (failed-AllFit (s.pools P.last) i c r x (v.pools_fit P.last)) v

  pub Reached-IsAlive : {s : Run C W X} → Reached P s → IsAlive s
  Reached-IsAlive {s} (starts h) = record {
    pools_fit = λ n. record {
      no_clients = h.no_clients n;
      plain = rw (h.nothing_queued n) tt;
      fit = λ i. IsAtLoop-IsFit (s.pools n).stopped ((s.pools n).workers i) (h.at_loop n i);
    };
    ahead = rw h.at_main h.is_running;
  }
  Reached-IsAlive (moves r m) = Move-IsAlive m (Reached-IsAlive r)
