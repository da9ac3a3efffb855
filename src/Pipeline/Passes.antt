-- ===== src/Pipeline/Passes.antt =====
-- A command of examples/pipeline.rs that submits one to the next stage.
use command_executor.Base.{
  ℕ, suc, ◌+◌, ◌<◌, ◌≡◌, refl, sym, ap, ◌∙◌, arith, update, update_same, update_other, update_each,
  update_view, ℕ_discrete,
}
use command_executor.ThreadPool.{Result, user, succeeds, executes, running, System, enqueued, later}
use command_executor.Pipeline.{Program, Run, executed, PoolStep}
use command_executor.Pipeline.Stages.{
  entered, left, executed-left, enqueued-entered, executed-HasFailed,
}
use command_executor.Pipeline.Accounts.{
  PoolReach, IsSound, Fed-kept, Joined-update, busy-Joined, running-Joined, Told-update,
}

module _ {ℓ} {C W X : Type ℓ} (P : Program C W) where
  -- A command leaves the stage `n` and one enters the next, and the other stages stay.
  forwarded-linked :
      (w : C → ℕ) (pools : ℕ → System C X) (n : ℕ) (p q : System C X) (d : ℕ)
      → entered w p ≡ entered w (pools n)
      → left (λ c. w (P.forward n c)) p ≡ left (λ c. w (P.forward n c)) (pools n) + d
      → entered w q ≡ entered w (pools (suc n)) + d
      → ((u : C → ℕ) → left u q ≡ left u (pools (suc n)))
      → (m : ℕ) → entered w (pools (suc n)) ≡ left (λ c. w (P.forward n c)) (pools n)
      → entered w (pools (suc m)) ≡ left (λ c. w (P.forward m c)) (pools m)
      → entered w (update (update pools n p) (suc n) q (suc m))
        ≡ left (λ c. w (P.forward m c)) (update (update pools n p) (suc n) q m)
  forwarded-linked w pools n p q d enters leaves enters' leaves' m now before =
      elim (ℕ_discrete n m) [
        | yes here ↦ rw (← here) (
            rw
              (
                update_same U (suc n) q,
                update_other U {i = suc n} {j = n} q (λ x. omega arith),
                update_same pools n p,
              )
              (omega (arith, now, leaves, enters')))
        | no other ↦
            let next : U (suc n) ≡ pools (suc n) =
              update_other pools {i = n} {j = suc n} p (λ x. omega arith) in
            ap (entered w) (update_other U {i = suc n} {j = suc m} q (λ x. omega arith))
            ∙ update_view (entered w) pools n p enters (suc m)
            ∙ before
            ∙ ap (left (λ c. w (P.forward m c))) (sym (update_other pools {i = n} {j = m} p other))
            ∙ sym (
                update_view (left (λ c. w (P.forward m c))) U (suc n) q
                  (leaves' _ ∙ ap (left (λ c. w (P.forward m c))) (sym next)) m)
      ]
    where
      U : ℕ → System C X
      U = update pools n p

  pub forwarded-IsSound :
      {s : Run C W X} (n i : ℕ) {c : C} {r : Result X}
      → n < P.last
      → i < (P.stages n).tasks
      → (s.pools n).workers i ≡ executes (user c) r
      → (s.pools (suc n)).phase ≡ running
      → PoolStep P n (s.pools n) (executed (s.pools n) i c r succeeds)
      → PoolStep P (suc n) (s.pools (suc n)) (enqueued (user (P.forward n c)) (s.pools (suc n)))
      → IsSound P s
      → IsSound P (record s {
        pools =
            update
              (update s.pools n (executed (s.pools n) i c r succeeds))
              (suc n)
              (enqueued (user (P.forward n c)) (s.pools (suc n)));
      })
  forwarded-IsSound {s} n i {c} {r} below lt e ph st st' v =
      let p = executed (s.pools n) i c r succeeds in
      let q = enqueued (user (P.forward n c)) (s.pools (suc n)) in
      let U = update s.pools n p in
      let next : U (suc n) ≡ s.pools (suc n) =
        update_other s.pools {i = n} {j = suc n} p (λ x. omega arith) in
      record {
        reached =
            update_each (PoolReach P) U (suc n) q
              (update_each (PoolReach P) s.pools n p v.reached (later (v.reached n) st))
              (later (v.reached (suc n)) st');
        fed = λ w.
            Fed-kept P w s.main _ _
              (ap (entered w) (update_other U {i = suc n} {j = 0} q (λ x. omega arith))
                ∙ update_view (entered w) s.pools n p refl 0)
              (v.fed w);
        linked = λ w m lt'.
            forwarded-linked w s.pools n p q (w (P.forward n c)) refl
              (executed-left (λ d. w (P.forward n d)) (s.pools n) i c r succeeds)
              (enqueued-entered w (s.pools (suc n)) (P.forward n c)) (λ u. refl) m
              (v.linked w n below) (v.linked w m lt');
        sunk = λ w.
            update_view (left w) U (suc n) q (ap (left w) (sym next)) P.last
            ∙ ap (left w) (update_other s.pools {i = n} {j = P.last} p (λ x. omega arith))
            ∙ v.sunk w;
        joined =
            Joined-update P s.main U (suc n) q (running-Joined P s.main s.pools (suc n) v.joined ph)
              (Joined-update P s.main s.pools n p (busy-Joined P s.main s.pools n i v.joined lt e)
                v.joined);
        told =
            Told-update P s.lost U (suc n) q (λ j h. rw next at h)
              (Told-update P s.lost s.pools n p (executed-HasFailed (s.pools n) i succeeds e)
                v.told);
      }
