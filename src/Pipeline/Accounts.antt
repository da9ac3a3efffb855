-- ===== src/Pipeline/Accounts.antt =====
-- The commands of examples/pipeline.rs on their way through the stages.
use command_executor.Base.{
  ℕ, suc, ◌+◌, ◌<◌, ◌≡◌, refl, sym, ap, ◌∙◌, ◌⊎◌, inl, inr, List, [], ◌∷◌, weigh, arith, update,
  update_same, update_other, update_each, update_view,
}
use command_executor.ThreadPool.{
  Result, ok, Command, user, executes, returned, running, down, System, enqueued, Reach, later,
}
use command_executor.ThreadPool.Failures.{HasFailed}
use command_executor.Pipeline.{Program, Main, submitting, closing, failed, Run, PoolStep}
use command_executor.Pipeline.Stages.{entered, left, enqueued-entered}

module _ {ℓ} {C W X : Type ℓ} (P : Program C W) where
  abbrev pub PoolReach : ℕ → System C X → Type ℓ
  PoolReach n = let a = P.stages n in Reach a.tasks a.queue_size a.shutdown_mode

  -- What of the source has entered the first stage.
  abbrev pub Fed : (C → ℕ) → Main C → System C X → Type 0
  Fed v (submitting rest) p = entered v p + weigh v rest ≡ weigh v P.source
  Fed v (closing n) p = entered v p ≡ weigh v P.source
  Fed v failed p = Unit

  -- The stages before the one that `main` closes are down, with workers that returned `Ok`.
  abbrev pub Joined : Main C → (ℕ → System C X) → Type ℓ
  Joined (closing m) pools =
      (n : ℕ)
      → n < m
      → ((pools n).phase ≡ down)
        × ((i : ℕ) → i < (P.stages n).tasks → (pools n).workers i ≡ returned ok)
  Joined _ pools = Unit

  -- No line was lost, or a worker of the last stage has failed.
  abbrev pub Told : List C → System C X → Type ℓ
  Told lost p = (lost ≡ []) ⊎ ((i : ℕ) × (i < (P.stages P.last).tasks) × HasFailed (p.workers i))

  pub record IsSound (s : Run C W X) : Type ℓ where
    pub reached : (n : ℕ) → PoolReach n (s.pools n)
    pub fed : (v : C → ℕ) → Fed v s.main (s.pools 0)
    pub linked :
        (v : C → ℕ) (n : ℕ)
        → n < P.last
        → entered v (s.pools (suc n)) ≡ left (λ c. v (P.forward n c)) (s.pools n)
    pub sunk : (v : C → ℕ) → left v (s.pools P.last) ≡ weigh v s.written + weigh v s.lost
    pub joined : Joined s.main s.pools
    pub told : Told s.lost (s.pools P.last)

  -- Only the commands that entered matter.
  pub Fed-kept :
      (v : C → ℕ) (m : Main C) (p q : System C X)
      → entered v q ≡ entered v p
      → Fed v m p
      → Fed v m q
  Fed-kept v (submitting rest) p q e h = omega arith
  Fed-kept v (closing n) p q e h = e ∙ h
  Fed-kept v failed p q e h = tt

  -- A pool changes that is not joined.
  pub Joined-update :
      (m : Main C) (pools : ℕ → System C X) (k : ℕ) (p : System C X)
      → ((n : ℕ) → m ≡ closing n → ¬ (k < n))
      → Joined m pools
      → Joined m (update pools k p)
  Joined-update (submitting rest) pools k p open_ j = tt
  Joined-update failed pools k p open_ j = tt
  Joined-update (closing m) pools k p open_ j = λ n lt.
      rw (update_other pools {i = k} {j = n} p (λ e. open_ m refl (rw (← e) at lt))) (j n lt)

  -- A worker that executes a command is in no pool that is joined, and a running pool is none.
  pub busy-Joined :
      (m : Main C) (pools : ℕ → System C X) (k i : ℕ) {c : Command C} {r : Result X}
      → Joined m pools
      → i < (P.stages k).tasks
      → (pools k).workers i ≡ executes c r
      → (n : ℕ) → m ≡ closing n
      → ¬ (k < n)
  busy-Joined m pools k i j lt e n here before =
      let joined : Joined (closing n) pools = rw here at j in
      let over = (joined k before).1 i lt in cc

  pub running-Joined :
      (m : Main C) (pools : ℕ → System C X) (k : ℕ)
      → Joined m pools
      → (pools k).phase ≡ running
      → (n : ℕ) → m ≡ closing n
      → ¬ (k < n)
  running-Joined m pools k j e n here before =
      let joined : Joined (closing n) pools = rw here at j in let over = (joined k before).0 in cc

  -- A worker that has failed stays one.
  pub Told-step :
      (lost : List C) (p q : System C X)
      → ((i : ℕ) → HasFailed (p.workers i) → HasFailed (q.workers i))
      → Told lost p
      → Told lost q
  Told-step lost p q fail (inl none_lost) = inl none_lost
  Told-step lost p q fail (inr (i, lt, f)) = inr (i, lt, fail i f)

  pub Told-update :
      (lost : List C) (pools : ℕ → System C X) (k : ℕ) (p : System C X)
      → ((i : ℕ) → HasFailed ((pools k).workers i) → HasFailed (p.workers i))
      → Told lost (pools P.last)
      → Told lost (update pools k p P.last)
  Told-update lost pools k p fail told =
      Told-step lost (pools P.last) (update pools k p P.last)
        (λ i.
          update_each
            (λ n (q : System C X). HasFailed ((pools n).workers i) → HasFailed (q.workers i)) pools
            k p (λ n h. h) (fail i) P.last)
        told

  -- A step of one pool in which no command of a stage is submitted or executed.
  pub quiet-IsSound :
      {s : Run C W X} (k : ℕ) {p : System C X}
      → PoolStep P k (s.pools k) p
      → ((v : C → ℕ) → (entered v p ≡ entered v (s.pools k)) × (left v p ≡ left v (s.pools k)))
      → ((n : ℕ) → s.main ≡ closing n → ¬ (k < n))
      → ((i : ℕ) → HasFailed ((s.pools k).workers i) → HasFailed (p.workers i))
      → IsSound s
      → IsSound (record s { pools = update s.pools k p })
  quiet-IsSound {s} k {p} st same open_ fail v = record {
    reached = update_each PoolReach s.pools k p v.reached (later (v.reached k) st);
    fed = λ w. Fed-kept w s.main _ _ (update_view (entered w) s.pools k p (same w).0 0) (v.fed w);
    linked = λ w n lt.
        update_view (entered w) s.pools k p (same w).0 (suc n)
        ∙ v.linked w n lt
        ∙ sym (update_view (left (λ c. w (P.forward n c))) s.pools k p (same _).1 n);
    sunk = λ w. update_view (left w) s.pools k p (same w).1 P.last ∙ v.sunk w;
    joined = Joined-update s.main s.pools k p open_ v.joined;
    told = Told-update s.lost s.pools k p fail v.told;
  }

  pub submitted-IsSound :
      {s : Run C W X} {c : C} {rest : List C}
      → s.main ≡ submitting (c ∷ rest)
      → (s.pools 0).phase ≡ running
      → PoolStep P 0 (s.pools 0) (enqueued (user c) (s.pools 0))
      → IsSound s
      → IsSound (record s {
        main = submitting rest;
        pools = update s.pools 0 (enqueued (user c) (s.pools 0));
      })
  submitted-IsSound {s} {c} {rest} e ph st v =
      let p = enqueued (user c) (s.pools 0) in
      record {
        reached = update_each PoolReach s.pools 0 p v.reached (later (v.reached 0) st);
        fed = λ w.
            let before : Fed w (submitting (c ∷ rest)) (s.pools 0) = rw e at (v.fed w) in
            rw (update_same s.pools 0 p) (omega (arith, before, enqueued-entered w (s.pools 0) c));
        linked = λ w n lt.
            ap (entered w) (update_other s.pools {i = 0} {j = suc n} p (λ x. omega arith))
            ∙ v.linked w n lt
            ∙ sym (update_view (left (λ d. w (P.forward n d))) s.pools 0 p refl n);
        sunk = λ w. update_view (left w) s.pools 0 p refl P.last ∙ v.sunk w;
        joined = tt;
        told = Told-update s.lost s.pools 0 p (λ i h. h) v.told;
      }
