-- ===== src/Pipeline/Done.antt =====
-- What examples/pipeline.rs has done when `main` has closed all its stages.
use command_executor.Base.{
  ℕ, zero, suc, ◌≤◌, ◌<◌, ◌≡◌, refl, sym, ap, ◌∙◌, inl, inr, List, [], weigh, weigh-append, arith,
}
use command_executor.ThreadPool.{ShutdownMode, Reach, complete_pending, ok, returned, down, System}
use command_executor.ThreadPool.Commands.{commands_once_in_order}
use command_executor.ThreadPool.Shutdown.{pending_all_executed}
use command_executor.Pipeline.{
  Program, closing, Run, of_client, HasNoClients, IsStart, Reached, starts, moves,
}
use command_executor.Pipeline.Stages.{entered, left}
use command_executor.Pipeline.Accounts.{PoolReach, Fed, Joined, Told, IsSound}
use command_executor.Pipeline.Moves.{weigh-of_client, Move-IsSound}

module _ {ℓ} {C X : Type ℓ} {tasks capacity : ℕ} {mode : ShutdownMode} where
  -- A pool in which no command of a client was submitted has executed none.
  pub none-left :
      {p : System C X} → Reach tasks capacity mode p → HasNoClients p → (v : C → ℕ) → left v p ≡ 0
  none-left {p} r none v =
      let (in_order, within, executed) = commands_once_in_order r in
      weigh-of_client v p.completed (
        omega (
          arith,
          none,
          ap (weigh (of_client (λ _. 1))) in_order,
          weigh-append (of_client (λ _. 1)) p.taken p.queue,
          executed (of_client (λ _. 1)),
        ))

module _ {ℓ} {C W X : Type ℓ} (P : Program C W) where
  start-IsSound : {s : Run C W X} → IsStart P s → IsSound P s
  start-IsSound {s} h =
      let none : (v : C → ℕ) (n : ℕ) → entered v (s.pools n) ≡ 0 =
        λ v n. weigh-of_client v (s.pools n).submitted (h.no_commands n) in
      record {
        reached = h.reached;
        fed = λ v. rw h.at_main (omega (arith, none v 0));
        linked = λ v n lt.
            none v (suc n)
            ∙ sym (none-left (h.reached n) (h.no_commands n) (λ c. v (P.forward n c)));
        sunk = λ v.
            rw (h.none_written, h.none_lost)
              (none-left (h.reached P.last) (h.no_commands P.last) v);
        joined = rw h.at_main tt;
        told = inl h.none_lost;
      }

  pub Reached-IsSound : {s : Run C W X} → Reached P s → IsSound P s
  Reached-IsSound (starts h) = start-IsSound h
  Reached-IsSound (moves r m) = Move-IsSound P m (Reached-IsSound r)

module _ {ℓ} {C W : Type ℓ} (P : Program C W) where
  -- The payload with which a command of the stage `n` runs that began as one of the source.
  abbrev pub path : ℕ → C → C
  path zero c = c
  path (suc n) c = P.forward n (path n c)

module _ {ℓ} {C W X : Type ℓ} (P : Program C W)
    (modes : (n : ℕ) → (P.stages n).shutdown_mode ≡ complete_pending) where
  -- A stage that is down, with its threads ended, has executed what entered it.
  stage_finished :
      (n : ℕ) (p : System C X)
      → PoolReach P n p
      → p.phase ≡ down
      → ((i : ℕ) → i < (P.stages n).tasks → p.workers i ≡ returned ok)
      → (v : C → ℕ) → left v p ≡ entered v p
  stage_finished n p r ph over v =
      sym
        (pending_all_executed (rw (modes n) at r) ph (λ i lt. rw (over i lt) tt) (of_client v) refl)

  -- All that the source held has come through the stages that `main` has closed.
  pub come_through :
      {s : Run C W X} {m : ℕ}
      → IsSound P s
      → s.main ≡ closing m
      → (n : ℕ) → n < m
      → n ≤ P.last
      → (v : C → ℕ) → left v (s.pools n) ≡ weigh (λ c. v (path P n c)) P.source
  come_through {s} {m} w e zero lt le v =
      let joined : Joined P (closing m) s.pools = rw e at w.joined in
      let fed : Fed P v (closing m) (s.pools 0) = rw e at (w.fed v) in
      stage_finished 0 (s.pools 0) (w.reached 0) (joined 0 lt).0 (joined 0 lt).1 v ∙ fed
  come_through {s} {m} w e (suc n) lt le v =
      let joined : Joined P (closing m) s.pools = rw e at w.joined in
      stage_finished (suc n) (s.pools (suc n)) (w.reached (suc n)) (joined (suc n) lt).0
        (joined (suc n) lt).1 v
      ∙ w.linked v n (omega arith)
      ∙ come_through w e n (omega arith) (omega arith) (λ c. v (P.forward n c))

  -- No command of the last stage failed, since its workers returned `Ok`.
  none_lost :
      (lost : List C) (p : System C X)
      → Told P lost p
      → ((i : ℕ) → i < (P.stages P.last).tasks → p.workers i ≡ returned ok)
      → lost ≡ []
  none_lost lost p (inl none) over = none
  none_lost lost p (inr (i, lt, f)) over = absurd (rw (over i lt) at f)

  -- When `main` has closed all stages, the commands of the last stage have succeeded, each as often,
  -- with what the stages made of the source.
  pub all_passed :
      {s : Run C W X}
      → Reached P s
      → s.main ≡ closing (suc P.last)
      → (v : C → ℕ) → weigh v s.written ≡ weigh (λ c. v (path P P.last c)) P.source
  all_passed {s} r e v =
      let w : IsSound P s = Reached-IsSound P r in
      let joined : Joined P (closing (suc P.last)) s.pools = rw e at w.joined in
      omega (
        arith,
        w.sunk v,
        ap (weigh v) (none_lost s.lost (s.pools P.last) w.told (joined P.last (omega arith)).1),
        come_through w e P.last (omega arith) (omega arith) v,
      )
