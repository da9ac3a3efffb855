-- ===== src/Fetch/Gathered.antt =====
-- What the thread locals of examples/fetch_thread_local.rs hold when the first stage has ended.
use command_executor.Base.{
  ℕ, zero, suc, ◌<◌, ◌≡◌, refl, ap, ◌∙◌, List, [], ◌∷◌, ◌++◌, map, weigh, weigh-map, arith, update,
}
use mathlib.Core.List.{map-append}
use command_executor.ThreadPool.{complete_pending, user, Executed, succeeds}
use command_executor.Pipeline.{
  closing, Run, Move, worker_writes, worker_fails_to_write, Reached, starts, moves,
}
use command_executor.Pipeline.Done.{come_through, Reached-IsSound}
use command_executor.Pipeline.Alive.{Reached-IsAlive}
use command_executor.Pipeline.Numbers.{range}
use command_executor.Fetch.{HashSet, empty_set, insert, store, is_payload, one}
use command_executor.Fetch.Sets.{held, held_nothing, executed-held, IsKept}
use command_executor.Fetch.Stages.{stages, next_payload, store_numbers}

modes : (n : ℕ) → (stages n).shutdown_mode ≡ complete_pending
unfolding stages
modes zero = refl
modes (suc n) = refl

stored :
    (written : List ℕ) (locals : ℕ → HashSet) (i c x : ℕ)
    → i < 2
    → (0 < held 2 x (locals, empty_set) → 0 < weigh (one x) (map user written))
    → (0 < weigh (one x) (map user written) → 0 < held 2 x (locals, empty_set))
    → (0 < held 2 x (update locals i (insert c (locals i)), empty_set)
        → 0 < weigh (one x) (map user (written ++ (c ∷ []))))
      × (0 < weigh (one x) (map user (written ++ (c ∷ [])))
          → 0 < held 2 x (update locals i (insert c (locals i)), empty_set))
unfolding store
stored written locals i c x lt sound complete =
    let y : Executed ℕ = succeeds in
    rw map-append
      (executed-held 2 (map user written) (locals, empty_set) i (user c) y x lt sound complete)

module _ {X : Type 0} (count : ℕ) where
  -- The thread locals hold the payloads with which the second stage's commands have succeeded.
  record IsGathered (s : Run ℕ (ℕ → HashSet) X) : Type 0 where
    sound : (x : ℕ) → 0 < held 2 x (s.world, empty_set) → 0 < weigh (one x) (map user s.written)
    complete : (x : ℕ) → 0 < weigh (one x) (map user s.written) → 0 < held 2 x (s.world, empty_set)
    none_lost : s.lost ≡ []

  Move-IsGathered :
      {s t : Run ℕ (ℕ → HashSet) X} → Move (store_numbers count) s t → IsGathered s → IsGathered t
  unfolding stages
  Move-IsGathered {s} (worker_writes i {c} lt e) g = record {
    sound = λ x. (stored s.written s.world i c x lt (g.sound x) (g.complete x)).0;
    complete = λ x. (stored s.written s.world i c x lt (g.sound x) (g.complete x)).1;
    none_lost = g.none_lost;
  }
  Move-IsGathered (worker_fails_to_write i x may lt e) g = absurd (cc)
  Move-IsGathered _ g = record { sound = g.sound; complete = g.complete; none_lost = g.none_lost }

  Reached-IsGathered : {s : Run ℕ (ℕ → HashSet) X} → Reached (store_numbers count) s → IsGathered s
  Reached-IsGathered (starts h) = record {
    sound = λ x. rw (h.at_world, h.none_written) (λ some. absurd (omega (arith, held_nothing 2 x)));
    complete = λ x. rw (h.at_world, h.none_written) (λ some. absurd (omega arith));
    none_lost = h.none_lost;
  }
  Reached-IsGathered (moves r m) = Move-IsGathered m (Reached-IsGathered r)

  -- Executed commands of the second stage, and those with which its commands have succeeded.
  executed_written :
      {s : Run ℕ (ℕ → HashSet) X}
      → Reached (store_numbers count) s
      → (x : ℕ) → weigh (one x) (s.pools 1).completed ≡ weigh (one x) (map user s.written)
  executed_written {s} r x = omega (
    arith,
    (Reached-IsSound (store_numbers count) r).sunk (is_payload x),
    ap (weigh (is_payload x)) (Reached-IsGathered r).none_lost,
    weigh-map (one x) user s.written,
  )

  -- When the first stage has ended, the second is kept, and its commands are those of the source.
  pub second-IsKept :
      {s : Run ℕ (ℕ → HashSet) X}
      → Reached (store_numbers count) s
      → IsKept 2 (s.pools 1) (s.world, empty_set)
  second-IsKept {s} r = record {
    sound = λ x h. omega (arith, executed_written r x, (Reached-IsGathered r).sound x h);
    complete = λ x h. (Reached-IsGathered r).complete x (omega (arith, executed_written r x));
    at_barrier =
        λ i b y e. absurd (rw e at (((Reached-IsAlive (store_numbers count) r).pools_fit 1).fit i));
  }

  pub second_submitted :
      {s : Run ℕ (ℕ → HashSet) X}
      → Reached (store_numbers count) s
      → s.main ≡ closing 1
      → (x : ℕ) → weigh (one x) (s.pools 1).submitted ≡ weigh (is_payload x) (range 0 count)
  unfolding next_payload
  second_submitted {s} r e x =
      let v = Reached-IsSound (store_numbers count) r in
      v.linked (is_payload x) 0 (omega arith)
      ∙ come_through (store_numbers count) modes v e 0 (omega arith) (omega arith) (is_payload x)
