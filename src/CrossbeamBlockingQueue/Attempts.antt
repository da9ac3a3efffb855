-- ===== src/CrossbeamBlockingQueue/Attempts.antt =====
-- What one attempt of src/crossbeam_blocking_queue.rs does to the queue and to its element.
use command_executor.Base.{
  ℕ, ◌+◌, ◌≤◌, ◌<◌, ◌≡◌, sym, ap, ◌∙◌, inl, inr, Option, none, some, List, [], ◌∷◌, ◌++◌,
  append-nil, length, length-snoc, weigh, arith, Option-cases,
}
use command_executor.Duration.{Timer, count_down}
use command_executor.CrossbeamBlockingQueue.{
  Outcome, returned, retries, Offer, go_round, after_push, after_pop, attempt_enqueue,
  attempt_dequeue,
}
use command_executor.CrossbeamBlockingQueue.Array.{ArrayQueue, Pushes, Pops, IsArrayQueue}
use command_executor.CrossbeamBlockingQueue.System.{
  Thread, enqueuing, accepts, refuses, delivers, land_enqueue,
}

module _ {ℓ} {E : Type ℓ} where
  -- An attempt to enqueue `e`, from `xs` to `ys`: it goes to the back, where there is room, or the
  -- queue is full and the caller or the loop still has it.
  abbrev pub Offers : ℕ → E → List E → Outcome (Offer E) (Option E) → List E → Type ℓ
  Offers capacity e xs (returned none) ys = (length xs < capacity) × (ys ≡ xs ++ (e ∷ []))
  Offers capacity e xs (returned (some e')) ys = (e' ≡ e) × (capacity ≤ length xs) × (ys ≡ xs)
  Offers capacity e xs (retries o) ys = (o.e ≡ e) × (capacity ≤ length xs) × (ys ≡ xs)

  -- An attempt to dequeue: the front leaves, or there is none.
  abbrev pub Takes : List E → Outcome Timer (Option E) → List E → Type ℓ
  Takes xs (returned none) ys = (xs ≡ []) × (ys ≡ xs)
  Takes xs (returned (some x)) ys = xs ≡ x ∷ ys
  Takes xs (retries w) ys = (xs ≡ []) × (ys ≡ xs)

  after_push-Offers :
      (now restart : ℕ) (w : Timer) (capacity : ℕ) (e : E) (xs ys : List E) (r : Option E)
      → Pushes capacity e xs r ys
      → Offers capacity e xs (after_push now restart w r) ys
  unfolding after_push go_round
  after_push-Offers now restart w capacity e xs ys none h = h
  after_push-Offers now restart w capacity e xs ys (some e') h =
      elim (Option-cases (count_down now restart w)) [
        | inl gone ↦ rw (gone, go_round) h
        | inr (w', more) ↦ rw (more, go_round) h
      ]

  after_pop-Takes :
      (now restart : ℕ) (w : Timer) (xs ys : List E) (r : Option E)
      → Pops xs r ys
      → Takes xs (after_pop now restart w r) ys
  unfolding after_pop go_round
  after_pop-Takes now restart w xs ys (some x) h = h
  after_pop-Takes now restart w xs ys none h = elim (Option-cases (count_down now restart w)) [
    | inl gone ↦ rw (gone, go_round) h
    | inr (w', more) ↦ rw (more, go_round) h
  ]

  -- The number of the element that a thread still offers.
  abbrev pub carried : (E → ℕ) → Thread E → ℕ
  carried w (enqueuing o) = w o.e
  carried w _ = 0

  -- What an attempt does to the history of the queue.
  pub Offers-in_order :
      (capacity : ℕ) (e : E) (xs ys : List E) (o : Outcome (Offer E) (Option E))
      → Offers capacity e xs o ys
      → length xs ≤ capacity
      → (xs ++ accepts e o ≡ ys) × (length ys ≤ capacity)
  Offers-in_order capacity e xs ys (returned none) h le =
      (sym h.1, rw h.1 (omega (arith, length-snoc xs e)))
  Offers-in_order capacity e xs ys (returned (some e')) h le = (append-nil xs ∙ sym h.2, rw h.2 le)
  Offers-in_order capacity e xs ys (retries o) h le = (append-nil xs ∙ sym h.2, rw h.2 le)

  pub Takes-in_order :
      (xs ys : List E) (o : Outcome Timer (Option E))
      → Takes xs o ys
      → (xs ≡ delivers o ++ ys) × (length ys ≤ length xs)
  Takes-in_order xs ys (returned none) h = (sym h.1, rw h.1 (omega arith))
  Takes-in_order xs ys (returned (some x)) h = (h, rw h (omega arith))
  Takes-in_order xs ys (retries w) h = (sym h.1, rw h.1 (omega arith))

  -- An attempt hands the element on to the queue, to its caller, or to the next round.
  pub Offers-carried :
      (w : E → ℕ) (capacity : ℕ) (e : E) (xs ys : List E) (o : Outcome (Offer E) (Option E))
      → Offers capacity e xs o ys
      → weigh w (accepts e o) + weigh w (refuses o) + carried w (land_enqueue o) ≡ w e
  Offers-carried w capacity e xs ys (returned none) h = omega arith
  Offers-carried w capacity e xs ys (returned (some e')) h = omega (arith, ap w h.0)
  Offers-carried w capacity e xs ys (retries o) h = omega (arith, ap w h.0)

module _ {ℓ κ} {E : Type ℓ} {S : Type κ} {A : ArrayQueue E S} (L : IsArrayQueue A) where
  pub attempt_enqueue-Offers :
      (now restart : ℕ) (o : Offer E) (a : S)
      → let g = attempt_enqueue A now restart o a in
        Offers (A.capacity a) o.e (L.contents a) g.0 (L.contents g.1)
        × (A.capacity g.1 ≡ A.capacity a)
  unfolding attempt_enqueue
  attempt_enqueue-Offers now restart o a = (
    after_push-Offers now restart o.timer _ _ _ _ (A.push o.e a).0 (L.push_effect o.e a),
    L.push_capacity o.e a,
  )

  pub attempt_dequeue-Takes :
      (now restart : ℕ) (w : Timer) (a : S)
      → let g = attempt_dequeue A now restart w a in
        Takes (L.contents a) g.0 (L.contents g.1) × (A.capacity g.1 ≡ A.capacity a)
  unfolding attempt_dequeue
  attempt_dequeue-Takes now restart w a =
      (after_pop-Takes now restart w _ _ (A.pop a).0 (L.pop_effect a), L.pop_capacity a)
