-- ===== src/CrossbeamBlockingQueue/Fifo.antt =====
-- Any number of threads on a queue of src/crossbeam_blocking_queue.rs: no retry loses an element or
-- enqueues it twice, and what goes in comes out in order.
use command_executor.Base.{
  ℕ, zero, suc, ◌+◌, ◌≤◌, ◌<◌, ◌≡◌, refl, sym, ap, ◌∙◌, Option, some, [], ◌∷◌, ◌++◌, append_assoc,
  length, weigh, weigh-append, arith, tally, tally-update, tally-eq-zero,
}
use command_executor.Duration.{Timer}
use command_executor.CrossbeamBlockingQueue.{
  Outcome, returned, retries, Offer, attempt_enqueue, attempt_dequeue, attempt_wait_empty,
}
use command_executor.CrossbeamBlockingQueue.Array.{ArrayQueue, IsArrayQueue}
use command_executor.CrossbeamBlockingQueue.System.{
  Thread, outside, enqueuing, dequeuing, waiting, System, accepts, refuses, delivers, land_enqueue,
  land_dequeue, land_wait_empty, moved, after_enqueue, after_dequeue, Step, calls_enqueue,
  calls_dequeue, calls_wait_empty, attempts_enqueue, attempts_dequeue, attempts_wait_empty, answers,
  Reach, start, later,
}
use command_executor.CrossbeamBlockingQueue.Attempts.{
  carried, Offers-in_order, Takes-in_order, Offers-carried, attempt_enqueue-Offers,
  attempt_dequeue-Takes,
}

module _ {ℓ κ} {E : Type ℓ} {S : Type κ} {A : ArrayQueue E S} (L : IsArrayQueue A) where
  -- The array holds what was accepted and not delivered; every element given to `try_enqueue` was
  -- accepted, came back, or is still offered.
  pub record IsSound (n size : ℕ) (s : System E S) : Type (ℓ ⊔ κ) where
    pub bounded : A.capacity s.array ≡ size
    pub within : length (L.contents s.array) ≤ size
    pub in_order : s.accepted ≡ s.delivered ++ L.contents s.array
    pub accounted :
        (w : E → ℕ)
        → weigh w s.given ≡ weigh w s.accepted + weigh w s.refused + tally (carried w) n s.threads

  -- A thread that offers nothing goes on without an offer.
  moved-IsSound :
      {n size : ℕ} {s : System E S} (i : ℕ) {a : Thread E} (b : Thread E)
      → i < n
      → s.threads i ≡ a
      → ((w : E → ℕ) → (carried w a ≡ 0) × (carried w b ≡ 0))
      → IsSound n size s
      → IsSound n size (moved s i b)
  moved-IsSound {n} {s = s} i b lt e idle v = record {
    bounded = v.bounded;
    within = v.within;
    in_order = v.in_order;
    accounted = λ w. omega (
      arith,
      v.accounted w,
      idle w,
      ap (carried w) e,
      tally-update (carried w) n i s.threads b lt,
    );
  }

  enqueued-IsSound :
      {n size : ℕ} {s : System E S} (i now restart : ℕ) {o : Offer E}
      → i < n
      → s.threads i ≡ enqueuing o
      → IsSound n size s
      → IsSound n size (after_enqueue s i o.e (attempt_enqueue A now restart o s.array))
  enqueued-IsSound {n} {size} {s} i now restart {o} lt e v =
      let g = attempt_enqueue A now restart o s.array in
      let (effect, same) = attempt_enqueue-Offers L now restart o s.array in
      let (moves, fits) = Offers-in_order _ o.e _ _ g.0 effect (rw v.bounded v.within) in
      record {
        bounded = same ∙ v.bounded;
        within = rw v.bounded at fits;
        in_order = rw v.in_order (
            append_assoc s.delivered (L.contents s.array) (accepts o.e g.0)
            ∙ ap (◌++◌ s.delivered) moves);
        accounted = λ w. omega (
          arith,
          v.accounted w,
          ap (carried w) e,
          Offers-carried w _ o.e _ _ g.0 effect,
          weigh-append w s.accepted (accepts o.e g.0),
          weigh-append w s.refused (refuses g.0),
          tally-update (carried w) n i s.threads (land_enqueue g.0) lt,
        );
      }

  dequeued-IsSound :
      {n size : ℕ} {s : System E S} (i now restart : ℕ) {w : Timer}
      → i < n
      → s.threads i ≡ dequeuing w
      → IsSound n size s
      → IsSound n size (after_dequeue s i (attempt_dequeue A now restart w s.array))
  dequeued-IsSound {n} {size} {s} i now restart {w} lt e v =
      let g = attempt_dequeue A now restart w s.array in
      let (effect, same) = attempt_dequeue-Takes L now restart w s.array in
      let (moves, fits) = Takes-in_order _ _ g.0 effect in
      record {
        bounded = same ∙ v.bounded;
        within = omega (arith, v.within, fits);
        in_order =
            v.in_order
            ∙ ap (◌++◌ s.delivered) moves
            ∙ sym (append_assoc s.delivered (delivers g.0) (L.contents g.1));
        accounted = λ weight. omega (
          arith,
          v.accounted weight,
          ap (carried weight) e,
          land_dequeue-carried weight g.0,
          tally-update (carried weight) n i s.threads (land_dequeue g.0) lt,
        );
      }
    where
      land_dequeue-carried :
          (weight : E → ℕ) (o : Outcome Timer (Option E)) → carried weight (land_dequeue o) ≡ 0
      land_dequeue-carried weight (returned r) = refl
      land_dequeue-carried weight (retries w) = refl

  land_wait_empty-carried :
      (weight : E → ℕ) (o : Outcome Timer (Unit {0})) → carried weight (land_wait_empty o) ≡ 0
  land_wait_empty-carried weight (returned r) = refl
  land_wait_empty-carried weight (retries w) = refl

  pub Step-IsSound :
      {n size : ℕ} {s t : System E S} → Step A n s t → IsSound n size s → IsSound n size t
  Step-IsSound {n} {s = s} (calls_enqueue i e timeout now lt h) v = record {
    bounded = v.bounded;
    within = v.within;
    in_order = v.in_order;
    accounted = λ w. omega (
      arith,
      v.accounted w,
      ap (carried w) h,
      weigh-append w s.given (e ∷ []),
      tally-update (carried w) n i s.threads (enqueuing _) lt,
    );
  }
  Step-IsSound (calls_dequeue i timeout now lt h) v =
      moved-IsSound i (dequeuing _) lt h (λ w. (refl, refl)) v
  Step-IsSound (calls_wait_empty i timeout now lt h) v =
      moved-IsSound i (waiting _) lt h (λ w. (refl, refl)) v
  Step-IsSound (attempts_enqueue i now restart lt h) v = enqueued-IsSound i now restart lt h v
  Step-IsSound (attempts_dequeue i now restart lt h) v = dequeued-IsSound i now restart lt h v
  Step-IsSound {s = s} (attempts_wait_empty i now restart {w} lt h) v =
      moved-IsSound i _ lt h
        (λ weight.
          (refl, land_wait_empty-carried weight (attempt_wait_empty A now restart w s.array)))
        v
  Step-IsSound (answers i lt h) v = moved-IsSound i outside lt h (λ w. (refl, refl)) v

  -- The array that `new` makes.
  new-contents :
      (size : ℕ) {a : S} → A.new size ≡ some a → (L.contents a ≡ []) × (A.capacity a ≡ size)
  new-contents zero e = let refused = L.new_refuses in absurd (cc)
  new-contents (suc m) {a} e =
      let (made, is_made, none_in, size) = L.new_makes (suc m) (omega arith) in
      let same : made ≡ a = let both = is_made in cc in (rw (← same) none_in, rw (← same) size)

  pub Reach-IsSound : {n size : ℕ} {s : System E S} → Reach A n size s → IsSound n size s
  Reach-IsSound {n} {size} (start {a} e) =
      let (none_in, same) = new-contents size e in
      record {
        bounded = same;
        within = rw none_in (omega arith);
        in_order = sym none_in;
        accounted =
            λ w. omega (arith, tally-eq-zero (carried w) n (λ _. Thread.outside) (λ i lt. refl));
      }
  Reach-IsSound (later r st) = Step-IsSound st (Reach-IsSound r)

  -- Over an `ArrayQueue` that does what its documentation says, after any interleaving of calls and
  -- attempts by `n` threads on a queue of a given size: the elements accepted are, in order, those
  -- delivered and then those in the array; the array holds no more than the size; and, however
  -- elements are counted, those given to `try_enqueue` are those accepted, those given back to their
  -- callers, and those that a thread still offers.
  pub retries_keep_elements :
      {n size : ℕ} {s : System E S}
      → Reach A n size s
      → (s.accepted ≡ s.delivered ++ L.contents s.array)
        × (length (L.contents s.array) ≤ size)
        × ((w : E → ℕ)
            → weigh w s.given
              ≡ weigh w s.accepted + weigh w s.refused + tally (carried w) n s.threads)
  retries_keep_elements r = let v = Reach-IsSound r in (v.in_order, v.within, v.accounted)
