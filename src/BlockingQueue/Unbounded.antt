-- ===== src/BlockingQueue/Unbounded.antt =====
-- A queue of src/blocking_queue.rs that is made with capacity 0.
use command_executor.Base.{
  ℕ, ◌≡◌, refl, sym, ◌∙◌, ap, append-nil, false, List, [], ◌∷◌, ◌++◌, length-snoc, arith,
  append_assoc,
}
use command_executor.BlockingQueue.{BlockingQueue, new, push_element, try_enqueue}

module _ {ℓ} {E : Type ℓ} where
  -- Enqueue the elements one after the other.
  pub enqueue_all : List E → ℕ → ℕ → BlockingQueue E → BlockingQueue E
  enqueue_all [] timeout now q = q
  enqueue_all (e ∷ es) timeout now q =
      enqueue_all es timeout now (try_enqueue e timeout now q).queue

  -- A queue of capacity 0 whose flag `full` is down.
  record IsOpen (q : BlockingQueue E) : Type 0 where
    none_fit : q.capacity ≡ 0
    not_full : q.flags.full ≡ false

  push-IsOpen :
      (e : E) (q : BlockingQueue E)
      → IsOpen q
      → IsOpen (push_element e q).queue
        × ((push_element e q).queue.elements ≡ q.elements ++ (e ∷ []))
  unfolding push_element
  push-IsOpen e q v = ground (arith, length-snoc q.elements e)

  try_enqueue-push :
      (e : E) (timeout now : ℕ) (q : BlockingQueue E)
      → q.flags.full ≡ false
      → try_enqueue e timeout now q ≡ push_element e q
  unfolding try_enqueue
  try_enqueue-push e timeout now q h = simp h

  enqueue_all-IsOpen :
      (es : List E) (timeout now : ℕ) (q : BlockingQueue E)
      → IsOpen q
      → (enqueue_all es timeout now q).elements ≡ q.elements ++ es
  unfolding enqueue_all
  enqueue_all-IsOpen [] timeout now q v = sym (append-nil q.elements)
  enqueue_all-IsOpen (e ∷ es) timeout now q v =
      let (open_still, pushed) = push-IsOpen e q v in
      rw (enqueue_all, try_enqueue-push e timeout now q v.not_full)
        (enqueue_all-IsOpen es timeout now (push_element e q).queue open_still
          ∙ ap (λ xs. xs ++ es) pushed
          ∙ append_assoc q.elements (e ∷ []) es)

  -- A queue made with capacity 0 is never full: it takes any number of elements, one after the other.
  pub zero_capacity_unbounded :
      (es : List E) (timeout now : ℕ) → (enqueue_all es timeout now (new 0)).elements ≡ es
  unfolding new
  zero_capacity_unbounded es timeout now =
      enqueue_all-IsOpen es timeout now (new 0) (record { none_fit = refl; not_full = refl })
