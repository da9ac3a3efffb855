-- ===== src/BlockingQueue/Waits.antt =====
-- The wait loops of src/blocking_queue.rs over a script of what each `wait_timeout` returns: when a
-- call gives up, and that it does not wait for ever while the clock runs.
use command_executor.Base.{
  All, ℕ, ◌+◌, ◌-◌, ◌≤◌, ◌<◌, ◌≡◌, refl, ◌∙◌, ap, ◌⊎◌, inl, inr, Bool, true, false, Option, none,
  some, List, [], ◌∷◌, length, arith,
}
use command_executor.Duration.{Timer, elapsed, after_wait}
use command_executor.BlockingQueue.{
  BlockingQueue, Outcome, returned, waits, Segment, enqueue_loop, try_enqueue, resume_enqueue,
  dequeue_loop, try_dequeue, resume_dequeue, wait_empty_loop, wait_empty, resume_wait_empty,
}

-- What a thread finds when `wait_timeout` returns: whether that reports a timeout, the two readings
-- of the clock, and the queue as the other threads left it.
pub record Wake {ℓ} (E : Type ℓ) : Type ℓ where
  pub timed_out : Bool
  pub now : ℕ
  pub restart : ℕ
  pub queue : BlockingQueue E

module _ {ℓ κ} {E : Type ℓ} {R : Type κ} where
  -- A call through a number of waits; it ends when it returns, or when the script does.
  pub drive : (Wake E → Timer → Segment E R) → Segment E R → List (Wake E) → Segment E R
  drive resume g [] = g
  drive resume g (x ∷ xs) = elim g.outcome [
    | returned r ↦ g
    | waits v w ↦ drive resume (resume x w) xs
  ]

  pub drive_returned :
      (resume : Wake E → Timer → Segment E R) (g : Segment E R) (xs : List (Wake E)) {r : R}
      → g.outcome ≡ returned r
      → drive resume g xs ≡ g
  unfolding drive
  drive_returned resume g [] e = refl
  drive_returned resume g (x ∷ xs) e = simp (e, drive)

module _ {ℓ} {E : Type ℓ} where
  unfoldable pub run_enqueue : E → ℕ → ℕ → BlockingQueue E → List (Wake E) → Segment E (Option E)
  unfolding drive
  run_enqueue e timeout now q =
      drive (λ x w. resume_enqueue e x.timed_out x.now x.restart w x.queue)
        (try_enqueue e timeout now q)

  unfoldable pub run_dequeue : ℕ → ℕ → BlockingQueue E → List (Wake E) → Segment E (Option E)
  unfolding drive
  run_dequeue timeout now q =
      drive (λ x w. resume_dequeue x.timed_out x.now x.restart w x.queue)
        (try_dequeue timeout now q)

  unfoldable pub run_wait_empty : ℕ → ℕ → BlockingQueue E → List (Wake E) → Segment E Bool
  unfolding drive
  run_wait_empty timeout now q =
      drive (λ x w. resume_wait_empty x.timed_out x.now x.restart w x.queue)
        (wait_empty timeout now q)

  -- Between two waits the clock moves on by at least one unit.
  abbrev pub Advances : ℕ → List (Wake E) → Type 0
  Advances start [] = Unit
  Advances start (x ∷ xs) = (start < x.now) × Advances x.restart xs

  -- No wait reports a timeout.
  abbrev pub Untimed : List (Wake E) → Type 0
  Untimed [] = Unit
  Untimed (x ∷ xs) = (x.timed_out ≡ false) × Untimed xs

  -- The time that the loop counts.
  abbrev pub spent : ℕ → List (Wake E) → ℕ
  spent start [] = 0
  spent start (x ∷ xs) = (x.now - start) + spent x.restart xs

-- A wait that ended by its timeout, or after it, ends the loop; any other goes round again.
module _ {ℓ} {E : Type ℓ} (timed_out : Bool) (now restart : ℕ) (w : Timer) where
  pub resume_enqueue-over :
      (e : E) (q : BlockingQueue E)
      → after_wait timed_out now restart w ≡ none
      → resume_enqueue e timed_out now restart w q
        ≡ record { queue = q; signals = []; outcome = returned (some e) }
  unfolding resume_enqueue
  resume_enqueue-over e q gone = rw (gone, resume_enqueue)

  pub resume_dequeue-over :
      (q : BlockingQueue E)
      → after_wait timed_out now restart w ≡ none
      → resume_dequeue timed_out now restart w q
        ≡ record { queue = q; signals = []; outcome = returned none }
  unfolding resume_dequeue
  resume_dequeue-over q gone = rw (gone, resume_dequeue)

  pub resume_wait_empty-over :
      (q : BlockingQueue E)
      → after_wait timed_out now restart w ≡ none
      → resume_wait_empty timed_out now restart w q
        ≡ record { queue = q; signals = []; outcome = returned q.flags.empty }
  unfolding resume_wait_empty
  resume_wait_empty-over q gone = rw (gone, resume_wait_empty)

  module _ (w' : Timer) (q : BlockingQueue E)
      (again : after_wait timed_out now restart w ≡ some w') where
    pub resume_enqueue-again :
        (e : E) → resume_enqueue e timed_out now restart w q ≡ enqueue_loop e w' q
    unfolding resume_enqueue
    resume_enqueue-again e = rw (again, resume_enqueue)

    pub resume_dequeue-again : resume_dequeue timed_out now restart w q ≡ dequeue_loop w' q
    unfolding resume_dequeue
    resume_dequeue-again = rw (again, resume_dequeue)

    pub resume_wait_empty-again : resume_wait_empty timed_out now restart w q ≡ wait_empty_loop w' q
    unfolding resume_wait_empty
    resume_wait_empty-again = rw (again, resume_wait_empty)

-- What the rest of the loop goes on with.
after_wait-some :
    (timed_out : Bool) (now restart : ℕ) (w w' : Timer)
    → after_wait timed_out now restart w ≡ some w'
    → (elapsed w now < w.t) × (w'.t ≡ w.t - elapsed w now) × (w'.start ≡ restart)
unfolding after_wait
after_wait-some true now restart w w' e = cc
after_wait-some false now restart w w' e = ground arith

after_wait-none :
    (now restart : ℕ) (w : Timer) → after_wait false now restart w ≡ none → w.t ≤ elapsed w now
unfolding after_wait
after_wait-none now restart w e = ground arith

pub Outcome-cases {κ} :
    {R : Type κ} (o : Outcome R)
    → ((r : R) × (o ≡ returned r)) ⊎ ((v : _) × (w : Timer) × (o ≡ waits v w))
Outcome-cases (returned r) = inl (r, refl)
Outcome-cases (waits v w) = inr (v, w, refl)

module _ {ℓ κ} {E : Type ℓ} {R : Type κ} (resume : Wake E → Timer → Segment E R) where
  -- A call that waits again has counted down its timer.
  abbrev pub CountsDown : Type (ℓ ⊔ κ)
  CountsDown =
      (x : Wake E) (w : Timer) (v : _) (w' : Timer)
      → (resume x w).outcome ≡ waits v w'
      → after_wait x.timed_out x.now x.restart w ≡ some w'

  pub drive_ends :
      CountsDown
      → (xs : List (Wake E)) (g : Segment E R) (v : _) (w : Timer) → g.outcome ≡ waits v w
      → Advances w.start xs
      → 0 < length xs
      → w.t ≤ length xs
      → (r : R) × ((drive resume g xs).outcome ≡ returned r)
  unfolding drive
  drive_ends down [] g v w e a p h = absurd (omega arith)
  drive_ends down (x ∷ xs) g v w e a p h = elim (Outcome-cases (resume x w).outcome) [
    | inl (r, done) ↦ (
      r,
      rw (e, drive) (ap (λ (s : Segment E R). s.outcome) (drive_returned resume _ xs done) ∙ done),
    )
    | inr (v', w', more) ↦
        let (left, t, start) =
          after_wait-some x.timed_out x.now x.restart w w' (down x w v' w' more) in
        let (r, done) =
          drive_ends down xs (resume x w) v' w' more (rw start a.1) (omega arith) (omega arith) in
        (r, rw (e, drive) done)
  ]

  -- What `Bad` says of an outcome can only come from a loop whose time is up.
  pub drive_patient {κ'} :
      (Bad : Outcome R → Type κ')
      → ((v : _) (w : Timer) → Bad (waits v w) → ⊥)
      → CountsDown
      → (Good : Wake E → Type 0)
      → ((x : Wake E) (w : Timer)
          → Good x
          → Bad (resume x w).outcome
          → after_wait x.timed_out x.now x.restart w ≡ none)
      → (xs : List (Wake E)) (g : Segment E R) (v : _) (w : Timer) → g.outcome ≡ waits v w
      → All Good xs
      → Untimed xs
      → spent w.start xs < w.t
      → Bad (drive resume g xs).outcome
      → ⊥
  unfolding drive
  drive_patient Bad waiting down Good over [] g v w e good u h b = waiting v w (rw e at b)
  drive_patient Bad waiting down Good over (x ∷ xs) g v w e good u h b =
      elim (Outcome-cases (resume x w).outcome) [
        | inl (r, done) ↦ in_time (over x w good.0 (rw (ended r done) at b'))
        | inr (v', w', more) ↦
            let (left, t, start) =
              after_wait-some x.timed_out x.now x.restart w w' (down x w v' w' more) in
            drive_patient Bad waiting down Good over xs (resume x w) v' w' more good.1 u.1
              (rw start (omega arith)) b'
      ]
    where
      b' : Bad (drive resume (resume x w) xs).outcome
      b' = rw (e, drive) at b

      ended :
          (r : R)
          → (resume x w).outcome ≡ returned r
          → (drive resume (resume x w) xs).outcome ≡ (resume x w).outcome
      ended r done = ap (λ (s : Segment E R). s.outcome) (drive_returned resume _ xs done)

      in_time : ¬ (after_wait x.timed_out x.now x.restart w ≡ none)
      in_time gone = absurd (omega (arith, after_wait-none x.now x.restart w (rw u.0 at gone)))
