-- ===== src/BlockingQueue/Loop.antt =====
-- What the wait loops of src/blocking_queue.rs have in common: they end, and not too early.
use command_executor.Base.{
  All, ℕ, ◌<◌, ◌≡◌, ap, ◌∙◌, inl, inr, none, some, List, length, arith, Option-cases,
}
use command_executor.Duration.{Timer, start_timer, after_wait}
use command_executor.BlockingQueue.{BlockingQueue, Condvar, Outcome, returned, waits, Segment}
use command_executor.BlockingQueue.Waits.{
  Wake, drive, drive_returned, Advances, Untimed, spent, Outcome-cases, CountsDown, drive_ends,
  drive_patient,
}

-- What the three loops have in common.
pub record IsLoop {ℓ κ} {E : Type ℓ} {R : Type κ} (resume : Wake E → Timer → Segment E R)
    (give_up : BlockingQueue E → Segment E R) (retry : Timer → BlockingQueue E → Segment E R)
    : Type (ℓ ⊔ κ) where
  pub over :
      (x : Wake E) (w : Timer)
      → after_wait x.timed_out x.now x.restart w ≡ none
      → resume x w ≡ give_up x.queue
  pub again :
      (x : Wake E) (w w' : Timer)
      → after_wait x.timed_out x.now x.restart w ≡ some w'
      → resume x w ≡ retry w' x.queue
  pub gives_up : (q : BlockingQueue E) → (r : R) × ((give_up q).outcome ≡ returned r)
  pub waits_with :
      (w : Timer) (q : BlockingQueue E) (v : Condvar) (w' : Timer)
      → (retry w q).outcome ≡ waits v w'
      → w ≡ w'

module _ {ℓ κ} {E : Type ℓ} {R : Type κ} {resume : Wake E → Timer → Segment E R}
    {give_up : BlockingQueue E → Segment E R} {retry : Timer → BlockingQueue E → Segment E R}
    (l : IsLoop resume give_up retry) where
  pub counts_down : CountsDown resume
  counts_down x w v w' h = elim (Option-cases (after_wait x.timed_out x.now x.restart w)) [
    | inl gone ↦
        let (r, done) = l.gives_up x.queue in
        let clash : ◌≡◌ {A = Outcome R} (returned r) (waits v w') =
          rw (l.over x w gone, done) at h in
        cc
    | inr (w₁, more) ↦ more ∙ ap some (l.waits_with w₁ x.queue v w' (rw (l.again x w w₁ more) at h))
  ]

  pub loop_ends :
      (timeout now : ℕ) (q : BlockingQueue E) (xs : List (Wake E))
      → Advances now xs
      → timeout < length xs
      → (r : R) × ((drive resume (retry (start_timer timeout now) q) xs).outcome ≡ returned r)
  loop_ends timeout now q xs a h =
      let g = retry (start_timer timeout now) q in
      elim (Outcome-cases g.outcome) [
        | inl (r, done) ↦ (r, rw (drive_returned resume g xs done) done)
        | inr (v, w, wait) ↦
            let same : start_timer timeout now ≡ w = l.waits_with _ q v w wait in
            drive_ends resume counts_down xs g v w wait (rw (← same) a) (omega arith)
              (rw (← same) (omega arith))
      ]

  pub loop_patient {κ'} :
      (Bad : Outcome R → Type κ')
      → ((v : Condvar) (w : Timer) → ¬ Bad (waits v w))
      → (Good : BlockingQueue E → Type 0)
      → ((w : Timer) (q : BlockingQueue E) → Good q → ¬ Bad (retry w q).outcome)
      → (timeout now : ℕ) (q : BlockingQueue E) (xs : List (Wake E)) → Good q
      → All (λ x. Good x.queue) xs
      → Untimed xs
      → spent now xs < timeout
      → ¬ Bad (drive resume (retry (start_timer timeout now) q) xs).outcome
  loop_patient Bad waiting Good fine timeout now q xs good all u h b =
      let g = retry (start_timer timeout now) q in
      elim (Outcome-cases g.outcome) [
        | inl (r, done) ↦ fine _ q good (rw (drive_returned resume g xs done) at b)
        | inr (v, w, wait) ↦
            let same : start_timer timeout now ≡ w = l.waits_with _ q v w wait in
            drive_patient resume Bad waiting counts_down (λ x. Good x.queue) late xs g v w wait all
              u (rw (← same) h) b
      ]
    where
      late :
          (x : Wake E) (w : Timer)
          → Good x.queue
          → Bad (resume x w).outcome
          → after_wait x.timed_out x.now x.restart w ≡ none
      late x w ok bad = elim (Option-cases (after_wait x.timed_out x.now x.restart w)) [
        | inl gone ↦ gone
        | inr (w₁, more) ↦ absurd (fine w₁ x.queue ok (rw (l.again x w w₁ more) at bad))
      ]
