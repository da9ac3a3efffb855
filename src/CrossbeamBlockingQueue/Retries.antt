-- ===== src/CrossbeamBlockingQueue/Retries.antt =====
-- The loops of src/crossbeam_blocking_queue.rs over a script of the moments at which they try: they
-- end, and they do not give up before their time.
use command_executor.Base.{
  All, ℕ, ◌+◌, ◌-◌, ◌≤◌, ◌<◌, ◌≡◌, refl, ◌⊎◌, inl, inr, Option, none, some, List, [], ◌∷◌, length,
  arith, Option-cases,
}
use command_executor.Duration.{Timer, elapsed, count_down}
use command_executor.CrossbeamBlockingQueue.{
  Outcome, returned, retries, Offer, go_round, try_enqueue, attempt_enqueue, try_dequeue,
  attempt_dequeue, wait_empty, attempt_wait_empty,
}
use command_executor.CrossbeamBlockingQueue.Array.{ArrayQueue}

-- What an attempt finds: the array as the other threads left it, and the two readings of the clock
-- that follow.
pub record Moment {ℓ} (S : Type ℓ) : Type ℓ where
  pub array : S
  pub now : ℕ
  pub restart : ℕ

module _ {ℓ} {S : Type ℓ} where
  -- Between two attempts the clock moves on by at least one unit.
  abbrev pub Advances : ℕ → List (Moment S) → Type 0
  Advances start [] = Unit
  Advances start (m ∷ ms) = (start < m.now) × Advances m.restart ms

  -- The time that the loop counts.
  abbrev pub spent : ℕ → List (Moment S) → ℕ
  spent start [] = 0
  spent start (m ∷ ms) = (m.now - start) + spent m.restart ms

  -- The loop through a number of attempts; it ends when it returns, or when the script does.
  pub drive {κ κ'} :
      {L : Type κ} {R : Type κ'} → (Moment S → L → Outcome L R) → L → List (Moment S) → Outcome L R
  drive attempt l [] = retries l
  drive attempt l (m ∷ ms) = elim (attempt m l) [
    | returned r ↦ returned r
    | retries l' ↦ drive attempt l' ms
  ]

module _ {ℓ κ} {E : Type ℓ} {S : Type κ} (A : ArrayQueue E S) where
  unfoldable pub run_enqueue : E → ℕ → ℕ → List (Moment S) → Outcome (Offer E) (Option E)
  unfolding drive
  run_enqueue e timeout now =
      drive (λ m o. (attempt_enqueue A m.now m.restart o m.array).0) (try_enqueue e timeout now)

  unfoldable pub run_dequeue : ℕ → ℕ → List (Moment S) → Outcome Timer (Option E)
  unfolding drive
  run_dequeue timeout now =
      drive (λ m w. (attempt_dequeue A m.now m.restart w m.array).0) (try_dequeue timeout now)

  -- The loop of `wait_empty`, without its last reading.
  unfoldable pub run_wait_empty : ℕ → ℕ → List (Moment S) → Outcome Timer (Unit {0})
  unfolding drive
  run_wait_empty timeout now =
      drive (λ m w. attempt_wait_empty A m.now m.restart w m.array) (wait_empty timeout now)

count_down-some :
    (now restart : ℕ) (w w' : Timer)
    → count_down now restart w ≡ some w'
    → (elapsed w now < w.t) × (w'.t ≡ w.t - elapsed w now) × (w'.start ≡ restart)
unfolding count_down
count_down-some now restart w w' e = ground arith

count_down-none :
    (now restart : ℕ) (w : Timer) → count_down now restart w ≡ none → w.t ≤ elapsed w now
unfolding count_down
count_down-none now restart w e = ground arith

Outcome-cases {κ κ'} :
    {L : Type κ} {R : Type κ'} (o : Outcome L R)
    → ((r : R) × (o ≡ returned r)) ⊎ ((l : L) × (o ≡ retries l))
Outcome-cases (returned r) = inl (r, refl)
Outcome-cases (retries l) = inr (l, refl)

module _ {ℓ κ κ'} {S : Type ℓ} {L : Type κ} {R : Type κ'} (timer : L → Timer)
    (attempt : Moment S → L → Outcome L R) where
  -- An attempt that goes round has counted down its timer.
  abbrev pub CountsDown : Type (ℓ ⊔ κ ⊔ κ')
  CountsDown =
      (m : Moment S) (l l' : L)
      → attempt m l ≡ retries l'
      → count_down m.now m.restart (timer l) ≡ some (timer l')

  pub drive_ends :
      CountsDown
      → (ms : List (Moment S)) (l : L) → Advances (timer l).start ms
      → (timer l).t < length ms
      → (r : R) × (drive attempt l ms ≡ returned r)
  unfolding drive
  drive_ends down [] l a h = absurd (omega arith)
  drive_ends down (m ∷ ms) l a h = elim (Outcome-cases (attempt m l)) [
    | inl (r, done) ↦ (r, rw (done, drive) refl)
    | inr (l', more) ↦
        let (left, t, start) =
          count_down-some m.now m.restart (timer l) (timer l') (down m l l' more) in
        let (r, done) = drive_ends down ms l' (rw start a.1) (omega arith) in
        (r, rw (more, drive) done)
  ]

  -- What `Bad` says of a result can only come from an attempt whose time is up.
  pub drive_patient {μ} :
      (Bad : R → Type μ) (Good : Moment S → Type 0)
      → CountsDown
      → ((m : Moment S) (l : L) (r : R)
          → Good m
          → attempt m l ≡ returned r
          → Bad r
          → count_down m.now m.restart (timer l) ≡ none)
      → (ms : List (Moment S)) (l : L) → All Good ms
      → spent (timer l).start ms < (timer l).t
      → (r : R) → drive attempt l ms ≡ returned r
      → ¬ Bad r
  unfolding drive
  drive_patient Bad Good down over [] l g h r e b = cc
  drive_patient Bad Good down over (m ∷ ms) l g h r e b = elim (Outcome-cases (attempt m l)) [
    | inl (r', done) ↦
        let ended : returned r' ≡ returned r = rw (done, drive) at e in
        let same : r' ≡ r = cc in
        omega (arith, count_down-none m.now m.restart (timer l) (over m l r' g.0 done (rw same b)))
    | inr (l', more) ↦
        let (left, t, start) =
          count_down-some m.now m.restart (timer l) (timer l') (down m l l' more) in
        drive_patient Bad Good down over ms l' g.1 (rw start (omega arith)) r
          (rw (more, drive) at e) b
  ]

module _ {ℓ κ} {L : Type ℓ} {R : Type κ} (now restart : ℕ) (w : Timer) where
  pub go_round-retries :
      (again : Timer → L) (r : R) (l : L)
      → go_round now restart w again r ≡ retries l
      → (w' : Timer) × (count_down now restart w ≡ some w') × (l ≡ again w')
  unfolding go_round
  go_round-retries again r l e = elim (Option-cases (count_down now restart w)) [
    | inl gone ↦ let clash : returned r ≡ retries l = rw (gone, go_round) at e in cc
    | inr (w', more) ↦
        let same : retries (again w') ≡ retries l = rw (more, go_round) at e in (w', more, cc)
  ]

  pub go_round-returned :
      (again : Timer → L) (r r' : R)
      → go_round now restart w again r ≡ returned r'
      → count_down now restart w ≡ none
  unfolding go_round
  go_round-returned again r r' e = elim (Option-cases (count_down now restart w)) [
    | inl gone ↦ gone
    | inr (w', more) ↦ let clash : retries (again w') ≡ returned r' = rw (more, go_round) at e in cc
  ]
