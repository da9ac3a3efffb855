-- ===== src/ThreadPool/Expired.antt =====
-- `submit` and `try_submit` of src/thread_pool.rs, and the pool after its shutdown has begun.
use command_executor.Base.{
  List, ◌++◌, ◌+◌, ℕ, ◌≡◌, ◌≢◌, refl, ◌∙◌, Bool, true, false, [], ◌∷◌, weigh, weigh-append, arith,
  if◌then◌else◌,
}
use command_executor.ThreadPool.{
  immediate, complete_pending, enter_shutdown, init, ShutdownMode, Command, user, empty, free,
  Phase, running, draining, storing, waking, down, System, enqueued, Step, submits,
  broadcast_begins, broadcast_submits, broadcast_waits, barrier_opens, shutdown_begins,
  shutdown_drained, shutdown_stores, shutdown_wakes, shutdown_returns, worker_tests, worker_takes,
  worker_executes,
}
use command_executor.ThreadPool.Unchecked.{
  Call, steps, unchecked_submits, shuts_down_again, Calls, stays, goes_on,
}

-- The field `expired`, which `shutdown` sets first.
unfoldable pub expired : Phase → Bool
expired running = false
expired _ = true

-- The assertion fails, the queue takes the command in time, or it gives it back.
pub data Submission {ℓ} (C X : Type ℓ) : Type ℓ where
  assertion_fails : Submission C X
  accepted : System C X → Submission C X
  given_back : C → Submission C X

-- `in_time` is the answer of the queue's `try_enqueue`.
unfoldable pub try_submit {ℓ} : {C X : Type ℓ} → C → Bool → System C X → Submission C X
try_submit c in_time s =
    if expired s.phase
    then assertion_fails
    else if in_time
    then accepted (enqueued (user c) s)
    else given_back c

expired_over : (ph : Phase) → ph ≢ running → expired ph ≡ true
unfolding expired
expired_over running over = absurd (over refl)
expired_over draining over = refl
expired_over storing over = refl
expired_over (waking k) over = refl
expired_over down over = refl

shutting_down : (m : ShutdownMode) → enter_shutdown m ≢ running
unfolding enter_shutdown
shutting_down immediate e = cc
shutting_down complete_pending e = cc

module _ {ℓ} {C X : Type ℓ} where
  -- Once a shutdown has begun, no client is inside the pool.
  abbrev IsLeft : System C X → Type 0
  IsLeft s = s.phase ≢ running → (j : ℕ) → s.clients j ≡ free

module _ {ℓ} {C X : Type ℓ} {tasks capacity : ℕ} {mode : ShutdownMode} where
  -- A step of a pool whose shutdown has begun.
  Step-over :
      {s t : System C X} (w : Command C → ℕ)
      → w empty ≡ 0
      → Step tasks capacity mode s t
      → ((j : ℕ) → s.clients j ≡ free)
      → s.phase ≢ running
      → (t.phase ≢ running) × (weigh w t.submitted ≡ weigh w s.submitted)
  Step-over w z (submits c ph room) q over = absurd (over ph)
  Step-over w z (broadcast_begins j ph e) q over = absurd (over ph)
  Step-over {s} w z (broadcast_submits j e room) q over = let outside = q j in absurd (cc)
  Step-over w z (broadcast_waits j e) q over = (over, refl)
  Step-over w z (barrier_opens j e all) q over = (over, refl)
  Step-over w z (shutdown_begins ph h) q over = absurd (over ph)
  Step-over w z (shutdown_drained ph e) q over = (λ x. cc, refl)
  Step-over w z (shutdown_stores ph) q over = (λ x. cc, refl)
  Step-over {s} w z (shutdown_wakes ph room) q over =
      (λ x. cc, omega (arith, weigh-append w s.submitted (Command.empty ∷ []), z))
  Step-over w z (shutdown_returns ph) q over = (λ x. cc, refl)
  Step-over w z (worker_tests i lt e) q over = (over, refl)
  Step-over w z (worker_takes i lt e q') q over = (over, refl)
  Step-over w z (worker_executes i x lt e) q over = (over, refl)

  Step-IsLeft : {s t : System C X} → Step tasks capacity mode s t → IsLeft s → IsLeft t
  Step-IsLeft (submits c ph room) h over = absurd (over ph)
  Step-IsLeft (broadcast_begins j ph e) h over = absurd (over ph)
  Step-IsLeft (broadcast_submits j e room) h over = let outside = h over j in absurd (cc)
  Step-IsLeft (broadcast_waits j e) h over = let outside = h over j in absurd (cc)
  Step-IsLeft (barrier_opens j e all) h over = let outside = h over j in absurd (cc)
  Step-IsLeft (shutdown_begins ph nobody) h over = nobody
  Step-IsLeft (shutdown_drained ph e) h over = h (λ same. cc)
  Step-IsLeft (shutdown_stores ph) h over = h (λ same. cc)
  Step-IsLeft (shutdown_wakes ph room) h over = h (λ same. cc)
  Step-IsLeft (shutdown_returns ph) h over = h (λ same. cc)
  Step-IsLeft (worker_tests i lt e) h over = h over
  Step-IsLeft (worker_takes i lt e q) h over = h over
  Step-IsLeft (worker_executes i x lt e) h over = h over

  Call-IsLeft : {s t : System C X} → Call tasks capacity mode s t → IsLeft s → IsLeft t
  Call-IsLeft (steps st) h over = Step-IsLeft st h over
  Call-IsLeft (unchecked_submits c room) h over = h over
  Call-IsLeft (shuts_down_again ph nobody) h over = nobody

  Calls-IsLeft : {s t : System C X} → Calls tasks capacity mode s t → IsLeft s → IsLeft t
  Calls-IsLeft stays h = h
  Calls-IsLeft (goes_on r call) h = Call-IsLeft call (Calls-IsLeft r h)

  -- The commands that `unchecked_submit` has put into the queue.
  abbrev pub sent_unchecked : {s t : System C X} → Calls tasks capacity mode s t → List (Command C)
  sent_unchecked stays = []
  sent_unchecked (goes_on r (unchecked_submits c room)) = sent_unchecked r ++ (user c ∷ [])
  sent_unchecked (goes_on r (steps st)) = sent_unchecked r
  sent_unchecked (goes_on r (shuts_down_again ph nobody)) = sent_unchecked r

  Calls-over :
      {s t : System C X} (w : Command C → ℕ)
      → w empty ≡ 0
      → IsLeft s
      → s.phase ≢ running
      → (r : Calls tasks capacity mode s t)
      → (t.phase ≢ running)
        × (weigh w t.submitted ≡ weigh w s.submitted + weigh w (sent_unchecked r))
  Calls-over w z h over stays = (over, omega arith)
  Calls-over w z h over (goes_on {t} r (steps st)) =
      let (over', same) = Calls-over w z h over r in
      let (over'', same') = Step-over w z st (Calls-IsLeft r h over') over' in
      (over'', same' ∙ same)
  Calls-over w z h over (goes_on {t} r (unchecked_submits c room)) =
      let (over', same) = Calls-over w z h over r in
      (
        over',
        omega (
          arith,
          same,
          weigh-append w t.submitted (user c ∷ []),
          weigh-append w (sent_unchecked r) (user c ∷ []),
        ),
      )
  Calls-over w z h over (goes_on r (shuts_down_again ph nobody)) =
      let (over', same) = Calls-over w z h over r in (shutting_down mode, same)

  -- Once a shutdown has begun, after any further steps of the pool and calls of `unchecked_submit` and of
  -- `shutdown`: the assertion of `try_submit`, and of `submit` with it, fails; and, however commands other
  -- than `EmptyCommand` are counted, those put into the queue since are those of `unchecked_submit`.
  pub closed_to_clients :
      {s t : System C X} (w : Command C → ℕ) (c : C) (in_time : Bool)
      → w empty ≡ 0
      → Calls tasks capacity mode init s
      → s.phase ≢ running
      → (r : Calls tasks capacity mode s t)
      → (try_submit c in_time t ≡ assertion_fails)
        × (weigh w t.submitted ≡ weigh w s.submitted + weigh w (sent_unchecked r))
  unfolding try_submit
  closed_to_clients {t = t} w c in_time z before over r =
      let left = Calls-IsLeft before (λ x j. refl) in
      let (over', same) = Calls-over w z left over r in (rw (expired_over t.phase over') refl, same)
