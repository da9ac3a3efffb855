-- ===== src/ThreadPool/Locals.antt =====
-- What the commands of src/thread_pool.rs leave in a thread local of their worker, and in what they share;
-- and `set_thread_local`.
use command_executor.Base.{
  ◌≢◌, true, false, ℕ, ◌<◌, ◌≡◌, refl, sym, ◌∙◌, Bool, arith, update, update_same, update_other,
  ℕ_discrete,
}
use command_executor.ThreadPool.{
  ShutdownMode, Result, Command, user, empty, run_in_all_threads, Executed, succeeds, fails, panics,
  Worker, executes, waits_at, test_stopped, execute, release, free, waits_for, System, Step,
  barrier_opens, worker_tests, worker_takes, worker_executes, Reach, start, later,
}
use command_executor.ThreadPool.Broadcast.{in_all_threads_waits_for_all}

-- What a call's function establishes, of the thread local of every worker that waits at its barrier.
module _ {ℓ κ ν} {C X : Type ℓ} {L : Type κ} (Q : ℕ → L → Type ν) where
  abbrev pub AtBarrier : (ℕ → L) → (ℕ → Worker C X) → Type (ℓ ⊔ ν)
  AtBarrier locals workers = (i b : ℕ) (r : Result X) → workers i ≡ waits_at b r → Q b (locals i)

  moved-AtBarrier :
      (locals : ℕ → L) (workers : ℕ → Worker C X) (i : ℕ) (l : L) (w : Worker C X)
      → ((b : ℕ) (r : Result X) → w ≡ waits_at b r → Q b l)
      → AtBarrier locals workers
      → AtBarrier (update locals i l) (update workers i w)
  moved-AtBarrier locals workers i l w here h j b r e = elim (ℕ_discrete i j) [
    | yes same ↦
        rw (← same, update_same locals i l)
          (here b r (sym (update_same workers i w) ∙ rw (← same) at e))
    | no other ↦
        rw (update_other locals {i = i} {j = j} l other)
          (h j b r (sym (update_other workers {i = i} {j = j} w other) ∙ e))
  ]

  pub away-AtBarrier :
      (locals : ℕ → L) (workers : ℕ → Worker C X) (i : ℕ) (w : Worker C X)
      → ((b : ℕ) (r : Result X) → w ≢ waits_at b r)
      → AtBarrier locals workers
      → AtBarrier locals (update workers i w)
  away-AtBarrier locals workers i w away h j b r e = elim (ℕ_discrete i j) [
    | yes same ↦ absurd (away b r (sym (update_same workers i w) ∙ rw (← same) at e))
    | no other ↦ h j b r (sym (update_other workers {i = i} {j = j} w other) ∙ e)
  ]

pub test_stopped-away {ℓ} :
    (C : Type ℓ) {X : Type ℓ} (stopped : Bool) (r : Result X) (b : ℕ) (r' : Result X)
    → test_stopped {C = C} stopped r ≢ waits_at b r'
unfolding test_stopped
test_stopped-away C true r b r' e = cc
test_stopped-away C false r b r' e = cc

-- A worker that still waits when a barrier opens waits at another one.
pub release-stays {ℓ} :
    {C X : Type ℓ} (o : ℕ) (w : Worker C X) (b : ℕ) (r : Result X)
    → release o w ≡ waits_at b r
    → w ≡ waits_at b r
unfolding release
release-stays o w b r e = ground arith

-- The closure of `set_thread_local`: `value.replace(val.clone())`.
unfoldable pub set_thread_local {ℓ κ} : {L : Type ℓ} {G : Type κ} → L → L × G → L × G
set_thread_local val (value, shared) = (val, shared)

-- What a command does to the thread local of its worker and to the shared state: the client's code in
-- its `execute`, and the `f` of the call of `in_all_threads` with a barrier, each by how it ends: `f` may
-- leave a part of its effect when it panics.
module _ {ℓ κ μ} {C X : Type ℓ} {L : Type κ} {G : Type μ} (act : C → Executed X → L × G → L × G)
    (f : ℕ → Executed X → L × G → L × G) where
  abbrev pub effect : Command C → Executed X → L × G → L × G
  effect (user c) x m = act c x m
  effect empty x m = m
  effect (run_in_all_threads b) x m = f b x m

  module _ {tasks capacity : ℕ} {mode : ShutdownMode} where
    -- The thread locals and the shared state after a step.
    abbrev pub carry : {s t : System C X} → Step tasks capacity mode s t → (ℕ → L) × G → (ℕ → L) × G
    carry (worker_executes i {c = c} x lt e) m =
        let (value, more) = effect c x (m.0 i, m.1) in (update m.0 i value, more)
    carry _ m = m

    -- The same after a run.
    abbrev pub memory : L → G → {s : System C X} → Reach tasks capacity mode s → (ℕ → L) × G
    memory initial nothing start = (λ i. initial, nothing)
    memory initial nothing (later r st) = carry st (memory initial nothing r)

  module _ {ν} (Q : ℕ → L → Type ν)
      (established : (b : ℕ) (x : Executed X) (m : L × G) → x ≢ panics → Q b (f b x m).0) where
    executed-established :
        (c : Command C) (r : Result X) (x : Executed X) (m : L × G) (b : ℕ) (r' : Result X)
        → execute c r x ≡ waits_at b r'
        → Q b (effect c x m).0
    unfolding execute
    executed-established (user c) r succeeds m b r' e = absurd (cc)
    executed-established (user c) r (fails e') m b r' e = absurd (cc)
    executed-established (user c) r panics m b r' e = absurd (cc)
    executed-established empty r x m b r' e = absurd (cc)
    executed-established (run_in_all_threads o) r panics m b r' e = absurd (cc)
    executed-established (run_in_all_threads o) r succeeds m b r' e =
        let same : o ≡ b = cc in rw (← same) (established o succeeds m (λ h. cc))
    executed-established (run_in_all_threads o) r (fails e') m b r' e =
        let same : o ≡ b = cc in rw (← same) (established o (fails e') m (λ h. cc))

    pub carry-AtBarrier :
        {tasks capacity : ℕ} {mode : ShutdownMode} {s t : System C X} (m : (ℕ → L) × G)
        (st : Step tasks capacity mode s t)
        → AtBarrier Q m.0 s.workers
        → AtBarrier Q (carry st m).0 t.workers
    carry-AtBarrier {s = s} m (worker_executes i {r = x} {c = c} y lt e) h =
        moved-AtBarrier Q m.0 s.workers i _ _ (executed-established c x y (m.0 i, m.1)) h
    carry-AtBarrier {s = s} m (worker_tests i {r = x} lt e) h =
        away-AtBarrier Q m.0 s.workers i _ (test_stopped-away C s.stopped x) h
    carry-AtBarrier {s = s} m (worker_takes i {r = x} {c = c} lt e q) h =
        away-AtBarrier Q m.0 s.workers i (executes c x) (λ b y w. cc) h
    carry-AtBarrier {s = s} m (barrier_opens j {b = o} e all) h =
        λ i b x w. h i b x (release-stays o (s.workers i) b x w)
    carry-AtBarrier m _ h = h

    pub memory-AtBarrier :
        {tasks capacity : ℕ} {mode : ShutdownMode} (initial : L) (nothing : G) {s : System C X}
        (r : Reach tasks capacity mode s)
        → AtBarrier Q (memory initial nothing r).0 s.workers
    memory-AtBarrier initial nothing start = λ i b r e. absurd (cc)
    memory-AtBarrier initial nothing (later r st) =
        carry-AtBarrier (memory initial nothing r) st (memory-AtBarrier initial nothing r)

module _ {ℓ κ μ} {C X : Type ℓ} {L : Type κ} {G : Type μ} {tasks capacity : ℕ} {mode : ShutdownMode}
    (act : C → Executed X → L × G → L × G) (f : ℕ → Executed X → L × G → L × G) (initial : L)
    (nothing : G) where
  -- The thread local of a worker at a barrier is left alone.
  pub waiting-memory :
      {s t : System C X} (r : Reach tasks capacity mode s) (st : Step tasks capacity mode s t)
      {i b : ℕ} {x : Result X}
      → s.workers i ≡ waits_at b x
      → (memory act f initial nothing (later r st)).0 i ≡ (memory act f initial nothing r).0 i
  waiting-memory r (worker_executes k x lt e) {i = i} w = elim (ℕ_discrete k i) [
    | yes same ↦ absurd (let here = rw same at e in cc)
    | no other ↦ update_other (memory act f initial nothing r).0 {i = k} {j = i} _ other
  ]
  waiting-memory r _ w = refl

  -- If `f` of the call with the barrier `b`, when it does not panic, is the closure of `set_thread_local` with
  -- a value, whatever the commands and the other calls do to the thread local and to what they share: when that call
  -- returns, the thread local of every worker is that value.
  pub set_thread_local_reaches_all :
      {s t : System C X} (r : Reach tasks capacity mode s) (st : Step tasks capacity mode s t)
      (j b : ℕ) (val : L)
      → ((x : Executed X) → x ≢ panics → f b x ≡ set_thread_local val)
      → s.clients j ≡ waits_for b
      → t.clients j ≡ free
      → (i : ℕ) → i < tasks
      → (memory act f initial nothing (later r st)).0 i ≡ val
  unfolding set_thread_local
  set_thread_local_reaches_all r st j b val h e e' i lt =
      let (x, there, back) = in_all_threads_waits_for_all j st e e' i lt in
      waiting-memory r st there
      ∙ memory-AtBarrier act f (λ o l. b ≡ o → l ≡ val)
          (λ o y m ends same. rw (← same, h y ends) refl) initial nothing r i b x there refl
