-- ===== src/Fetch/Sets.antt =====
-- examples/fetch_thread_local.rs: the payloads of the commands executed are in the sets of the threads and in
-- what has been collected, and nothing else is.
use command_executor.Base.{
  ◌≢◌, ◌≡◌, false, List, ◌++◌, update, ℕ, ◌+◌, ◌≤◌, ◌<◌, refl, Bool, [], ◌∷◌, weigh, weigh-append,
  arith, if◌then◌else◌, tally, tally-update, tally-eq-zero, size-le-tally, dec_lt, ◌*◌,
}
use command_executor.ThreadPool.{
  ShutdownMode, Command, user, empty, run_in_all_threads, Executed, succeeds, fails, panics, System,
  Step, worker_executes, Reach, start, later,
}
use command_executor.ThreadPool.Locals.{effect, memory, carry, AtBarrier, carry-AtBarrier}
use command_executor.Fetch.{HashSet, empty_set, insert, extend, store, fetch, one}

module _ {X : Type 0} where
  -- Both calls of `in_all_threads_mut` and commands.
  abbrev pub change : Command ℕ → Executed X → HashSet × HashSet → HashSet × HashSet
  change = effect store (λ b y. fetch)

abbrev bit : Bool → ℕ
bit b = if b then 1 else 0

-- Where the payload is: in what has been collected, and in the sets of how many workers.
abbrev pub held : ℕ → ℕ → (ℕ → HashSet) × HashSet → ℕ
held tasks x m = bit (m.1 x) + tally (λ (set : HashSet). bit (set x)) tasks m.0

-- A command keeps the payloads of the two sets, and adds its own.
change-held :
    {X : Type 0} (x : ℕ) (c : Command ℕ) (y : Executed X) (local collected : HashSet)
    → (let (value, more) = change c y (local, collected) in
        (bit (more x) + bit (value x) ≤ one x c + bit (collected x) + bit (local x))
        × (one x c + bit (collected x) + bit (local x) ≤ 3 * (bit (more x) + bit (value x))))
unfolding store fetch insert extend
change-held x (user payload) y local collected = ground arith
change-held x empty y local collected = ground arith
change-held x (run_in_all_threads b) succeeds local collected = ground arith
change-held x (run_in_all_threads b) (fails e) local collected = ground arith
change-held x (run_in_all_threads b) panics local collected = ground arith

taken_empty :
    {X : Type 0} (b : ℕ) (y : Executed X) (m : HashSet × HashSet)
    → y ≢ panics
    → (x : ℕ) → (fetch m).0 x ≡ false
unfolding fetch
taken_empty b y m ends x = refl

-- The payloads that are held are those of the commands executed.
pub record IsKept {X : Type 0} (tasks : ℕ) (s : System ℕ X) (m : (ℕ → HashSet) × HashSet)
    : Type 0 where
  pub sound : (x : ℕ) → 0 < held tasks x m → 0 < weigh (one x) s.completed
  pub complete : (x : ℕ) → 0 < weigh (one x) s.completed → 0 < held tasks x m
  pub at_barrier : AtBarrier {C = ℕ} {X = X} (λ b set. (x : ℕ) → set x ≡ false) m.0 s.workers

pub held_nothing : (tasks x : ℕ) → held tasks x (λ i. empty_set, empty_set) ≡ 0
held_nothing tasks x =
    omega
      (arith, tally-eq-zero (λ (set : HashSet). bit (set x)) tasks (λ i. empty_set) (λ i lt. refl))

-- A worker executes a command: what is held and what is completed grow alike.
pub executed-held :
    {X : Type 0} (tasks : ℕ) (completed : List (Command ℕ)) (m : (ℕ → HashSet) × HashSet) (i : ℕ)
    (c : Command ℕ) (y : Executed X) (x : ℕ)
    → i < tasks
    → (0 < held tasks x m → 0 < weigh (one x) completed)
    → (0 < weigh (one x) completed → 0 < held tasks x m)
    → (let (value, more) = change c y (m.0 i, m.1) in
        (0 < held tasks x (update m.0 i value, more) → 0 < weigh (one x) (completed ++ (c ∷ [])))
        × (0 < weigh (one x) (completed ++ (c ∷ [])) → 0 < held tasks x (update m.0 i value, more)))
executed-held tasks completed m i c y x lt sound kept =
    let step = change-held x c y (m.0 i) m.1 in
    let rest =
      tally-update (λ (set : HashSet). bit (set x)) tasks i m.0 (change c y (m.0 i, m.1)).0 lt in
    let others = size-le-tally (λ (set : HashSet). bit (set x)) tasks i m.0 lt in
    let more = weigh-append (one x) completed (c ∷ []) in
    (
      λ h. elim (dec_lt 0 (held tasks x m)) [
        | yes there ↦ omega (arith, sound there, more)
        | no nowhere ↦ omega (arith, h, step, rest, others, more)
      ],
      λ h. elim (dec_lt 0 (weigh (one x) completed)) [
        | yes before ↦ omega (arith, kept before, step, rest, others)
        | no now ↦ omega (arith, h, step, rest, others, more)
      ],
    )

module _ {X : Type 0} {tasks capacity : ℕ} {mode : ShutdownMode} where
  -- The sets after a step of the pool.
  abbrev pub carry_sets :
      {s t : System ℕ X}
      → Step tasks capacity mode s t
      → (ℕ → HashSet) × HashSet
      → (ℕ → HashSet) × HashSet
  carry_sets st m = carry store (λ b y. fetch) st m

  barrier_kept :
      {s t : System ℕ X} (m : (ℕ → HashSet) × HashSet) (st : Step tasks capacity mode s t)
      → AtBarrier (λ b set. (x : ℕ) → set x ≡ false) m.0 s.workers
      → AtBarrier (λ b set. (x : ℕ) → set x ≡ false) (carry_sets st m).0 t.workers
  barrier_kept m st h =
      carry-AtBarrier store (λ b y. fetch) (λ b set. (x : ℕ) → set x ≡ false) taken_empty m st h

  -- Both sets are empty at the start.
  abbrev pub sets : {s : System ℕ X} → Reach tasks capacity mode s → (ℕ → HashSet) × HashSet
  sets r = memory store (λ b y. fetch) empty_set empty_set r

  pub carry-IsKept :
      {s t : System ℕ X} (m : (ℕ → HashSet) × HashSet) (st : Step tasks capacity mode s t)
      → IsKept tasks s m
      → IsKept tasks t (carry_sets st m)
  carry-IsKept {s} m (worker_executes i {r} {c} y lt e) k = record {
    sound = λ x. (executed-held tasks s.completed m i c y x lt (k.sound x) (k.complete x)).0;
    complete = λ x. (executed-held tasks s.completed m i c y x lt (k.sound x) (k.complete x)).1;
    at_barrier = barrier_kept {s = s} m (worker_executes i {r = r} {c = c} y lt e) k.at_barrier;
  }
  carry-IsKept m st k = record {
    sound = k.sound;
    complete = k.complete;
    at_barrier = barrier_kept m st k.at_barrier;
  }

  pub Reach-IsKept : {s : System ℕ X} (r : Reach tasks capacity mode s) → IsKept tasks s (sets r)
  Reach-IsKept start = record {
    sound = λ x h. absurd (omega (arith, held_nothing tasks x));
    complete = λ x h. absurd (omega arith);
    at_barrier = λ i b r e. absurd (cc);
  }
  Reach-IsKept (later r st) = carry-IsKept (sets r) st (Reach-IsKept r)
