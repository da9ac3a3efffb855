-- ===== src/Pipeline/Progress.antt =====
-- A run of examples/pipeline.rs does not get stuck: the bounded queues hold the stages back, and never for
-- ever.
use command_executor.Base.{
  ℕ, zero, suc, ◌+◌, ◌≤◌, ◌<◌, ◌≡◌, ◌≢◌, refl, ap, ◌⊎◌, inl, inr, false, List, [], ◌∷◌, length,
  arith, ℕ_discrete, ◌-◌, dec_lt, each_or_some,
}
use command_executor.ThreadPool.{
  complete_pending, Result, ok, Command, user, empty, run_in_all_threads, succeeds, Worker, tests,
  dequeues, executes, waits_at, returned, panicked, Phase, running, draining, storing, waking, down,
  shutdown_begins, shutdown_drained, shutdown_stores, shutdown_wakes, shutdown_returns,
  worker_tests, worker_takes, worker_executes,
}
use command_executor.ThreadPool.Stopping.{Reach-IsStopping}
use command_executor.ThreadPool.Shutdown.{IsOver, pending_never_blocks, no_worker_stranded}
use command_executor.Pipeline.{
  Program, Main, submitting, closing, failed, Run, Move, main_submits, main_gives_up, main_closes,
  main_shuts_down, main_joins, main_join_fails, worker_moves, worker_forwards, worker_writes,
  worker_fails_to_write, Reached,
}
use command_executor.Pipeline.Accounts.{IsSound}
use command_executor.Pipeline.Done.{Reached-IsSound}
use command_executor.Pipeline.Fitness.{IsFit}
use command_executor.Pipeline.Alive.{Ahead, IsAlive, Reached-IsAlive}

returned_ok_or_not {ℓ} : {C X : Type ℓ} (w : Worker C X) → (w ≡ returned ok) ⊎ (w ≢ returned ok)
returned_ok_or_not (returned ok) = inl refl
returned_ok_or_not w = inr (λ h. cc)

module _ {ℓ} {C W X : Type ℓ} {P : Program C W} where
  -- A move that is no error of the source, of a lock or of the file.
  abbrev pub IsRegular : {s t : Run C W X} → Move P s t → Type 0
  IsRegular (main_gives_up e) = ⊥
  IsRegular (worker_fails_to_write i x may lt e) = ⊥
  IsRegular _ = Unit

module _ {ℓ} {C W X : Type ℓ} (P : Program C W) where
  abbrev pub CanMove : Run C W X → Type ℓ
  CanMove s = (t : Run C W X) × (m : Move P s t) × IsRegular m

module _ {ℓ} {C W X : Type ℓ} (P : Program C W) (s : Run C W X) (alive : IsAlive P s) where
  abbrev Busy : ℕ → Type ℓ
  Busy n =
      (i : ℕ) (c : Command C) (r : Result X)
      → i < (P.stages n).tasks
      → (s.pools n).workers i ≡ executes c r
      → CanMove P s

  -- A worker of a stage that is not stopped goes on if there is a command for it.
  worker_goes_on :
      (n i : ℕ)
      → n ≤ P.last
      → Busy n
      → i < (P.stages n).tasks
      → (w : Worker C X) → (s.pools n).workers i ≡ w
      → (q : List (Command C)) → (s.pools n).queue ≡ q
      → (q ≡ [] → (r : Result X) → w ≢ dequeues r)
      → ((r : Result X) → w ≢ returned r)
      → CanMove P s
  worker_goes_on n i le busy lt (tests r) e q f fed inside =
      (_, worker_moves n le (worker_tests i lt e) tt, tt)
  worker_goes_on n i le busy lt (dequeues r) e [] f fed inside = absurd (fed refl r refl)
  worker_goes_on n i le busy lt (dequeues r) e (c ∷ rest) f fed inside =
      (_, worker_moves n le (worker_takes i lt e f) tt, tt)
  worker_goes_on n i le busy lt (executes c r) e q f fed inside = busy i c r lt e
  worker_goes_on n i le busy lt (waits_at b r) e q f fed inside =
      absurd (rw e at ((alive.pools_fit n).fit i))
  worker_goes_on n i le busy lt (returned r) e q f fed inside = absurd (inside r refl)
  worker_goes_on n i le busy lt panicked e q f fed inside =
      absurd (rw e at ((alive.pools_fit n).fit i))

  -- No worker has left the loop of a stage that is not stopped.
  inside_loop :
      (n i : ℕ) → (s.pools n).stopped ≡ false → (r : Result X) → (s.pools n).workers i ≢ returned r
  inside_loop n i unstopped r e =
      let fit : IsFit {C = C} false (returned r) =
        rw (unstopped, e) at ((alive.pools_fit n).fit i) in
      fit

  module _ (ready : (n : ℕ) → 0 < (P.stages n).tasks)
      (room : (n : ℕ) → 0 < (P.stages n).queue_size) where
    -- A stage whose queue is not empty.
    full_goes_on :
        (n : ℕ)
        → n ≤ P.last
        → Busy n
        → (s.pools n).stopped ≡ false
        → 0 < length (s.pools n).queue
        → CanMove P s
    full_goes_on n le busy unstopped filled =
        worker_goes_on n 0 le busy (ready n) _ refl _ refl
          (λ none. absurd (omega (arith, ap (length {A = Command C}) none)))
          (inside_loop n 0 unstopped)

    -- A worker that executes a command, in a stage after which all stages are running.
    busy :
        (d n : ℕ)
        → n + d ≡ P.last
        → ((m : ℕ) → n < m → ((s.pools m).phase ≡ running) × ((s.pools m).stopped ≡ false))
        → Busy n
    busy d n e ahead i (run_in_all_threads b) r lt h = absurd (rw h at ((alive.pools_fit n).fit i))
    busy d n e ahead i empty r lt h =
        (_, worker_moves n (omega arith) (worker_executes i succeeds lt h) tt, tt)
    busy zero n e ahead i (user c) r lt h =
        let here : n ≡ P.last = omega arith in
        (_, worker_writes i (rw here at lt) (rw here at h), tt)
    busy (suc d) n e ahead i (user c) r lt h =
        let after = busy d (suc n) (omega arith) (λ m lt'. ahead m (omega arith)) in
        elim (dec_lt (length (s.pools (suc n)).queue) (P.stages (suc n)).queue_size) [
          | yes place ↦ (
            _,
            worker_forwards n i (omega arith) lt h ((ahead (suc n) (omega arith)).0, place),
            tt,
          )
          | no full ↦
              full_goes_on (suc n) (omega arith) after (ahead (suc n) (omega arith)).1
                (omega (arith, room (suc n)))
        ]

    -- `main` inside `shutdown` or `join` of the stage `n`.
    module _ (modes : (n : ℕ) → (P.stages n).shutdown_mode ≡ complete_pending)
        (fits : (n : ℕ) → (P.stages n).tasks ≤ (P.stages n).queue_size) (sound : IsSound P s)
        (n : ℕ) (le : n ≤ P.last) (e : s.main ≡ closing n) (busy_n : Busy n) where
      worker_over_or_on :
          (i : ℕ)
          → i < (P.stages n).tasks
          → (s.pools n).phase ≡ down
          → (w : Worker C X) → (s.pools n).workers i ≡ w
          → IsOver w ⊎ CanMove P s
      worker_over_or_on i lt ph (returned r) h = inl tt
      worker_over_or_on i lt ph panicked h = inl tt
      worker_over_or_on i lt ph (dequeues r) h =
          let (stopped, (c, rest, q)) = no_worker_stranded (sound.reached n) ph i lt h in
          inr (_, worker_moves n le (worker_takes i lt h q) tt, tt)
      worker_over_or_on i lt ph (tests r) h =
          inr (_, worker_moves n le (worker_tests i lt h) tt, tt)
      worker_over_or_on i lt ph (executes c r) h = inr (busy_n i c r lt h)
      worker_over_or_on i lt ph (waits_at b r) h = absurd (rw h at ((alive.pools_fit n).fit i))

      joining_goes_on : (s.pools n).phase ≡ down → CanMove P s
      joining_goes_on ph =
          elim (each_or_some (P.stages n).tasks (λ i lt. worker_over_or_on i lt ph _ refl)) [
            | inr (i, lt, on) ↦ on
            | inl over ↦
                elim (each_or_some (P.stages n).tasks
                  (λ i lt. returned_ok_or_not ((s.pools n).workers i))) [
                    | inl all ↦ (_, main_joins e le ph all, tt)
                    | inr (i, lt, bad) ↦ (_, main_join_fails i e le lt ph bad over, tt)
                  ]
          ]

      draining_goes_on :
          (q : List (Command C))
          → (s.pools n).queue ≡ q
          → (s.pools n).phase ≡ draining
          → CanMove P s
      draining_goes_on [] h ph = (_, main_shuts_down e le (shutdown_drained ph h) tt, tt)
      draining_goes_on (c ∷ rest) h ph =
          full_goes_on n le busy_n (rw ph at (Reach-IsStopping (sound.reached n)).served)
            (omega (arith, ap (length {A = Command C}) h))

      closing_goes_on : (ph : Phase) → (s.pools n).phase ≡ ph → CanMove P s
      closing_goes_on running h =
          (_, main_shuts_down e le (shutdown_begins h (alive.pools_fit n).no_clients) tt, tt)
      closing_goes_on draining h = draining_goes_on _ refl h
      closing_goes_on storing h = (_, main_shuts_down e le (shutdown_stores h) tt, tt)
      closing_goes_on (waking zero) h = (_, main_shuts_down e le (shutdown_returns h) tt, tt)
      closing_goes_on (waking (suc k)) h = (
        _,
        main_shuts_down e le
            (shutdown_wakes h (pending_never_blocks (fits n) (rw (modes n) at (sound.reached n)) h))
            tt,
        tt,
      )
      closing_goes_on down h = joining_goes_on h

module _ {ℓ} {C W X : Type ℓ} (P : Program C W)
    (modes : (n : ℕ) → (P.stages n).shutdown_mode ≡ complete_pending)
    (ready : (n : ℕ) → 0 < (P.stages n).tasks)
    (fits : (n : ℕ) → (P.stages n).tasks ≤ (P.stages n).queue_size) where
  -- The stages after `n` run, so that their workers go on.
  after_goes_on :
      {s : Run C W X} (r : Reached P s) (n : ℕ)
      → n ≤ P.last
      → ((m : ℕ) → n < m → (s.pools m).phase ≡ running)
      → Busy P s (Reached-IsAlive P r) n
  after_goes_on {s} r n le ahead =
      busy P s (Reached-IsAlive P r) ready (λ m. omega (arith, ready m, fits m)) (P.last - n) n
        (omega arith)
        (λ m lt. (
          ahead m lt,
          rw (ahead m lt) at (Reach-IsStopping ((Reached-IsSound P r).reached m)).served,
        ))

  -- `main` by where it stands.
  main_goes_on :
      {s : Run C W X}
      → Reached P s
      → (main : Main C) → s.main ≡ main
      → main ≢ failed
      → main ≢ closing (suc P.last)
      → CanMove P s
  main_goes_on r failed e alive unfinished = absurd (alive refl)
  main_goes_on r (submitting []) e alive unfinished = (_, main_closes e, tt)
  main_goes_on {s} r (submitting (c ∷ rest)) e alive unfinished =
      let running_all : Ahead P (submitting (c ∷ rest)) s.pools =
        rw e at (Reached-IsAlive P r).ahead in
      elim (dec_lt (length (s.pools 0).queue) (P.stages 0).queue_size) [
        | yes place ↦ (_, main_submits e (running_all 0, place), tt)
        | no full ↦
            full_goes_on P s (Reached-IsAlive P r) ready (λ m. omega (arith, ready m, fits m)) 0
              (omega arith) (after_goes_on r 0 (omega arith) (λ m lt. running_all m))
              (rw (running_all 0) at (Reach-IsStopping ((Reached-IsSound P r).reached 0)).served)
              (omega (arith, ready 0, fits 0))
      ]
  main_goes_on {s} r (closing n) e alive unfinished =
      let before : Ahead P (closing n) s.pools = rw e at (Reached-IsAlive P r).ahead in
      elim (ℕ_discrete n (suc P.last)) [
        | yes last ↦ absurd (unfinished (ap closing last))
        | no within ↦
            closing_goes_on P s (Reached-IsAlive P r) ready (λ m. omega (arith, ready m, fits m))
              modes fits (Reached-IsSound P r) n (omega (arith, before.0)) e
              (after_goes_on r n (omega (arith, before.0)) before.1) _ refl
      ]

  -- Where every stage is shut down with `CompletePending`, and has a worker and a place in its queue
  -- for each of its workers: in every state that a run
  -- reaches, and in which `main` has neither failed nor closed the last stage, a move is possible that is
  -- no error of a lock, of the source or of the file.
  pub never_stuck :
      {s : Run C W X} → Reached P s → s.main ≢ failed → s.main ≢ closing (suc P.last) → CanMove P s
  never_stuck r alive unfinished = main_goes_on r _ refl alive unfinished
