-- ===== src/Printing/Printed.antt =====
-- What examples/thread_pool.rs has printed when `main` ends.
use Prim.Native.String.{String}
use command_executor.Base.{
  ℕ, ◌<◌, ◌≡◌, refl, ap, ◌∙◌, List, [], ◌∷◌, ◌++◌, map, weigh, weigh-map, All, sym,
}
use mathlib.Core.List.{map-append}
use command_executor.Pipeline.{closing, Run, Move, worker_writes, Reached, starts, moves}
use command_executor.Pipeline.Done.{all_passed}
use command_executor.Pipeline.Numbers.{range}
use command_executor.Printing.{create_thread_pool, line, thread_pool}

module _ {ℓ κ} {A : Type ℓ} (P : A → Type κ) where
  All-snoc : (xs : List A) (x : A) → All P xs → P x → All P (xs ++ (x ∷ []))
  All-snoc [] x h k = (k, tt)
  All-snoc (y ∷ xs) x h k = (h.0, All-snoc xs x h.1 k)

module _ {X : Type 0} (to_string : ℕ → String) (count : ℕ) where
  -- The lines are those of the payloads executed, each with the index of its worker.
  record IsPrinted (s : Run ℕ (List String) X) : Type 0 where
    executed : List (ℕ × ℕ)
    lines : s.world ≡ map (λ d. line to_string d.0 d.1) executed
    payloads : map (λ d. d.0) executed ≡ s.written
    workers : All (λ d. d.1 < 4) executed

  Move-IsPrinted :
      {s t : Run ℕ (List String) X}
      → Move (thread_pool to_string count) s t
      → IsPrinted s
      → IsPrinted t
  unfolding create_thread_pool
  Move-IsPrinted {s} (worker_writes i {c} lt e) v = record {
    executed = v.executed ++ ((c, i) ∷ []);
    lines =
        ap (λ printed. printed ++ (line to_string c i ∷ [])) v.lines
        ∙ sym (map-append (λ d. line to_string d.0 d.1) v.executed ((c, i) ∷ []));
    payloads =
        map-append (λ d. d.0) v.executed ((c, i) ∷ []) ∙ ap (λ done. done ++ (c ∷ [])) v.payloads;
    workers = All-snoc (λ d. d.1 < 4) v.executed (c, i) v.workers lt;
  }
  Move-IsPrinted _ v = record {
    executed = v.executed;
    lines = v.lines;
    payloads = v.payloads;
    workers = v.workers;
  }

  Reached-IsPrinted :
      {s : Run ℕ (List String) X} → Reached (thread_pool to_string count) s → IsPrinted s
  Reached-IsPrinted (starts h) = record {
    executed = [];
    lines = h.at_world;
    payloads = sym h.none_written;
    workers = tt;
  }
  Reached-IsPrinted (moves r m) = Move-IsPrinted m (Reached-IsPrinted r)

  -- In any run, when `main` has shut the pool down and joined its workers: what is printed is one line for
  -- each number of the source, in some order, by one of the four workers.
  pub source_printed :
      {s : Run ℕ (List String) X}
      → Reached (thread_pool to_string count) s
      → s.main ≡ closing 1
      → (executed : List (ℕ × ℕ)) × (s.world ≡ map (λ d. line to_string d.0 d.1) executed)
        × All (λ d. d.1 < 4) executed
        × ((v : ℕ → ℕ) → weigh (λ d. v d.0) executed ≡ weigh v (range 0 count))
  unfolding create_thread_pool
  source_printed {s} r e =
      let v = Reached-IsPrinted r in
      (
        v.executed,
        v.lines,
        v.workers,
        λ w.
            sym (weigh-map w (λ d. d.0) v.executed)
            ∙ ap (weigh w) v.payloads
            ∙ all_passed (thread_pool to_string count) (λ n. refl) r e w,
      )
