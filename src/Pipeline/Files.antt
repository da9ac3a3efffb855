-- ===== src/Pipeline/Files.antt =====
-- The file that the last stage of examples/pipeline.rs and examples/read_process_write_pipeline.rs writes.
use Prim.Native.String.{String}
use command_executor.Base.{
  ℕ, suc, ◌<◌, ◌≡◌, refl, inl, inr, Bool, true, false, Bool-cases, List, [], ◌∷◌, ◌++◌, map, length,
  weigh, weigh-length, arith, update, update_same, ℕ_discrete,
}
use mathlib.Core.List.{map-append}
use command_executor.ThreadPool.{complete_pending}
use command_executor.ThreadPoolBuilder.{Arguments}
use command_executor.Pipeline.{Program, closing, Run, Move, worker_writes, Reached, starts, moves}
use command_executor.Pipeline.Done.{path, all_passed}

-- `opened` is the thread local `RESULT_FILE` of the workers of the last stage, and `file` holds the
-- lines.
pub record Output : Type 0 where
  pub opened : ℕ → Bool
  pub file : List String

-- `File::create` empties the file; a file that is open is appended to.
unfoldable pub write_line : Bool → String → List String → List String
write_line false line file = line ∷ []
write_line true line file = file ++ (line ∷ [])

-- `ThirdStageCommand::execute` or `WritingCommand::execute`, with the line that it writes
unfoldable pub write_command : String → ℕ → Output → Output
write_command line i out = record {
  opened = update out.opened i true;
  file = write_line (out.opened i) line out.file;
}

-- A program whose last stage writes `print` of its payloads to a file, with what the file held before.
abbrev pub writes_file :
    {C : Type 0}
    → (ℕ → Arguments)
    → ℕ
    → List C
    → (ℕ → C → C)
    → (C → String)
    → List String
    → Program C Output
writes_file stages last source forward print old = record {
  stages = stages;
  last = last;
  source = source;
  forward = forward;
  world = record { opened = λ i. false; file = old };
  sink = λ i c. write_command (print c) i;
  may_fail = true;
}

module _ {C : Type 0} (print : C → String) where
  -- What the file holds, by whether the worker has opened it.
  abbrev Lines : Bool → List C → List String → Type 0
  Lines false written file = weigh (λ _. 1) written ≡ 0
  Lines true written file = file ≡ map print written

  none_written : (written : List C) → weigh (λ _. 1) written ≡ 0 → written ≡ []
  none_written [] h = refl
  none_written (c ∷ written) h = absurd (omega arith)

  write_line-Lines :
      (opened : Bool) (c : C) (written : List C) (file : List String)
      → Lines opened written file
      → write_line opened (print c) file ≡ map print (written ++ (c ∷ []))
  unfolding write_line
  write_line-Lines false c written file h = rw (none_written written h) refl
  write_line-Lines true c written file h = rw (h, map-append) refl

module _ {C : Type 0} (stages : ℕ → Arguments) (last : ℕ) (source : List C) (forward : ℕ → C → C)
    (print : C → String) (old : List String) where
  abbrev Writer : Program C Output
  Writer = writes_file stages last source forward print old

  -- The last stage has one worker, and the file is what it wrote.
  Move-Lines :
      (stages last).tasks ≡ 1
      → {X : Type 0} {s t : Run C Output X} → Move Writer s t
      → Lines print (s.world.opened 0) s.written s.world.file
      → Lines print (t.world.opened 0) t.written t.world.file
  unfolding write_command
  Move-Lines one {s = s} (worker_writes i {c} lt e) h = elim (ℕ_discrete i 0) [
    | yes first ↦
        rw (first, update_same s.world.opened 0 true)
          (write_line-Lines print (s.world.opened 0) c s.written s.world.file h)
    | no other ↦ absurd (omega arith)
  ]
  Move-Lines one _ h = h

  Reached-Lines :
      (stages last).tasks ≡ 1
      → {X : Type 0} {s : Run C Output X} → Reached Writer s
      → Lines print (s.world.opened 0) s.written s.world.file
  Reached-Lines one (starts h) = rw (h.at_world, h.none_written) refl
  Reached-Lines one (moves r m) = Move-Lines one m (Reached-Lines one r)

  -- When `main` has closed all stages, the lines of the file are those of the payloads written, and
  -- those are, each as often, what the stages made of the source.
  pub all_written :
      ((n : ℕ) → (stages n).shutdown_mode ≡ complete_pending)
      → (stages last).tasks ≡ 1
      → 0 < length source
      → {X : Type 0} {s : Run C Output X} → Reached Writer s
      → s.main ≡ closing (suc last)
      → (s.world.file ≡ map print s.written)
        × ((v : C → ℕ) → weigh v s.written ≡ weigh (λ c. v (path Writer last c)) source)
  all_written modes one some_source {s = s} r e = (
    elim (Bool-cases (s.world.opened 0)) [
      | inl opened ↦ rw opened at (Reached-Lines one r)
      | inr shut ↦
          let empty : Lines print false s.written s.world.file = rw shut at (Reached-Lines one r) in
          absurd (omega (arith, all_passed Writer modes r e (λ _. 1), weigh-length source))
    ],
    all_passed Writer modes r e,
  )
