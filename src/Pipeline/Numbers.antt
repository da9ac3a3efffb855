-- ===== src/Pipeline/Numbers.antt =====
-- examples/pipeline.rs: three stages that pass a number on and write it to a file, which `main` then
-- reads back.
use Prim.Native.String.{String}
use command_executor.Base.{
  ℕ, zero, suc, ◌+◌, ◌≤◌, ◌<◌, ◌≡◌, refl, ap, ◌∙◌, Option, none, some, List, [], ◌∷◌, map, length,
  weigh, All, arith, ltb, if◌then◌else◌,
}
use mathlib.Core.Path.{fun_ext}
use command_executor.ThreadPool.{complete_pending}
use command_executor.ThreadPoolBuilder.{
  Arguments, new, with_name_str, with_tasks, with_shutdown_mode, build,
}
use command_executor.Pipeline.{Program, closing, Run, Reached}
use command_executor.Pipeline.Done.{path}
use command_executor.Pipeline.Files.{Output, writes_file, all_written}

unfoldable pub create_thread_pool : String → ℕ → Arguments
unfolding build with_shutdown_mode with_tasks with_name_str new
create_thread_pool name tasks =
    build (with_shutdown_mode complete_pending (with_tasks tasks (with_name_str name new)))

-- The pools of `main`.
unfoldable pub stages : ℕ → Arguments
unfolding create_thread_pool
stages zero = create_thread_pool "first" 2
stages (suc zero) = create_thread_pool "second" 2
stages (suc (suc n)) = create_thread_pool "third" 1

-- `i..i + count`
abbrev pub range : ℕ → ℕ → List ℕ
range i zero = []
range i (suc count) = i ∷ range (suc i) count

-- `FirstStageCommand` and `SecondStageCommand`: the payload goes into the next command.
unfoldable pub next_payload : ℕ → ℕ → ℕ
next_payload stage payload = payload

-- `main` with the numbers below `count`; `to_string` is the `Display` of a number, and `old` what the file
-- of the result held before.
abbrev pub pipeline : (ℕ → String) → ℕ → List String → Program ℕ Output
pipeline to_string count old = writes_file stages 2 (range 0 count) next_payload to_string old

infixl 5 ◌>>=◌
abbrev ◌>>=◌ {ℓ κ} : {A : Type ℓ} {B : Type κ} → Option A → (A → Option B) → Option B
none >>= f = none
some a >>= f = f a

-- `for line_result in reader.lines()`
unfoldable pub read_results : (String → Option ℕ) → List String → Option (List ℕ)
read_results from_str [] = some []
read_results from_str (line ∷ lines) = do
  i ← from_str line
  rest ← read_results from_str lines
  some (i ∷ rest)

module _ (to_string : ℕ → String) (from_str : String → Option ℕ) (bound : ℕ)
    (round_trip : (n : ℕ) → n < bound → from_str (to_string n) ≡ some n) where
  pub read_results-map :
      (ns : List ℕ) → All (λ n. n < bound) ns → read_results from_str (map to_string ns) ≡ some ns
  unfolding read_results
  read_results-map [] h = refl
  read_results-map (n ∷ ns) h = rw (round_trip n h.0, read_results-map ns h.1) refl

-- 1 for a number that is not below the bound
abbrev over : ℕ → ℕ → ℕ
over bound n = if ltb n bound then 0 else 1

All-below : (bound : ℕ) (ns : List ℕ) → weigh (over bound) ns ≡ 0 → All (λ n. n < bound) ns
All-below bound [] h = tt
All-below bound (n ∷ ns) h = (ground arith, All-below bound ns (omega arith))

over-range : (bound i count : ℕ) → i + count ≤ bound → weigh (over bound) (range i count) ≡ 0
over-range bound i zero h = refl
over-range bound i (suc count) h = ground (arith, over-range bound (suc i) count)

length-range : (i count : ℕ) → length (range i count) ≡ count
length-range i zero = refl
length-range i (suc count) = ap suc (length-range (suc i) count)

path-next_payload :
    (to_string : ℕ → String) (count : ℕ) (old : List String) (n c : ℕ)
    → path (pipeline to_string count old) n c ≡ c
unfolding next_payload
path-next_payload to_string count old zero c = refl
path-next_payload to_string count old (suc n) c = path-next_payload to_string count old n c

pub modes : (n : ℕ) → (stages n).shutdown_mode ≡ complete_pending
unfolding stages
modes zero = refl
modes (suc zero) = refl
modes (suc (suc n)) = refl

-- If numbers below a bound are read as they are written, and the pipeline is run on the numbers below
-- a count, at least one and no more than the bound: when `main` has shut down and joined its
-- three stages, every line of the file is read, and the numbers read are those of the source, each as
-- often, so that the two sets that `main` compares are equal.
pub pipeline_result :
    {X : Type 0} (to_string : ℕ → String) (from_str : String → Option ℕ) (bound count : ℕ)
    (old : List String)
    → ((n : ℕ) → n < bound → from_str (to_string n) ≡ some n)
    → 0 < count
    → count ≤ bound
    → {s : Run ℕ Output X} → Reached (pipeline to_string count old) s
    → s.main ≡ closing 3
    → (result : List ℕ) × (read_results from_str s.world.file ≡ some result)
      × ((v : ℕ → ℕ) → weigh v result ≡ weigh v (range 0 count))
unfolding stages
pipeline_result to_string from_str bound count old round_trip some_number fits {s} r e =
    let P = pipeline to_string count old in
    let (lines, counts) =
      all_written stages 2 (range 0 count) next_payload to_string old modes refl
        (omega (arith, length-range 0 count)) r e in
    let same : (v : ℕ → ℕ) → weigh v s.written ≡ weigh v (range 0 count) = λ v.
      counts v
      ∙ ap (λ f. weigh f (range 0 count))
          (fun_ext (λ c. ap v (path-next_payload to_string count old 2 c))) in
    let below : All (λ n. n < bound) s.written =
      All-below bound s.written (same (over bound) ∙ over-range bound 0 count (omega arith)) in
    (
      s.written,
      rw lines (read_results-map to_string from_str bound round_trip s.written below),
      same,
    )
