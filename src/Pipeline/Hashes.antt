-- ===== src/Pipeline/Hashes.antt =====
-- examples/read_process_write_pipeline.rs: one stage hashes the lines of a file, and one writes them with
-- their hashes. SHA-1 and its hexadecimal form are a parameter, and so are the lines that are read.
use Prim.Native.String.{String}
use Prim.Native.String as Text
use command_executor.Base.{
  ℕ, zero, suc, ◌<◌, ◌≡◌, refl, ap, ◌∙◌, List, map, length, length-map, weigh, weigh-map, arith,
}
use command_executor.ThreadPool.{complete_pending}
use command_executor.ThreadPoolBuilder.{
  Arguments, new, with_name_str, with_tasks, with_queue_size, with_shutdown_mode, build,
}
use command_executor.Pipeline.{Program, closing, Run, Reached}
use command_executor.Pipeline.Files.{Output, writes_file, all_written}

-- The fields of `ProcessingCommand` and `WritingCommand`; the first has no hash.
pub record Line : Type 0 where
  pub payload : String
  pub hash : String

unfoldable pub create_thread_pool : String → ℕ → ℕ → Arguments
unfolding build with_shutdown_mode with_queue_size with_tasks with_name_str new
create_thread_pool name tasks queue_size = build (
    with_shutdown_mode complete_pending
      (with_queue_size queue_size (with_tasks tasks (with_name_str name new))))

-- The pools of `main`.
unfoldable pub stages : ℕ → Arguments
unfolding create_thread_pool
stages zero = create_thread_pool "processing" 8 1000
stages (suc n) = create_thread_pool "writing" 1 1000

-- `ProcessingCommand::execute`
unfoldable pub process : (String → String) → Line → Line
process sha1 line = record { payload = line.payload; hash = sha1 line.payload }

-- `writeln!(f, "{}\t{}", self.hash, self.payload)`
abbrev pub print_line : Line → String
print_line line = Text.◌++◌ line.hash (Text.◌++◌ "\t" line.payload)

-- `ProcessingCommand::new(line)` in `read`
abbrev pub read_line : String → Line
read_line text = record { payload = text; hash = "" }

-- `main` with the lines of the source file, and what the file of the result held before
abbrev pub read_process_write : (String → String) → List String → List String → Program Line Output
read_process_write sha1 lines old =
    writes_file stages 1 (map read_line lines) (λ stage line. process sha1 line) print_line old

modes : (n : ℕ) → (stages n).shutdown_mode ≡ complete_pending
unfolding stages
modes zero = refl
modes (suc n) = refl

-- When `main` of the pipeline has shut down and joined its two stages, for a source with at least
-- one line: the lines of the file are, each as often, the lines of the source behind their hashes.
pub read_process_write_result :
    {X : Type 0} (sha1 : String → String) (lines old : List String)
    → 0 < length lines
    → {s : Run Line Output X} → Reached (read_process_write sha1 lines old) s
    → s.main ≡ closing 2
    → (v : String → ℕ)
    → weigh v s.world.file ≡ weigh (λ l. v (Text.◌++◌ (sha1 l) (Text.◌++◌ "\t" l))) lines
unfolding stages process
read_process_write_result sha1 lines old some_line {s} r e v =
    let (file, counts) =
      all_written stages 1 (map read_line lines) (λ stage line. process sha1 line) print_line old
        modes refl (omega (arith, length-map read_line lines)) r e in
    ap (weigh v) file
    ∙ weigh-map v print_line s.written
    ∙ counts (λ l. v (print_line l))
    ∙ weigh-map (λ l. v (print_line (process sha1 l))) read_line lines
