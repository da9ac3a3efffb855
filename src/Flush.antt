-- ===== src/Flush.antt =====
-- examples/flush_thread_local.rs: the commands of the second stage store their payloads as in
-- examples/fetch_thread_local.rs, and `in_all_threads` sends what each thread has stored to the third stage.
pub mod Flushed
pub mod Stages
pub mod Sent
pub mod Handed
pub mod Written
pub mod Along
pub mod Outcome
mod Examples
use Prim.Native.String.{String}
use command_executor.Base.{ℕ, Bool, true, false, ◌||◌, List, [], ◌∷◌, ◌++◌, map, update}
use command_executor.Pipeline.Files.{Output}
use command_executor.Fetch.{HashSet, empty_set}

-- The closure of `flush`: `intermediate.take()`, with what stays in the thread local, and the payload of
-- the `ThirdStageCommand`.
unfoldable pub flush : HashSet → HashSet × HashSet
flush intermediate = (empty_set, intermediate)

-- The members of the payloads of the third stage's commands.
abbrev pub union : List HashSet → HashSet
union [] x = false
union (set ∷ sets) x = set x || union sets x

-- `File::create` empties the file; a file that is open is appended to.
unfoldable pub write_lines : Bool → List String → List String → List String
write_lines false lines file = lines
write_lines true lines file = file ++ lines

-- `ThirdStageCommand::execute`, when no write fails, with the members of the payload in the order of the
-- iteration
unfoldable pub write_payload : (ℕ → String) → List ℕ → ℕ → Output → Output
write_payload to_string order i out = record {
  opened = update out.opened i true;
  file = write_lines (out.opened i) (map to_string order) out.file;
}
