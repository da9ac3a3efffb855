-- ===== src/Fetch.antt =====
-- examples/fetch_thread_local.rs: the commands of the second stage store their payloads in a thread local,
-- and `in_all_threads_mut` collects what the threads have stored.
pub mod Calls
pub mod Budget
pub mod Once
pub mod Taken
pub mod Sets
pub mod Collected
pub mod Stages
pub mod Gathered
pub mod Outcome
pub mod Examples
use command_executor.Base.{
  ℕ, suc, ◌+◌, ◌<◌, ◌≡◌, Bool, false, ◌||◌, ◌==◌, List, [], ◌∷◌, weigh, ltb, update, if◌then◌else◌,
}
use command_executor.Pipeline.{of_client}
use command_executor.ThreadPool.{
  ShutdownMode, Command, user, empty, run_in_all_threads, Executed, System, Step, broadcast_begins,
  Reach, start, later,
}

-- A `HashSet<i32>` by its members.
abbrev pub HashSet : Type 0
HashSet = ℕ → Bool

abbrev pub empty_set : HashSet
empty_set x = false

unfoldable pub insert : ℕ → HashSet → HashSet
insert payload set x = (payload == x) || set x

unfoldable pub extend : HashSet → HashSet → HashSet
extend set more x = set x || more x

-- `SecondStageCommand::execute`, which stores its payload in `INTERMEDIATE_RESULT`; `insert` and `Ok` do
-- not fail.
unfoldable pub store : {X G : Type 0} → ℕ → Executed X → HashSet × G → HashSet × G
store payload x (intermediate, shared) = (insert payload intermediate, shared)

-- The closure of `fetch`: `intermediate.take()`, and `result_set.extend(payload)`.
unfoldable pub fetch : HashSet × HashSet → HashSet × HashSet
fetch (intermediate, result_set) = (empty_set, extend result_set intermediate)

-- 1 for the payload `x`
abbrev pub is_payload : ℕ → ℕ → ℕ
is_payload x payload = if payload == x then 1 else 0

-- 1 for the command with the payload `x`
abbrev pub one : ℕ → Command ℕ → ℕ
one x = of_client (is_payload x)

-- The payloads of a list of commands.
abbrev pub payloads : List (Command ℕ) → HashSet
payloads cs x = ltb 0 (weigh (one x) cs)

module _ {C X : Type 0} {tasks capacity : ℕ} {mode : ShutdownMode} where
  -- What had been submitted when the call with a barrier began.
  abbrev pub called : {s : System C X} → Reach tasks capacity mode s → ℕ → List (Command C)
  called start = λ b. []
  called (later {s} r (broadcast_begins j ph e)) = update (called r) s.barriers s.submitted
  called (later r _) = called r
