-- ===== src/ThreadPool/Results.antt =====
-- The local `r` of the worker loop in src/thread_pool.rs, of which src/command.rs says that the last
-- error is passed on.
use command_executor.Base.{◌≡◌, refl, Bool, true, false, List, [], ◌∷◌, if◌then◌else◌}
use command_executor.ThreadPool.{
  Result, ok, err, user, Executed, succeeds, fails, panics, Worker, tests, panicked, execute,
}

module _ {ℓ} {X : Type ℓ} where
  -- The second result if it is an error, else the first.
  abbrev pub or_else : Result X → Result X → Result X
  or_else r ok = r
  or_else r (err e) = err e

  or_else_twice : (r s : Result X) (e : X) → or_else (err e) s ≡ or_else r (or_else (err e) s)
  or_else_twice r ok e = refl
  or_else_twice r (err e') e = refl

module _ {ℓ} {C X : Type ℓ} where
  -- A worker that takes clients' commands one after the other, with how each of them ends.
  unfoldable pub execute_all : List (C × Executed X) → Result X → Worker C X
  unfolding execute
  execute_all [] r = tests r
  execute_all ((c, x) ∷ cs) r = elim (execute (user c) r x) [ tests r' ↦ execute_all cs r' | w ↦ w ]

  abbrev pub any_panics : List (C × Executed X) → Bool
  any_panics [] = false
  any_panics ((c, panics) ∷ cs) = true
  any_panics ((c, succeeds) ∷ cs) = any_panics cs
  any_panics ((c, fails e) ∷ cs) = any_panics cs

  -- The error of the last command that failed.
  abbrev pub last_error : List (C × Executed X) → Result X
  last_error [] = ok
  last_error ((c, fails e) ∷ cs) = or_else (err e) (last_error cs)
  last_error ((c, succeeds) ∷ cs) = last_error cs
  last_error ((c, panics) ∷ cs) = last_error cs

  -- After any commands of clients, a worker has ended by a panic if one of them panicked, and
  -- otherwise it is at the test of its loop, with the error of the last command that failed, or
  -- with the result that it had before if none did.
  pub worker_result :
      (cs : List (C × Executed X)) (r : Result X)
      → execute_all cs r ≡ (if any_panics cs then panicked else tests (or_else r (last_error cs)))
  unfolding execute_all execute
  worker_result [] r = refl
  worker_result ((c, succeeds) ∷ cs) r = worker_result cs r
  worker_result ((c, fails e) ∷ cs) r =
      rw (← or_else_twice r (last_error cs) e) (worker_result cs (err e))
  worker_result ((c, panics) ∷ cs) r = refl
