-- ===== src/ThreadPool/Join.antt =====
-- `join` of src/thread_pool.rs: the threads from the back of the vector, one after the other.
use Prim.Native.String.{String}
use Prim.Native.String as Text
use command_executor.Base.{
  not, ◌∙◌, ◌≡◌, refl, inl, inr, Bool, true, false, Option, none, some, List, [], ◌∷◌, ◌++◌,
  append_assoc, append-nil, is_nil, if◌then◌else◌, Option-cases,
}
use command_executor.ThreadPool.{Result, ok, err}

-- What `JoinHandle::join` gives: the result of the closure, or the payload of a panic, which is a
-- `&'static str` or something else.
pub data Ended {ℓ} (X : Type ℓ) : Type ℓ where
  finished : Result X → Ended X
  panicked : Option String → Ended X

pub record JoinHandle {ℓ} (X : Type ℓ) : Type ℓ where
  pub name : Option String
  pub ended : Ended X

-- How `join` itself ends: it returns, or a panic of the handler unwinds it.
pub data Exit : Type 0 where
  returns : Result String → Exit
  unwinds : Exit

-- `threads` are those left in the pool, with the back of the vector at the head; `calls` are those of
-- the handler, in order.
pub record Joined {ℓ} (X : Type ℓ) : Type ℓ where
  pub threads : List (JoinHandle X)
  pub calls : List (String × String)
  pub exit : Exit

-- `errors.join(", ")`
unfoldable pub join_texts : List String → String
join_texts [] = ""
join_texts (x ∷ []) = x
join_texts (x ∷ y ∷ ys) = Text.◌++◌ x (Text.◌++◌ ", " (join_texts (y ∷ ys)))

-- `t.thread().name().unwrap_or("unnamed")`
abbrev pub thread_name {ℓ} : {X : Type ℓ} → JoinHandle X → String
thread_name t = elim t.name [ none ↦ "unnamed" | some n ↦ n ]

-- `if join_errors.is_empty()`
unfoldable pub conclude : String → List String → Result String
unfolding join_texts
conclude pool_name join_errors =
    if is_nil join_errors
    then ok
    else err (
        Text.◌++◌ "Errors occurred while joining threads in the "
          (Text.◌++◌ pool_name (Text.◌++◌ " pool: " (join_texts join_errors))))

module _ {ℓ} {X : Type ℓ} (debug : X → String) where
  -- `match t.join()`: the message for the handler, with `debug` for `format!("{e:?}")`.
  abbrev pub message : Ended X → Option String
  message (finished ok) = none
  message (finished (err e)) = some (debug e)
  message (panicked (some text)) = some text
  message (panicked none) = some "Unknown error"

  -- The handler is a parameter: `true` where it returns, `false` where it panics.
  module _ (handler_returns : String → String → Bool) (pool_name : String) where
    -- `while let Some(t) = self.threads.pop()`
    unfoldable pub join_loop : List (JoinHandle X) → List String → List (String × String) → Joined X
    unfolding conclude
    join_loop [] join_errors calls = record {
      threads = [];
      calls = calls;
      exit = returns (conclude pool_name join_errors);
    }
    join_loop (t ∷ threads) join_errors calls = elim (message t.ended) [
      | none ↦ join_loop threads join_errors calls
      | some m ↦
          let calls' = calls ++ ((thread_name t, m) ∷ []) in
          let rest = join_loop threads (join_errors ++ (m ∷ [])) calls' in
          if handler_returns (thread_name t) m
          then rest
          else record { threads = threads; calls = calls'; exit = unwinds }
    ]

    unfoldable pub join : List (JoinHandle X) → Joined X
    unfolding join_loop
    join threads = join_loop threads [] []

abbrev pub returned_ok : Exit → Bool
returned_ok (returns ok) = true
returned_ok _ = false

abbrev pub unwound : Exit → Bool
unwound unwinds = true
unwound _ = false

conclude-ok :
    (pool_name : String) (errors : List String)
    → returned_ok (returns (conclude pool_name errors)) ≡ is_nil errors
unfolding conclude
conclude-ok pool_name [] = refl
conclude-ok pool_name (x ∷ xs) = refl

abbrev pub texts : List (String × String) → List String
texts [] = []
texts ((n, m) ∷ rs) = m ∷ texts rs

texts-nil : (rs : List (String × String)) → is_nil (texts rs) ≡ is_nil rs
texts-nil [] = refl
texts-nil ((n, m) ∷ rs) = refl

module _ {ℓ} {X : Type ℓ} (debug : X → String) where
  -- The threads that failed, with their messages.
  unfoldable pub reports : List (JoinHandle X) → List (String × String)
  reports [] = []
  reports (t ∷ ts) = elim (message debug t.ended) [
    | none ↦ reports ts
    | some m ↦ (thread_name t, m) ∷ reports ts
  ]

  module _ (handler_returns : String → String → Bool) (pool_name : String) where
    -- With a handler that returns, the loop goes through all threads.
    join_loop-reports :
        ((n m : String) → handler_returns n m ≡ true)
        → (ts : List (JoinHandle X)) (errors : List String) (calls : List (String × String))
        → join_loop debug handler_returns pool_name ts errors calls ≡ record {
          threads = [];
          calls = calls ++ reports ts;
          exit = returns (conclude pool_name (errors ++ texts (reports ts)));
        }
    unfolding join_loop reports
    join_loop-reports back [] errors calls = rw (append-nil calls, append-nil errors) refl
    join_loop-reports back (t ∷ ts) errors calls = elim (Option-cases (message debug t.ended)) [
      | inl fine ↦ rw (fine, join_loop, reports) (join_loop-reports back ts errors calls)
      | inr (m, failed) ↦
          rw (failed, join_loop, reports, back (thread_name t) m)
            (rw
              (
                append_assoc calls ((thread_name t, m) ∷ []) (reports ts),
                append_assoc errors (m ∷ []) (texts (reports ts)),
              )
              at
              (join_loop-reports back ts (errors ++ (m ∷ [])) (calls ++ ((thread_name t, m) ∷ []))))
    ]

    -- If the handler returns, `join` takes all threads, calls the handler for those that failed, in
    -- the order in which it takes them and each with its message, and returns an error with these
    -- messages, or `Ok` exactly if no thread failed.
    pub join_takes_all :
        ((n m : String) → handler_returns n m ≡ true)
        → (ts : List (JoinHandle X))
        → let j = join debug handler_returns pool_name ts in
          (j.threads ≡ [])
          × (j.calls ≡ reports ts)
          × (j.exit ≡ returns (conclude pool_name (texts (reports ts))))
          × (returned_ok j.exit ≡ is_nil (reports ts))
    unfolding join
    join_takes_all back ts =
        rw (join_loop-reports back ts [] [])
          (refl, refl, refl, conclude-ok pool_name (texts (reports ts)) ∙ texts-nil (reports ts))

    abbrev pub first_of : List (String × String) → List (String × String)
    first_of [] = []
    first_of (r ∷ rs) = r ∷ []

    -- If the handler panics, as the default one does, `join` calls it once at most, for the first
    -- thread taken that failed, and is unwound exactly if a thread failed.
    pub join_panicking_handler :
        ((n m : String) → handler_returns n m ≡ false)
        → (ts : List (JoinHandle X))
        → let j = join debug handler_returns pool_name ts in
          (j.calls ≡ first_of (reports ts)) × (unwound j.exit ≡ not (is_nil (reports ts)))
    unfolding join join_loop reports conclude
    join_panicking_handler panics [] = (refl, refl)
    join_panicking_handler panics (t ∷ ts) = elim (Option-cases (message debug t.ended)) [
      | inl fine ↦ rw (fine, join_loop, reports) (join_panicking_handler panics ts)
      | inr (m, failed) ↦ rw (failed, join_loop, reports, panics (thread_name t) m) (refl, refl)
    ]
