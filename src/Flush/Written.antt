-- ===== src/Flush/Written.antt =====
-- The third stage of examples/flush_thread_local.rs, and what its worker writes.
use Prim.Native.String.{String}
use command_executor.Base.{
  ℕ, ◌<◌, length, ◌≡◌, refl, sym, ◌∙◌, ◌⊎◌, inl, inr, Bool, true, false, List, ◌++◌, map, weigh,
  weigh-append, arith, update_same,
}
use mathlib.Core.List.{map-append}
use command_executor.ThreadPool.{
  running, user, Result, Executed, succeeds, fails, executes, execute, System, enqueued, submits,
  worker_executes, Reach, later,
}
use command_executor.ThreadPool.Failures.{HasFailed, execute-fails}
use command_executor.Pipeline.{executed, OfOwner, OfWorker}
use command_executor.Pipeline.Stages.{
  left, executed-left, executed-HasFailed, owner-accounts, worker-accounts, owner-HasFailed,
  worker-HasFailed,
}
use command_executor.Fetch.{HashSet, is_payload}
use command_executor.Pipeline.Files.{Output}
use command_executor.Flush.{write_lines, write_payload}
use command_executor.Flush.Stages.{third_stage, ThirdStep, member, IsOrderOf}

module _ {X : Type 0} where
  abbrev pub ThirdReach : System HashSet X → Type 0
  ThirdReach = let a = third_stage in Reach a.tasks a.queue_size a.shutdown_mode

module _ {X : Type 0} (to_string : ℕ → String) where
  -- What the file holds, by whether the worker has opened it: the members of the payloads executed.
  abbrev pub Lines : Bool → List String → System HashSet X → Type 0
  Lines false file q = (x : ℕ) → left (member x) q ≡ 0
  Lines true file q =
      (order : List ℕ) × (file ≡ map to_string order)
      × ((x : ℕ) → weigh (is_payload x) order ≡ left (member x) q)

  -- No write has failed, or the worker has.
  pub record IsWritten (q : System HashSet X) (out : Output) : Type 0 where
    pub reached : ThirdReach q
    pub told : Lines (out.opened 0) out.file q ⊎ HasFailed (q.workers 0)

  Lines-same :
      (opened : Bool) (file : List String) (p q : System HashSet X)
      → ((x : ℕ) → left (member x) q ≡ left (member x) p)
      → Lines opened file p
      → Lines opened file q
  Lines-same false file p q same h = λ x. same x ∙ h x
  Lines-same true file p q same (order, lines, counts) =
      (order, lines, λ x. counts x ∙ sym (same x))

  -- A step of the third stage that executes no payload.
  quiet-IsWritten :
      {p q : System HashSet X} {out : Output} (st : ThirdStep p q)
      → ((x : ℕ) → left (member x) q ≡ left (member x) p)
      → (HasFailed (p.workers 0) → HasFailed (q.workers 0))
      → IsWritten p out
      → IsWritten q out
  quiet-IsWritten {p} {q} {out} st same fail v = record {
    reached = later v.reached st;
    told = elim v.told [
      | inl h ↦ inl (Lines-same (out.opened 0) out.file p q same h)
      | inr f ↦ inr (fail f)
    ];
  }

  pub owner-IsWritten :
      {p q : System HashSet X} {out : Output} (st : ThirdStep p q)
      → OfOwner st
      → IsWritten p out
      → IsWritten q out
  owner-IsWritten st o v =
      quiet-IsWritten st (λ x. (owner-accounts (member x) st o).1) (owner-HasFailed st o 0) v

  pub worker-IsWritten :
      {p q : System HashSet X} {out : Output} (st : ThirdStep p q)
      → OfWorker st
      → IsWritten p out
      → IsWritten q out
  worker-IsWritten st o v =
      quiet-IsWritten st (λ x. (worker-accounts (member x) st o).1) (worker-HasFailed st o 0) v

  write_lines-Lines :
      (opened : Bool) (file : List String) (q : System HashSet X) (set : HashSet) (r : Result X)
      (order : List ℕ)
      → IsOrderOf set order
      → Lines opened file q
      → Lines true (write_lines opened (map to_string order) file) (executed q 0 set r succeeds)
  unfolding write_lines
  write_lines-Lines false file q set r order each h = (
    order,
    refl,
    λ x.
        let y : Executed X = succeeds in
        omega (arith, each x, h x, executed-left (member x) q 0 set r y),
  )
  write_lines-Lines true file q set r order each (before, lines, counts) = (
    before ++ order,
    rw (lines, map-append) refl,
    λ x.
        let y : Executed X = succeeds in
        omega (
          arith,
          each x,
          counts x,
          weigh-append (is_payload x) before order,
          executed-left (member x) q 0 set r y,
        ),
  )

  pub third_writes-IsWritten :
      {q : System HashSet X} {out : Output} {set : HashSet} {r : Result X} (order : List ℕ)
      → IsOrderOf set order
      → q.workers 0 ≡ executes (user set) r
      → IsWritten q out
      → IsWritten (executed q 0 set r succeeds) (write_payload to_string order 0 out)
  unfolding write_payload third_stage
  third_writes-IsWritten {q} {out} {set} {r} order each e v = record {
    reached = later v.reached (worker_executes 0 succeeds (omega arith) e);
    told = elim v.told [
      | inl h ↦ inl (
          rw (update_same out.opened 0 true)
            (write_lines-Lines (out.opened 0) out.file q set r order each h))
      | inr f ↦ inr (executed-HasFailed q 0 succeeds e 0 f)
    ];
  }

  pub third_fails_to_write-IsWritten :
      {q : System HashSet X} {out : Output} {set : HashSet} {r : Result X} (e : X)
      → q.workers 0 ≡ executes (user set) r
      → IsWritten q out
      → IsWritten (executed q 0 set r (fails e)) out
  unfolding third_stage
  third_fails_to_write-IsWritten {q} {out} {set} {r} x e v = record {
    reached = later v.reached (worker_executes 0 (fails x) (omega arith) e);
    told =
        inr (rw (update_same q.workers 0 (execute (user set) r (fails x))) (execute-fails set r x));
  }

  -- A payload is sent to the third stage.
  pub enqueued-IsWritten :
      {q : System HashSet X} {out : Output} (set : HashSet)
      → q.phase ≡ running
      → length q.queue < third_stage.queue_size
      → IsWritten q out
      → IsWritten (enqueued (user set) q) out
  enqueued-IsWritten set ph room v = quiet-IsWritten (submits set ph room) (λ x. refl) (λ f. f) v
