-- ===== src/Flush/Outcome.antt =====
-- What `main` of examples/flush_thread_local.rs compares.
use Prim.Native.String.{String}
use command_executor.Base.{
  dec_lt, weigh-append, ℕ, zero, suc, ◌≤◌, ◌<◌, ◌≡◌, refl, ap, inl, inr, Bool, true, false, Option,
  some, List, [], ◌∷◌, weigh, All, ltb, arith,
}
use command_executor.ThreadPool.Commands.{commands_once_in_order}
use command_executor.Fetch.Stages as Fetch
use command_executor.ThreadPool.{Command, down, ok, returned, System}
use command_executor.ThreadPool.Shutdown.{pending_all_executed}
use command_executor.Pipeline.{of_client}
use command_executor.Pipeline.Stages.{left}
use command_executor.Pipeline.Numbers.{range, read_results, read_results-map}
use command_executor.Fetch.{HashSet, is_payload, one}
use command_executor.Fetch.Stages.{store_numbers, Fetching}
use command_executor.Fetch.Outcome.{weigh-range}
use command_executor.Flush.Along.{Flushes-IsAlong}
use command_executor.Flush.Stages.{third_stage, closes_third, Flushing, member, Flushes}
use command_executor.Flush.Sent.{members, IsFed, IsFlushed}
use command_executor.Flush.Written.{Lines}

below_range : (count x : ℕ) → 0 < weigh (is_payload x) (range 0 count) → x < count
below_range count x h = let counted = weigh-range x 0 count in ground (arith, counted, h)

at_0 {ℓ} : {A : Type ℓ} (f : ℕ → A) (i : ℕ) {a : A} → f 0 ≡ a → i < 1 → f i ≡ a
at_0 f zero h lt = h
at_0 f (suc i) h lt = absurd (omega arith)

same_test : {n x count : ℕ} → (0 < n → x < count) → (x < count → 0 < n) → ltb 0 n ≡ ltb x count
same_test {n} {x} {count} f g = elim (dec_lt 0 n) [
  | yes above ↦ let lt = f above in ground arith
  | no below ↦ let ge : ¬ (x < count) = λ lt. below (g lt) in ground arith
]

-- The members of the sets sent are payloads of the source.
sent_below :
    {X : Type 0} (count : ℕ) {p : System ℕ X} {locals : ℕ → HashSet} {cs : List (Command HashSet)}
    → IsFed count p locals cs
    → (x : ℕ) → 0 < members x cs
    → x < count
unfolding Fetch.stages
sent_below count {p} v x sent =
    let there : v.collected x ≡ true = ground (arith, v.same x, sent) in
    let executed = v.kept.sound x (ground (arith, there)) in
    let (in_order, within, done) = commands_once_in_order v.reach in
    below_range count x (
      omega (
        arith,
        executed,
        ap (weigh (one x)) in_order,
        weigh-append (one x) p.taken p.queue,
        done (one x),
        v.all_submitted x,
      ))

All-below :
    (bound : ℕ) (order : List ℕ)
    → ((x : ℕ) → 0 < weigh (is_payload x) order → x < bound)
    → All (λ n. n < bound) order
All-below bound [] h = tt
All-below bound (n ∷ order) h =
    (h n (ground (arith)), All-below bound order (λ x more. h x (omega (arith, more))))

-- What is read back from the file.
read_back :
    {X : Type 0} (to_string : ℕ → String) (from_str : String → Option ℕ) (bound count : ℕ)
    → ((n : ℕ) → n < bound → from_str (to_string n) ≡ some n)
    → 0 < count
    → count ≤ bound
    → (opened : Bool) (file : List String) (q : System HashSet X) → Lines to_string opened file q
    → ((x : ℕ) → 0 < left (member x) q → x < count)
    → ((x : ℕ) → x < count → 0 < left (member x) q)
    → (result : List ℕ) × (read_results from_str file ≡ some result)
      × ((x : ℕ) → ltb 0 (weigh (is_payload x) result) ≡ ltb x count)
read_back to_string from_str bound count round_trip some_number fits false file q none sound
      complete =
    absurd (omega (arith, none 0, complete 0 some_number))
read_back to_string from_str bound count round_trip some_number fits true file q
      (order, lines, counts) sound complete =
    (
      order,
      rw lines (
          read_results-map to_string from_str bound round_trip order (
            All-below bound order
              (λ x h. let below = sound x (omega (arith, counts x, h)) in omega arith))),
      λ x.
          same_test (λ h. sound x (omega (arith, counts x, h)))
            (λ lt. omega (arith, counts x, complete x lt)),
    )

-- If numbers below a bound are read as they are written, and the program is run on the numbers below a count,
-- at least one and no more than the bound: when `main` has flushed the second stage and shut it down, and the
-- shutdown of the third stage has returned and its worker has ended without an error, every line of the
-- file is read, and the set of the numbers read is that of the numbers below the count.
pub flush_outcome :
    {X : Type 0} (to_string : ℕ → String) (from_str : String → Option ℕ) (bound count : ℕ)
    → ((n : ℕ) → n < bound → from_str (to_string n) ≡ some n)
    → 0 < count
    → count ≤ bound
    → {s : Flushing X} → Flushes to_string count s
    → s.stand ≡ closes_third
    → s.third.phase ≡ down
    → s.third.workers 0 ≡ returned ok
    → (result : List ℕ) × (read_results from_str s.out.file ≡ some result)
      × ((x : ℕ) → ltb 0 (weigh (is_payload x) result) ≡ ltb x count)
unfolding third_stage
flush_outcome to_string from_str bound count round_trip some_number fits {s} r at ph over =
    let v = Flushes-IsAlong to_string count r in
    let (fed, all) : IsFlushed count s.second s.locals s.third.submitted = rw at at v.in_stand in
    let finished : (x : ℕ) → members x s.third.submitted ≡ left (member x) s.third = λ x.
      pending_all_executed v.written.reached ph (λ i lt. rw (at_0 s.third.workers i over lt) tt)
        (of_client (member x)) refl in
    elim v.written.told [
      | inl lines ↦
          read_back to_string from_str bound count round_trip some_number fits (s.out.opened 0)
            s.out.file s.third lines (λ x h. sent_below count fed x (omega (arith, finished x, h)))
            (λ x lt. omega (arith, finished x, all x lt))
      | inr f ↦ absurd (rw over at f)
    ]
