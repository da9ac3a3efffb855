-- ===== src/CrossbeamBlockingQueue/System.antt =====
-- Any number of threads on one queue of src/crossbeam_blocking_queue.rs. Their attempts interleave in
-- any order, and the clock may read anything.
use command_executor.Base.{ℕ, ◌<◌, ◌≡◌, Option, none, some, List, [], ◌∷◌, ◌++◌, update}
use command_executor.Duration.{Timer}
use command_executor.CrossbeamBlockingQueue.{
  Outcome, returned, retries, Offer, try_enqueue, attempt_enqueue, try_dequeue, attempt_dequeue,
  wait_empty, attempt_wait_empty, new,
}
use command_executor.CrossbeamBlockingQueue.Array.{ArrayQueue}

-- A thread is outside the queue, in the loop of one of the three methods, or in `wait_empty` before
-- its last reading.
pub data Thread {ℓ} (E : Type ℓ) : Type ℓ where
  outside : Thread E
  enqueuing : Offer E → Thread E
  dequeuing waiting : Timer → Thread E
  leaving : Thread E

-- `given` records the elements with which `try_enqueue` was called, `accepted` those that went into
-- the queue, `refused` those that came back, and `delivered` those that left the queue.
pub record System {ℓ κ} (E : Type ℓ) (S : Type κ) : Type (ℓ ⊔ κ) where
  pub array : S
  pub threads : ℕ → Thread E
  pub given : List E
  pub accepted : List E
  pub refused : List E
  pub delivered : List E

module _ {ℓ} {E : Type ℓ} where
  abbrev pub accepts : E → Outcome (Offer E) (Option E) → List E
  accepts e (returned none) = e ∷ []
  accepts e _ = []

  abbrev pub refuses : Outcome (Offer E) (Option E) → List E
  refuses (returned (some e)) = e ∷ []
  refuses _ = []

  abbrev pub delivers : Outcome Timer (Option E) → List E
  delivers (returned (some e)) = e ∷ []
  delivers _ = []

  abbrev pub land_enqueue : Outcome (Offer E) (Option E) → Thread E
  land_enqueue (returned r) = outside
  land_enqueue (retries o) = enqueuing o

  abbrev pub land_dequeue : Outcome Timer (Option E) → Thread E
  land_dequeue (returned r) = outside
  land_dequeue (retries w) = dequeuing w

  abbrev pub land_wait_empty : Outcome Timer (Unit {0}) → Thread E
  land_wait_empty (returned r) = leaving
  land_wait_empty (retries w) = waiting w

module _ {ℓ κ} {E : Type ℓ} {S : Type κ} where
  abbrev pub init : S → System E S
  init a = record {
    array = a;
    threads = λ _. outside;
    given = [];
    accepted = [];
    refused = [];
    delivered = [];
  }

  abbrev pub moved : System E S → ℕ → Thread E → System E S
  moved s i th = record s { threads = update s.threads i th }

  -- The system after an attempt of the thread `i` to enqueue `e`, and to dequeue.
  abbrev pub after_enqueue : System E S → ℕ → E → Outcome (Offer E) (Option E) × S → System E S
  after_enqueue s i e (o, a) = record s {
    array = a;
    threads = update s.threads i (land_enqueue o);
    accepted = s.accepted ++ accepts e o;
    refused = s.refused ++ refuses o;
  }

  abbrev pub after_dequeue : System E S → ℕ → Outcome Timer (Option E) × S → System E S
  after_dequeue s i (o, a) = record s {
    array = a;
    threads = update s.threads i (land_dequeue o);
    delivered = s.delivered ++ delivers o;
  }

module _ {ℓ κ} {E : Type ℓ} {S : Type κ} (A : ArrayQueue E S) (n : ℕ) where
  pub data Step (s : System E S) : System E S → Type (ℓ ⊔ κ) where
    calls_enqueue :
        (i : ℕ) (e : E) (timeout now : ℕ)
        → i < n
        → s.threads i ≡ outside
        → Step s (record s {
          threads = update s.threads i (enqueuing (try_enqueue e timeout now));
          given = s.given ++ (e ∷ []);
        })
    calls_dequeue :
        (i timeout now : ℕ)
        → i < n
        → s.threads i ≡ outside
        → Step s (moved s i (dequeuing (try_dequeue timeout now)))
    calls_wait_empty :
        (i timeout now : ℕ)
        → i < n
        → s.threads i ≡ outside
        → Step s (moved s i (waiting (wait_empty timeout now)))
    attempts_enqueue :
        (i now restart : ℕ) {o : Offer E}
        → i < n
        → s.threads i ≡ enqueuing o
        → Step s (after_enqueue s i o.e (attempt_enqueue A now restart o s.array))
    attempts_dequeue :
        (i now restart : ℕ) {w : Timer}
        → i < n
        → s.threads i ≡ dequeuing w
        → Step s (after_dequeue s i (attempt_dequeue A now restart w s.array))
    attempts_wait_empty :
        (i now restart : ℕ) {w : Timer}
        → i < n
        → s.threads i ≡ waiting w
        → Step s (moved s i (land_wait_empty (attempt_wait_empty A now restart w s.array)))
    answers : (i : ℕ) → i < n → s.threads i ≡ leaving → Step s (moved s i outside)

  pub data Reach (size : ℕ) : System E S → Type (ℓ ⊔ κ) where
    start : {a : S} → new A size ≡ some a → Reach size (init a)
    later : {s t : System E S} → Reach size s → Step s t → Reach size t
