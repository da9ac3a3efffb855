-- ===== src/CrossbeamBlockingQueue/Places.antt =====
-- A list in the place of the ArrayQueue of src/crossbeam_blocking_queue.rs: its laws can hold.
use command_executor.Base.{
  ℕ, zero, suc, ◌<◌, ◌≡◌, refl, Option, none, some, List, [], ◌∷◌, ◌++◌, length, is_nil, ltb, ◌==◌,
  if◌then◌else◌, arith,
}
use command_executor.CrossbeamBlockingQueue.Array.{ArrayQueue, Pushes, Pops, IsArrayQueue}

-- A list of at most `places` elements.
pub record Places : Type 0 where
  pub places : ℕ
  pub elements : List ℕ

abbrev pub make : ℕ → Option Places
make zero = none
make (suc n) = some (record { places = suc n; elements = [] })

abbrev pub put : ℕ → Places → Option ℕ × Places
put e s =
    if ltb (length s.elements) s.places
    then (none, record s { elements = s.elements ++ (e ∷ []) })
    else (some e, s)

abbrev pub take_first : ℕ → List ℕ → Option ℕ × Places
take_first n [] = (none, record { places = n; elements = [] })
take_first n (x ∷ xs) = (some x, record { places = n; elements = xs })

abbrev pub in_places : ArrayQueue ℕ Places
in_places = record {
  new = make;
  len = λ s. length s.elements;
  capacity = λ s. s.places;
  is_empty = λ s. is_nil s.elements;
  is_full = λ s. length s.elements == s.places;
  push = put;
  pop = λ s. take_first s.places s.elements;
}

pub in_places-push :
    (e : ℕ) (s : Places)
    → (in_places.capacity (in_places.push e s).1 ≡ s.places)
      × Pushes s.places e s.elements (in_places.push e s).0 (in_places.push e s).1.elements
in_places-push e s = ground arith

pub in_places-pop :
    (s : Places)
    → (in_places.capacity (in_places.pop s).1 ≡ s.places)
      × Pops s.elements (in_places.pop s).0 (in_places.pop s).1.elements
in_places-pop s = ground arith

pub in_places-new :
    (size : ℕ)
    → 0 < size
    → (s : Places) × (make size ≡ some s) × (s.elements ≡ []) × (s.places ≡ size)
in_places-new zero h = absurd (omega arith)
in_places-new (suc n) h = (record { places = suc n; elements = [] }, refl, refl, refl)

unfoldable pub in_places-IsArrayQueue : IsArrayQueue in_places
in_places-IsArrayQueue = record {
  contents = λ s. s.elements;
  new_refuses = refl;
  new_makes = in_places-new;
  len_counts = λ s. refl;
  is_empty_tests = λ s. refl;
  is_full_tests = λ s. refl;
  push_capacity = λ e s. (in_places-push e s).0;
  push_effect = λ e s. (in_places-push e s).1;
  pop_capacity = λ s. (in_places-pop s).0;
  pop_effect = λ s. (in_places-pop s).1;
}
