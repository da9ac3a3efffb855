-- ===== src/Base/Family.antt =====
-- Families `ℕ → A`, one member for each thread: replacing one member, and adding up a number over
-- the first `n` members.
use Prim.Native.Nat.{ℕ, zero, suc, ◌+◌, ◌≤◌, ◌<◌}
use mathlib.Core.Path.{◌≡◌, refl}
use mathlib.Core.Logic.{◌≢◌, ◌⊎◌, inl, inr, ite, if_pos, if_neg}
use native.Mathlib.Decide.{dec_lt, ℕ_discrete}
use native.Mathlib.Omega.{arith}

abbrev pub update {ℓ} : {A : Type ℓ} → (ℕ → A) → ℕ → A → ℕ → A
update f i a j = ite (ℕ_discrete i j) a (f j)

pub update_same {ℓ} : {A : Type ℓ} (f : ℕ → A) (i : ℕ) (a : A) → update f i a i ≡ a
update_same f i a = if_pos (ℕ_discrete i i) refl _ _

pub update_other {ℓ} : {A : Type ℓ} (f : ℕ → A) {i j : ℕ} (a : A) → i ≢ j → update f i a j ≡ f j
update_other f {i = i} {j = j} a h = if_neg (ℕ_discrete i j) h _ _

-- A property of every member survives a replacement that has it.
pub update_all {ℓ κ} :
    {A : Type ℓ} (P : A → Type κ) (f : ℕ → A) (i : ℕ) (a : A)
    → ((j : ℕ) → P (f j))
    → P a
    → (j : ℕ) → P (update f i a j)
update_all P f i a all h j = elim (ℕ_discrete i j) [
  | yes here ↦ rw (if_pos _ here) h
  | no there ↦ rw (if_neg _ there) (all j)
]

-- The same for a property of a member at its place.
pub update_each {ℓ κ} :
    {A : Type ℓ} (P : ℕ → A → Type κ) (f : ℕ → A) (i : ℕ) (a : A)
    → ((j : ℕ) → P j (f j))
    → P i a
    → (j : ℕ) → P j (update f i a j)
update_each P f i a all h j = elim (ℕ_discrete i j) [
  | yes here ↦ rw (← here, update_same f i a) h
  | no there ↦ rw (update_other f {i = i} {j = j} a there) (all j)
]

-- A view of the members that the replacement does not change.
pub update_view {ℓ κ} :
    {A : Type ℓ} {B : Type κ} (view : A → B) (f : ℕ → A) (i : ℕ) (a : A)
    → view a ≡ view (f i)
    → (j : ℕ) → view (update f i a j) ≡ view (f j)
update_view view f i a same = update_each (λ j x. view x ≡ view (f j)) f i a (λ j. refl) same

module _ {ℓ} {A : Type ℓ} (size : A → ℕ) where
  unfoldable pub tally : ℕ → (ℕ → A) → ℕ
  tally zero f = 0
  tally (suc n) f = size (f n) + tally n f

  -- Members from `n` on do not count.
  tally-update_above :
      (n : ℕ) (f : ℕ → A) (i : ℕ) (a : A) → n ≤ i → tally n (update f i a) ≡ tally n f
  unfolding tally
  tally-update_above zero f i a h = refl
  tally-update_above (suc n) f i a h =
      rw (update_other f {i = i} {j = n} a (λ e. omega arith))
        (omega (arith, tally-update_above n f i a (omega arith)))

  pub tally-update :
      (n i : ℕ) (f : ℕ → A) (a : A)
      → i < n
      → tally n (update f i a) + size (f i) ≡ tally n f + size a
  unfolding tally
  tally-update zero i f a h = elim h [ ]
  tally-update (suc n) i f a h = elim (ℕ_discrete i n) [
    | yes last ↦
        rw last (rw (update_same f n a) (omega (arith, tally-update_above n f n a (omega arith))))
    | no below ↦
        rw (update_other f {i = i} {j = n} a below)
          (omega (arith, tally-update n i f a (omega arith)))
  ]

  pub tally-eq-zero : (n : ℕ) (f : ℕ → A) → ((i : ℕ) → i < n → size (f i) ≡ 0) → tally n f ≡ 0
  unfolding tally
  tally-eq-zero zero f h = refl
  tally-eq-zero (suc n) f h =
      omega (arith, h n (omega arith), tally-eq-zero n f (λ i lt. h i (omega arith)))

  -- If there is something to count, some member has it.
  pub tally_pos : (n : ℕ) (f : ℕ → A) → 0 < tally n f → (i : ℕ) × (i < n) × (0 < size (f i))
  unfolding tally
  tally_pos zero f h = absurd (omega arith)
  tally_pos (suc n) f h = elim (dec_lt 0 (size (f n))) [
    | yes here ↦ (n, omega arith, here)
    | no not_here ↦ let (i, lt, p) = tally_pos n f (omega arith) in (i, omega arith, p)
  ]

  pub size-le-tally : (n i : ℕ) (f : ℕ → A) → i < n → size (f i) ≤ tally n f
  unfolding tally
  size-le-tally zero i f h = elim h [ ]
  size-le-tally (suc n) i f h = elim (ℕ_discrete i n) [
    | yes last ↦ rw last (omega arith)
    | no below ↦ omega (arith, size-le-tally n i f (omega arith))
  ]

pub tally_mono {ℓ} :
    {A : Type ℓ} (a b : A → ℕ) (n : ℕ) (f g : ℕ → A)
    → ((i : ℕ) → a (f i) ≤ b (g i))
    → tally a n f ≤ tally b n g
unfolding tally
tally_mono a b zero f g h = omega arith
tally_mono a b (suc n) f g h = omega (arith, h n, tally_mono a b n f g h)

pub tally_map {ℓ} :
    {A : Type ℓ} (a : A → ℕ) (n : ℕ) (f g : ℕ → A)
    → ((i : ℕ) → a (f i) ≡ a (g i))
    → tally a n f ≡ tally a n g
tally_map a n f g h = omega (
  arith,
  tally_mono a a n f g (λ i. omega (arith, h i)),
  tally_mono a a n g f (λ i. omega (arith, h i)),
)

pub tally-le {ℓ} :
    {A : Type ℓ} (a : A → ℕ) (n : ℕ) (f : ℕ → A) → ((x : A) → a x ≤ 1) → tally a n f ≤ n
unfolding tally
tally-le a zero f h = omega arith
tally-le a (suc n) f h = omega (arith, h (f n), tally-le a n f h)

-- Where all count, each does.
pub tally_full {ℓ} :
    {A : Type ℓ} (a : A → ℕ) (n : ℕ) (f : ℕ → A)
    → ((x : A) → a x ≤ 1)
    → tally a n f ≡ n
    → (i : ℕ) → i < n
    → a (f i) ≡ 1
unfolding tally
tally_full a zero f h e i lt = elim lt [ ]
tally_full a (suc n) f h e i lt = elim (ℕ_discrete i n) [
  | yes last ↦ rw last (omega (arith, h (f n), tally-le a n f h))
  | no below ↦ tally_full a n f h (omega (arith, h (f n), tally-le a n f h)) i (omega arith)
]

-- Either all of the first `n` members have the one property, or some has the other.
pub each_or_some {ℓ κ} :
    {P : ℕ → Type ℓ} {Q : ℕ → Type κ} (n : ℕ)
    → ((i : ℕ) → i < n → P i ⊎ Q i)
    → ((i : ℕ) → i < n → P i) ⊎ ((i : ℕ) × (i < n) × Q i)
each_or_some zero h = inl (λ i lt. elim lt [ ])
each_or_some {P = P} {Q = Q} (suc n) h = elim (h n (omega arith)) [
  | inr q ↦ inr (n, omega arith, q)
  | inl p ↦ elim (each_or_some {P = P} {Q = Q} n (λ i lt. h i (omega arith))) [
    | inr (i, lt, q) ↦ inr (i, omega arith, q)
    | inl all ↦
        inl
          (λ i lt. elim (ℕ_discrete i n) [ yes last ↦ rw last p | no below ↦ all i (omega arith) ])
  ]
]

-- A sum in which each member is measured by its place.
abbrev pub tally_at {ℓ} : {A : Type ℓ} → (ℕ → A → ℕ) → ℕ → (ℕ → A) → ℕ
tally_at size n f = tally (λ (a : ℕ). a) n (λ i. size i (f i))

measured-update {ℓ} :
    {A : Type ℓ} (size : ℕ → A → ℕ) (i : ℕ) (f : ℕ → A) (a : A) (j : ℕ)
    → size j (update f i a j) ≡ update (λ k. size k (f k)) i (size i a) j
measured-update size i f a j = elim (ℕ_discrete i j) [
  | yes here ↦ rw (← here, update_same f i a, update_same (λ k. size k (f k)) i (size i a)) refl
  | no there ↦
      rw
        (
          update_other f {i = i} {j = j} a there,
          update_other (λ k. size k (f k)) {i = i} {j = j} (size i a) there,
        )
        refl
]

pub tally_at-update {ℓ} :
    {A : Type ℓ} (size : ℕ → A → ℕ) (n i : ℕ) (f : ℕ → A) (a : A)
    → i < n
    → tally_at size n (update f i a) + size i (f i) ≡ tally_at size n f + size i a
tally_at-update size n i f a lt = omega (
  arith,
  tally-update (λ (x : ℕ). x) n i (λ j. size j (f j)) (size i a) lt,
  tally_map (λ (x : ℕ). x) n (λ j. size j (update f i a j))
      (update (λ j. size j (f j)) i (size i a)) (measured-update size i f a),
)
