-- ===== src/Base/Sorting.antt =====
-- Python's `sorted(xs, key=rank)`, which is stable, as an insertion sort.
use Prim.Native.Nat.{ℕ, zero, suc, ◌+◌, ◌≤◌, ◌<◌}
use mathlib.Core.Path.{◌≡◌, refl}
use mathlib.Core.Bool.{Bool}
use mathlib.Core.List.{List, [], ◌∷◌}
use native.Mathlib.Omega.{arith}
use agentops_control_plane.Base.Tests.{leb, if◌then◌else◌, Bool-cases, Option-cases, leb→le}
use mathlib.Core.Logic.{inl, inr}
use mathlib.Core.Option.{Option, some}
use agentops_control_plane.Base.Table.{rows_below}
use agentops_control_plane.Base.Lists.{length, tally, keep}

module _ {ℓ} {A : Type ℓ} (rank : A → ℕ) where
  abbrev pub insert_by : A → List A → List A
  insert_by x [] = x ∷ []
  insert_by x (y ∷ ys) =
      let rest = insert_by x ys in if leb (rank x) (rank y) then x ∷ y ∷ ys else y ∷ rest

  abbrev pub sort_by : List A → List A
  sort_by [] = []
  sort_by (x ∷ xs) = insert_by x (sort_by xs)

  abbrev pub AllAbove : ℕ → List A → Type 0
  AllAbove n [] = Unit {0}
  AllAbove n (y ∷ ys) = (n ≤ rank y) × AllAbove n ys

  abbrev pub IsSorted : List A → Type 0
  IsSorted [] = Unit {0}
  IsSorted (x ∷ xs) = AllAbove (rank x) xs × IsSorted xs

  AllAbove-weaken : (m n : ℕ) (xs : List A) → m ≤ n → AllAbove n xs → AllAbove m xs
  AllAbove-weaken m n [] le h = tt
  AllAbove-weaken m n (x ∷ xs) le h = (omega (arith, h.0), AllAbove-weaken m n xs le h.1)

  insert_by-AllAbove :
      (n : ℕ) (x : A) (ys : List A) → n ≤ rank x → AllAbove n ys → AllAbove n (insert_by x ys)
  insert_by-AllAbove n x [] le h = (le, tt)
  insert_by-AllAbove n x (y ∷ ys) le h = ground (arith, insert_by-AllAbove n x ys le h.1, h.0, h.1)

  insert_by-IsSorted : (x : A) (ys : List A) → IsSorted ys → IsSorted (insert_by x ys)
  insert_by-IsSorted x [] h = (tt, tt)
  insert_by-IsSorted x (y ∷ ys) h = elim (Bool-cases (leb (rank x) (rank y))) [
    | inl le ↦
        let below = leb→le (rank x) (rank y) le in
        rw le ((below, AllAbove-weaken (rank x) (rank y) ys below h.0), h)
    | inr gt ↦
        rw gt (insert_by-AllAbove (rank y) x ys (ground arith) h.0, insert_by-IsSorted x ys h.1)
  ]

  pub sort_by-IsSorted : (xs : List A) → IsSorted (sort_by xs)
  sort_by-IsSorted [] = tt
  sort_by-IsSorted (x ∷ xs) = insert_by-IsSorted x (sort_by xs) (sort_by-IsSorted xs)

  tally-insert_by :
      (p : A → Bool) (x : A) (ys : List A) → tally p (insert_by x ys) ≡ tally p (x ∷ ys)
  tally-insert_by p x [] = refl
  tally-insert_by p x (y ∷ ys) = ground (arith, tally-insert_by p x ys)

  -- Sorting keeps how many elements meet a condition.
  pub tally-sort_by : (p : A → Bool) (xs : List A) → tally p (sort_by xs) ≡ tally p xs
  tally-sort_by p [] = refl
  tally-sort_by p (x ∷ xs) = ground (arith, tally-insert_by p x (sort_by xs), tally-sort_by p xs)

  length-insert_by : (x : A) (ys : List A) → length (insert_by x ys) ≡ suc (length ys)
  length-insert_by x [] = refl
  length-insert_by x (y ∷ ys) = ground (arith, length-insert_by x ys)

  pub length-sort_by : (xs : List A) → length (sort_by xs) ≡ length xs
  length-sort_by [] = refl
  length-sort_by (x ∷ xs) = ground (arith, length-insert_by x (sort_by xs), length-sort_by xs)

module _ {ℓ} {A : Type ℓ} where
  abbrev pub All : (A → Type 0) → List A → Type 0
  All P [] = Unit {0}
  All P (x ∷ xs) = P x × All P xs

  module _ (P : A → Type 0) (rank : A → ℕ) where
    All-insert_by : (x : A) (ys : List A) → P x → All P ys → All P (insert_by rank x ys)
    All-insert_by x [] h hs = (h, tt)
    All-insert_by x (y ∷ ys) h hs = elim (Bool-cases (leb (rank x) (rank y))) [
      | inl le ↦ rw le (h, hs)
      | inr gt ↦ rw gt (hs.0, All-insert_by x ys h hs.1)
    ]

    pub All-sort_by : (xs : List A) → All P xs → All P (sort_by rank xs)
    All-sort_by [] hs = tt
    All-sort_by (x ∷ xs) hs = All-insert_by x (sort_by rank xs) hs.0 (All-sort_by xs hs.1)

  pub All-keep : (P : A → Type 0) (p : A → Bool) (xs : List A) → All P xs → All P (keep p xs)
  All-keep P p [] hs = tt
  All-keep P p (x ∷ xs) hs = elim (Bool-cases (p x)) [
    | inl kept ↦ rw kept (hs.0, All-keep P p xs hs.1)
    | inr left ↦ rw left (All-keep P p xs hs.1)
  ]

  pub All-map : (P Q : A → Type 0) (xs : List A) → ((x : A) → P x → Q x) → All P xs → All Q xs
  All-map P Q [] f hs = tt
  All-map P Q (x ∷ xs) f hs = (f x hs.0, All-map P Q xs f hs.1)

-- Every row of the list is stored under its id.
abbrev pub Stored : {A : Type 0} → (ℕ → Option A) → ℕ × A → Type 0
Stored row r = row r.0 ≡ some r.1

pub Stored-rows_below :
    {A : Type 0} (n : ℕ) (row : ℕ → Option A) → All (Stored row) (rows_below n row)
unfolding rows_below
Stored-rows_below zero row = tt
Stored-rows_below (suc n) row = elim (Option-cases (row n)) [
  | inl absent ↦ rw absent (Stored-rows_below n row)
  | inr (r, there) ↦ rw there (there, Stored-rows_below n row)
]

-- xs[i]
abbrev pub at : List ℕ → ℕ → ℕ
at [] i = 0
at (x ∷ xs) zero = x
at (x ∷ xs) (suc i) = at xs i

abbrev pub self : ℕ → ℕ
self n = n

at-AllAbove : (n : ℕ) (xs : List ℕ) (i : ℕ) → AllAbove self n xs → i < length xs → n ≤ at xs i
at-AllAbove n [] i h lt = omega arith
at-AllAbove n (x ∷ xs) zero h lt = h.0
at-AllAbove n (x ∷ xs) (suc i) h lt = at-AllAbove n xs i h.1 (omega arith)

-- In a sorted list, at least i + 1 elements are at most the one at position i.
pub tally-at :
    (xs : List ℕ) (i : ℕ)
    → IsSorted self xs
    → i < length xs
    → i + 1 ≤ tally (λ x. leb x (at xs i)) xs
tally-at [] i h lt = omega arith
tally-at (x ∷ xs) zero h lt = ground arith
tally-at (x ∷ xs) (suc i) h lt =
    ground (arith, tally-at xs i h.1 (omega arith), at-AllAbove x xs i h.0 (omega arith))

tally-AllAbove : (m n : ℕ) (xs : List ℕ) → m < n → AllAbove self n xs → tally (λ x. leb x m) xs ≡ 0
tally-AllAbove m n [] lt h = omega arith
tally-AllAbove m n (x ∷ xs) lt h = ground (arith, h.0, tally-AllAbove m n xs lt h.1)

-- In a sorted list, at most i elements are below the one at position i.
pub tally-below :
    (m : ℕ) (xs : List ℕ) (i : ℕ)
    → IsSorted self xs
    → i < length xs
    → m < at xs i
    → tally (λ x. leb x m) xs ≤ i
tally-below m [] i h lt above = absurd (omega arith)
tally-below m (x ∷ xs) zero h lt above = ground (arith, tally-AllAbove m x xs above h.0)
tally-below m (x ∷ xs) (suc i) h lt above =
    ground (arith, tally-below m xs i h.1 (omega arith) above)
