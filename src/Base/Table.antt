-- ===== src/Base/Table.antt =====
-- A database table with an INTEGER PRIMARY KEY AUTOINCREMENT column: the next id, and the row of
-- each id. Ids are given out once, so every row lies below the next id.
use Prim.Native.Nat.{ℕ, zero, suc, ◌+◌, ◌<◌}
use mathlib.Core.Path.{◌≡◌, ap, refl}
use mathlib.Core.Bool.{Bool, false, ◌||◌}
use mathlib.Core.Option.{Option, none, some}
use mathlib.Core.Logic.{inl, inr}
use native.Mathlib.Omega.{arith}
use mathlib.Core.List.{List, [], ◌∷◌}
use agentops_control_plane.Base.Tests.{◌==◌, if◌then◌else◌, Bool-cases, eq_of_==}

pub record Table {ℓ} (A : Type ℓ) : Type ℓ where
  pub next : ℕ
  pub row : ℕ → Option A

module _ {ℓ} {A : Type ℓ} where
  abbrev pub map_row : (A → A) → Option A → Option A
  map_row f none = none
  map_row f (some a) = some (f a)

  abbrev pub holds : (A → Bool) → Option A → Bool
  holds p none = false
  holds p (some a) = p a

  -- CREATE TABLE
  abbrev pub empty : Table A
  empty = record { next = 1; row = λ _. none }

  -- INSERT INTO; the id of the new row is the old `next`.
  abbrev pub insert : A → Table A → Table A
  insert a t = record { next = t.next + 1; row = λ k. if k == t.next then some a else t.row k }

  -- UPDATE ... WHERE id=?
  abbrev pub update : ℕ → (A → A) → Table A → Table A
  update k f t = record t { row = λ j. if j == k then map_row f (t.row j) else t.row j }

  -- UPDATE ... WHERE a condition on the row.
  abbrev pub update_where : (A → Bool) → (A → A) → Table A → Table A
  update_where p f t = record t { row = λ j. map_row (λ a. if p a then f a else a) (t.row j) }

  -- Does a row below `n` meet the condition?
  unfoldable pub any_below : ℕ → (A → Bool) → (ℕ → Option A) → Bool
  any_below zero p row = false
  any_below (suc n) p row = holds p (row n) || any_below n p row

  unfoldable pub any_row : (A → Bool) → Table A → Bool
  unfolding any_below
  any_row p t = any_below t.next p t.row

  abbrev cons_row : ℕ → Option A → List (ℕ × A) → List (ℕ × A)
  cons_row k none rest = rest
  cons_row k (some a) rest = (k, a) ∷ rest

  -- The rows below `n`, the newest first.
  unfoldable pub rows_below : ℕ → (ℕ → Option A) → List (ℕ × A)
  rows_below zero row = []
  rows_below (suc n) row = cons_row n (row n) (rows_below n row)

  unfoldable pub newest_first : Table A → List (ℕ × A)
  unfolding rows_below
  newest_first t = rows_below t.next t.row

module _ {ℓ} {A : Type ℓ} where
  any_below-false :
      (n : ℕ) (p : A → Bool) (row : ℕ → Option A) (k : ℕ) (a : A)
      → any_below n p row ≡ false
      → k < n
      → row k ≡ some a
      → p a ≡ false
  unfolding any_below
  any_below-false zero p row k a h lt e = elim lt [ ]
  any_below-false (suc n) p row k a h lt e = elim (Bool-cases (k == n)) [
    | inl same ↦ ground (arith, ap row (eq_of_== k n same))
    | inr other ↦ any_below-false n p row k a (ground arith) (ground arith) e
  ]

  -- Where no row meets a condition, a row that is found does not.
  pub any_row-false :
      (p : A → Bool) (t : Table A) (k : ℕ) (a : A)
      → any_row p t ≡ false
      → k < t.next
      → t.row k ≡ some a
      → p a ≡ false
  unfolding any_row
  any_row-false p t = any_below-false t.next p t.row

  holds-none : (p : A → Bool) (o : Option A) → ((a : A) → p a ≡ false) → holds p o ≡ false
  holds-none p none h = refl
  holds-none p (some a) h = h a

  any_below-none :
      (p : A → Bool) (n : ℕ) (row : ℕ → Option A)
      → ((a : A) → p a ≡ false)
      → any_below n p row ≡ false
  unfolding any_below
  any_below-none p zero row h = refl
  any_below-none p (suc n) row h = ground (arith, holds-none p (row n) h, any_below-none p n row h)

  -- A condition that no row can meet.
  pub any_row-none : (p : A → Bool) (t : Table A) → ((a : A) → p a ≡ false) → any_row p t ≡ false
  unfolding any_row
  any_row-none p t h = any_below-none p t.next t.row h
