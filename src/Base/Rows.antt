-- ===== src/Base/Rows.antt =====
-- The rows of a table as a list, the newest first: under an insertion, and filtered.
use agentops_control_plane.Base.Tests.{Bool-cases, Option-cases}
use agentops_control_plane.Base.Lists.{keep, find_first}
use agentops_control_plane.Base.Table.{Table, insert, update, rows_below, newest_first}
use Prim.Native.Nat.{ℕ, zero, suc, ◌<◌}
use mathlib.Core.Path.{◌≡◌, refl, sym, ap, ◌∙◌}
use mathlib.Core.Logic.{inl, inr}
use mathlib.Core.Bool.{Bool, true}
use mathlib.Core.Option.{Option, some}
use mathlib.Core.List.{◌∷◌}
use native.Mathlib.Omega.{arith}

module _ {ℓ} {A : Type ℓ} where
  -- Two tables with the same rows below a bound.
  pub rows_below-cong :
      (n : ℕ) (row row' : ℕ → Option A)
      → ((k : ℕ) → k < n → row k ≡ row' k)
      → rows_below n row ≡ rows_below n row'
  unfolding rows_below
  rows_below-cong zero row row' h = refl
  rows_below-cong (suc n) row row' h =
      ground (arith, h n (omega arith), rows_below-cong n row row' (λ k lt. h k (omega arith)))

  pub newest_first-insert :
      (a : A) (t : Table A) → newest_first (insert a t) ≡ (t.next, a) ∷ newest_first t
  unfolding newest_first rows_below
  newest_first-insert a t =
      ground (arith, rows_below-cong t.next (insert a t).row t.row (λ k lt. ground arith))

  -- Two conditions that agree on the rows that are there select the same ones.
  pub keep-rows_below_cong :
      (p q : ℕ × A → Bool) (n : ℕ) (row : ℕ → Option A)
      → ((k : ℕ) (a : A) → row k ≡ some a → p (k, a) ≡ q (k, a))
      → keep p (rows_below n row) ≡ keep q (rows_below n row)
  unfolding rows_below
  keep-rows_below_cong p q zero row h = refl
  keep-rows_below_cong p q (suc n) row h = elim (Option-cases (row n)) [
    | inl absent ↦ rw absent (keep-rows_below_cong p q n row h)
    | inr (a, e) ↦ ground (arith, h n a e, keep-rows_below_cong p q n row h)
  ]

  -- The first row with a key, found before and after an update of it that keeps the key.
  pub find_first-update :
      (key : A → Bool) (f : A → A) (n : ℕ) (t : Table A) (id : ℕ) (a : A)
      → ((b : A) → key (f b) ≡ key b)
      → find_first (λ row. key row.1) (rows_below n t.row) ≡ some (id, a)
      → find_first (λ row. key row.1) (rows_below n (update id f t).row) ≡ some (id, f a)
  unfolding rows_below
  find_first-update key f zero t id a keeps h = ground arith
  find_first-update key f (suc n) t id a keeps h = elim (Option-cases (t.row n)) [
    | inl absent ↦ ground (arith, find_first-update key f n t id a keeps)
    | inr (b, e) ↦ elim (Bool-cases (key b)) [
      | inl own ↦
          let at : n ≡ id = ground arith in
          let it : b ≡ a = ground arith in ground (arith, keeps b, ap f it)
      | inr other ↦ ground (arith, find_first-update key f n t id a keeps, keeps b)
    ]
  ]

  -- A row that is found is stored.
  pub find_first-stored :
      (key : A → Bool) (n : ℕ) (row : ℕ → Option A) (id : ℕ) (a : A)
      → find_first (λ r. key r.1) (rows_below n row) ≡ some (id, a)
      → (row id ≡ some a) × (key a ≡ true)
  unfolding rows_below
  find_first-stored key zero row id a h = ground arith
  find_first-stored key (suc n) row id a h = elim (Option-cases (row n)) [
    | inl absent ↦ find_first-stored key n row id a (ground arith)
    | inr (b, e) ↦ elim (Bool-cases (key b)) [
      | inl own ↦
          let at : n ≡ id = ground arith in
          let it : b ≡ a = ground arith in (sym (ap row at) ∙ e ∙ ap some it, rw (← it) own)
      | inr other ↦ find_first-stored key n row id a (ground arith)
    ]
  ]
