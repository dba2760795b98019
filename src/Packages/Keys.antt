-- ===== src/Packages/Keys.antt =====
-- The ids of the workflows of a project, as `export_project` of src/agentops/service.py lists them.
use agentops_control_plane.Base.{
  ℕ, zero, suc, ◌≤◌, ◌<◌, true, false, ◌||◌, ◌≡◌, refl, ◌∙◌, ap, Option, some, List, [], ◌∷◌, ◌++◌,
  map, keep, length, occurs, ◌==◌, ==_refl, eq_of_==, arith, Bool-cases, inl, inr,
}
use agentops_control_plane.Base.Table.{rows_below}
use agentops_control_plane.Store.Rows.{Workflow}
use agentops_control_plane.Packages.{source_ids, distinct_ids}
use agentops_control_plane.Packages.Export.{reversed, pack, of_project}

abbrev pub keys : List (ℕ × Workflow) → List ℕ
keys rows = map (λ r. r.0) rows

pub source_ids-pack : (rows : List (ℕ × Workflow)) → source_ids (map pack rows) ≡ keys rows
source_ids-pack [] = refl
source_ids-pack (r ∷ rows) = ap (λ ids. r.0 ∷ ids) (source_ids-pack rows)

pub length-keys : (rows : List (ℕ × Workflow)) → length (keys rows) ≡ length (map pack rows)
length-keys [] = refl
length-keys (r ∷ rows) = ap suc (length-keys rows)

map-append : {A B : Type 0} (f : A → B) (xs ys : List A) → map f (xs ++ ys) ≡ map f xs ++ map f ys
map-append f [] ys = refl
map-append f (x ∷ xs) ys = ap (λ zs. f x ∷ zs) (map-append f xs ys)

occurs-append : (k : ℕ) (xs ys : List ℕ) → occurs k (xs ++ ys) ≡ (occurs k xs || occurs k ys)
occurs-append k [] ys = refl
occurs-append k (x ∷ xs) ys = ground (arith, occurs-append k xs ys)

pub occurs-reversed :
    (k : ℕ) (rows : List (ℕ × Workflow)) → occurs k (keys (reversed rows)) ≡ occurs k (keys rows)
occurs-reversed k [] = refl
occurs-reversed k (r ∷ rows) =
    rw (map-append (λ (x : ℕ × Workflow). x.0) (reversed rows) (r ∷ []))
      (ground (arith, occurs-append k (keys (reversed rows)) (r.0 ∷ []), occurs-reversed k rows))

distinct_ids-append :
    (xs : List ℕ) (k : ℕ)
    → distinct_ids xs ≡ true
    → occurs k xs ≡ false
    → distinct_ids (xs ++ k ∷ []) ≡ true
distinct_ids-append [] k h new = refl
distinct_ids-append (x ∷ xs) k h new = ground (
  arith,
  occurs-append x xs (k ∷ []),
  distinct_ids-append xs k,
  eq_of_== k x,
  eq_of_== x k,
  ==_refl x,
)

pub distinct_ids-reversed :
    (rows : List (ℕ × Workflow))
    → distinct_ids (keys rows) ≡ true
    → distinct_ids (keys (reversed rows)) ≡ true
distinct_ids-reversed [] h = refl
distinct_ids-reversed (r ∷ rows) h =
    rw (map-append (λ (x : ℕ × Workflow). x.0) (reversed rows) (r ∷ [])) (
      distinct_ids-append (keys (reversed rows)) r.0 (distinct_ids-reversed rows (ground arith))
        (occurs-reversed r.0 rows ∙ ground arith))

module _ (project_id : ℕ) where
  abbrev pub own : ℕ → (ℕ → Option Workflow) → List (ℕ × Workflow)
  own n row = keep (of_project project_id) (rows_below n row)

  own-above :
      (n : ℕ) (row : ℕ → Option Workflow) (k : ℕ) → n ≤ k → occurs k (keys (own n row)) ≡ false
  unfolding rows_below
  own-above zero row k le = refl
  own-above (suc n) row k le = ground (arith, own-above n row k (omega arith))

  pub own-below :
      (n : ℕ) (row : ℕ → Option Workflow) (k : ℕ) (w : Workflow)
      → k < n
      → row k ≡ some w
      → (w.project_id == project_id) ≡ true
      → occurs k (keys (own n row)) ≡ true
  unfolding rows_below
  own-below zero row k w lt there mine = elim lt [ ]
  own-below (suc n) row k w lt there mine = elim (Bool-cases (n == k)) [
    | inl same ↦ ground (arith, ap row (eq_of_== n k same))
    | inr other ↦ ground (arith, own-below n row k w (ground arith) there mine)
  ]

  pub own-distinct : (n : ℕ) (row : ℕ → Option Workflow) → distinct_ids (keys (own n row)) ≡ true
  unfolding rows_below
  own-distinct zero row = refl
  own-distinct (suc n) row = ground (arith, own-distinct n row, own-above n row n (omega arith))
