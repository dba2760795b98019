-- ===== src/Evaluations/Comparison.antt =====
-- The rows of a comparison of two evaluations, and their transitions.
use agentops_control_plane.Base.{
  one_of, String, str_eq, eq_iff, ℕ, ◌+◌, ◌≡◌, Bool, true, false, ◌&&◌, List, [], ◌∷◌, ◌++◌, Option,
  none, some, length, tally, arith, map, ◌==◌, refl, ◌∙◌, if◌then◌else◌,
}
use agentops_control_plane.Base.Sorting.{tally-sort_by, sort_by-IsSorted, IsSorted}
use agentops_control_plane.Evaluations.{
  CaseResult, Row, regressed, fixed, removed, added, stable_fail, stable_pass, order, transition,
  by_case, row_of, comparison, count, case_ids, fromkeys, without, Transition,
}

abbrev pub passes : Option CaseResult → Bool
passes none = false
passes (some r) = r.passed

abbrev pub is_added : Row → Bool
is_added row = order row.transition == order added

abbrev pub is_removed : Row → Bool
is_removed row = order row.transition == order removed

abbrev pub indicator : Bool → ℕ
indicator true = 1
indicator false = 0

count_row :
    (t : Transition)
    → indicator (order t == order regressed)
        + indicator (order t == order fixed)
        + indicator (order t == order removed)
        + indicator (order t == order added)
        + indicator (order t == order stable_fail)
        + indicator (order t == order stable_pass)
      ≡ 1
count_row regressed = refl
count_row fixed = refl
count_row removed = refl
count_row added = refl
count_row stable_fail = refl
count_row stable_pass = refl

-- The six counts of a list of rows add up to its length.
count-total :
    (rows : List Row)
    → count regressed rows
        + count fixed rows
        + count removed rows
        + count added rows
        + count stable_fail rows
        + count stable_pass rows
      ≡ length rows
count-total [] = refl
count-total (row ∷ rows) = ground (arith, count-total rows, count_row row.transition)

-- The comparison lists the regressed cases first, then the fixed, the removed, the added, and the
-- stable ones, and its six counts add up to its length.
pub comparison-order :
    (left right : List CaseResult)
    → let rows = comparison left right in
      IsSorted (λ r. order r.transition) rows
      × (count regressed rows
            + count fixed rows
            + count removed rows
            + count added rows
            + count stable_fail rows
            + count stable_pass rows
          ≡ length rows)
unfolding comparison
comparison-order left right = (
  sort_by-IsSorted (λ r. order r.transition)
      (map (row_of left right) (fromkeys (case_ids left ++ case_ids right))),
  count-total (comparison left right),
)

module _ (left right : List CaseResult) where
  balance_row :
      (l r : Option CaseResult)
      → let t = transition l r in
        indicator (passes l)
          + indicator (order t == order fixed)
          + indicator ((order t == order added) && passes r)
        ≡ indicator (passes r)
          + indicator (order t == order regressed)
          + indicator ((order t == order removed) && passes l)
  balance_row none none = refl
  balance_row none (some r) = ground arith
  balance_row (some l) none = ground arith
  balance_row (some l) (some r) = ground arith

  balance :
      (ids : List String)
      → let rows = map (row_of left right) ids in
        tally (λ r. passes r.left) rows
          + count fixed rows
          + tally (λ r. is_added r && passes r.right) rows
        ≡ tally (λ r. passes r.right) rows
          + count regressed rows
          + tally (λ r. is_removed r && passes r.left) rows
  balance [] = refl
  balance (k ∷ ks) = ground (arith, balance ks, balance_row (by_case left k) (by_case right k))

comparison-tally :
    (left right : List CaseResult) (p : Row → Bool)
    → tally p (comparison left right)
      ≡ tally p (map (row_of left right) (fromkeys (case_ids left ++ case_ids right)))
unfolding comparison
comparison-tally left right p =
    tally-sort_by (λ r. order r.transition) p
      (map (row_of left right) (fromkeys (case_ids left ++ case_ids right)))

-- The cases that pass on the left, those that the right fixes and those it adds passing are as many
-- as the cases that pass on the right, those that regress and those that pass on the left and are
-- removed.
pub comparison-balance :
    (left right : List CaseResult)
    → let rows = comparison left right in
      tally (λ r. passes r.left) rows
        + count fixed rows
        + tally (λ r. is_added r && passes r.right) rows
      ≡ tally (λ r. passes r.right) rows
        + count regressed rows
        + tally (λ r. is_removed r && passes r.left) rows
comparison-balance left right =
    rw
      (
        comparison-tally left right (λ r. passes r.left),
        comparison-tally left right (λ r. order r.transition == order fixed),
        comparison-tally left right (λ r. is_added r && passes r.right),
        comparison-tally left right (λ r. passes r.right),
        comparison-tally left right (λ r. order r.transition == order regressed),
        comparison-tally left right (λ r. is_removed r && passes r.left),
      )
      (balance left right (fromkeys (case_ids left ++ case_ids right)))

tally-without :
    (k j : String) (ks : List String)
    → tally (λ i. str_eq i k) (without j ks)
      ≡ (if str_eq j k then 0 else tally (λ i. str_eq i k) ks)
tally-without k j [] = ground arith
tally-without k j (i ∷ is) =
    ground (arith, tally-without k j is, eq_iff i j, eq_iff i k, eq_iff j k)

tally-fromkeys :
    (k : String) (ks : List String)
    → tally (λ i. str_eq i k) (fromkeys ks) ≡ indicator (one_of k ks)
tally-fromkeys k [] = refl
tally-fromkeys k (j ∷ js) =
    ground (arith, tally-fromkeys k js, tally-without k j (fromkeys js), eq_iff j k, eq_iff k j)

tally-rows :
    (left right : List CaseResult) (k : String) (ids : List String)
    → tally (λ r. str_eq r.case_id k) (map (row_of left right) ids) ≡ tally (λ i. str_eq i k) ids
tally-rows left right k [] = refl
tally-rows left right k (i ∷ is) = omega (arith, tally-rows left right k is)

-- Every case that one of the evaluations has a result for stands in exactly one row of the
-- comparison, and no other case does.
pub comparison-once :
    (left right : List CaseResult) (k : String)
    → tally (λ r. str_eq r.case_id k) (comparison left right)
      ≡ indicator (one_of k (case_ids left ++ case_ids right))
comparison-once left right k = rw (comparison-tally left right (λ r. str_eq r.case_id k)) (
    tally-rows left right k (fromkeys (case_ids left ++ case_ids right))
    ∙ tally-fromkeys k (case_ids left ++ case_ids right))
