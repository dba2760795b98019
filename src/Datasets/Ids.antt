-- ===== src/Datasets/Ids.antt =====
-- The ids of the cases of a dataset.
use agentops_control_plane.Base.{
  ℕ, suc, String, false, ◌≡◌, refl, ap, List, [], ◌∷◌, map, some, one_of, arith, Bool-cases,
  Option-cases, inl, inr,
}
use agentops_control_plane.Base.Table.{any_row}
use agentops_control_plane.Store.Exec.{ok, Result-cases}
use agentops_control_plane.Datasets.{
  Posted, Case, Dataset, Catalog, Naming, case_id, normalized, create_dataset, same_name,
}

abbrev pub ids : List Case → List String
ids cases = map (λ c. c.id) cases

-- No id stands twice, or among those seen before.
abbrev pub AllNew : List String → List Case → Type 0
AllNew seen [] = Unit {0}
AllNew seen (c ∷ cases) = (one_of c.id seen ≡ false) × AllNew (c.id ∷ seen) cases

module _ (naming : Naming) where
  normalized-AllNew :
      (index : ℕ) (seen : List String) (posted : List Posted) (cases : List Case)
      → normalized naming index seen posted ≡ ok cases
      → AllNew seen cases × (map (λ c. c.body) cases ≡ map (λ p. p.body) posted)
  unfolding normalized
  normalized-AllNew index seen [] cases e =
      let same : [] ≡ cases = ground arith in rw (← same) (tt, refl)
  normalized-AllNew index seen (p ∷ posted) cases e =
      let id = case_id naming index p in
      elim (Bool-cases (one_of id seen)) [
        | inl twice ↦ absurd (ground arith)
        | inr new ↦ elim (Result-cases (normalized naming (suc index) (id ∷ seen) posted)) [
          | inr (x, bad) ↦ absurd (ground arith)
          | inl (rest, good) ↦
              let (distinct, bodies) = normalized-AllNew (suc index) (id ∷ seen) posted rest good in
              let same : record { id = id; body = p.body } ∷ rest ≡ cases = ground arith in
              rw (← same) ((new, distinct), ap (λ bs. p.body ∷ bs) bodies)
        ]
      ]

  -- The dataset that `create_dataset` returns is stored, under a name that no dataset of the project
  -- had. Its cases have what was sent, in its order, and no two of them have the same id.
  pub create_dataset-AllNew :
      (project_id : ℕ) (name : String) (posted : List Posted) (c : Catalog) (d : Dataset)
      → let (result, c') = create_dataset naming project_id name posted c in
        result ≡ ok d
        → (c'.datasets.row c.datasets.next ≡ some d)
          × (any_row (same_name naming project_id name) c.datasets ≡ false)
          × (map (λ x. x.body) d.cases ≡ map (λ p. p.body) posted)
          × AllNew [] d.cases
  unfolding create_dataset
  create_dataset-AllNew project_id name posted c d e =
      let taken = any_row (same_name naming project_id name) c.datasets in
      elim (Option-cases (c.db.projects.row project_id)) [
        | inl missing ↦ absurd (ground arith)
        | inr (project, found) ↦ elim (Result-cases (normalized naming 0 [] posted)) [
          | inr (x, bad) ↦ absurd (ground arith)
          | inl (cases, good) ↦
              let (distinct, bodies) = normalized-AllNew 0 [] posted cases good in
              elim (Bool-cases taken) [
                | inl conflicts ↦ absurd (ground arith)
                | inr free ↦
                    let stored : record { project_id = project_id; name = name; cases = cases }
                        ≡ d =
                      ground arith in
                    (ground arith, free, rw (← stored) bodies, rw (← stored) distinct)
              ]
        ]
      ]
