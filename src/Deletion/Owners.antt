-- ===== src/Deletion/Owners.antt =====
-- The project of a row, after the deletion of a project.
use agentops_control_plane.Base.{
  ℕ, Bool, true, false, ◌≡◌, refl, sym, ap, ◌∙◌, Option, none, some, ◌==◌, if◌then◌else◌, arith,
  Bool-cases, Option-cases, inl, inr,
}
use agentops_control_plane.Base.Table.{holds, map_row}
use agentops_control_plane.Service.{Service}
use agentops_control_plane.Deletion.{drop_row, of_workflow, of_run, cascade}
use agentops_control_plane.Deletion.Intact.{
  workflow_project, run_project, dataset_project, HasProject, Belongs,
}

abbrev pub without : ℕ → Option ℕ → Option ℕ
without q none = none
without q (some p) = if p == q then none else some p

abbrev pub is_of : ℕ → Option ℕ → Bool
is_of q found = holds (λ p. p == q) found

pub drop_row-some :
    {A : Type 0} (gone : A → Bool) (o : Option A) (a : A)
    → drop_row gone o ≡ some a
    → (o ≡ some a) × (gone a ≡ false)
drop_row-some gone none a h = ground arith
drop_row-some gone (some b) a h = elim (Bool-cases (gone b)) [
  | inl gone_b ↦ ground arith
  | inr kept ↦ let same : b ≡ a = ground arith in (ap some same, rw (← same) kept)
]

pub map_row-some :
    {A : Type 0} (f : A → A) (o : Option A) (b : A)
    → map_row f o ≡ some b
    → (a : A) × (o ≡ some a) × (b ≡ f a)
map_row-some f none b h = ground arith
map_row-some f (some a) b h = (a, refl, ground arith)

without-other : (q : ℕ) (found : Option ℕ) → is_of q found ≡ false → without q found ≡ found
without-other q none h = refl
without-other q (some p) h = ground arith

module _ (v : Service) (q : ℕ) where
  abbrev pub v' : Service
  v' = cascade v q

  pub workflow_project-cascade : (k : ℕ) → workflow_project v' k ≡ without q (workflow_project v k)
  unfolding cascade
  workflow_project-cascade k = elim (Option-cases (v.db.workflows.row k)) [
    | inl absent ↦ rw absent refl
    | inr (w, there) ↦ rw there (ground arith)
  ]

  pub of_workflow-is_of : (k : ℕ) → of_workflow v q k ≡ is_of q (workflow_project v k)
  of_workflow-is_of k = elim (Option-cases (v.db.workflows.row k)) [
    | inl absent ↦ rw absent refl
    | inr (w, there) ↦ rw there refl
  ]

  pub of_run-is_of : (k : ℕ) → of_run v q k ≡ is_of q (run_project v k)
  of_run-is_of k = elim (Option-cases (v.db.runs.row k)) [
    | inl absent ↦ rw absent refl
    | inr (r, there) ↦ rw there (of_workflow-is_of r.workflow_id)
  ]

  without-of : (found : Option ℕ) → is_of q found ≡ true → without q found ≡ none
  without-of none h = refl
  without-of (some p) h = ground arith

  pub run_project-cascade : (k : ℕ) → run_project v' k ≡ without q (run_project v k)
  unfolding cascade
  run_project-cascade k = elim (Option-cases (v.db.runs.row k)) [
    | inl absent ↦ rw absent refl
    | inr (r, there) ↦ elim (Bool-cases (of_workflow v q r.workflow_id)) [
      | inl gone ↦
          rw (there, gone)
            (sym (
              without-of (workflow_project v r.workflow_id)
                (sym (of_workflow-is_of r.workflow_id) ∙ gone)))
      | inr kept ↦ rw (there, kept) (workflow_project-cascade r.workflow_id)
    ]
  ]

  pub dataset_project-cascade : (k : ℕ) → dataset_project v' k ≡ without q (dataset_project v k)
  unfolding cascade
  dataset_project-cascade k = elim (Option-cases (v.datasets.row k)) [
    | inl absent ↦ rw absent refl
    | inr (d, there) ↦ rw there (ground arith)
  ]

  pub HasProject-cascade : (p : ℕ) → (p == q) ≡ false → HasProject v p → HasProject v' p
  unfolding cascade
  HasProject-cascade p other (name, stored) = (name, ground arith)

  -- What belongs to another project still belongs to it.
  Belongs-cascade :
      (found : Option ℕ) → is_of q found ≡ false → Belongs v found → Belongs v' (without q found)
  Belongs-cascade found other (p, at, stored) =
      let elsewhere : (p == q) ≡ false = sym (ap (is_of q) at) ∙ other in
      (p, without-other q found other ∙ at, HasProject-cascade p elsewhere stored)

  pub run-Belongs :
      (k : ℕ) → of_run v q k ≡ false → Belongs v (run_project v k) → Belongs v' (run_project v' k)
  run-Belongs k kept h =
      rw (run_project-cascade k) (Belongs-cascade (run_project v k) (sym (of_run-is_of k) ∙ kept) h)

  pub workflow-Belongs :
      (k : ℕ)
      → of_workflow v q k ≡ false
      → Belongs v (workflow_project v k)
      → Belongs v' (workflow_project v' k)
  workflow-Belongs k kept h =
      rw (workflow_project-cascade k)
        (Belongs-cascade (workflow_project v k) (sym (of_workflow-is_of k) ∙ kept) h)
