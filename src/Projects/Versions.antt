-- ===== src/Projects/Versions.antt =====
-- The versions of a workflow: `create_workflow` of src/agentops/service.py under the unique key of
-- (project_id, name, version).
use agentops_control_plane.Base.{
  ℕ, zero, suc, ◌+◌, ◌≤◌, ◌<◌, String, true, false, ◌≡◌, refl, Option, some, List, arith, ==_refl,
  Bool-cases, Option-cases, inl, inr,
}
use agentops_control_plane.Base.Table.{
  any_row, any_row-false, any_below, newest_first, rows_below, insert,
}
use agentops_control_plane.Store.Rows.{Step, Workflow}
use agentops_control_plane.Store.Exec.{Db, Error, ok, err}
use agentops_control_plane.Projects.{create_workflow, max_version, is_named, is_version}

module _ (project_id : ℕ) (name : String) where
  -- No stored version is greater than the maximum.
  no_greater :
      (n version : ℕ) (row : ℕ → Option Workflow)
      → max_version project_id name (rows_below n row) < version
      → any_below n (is_version project_id name version) row ≡ false
  unfolding rows_below any_below max_version
  no_greater zero version row lt = refl
  no_greater (suc n) version row lt = elim (Option-cases (row n)) [
    | inl absent ↦ rw absent (no_greater n version row (ground arith))
    | inr (w, there) ↦ ground (arith, no_greater n version row)
  ]

  -- No stored workflow has a version above the maximum.
  is_version-above :
      (s : Db) (version : ℕ)
      → max_version project_id name (newest_first s.workflows) < version
      → any_row (is_version project_id name version) s.workflows ≡ false
  unfolding any_row newest_first
  is_version-above s version lt = no_greater s.workflows.next version s.workflows.row lt

  -- A stored workflow of the name has at most the maximal version.
  version-le :
      (s : Db) (k : ℕ) (w : Workflow)
      → k < s.workflows.next
      → s.workflows.row k ≡ some w
      → is_named project_id name w ≡ true
      → w.version ≤ max_version project_id name (newest_first s.workflows)
  version-le s k w lt there named =
      let n = max_version project_id name (newest_first s.workflows) in
      let above = λ (h : n < w.version).
        any_row-false (is_version project_id name w.version) s.workflows k w
          (is_version-above s w.version h) lt there in
      ground (arith, above, ==_refl w.version)

  module _ (strip : String → String) where
    -- The workflow that `create_workflow` adds.
    abbrev pub made : Db → List Step → Workflow
    made s steps = record {
      project_id = project_id;
      name = name;
      version = max_version project_id name (newest_first s.workflows) + 1;
      steps = steps;
    }

    pub create_workflow-made :
        (s : Db) (project : String) (steps : List Step)
        → s.projects.row project_id ≡ some project
        → strip name ≡ name
        → create_workflow strip project_id name steps s ≡ (
          ok (s.workflows.next, made s steps),
          record s { workflows = insert (made s steps) s.workflows },
        )
    unfolding create_workflow
    create_workflow-made s project steps found plain =
        let version = max_version project_id name (newest_first s.workflows) + 1 in
        let free = is_version-above s version (omega arith) in
        rw (found, plain, free, ==_refl s.workflows.next) refl

    -- A name with no blanks around it: where the project exists, a workflow is created, without a
    -- conflict with the unique key. It has the steps that were given, and a version above that of
    -- each stored workflow of the project with this name; what was stored stays.
    pub create_workflow-version :
        (s : Db) (project : String) (steps : List Step)
        → s.projects.row project_id ≡ some project
        → strip name ≡ name
        → (w : Workflow) × (s' : Db) × (create_workflow strip project_id name steps s
            ≡ (ok (s.workflows.next, w), s'))
          × (s'.workflows.row s.workflows.next ≡ some w)
          × (w.project_id ≡ project_id)
          × (w.name ≡ name)
          × (w.steps ≡ steps)
          × ((k : ℕ) (old : Workflow)
              → k < s.workflows.next
              → s.workflows.row k ≡ some old
              → (s'.workflows.row k ≡ some old)
                × (is_named project_id name old ≡ true → old.version < w.version))
    create_workflow-version s project steps found plain = (
      made s steps,
      record s { workflows = insert (made s steps) s.workflows },
      create_workflow-made s project steps found plain,
      rw (==_refl s.workflows.next) refl,
      refl,
      refl,
      refl,
      λ k old lt there. (ground arith, λ named. omega (arith, version-le s k old lt there named)),
    )

    no_version :
        (n : ℕ) (row : ℕ → Option Workflow)
        → ((k : ℕ) (w : Workflow) → row k ≡ some w → is_named project_id name w ≡ false)
        → max_version project_id name (rows_below n row) ≡ 0
    unfolding rows_below max_version
    no_version zero row h = refl
    no_version (suc n) row h = elim (Option-cases (row n)) [
      | inl absent ↦ rw absent (no_version n row h)
      | inr (w, there) ↦ rw (there, h n w there) (no_version n row h)
    ]

    -- A name that no stored workflow has as it was sent, where the project has a first version under
    -- the name without the blanks around it: no workflow is created, since its version, the first,
    -- meets the unique key, and the error of the database is raised as it is.
    pub create_workflow-conflict :
        (s : Db) (project : String) (steps : List Step) (k : ℕ) (first : Workflow)
        → s.projects.row project_id ≡ some project
        → k < s.workflows.next
        → s.workflows.row k ≡ some first
        → is_version project_id (strip name) 1 first ≡ true
        → ((j : ℕ) (w : Workflow) → s.workflows.row j ≡ some w → is_named project_id name w ≡ false)
        → create_workflow strip project_id name steps s ≡ (err Error.integrity, s)
    unfolding create_workflow newest_first
    create_workflow-conflict s project steps k first found lt there same new =
        let is_first = no_version s.workflows.next s.workflows.row new in
        let taken = any_row (is_version project_id (strip name) 1) s.workflows in
        elim (Bool-cases taken) [
          | inl met ↦ rw (found, is_first, met) refl
          | inr free ↦
              let other =
                any_row-false (is_version project_id (strip name) 1) s.workflows k first free lt
                  there in
              absurd (ground (arith, other))
        ]
