-- ===== src/Packages/Import.antt =====
-- The project and the workflows that `import_project` of src/agentops/service.py makes of a package.
use agentops_control_plane.Base.{
  ℕ, ◌+◌, ◌≤◌, ◌<◌, ◌≢◌, String, true, ◌≡◌, refl, sym, ◌∙◌, ap, some, List, [], ◌∷◌, map, arith,
  Bool-cases, inl, inr, ==_refl,
}
use agentops_control_plane.Base.Table.{Table, insert}
use agentops_control_plane.Base.Sorting.{All}
use agentops_control_plane.Store.Rows.{Step, Workflow}
use agentops_control_plane.Store.Exec.{Db, ok, when, modify}
use agentops_control_plane.Datasets.{Naming}
use agentops_control_plane.Projects.Versions.{create_workflow-made, made}
use agentops_control_plane.Packages.{
  PackedWorkflow, Imported, source_ids, targets, all_sources, retarget_all, set_steps, has_handoff,
  import_workflows,
}
use agentops_control_plane.Packages.Targets.{packed, redirect, retarget-redirect, redirect-plain}

-- The ids rise, from one that is at least `n`.
abbrev pub Rising : ℕ → List Imported → Type 0
Rising n [] = Unit {0}
Rising n ((w, id) ∷ rest) = (n ≤ id) × Rising (id + 1) rest

module _ (project_id : ℕ) where
  -- The workflow stands in the project under this id, with the name of the package and these steps.
  abbrev pub Stands : Table Workflow → Imported → List Step → Type 0
  Stands t (w, id) steps =
      (f : Workflow) × (t.row id ≡ some f)
      × (f.project_id ≡ project_id)
      × (f.name ≡ w.name)
      × (f.steps ≡ steps)

  abbrev Made : Table Workflow → Imported → Type 0
  Made t i = Stands t i i.0.steps

  -- The same, with its handoffs redirected.
  abbrev pub Redirected : List Imported → Table Workflow → Imported → Type 0
  Redirected imported t i = Stands t i (map (redirect imported) i.0.steps)

  Made-other :
      (n : ℕ) (rest : List Imported) (t t' : Table Workflow)
      → Rising n rest
      → ((k : ℕ) → n ≤ k → t'.row k ≡ t.row k)
      → All (Made t) rest
      → All (Made t') rest
  Made-other n [] t t' rising same all = tt
  Made-other n ((w, id) ∷ rest) t t' rising same (one, all) = (
    (one.0, same id rising.0 ∙ one.1, one.2, one.3, one.4),
    Made-other (id + 1) rest t t' rising.1 (λ k le. same k (omega (arith, rising.0))) all,
  )

  -- The steps of one workflow are set, unless there is no handoff among them.
  retarget_one :
      (imported : List Imported) (w : PackedWorkflow) (id : ℕ) (s : Db)
      → Made s.workflows (w, id)
      → (t : Table Workflow) × (when
            (has_handoff w.steps)
            (modify (set_steps id (map (redirect imported) w.steps)))
            s
          ≡ (ok tt, record s { workflows = t }))
        × Redirected imported t (w, id)
        × ((k : ℕ) → k ≢ id → t.row k ≡ s.workflows.row k)
  retarget_one imported w id s (f, there, in_project, named, steps) =
      let new = map (redirect imported) w.steps in
      elim (Bool-cases (has_handoff w.steps)) [
        | inl goes ↦ (
          (set_steps id new s).workflows,
          rw goes refl,
          (record f { steps = new }, rw (==_refl id, there) refl, in_project, named, refl),
          λ k other. ground arith,
        )
        | inr plain ↦ (
          s.workflows,
          rw plain refl,
          (f, there, in_project, named, steps ∙ sym (redirect-plain imported w.steps plain)),
          λ k other. refl,
        )
      ]

  -- What the loop over the imported workflows leaves.
  pub retarget_all-Redirected :
      (imported : List Imported) (pairs : List Imported) (n : ℕ) (s : Db)
      → All (λ i. all_sources (source_ids (packed imported)) (targets i.0.steps) ≡ true) pairs
      → Rising n pairs
      → All (Made s.workflows) pairs
      → (t : Table Workflow) × (retarget_all imported pairs s ≡ (ok tt, record s { workflows = t }))
        × All (Redirected imported t) pairs
        × ((k : ℕ) → k < n → t.row k ≡ s.workflows.row k)
  unfolding retarget_all
  retarget_all-Redirected imported [] n s known rising all = (s.workflows, refl, tt, λ k lt. refl)
  retarget_all-Redirected imported ((w, id) ∷ rest) n s known rising all =
      let steps = retarget-redirect imported w.steps known.0 in
      let (t, e, here, same) = retarget_one imported w id s all.0 in
      let left =
        Made-other (id + 1) rest s.workflows t rising.1 (λ k le. same k (omega arith)) all.1 in
      let (t', e', others, older) =
        retarget_all-Redirected imported rest (id + 1) (record s { workflows = t }) known.1 rising.1
          left in
      (
        t',
        rw (steps, e, e') refl,
        ((here.0, older id (omega arith) ∙ here.1, here.2, here.3, here.4), others),
        λ k lt. older k (omega (arith, rising.0)) ∙ same k (omega (arith, rising.0)),
      )

-- Names with no blanks around them, as the schema leaves them.
abbrev pub AllPlain : Naming → List PackedWorkflow → Type 0
AllPlain naming ws = All (λ w. naming.strip w.name ≡ w.name) ws

module _ (naming : Naming) (project_id : ℕ) (project : String) where
  pub import_workflows-Made :
      (ws : List PackedWorkflow) (s : Db)
      → s.projects.row project_id ≡ some project
      → AllPlain naming ws
      → (imported : List Imported) × (t : Table Workflow) × (import_workflows naming project_id ws s
          ≡ (ok imported, record s { workflows = t }))
        × (packed imported ≡ ws)
        × Rising s.workflows.next imported
        × All (Made project_id t) imported
        × ((k : ℕ) → k < s.workflows.next → t.row k ≡ s.workflows.row k)
  unfolding import_workflows
  import_workflows-Made [] s found plain = ([], s.workflows, refl, refl, tt, tt, λ k lt. refl)
  import_workflows-Made (w ∷ ws) s found plain =
      let n = s.workflows.next in
      let f = made project_id w.name naming.strip s w.steps in
      let s₁ = record s { workflows = insert f s.workflows } in
      let e = create_workflow-made project_id w.name naming.strip s project w.steps found plain.0 in
      let (imported, t, e', same, rising, all, older) = import_workflows-Made ws s₁ found plain.1 in
      (
        (w, n) ∷ imported,
        t,
        rw (e, e') refl,
        ap (λ xs. w ∷ xs) same,
        (omega arith, rising),
        ((f, older n (omega arith) ∙ rw (==_refl n) refl, refl, refl, refl), all),
        λ k lt. older k (omega arith) ∙ ground arith,
      )
