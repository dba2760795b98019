-- ===== src/Security/Access.antt =====
-- The access checks of src/agentops/main.py that a route makes before it calls the service: the
-- project that a workflow, a run or an approval belongs to, and the caller's role in it.
use agentops_control_plane.Base.{
  ℕ, String, Bool, false, ◌&&◌, ◌≡◌, refl, sym, ◌∙◌, Option-cases, ◌↔◌, ◌⊎◌, inl, inr, Option, none,
  some, arith,
}
use agentops_control_plane.Store.Rows.{Role, admin, operator, viewer, Run, Workflow, Approval}
use agentops_control_plane.Store.Exec.{Db, Error, Exec, ok, pure, raise, raise_if, ◌>>=◌}
use agentops_control_plane.Approvals.{Actor, get_approval}
use agentops_control_plane.Runs.Rows.{get_run, get_workflow}
use agentops_control_plane.Security.Boundary.{is_admin, is_viewer}

-- The table project_members: the role that a name has in a project.
abbrev pub Members : Type 0
Members = ℕ → String → Option Role

-- The answer of `require_project_access` for a caller who is no admin.
abbrev pub check_member : Option Role → Bool → Exec (Unit {0})
check_member none write = raise (Error.forbidden "project membership required")
check_member (some role) write =
    raise_if (write && is_viewer role) (Error.forbidden "project membership is read-only")

module _ (members : Members) (actor : Actor) where
  abbrev pub may_access : ℕ → Bool → Exec (Unit {0})
  may_access project_id write = check_member (members project_id actor.name) write

  unfoldable pub require_project_access : ℕ → Bool → Exec (Unit {0})
  require_project_access project_id write = elim actor.role [
    | admin ↦ pure tt
    | _ ↦ may_access project_id write
  ]

  unfoldable pub require_workflow_access : ℕ → Bool → Exec (Unit {0})
  unfolding get_workflow require_project_access
  require_workflow_access workflow_id write = do
    workflow ← get_workflow workflow_id
    require_project_access workflow.project_id write

  unfoldable pub require_run_access : ℕ → Bool → Exec (Unit {0})
  unfolding get_run require_workflow_access
  require_run_access run_id write = do
    run ← get_run run_id
    require_workflow_access run.workflow_id write

  unfoldable pub require_approval_access : ℕ → Bool → Exec (Unit {0})
  unfolding get_approval require_run_access
  require_approval_access approval_id write = do
    approval ← get_approval approval_id
    require_run_access approval.run_id write

  -- The caller is an admin, or has a role in the project that is enough.
  pub data IsMember (project_id : ℕ) (write : Bool) : Type 0 where
    as_admin : actor.role ≡ admin → IsMember project_id write
    as_member :
        (role : Role)
        → members project_id actor.name ≡ some role
        → (write && is_viewer role) ≡ false
        → IsMember project_id write

  pub Role-cases : (role : Role) → (role ≡ admin) ⊎ (is_admin role ≡ false)
  Role-cases admin = inl refl
  Role-cases operator = inr refl
  Role-cases viewer = inr refl

  pub project-admin :
      (s : Db) (project_id : ℕ) (write : Bool)
      → actor.role ≡ admin
      → require_project_access project_id write s ≡ (ok tt, s)
  unfolding require_project_access
  project-admin s project_id write e = rw e refl

  pub project-other :
      (s : Db) (project_id : ℕ) (write : Bool)
      → is_admin actor.role ≡ false
      → require_project_access project_id write s
        ≡ check_member (members project_id actor.name) write s
  unfolding require_project_access
  project-other s project_id write e = ground arith

  check_member-ok :
      (s : Db) (member : Option Role) (write : Bool)
      → check_member member write s ≡ (ok tt, s)
      → (role : Role) × (member ≡ some role) × ((write && is_viewer role) ≡ false)
  check_member-ok s none write e = grind arith
  check_member-ok s (some role) write e = (role, refl, ground arith)

  project-passed :
      (s : Db) (project_id : ℕ) (write : Bool)
      → require_project_access project_id write s ≡ (ok tt, s)
      → IsMember project_id write
  project-passed s project_id write e = elim (Role-cases actor.role) [
    | inl a ↦ as_admin a
    | inr n ↦
        let found =
          check_member-ok s (members project_id actor.name) write
            (sym (project-other s project_id write n) ∙ e) in
        as_member found.0 found.1 found.2
  ]

  pub project-passes :
      (s : Db) (project_id : ℕ) (write : Bool)
      → IsMember project_id write
      → require_project_access project_id write s ≡ (ok tt, s)
  project-passes s project_id write (as_admin e) = project-admin s project_id write e
  project-passes s project_id write (as_member role e enough) = elim (Role-cases actor.role) [
    | inl a ↦ project-admin s project_id write a
    | inr n ↦ project-other s project_id write n ∙ rw (e, enough) refl
  ]

  -- The approval, its run and the workflow of the run, found in the database.
  pub record IsOf (s : Db) (approval_id project_id : ℕ) : Type 0 where
    pub approval : Approval
    pub approval_row : s.approvals.row approval_id ≡ some approval
    pub run : Run
    pub run_row : s.runs.row approval.run_id ≡ some run
    pub workflow : Workflow
    pub workflow_row : s.workflows.row run.workflow_id ≡ some workflow
    pub project : workflow.project_id ≡ project_id

  approval-passes :
      (s : Db) (approval_id : ℕ) (write : Bool) (project_id : ℕ)
      → IsOf s approval_id project_id
      → require_approval_access approval_id write s ≡ require_project_access project_id write s
  unfolding require_approval_access
  approval-passes s approval_id write project_id h =
      rw (h.approval_row, h.run_row, h.workflow_row, h.project) refl

  approval-passed :
      (s : Db) (approval_id : ℕ) (write : Bool)
      → require_approval_access approval_id write s ≡ (ok tt, s)
      → (project_id : ℕ) × IsOf s approval_id project_id × IsMember project_id write
  unfolding require_approval_access
  approval-passed s approval_id write e = elim (Option-cases (s.approvals.row approval_id)) [
    | inl n ↦ grind arith
    | inr (a, ea) ↦ elim (Option-cases (s.runs.row a.run_id)) [
      | inl n ↦ grind arith
      | inr (r, er) ↦ elim (Option-cases (s.workflows.row r.workflow_id)) [
        | inl n ↦ grind arith
        | inr (w, ew) ↦
            let found : IsOf s approval_id w.project_id = record {
              approval = a;
              approval_row = ea;
              run = r;
              run_row = er;
              workflow = w;
              workflow_row = ew;
              project = refl;
            } in
            (
              w.project_id,
              found,
              project-passed s w.project_id write
                  (sym (approval-passes s approval_id write w.project_id found) ∙ e),
            )
      ]
    ]
  ]

  -- A caller passes the check of an approval exactly if the approval, its run and the workflow of
  -- that run exist, and he is an admin or a member of the workflow's project, and no viewer in it
  -- where the check is for writing.
  pub require_approval_access_lem :
      (s : Db) (approval_id : ℕ) (write : Bool)
      → (require_approval_access approval_id write s ≡ (ok tt, s))
        ↔ ((project_id : ℕ) × IsOf s approval_id project_id × IsMember project_id write)
  require_approval_access_lem s approval_id write = (
    approval-passed s approval_id write,
    λ found.
        approval-passes s approval_id write found.0 found.1
        ∙ project-passes s found.0 write found.2,
  )
