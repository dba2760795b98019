-- ===== src/Api/Checks.antt =====
-- What the access checks of a route decide.
use agentops_control_plane.Base.{
  ℕ, String, Bool, false, ◌&&◌, ◌≡◌, refl, sym, ap, ◌∙◌, ◌⊎◌, inl, inr, Option, none, some, arith,
  Option-cases, Bool-cases,
}
use agentops_control_plane.Store.Rows.{Role}
use agentops_control_plane.Store.Exec.{Db, Error, Result, ok, err}
use agentops_control_plane.Approvals.{Actor}
use agentops_control_plane.Accounts.{project_role}
use agentops_control_plane.Service.{Service, Served, ◌>>◌, go_on}
use agentops_control_plane.Security.Access.{
  IsMember, as_admin, as_member, check_member, require_workflow_access, require_run_access,
  require_project_access, require_approval_access, project-admin, project-other, project-passes,
  Role-cases,
}
use agentops_control_plane.Security.Boundary.{is_viewer}
use agentops_control_plane.Security.Checks.{
  project_access, workflow_access, run_access, approval_access, require_dataset_access,
  require_evaluation_access, require_schedule_access,
}
use agentops_control_plane.Deletion.Intact.{
  project_of, project_of_row, project_of_dataset, workflow_project, run_project, dataset_project,
}
use agentops_control_plane.Api.Promises.{
  MayUse, Decides, project_of_approval, approval_project, project_of_evaluation, evaluation_project,
  project_of_schedule, schedule_project, Guarded, GuardedTwice,
}

module _ (actor : Actor) (v : Service) where
  abbrev on_v : Result (Unit {0}) × Db → Result (Unit {0}) × Service
  on_v x = (x.0, record v { db = x.1 })

  IsMember-Decides :
      (p : ℕ) (write : Bool) (role : Option Role)
      → project_role v.members p actor.name ≡ role
      → (check_member role write v.db ≡ (ok tt, v.db)
          × IsMember (project_role v.members) actor p write)
        ⊎ ((m : String) × (check_member role write v.db ≡ (err (Error.forbidden m), v.db)))
  IsMember-Decides p write none e = inr ("project membership required", refl)
  IsMember-Decides p write (some role) e = elim (Bool-cases (write && is_viewer role)) [
    | inl reads ↦ inr ("project membership is read-only", rw reads refl)
    | inr enough ↦ inl (rw enough refl, as_member role e enough)
  ]

  denied :
      (p : ℕ) (write : Bool) (m : String)
      → require_project_access (project_role v.members) actor p write v.db
        ≡ (err (Error.forbidden m), v.db)
      → MayUse v actor (some p) write
      → ⊥
  denied p write m refused (q, at, member) =
      let same : p ≡ q = ground arith in
      let member_here : IsMember (project_role v.members) actor p write = rw same member in
      let passed = project-passes (project_role v.members) actor v.db p write member_here in
      ground (arith, passed, refused)

  -- No row, no project.
  pub absent-denied :
      (found : Option ℕ) (write : Bool) → found ≡ none → MayUse v actor found write → ⊥
  absent-denied found write none_there (q, at, member) = ground arith

  pub project-Decides :
      (p : ℕ) (write : Bool) → Decides v actor (some p) write (project_access actor p write)
  project-Decides p write = elim (Role-cases (project_role v.members) actor actor.role) [
    | inl admin_too ↦ inl (
      (p, refl, as_admin admin_too),
      ap on_v (project-admin (project_role v.members) actor v.db p write admin_too),
    )
    | inr plain ↦
        let same = project-other (project_role v.members) actor v.db p write plain in
        elim (IsMember-Decides p write (project_role v.members p actor.name) refl) [
          | inl (passed, member) ↦ inl ((p, refl, member), ap on_v (same ∙ passed))
          | inr (m, refused) ↦ inr (
            denied p write m (same ∙ refused),
            (Error.forbidden m, ap on_v (same ∙ refused), refl),
          )
        ]
  ]

  -- A check that comes down to another one.
  transfer :
      {found : Option ℕ} {write : Bool} (check check' : Served (Unit {0})) (q : Option ℕ)
      → found ≡ q
      → check v ≡ check' v
      → Decides v actor q write check'
      → Decides v actor found write check
  transfer check check' q e f (inl ((p, at, member), passed)) =
      inl ((p, e ∙ at, member), f ∙ passed)
  transfer check check' q e f (inr (denied_it, (x, refused, code))) =
      inr (λ may. denied_it (may.0, sym e ∙ may.1, may.2), (x, f ∙ refused, code))

  pub workflow-Decides :
      (id : ℕ) (write : Bool)
      → Decides v actor (workflow_project v id) write (workflow_access actor id write)
  unfolding require_workflow_access
  workflow-Decides id write = elim (Option-cases (v.db.workflows.row id)) [
    | inl absent ↦ inr (
      absent-denied (workflow_project v id) write (ap project_of absent),
      (Error.not_found "workflow not found", rw absent refl, refl),
    )
    | inr (w, there) ↦
        transfer (workflow_access actor id write) (project_access actor w.project_id write)
          (some w.project_id) (ap project_of there) (rw there refl)
          (project-Decides w.project_id write)
  ]

  pub run-Decides :
      (id : ℕ) (write : Bool) → Decides v actor (run_project v id) write (run_access actor id write)
  unfolding require_run_access
  run-Decides id write = elim (Option-cases (v.db.runs.row id)) [
    | inl absent ↦ inr (
      absent-denied (run_project v id) write (ap (project_of_row v) absent),
      (Error.not_found "run not found", rw absent refl, refl),
    )
    | inr (r, there) ↦
        transfer (run_access actor id write) (workflow_access actor r.workflow_id write)
          (workflow_project v r.workflow_id) (ap (project_of_row v) there) (rw there refl)
          (workflow-Decides r.workflow_id write)
  ]

  pub approval-Decides :
      (id : ℕ) (write : Bool)
      → Decides v actor (approval_project v id) write (approval_access actor id write)
  unfolding require_approval_access
  approval-Decides id write = elim (Option-cases (v.db.approvals.row id)) [
    | inl absent ↦ inr (
      absent-denied (approval_project v id) write (ap (project_of_approval v) absent),
      (Error.not_found "approval not found", rw absent refl, refl),
    )
    | inr (a, there) ↦
        transfer (approval_access actor id write) (run_access actor a.run_id write)
          (run_project v a.run_id) (ap (project_of_approval v) there) (rw there refl)
          (run-Decides a.run_id write)
  ]

  pub dataset-Decides :
      (id : ℕ) (write : Bool)
      → Decides v actor (dataset_project v id) write (require_dataset_access actor id write)
  unfolding require_dataset_access
  dataset-Decides id write = elim (Option-cases (v.datasets.row id)) [
    | inl absent ↦ inr (
      absent-denied (dataset_project v id) write (ap project_of_dataset absent),
      (Error.not_found "dataset not found", rw absent refl, refl),
    )
    | inr (d, there) ↦
        transfer (require_dataset_access actor id write) (project_access actor d.project_id write)
          (some d.project_id) (ap project_of_dataset there) (rw there refl)
          (project-Decides d.project_id write)
  ]

  pub evaluation-Decides :
      (id : ℕ)
      → Decides v actor (evaluation_project v id) false (require_evaluation_access actor id)
  unfolding require_evaluation_access
  evaluation-Decides id = elim (Option-cases (v.evaluations.row id)) [
    | inl absent ↦ inr (
      absent-denied (evaluation_project v id) false (ap (project_of_evaluation v) absent),
      (Error.not_found "evaluation not found", rw absent refl, refl),
    )
    | inr (e, there) ↦
        transfer (require_evaluation_access actor id) (workflow_access actor e.workflow_id false)
          (workflow_project v e.workflow_id) (ap (project_of_evaluation v) there) (rw there refl)
          (workflow-Decides e.workflow_id false)
  ]

  pub schedule-Decides :
      (id : ℕ) (write : Bool)
      → Decides v actor (schedule_project v id) write (require_schedule_access actor id write)
  unfolding require_schedule_access
  schedule-Decides id write = elim (Option-cases (v.schedules.row id)) [
    | inl absent ↦ inr (
      absent-denied (schedule_project v id) write (ap (project_of_schedule v) absent),
      (Error.not_found "schedule not found", rw absent refl, refl),
    )
    | inr (x, there) ↦
        transfer (require_schedule_access actor id write)
          (workflow_access actor x.workflow_id write) (workflow_project v x.workflow_id)
          (ap (project_of_schedule v) there) (rw there refl) (workflow-Decides x.workflow_id write)
  ]

module _ {ℓ} {A : Type ℓ} {actor : Actor} {v : Service} {found : Option ℕ} {write : Bool} where
  pub guarded :
      (check : Served (Unit {0})) (m : Served A)
      → Decides v actor found write check
      → Guarded v actor found write (check >> m) m
  guarded check m (inl (may, passed)) = inl (may, ap (λ x. go_on x.0 (λ _. m) x.1) passed)
  guarded check m (inr (denied_it, (e, refused, code))) =
      inr (denied_it, (e, ap (λ x. go_on x.0 (λ _. m) x.1) refused, code))

  pub guarded_twice :
      {found' : Option ℕ} (check check' : Served (Unit {0})) (m : Served A)
      → Decides v actor found write check
      → Decides v actor found' write check'
      → GuardedTwice v actor found found' write (check >> (check' >> m)) m
  guarded_twice check check' m (inr (denied_it, (e, refused, code))) d =
      inr (λ may may'. denied_it may, (e, ap (λ x. go_on x.0 (λ _. check' >> m) x.1) refused, code))
  guarded_twice check check' m (inl (may, passed)) d =
      let first = ap (λ x. go_on x.0 (λ _. check' >> m) x.1) passed in
      elim d [
        | inl (may', passed') ↦ inl (may, may', first ∙ ap (λ x. go_on x.0 (λ _. m) x.1) passed')
        | inr (denied_it, (e, refused, code)) ↦ inr (
          λ may_left may_right. denied_it may_right,
          (e, first ∙ ap (λ x. go_on x.0 (λ _. m) x.1) refused, code),
        )
      ]
