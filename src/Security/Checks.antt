-- ===== src/Security/Checks.antt =====
-- The access checks of src/agentops/main.py on the rows of the whole service: the project that a
-- dataset, an evaluation or a schedule belongs to, and the checks of Access with the stored members.
use agentops_control_plane.Base.{ℕ, false}
use agentops_control_plane.Store.Exec.{Exec}
use agentops_control_plane.Approvals.{Actor}
use agentops_control_plane.Datasets.{get_dataset}
use agentops_control_plane.Evaluations.Job.{get_evaluation}
use agentops_control_plane.Schedules.{get_schedule}
use agentops_control_plane.Accounts.{project_role}
use agentops_control_plane.Service.{Served, on_db, on_catalog, on_timetable, ◌>>=◌}
use agentops_control_plane.Security.Access.{
  Members, require_project_access, require_workflow_access, require_run_access,
  require_approval_access,
}
use agentops_control_plane.Base.{Bool}

module _ (actor : Actor) where
  -- A check of Access, with the members that are stored.
  abbrev pub checked : (Members → Exec (Unit {0})) → Served (Unit {0})
  checked check v = on_db (check (project_role v.members)) v

  abbrev pub project_access : ℕ → Bool → Served (Unit {0})
  project_access id write = checked λ m. require_project_access m actor id write

  abbrev pub workflow_access : ℕ → Bool → Served (Unit {0})
  workflow_access id write = checked λ m. require_workflow_access m actor id write

  abbrev pub run_access : ℕ → Bool → Served (Unit {0})
  run_access id write = checked λ m. require_run_access m actor id write

  abbrev pub approval_access : ℕ → Bool → Served (Unit {0})
  approval_access id write = checked λ m. require_approval_access m actor id write

  unfoldable pub require_dataset_access : ℕ → Bool → Served (Unit {0})
  unfolding get_dataset require_project_access
  require_dataset_access id write = do
    dataset ← on_catalog (get_dataset id)
    project_access dataset.project_id write

  unfoldable pub require_evaluation_access : ℕ → Served (Unit {0})
  unfolding get_evaluation require_workflow_access
  require_evaluation_access id = do
    evaluation ← on_catalog (get_evaluation id)
    workflow_access evaluation.workflow_id false

  unfoldable pub require_schedule_access : ℕ → Bool → Served (Unit {0})
  unfolding get_schedule require_workflow_access
  require_schedule_access id write = do
    schedule ← on_timetable (get_schedule id)
    workflow_access schedule.workflow_id write
