-- ===== src/Api.antt =====
-- The routes of src/agentops/main.py: each checks the caller's access and calls the service. The
-- caller comes from the middleware (Security/Boundary); bodies have passed their schemas, and a
-- route returns what the service does.
pub mod Runs
pub mod Promises
pub mod Checks
pub mod Contract
pub mod Guards
pub mod Grants
use agentops_control_plane.Base.{
  ℕ, String, Bool, true, false, not, Option, none, some, List, [], ◌∷◌, ◌==◌, str_eq, find_first,
  if◌then◌else◌,
}
use agentops_control_plane.Json.{Value}
use agentops_control_plane.Store.Rows.{Role, Step, Workflow, Event, Webhook}
use agentops_control_plane.Store.Exec.{Error, Exec, Result, ok, err}
use agentops_control_plane.Approvals.{Actor}
use agentops_control_plane.Runs.Env.{Env}
use agentops_control_plane.Runs.Agent.{get_project, put_memory}
use agentops_control_plane.Runs.Rows.{get_workflow}
use agentops_control_plane.Projects.{create_project, create_workflow}
use agentops_control_plane.Packages.{Package, import_project, is_valid}
use agentops_control_plane.Packages.Export.{export_project}
use agentops_control_plane.Datasets.{
  Posted, Dataset, Evaluation, Naming, Bench, chain, get_dataset, create_dataset,
}
use agentops_control_plane.Evaluations.{Thresholds, Row, comparison}
use agentops_control_plane.Evaluations.Matchers.{Judge}
use agentops_control_plane.Evaluations.Job.{Execution, evaluate, cancel_evaluation, get_evaluation}
use agentops_control_plane.Schedules.{Schedule, create_schedule, set_schedule_enabled}
use agentops_control_plane.Deletion.{delete_project, delete_dataset}
use agentops_control_plane.Secrets.{SecretVault, put_secret, list_secrets, reveal_secret}
use agentops_control_plane.Webhooks.{Net, create_webhook}
use agentops_control_plane.Accounts.{grant_created_project}
use agentops_control_plane.Service.{
  Service, Served, pure, raise, on_db, on_catalog, on_timetable, ◌>>=◌, ◌>>◌,
}
use agentops_control_plane.Security.Checks.{
  project_access, workflow_access, require_dataset_access, require_evaluation_access,
  require_schedule_access,
}

-- The status code of an answer that an exception makes: by the exception handlers, as an
-- HTTPException, or turned into one by the route (a ValueError of a webhook, a RuntimeError of the
-- vault); and 500 for any other.
abbrev pub status_code : Error → ℕ
status_code (Error.not_found m) = 404
status_code (Error.conflict m) = 409
status_code (Error.forbidden m) = 403
status_code (Error.value_error m) = 422
status_code (Error.runtime m) = 503
status_code _ = 500

-- An entry of WORKFLOW_TEMPLATES (src/agentops/templates.py).
pub record Template : Type 0 where
  pub id : String
  pub name : String
  pub steps : List Step

-- What the routes take from outside of the service.
pub record Outside : Type 0 where
  pub env : Env
  pub execute : ℕ → Exec (Unit {0})
  pub judge : Judge
  pub interrupts : ℕ → Bool
  pub naming : Naming
  pub net : Net
  pub vault : SecretVault
  pub nonce : ℕ
  pub templates : List Template

unfoldable pub create_from_template : Outside → String → ℕ → Exec (ℕ × Workflow)
unfolding create_workflow
create_from_template o template_id project_id s =
    elim (find_first (λ t. str_eq t.id template_id) o.templates) [
      | none ↦ (err (Error.not_found "workflow template not found"), s)
      | some t ↦ create_workflow o.naming.strip project_id t.name t.steps s
    ]

-- `compare_evaluations`, but for the summaries of the two evaluations.
unfoldable pub compare_evaluations : ℕ → ℕ → Bench (List Row)
unfolding get_evaluation comparison
compare_evaluations left_id right_id = chain (get_evaluation left_id) λ left.
    chain (get_evaluation right_id) λ right c.
      if left.dataset_id == right.dataset_id
      then (ok (comparison left.results right.results), c)
      else (err (Error.conflict "cannot compare evaluations across different datasets"), c)

module _ (o : Outside) (actor : Actor) where
  unfoldable pub post_project : String → Served (ℕ × String)
  post_project name = do
    project ← on_db (create_project name)
    grant_created_project actor project.0
    pure project

  unfoldable pub read_project : ℕ → Served String
  read_project id = project_access actor id false >> on_db (get_project id)

  unfoldable pub remove_project : ℕ → Served (Unit {0})
  remove_project id = project_access actor id true >> delete_project id

  unfoldable pub read_export : ℕ → Served Package
  read_export id = project_access actor id false >> on_catalog (export_project id)

  -- The schema refuses a package that is not valid before the route is called.
  unfoldable pub post_import : Package → Option String → Served (ℕ × List ℕ × List ℕ)
  post_import p name = do
    imported ← on_catalog (import_project o.naming p name)
    grant_created_project actor imported.0
    pure imported

  unfoldable pub post_workflow : ℕ → String → List Step → Served (ℕ × Workflow)
  post_workflow project_id name steps =
      project_access actor project_id true
      >> on_db (create_workflow o.naming.strip project_id name steps)

  unfoldable pub read_workflow : ℕ → Served Workflow
  read_workflow id = workflow_access actor id false >> on_db (get_workflow id)

  unfoldable pub post_template : String → ℕ → Served (ℕ × Workflow)
  post_template template_id project_id =
      project_access actor project_id true >> on_db (create_from_template o template_id project_id)

  unfoldable pub post_schedule : ℕ → String → Value → ℕ → Served Schedule
  post_schedule workflow_id name payload interval =
      workflow_access actor workflow_id true
      >> on_timetable (create_schedule o.naming.strip o.env.now workflow_id name payload interval)

  unfoldable pub post_enabled : ℕ → Bool → Served Schedule
  post_enabled id enabled =
      require_schedule_access actor id true >> on_timetable (set_schedule_enabled id enabled)

  unfoldable pub post_webhook : ℕ → String → List Event → Served (ℕ × Webhook)
  post_webhook project_id url events =
      project_access actor project_id true >> on_db (create_webhook o.net project_id url events)

  unfoldable pub post_dataset : ℕ → String → List Posted → Served Dataset
  post_dataset project_id name cases =
      project_access actor project_id true
      >> on_catalog (create_dataset o.naming project_id name cases)

  unfoldable pub read_dataset : ℕ → Served Dataset
  read_dataset id = require_dataset_access actor id false >> on_catalog (get_dataset id)

  unfoldable pub remove_dataset : ℕ → Served (Unit {0})
  remove_dataset id = require_dataset_access actor id true >> on_catalog (delete_dataset id)

  unfoldable pub post_evaluation : ℕ → ℕ → Execution → Thresholds → Served Evaluation
  post_evaluation workflow_id dataset_id mode thresholds =
      workflow_access actor workflow_id true
      >> (require_dataset_access actor dataset_id true
          >> on_catalog (
              evaluate o.env o.execute o.judge o.interrupts workflow_id dataset_id actor.role mode
                thresholds))

  -- The evaluation is read before the check, for its workflow.
  unfoldable pub post_evaluation_cancel : ℕ → Served Evaluation
  unfolding get_evaluation
  post_evaluation_cancel id = do
    evaluation ← on_catalog (get_evaluation id)
    workflow_access actor evaluation.workflow_id true
    on_catalog (cancel_evaluation id)

  unfoldable pub read_evaluation : ℕ → Served Evaluation
  read_evaluation id = require_evaluation_access actor id >> on_catalog (get_evaluation id)

  unfoldable pub read_comparison : ℕ → ℕ → Served (List Row)
  read_comparison left_id right_id =
      require_evaluation_access actor left_id
      >> (require_evaluation_access actor right_id
          >> on_catalog (compare_evaluations left_id right_id))

  unfoldable pub write_memory : ℕ → String → String → Value → Served Value
  write_memory project_id namespace key value =
      project_access actor project_id true
      >> on_db (put_memory o.env project_id namespace key value)

  unfoldable pub write_secret : ℕ → String → String → Served ℕ
  write_secret project_id name value =
      project_access actor project_id true
      >> on_db (put_secret o.vault o.nonce project_id name value)

  unfoldable pub read_secrets : ℕ → Served (List (ℕ × String))
  read_secrets project_id = project_access actor project_id false >> on_db (list_secrets project_id)
