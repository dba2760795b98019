-- ===== src/Api/Contract.antt =====
-- What each route promises its callers: which row it is about, whether it writes, and the method of
-- the service that answers.
use agentops_control_plane.Base.{ℕ, String, Bool, true, false, Option, some, List}
use agentops_control_plane.Json.{Value}
use agentops_control_plane.Store.Rows.{Step, Event}
use agentops_control_plane.Approvals.{Actor, Decision, decide_approval, escalate_approval}
use agentops_control_plane.Runs.Agent.{get_project, put_memory}
use agentops_control_plane.Runs.Rows.{get_workflow}
use agentops_control_plane.Runs.Pause.{cancel_run}
use agentops_control_plane.Runs.Start.{replay}
use agentops_control_plane.Projects.{create_workflow}
use agentops_control_plane.Packages.Export.{export_project}
use agentops_control_plane.Datasets.{Posted, get_dataset, create_dataset}
use agentops_control_plane.Evaluations.{Thresholds}
use agentops_control_plane.Evaluations.Job.{Execution, evaluate, cancel_evaluation, get_evaluation}
use agentops_control_plane.Schedules.{create_schedule, set_schedule_enabled}
use agentops_control_plane.Deletion.{delete_project, delete_dataset}
use agentops_control_plane.Secrets.{put_secret, list_secrets}
use agentops_control_plane.Webhooks.{create_webhook}
use agentops_control_plane.Service.{Service, on_db, on_catalog, on_timetable}
use agentops_control_plane.Deletion.Intact.{workflow_project, run_project, dataset_project}
use agentops_control_plane.Api
use agentops_control_plane.Api.{Outside, create_from_template, compare_evaluations}
use agentops_control_plane.Api.Runs as Runs
use agentops_control_plane.Api.Runs.{launch_once, shown_run}
use agentops_control_plane.Api.Promises.{
  Guarded, GuardedTwice, approval_project, evaluation_project, schedule_project,
}

pub record IsGuarded (o : Outside) (is_key : String → Bool) (actor : Actor) (v : Service)
    : Type 0 where
  pub read_project :
      (id : ℕ)
      → Guarded v actor (some id) false (Api.read_project o actor id) (on_db (get_project id))
  pub remove_project :
      (id : ℕ) → Guarded v actor (some id) true (Api.remove_project o actor id) (delete_project id)
  pub read_export :
      (id : ℕ)
      → Guarded v actor
          (some id)
          false
          (Api.read_export o actor id)
          (on_catalog (export_project id))
  pub post_workflow :
      (id : ℕ) (name : String) (steps : List Step)
      → Guarded v actor
          (some id)
          true
          (Api.post_workflow o actor id name steps)
          (on_db (create_workflow o.naming.strip id name steps))
  pub read_workflow :
      (id : ℕ)
      → Guarded v actor
          (workflow_project v id)
          false
          (Api.read_workflow o actor id)
          (on_db (get_workflow id))
  pub post_template :
      (template : String) (id : ℕ)
      → Guarded v actor
          (some id)
          true
          (Api.post_template o actor template id)
          (on_db (create_from_template o template id))
  pub post_schedule :
      (id : ℕ) (name : String) (payload : Value) (interval : ℕ)
      → Guarded v actor
          (workflow_project v id)
          true
          (Api.post_schedule o actor id name payload interval)
          (on_timetable (create_schedule o.naming.strip o.env.now id name payload interval))
  pub post_enabled :
      (id : ℕ) (enabled : Bool)
      → Guarded v actor
          (schedule_project v id)
          true
          (Api.post_enabled o actor id enabled)
          (on_timetable (set_schedule_enabled id enabled))
  pub post_webhook :
      (id : ℕ) (url : String) (events : List Event)
      → Guarded v actor
          (some id)
          true
          (Api.post_webhook o actor id url events)
          (on_db (create_webhook o.net id url events))
  pub post_dataset :
      (id : ℕ) (name : String) (cases : List Posted)
      → Guarded v actor
          (some id)
          true
          (Api.post_dataset o actor id name cases)
          (on_catalog (create_dataset o.naming id name cases))
  pub read_dataset :
      (id : ℕ)
      → Guarded v actor
          (dataset_project v id)
          false
          (Api.read_dataset o actor id)
          (on_catalog (get_dataset id))
  pub remove_dataset :
      (id : ℕ)
      → Guarded v actor
          (dataset_project v id)
          true
          (Api.remove_dataset o actor id)
          (on_catalog (delete_dataset id))
  pub post_evaluation_cancel :
      (id : ℕ)
      → Guarded v actor
          (evaluation_project v id)
          true
          (Api.post_evaluation_cancel o actor id)
          (on_catalog (cancel_evaluation id))
  pub read_evaluation :
      (id : ℕ)
      → Guarded v actor
          (evaluation_project v id)
          false
          (Api.read_evaluation o actor id)
          (on_catalog (get_evaluation id))
  pub write_memory :
      (id : ℕ) (namespace key : String) (x : Value)
      → Guarded v actor
          (some id)
          true
          (Api.write_memory o actor id namespace key x)
          (on_db (put_memory o.env id namespace key x))
  pub write_secret :
      (id : ℕ) (name x : String)
      → Guarded v actor
          (some id)
          true
          (Api.write_secret o actor id name x)
          (on_db (put_secret o.vault o.nonce id name x))
  pub read_secrets :
      (id : ℕ)
      → Guarded v actor (some id) false (Api.read_secrets o actor id) (on_db (list_secrets id))
  pub post_evaluation :
      (id dataset_id : ℕ) (mode : Execution) (thresholds : Thresholds)
      → GuardedTwice v actor
          (workflow_project v id)
          (dataset_project v dataset_id)
          true
          (Api.post_evaluation o actor id dataset_id mode thresholds)
          (on_catalog (
            evaluate o.env o.execute o.judge o.interrupts id dataset_id actor.role mode thresholds))
  pub read_comparison :
      (id right_id : ℕ)
      → GuardedTwice v actor
          (evaluation_project v id)
          (evaluation_project v right_id)
          false
          (Api.read_comparison o actor id right_id)
          (on_catalog (compare_evaluations id right_id))
  pub post_run :
      (id : ℕ) (payload : Value) (parent : Option ℕ) (queued : Bool) (max_steps : ℕ)
      (key : Option String)
      → Guarded v actor
          (workflow_project v id)
          true
          (Runs.post_run o.env o.execute is_key actor id payload parent queued max_steps key)
          (launch_once o.env o.execute is_key actor id payload parent queued max_steps key)
  pub read_run :
      (id : ℕ)
      → Guarded v actor
          (run_project v id)
          false
          (Runs.read_run o.env o.execute is_key actor id)
          (shown_run o.env o.execute is_key actor id)
  pub post_replay :
      (id : ℕ)
      → Guarded v actor
          (run_project v id)
          true
          (Runs.post_replay o.env o.execute is_key actor id)
          (on_db (replay o.env o.execute id))
  pub post_cancel :
      (id : ℕ)
      → Guarded v actor
          (run_project v id)
          true
          (Runs.post_cancel o.env o.execute is_key actor id)
          (on_db (cancel_run o.env id))
  pub post_decision :
      (id : ℕ) (decision : Decision) (note : String) (out : Option Value)
      → Guarded v actor
          (approval_project v id)
          true
          (Runs.post_decision o.env o.execute is_key actor id decision note out)
          (on_db (decide_approval o.env o.execute id decision note out (some actor)))
  pub post_escalation :
      (id : ℕ) (note : String)
      → Guarded v actor
          (approval_project v id)
          true
          (Runs.post_escalation o.env o.execute is_key actor id note)
          (on_db (escalate_approval o.env id note))
