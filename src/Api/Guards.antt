-- ===== src/Api/Guards.antt =====
-- The routes and their access checks.
use agentops_control_plane.Base.{
  ℕ, String, Bool, true, false, ◌≡◌, refl, sym, ap, ◌∙◌, inl, inr, Option-cases,
}
use agentops_control_plane.Store.Exec.{Error}
use agentops_control_plane.Approvals.{Actor}
use agentops_control_plane.Datasets.{Evaluation}
use agentops_control_plane.Evaluations.Job.{cancel_evaluation}
use agentops_control_plane.Service.{Service, Served, on_catalog, ◌>>◌}
use agentops_control_plane.Security.Checks.{
  project_access, workflow_access, run_access, approval_access, require_dataset_access,
  require_evaluation_access, require_schedule_access,
}
use agentops_control_plane.Api
use agentops_control_plane.Api.{Outside, create_from_template, compare_evaluations}
use agentops_control_plane.Api.Runs as Runs
use agentops_control_plane.Api.Runs.{launch_once, shown_run}
use agentops_control_plane.Api.Promises.{Guarded, evaluation_project, project_of_evaluation}
use agentops_control_plane.Api.Checks.{
  absent-denied, guarded, guarded_twice, project-Decides, workflow-Decides, run-Decides,
  approval-Decides, dataset-Decides, evaluation-Decides, schedule-Decides,
}
use agentops_control_plane.Api.Contract.{IsGuarded}

module _ (o : Outside) (is_key : String → Bool) (actor : Actor) (v : Service) where
  cancel-Guarded :
      (id : ℕ)
      → Guarded v actor
          (evaluation_project v id)
          true
          (Api.post_evaluation_cancel o actor id)
          (on_catalog (cancel_evaluation id))
  unfolding Api.post_evaluation_cancel
  cancel-Guarded id = elim (Option-cases (v.evaluations.row id)) [
    | inl absent ↦ inr (
      absent-denied actor v (evaluation_project v id) true (ap (project_of_evaluation v) absent),
      (Error.not_found "evaluation not found", rw absent refl, refl),
    )
    | inr (e, there) ↦
        let check = workflow_access actor e.workflow_id true in
        let cancel : Served Evaluation = on_catalog (cancel_evaluation id) in
        let at_row = ap (project_of_evaluation v) there in
        let same : Api.post_evaluation_cancel o actor id v ≡ (check >> cancel) v = rw there refl in
        elim (guarded check cancel (workflow-Decides actor v e.workflow_id true)) [
          | inl ((p, at, member), done) ↦ inl ((p, at_row ∙ at, member), same ∙ done)
          | inr (denied_it, (x, refused, code)) ↦
              inr (λ may. denied_it (may.0, sym at_row ∙ may.1, may.2), (x, same ∙ refused, code))
        ]
  ]

  -- The routes of this development that are about a project, or a row of one: where the row is there
  -- and the caller is an admin, or has a role in its project, which is no viewer's where the route
  -- writes, the route does what its method of the service does; and in every other case it answers
  -- 403 or 404 and changes nothing. The routes on two rows ask this of both.
  pub routes-IsGuarded : IsGuarded o is_key actor v
  unfolding Api.read_project Api.remove_project Api.read_export Api.post_workflow Api.read_workflow
      Api.post_template Api.post_schedule Api.post_enabled Api.post_webhook Api.post_dataset
      Api.read_dataset Api.remove_dataset Api.post_evaluation_cancel Api.read_evaluation
      Api.write_memory Api.write_secret Api.read_secrets Api.post_evaluation Api.read_comparison
      Runs.post_run Runs.read_run Runs.post_replay Runs.post_cancel Runs.post_decision
      Runs.post_escalation
  routes-IsGuarded = record {
    read_project =
        λ id. guarded (project_access actor id false) _ (project-Decides actor v id false);
    remove_project =
        λ id. guarded (project_access actor id true) _ (project-Decides actor v id true);
    read_export =
        λ id. guarded (project_access actor id false) _ (project-Decides actor v id false);
    post_workflow =
        λ id name steps. guarded (project_access actor id true) _ (project-Decides actor v id true);
    read_workflow =
        λ id. guarded (workflow_access actor id false) _ (workflow-Decides actor v id false);
    post_template =
        λ template id. guarded (project_access actor id true) _ (project-Decides actor v id true);
    post_schedule = λ id name payload interval.
        guarded (workflow_access actor id true) _ (workflow-Decides actor v id true);
    post_enabled = λ id enabled.
        guarded (require_schedule_access actor id true) _ (schedule-Decides actor v id true);
    post_webhook =
        λ id url events. guarded (project_access actor id true) _ (project-Decides actor v id true);
    post_dataset =
        λ id name cases. guarded (project_access actor id true) _ (project-Decides actor v id true);
    read_dataset =
        λ id. guarded (require_dataset_access actor id false) _ (dataset-Decides actor v id false);
    remove_dataset =
        λ id. guarded (require_dataset_access actor id true) _ (dataset-Decides actor v id true);
    post_evaluation_cancel = cancel-Guarded;
    read_evaluation =
        λ id. guarded (require_evaluation_access actor id) _ (evaluation-Decides actor v id);
    write_memory = λ id namespace key x.
        guarded (project_access actor id true) _ (project-Decides actor v id true);
    write_secret =
        λ id name x. guarded (project_access actor id true) _ (project-Decides actor v id true);
    read_secrets =
        λ id. guarded (project_access actor id false) _ (project-Decides actor v id false);
    post_evaluation = λ id dataset_id mode thresholds.
        guarded_twice (workflow_access actor id true) (require_dataset_access actor dataset_id true)
          _ (workflow-Decides actor v id true) (dataset-Decides actor v dataset_id true);
    read_comparison = λ id right_id.
        guarded_twice (require_evaluation_access actor id)
          (require_evaluation_access actor right_id) _ (evaluation-Decides actor v id)
          (evaluation-Decides actor v right_id);
    post_run = λ id payload parent queued max_steps key.
        guarded (workflow_access actor id true) _ (workflow-Decides actor v id true);
    read_run = λ id. guarded (run_access actor id false) _ (run-Decides actor v id false);
    post_replay = λ id. guarded (run_access actor id true) _ (run-Decides actor v id true);
    post_cancel = λ id. guarded (run_access actor id true) _ (run-Decides actor v id true);
    post_decision = λ id decision note out.
        guarded (approval_access actor id true) _ (approval-Decides actor v id true);
    post_escalation =
        λ id note. guarded (approval_access actor id true) _ (approval-Decides actor v id true);
  }
