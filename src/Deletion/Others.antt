-- ===== src/Deletion/Others.antt =====
-- The rows of other projects, after the deletion of a project.
use agentops_control_plane.Base.{
  ℕ, String, Bool, false, ◌||◌, ◌≡◌, refl, sym, ap, ◌∙◌, Option, none, some, ◌==◌, if◌then◌else◌,
  Option-cases, inl, inr, ==_refl, keep, List, [], ◌∷◌, not,
}
use agentops_control_plane.Base.Table.{map_row}
use agentops_control_plane.Store.Rows.{AgentEvent, Approval, Webhook, Secret}
use agentops_control_plane.Store.Exec.{ok}
use agentops_control_plane.Datasets.{Evaluation}
use agentops_control_plane.Schedules.{Schedule}
use agentops_control_plane.Service.{Service, Member}
use agentops_control_plane.Deletion.{
  drop_row, clear, clear_parent, clear_last, of_workflow, of_run, of_dataset, cascade,
  delete_project,
}
use agentops_control_plane.Deletion.Intact.{
  project_of, project_of_row, project_of_dataset, workflow_project, run_project, dataset_project,
  IsIntact,
}
use agentops_control_plane.Deletion.Owners.{is_of, of_workflow-is_of, of_run-is_of}
use agentops_control_plane.Deletion.Cascade.{cascade-IsIntact}

-- The row's project is another one than `q`.
abbrev pub Elsewhere : ℕ → Option ℕ → Type 0
Elsewhere q found = is_of q found ≡ false

-- Two services have the same rows in every project but `q`, and the same in the tables that belong to
-- no project.
pub record SameElsewhere (q : ℕ) (v w : Service) : Type 0 where
  pub projects : (k : ℕ) → Elsewhere q (some k) → w.db.projects.row k ≡ v.db.projects.row k
  pub workflows :
      (k : ℕ) → Elsewhere q (workflow_project v k) → w.db.workflows.row k ≡ v.db.workflows.row k
  pub runs : (k : ℕ) → Elsewhere q (run_project v k) → w.db.runs.row k ≡ v.db.runs.row k
  pub spans : (k i : ℕ) → Elsewhere q (run_project v k) → w.db.spans k i ≡ v.db.spans k i
  pub approvals :
      (k : ℕ) (a : Approval)
      → v.db.approvals.row k ≡ some a
      → Elsewhere q (run_project v a.run_id)
      → w.db.approvals.row k ≡ some a
  pub webhooks :
      (k : ℕ) (x : Webhook)
      → v.db.webhooks.row k ≡ some x
      → Elsewhere q (some x.project_id)
      → w.db.webhooks.row k ≡ some x
  pub memories :
      (p : ℕ) (namespace key : String)
      → Elsewhere q (some p)
      → w.db.memories p namespace key ≡ v.db.memories p namespace key
  pub secrets :
      (k : ℕ) (x : Secret)
      → v.db.secrets.row k ≡ some x
      → Elsewhere q (some x.project_id)
      → w.db.secrets.row k ≡ some x
  pub datasets : (k : ℕ) → Elsewhere q (dataset_project v k) → w.datasets.row k ≡ v.datasets.row k
  pub evaluations :
      (k : ℕ) (x : Evaluation)
      → v.evaluations.row k ≡ some x
      → Elsewhere q (workflow_project v x.workflow_id)
      → w.evaluations.row k ≡ some x
  pub schedules :
      (k : ℕ) (x : Schedule)
      → v.schedules.row k ≡ some x
      → Elsewhere q (workflow_project v x.workflow_id)
      → w.schedules.row k ≡ some x
  pub members :
      (k : ℕ) (m : Member)
      → v.members.row k ≡ some m
      → Elsewhere q (some m.project_id)
      → w.members.row k ≡ some m
  pub events : w.db.events ≡ keep (λ e. not (is_of q (run_project v e.run_id))) v.db.events
  pub outbox : w.db.outbox ≡ v.db.outbox
  pub audit_events : w.db.audit_events ≡ v.db.audit_events
  pub users : w.users ≡ v.users
  pub alerts : w.alerts ≡ v.alerts

drop_row-kept :
    {A : Type 0} (gone : A → Bool) (o : Option A) (a : A)
    → o ≡ some a
    → gone a ≡ false
    → drop_row gone o ≡ some a
drop_row-kept gone o a there kept = rw (there, kept) refl

module _ (v : Service) (q : ℕ) (h : IsIntact v) where
  of_dataset-is_of : (k : ℕ) → of_dataset v q k ≡ is_of q (dataset_project v k)
  of_dataset-is_of k = elim (Option-cases (v.datasets.row k)) [
    | inl absent ↦ rw absent refl
    | inr (d, there) ↦ rw there refl
  ]

  -- The events of all runs of other projects, in their order.
  events-same :
      (events : List AgentEvent)
      → keep (λ e. not (of_run v q e.run_id)) events
        ≡ keep (λ e. not (is_of q (run_project v e.run_id))) events
  events-same [] = refl
  events-same (e ∷ events) = rw (of_run-is_of v q e.run_id, events-same events) refl

  workflow-same :
      (k : ℕ)
      → Elsewhere q (workflow_project v k)
      → (cascade v q).db.workflows.row k ≡ v.db.workflows.row k
  unfolding cascade
  workflow-same k other = elim (Option-cases (v.db.workflows.row k)) [
    | inl absent ↦ rw absent refl
    | inr (w, there) ↦
        drop_row-kept _ (v.db.workflows.row k) w there
          (sym (ap (λ o. is_of q (project_of o)) there) ∙ other)
        ∙ sym there
  ]

  dataset-same :
      (k : ℕ) → Elsewhere q (dataset_project v k) → (cascade v q).datasets.row k ≡ v.datasets.row k
  unfolding cascade
  dataset-same k other = elim (Option-cases (v.datasets.row k)) [
    | inl absent ↦ rw absent refl
    | inr (d, there) ↦
        drop_row-kept _ (v.datasets.row k) d there
          (sym (ap (λ o. is_of q (project_of_dataset o)) there) ∙ other)
        ∙ sym there
  ]

  -- A link to a run of the same project is not cleared.
  clear-same :
      (link : Option ℕ) (found : Option ℕ)
      → Elsewhere q found
      → ((id : ℕ) → link ≡ some id → run_project v id ≡ found)
      → clear (of_run v q) link ≡ link
  clear-same none found other same = refl
  clear-same (some id) found other same = rw (of_run-is_of v q id, same id refl, other) refl

  run-same : (k : ℕ) → Elsewhere q (run_project v k) → (cascade v q).db.runs.row k ≡ v.db.runs.row k
  unfolding cascade
  run-same k other = elim (Option-cases (v.db.runs.row k)) [
    | inl absent ↦ rw absent refl
    | inr (r, there) ↦
        let elsewhere : Elsewhere q (workflow_project v r.workflow_id) =
          sym (ap (λ o. is_of q (project_of_row v o)) there) ∙ other in
        let kept : of_workflow v q r.workflow_id ≡ false =
          of_workflow-is_of v q r.workflow_id ∙ elsewhere in
        let link =
          clear-same r.parent_run_id (workflow_project v r.workflow_id) elsewhere
            (λ parent. h.parents k r parent there) in
        ap (map_row (clear_parent (of_run v q))) (drop_row-kept _ (v.db.runs.row k) r there kept)
        ∙ ap (λ p. some (record r { parent_run_id = p })) link
        ∙ sym there
  ]

  schedule-same :
      (k : ℕ) (x : Schedule)
      → v.schedules.row k ≡ some x
      → Elsewhere q (workflow_project v x.workflow_id)
      → (cascade v q).schedules.row k ≡ some x
  unfolding cascade
  schedule-same k x there other =
      let kept : of_workflow v q x.workflow_id ≡ false =
        of_workflow-is_of v q x.workflow_id ∙ other in
      let link =
        clear-same x.last_run_id (workflow_project v x.workflow_id) other
          (λ last. h.last_runs k x last there) in
      ap (map_row (clear_last (of_run v q))) (drop_row-kept _ (v.schedules.row k) x there kept)
      ∙ ap (λ l. some (record x { last_run_id = l })) link

  evaluation-same :
      (k : ℕ) (x : Evaluation)
      → v.evaluations.row k ≡ some x
      → Elsewhere q (workflow_project v x.workflow_id)
      → (cascade v q).evaluations.row k ≡ some x
  unfolding cascade
  evaluation-same k x there other =
      let kept : (of_workflow v q x.workflow_id || of_dataset v q x.dataset_id) ≡ false =
        rw
          (
            of_workflow-is_of v q x.workflow_id,
            of_dataset-is_of x.dataset_id,
            (h.evaluations k x there).1,
            other,
          )
          refl in
      drop_row-kept _ (v.evaluations.row k) x there kept

  unless-same :
      {A : Type 0} (gone : Bool) (o : Option A) → gone ≡ false → (if gone then none else o) ≡ o
  unless-same gone o e = rw e refl

  cascade-SameElsewhere : SameElsewhere q v (cascade v q)
  unfolding cascade
  cascade-SameElsewhere = record {
    projects = λ k other. unless-same (k == q) (v.db.projects.row k) other;
    workflows = workflow-same;
    runs = run-same;
    spans = λ k i other. unless-same (of_run v q k) (v.db.spans k i) (of_run-is_of v q k ∙ other);
    approvals = λ k a there other.
        drop_row-kept _ (v.db.approvals.row k) a there (of_run-is_of v q a.run_id ∙ other);
    webhooks = λ k x there other. drop_row-kept _ (v.db.webhooks.row k) x there other;
    memories = λ p namespace key other. unless-same (p == q) (v.db.memories p namespace key) other;
    secrets = λ k x there other. drop_row-kept _ (v.db.secrets.row k) x there other;
    datasets = dataset-same;
    evaluations = evaluation-same;
    schedules = schedule-same;
    members = λ k m there other. drop_row-kept _ (v.members.row k) m there other;
    events = events-same v.db.events;
    outbox = refl;
    audit_events = refl;
    users = refl;
    alerts = refl;
  }

project-gone : (v : Service) (q : ℕ) → (cascade v q).db.projects.row q ≡ none
unfolding cascade
project-gone v q = rw (==_refl q) refl

delete_project-cascade :
    (v : Service) (q : ℕ) (name : String)
    → v.db.projects.row q ≡ some name
    → delete_project q v ≡ (ok tt, cascade v q)
unfolding delete_project
delete_project-cascade v q name stored = rw (stored, delete_project) refl

-- Deleting a project that is stored, where every reference finds its row, in its own project: it
-- succeeds, the project is gone, every reference finds its row again, so that nothing of the project
-- is left, and the rows of all other projects are as they were, as are users, alerts, the outbox and
-- the audit trail.
pub delete_project-SameElsewhere :
    (v : Service) (q : ℕ) (name : String)
    → IsIntact v
    → v.db.projects.row q ≡ some name
    → let (result, w) = delete_project q v in
      (result ≡ ok tt) × (w.db.projects.row q ≡ none) × IsIntact w × SameElsewhere q v w
delete_project-SameElsewhere v q name h stored =
    rw (delete_project-cascade v q name stored)
      (refl, project-gone v q, cascade-IsIntact v q h, cascade-SameElsewhere v q h)
