-- ===== src/Deletion.antt =====
-- `delete_project` and `delete_dataset` of src/agentops/service.py, with the deletions that follow
-- from the REFERENCES clauses of src/agentops/database.py: a row goes with the row that it refers to
-- (ON DELETE CASCADE), but that a parent run and the last run of a schedule are cleared (ON DELETE
-- SET NULL). Outbox rows, audit rows, alerts and users refer to nothing. The rows of
-- `webhook_deliveries` stand outside of the service's record and are left out.
pub mod Intact
pub mod Owners
pub mod Cascade
pub mod Others
use agentops_control_plane.Base.{
  ℕ, String, Bool, true, false, ◌||◌, not, Option, none, some, List, keep, ◌==◌, if◌then◌else◌,
}
use agentops_control_plane.Base.Table.{Table, holds, map_row}
use agentops_control_plane.Store.Rows.{Run, Workflow, Approval, AgentEvent, Webhook, Span}
use agentops_control_plane.Store.Exec.{Db, Error, Exec, err, ok}
use agentops_control_plane.Datasets.{Dataset, Evaluation, Catalog, Bench}
use agentops_control_plane.Schedules.{Schedule}
use agentops_control_plane.Service.{Service, Served, Member, on_catalog}

module _ {ℓ} {A : Type ℓ} where
  abbrev pub drop_row : (A → Bool) → Option A → Option A
  drop_row gone none = none
  drop_row gone (some a) = if gone a then none else some a

  -- DELETE FROM ... WHERE a condition on the row. Ids are not given out again.
  abbrev pub delete_where : (A → Bool) → Table A → Table A
  delete_where gone t = record t { row = λ k. drop_row gone (t.row k) }

  -- DELETE FROM ... WHERE id=?
  abbrev pub delete_id : ℕ → Table A → Table A
  delete_id id t = record t { row = λ k. if k == id then none else t.row k }

-- ON DELETE SET NULL
abbrev pub clear : (ℕ → Bool) → Option ℕ → Option ℕ
clear gone none = none
clear gone (some id) = if gone id then none else some id

abbrev pub clear_parent : (ℕ → Bool) → Run → Run
clear_parent gone r = record r { parent_run_id = clear gone r.parent_run_id }

abbrev pub clear_last : (ℕ → Bool) → Schedule → Schedule
clear_last gone x = record x { last_run_id = clear gone x.last_run_id }

module _ (v : Service) (project_id : ℕ) where
  -- The rows that go: workflows and datasets with their project, runs with their workflow.
  abbrev pub of_workflow : ℕ → Bool
  of_workflow id = holds (λ w. w.project_id == project_id) (v.db.workflows.row id)

  abbrev pub of_run : ℕ → Bool
  of_run id = holds (λ r. of_workflow r.workflow_id) (v.db.runs.row id)

  abbrev pub of_dataset : ℕ → Bool
  of_dataset id = holds (λ d. d.project_id == project_id) (v.datasets.row id)

  abbrev keyed : {A : Type 0} → (ℕ → Option A) → ℕ → Option A
  keyed rows p = if p == project_id then none else rows p

  unfoldable pub cascade_db : Db
  cascade_db =
      let s = v.db in
      record s {
        projects = delete_id project_id s.projects;
        workflows = delete_where (λ w. w.project_id == project_id) s.workflows;
        runs = record s.runs {
          row = λ k.
              map_row (clear_parent of_run)
                (drop_row (λ r. of_workflow r.workflow_id) (s.runs.row k));
        };
        spans = λ run_id index. if of_run run_id then none else s.spans run_id index;
        approvals = delete_where (λ a. of_run a.run_id) s.approvals;
        events = keep (λ e. not (of_run e.run_id)) s.events;
        webhooks = delete_where (λ w. w.project_id == project_id) s.webhooks;
        memories = λ p namespace key. if p == project_id then none else s.memories p namespace key;
        secrets = delete_where (λ x. x.project_id == project_id) s.secrets;
      }

  unfoldable pub cascade : Service
  unfolding cascade_db
  cascade = record v {
    db = cascade_db;
    datasets = delete_where (λ d. d.project_id == project_id) v.datasets;
    evaluations =
        delete_where (λ e. of_workflow e.workflow_id || of_dataset e.dataset_id) v.evaluations;
    schedules = record v.schedules {
      row = λ k.
          map_row (clear_last of_run)
            (drop_row (λ x. of_workflow x.workflow_id) (v.schedules.row k));
    };
    members = delete_where (λ m. m.project_id == project_id) v.members;
  }

-- `cursor.rowcount == 0` says that there was no such row.
unfoldable pub delete_project : ℕ → Served (Unit {0})
unfolding cascade
delete_project project_id v = elim (v.db.projects.row project_id) [
  | none ↦ (err (Error.not_found "project not found"), v)
  | some project ↦ (ok tt, cascade v project_id)
]

unfoldable pub drop_dataset : ℕ → Catalog → Catalog
drop_dataset id c = record c {
  datasets = delete_id id c.datasets;
  evaluations = delete_where (λ e. e.dataset_id == id) c.evaluations;
}

unfoldable pub delete_dataset : ℕ → Bench (Unit {0})
unfolding drop_dataset
delete_dataset id c = elim (c.datasets.row id) [
  | none ↦ (err (Error.not_found "dataset not found"), c)
  | some d ↦ (ok tt, drop_dataset id c)
]
