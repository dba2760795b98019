-- ===== src/Deletion/Intact.antt =====
-- References that hold: every row that refers to another one finds it, in its own project.
use agentops_control_plane.Base.{ℕ, String, ◌≡◌, Option, none, some}
use agentops_control_plane.Base.Sorting.{All}
use agentops_control_plane.Json.{Value}
use agentops_control_plane.Store.Rows.{Run, Workflow, Approval, Webhook, Span, Secret}
use agentops_control_plane.Datasets.{Dataset, Evaluation}
use agentops_control_plane.Schedules.{Schedule}
use agentops_control_plane.Service.{Service, Member}

-- The project of a workflow, of a run and of a dataset.
abbrev pub project_of : Option Workflow → Option ℕ
project_of none = none
project_of (some w) = some w.project_id

abbrev pub workflow_project : Service → ℕ → Option ℕ
workflow_project v id = project_of (v.db.workflows.row id)

abbrev pub project_of_row : Service → Option Run → Option ℕ
project_of_row v none = none
project_of_row v (some r) = workflow_project v r.workflow_id

abbrev pub run_project : Service → ℕ → Option ℕ
run_project v id = project_of_row v (v.db.runs.row id)

abbrev pub project_of_dataset : Option Dataset → Option ℕ
project_of_dataset none = none
project_of_dataset (some d) = some d.project_id

abbrev pub dataset_project : Service → ℕ → Option ℕ
dataset_project v id = project_of_dataset (v.datasets.row id)

abbrev pub HasProject : Service → ℕ → Type 0
HasProject v p = (name : String) × (v.db.projects.row p ≡ some name)

-- There is such a row, and its project is stored.
abbrev pub Belongs : Service → Option ℕ → Type 0
Belongs v found = (p : ℕ) × (found ≡ some p) × HasProject v p

pub record IsIntact (v : Service) : Type 0 where
  pub workflows : (k : ℕ) (w : Workflow) → v.db.workflows.row k ≡ some w → HasProject v w.project_id
  pub runs :
      (k : ℕ) (r : Run) → v.db.runs.row k ≡ some r → Belongs v (workflow_project v r.workflow_id)
  pub parents :
      (k : ℕ) (r : Run) (parent : ℕ)
      → v.db.runs.row k ≡ some r
      → r.parent_run_id ≡ some parent
      → run_project v parent ≡ workflow_project v r.workflow_id
  pub spans : (k i : ℕ) (x : Span) → v.db.spans k i ≡ some x → Belongs v (run_project v k)
  pub approvals :
      (k : ℕ) (a : Approval) → v.db.approvals.row k ≡ some a → Belongs v (run_project v a.run_id)
  pub events : All (λ e. Belongs v (run_project v e.run_id)) v.db.events
  pub webhooks : (k : ℕ) (w : Webhook) → v.db.webhooks.row k ≡ some w → HasProject v w.project_id
  pub memories :
      (p : ℕ) (namespace key : String) (x : Value)
      → v.db.memories p namespace key ≡ some x
      → HasProject v p
  pub secrets : (k : ℕ) (x : Secret) → v.db.secrets.row k ≡ some x → HasProject v x.project_id
  pub datasets : (k : ℕ) (d : Dataset) → v.datasets.row k ≡ some d → HasProject v d.project_id
  pub evaluations :
      (k : ℕ) (e : Evaluation)
      → v.evaluations.row k ≡ some e
      → Belongs v (workflow_project v e.workflow_id)
        × (dataset_project v e.dataset_id ≡ workflow_project v e.workflow_id)
  pub schedules :
      (k : ℕ) (x : Schedule)
      → v.schedules.row k ≡ some x
      → Belongs v (workflow_project v x.workflow_id)
  pub last_runs :
      (k : ℕ) (x : Schedule) (last : ℕ)
      → v.schedules.row k ≡ some x
      → x.last_run_id ≡ some last
      → run_project v last ≡ workflow_project v x.workflow_id
  pub members : (k : ℕ) (m : Member) → v.members.row k ≡ some m → HasProject v m.project_id
