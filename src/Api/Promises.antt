-- ===== src/Api/Promises.antt =====
-- Who may use a row by its project, and what a check or a route does for those and for all others.
use agentops_control_plane.Base.{ℕ, Bool, true, ◌||◌, ◌≡◌, ◌⊎◌, Option, none, some, ◌==◌}
use agentops_control_plane.Store.Rows.{Approval}
use agentops_control_plane.Store.Exec.{Error, ok, err}
use agentops_control_plane.Approvals.{Actor}
use agentops_control_plane.Accounts.{project_role}
use agentops_control_plane.Datasets.{Evaluation}
use agentops_control_plane.Schedules.{Schedule}
use agentops_control_plane.Service.{Service, Served}
use agentops_control_plane.Security.Access.{IsMember}
use agentops_control_plane.Deletion.Intact.{workflow_project, run_project}
use agentops_control_plane.Api.{status_code}

-- The row that is asked for is there, and the caller is an admin or has a role in its project that is
-- enough.
abbrev pub MayUse : Service → Actor → Option ℕ → Bool → Type 0
MayUse v actor found write =
    (p : ℕ) × (found ≡ some p) × IsMember (project_role v.members) actor p write

-- Answered by 403 or 404, with nothing changed.
abbrev pub Refused {ℓ} : {A : Type ℓ} → Served A → Service → Type ℓ
Refused {A = A} m v =
    (e : Error) × (m v ≡ (err e, v)) × ((status_code e == 403 || status_code e == 404) ≡ true)

-- What a check decides: it passes just the callers who may use the row.
abbrev pub Decides : Service → Actor → Option ℕ → Bool → Served (Unit {0}) → Type 0
Decides v actor found write check =
    (MayUse v actor found write × (check v ≡ (ok tt, v)))
    ⊎ ((MayUse v actor found write → ⊥) × Refused check v)

-- The project of an approval, of an evaluation and of a schedule.
abbrev pub project_of_approval : Service → Option Approval → Option ℕ
project_of_approval v none = none
project_of_approval v (some a) = run_project v a.run_id

abbrev pub approval_project : Service → ℕ → Option ℕ
approval_project v id = project_of_approval v (v.db.approvals.row id)

abbrev pub project_of_evaluation : Service → Option Evaluation → Option ℕ
project_of_evaluation v none = none
project_of_evaluation v (some e) = workflow_project v e.workflow_id

abbrev pub evaluation_project : Service → ℕ → Option ℕ
evaluation_project v id = project_of_evaluation v (v.evaluations.row id)

abbrev pub project_of_schedule : Service → Option Schedule → Option ℕ
project_of_schedule v none = none
project_of_schedule v (some x) = workflow_project v x.workflow_id

abbrev pub schedule_project : Service → ℕ → Option ℕ
schedule_project v id = project_of_schedule v (v.schedules.row id)

-- The route `m` on a row of the project `found`: who may use it gets what `act` does, and everybody
-- else is answered 403 or 404, with nothing changed.
abbrev pub Guarded {ℓ} :
    {A : Type ℓ} → Service → Actor → Option ℕ → Bool → Served A → Served A → Type ℓ
Guarded v actor found write m act =
    (MayUse v actor found write × (m v ≡ act v)) ⊎ ((MayUse v actor found write → ⊥) × Refused m v)

-- The same on two rows, of which the caller must have the use of both.
abbrev pub GuardedTwice {ℓ} :
    {A : Type ℓ} → Service → Actor → Option ℕ → Option ℕ → Bool → Served A → Served A → Type ℓ
GuardedTwice v actor found found' write m act =
    (MayUse v actor found write × MayUse v actor found' write × (m v ≡ act v))
    ⊎ ((MayUse v actor found write → MayUse v actor found' write → ⊥) × Refused m v)
