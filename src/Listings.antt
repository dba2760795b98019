-- ===== src/Listings.antt =====
-- The listings of src/agentops/service.py: the `list_...` methods with their filters, scopes and
-- limits. Rows come with their ids, the newest first: ids are given out in the order of creation,
-- which the queries sort by. A scope is a set of projects, or `none` for all of them.
pub mod Scopes
pub mod Visible
pub mod Pages
use agentops_control_plane.Base.{
  ℕ, zero, suc, Bool, true, false, ◌&&◌, not, Option, none, some, List, [], ◌∷◌, map, ◌==◌, ltb,
  str_eq, if◌then◌else◌, keep, occurs, length, String,
}
use agentops_control_plane.Base.Table.{Table, holds, newest_first}
use agentops_control_plane.Base.Sorting.{insert_by, sort_by}
use agentops_control_plane.Store.Rows.{
  Run, RunStatus, Workflow, Approval, ApprovalStatus, AuditEvent, Webhook, OutboxEvent,
  OutboxStatus,
}
use agentops_control_plane.Store.Exec.{Db}
use agentops_control_plane.Runs.Env.{Env}
use agentops_control_plane.Approvals.{effective_status}
use agentops_control_plane.Datasets.{Dataset, Evaluation}
use agentops_control_plane.Schedules.{Schedule}
use agentops_control_plane.Service.{Service}

abbrev pub Scope : Type 0
Scope = Option (List ℕ)

module _ {ℓ} {A : Type ℓ} where
  -- LIMIT
  abbrev pub take : ℕ → List A → List A
  take zero xs = []
  take (suc n) [] = []
  take (suc n) (x ∷ xs) = x ∷ take n xs

  -- `if not project_ids: return []`
  abbrev pub unless_empty : Scope → List A → List A
  unless_empty none rows = rows
  unless_empty (some []) rows = []
  unless_empty (some (p ∷ ps)) rows = rows

  -- A condition that is added where the filter is given.
  abbrev pub given : Option A → (A → Bool) → Bool
  given none test = true
  given (some a) test = test a

-- project_id IN (...)
abbrev pub in_scope : Scope → ℕ → Bool
in_scope none project_id = true
in_scope (some ids) project_id = occurs project_id ids

abbrev pub run_status_code : RunStatus → ℕ
run_status_code RunStatus.queued = 0
run_status_code RunStatus.running = 1
run_status_code RunStatus.waiting_approval = 2
run_status_code RunStatus.completed = 3
run_status_code RunStatus.failed = 4
run_status_code RunStatus.rejected = 5
run_status_code RunStatus.cancelled = 6

abbrev pub is_status : RunStatus → Run → Bool
is_status status r = run_status_code r.status == run_status_code status

abbrev pub approval_status_code : ApprovalStatus → ℕ
approval_status_code ApprovalStatus.pending = 0
approval_status_code ApprovalStatus.approved = 1
approval_status_code ApprovalStatus.rejected = 2
approval_status_code ApprovalStatus.expired = 3

abbrev pub outbox_status_code : OutboxStatus → ℕ
outbox_status_code OutboxStatus.pending = 0
outbox_status_code OutboxStatus.claimed = 1
outbox_status_code OutboxStatus.delivered = 2
outbox_status_code OutboxStatus.dead = 3

abbrev pub has_parent_run : Run → Bool
has_parent_run r = elim r.parent_run_id [ none ↦ false | some parent ↦ true ]

abbrev pub same_bool : Bool → Bool → Bool
same_bool true b = b
same_bool false b = not b

-- JOIN workflows w ON w.id=..., with a condition on w.
abbrev pub joined : Db → ℕ → (Workflow → Bool) → Bool
joined s workflow_id test = holds test (s.workflows.row workflow_id)

-- JOIN runs r ON r.id=... JOIN workflows w ON w.id=r.workflow_id
abbrev pub joined_run : Db → ℕ → (Workflow → Bool) → Bool
joined_run s run_id test = holds (λ r. joined s r.workflow_id test) (s.runs.row run_id)

unfoldable pub list_projects : Scope → Db → List (ℕ × String)
unfolding newest_first
list_projects scope s =
    unless_empty scope (keep (λ row. in_scope scope row.0) (newest_first s.projects))

unfoldable pub list_workflows : Option ℕ → Scope → Db → List (ℕ × Workflow)
unfolding newest_first
list_workflows project_id scope s = unless_empty scope (
    keep (λ row. given project_id (λ p. row.1.project_id == p) && in_scope scope row.1.project_id)
      (newest_first s.workflows))

-- The filters of `list_runs`.
pub record RunFilter : Type 0 where
  pub workflow_id : Option ℕ
  pub project_id : Option ℕ
  pub status : Option RunStatus
  pub has_parent : Option Bool

-- The filters on the row itself.
abbrev pub run_matches : RunFilter → Run → Bool
run_matches filter r =
    given filter.workflow_id (λ w. r.workflow_id == w)
    && given filter.status (λ status. is_status status r)
    && given filter.has_parent (same_bool (has_parent_run r))

abbrev pub run_listed : RunFilter → Scope → Db → ℕ × Run → Bool
run_listed filter scope s row =
    run_matches filter row.1
    && joined s row.1.workflow_id
        λ w. given filter.project_id (λ p. w.project_id == p) && in_scope scope w.project_id

-- The rows as they are stored; `get_run` redacts its row, and this does not.
unfoldable pub list_runs : RunFilter → ℕ → Scope → Db → List (ℕ × Run)
unfolding newest_first
list_runs filter limit scope s =
    unless_empty scope (take limit (keep (run_listed filter scope s) (newest_first s.runs)))

abbrev pub with_status : Env → ℕ × Approval → ℕ × Approval
with_status env (id, a) = (id, record a { status = effective_status env a })

abbrev pub status_matches : Env → Option ApprovalStatus → Approval → Bool
status_matches env status a =
    given status (λ x. approval_status_code (effective_status env a) == approval_status_code x)

unfoldable pub list_approvals : Env → Option ApprovalStatus → Scope → Db → List (ℕ × Approval)
unfolding newest_first effective_status
list_approvals env status scope s = unless_empty scope (
    map (with_status env) (
      keep
        (λ row.
          status_matches env status row.1
          && joined_run s row.1.run_id (λ w. in_scope scope w.project_id))
        (newest_first s.approvals)))

unfoldable pub list_datasets : Option ℕ → Scope → Service → List (ℕ × Dataset)
unfolding newest_first
list_datasets project_id scope v = unless_empty scope (
    keep (λ row. given project_id (λ p. row.1.project_id == p) && in_scope scope row.1.project_id)
      (newest_first v.datasets))

unfoldable pub list_evaluations : Option ℕ → ℕ → Scope → Service → List (ℕ × Evaluation)
unfolding newest_first
list_evaluations workflow_id limit scope v = unless_empty scope (
    take limit (
      keep
        (λ row.
          given workflow_id (λ w. row.1.workflow_id == w)
          && joined v.db row.1.workflow_id (λ w. in_scope scope w.project_id))
        (newest_first v.evaluations)))

-- The ids are read first, and each row by `get_schedule`.
unfoldable pub list_schedules : Scope → Service → List (ℕ × Schedule)
unfolding newest_first
list_schedules scope v = unless_empty scope (
    keep (λ row. joined v.db row.1.workflow_id (λ w. in_scope scope w.project_id))
      (newest_first v.schedules))

unfoldable pub list_webhooks : Option ℕ → Scope → Db → List (ℕ × Webhook)
unfolding newest_first
list_webhooks project_id scope s = unless_empty scope (
    keep (λ row. given project_id (λ p. row.1.project_id == p) && in_scope scope row.1.project_id)
      (newest_first s.webhooks))

unfoldable pub list_outbox : Option OutboxStatus → ℕ → Db → List (ℕ × OutboxEvent)
unfolding newest_first
list_outbox status limit s = take limit (
    keep (λ row. given status (λ x. outbox_status_code row.1.status == outbox_status_code x))
      (newest_first s.outbox))

-- The rows of `audit_events` with their ids. No row is ever deleted, so the first one has the id 1.
abbrev pub numbered : List AuditEvent → List (ℕ × AuditEvent)
numbered [] = []
numbered (e ∷ es) = (suc (length es), e) ∷ numbered es

-- A page of the audit trail: the newest rows below the cursor.
unfoldable pub list_audit_events : ℕ → Option ℕ → List AuditEvent → List (ℕ × AuditEvent)
list_audit_events limit cursor events =
    take limit (keep (λ row. given cursor (λ c. ltb row.0 c)) (numbered events))
