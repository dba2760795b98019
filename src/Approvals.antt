-- ===== src/Approvals.antt =====
-- The decisions on approvals: `decide_approval`, `escalate_approval`, `expire_approvals` and the
-- derived status of `list_approvals`, of src/agentops/service.py.
pub mod Linked
pub mod Sweep
pub mod Rejects
pub mod Expiry
pub mod Decisions
use agentops_control_plane.Base.{
  ℕ, ◌+◌, String, Bool, false, ◌&&◌, not, Option, none, some, List, [], ◌∷◌, ◌==◌, str_eq, leb,
  length, if◌then◌else◌,
}
use agentops_control_plane.Base.Table.{update, map_row, newest_first}
use agentops_control_plane.Json.{Value}
use agentops_control_plane.Store.Rows.{
  Role, admin, operator, Approval, ApprovalStatus, Run, RunStatus, Span, SpanStatus, Event,
}
use agentops_control_plane.Store.Exec.{
  Db, Error, Exec, pure, raise, gets, or_raise, modify, when, raise_if, ◌>>=◌, ◌>>◌,
}
use agentops_control_plane.Runs.Env.{Env}
use agentops_control_plane.Runs.Rows.{get_run, set_run}
use agentops_control_plane.Runs.Outbox.{dispatch_webhooks, view}
use agentops_control_plane.Runs.Pause.{is_pending}
use agentops_control_plane.Runs.Steps.{permits}

pub data Decision : Type 0 where
  approved rejected : Decision

-- `Actor` of src/agentops/security.py
pub record Actor : Type 0 where
  pub name : String
  pub role : Role

unfoldable pub get_approval : ℕ → Exec Approval
get_approval approval_id = do
  row ← gets (λ s. s.approvals.row approval_id)
  or_raise row (Error.not_found "approval not found")

-- UPDATE approvals SET ... WHERE id=?
abbrev pub set_approval : ℕ → (Approval → Approval) → Db → Db
set_approval id f s = record s { approvals = update id f s.approvals }

-- UPDATE spans SET ... WHERE run_id=? AND step_index=?
abbrev pub update_span : ℕ → ℕ → (Span → Span) → Db → Db
update_span run_id index f s = record s {
  spans = λ r i. if r == run_id && i == index then map_row f (s.spans r i) else s.spans r i;
}

-- expires_at IS NOT NULL AND expires_at <= at
abbrev pub is_due : ℕ → Option ℕ → Bool
is_due at none = false
is_due at (some t) = leb t at

abbrev pub or_else : String → String → String
or_else fallback note = if str_eq note "" then fallback else note

-- `policy.get("approver_roles") or ["admin", "operator"]`
abbrev pub approver_roles_of : Option (List Role) → List Role
approver_roles_of none = admin ∷ operator ∷ []
approver_roles_of (some []) = admin ∷ operator ∷ []
approver_roles_of (some (r ∷ rs)) = r ∷ rs

abbrev actor_name : Option Actor → String
actor_name none = "unknown"
actor_name (some a) = a.name

abbrev pub actor_role : Option Actor → Role
actor_role none = admin
actor_role (some a) = a.role

-- status='pending' AND expires_at IS NOT NULL AND expires_at<=?
abbrev pub has_expired : ℕ → Approval → Bool
has_expired cutoff a = is_pending a.status && is_due cutoff a.expires_at

abbrev pub expired_rows : ℕ → List (ℕ × Approval) → List (ℕ × Approval)
expired_rows cutoff [] = []
expired_rows cutoff ((id, a) ∷ rest) =
    if has_expired cutoff a then (id, a) ∷ expired_rows cutoff rest else expired_rows cutoff rest

unfoldable pub expire_row : ℕ → ℕ → Approval → Db → Db
expire_row cutoff id a s =
    set_run a.run_id
      (λ r. record r {
        status = RunStatus.rejected;
        error = some "approval expired";
        finished_at = some cutoff;
      })
      (set_approval id
        (λ x. record x {
          status = ApprovalStatus.expired;
          note = "approval expired";
          decided_at = some cutoff;
        })
        s)

unfoldable pub expire_rows : ℕ → List (ℕ × Approval) → Db → Db
unfolding expire_row
expire_rows cutoff [] s = s
expire_rows cutoff ((id, a) ∷ rest) s = expire_rows cutoff rest (expire_row cutoff id a s)

abbrev status_of : Decision → ApprovalStatus
status_of approved = ApprovalStatus.approved
status_of rejected = ApprovalStatus.rejected

module _ (env : Env) where
  -- The guards, in the order of the code. A pending approval that is past its time is marked in a
  -- transaction of its own before the raise.
  unfoldable pub check_decision : ℕ → Option Actor → Exec Approval
  unfolding get_approval
  check_decision approval_id actor = do
    a ← get_approval approval_id
    raise_if (not (is_pending a.status)) (Error.conflict "approval has already been decided")
    when (is_due env.now a.expires_at) do
      modify (
          set_approval approval_id
            λ x. if is_pending x.status then record x { status = ApprovalStatus.expired } else x)
      raise (Error.conflict "approval has expired")
    raise_if (not (permits (actor_role actor) (approver_roles_of a.policy)))
        (Error.conflict "role is not allowed to decide this approval")
    pure a

  unfoldable pub reject_run : ℕ → String → Db → Db
  reject_run run_id error =
      set_run run_id λ r. record r {
        status = RunStatus.rejected;
        error = some error;
        finished_at = some env.now;
      }

  -- The output of the step that the approver supplied, where one was.
  unfoldable pub override : ℕ → ℕ → Option Value → Db → Db
  override run_id index none s = s
  override run_id index (some v) s =
      update_span run_id index (λ x. record x { output = some v })
        (set_run run_id (λ r. record r { output = some v }) s)

  unfoldable pub resume_run : ℕ → ℕ → Db → Db
  resume_run run_id index s =
      set_run run_id (λ r. record r { status = RunStatus.running; current_step = index + 1 })
        (update_span run_id index (λ x. record x { status = SpanStatus.completed }) s)

  -- The writes of one decision; they are one transaction.
  unfoldable pub apply_decision :
      ℕ → Approval → Decision → String → Option Value → Option Actor → Db → Db
  unfolding reject_run override resume_run
  apply_decision approval_id a decision note out actor s =
      let s' =
        set_approval approval_id
          (λ x. record x {
            status = status_of decision;
            note = note;
            decided_at = some env.now;
            decided_by = some (actor_name actor);
          })
          s in
      elim decision [
        | rejected ↦ reject_run a.run_id (or_else "approval rejected" note) s'
        | approved ↦ resume_run a.run_id a.step_index (override a.run_id a.step_index out s')
      ]

  -- `execute` is `_execute`. `out` is the output of the body where the body has one.
  module _ (execute : ℕ → Exec (Unit {0})) where
    unfoldable pub decide_approval : ℕ → Decision → String → Option Value → Option Actor → Exec Run
    unfolding check_decision apply_decision get_run
    decide_approval approval_id decision note out actor = do
      a ← check_decision approval_id actor
      modify (apply_decision approval_id a decision note out actor)
      elim decision [
        | rejected ↦ dispatch_webhooks env a.run_id Event.run_rejected
        | approved ↦ execute a.run_id
      ]
      run ← get_run a.run_id
      pure (view env run)

  unfoldable pub escalate_approval : ℕ → String → Exec Approval
  unfolding get_approval
  escalate_approval approval_id note = do
    a ← get_approval approval_id
    raise_if (not (is_pending a.status)) (Error.conflict "only pending approvals can be escalated")
    modify (
        set_approval approval_id
          λ x. record x { escalation_level = x.escalation_level + 1; note = note })
    dispatch_webhooks env a.run_id Event.approval_escalated
    get_approval approval_id

  unfoldable pub announce : List (ℕ × Approval) → Exec (Unit {0})
  announce [] = pure tt
  announce ((id, a) ∷ rest) = dispatch_webhooks env a.run_id Event.approval_expired >> announce rest

  unfoldable pub expire_approvals : ℕ → Exec ℕ
  unfolding newest_first expire_rows announce
  expire_approvals cutoff = do
    rows ← gets (λ s. expired_rows cutoff (newest_first s.approvals))
    modify (expire_rows cutoff rows)
    announce rows
    pure (length rows)

  -- The `effective_status` of `list_approvals`.
  unfoldable pub effective_status : Approval → ApprovalStatus
  effective_status a = if has_expired env.now a then ApprovalStatus.expired else a.status
