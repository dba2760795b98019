-- ===== src/Runs/Pause.antt =====
-- `_pause_for_approval` and `cancel_run` of src/agentops/service.py.
use agentops_control_plane.Base.{
  ℕ, ◌+◌, Bool, true, false, ◌&&◌, none, some, [], ◌∷◌, ◌==◌, if◌then◌else◌,
}
use agentops_control_plane.Base.Table.{insert, update_where, any_row}
use agentops_control_plane.Json.{Value}
use agentops_control_plane.Store.Rows.{
  pos, negsuc, admin, operator, Config, Step, Run, RunStatus, SpanStatus, Approval, ApprovalStatus,
  Event,
}
use agentops_control_plane.Store.Exec.{Db, Error, Exec, pure, gets, modify, raise_if, ◌>>=◌, ◌>>◌}
use agentops_control_plane.Runs.Env.{Env}
use agentops_control_plane.Runs.Rows.{get_run, set_run, is_terminal}
use agentops_control_plane.Runs.Outbox.{dispatch_webhooks, view}
use agentops_control_plane.Runs.Tools.{default}
use agentops_control_plane.Runs.Spans.{record_span}

abbrev pub is_pending : ApprovalStatus → Bool
is_pending ApprovalStatus.pending = true
is_pending _ = false

-- UNIQUE(run_id, step_index)
abbrev pub same_step : ℕ → ℕ → Approval → Bool
same_step run_id index a = a.run_id == run_id && a.step_index == index

abbrev pub waits_for : ℕ → Approval → Bool
waits_for run_id a = a.run_id == run_id && is_pending a.status

module _ (env : Env) where
  unfoldable pub new_approval : ℕ → ℕ → Config → Approval
  new_approval run_id index config =
      let expires_in = default (pos 0) config.expires_in_seconds in
      record {
        run_id = run_id;
        step_index = index;
        prompt = default "Approve this workflow?" config.prompt;
        status = ApprovalStatus.pending;
        note = "";
        policy = some (default (admin ∷ operator ∷ []) config.approver_roles);
        decided_by = none;
        decided_at = none;
        expires_at = elim expires_in [
          | pos n ↦ if n == 0 then none else some (env.now + n)
          | negsuc n ↦ none
        ];
        escalation_level = 0;
      }

  -- The two writes of the transaction.
  unfoldable pub pause_writes : ℕ → ℕ → Config → Value → Db → Db
  unfolding new_approval
  pause_writes run_id index config v s =
      set_run run_id
        (λ r. record r {
          status = RunStatus.waiting_approval;
          output = some v;
          current_step = index;
        })
        (record s { approvals = insert (new_approval run_id index config) s.approvals })

  unfoldable pub pause_for_approval : ℕ → ℕ → Step → Value → Exec (Unit {0})
  unfolding record_span pause_writes
  pause_for_approval run_id index step v = do
    record_span env run_id index step v (some v) SpanStatus.waiting none none
    taken ← gets (λ s. any_row (same_step run_id index) s.approvals)
    raise_if taken Error.integrity
    modify (pause_writes run_id index step.config v)
    dispatch_webhooks env run_id Event.approval_pending

  -- The two updates of the transaction of `cancel_run`.
  unfoldable pub cancel_writes : ℕ → Db → Db
  cancel_writes run_id s =
      record (set_run run_id
        (λ r. record r {
          status = RunStatus.cancelled;
          error = some "cancelled by operator";
          finished_at = some env.now;
        })
        s) {
          approvals =
              update_where (waits_for run_id)
                (λ a. record a {
                  status = ApprovalStatus.rejected;
                  note = "run cancelled";
                  decided_at = some env.now;
                })
                s.approvals;
        }

  unfoldable pub cancel_run : ℕ → Exec Run
  unfolding get_run cancel_writes
  cancel_run run_id = do
    run ← get_run run_id
    raise_if (is_terminal run.status) (Error.conflict "terminal run cannot be cancelled")
    modify (cancel_writes run_id)
    dispatch_webhooks env run_id Event.run_cancelled
    ended ← get_run run_id
    pure (view env ended)
