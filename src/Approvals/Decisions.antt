-- ===== src/Approvals/Decisions.antt =====
-- `decide_approval` and `cancel_run` as a whole, and a decision behind a pause.
use agentops_control_plane.Base.{
  ℕ, ◌+◌, String, true, false, ◌≡◌, ◌≢◌, Option, none, some, arith, Option-cases, inl, inr,
}
use agentops_control_plane.Json.{Value}
use agentops_control_plane.Store.Rows.{
  Approval, ApprovalStatus, Run, RunStatus, Event, Config, Workflow,
}
use agentops_control_plane.Store.Exec.{Db, Error, err, ok, Exec}
use agentops_control_plane.Runs.Env.{Env}
use agentops_control_plane.Runs.Rows.{is_terminal}
use agentops_control_plane.Runs.Outbox.{view}
use agentops_control_plane.Runs.Frames.{dispatch_webhooks_frame, dispatch_webhooks_ok}
use agentops_control_plane.Runs.Pause.{pause_writes, cancel_writes, cancel_run, new_approval}
use agentops_control_plane.Runs.Steps.{permits}
use agentops_control_plane.Approvals.{
  Actor, Decision, approved, is_due, decide_approval, apply_decision, approver_roles_of, actor_role,
}
use agentops_control_plane.Approvals.Linked.{IsLinked, cancel_writes-IsLinked}
use agentops_control_plane.Approvals.Expiry.{IsLinked-outbox}

module _ (env : Env) where
  -- A decision that succeeds was made on a pending approval that was not past its time, by a role
  -- that its policy names.
  pub decide_approval-guards :
      (execute : ℕ → Exec (Unit {0})) (s : Db) (id : ℕ) (decision : Decision) (note : String)
      (out : Option Value) (actor : Option Actor) (r : Run)
      → (decide_approval env execute id decision note out actor s).0 ≡ ok r
      → (a : Approval) × (s.approvals.row id ≡ some a)
        × (a.status ≡ ApprovalStatus.pending)
        × (is_due env.now a.expires_at ≡ false)
        × (permits (actor_role actor) (approver_roles_of a.policy) ≡ true)
  unfolding decide_approval
  decide_approval-guards execute s id decision note out actor r h =
      elim (Option-cases (s.approvals.row id)) [
        | inl absent ↦ absurd (ground arith)
        | inr (a, there) ↦ (a, there, ground arith, ground arith, ground arith)
      ]

  -- The writes of a pause of a stored run at a step, and then of its approval with no output of its
  -- own, leave the run with the value that came into the step as its output, running, at the next
  -- step: as a step that passes its value on.
  pub approve-pause :
      (s : Db) (run_id index : ℕ) (config : Config) (v : Value) (note : String)
      (actor : Option Actor) (r : Run)
      → s.runs.row run_id ≡ some r
      → let id = s.approvals.next in
        let a = new_approval env run_id index config in
        let paused = pause_writes env run_id index config v s in
        (paused.approvals.row id ≡ some a)
        × ((apply_decision env id a approved note none actor paused).runs.row run_id
            ≡ some (record r {
              status = RunStatus.running;
              output = some v;
              current_step = index + 1;
            }))
  unfolding pause_writes apply_decision
  approve-pause s run_id index config v note actor r there = ground arith

  -- A run that has ended cannot be cancelled, and nothing is written.
  pub cancel_run-terminal :
      (s : Db) (run_id : ℕ) (r : Run)
      → s.runs.row run_id ≡ some r
      → is_terminal r.status ≡ true
      → cancel_run env run_id s ≡ (err (Error.conflict "terminal run cannot be cancelled"), s)
  unfolding cancel_run
  cancel_run-terminal s run_id r there terminal = ground arith

  cancel_run-state :
      (s : Db) (run_id : ℕ) (r : Run)
      → s.runs.row run_id ≡ some r
      → is_terminal r.status ≡ false
      → (cancel_run env run_id s).1
        ≡ record (cancel_writes env run_id s) { outbox = (cancel_run env run_id s).1.outbox }
  unfolding cancel_run
  cancel_run-state s run_id r there live =
      ground
        (arith, dispatch_webhooks_frame env run_id Event.run_cancelled (cancel_writes env run_id s))

  -- Cancelling a run that is stored with its workflow and has not ended, where approvals and runs
  -- are tied: the run comes back cancelled and is stored so, none of its approvals is pending any
  -- more, no other run changes, and approvals and runs are tied after it.
  pub cancel_run_lem :
      (s : Db) (run_id : ℕ) (r : Run) (w : Workflow)
      → IsLinked s
      → s.runs.row run_id ≡ some r
      → s.workflows.row r.workflow_id ≡ some w
      → is_terminal r.status ≡ false
      → let (result, s') = cancel_run env run_id s in
        let cancelled_run = record r {
          status = RunStatus.cancelled;
          error = some "cancelled by operator";
          finished_at = some env.now;
        } in
        (result ≡ ok (view env cancelled_run))
        × (s'.runs.row run_id ≡ some cancelled_run)
        × ((k : ℕ) (a : Approval)
            → s'.approvals.row k ≡ some a
            → a.run_id ≡ run_id
            → a.status ≢ ApprovalStatus.pending)
        × ((k : ℕ) → k ≢ run_id → s'.runs.row k ≡ s.runs.row k)
        × IsLinked s'
  unfolding cancel_run
  cancel_run_lem s run_id r w l there flow live =
      let e = cancel_run-state s run_id r there live in
      let t = cancel_writes env run_id s in
      let ended : Run = record r {
        status = RunStatus.cancelled;
        error = some "cancelled by operator";
        finished_at = some env.now;
      } in
      (
        ground (
          arith,
          dispatch_webhooks_ok env run_id Event.run_cancelled t ended w,
          dispatch_webhooks_frame env run_id Event.run_cancelled t,
        ),
        rw e (ground arith),
        (λ k a. rw e (ground arith)),
        (λ k ne. rw e (ground arith)),
        IsLinked-outbox (cancel_writes env run_id s) (cancel_run env run_id s).1 e
            (cancel_writes-IsLinked env l run_id),
      )
