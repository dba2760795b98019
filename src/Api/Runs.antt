-- ===== src/Api/Runs.antt =====
-- The routes of src/agentops/main.py on runs and approvals.
use agentops_control_plane.Base.{
  ℕ, String, Bool, true, false, ◌&&◌, Option, none, some, leb, if◌then◌else◌,
}
use agentops_control_plane.Json.{Value}
use agentops_control_plane.Store.Rows.{Run, Approval}
use agentops_control_plane.Store.Exec.{Error, Exec}
use agentops_control_plane.Approvals.{Actor, Decision, decide_approval, escalate_approval}
use agentops_control_plane.Runs.Env.{Env}
use agentops_control_plane.Runs.Rows.{get_run}
use agentops_control_plane.Runs.Outbox.{view}
use agentops_control_plane.Runs.Pause.{cancel_run}
use agentops_control_plane.Runs.Start.{start_run, replay, find_run_by_idempotency_key}
use agentops_control_plane.Service.{Served, pure, raise, on_db, ◌>>=◌, ◌>>◌}
use agentops_control_plane.Security.Checks.{workflow_access, run_access, approval_access}

-- `is_key` is the pattern of the header Idempotency-Key, [A-Za-z0-9._-]+, and `len` the length of a
-- text.
module _ (env : Env) (execute : ℕ → Exec (Unit {0})) (is_key : String → Bool) (actor : Actor) where
  abbrev pub launched : ℕ → Value → Option ℕ → Bool → ℕ → Option String → Served (ℕ × Run)
  launched workflow_id payload parent queued max_steps key =
      on_db (start_run env execute workflow_id payload parent queued max_steps actor.role key)

  -- A run that is found is answered with 200, a new one with 201.
  abbrev pub found_or : Option (ℕ × Run) → Served (ℕ × Run) → Served (ℕ × Run)
  found_or none start = start
  found_or (some (id, run)) start = pure (id, view env run)

  -- What the route does behind its check.
  abbrev pub launch_once : ℕ → Value → Option ℕ → Bool → ℕ → Option String → Served (ℕ × Run)
  launch_once workflow_id payload parent queued max_steps none =
      launched workflow_id payload parent queued max_steps none
  launch_once workflow_id payload parent queued max_steps (some key) =
      if leb (env.len key) 128 && is_key key
      then (on_db (find_run_by_idempotency_key key workflow_id) >>= λ existing.
          found_or existing (launched workflow_id payload parent queued max_steps (some key)))
      else raise (Error.value_error "invalid Idempotency-Key")

  unfoldable pub post_run : ℕ → Value → Option ℕ → Bool → ℕ → Option String → Served (ℕ × Run)
  unfolding find_run_by_idempotency_key
  post_run workflow_id payload parent queued max_steps key =
      workflow_access actor workflow_id true
      >> launch_once workflow_id payload parent queued max_steps key

  -- A run is shown with the values of its sensitive keys left out.
  abbrev pub shown_run : ℕ → Served Run
  shown_run id = on_db (get_run id) >>= λ run. pure (view env run)

  unfoldable pub read_run : ℕ → Served Run
  read_run id = run_access actor id false >> shown_run id

  unfoldable pub post_replay : ℕ → Served (ℕ × Run)
  post_replay id = run_access actor id true >> on_db (replay env execute id)

  unfoldable pub post_cancel : ℕ → Served Run
  post_cancel id = run_access actor id true >> on_db (cancel_run env id)

  unfoldable pub post_decision : ℕ → Decision → String → Option Value → Served Run
  post_decision id decision note out =
      approval_access actor id true
      >> on_db (decide_approval env execute id decision note out (some actor))

  unfoldable pub post_escalation : ℕ → String → Served Approval
  post_escalation id note = approval_access actor id true >> on_db (escalate_approval env id note)
