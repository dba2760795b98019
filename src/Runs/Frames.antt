-- ===== src/Runs/Frames.antt =====
-- What the parts of the execution leave alone.
use agentops_control_plane.Base.{ℕ, ◌≡◌, some, arith}
use agentops_control_plane.Store.Rows.{Event, Run, Workflow}
use agentops_control_plane.Store.Exec.{Db, ok}
use agentops_control_plane.Runs.Env.{Env}
use agentops_control_plane.Runs.Outbox.{dispatch_webhooks}

module _ (env : Env) where
  -- A dispatch writes to the outbox and to nothing else.
  pub dispatch_webhooks_frame :
      (run_id : ℕ) (event : Event) (s : Db)
      → (dispatch_webhooks env run_id event s).1
        ≡ record s { outbox = (dispatch_webhooks env run_id event s).1.outbox }
  unfolding dispatch_webhooks
  dispatch_webhooks_frame run_id event s = ground arith

  -- A dispatch for a run with its workflow does not raise.
  pub dispatch_webhooks_ok :
      (run_id : ℕ) (event : Event) (s : Db) (r : Run) (w : Workflow)
      → s.runs.row run_id ≡ some r
      → s.workflows.row r.workflow_id ≡ some w
      → (dispatch_webhooks env run_id event s).0 ≡ ok tt
  unfolding dispatch_webhooks
  dispatch_webhooks_ok run_id event s r w there flow = ground arith
