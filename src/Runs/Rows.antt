-- ===== src/Runs/Rows.antt =====
-- Reading and writing single rows: `get_run`, `get_workflow`, `_agent_event` and the UPDATE
-- statements on a run, of src/agentops/service.py.
use agentops_control_plane.Base.{ℕ, ◌∷◌, Bool, true, false}
use agentops_control_plane.Base.Table.{update}
use agentops_control_plane.Store.Rows.{Workflow, Run, RunStatus, EventType}
use agentops_control_plane.Store.Exec.{Db, Error, Exec, gets, or_raise, modify, ◌>>=◌}

-- The row; the copy that a client sees is redacted by `view`.
unfoldable pub get_run : ℕ → Exec Run
get_run run_id = do
  row ← gets (λ s. s.runs.row run_id)
  or_raise row (Error.not_found "run not found")

unfoldable pub get_workflow : ℕ → Exec Workflow
get_workflow workflow_id = do
  row ← gets (λ s. s.workflows.row workflow_id)
  or_raise row (Error.not_found "workflow not found")

-- UPDATE runs SET ... WHERE id=?
abbrev pub set_run : ℕ → (Run → Run) → Db → Db
set_run run_id f s = record s { runs = update run_id f s.runs }

unfoldable pub update_run : ℕ → (Run → Run) → Exec (Unit {0})
update_run run_id f = modify (set_run run_id f)

unfoldable pub agent_event : ℕ → EventType → Exec (Unit {0})
agent_event run_id event_type =
    modify
      λ s. record s { events = (record { run_id = run_id; event_type = event_type }) ∷ s.events }

abbrev pub is_cancelled : RunStatus → Bool
is_cancelled RunStatus.cancelled = true
is_cancelled _ = false

abbrev pub is_queued : RunStatus → Bool
is_queued RunStatus.queued = true
is_queued _ = false

-- status in {"completed", "failed", "rejected", "cancelled"}
abbrev pub is_terminal : RunStatus → Bool
is_terminal RunStatus.queued = false
is_terminal RunStatus.running = false
is_terminal RunStatus.waiting_approval = false
is_terminal _ = true
