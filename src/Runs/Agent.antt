-- ===== src/Runs/Agent.antt =====
-- `_apply_agent_tool` of src/agentops/service.py, with the memories of a project and the walk up
-- the parents of a run. The nested call of `start_run` is a parameter here, tied in Start.antt.
use agentops_control_plane.Base.{
  ℕ, zero, suc, String, Bool, true, false, ◌&&◌, ◌||◌, not, Option, none, some, List, [], ◌∷◌, ◌==◌,
  str_eq, if◌then◌else◌,
}
use agentops_control_plane.Json.{Value, null}
use agentops_control_plane.Security.Redact.{redact}
use agentops_control_plane.Store.Rows.{
  Tool, memory_read, memory_write, Config, Workflow, Run, RunStatus, Role, EventType,
}
use agentops_control_plane.Store.Exec.{
  Error, Exec, pure, raise, gets, or_raise, modify, when, raise_if, ◌>>=◌, ◌>>◌,
}
use agentops_control_plane.Runs.Env.{Env}
use agentops_control_plane.Runs.Rows.{get_run, get_workflow, agent_event}
use agentops_control_plane.Runs.Tools.{default}

-- The nested `start_run` of a handoff: target workflow, payload, parent run, step budget and role.
-- It returns the id of the child run and the run as a client sees it.
abbrev pub Child : Type 0
Child = ℕ → Value → ℕ → ℕ → Role → Exec (ℕ × Run)

unfoldable pub get_project : ℕ → Exec String
get_project project_id = do
  row ← gets (λ s. s.projects.row project_id)
  or_raise row (Error.not_found "project not found")

-- The tables of memories, changed at one key.
abbrev pub put_at :
    ℕ
    → String
    → String
    → Value
    → (ℕ → String → String → Option Value)
    → ℕ
    → String
    → String
    → Option Value
put_at p n k v m p' n' k' = if p' == p && str_eq n' n && str_eq k' k then some v else m p' n' k'

abbrev pub is_completed : RunStatus → Bool
is_completed RunStatus.completed = true
is_completed _ = false

abbrev pub includes : ℕ → List ℕ → Bool
includes a [] = false
includes a (x ∷ xs) = a == x || includes a xs

-- `_workflow_ancestry`: the workflows of a run and of the runs above it. The ids fall from a run to
-- its parent, so as many rounds as the id of the run are enough.
unfoldable pub ancestry_from : ℕ → Option ℕ → Exec (List ℕ)
unfolding get_run
ancestry_from fuel none = pure []
ancestry_from zero (some run_id) = raise Error.too_deep
ancestry_from (suc fuel) (some run_id) = do
  run ← get_run run_id
  above ← ancestry_from fuel run.parent_run_id
  pure (run.workflow_id ∷ above)

unfoldable pub workflow_ancestry : ℕ → Exec (List ℕ)
unfolding ancestry_from
workflow_ancestry run_id = ancestry_from (suc run_id) (some run_id)

module _ (env : Env) where
  unfoldable pub get_memory : ℕ → String → String → Exec Value
  get_memory project_id namespace key = do
    row ← gets (λ s. s.memories project_id namespace key)
    stored ← or_raise row (Error.not_found "memory not found")
    pure (redact env.lower stored)

  unfoldable pub put_memory : ℕ → String → String → Value → Exec Value
  unfolding get_memory get_project
  put_memory project_id namespace key v = do
    get_project project_id
    modify λ s. record s { memories = put_at project_id namespace key v s.memories }
    get_memory project_id namespace key

  module _ (child : Child) where
    unfoldable pub handoff : ℕ → Workflow → Config → Value → Exec Value
    unfolding get_run get_workflow agent_event workflow_ancestry
    handoff run_id workflow config v = do
      let target_id = default 0 config.workflow_id
      target ← get_workflow target_id
      raise_if (not (target.project_id == workflow.project_id))
          (Error.conflict "handoff target must belong to the same project")
      ancestry ← workflow_ancestry run_id
      when (includes target_id ancestry) do
        agent_event run_id EventType.loop_detected
        raise (Error.runtime "agent handoff loop detected")
      agent_event run_id EventType.handoff_started
      run ← get_run run_id
      ended ← child target_id v run_id (default 100 config.max_steps) run.actor_role
      agent_event run_id EventType.handoff_completed
      if is_completed (ended.1).status
          then pure (default null (ended.1).output)
          else raise (Error.runtime "handoff child run did not complete")

    unfoldable pub apply_agent_tool : ℕ → Workflow → Tool → Config → Value → Exec Value
    unfolding handoff agent_event put_memory get_memory
    apply_agent_tool run_id workflow memory_write config v = do
      let namespace = default "default" config.namespace
      let key = default "value" config.key
      put_memory workflow.project_id namespace key (default v config.value)
      agent_event run_id EventType.memory_written
      pure v
    apply_agent_tool run_id workflow memory_read config v = do
      let namespace = default "default" config.namespace
      let key = default "value" config.key
      stored ← get_memory workflow.project_id namespace key
      agent_event run_id EventType.memory_read
      pure stored
    apply_agent_tool run_id workflow _ config v = handoff run_id workflow config v
