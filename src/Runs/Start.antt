-- ===== src/Runs/Start.antt =====
-- `start_run`, `_execute`, `_execute_queued`, `recover_incomplete_runs` and `replay` of
-- src/agentops/service.py. A run handed to the queue is left to `execute_queued`.
use agentops_control_plane.Base.{
  ℕ, zero, suc, String, Bool, true, false, ◌&&◌, not, Option, none, some, List, [], ◌∷◌, ◌==◌,
  str_eq, if◌then◌else◌,
}
use agentops_control_plane.Base.Table.{insert, update_where, any_row, newest_first}
use agentops_control_plane.Json.{Value, null}
use agentops_control_plane.Store.Rows.{Role, Step, Workflow, Run, RunStatus}
use agentops_control_plane.Store.Exec.{
  Error, Exec, pure, raise, gets, modify, when, raise_if, ◌>>=◌, ◌>>◌,
}
use agentops_control_plane.Runs.Env.{Env}
use agentops_control_plane.Runs.Rows.{get_run, get_workflow, update_run, is_cancelled, is_queued}
use agentops_control_plane.Runs.Outbox.{view}
use agentops_control_plane.Runs.Tools.{default}
use agentops_control_plane.Runs.Agent.{Child}
use agentops_control_plane.Runs.Steps.{steps_from}

abbrev pub drop : ℕ → List Step → List Step
drop zero steps = steps
drop (suc n) [] = []
drop (suc n) (step ∷ steps) = drop n steps

abbrev pub same_text : Option String → String → Bool
same_text none key = false
same_text (some k) key = str_eq k key

-- The unique index on (workflow_id, idempotency_key) leaves NULL keys out.
abbrev pub same_key : Option String → Option String → Bool
same_key stored none = false
same_key stored (some key) = same_text stored key

-- The newest run of a workflow that has the key.
abbrev pub find_key : String → ℕ → List (ℕ × Run) → Option (ℕ × Run)
find_key key workflow_id [] = none
find_key key workflow_id ((id, run) ∷ rest) =
    if same_text run.idempotency_key key && run.workflow_id == workflow_id
    then some (id, run)
    else find_key key workflow_id rest

unfoldable pub find_run_by_idempotency_key : String → ℕ → Exec (Option (ℕ × Run))
unfolding newest_first
find_run_by_idempotency_key key workflow_id =
    gets (λ s. find_key key workflow_id (newest_first s.runs))

-- `if idempotency_key:` is false of the empty text.
abbrev pub given_key : Option String → Option String
given_key none = none
given_key (some key) = if str_eq key "" then none else some key

module _ (env : Env) where
  module _ (child : Child) where
    -- `_execute`
    unfoldable pub execute_with : ℕ → Exec (Unit {0})
    unfolding get_run update_run get_workflow
    execute_with run_id = do
      run ← get_run run_id
      if is_cancelled run.status then pure tt else do
        update_run run_id λ r. record r { status = RunStatus.running }
        workflow ← get_workflow run.workflow_id
        steps_from env child run_id run workflow run.current_step
            (drop run.current_step workflow.steps)
            (if run.current_step == 0 then run.input else default null run.output)

  unfoldable pub new_run : ℕ → Value → Option ℕ → Bool → ℕ → Role → Option String → Run
  new_run workflow_id payload parent_run_id is_queued max_steps actor_role key = record {
    workflow_id = workflow_id;
    parent_run_id = parent_run_id;
    status = if is_queued then RunStatus.queued else RunStatus.running;
    input = payload;
    output = none;
    error = none;
    current_step = 0;
    max_steps = max_steps;
    actor_role = actor_role;
    idempotency_key = key;
    finished_at = none;
  }

  check_parent : Workflow → Option ℕ → Exec (Unit {0})
  unfolding get_run get_workflow
  check_parent workflow none = pure tt
  check_parent workflow (some parent_run_id) = do
    parent ← get_run parent_run_id
    parent_workflow ← get_workflow parent.workflow_id
    raise_if (not (parent_workflow.project_id == workflow.project_id))
        (Error.conflict "parent and child runs must belong to the same project")

  find_existing : Option String → ℕ → Exec (Option (ℕ × Run))
  unfolding find_run_by_idempotency_key
  find_existing none workflow_id = pure none
  find_existing (some key) workflow_id = find_run_by_idempotency_key key workflow_id

  module _ (execute : ℕ → Exec (Unit {0})) where
    -- The insertion of the row, and its execution unless it is queued. The id comes back with the
    -- run as a client sees it.
    unfoldable pub launch : ℕ → Value → Option ℕ → Bool → ℕ → Role → Option String → Exec (ℕ × Run)
    unfolding new_run get_run
    launch workflow_id payload parent queued max_steps actor_role key = do
      taken ← gets (λ s.
          any_row (λ r. r.workflow_id == workflow_id && same_key r.idempotency_key key) s.runs)
      raise_if taken Error.integrity
      run_id ← gets (λ s. s.runs.next)
      modify λ s. record s {
        runs = insert (new_run workflow_id payload parent queued max_steps actor_role key) s.runs;
      }
      when (not queued) (execute run_id)
      run ← get_run run_id
      pure (run_id, view env run)

    unfoldable pub start_run :
        ℕ → Value → Option ℕ → Bool → ℕ → Role → Option String → Exec (ℕ × Run)
    unfolding get_workflow find_existing check_parent launch
    start_run workflow_id payload parent queued max_steps actor_role key = do
      workflow ← get_workflow workflow_id
      existing ← find_existing (given_key key) workflow_id
      elim existing [
        | some (id, run) ↦ pure (id, view env run)
        | none ↦ do
          check_parent workflow parent
          launch workflow_id payload parent queued max_steps actor_role key
      ]

    -- `replay`
    unfoldable pub replay : ℕ → Exec (ℕ × Run)
    unfolding get_run start_run
    replay run_id = do
      run ← get_run run_id
      start_run run.workflow_id run.input (some run_id) false 100 run.actor_role none

    -- `_execute_queued`: only one worker wins the update of a queued run.
    unfoldable pub execute_queued : ℕ → Exec (Unit {0})
    unfolding update_run
    execute_queued run_id = do
      row ← gets (λ s. s.runs.row run_id)
      elim row [
        | none ↦ pure tt
        | some run ↦
            when (is_queued run.status)
              do update_run run_id λ r. record r { status = RunStatus.running }; execute run_id
      ]

  -- The nested call that `_apply_agent_tool` makes.
  abbrev pub child_of : (ℕ → Exec (Unit {0})) → Child
  child_of execute target v parent max_steps role =
      start_run execute target v (some parent) false max_steps role none

  -- `_execute`, with handoffs nested at most as deep as the fuel.
  unfoldable pub execute : ℕ → ℕ → Exec (Unit {0})
  unfolding execute_with start_run
  execute zero run_id = raise Error.too_deep
  execute (suc depth) run_id = execute_with (child_of (execute depth)) run_id

abbrev pub is_incomplete : RunStatus → Bool
is_incomplete RunStatus.queued = true
is_incomplete RunStatus.running = true
is_incomplete _ = false

abbrev pub is_running : RunStatus → Bool
is_running RunStatus.running = true
is_running _ = false

abbrev pub incomplete_ids : List (ℕ × Run) → List ℕ
incomplete_ids [] = []
incomplete_ids ((id, run) ∷ rest) =
    if is_incomplete run.status then id ∷ incomplete_ids rest else incomplete_ids rest

-- `recover_incomplete_runs`: the ids that are handed to the queue again.
unfoldable pub recover_incomplete_runs : Exec (List ℕ)
unfolding newest_first
recover_incomplete_runs = do
  ids ← gets (λ s. incomplete_ids (newest_first s.runs))
  modify λ s. record s {
    runs =
        update_where (λ r. is_running r.status) (λ r. record r { status = RunStatus.queued })
          s.runs;
  }
  pure ids
