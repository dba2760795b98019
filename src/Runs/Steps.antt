-- ===== src/Runs/Steps.antt =====
-- `_execute` of src/agentops/service.py: the attempts at a step, and the loop over the steps. A
-- request that cancels the run while a step is running enters by `env.cancelled_during`.
use agentops_control_plane.Base.{
  ℕ, zero, suc, ◌+◌, String, Bool, false, ◌||◌, not, Option, none, some, List, [], ◌∷◌, ◌==◌, leb,
  if◌then◌else◌,
}
use agentops_control_plane.Json.{Value}
use agentops_control_plane.Store.Rows.{
  pos, unset, null_roles, listed, Role, admin, operator, viewer, Tool, llm, memory_read,
  memory_write, handoff, approval, Config, Step, Workflow, Run, RunStatus, SpanStatus, Event,
  EventType,
}
use agentops_control_plane.Store.Exec.{
  Error, message, Result, ok, err, Exec, pure, lift, attempt, ◌>>=◌, ◌>>◌,
}
use agentops_control_plane.Runs.Env.{Env, Call}
use agentops_control_plane.Runs.Rows.{get_run, update_run, agent_event, is_cancelled}
use agentops_control_plane.Runs.Outbox.{dispatch_webhooks}
use agentops_control_plane.Runs.Tools.{default, clamp, Usage, invoke_tool, invoke_llm}
use agentops_control_plane.Runs.Agent.{Child, apply_agent_tool}
use agentops_control_plane.Runs.Spans.{record_span}
use agentops_control_plane.Runs.Pause.{pause_for_approval, cancel_run}

abbrev pub role_code : Role → ℕ
role_code admin = 0
role_code operator = 1
role_code viewer = 2

abbrev pub permits : Role → List Role → Bool
permits role [] = false
permits role (r ∷ rs) = role_code role == role_code r || permits role rs

-- What an attempt loop ends with: the run waits for an approval, the step has an output, or the
-- last attempt raised.
pub data Outcome : Type 0 where
  paused : Outcome
  produced : Value → Option Usage → Outcome
  failed : Error → Outcome

abbrev pub retries_of : Config → ℕ
retries_of config = clamp 5 (default (pos 0) config.retries)

-- config.get("allowed_roles", ["admin", "operator"]), which is None where the key is there with null.
abbrev pub allowed_roles_of : Config → Option (List Role)
allowed_roles_of config = elim config.allowed_roles [
  | unset ↦ some (admin ∷ operator ∷ [])
  | null_roles ↦ none
  | listed roles ↦ some roles
]

-- run["actor_role"] not in allowed_roles, which raises where that is None.
abbrev pub is_allowed : Role → Option (List Role) → Result Bool
is_allowed role none = err (Error.type_error "argument of type 'NoneType' is not iterable")
is_allowed role (some roles) = ok (permits role roles)

module _ (env : Env) where
  -- UPDATE runs SET status='failed',error=?,finished_at=?
  abbrev pub fail_run : String → Run → Run
  fail_run error r = record r {
    status = RunStatus.failed;
    error = some error;
    finished_at = some env.now;
  }

  module _ (child : Child) where
    unfoldable pub try_llm : ℕ → ℕ → ℕ → Workflow → Config → Value → Exec Outcome
    unfolding agent_event invoke_llm
    try_llm run_id index trial workflow config v = do
      agent_event run_id EventType.llm_started
      let call : Call = record { run_id = run_id; index = index; trial = trial }
      answer ← invoke_llm env call workflow.project_id config v
      agent_event run_id EventType.llm_completed
      pure (produced answer.0 answer.1)

    unfoldable pub try_agent_tool : ℕ → Workflow → Tool → Config → Value → Exec Outcome
    unfolding apply_agent_tool
    try_agent_tool run_id workflow tool config v = do
      out ← apply_agent_tool env child run_id workflow tool config v
      pure (produced out none)

    unfoldable pub try_tool : ℕ → ℕ → ℕ → Tool → Config → Value → Exec Outcome
    unfolding invoke_tool
    try_tool run_id index trial tool config v = do
      let call : Call = record { run_id = run_id; index = index; trial = trial }
      out ← lift (invoke_tool env call tool config v)
      pure (produced out none)

    -- The body of the `try` block, by the tool of the step.
    unfoldable pub try_step : ℕ → ℕ → ℕ → Workflow → Step → Tool → Value → Exec Outcome
    unfolding pause_for_approval try_llm try_agent_tool try_tool
    try_step run_id index trial workflow step approval v = do
      pause_for_approval env run_id index step v
      pure paused
    try_step run_id index trial workflow step memory_read v =
        try_agent_tool run_id workflow memory_read step.config v
    try_step run_id index trial workflow step memory_write v =
        try_agent_tool run_id workflow memory_write step.config v
    try_step run_id index trial workflow step handoff v =
        try_agent_tool run_id workflow handoff step.config v
    try_step run_id index trial workflow step llm v =
        try_llm run_id index trial workflow step.config v
    try_step run_id index trial workflow step tool v =
        try_tool run_id index trial tool step.config v

    -- for attempt in range(retries + 1), with the retries that are left and the attempt's number.
    unfoldable pub attempts : ℕ → ℕ → ℕ → ℕ → Workflow → Step → Value → Exec Outcome
    attempts zero trial run_id index workflow step v =
        attempt (try_step run_id index trial workflow step step.tool v) pure λ e. pure (failed e)
    attempts (suc left) trial run_id index workflow step v =
        attempt (try_step run_id index trial workflow step step.tool v) pure
          λ _. attempts left (suc trial) run_id index workflow step v

    -- Another request's `cancel_run` while the step was running.
    unfoldable pub interfere : ℕ → ℕ → Exec (Unit {0})
    interfere run_id index s =
        (ok tt, if env.cancelled_during run_id index then (cancel_run env run_id s).1 else s)

    unfoldable pub finish_run : ℕ → Value → Exec (Unit {0})
    unfolding update_run
    finish_run run_id v = do
      update_run run_id λ r. record r {
        status = RunStatus.completed;
        output = some v;
        finished_at = some env.now;
      }
      dispatch_webhooks env run_id Event.run_completed

    -- What follows a failed step.
    unfoldable pub fail_step : ℕ → ℕ → Step → Value → Error → Exec (Unit {0})
    unfolding record_span update_run
    fail_step run_id index step v e = do
      record_span env run_id index step v none SpanStatus.failed (some (message e)) none
      update_run run_id λ r. record (fail_run (message e) r) { current_step = index }
      dispatch_webhooks env run_id Event.run_failed

    -- What follows a step that has an output, up to the next step.
    unfoldable pub keep_output : ℕ → ℕ → Step → Value → Value → Option Usage → Exec (Unit {0})
    unfolding record_span update_run
    keep_output run_id index step v out usage = do
      record_span env run_id index step v (some out) SpanStatus.completed none usage
      update_run run_id λ r. record r { output = some out; current_step = index + 1 }

    -- A step that may not run: the run fails with a message, and the event says why.
    unfoldable pub deny : ℕ → String → EventType → Exec (Unit {0})
    unfolding update_run agent_event
    deny run_id error event_type = do
      update_run run_id (fail_run error)
      agent_event run_id event_type

    -- What follows the attempts; `next` is the rest of the loop.
    unfoldable pub settle :
        ℕ → ℕ → Step → Value → (Value → Exec (Unit {0})) → Outcome → Exec (Unit {0})
    unfolding get_run interfere
    settle run_id index step v next paused = pure tt
    settle run_id index step v next (produced out usage) = do
      interfere run_id index
      after ← get_run run_id
      if is_cancelled after.status
          then pure tt
          else do keep_output run_id index step v out usage; next out
    settle run_id index step v next (failed e) = do
      interfere run_id index
      after ← get_run run_id
      if is_cancelled after.status then pure tt else fail_step run_id index step v e

    -- One round of the loop; `run` is the row that `_execute` read at its start.
    unfoldable pub enter :
        ℕ → Run → Workflow → ℕ → Step → Value → (Value → Exec (Unit {0})) → Exec (Unit {0})
    unfolding get_run
    enter run_id run workflow index step v next = do
      before ← get_run run_id
      if is_cancelled before.status
          then pure tt
          else if leb run.max_steps index
          then deny run_id "step budget exceeded" EventType.budget_exceeded
          else do
            allowed ← lift (is_allowed run.actor_role (allowed_roles_of step.config))
            if not allowed
                then deny run_id "tool permission denied" EventType.permission_denied
                else do
                  outcome ← attempts (retries_of step.config) 0 run_id index workflow step v
                  settle run_id index step v next outcome

    -- The loop over the steps that are left.
    unfoldable pub steps_from : ℕ → Run → Workflow → ℕ → List Step → Value → Exec (Unit {0})
    steps_from run_id run workflow index [] v = finish_run run_id v
    steps_from run_id run workflow index (step ∷ rest) v =
        enter run_id run workflow index step v
          λ out. steps_from run_id run workflow (index + 1) rest out
