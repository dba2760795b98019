-- ===== src/Tests.antt =====
-- Concrete values that the theorems are applied to: an environment, workflows, databases, an outbox,
-- the results of evaluations.
mod Runs
mod Approvals
mod Deliveries
mod Evaluations
mod Security
mod Migrations
mod Providers
mod Schedules
mod Datasets
mod Packages
mod Schemas
mod Service
mod Api
use agentops_control_plane.Base.{ℕ, String, none, some, true, false, [], ◌∷◌, Option, List}
use agentops_control_plane.Base.Table.{Table, empty, insert}
use agentops_control_plane.Json.{Value, text, null}
use agentops_control_plane.Store.Rows.{
  unset, Config, Step, Workflow, Run, RunStatus, Role, admin, operator, Tool, uppercase,
  json_extract, approval, Approval, ApprovalStatus,
}
use agentops_control_plane.Store.Exec.{Db, Error, ok, err, Exec, pure}
use agentops_control_plane.Runs.Env.{Env}
use agentops_control_plane.Runs.Agent.{Child}

-- Time 1000; no provider, no other request, no Slack and no mail.
abbrev pub env : Env
env = record {
  now = 1000;
  encode = λ _. "{}";
  to_str = λ _. "value";
  upper = λ _. "UPPER";
  lower = λ key. key;
  replace_value = λ _ v. v;
  len = λ _. 8;
  generate = λ _ _. (0, err (Error.provider "offline"));
  decrypt = λ c. ok c;
  timed_out = λ _. false;
  cancelled_during = λ _ _. false;
  slack = false;
  email = false;
}

abbrev pub no_config : Config
no_config = record {
  retries = none;
  timeout_seconds = none;
  allowed_roles = unset;
  prompt = none;
  expires_in_seconds = none;
  approver_roles = none;
  template_text = none;
  key = none;
  namespace = none;
  value = none;
  workflow_id = none;
  max_steps = none;
  provider = none;
  model = none;
  system = none;
  credential_ref = none;
  input_cost_per_1k = none;
  output_cost_per_1k = none;
  message = none;
}

abbrev pub step : Tool → Step
step tool = record { name = "step"; tool = tool; config = no_config }

-- A step that computes, one that fails on a text, and one that would wait.
abbrev pub workflow : Workflow
workflow = record {
  project_id = 1;
  name = "pipeline";
  version = 1;
  steps = step uppercase ∷ step json_extract ∷ [];
}

abbrev pub run : Run
run = record {
  workflow_id = 1;
  parent_run_id = none;
  status = RunStatus.queued;
  input = text "input";
  output = none;
  error = none;
  current_step = 0;
  max_steps = 100;
  actor_role = operator;
  idempotency_key = some "key";
  finished_at = none;
}

-- The second run is a child of the first, and waits at its second step.
abbrev pub waiting_run : Run
waiting_run = record run {
  parent_run_id = some 1;
  status = RunStatus.waiting_approval;
  current_step = 1;
  idempotency_key = none;
}

abbrev pub pending : Approval
pending = record {
  run_id = 2;
  step_index = 1;
  prompt = "Approve this workflow?";
  status = ApprovalStatus.pending;
  note = "";
  policy = some (operator ∷ []);
  decided_by = none;
  decided_at = none;
  expires_at = some 900;
  escalation_level = 0;
}

abbrev pub db : Db
db = record {
  projects = insert "project" empty;
  workflows = insert workflow empty;
  runs = insert waiting_run (insert run empty);
  spans = λ _ _. none;
  approvals = insert pending empty;
  events = [];
  webhooks = empty;
  outbox = empty;
  memories = λ _ _ _. none;
  secrets = empty;
  audit_events = [];
}

abbrev pub execute : ℕ → Exec (Unit {0})
execute run_id = pure tt

abbrev pub child : Child
child target v parent max_steps role = pure (parent, run)
