-- ===== src/Store/Rows.antt =====
-- The rows of src/agentops/database.py that the service reads and writes, and the steps of a
-- workflow definition (src/agentops/schemas.py). A status column is a data type with the words
-- that the service writes there. JSON columns hold the decoded value.
use agentops_control_plane.Base.{ℕ, String, Bool, Option, List}
use agentops_control_plane.Json.{Value}

-- An integer: `negsuc n` is -(n + 1).
pub data ℤ : Type 0 where
  pos : ℕ → ℤ
  negsuc : ℕ → ℤ

pub data Role : Type 0 where
  admin operator viewer : Role

-- `unknown` is a tool name that the schema refuses and `_apply_tool` raises on.
pub data Tool : Type 0 where
  input template uppercase lowercase json_extract llm : Tool
  memory_read memory_write handoff approval fail : Tool
  unknown : String → Tool

-- The key `allowed_roles` of a config: absent, null, or a list.
pub data AllowedRoles : Type 0 where
  unset null_roles : AllowedRoles
  listed : List Role → AllowedRoles

-- The members of a step's `config` object that the service reads; an absent key is `none`.
-- `timeout_seconds` is in thousandths of a second, and the two rates are in millionths of a dollar.
pub record Config : Type 0 where
  pub retries : Option ℤ
  pub timeout_seconds : Option ℤ
  pub allowed_roles : AllowedRoles
  pub prompt : Option String
  pub expires_in_seconds : Option ℤ
  pub approver_roles : Option (List Role)
  pub template_text : Option String
  pub key : Option String
  pub namespace : Option String
  pub value : Option Value
  pub workflow_id : Option ℕ
  pub max_steps : Option ℕ
  pub provider : Option String
  pub model : Option String
  pub system : Option String
  pub credential_ref : Option String
  pub input_cost_per_1k : Option ℕ
  pub output_cost_per_1k : Option ℕ
  pub message : Option String

pub record Step : Type 0 where
  pub name : String
  pub tool : Tool
  pub config : Config

pub record Workflow : Type 0 where
  pub project_id : ℕ
  pub name : String
  pub version : ℕ
  pub steps : List Step

pub data RunStatus : Type 0 where
  queued running waiting_approval completed failed rejected cancelled : RunStatus

pub record Run : Type 0 where
  pub workflow_id : ℕ
  pub parent_run_id : Option ℕ
  pub status : RunStatus
  pub input : Value
  pub output : Option Value
  pub error : Option String
  pub current_step : ℕ
  pub max_steps : ℕ
  pub actor_role : Role
  pub idempotency_key : Option String
  pub finished_at : Option ℕ

pub data SpanStatus : Type 0 where
  waiting completed failed : SpanStatus

pub record Span : Type 0 where
  pub step_name : String
  pub tool : Tool
  pub status : SpanStatus
  pub input : Value
  pub output : Option Value
  pub error : Option String
  pub input_tokens : ℕ
  pub output_tokens : ℕ
  pub cost_usd : ℕ

pub data ApprovalStatus : Type 0 where
  pending approved rejected expired : ApprovalStatus

pub record Approval : Type 0 where
  pub run_id : ℕ
  pub step_index : ℕ
  pub prompt : String
  pub status : ApprovalStatus
  pub note : String
  pub policy : Option (List Role)
  pub decided_by : Option String
  pub decided_at : Option ℕ
  pub expires_at : Option ℕ
  pub escalation_level : ℕ

pub data EventType : Type 0 where
  budget_exceeded permission_denied llm_started llm_chunk llm_completed : EventType
  memory_written memory_read loop_detected handoff_started handoff_completed : EventType

pub record AgentEvent : Type 0 where
  pub run_id : ℕ
  pub event_type : EventType

pub data Event : Type 0 where
  run_completed run_failed run_rejected run_cancelled : Event
  approval_pending approval_escalated approval_expired : Event

pub record Webhook : Type 0 where
  pub project_id : ℕ
  pub url : String
  pub events : List Event
  pub enabled : Bool

-- The `destination` column: "webhook:<id>", "slack" or "email".
pub data Destination : Type 0 where
  webhook : ℕ → Destination
  slack email : Destination

pub data OutboxStatus : Type 0 where
  pending claimed delivered dead : OutboxStatus

-- The idempotency key f"{event}:{run_id}:{destination}" is the triple of its three parts.
pub record OutboxEvent : Type 0 where
  pub event : Event
  pub run_id : ℕ
  pub destination : Destination
  pub payload : Run
  pub status : OutboxStatus
  pub attempts : ℕ
  pub next_attempt_at : Option ℕ
  pub claimed_at : Option ℕ
  pub last_error : Option String

pub record Secret : Type 0 where
  pub project_id : ℕ
  pub name : String
  pub ciphertext : String

pub record AuditEvent : Type 0 where
  pub actor : String
  pub action : String
  pub resource : String
  pub status_code : ℕ
