-- ===== src/Migrations/Tables.antt =====
-- The schema of src/agentops/database.py, by its tables, columns and indexes.
use agentops_control_plane.Base.{
  String, Bool, true, ◌&&◌, List, [], ◌∷◌, ◌++◌, Option, none, some, one_of, str_eq, if◌then◌else◌,
}

-- A database as the migrations see it: the columns of each table that exists, the indexes, and the
-- rows of schema_migrations.
pub record Schema : Type 0 where
  pub columns : String → Option (List String)
  pub indexes : List String
  pub versions : List String

pub data Statement : Type 0 where
  create_table : String → List String → Statement
  add_column : String → String → Statement
  create_index : String → String → List String → Statement

-- The statements of SCHEMA.
abbrev pub schema_statements : List Statement
schema_statements =
    create_table "projects" ("id" ∷ "name" ∷ "description" ∷ "created_at" ∷ [])
    ∷ create_table "workflows"
        ("id" ∷ "project_id" ∷ "name" ∷ "version" ∷ "definition" ∷ "created_at" ∷ [])
    ∷ create_table "runs" (
        "id" ∷ "workflow_id" ∷ "parent_run_id" ∷ "status" ∷ "input" ∷ "output" ∷ "error"
        ∷ "current_step" ∷ "max_steps" ∷ "actor_role" ∷ "idempotency_key" ∷ "started_at"
        ∷ "finished_at" ∷ [])
    ∷ create_table "spans" (
        "id" ∷ "run_id" ∷ "step_index" ∷ "step_name" ∷ "tool" ∷ "status" ∷ "input" ∷ "output"
        ∷ "error" ∷ "duration_ms" ∷ "input_tokens" ∷ "output_tokens" ∷ "cost_usd" ∷ "created_at"
        ∷ [])
    ∷ create_table "approvals" (
        "id" ∷ "run_id" ∷ "step_index" ∷ "prompt" ∷ "status" ∷ "note" ∷ "policy" ∷ "decided_by"
        ∷ "created_at" ∷ "decided_at" ∷ "expires_at" ∷ "escalation_level" ∷ [])
    ∷ create_table "datasets" ("id" ∷ "project_id" ∷ "name" ∷ "cases" ∷ "created_at" ∷ [])
    ∷ create_table "evaluations" (
        "id" ∷ "workflow_id" ∷ "dataset_id" ∷ "passed" ∷ "total" ∷ "results" ∷ "status"
        ∷ "completed_cases" ∷ "pass_rate_min" ∷ "max_cost_usd" ∷ "max_p95_latency_ms" ∷ "gate"
        ∷ "gate_reasons" ∷ "created_at" ∷ [])
    ∷ create_table "schedules" (
        "id" ∷ "workflow_id" ∷ "name" ∷ "input" ∷ "interval_seconds" ∷ "enabled" ∷ "next_run_at"
        ∷ "last_run_id" ∷ "created_at" ∷ [])
    ∷ create_table "webhooks"
        ("id" ∷ "project_id" ∷ "url" ∷ "events" ∷ "enabled" ∷ "created_at" ∷ [])
    ∷ create_table "webhook_deliveries"
        ("id" ∷ "webhook_id" ∷ "run_id" ∷ "event" ∷ "status" ∷ "error" ∷ "created_at" ∷ [])
    ∷ create_table "users" ("id" ∷ "name" ∷ "token_hash" ∷ "role" ∷ "created_at" ∷ [])
    ∷ create_table "project_members"
        ("id" ∷ "project_id" ∷ "user_name" ∷ "role" ∷ "created_at" ∷ [])
    ∷ create_table "secrets"
        ("id" ∷ "project_id" ∷ "name" ∷ "ciphertext" ∷ "created_at" ∷ "updated_at" ∷ [])
    ∷ create_table "audit_events"
        ("id" ∷ "actor" ∷ "action" ∷ "resource" ∷ "status_code" ∷ "created_at" ∷ [])
    ∷ create_table "alerts" ("id" ∷ "name" ∷ "metric" ∷ "threshold" ∷ "enabled" ∷ "created_at" ∷ [])
    ∷ create_table "memories"
        ("id" ∷ "project_id" ∷ "namespace" ∷ "key" ∷ "value" ∷ "updated_at" ∷ [])
    ∷ create_table "agent_events" ("id" ∷ "run_id" ∷ "event_type" ∷ "payload" ∷ "created_at" ∷ [])
    ∷ create_table "outbox_events" (
        "id" ∷ "event" ∷ "destination" ∷ "payload" ∷ "status" ∷ "attempts" ∷ "next_attempt_at"
        ∷ "claimed_at" ∷ "last_error" ∷ "idempotency_key" ∷ "created_at" ∷ [])
    ∷ create_index "idx_runs_workflow" "runs" ("workflow_id" ∷ "started_at" ∷ [])
    ∷ create_index "idx_spans_run" "spans" ("run_id" ∷ "step_index" ∷ [])
    ∷ create_index "idx_approvals_status" "approvals" ("status" ∷ "created_at" ∷ [])
    ∷ create_index "idx_schedules_due" "schedules" ("enabled" ∷ "next_run_at" ∷ [])
    ∷ create_index "idx_webhooks_project" "webhooks" ("project_id" ∷ "enabled" ∷ [])
    ∷ create_index "idx_audit_created" "audit_events" ("created_at" ∷ [])
    ∷ create_index "idx_project_members_user" "project_members" ("user_name" ∷ "project_id" ∷ [])
    ∷ create_index "idx_outbox_due" "outbox_events" ("status" ∷ "next_attempt_at" ∷ [])
    ∷ []

-- PRAGMA table_info: no row for a table that does not exist.
abbrev pub table_columns : String → Schema → List String
table_columns table s = elim (s.columns table) [ none ↦ [] | some cols ↦ cols ]

abbrev pub set_columns : String → List String → Schema → Schema
set_columns table cols s = record s {
  columns = λ t. if str_eq t table then some cols else s.columns t;
}

abbrev pub includes_all : List String → List String → Bool
includes_all [] cols = true
includes_all (c ∷ cs) cols = one_of c cols && includes_all cs cols

-- CREATE TABLE IF NOT EXISTS leaves a table that exists; ALTER TABLE fails on a table that is missing
-- or has the column; CREATE INDEX IF NOT EXISTS leaves an index that exists, and fails where its
-- table or a column of it is missing.
unfoldable pub execute : Statement → Schema → Option Schema
execute (create_table table cols) s = elim (s.columns table) [
  | none ↦ some (set_columns table cols s)
  | some old ↦ some s
]
execute (add_column table col) s = elim (s.columns table) [
  | none ↦ none
  | some cols ↦ if one_of col cols then none else some (set_columns table (cols ++ col ∷ []) s)
]
execute (create_index index table cols) s =
    if one_of index s.indexes
    then some s
    else if includes_all cols (table_columns table s)
    then some (record s { indexes = index ∷ s.indexes })
    else none
