-- ===== src/Migrations.antt =====
-- The migrations of src/agentops/migrations.py. A column is its name; types, defaults and constraints
-- are left out, as they do not change what a migration does.
pub mod Tables
pub mod Head
pub mod Ledger
use agentops_control_plane.Base.{
  String, List, [], ◌∷◌, Option, none, some, one_of, if◌then◌else◌, map,
}
use agentops_control_plane.Migrations.Tables.{
  Schema, Statement, create_table, add_column, create_index, schema_statements, table_columns,
  execute,
}

-- A part of a migration: a statement, or the columns that a table is to have, added where they are
-- missing.
pub data Op : Type 0 where
  statement : Statement → Op
  ensure : String → List String → Op

abbrev pub and_then {ℓ} : {A B : Type ℓ} → Option A → (A → Option B) → Option B
and_then none f = none
and_then (some a) f = f a

-- The loop over the names; `columns` was read before it.
unfoldable pub ensure_columns : String → List String → List String → Schema → Option Schema
unfolding execute
ensure_columns table columns [] s = some s
ensure_columns table columns (name ∷ names) s =
    and_then (if one_of name columns then some s else execute (add_column table name) s)
      (ensure_columns table columns names)

unfoldable pub apply_op : Op → Schema → Option Schema
unfolding ensure_columns execute
apply_op (statement st) s = execute st s
apply_op (ensure table names) s = ensure_columns table (table_columns table s) names s

unfoldable pub apply_ops : List Op → Schema → Option Schema
unfolding apply_op
apply_ops [] s = some s
apply_ops (op ∷ ops) s = and_then (apply_op op s) (apply_ops ops)

pub record Migration : Type 0 where
  pub version : String
  pub ops : List Op

abbrev pub m_0001_initial : Migration
m_0001_initial = record { version = "0001_initial"; ops = map statement schema_statements }

abbrev pub m_0002_approval_expiry : Migration
m_0002_approval_expiry = record {
  version = "0002_approval_expiry";
  ops =
      ensure "approvals" ("expires_at" ∷ "escalation_level" ∷ [])
      ∷ statement (create_index "idx_approvals_pending" "approvals" ("status" ∷ "expires_at" ∷ []))
      ∷ [];
}

abbrev pub m_0003_span_cost_columns : Migration
m_0003_span_cost_columns = record {
  version = "0003_span_cost_columns";
  ops = ensure "spans" ("input_tokens" ∷ "output_tokens" ∷ "cost_usd" ∷ []) ∷ [];
}

abbrev pub m_0004_run_controls : Migration
m_0004_run_controls = record {
  version = "0004_run_controls";
  ops = ensure "runs" ("max_steps" ∷ "actor_role" ∷ []) ∷ [];
}

abbrev pub m_0005_evaluation_progress : Migration
m_0005_evaluation_progress = record {
  version = "0005_evaluation_progress";
  ops =
      ensure "evaluations" (
        "status" ∷ "completed_cases" ∷ "pass_rate_min" ∷ "max_cost_usd" ∷ "max_p95_latency_ms"
        ∷ "gate" ∷ "gate_reasons" ∷ [])
      ∷ [];
}

abbrev pub m_0006_outbox : Migration
m_0006_outbox = record {
  version = "0006_outbox";
  ops =
      statement (
        create_table "outbox_events" (
          "id" ∷ "event" ∷ "destination" ∷ "payload" ∷ "status" ∷ "attempts" ∷ "next_attempt_at"
          ∷ "last_error" ∷ "idempotency_key" ∷ "created_at" ∷ []))
      ∷ statement
          (create_index "idx_outbox_due" "outbox_events" ("status" ∷ "next_attempt_at" ∷ []))
      ∷ [];
}

abbrev pub m_0007_outbox_claims : Migration
m_0007_outbox_claims = record {
  version = "0007_outbox_claims";
  ops = ensure "outbox_events" ("claimed_at" ∷ []) ∷ [];
}

abbrev pub m_0008_run_idempotency : Migration
m_0008_run_idempotency = record {
  version = "0008_run_idempotency";
  ops =
      ensure "runs" ("idempotency_key" ∷ [])
      ∷ statement (create_index "idx_runs_idem" "runs" ("workflow_id" ∷ "idempotency_key" ∷ []))
      ∷ [];
}

abbrev pub m_0009_approval_governance : Migration
m_0009_approval_governance = record {
  version = "0009_approval_governance";
  ops = ensure "approvals" ("decided_by" ∷ "policy" ∷ []) ∷ [];
}

abbrev pub migrations : List Migration
migrations =
    m_0001_initial ∷ m_0002_approval_expiry ∷ m_0003_span_cost_columns ∷ m_0004_run_controls
    ∷ m_0005_evaluation_progress ∷ m_0006_outbox ∷ m_0007_outbox_claims ∷ m_0008_run_idempotency
    ∷ m_0009_approval_governance ∷ []

-- INSERT INTO schema_migrations
abbrev pub add_version : String → Schema → Schema
add_version version s = record s { versions = version ∷ s.versions }

abbrev pub applied_too : String → List String × Schema → Option (List String × Schema)
applied_too version (versions, s) = some (version ∷ versions, s)

-- The loop over MIGRATIONS; `applied` was read before it. What comes back is `applied_versions`.
unfoldable pub apply_pending : List String → List Migration → Schema → Option (List String × Schema)
unfolding apply_ops
apply_pending applied [] s = some ([], s)
apply_pending applied (m ∷ ms) s =
    let rest = apply_pending applied ms in
    if one_of m.version applied
    then rest s
    else and_then (apply_ops m.ops s)
        λ s'. and_then (rest (add_version m.version s')) (applied_too m.version)

abbrev pub committed : Schema → Option (List String × Schema) → Option (List String) × Schema
committed before none = (none, before)
committed before (some (versions, s)) = (some versions, s)

-- `migrate`: an exception rolls everything back.
unfoldable pub migrate : Schema → Option (List String) × Schema
unfolding apply_pending
migrate s = committed s (apply_pending s.versions migrations s)
