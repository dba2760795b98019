-- ===== src/Tests/Migrations.antt =====
-- The migrations on a new database, and on one that has the tables of an early version.
use agentops_control_plane.Base.{String, none, some, [], ◌∷◌, ◌≡◌, ◌⊎◌, refl, List}
use agentops_control_plane.Migrations.Tables.{Schema, set_columns, execute}
use agentops_control_plane.Migrations.{migrate, apply_pending, apply_ops, apply_op, ensure_columns}
use agentops_control_plane.Migrations.Ledger.{AtHead, migrate-AtHead}

abbrev fresh : Schema
fresh = record { columns = λ t. none; indexes = []; versions = [] }

-- The tables that a later migration adds columns to.
abbrev early : Schema
early =
    set_columns "runs" ("id" ∷ "workflow_id" ∷ "status" ∷ "started_at" ∷ [])
      (set_columns "approvals" ("id" ∷ "run_id" ∷ "status" ∷ "created_at" ∷ []) fresh)

migrate-fresh :
    (migrate fresh).0
    ≡ some (
        "0001_initial" ∷ "0002_approval_expiry" ∷ "0003_span_cost_columns" ∷ "0004_run_controls"
        ∷ "0005_evaluation_progress" ∷ "0006_outbox" ∷ "0007_outbox_claims" ∷ "0008_run_idempotency"
        ∷ "0009_approval_governance" ∷ [])
unfolding migrate apply_pending apply_ops apply_op ensure_columns execute
migrate-fresh = refl

migrate-early :
    (migrate early).1.columns "approvals"
    ≡ some (
        "id" ∷ "run_id" ∷ "status" ∷ "created_at" ∷ "expires_at" ∷ "escalation_level" ∷ "decided_by"
        ∷ "policy" ∷ [])
unfolding migrate apply_pending apply_ops apply_op ensure_columns execute
migrate-early = refl

migrate-AtHead_example :
    (migrate early ≡ (none, early))
    ⊎ ((vs : List String) × (s' : Schema) × (migrate early ≡ (some vs, s')) × AtHead early vs s')
migrate-AtHead_example = migrate-AtHead early refl
