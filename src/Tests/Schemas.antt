-- ===== src/Tests/Schemas.antt =====
-- A step that the schema lets through.
use agentops_control_plane.Base.{ℕ, String, false, ◌≤◌, ◌≡◌, refl, some, [], ◌∷◌}
use agentops_control_plane.Store.Rows.{pos, viewer, admin, operator, approval, handoff, Step}
use agentops_control_plane.Runs.Tools.{timeout_of, default}
use agentops_control_plane.Runs.Steps.{retries_of, permits}
use agentops_control_plane.Approvals.{approver_roles_of}
use agentops_control_plane.Schemas.{validate_runtime_config}
use agentops_control_plane.Schemas.Steps.{validate_runtime_config_lem}
use agentops_control_plane.Tests.{step, no_config}

abbrev handing_over : Step
handing_over = record (step handoff) {
  config = record no_config { workflow_id = some 2; max_steps = some 10; retries = some (pos 3) };
}

abbrev same : String → String
same s = s

abbrev short : String → ℕ
short s = 0

validate_runtime_config_example :
    (pos (retries_of handing_over.config) ≡ default (pos 0) handing_over.config.retries)
    × (pos (timeout_of handing_over.config) ≡ default (pos 0) handing_over.config.timeout_seconds)
    × (handing_over.tool ≡ approval
        → (approver_roles_of handing_over.config.approver_roles
            ≡ default (admin ∷ operator ∷ []) handing_over.config.approver_roles)
          × (permits viewer (approver_roles_of handing_over.config.approver_roles) ≡ false))
    × (handing_over.tool ≡ handoff
        → ((k : ℕ) × (handing_over.config.workflow_id ≡ some k) × (1 ≤ k))
          × (1 ≤ default 100 handing_over.config.max_steps)
          × (default 100 handing_over.config.max_steps ≤ 1000))
unfolding validate_runtime_config
validate_runtime_config_example = validate_runtime_config_lem same short handing_over refl

validate-six_retries :
    validate_runtime_config same short
      (record handing_over { config = record handing_over.config { retries = some (pos 6) } })
    ≡ false
unfolding validate_runtime_config
validate-six_retries = refl
