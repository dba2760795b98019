-- ===== src/Schemas/Steps.antt =====
-- What the execution does with the config of a step that the validator lets through.
use agentops_control_plane.Base.{
  ℕ, ◌≤◌, String, true, false, ◌≡◌, refl, ap, Option, none, some, List, [], ◌∷◌, arith,
}
use agentops_control_plane.Store.Rows.{
  ℤ, pos, negsuc, Role, admin, operator, viewer, handoff, approval, Step,
}
use agentops_control_plane.Runs.Tools.{clamp, default, timeout_of}
use agentops_control_plane.Runs.Steps.{retries_of, permits}
use agentops_control_plane.Approvals.{approver_roles_of}
use agentops_control_plane.Schemas.{
  in_range, id_in_range, all_approvers, valid_approvers, validate_runtime_config, is_given,
}

clamp-in_range :
    (high : ℕ) (n : Option ℤ)
    → in_range 0 high n ≡ true
    → pos (clamp high (default (pos 0) n)) ≡ default (pos 0) n
clamp-in_range high none h = ap pos (omega arith)
clamp-in_range high (some (pos n)) h = ap pos (ground arith)
clamp-in_range high (some (negsuc n)) h = absurd (ground arith)

viewer-permits : (roles : List Role) → all_approvers roles ≡ true → permits viewer roles ≡ false
viewer-permits [] h = refl
viewer-permits (admin ∷ roles) h = viewer-permits roles h
viewer-permits (operator ∷ roles) h = viewer-permits roles h
viewer-permits (viewer ∷ roles) h = absurd (ground arith)

approver_roles_of-valid :
    (roles : Option (List Role))
    → valid_approvers roles ≡ true
    → (approver_roles_of roles ≡ default (admin ∷ operator ∷ []) roles)
      × (permits viewer (approver_roles_of roles) ≡ false)
approver_roles_of-valid none h = (refl, refl)
approver_roles_of-valid (some []) h = absurd (ground arith)
approver_roles_of-valid (some (role ∷ roles)) h = (refl, viewer-permits (role ∷ roles) h)

handoff-target :
    (target : Option ℕ)
    → is_given target ≡ true
    → id_in_range 1 2147483647 target ≡ true
    → (k : ℕ) × (target ≡ some k) × (1 ≤ k)
handoff-target none h k = absurd (ground arith)
handoff-target (some n) h k = (n, refl, ground arith)

handoff-steps :
    (max_steps : Option ℕ)
    → id_in_range 1 1000 max_steps ≡ true
    → (1 ≤ default 100 max_steps) × (default 100 max_steps ≤ 1000)
handoff-steps none h = (omega arith, omega arith)
handoff-steps (some n) h = (ground arith, ground arith)

-- A step that the validator lets through: the execution uses its retries and its timeout as they
-- are, its clamps change nothing. For an approval the roles are those given, or admin and operator,
-- and a viewer is never among them. A handoff has a target, and gives its child between 1 and 1000
-- steps.
pub validate_runtime_config_lem :
    (strip : String → String) (len : String → ℕ) (step : Step)
    → validate_runtime_config strip len step ≡ true
    → (pos (retries_of step.config) ≡ default (pos 0) step.config.retries)
      × (pos (timeout_of step.config) ≡ default (pos 0) step.config.timeout_seconds)
      × (step.tool ≡ approval
          → (approver_roles_of step.config.approver_roles
              ≡ default (admin ∷ operator ∷ []) step.config.approver_roles)
            × (permits viewer (approver_roles_of step.config.approver_roles) ≡ false))
      × (step.tool ≡ handoff
          → ((k : ℕ) × (step.config.workflow_id ≡ some k) × (1 ≤ k))
            × (1 ≤ default 100 step.config.max_steps)
            × (default 100 step.config.max_steps ≤ 1000))
unfolding validate_runtime_config
validate_runtime_config_lem strip len step h =
    let config = step.config in
    (
      clamp-in_range 5 config.retries (ground arith),
      clamp-in_range 300000 config.timeout_seconds (ground arith),
      (λ tool. approver_roles_of-valid config.approver_roles (ground arith)),
      (λ tool.
          let (least, most) = handoff-steps config.max_steps (ground arith) in
          (handoff-target config.workflow_id (ground arith) (ground arith), least, most)),
    )
