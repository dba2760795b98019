-- ===== src/Schemas.antt =====
-- The validator of the steps of a workflow, `validate_runtime_config` of src/agentops/schemas.py.
-- The members of a step's config have their types here, so the tests of `isinstance` are left out, as
-- are the rates, which are natural numbers, and `retry_delay_seconds`, for which the execution sleeps.
pub mod Steps
use agentops_control_plane.Base.{
  ℕ, String, Bool, true, false, ◌&&◌, not, Option, none, some, List, [], ◌∷◌, leb, str_eq,
}
use agentops_control_plane.Store.Rows.{
  AllowedRoles, unset, null_roles, listed, ℤ, pos, negsuc, Role, admin, operator, viewer, Tool,
  input, template, uppercase, lowercase, json_extract, llm, memory_read, memory_write, handoff,
  approval, fail, unknown, Config, Step,
}

-- `integer` and `number`, where the least value is no less than 0.
abbrev pub in_range : ℕ → ℕ → Option ℤ → Bool
in_range low high none = true
in_range low high (some (pos n)) = leb low n && leb n high
in_range low high (some (negsuc n)) = false

abbrev pub id_in_range : ℕ → ℕ → Option ℕ → Bool
id_in_range low high none = true
id_in_range low high (some n) = leb low n && leb n high

abbrev pub is_approver : Role → Bool
is_approver admin = true
is_approver operator = true
is_approver viewer = false

abbrev pub all_approvers : List Role → Bool
all_approvers [] = true
all_approvers (role ∷ roles) = is_approver role && all_approvers roles

-- A list of roles, where it is given, has one.
abbrev pub has_role : Option (List Role) → Bool
has_role none = true
has_role (some []) = false
has_role (some (role ∷ roles)) = true

-- The null is let through as the absent key is.
abbrev pub valid_roles : AllowedRoles → Bool
valid_roles unset = true
valid_roles null_roles = true
valid_roles (listed roles) = has_role (some roles)

abbrev pub valid_approvers : Option (List Role) → Bool
valid_approvers none = true
valid_approvers (some roles) = has_role (some roles) && all_approvers roles

abbrev pub is_given : Option ℕ → Bool
is_given none = false
is_given (some n) = true

-- `strip` and `len` are of `str`.
module _ (strip : String → String) (len : String → ℕ) where
  abbrev pub valid_credential : Option String → Bool
  valid_credential none = true
  valid_credential (some name) = not (str_eq (strip name) "") && leb (len name) 100

  -- What is asked of the config of a tool; a name that no tool has is refused.
  abbrev pub valid_for : Tool → Config → Bool
  valid_for approval config =
      in_range 0 31536000 config.expires_in_seconds && valid_approvers config.approver_roles
  valid_for handoff config =
      is_given config.workflow_id
      && id_in_range 1 2147483647 config.workflow_id
      && id_in_range 1 1000 config.max_steps
  valid_for llm config = valid_credential config.credential_ref
  valid_for (unknown name) config = false
  valid_for _ config = true

  unfoldable pub validate_runtime_config : Step → Bool
  validate_runtime_config step =
      in_range 0 5 step.config.retries
      && in_range 0 300000 step.config.timeout_seconds
      && valid_roles step.config.allowed_roles
      && valid_for step.tool step.config
