-- ===== src/Runs/Plain/Rounds.antt =====
-- One round of the loop over the steps: `enter` and `settle`.
use agentops_control_plane.Base.{ℕ, true, false, ◌≡◌, List, some, none, arith, leb}
use agentops_control_plane.Json.{Value}
use agentops_control_plane.Store.Rows.{Role, Step, Workflow, Run, EventType}
use agentops_control_plane.Store.Exec.{Db, Error, Exec}
use agentops_control_plane.Runs.Env.{Env}
use agentops_control_plane.Runs.Tools.{apply_tool, timeout_of}
use agentops_control_plane.Runs.Agent.{Child}
use agentops_control_plane.Runs.Steps.{
  produced, failed, permits, allowed_roles_of, retries_of, deny, settle, enter, fail_step,
  keep_output,
}
use agentops_control_plane.Runs.Plain.{IsPlainTool, call, IsReady}
use agentops_control_plane.Runs.Plain.Attempts.{outcome_of, attempts-plain}
use agentops_control_plane.Runs.Plain.Endings.{keep_output-IsReady}

module _ (env : Env) where
  module _ (child : Child) (run_id : ℕ) (r0 : Run) (w : Workflow) (s0 : Db) where
    pub settle-failed :
        (s : Db) (index : ℕ) (step : Step) (v : Value) (next : Value → Exec (Unit {0})) (e : Error)
        → env.cancelled_during run_id index ≡ false
        → IsReady s0 s run_id r0 w index
        → settle env child run_id index step v next (failed e) s
          ≡ fail_step env child run_id index step v e s
    unfolding settle
    settle-failed s index step v next e calm h = ground (arith, h.there, h.live)

    pub settle-produced :
        (s : Db) (index : ℕ) (step : Step) (v out : Value) (next : Value → Exec (Unit {0}))
        → env.cancelled_during run_id index ≡ false
        → IsReady s0 s run_id r0 w index
        → settle env child run_id index step v next (produced out none) s
          ≡ next out (keep_output env child run_id index step v out none s).1
    unfolding settle
    settle-produced s index step v out next calm h = ground (
      arith,
      h.there,
      h.live,
      (keep_output-IsReady env child run_id r0 w s0 s index step v out h).0,
    )

    -- A round that is let in.
    pub enter-allowed :
        (s : Db) (index : ℕ) (step : Step) (v : Value) (next : Value → Exec (Unit {0}))
        → IsPlainTool step.tool
        → timeout_of step.config ≡ 0
        → IsReady s0 s run_id r0 w index
        → leb r0.max_steps index ≡ false
        → (roles : List Role) → allowed_roles_of step.config ≡ some roles
        → permits r0.actor_role roles ≡ true
        → enter env child run_id r0 w index step v next s
          ≡ settle env child run_id index step v next
              (outcome_of (apply_tool env call step.tool step.config v))
              s
    unfolding enter
    enter-allowed s index step v next p t h room roles known role = ground (
      arith,
      h.there,
      h.live,
      attempts-plain env child run_id index w (retries_of step.config) 0 step v s p t,
    )

    pub enter-budget :
        (s : Db) (index : ℕ) (step : Step) (v : Value) (next : Value → Exec (Unit {0}))
        → IsReady s0 s run_id r0 w index
        → leb r0.max_steps index ≡ true
        → enter env child run_id r0 w index step v next s
          ≡ deny env child run_id "step budget exceeded" EventType.budget_exceeded s
    unfolding enter
    enter-budget s index step v next h full = ground (arith, h.there, h.live)

    pub enter-role :
        (s : Db) (index : ℕ) (step : Step) (v : Value) (next : Value → Exec (Unit {0}))
        → IsReady s0 s run_id r0 w index
        → leb r0.max_steps index ≡ false
        → (roles : List Role) → allowed_roles_of step.config ≡ some roles
        → permits r0.actor_role roles ≡ false
        → enter env child run_id r0 w index step v next s
          ≡ deny env child run_id "tool permission denied" EventType.permission_denied s
    unfolding enter
    enter-role s index step v next h room roles known role = ground (arith, h.there, h.live)
