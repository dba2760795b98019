-- ===== src/Runs/Plain/Attempts.antt =====
-- The attempts at a step that only computes, retries included.
use agentops_control_plane.Base.{ℕ, zero, suc, ◌≡◌, refl, none, arith}
use agentops_control_plane.Json.{Value}
use agentops_control_plane.Store.Rows.{
  Tool, input, template, uppercase, lowercase, json_extract, llm, memory_read, memory_write,
  handoff, approval, fail, unknown, Config, Step, Workflow,
}
use agentops_control_plane.Store.Exec.{Db, Result, ok, err}
use agentops_control_plane.Runs.Env.{Env, Call}
use agentops_control_plane.Runs.Tools.{apply_tool, timeout_of}
use agentops_control_plane.Runs.Agent.{Child}
use agentops_control_plane.Runs.Steps.{Outcome, produced, failed, try_step, try_tool, attempts}
use agentops_control_plane.Runs.Plain.{IsPlainTool, call}

abbrev pub outcome_of : Result Value → Outcome
outcome_of (ok out) = produced out none
outcome_of (err e) = failed e

abbrev tried : Result Value → Result Outcome
tried (ok out) = ok (produced out none)
tried (err e) = err e

module _ (env : Env) where
  apply_tool-call :
      (c : Call) (tool : Tool) (config : Config) (v : Value)
      → IsPlainTool tool
      → apply_tool env c tool config v ≡ apply_tool env call tool config v
  unfolding apply_tool
  apply_tool-call c llm config v p = elim p [ ]
  apply_tool-call c input config v p = refl
  apply_tool-call c template config v p = refl
  apply_tool-call c uppercase config v p = refl
  apply_tool-call c lowercase config v p = refl
  apply_tool-call c json_extract config v p = refl
  apply_tool-call c fail config v p = refl
  apply_tool-call c (unknown name) config v p = refl
  apply_tool-call c memory_read config v p = elim p [ ]
  apply_tool-call c memory_write config v p = elim p [ ]
  apply_tool-call c handoff config v p = elim p [ ]
  apply_tool-call c approval config v p = elim p [ ]

  module _ (child : Child) (run_id index : ℕ) (workflow : Workflow) where
    try_tool-plain :
        (trial : ℕ) (step : Step) (tool : Tool) (v : Value) (s : Db)
        → IsPlainTool tool
        → timeout_of step.config ≡ 0
        → try_tool env child run_id index trial tool step.config v s
          ≡ (tried (apply_tool env call tool step.config v), s)
    unfolding try_tool
    try_tool-plain trial step tool v s p t =
        let c : Call = record { run_id = run_id; index = index; trial = trial } in
        rw (t, apply_tool-call c tool step.config v p) (ground arith)

    try_step-plain :
        (trial : ℕ) (step : Step) (tool : Tool) (v : Value) (s : Db)
        → IsPlainTool tool
        → timeout_of step.config ≡ 0
        → try_step env child run_id index trial workflow step tool v s
          ≡ (tried (apply_tool env call tool step.config v), s)
    unfolding try_step
    try_step-plain trial step llm v s p t = elim p [ ]
    try_step-plain trial step memory_read v s p t = elim p [ ]
    try_step-plain trial step memory_write v s p t = elim p [ ]
    try_step-plain trial step handoff v s p t = elim p [ ]
    try_step-plain trial step approval v s p t = elim p [ ]
    try_step-plain trial step tool v s p t = try_tool-plain trial step tool v s p t

    -- A retry of a step that only computes fails as the first attempt did.
    pub attempts-plain :
        (left trial : ℕ) (step : Step) (v : Value) (s : Db)
        → IsPlainTool step.tool
        → timeout_of step.config ≡ 0
        → attempts env child left trial run_id index workflow step v s
          ≡ (ok (outcome_of (apply_tool env call step.tool step.config v)), s)
    unfolding attempts
    attempts-plain zero trial step v s p t =
        rw (try_step-plain trial step step.tool v s p t) (ground arith)
    attempts-plain (suc left) trial step v s p t =
        rw (try_step-plain trial step step.tool v s p t)
          (ground (arith, attempts-plain left (suc trial) step v s p t))
