-- ===== src/Runs/Plain.antt =====
-- Workflows whose steps only compute, with no provider, memory, handoff or approval: a reference
-- interpreter of their definition, and what it means that an execution shows its ending.
mod Attempts
mod Endings
mod Rounds
pub mod Loop
use agentops_control_plane.Base.{
  ℕ, zero, suc, ◌+◌, ◌≤◌, String, Bool, true, false, ◌≡◌, refl, sym, ◌∙◌, ap, Option, none, some,
  arith, not, Bool-cases, Option-cases, inl, inr, ◌==◌, ◌&&◌, leb, if◌then◌else◌, List, [], ◌∷◌,
}
use agentops_control_plane.Json.{Value, null}
use agentops_control_plane.Store.Rows.{
  Tool, input, template, uppercase, lowercase, json_extract, llm, memory_read, memory_write,
  handoff, approval, fail, unknown, Config, Step, Workflow, Run, RunStatus, Role, Event, SpanStatus,
  EventType,
}
use agentops_control_plane.Store.Exec.{Db, Error, message, Result, ok, err, Exec, Result-cases}
use agentops_control_plane.Runs.Env.{Env, Call}
use agentops_control_plane.Runs.Rows.{is_cancelled, set_run}
use agentops_control_plane.Runs.Spans.{set_span, new_span}
use agentops_control_plane.Runs.Frames.{dispatch_webhooks_frame, dispatch_webhooks_ok}
use agentops_control_plane.Runs.Tools.{default, apply_tool, timeout_of}
use agentops_control_plane.Runs.Agent.{Child}
use agentops_control_plane.Runs.Steps.{
  Outcome, produced, failed, permits, allowed_roles_of, try_step, try_tool, attempts, retries_of,
  steps_from, finish_run, deny, settle, enter, fail_step, keep_output, interfere, fail_run,
}
use agentops_control_plane.Runs.Start.{execute_with, drop}

-- Whether a role is among the roles of a step that has them.
abbrev pub in_roles : Role → Option (List Role) → Bool
in_roles role none = false
in_roles role (some roles) = permits role roles

-- A tool that only computes.
abbrev pub IsPlainTool : Tool → Type 0
IsPlainTool llm = ⊥
IsPlainTool memory_read = ⊥
IsPlainTool memory_write = ⊥
IsPlainTool handoff = ⊥
IsPlainTool approval = ⊥
IsPlainTool _ = Unit {0}

abbrev pub AllPlain : List Step → Type 0
AllPlain [] = Unit {0}
AllPlain (step ∷ rest) =
    IsPlainTool step.tool
    × (timeout_of step.config ≡ 0)
    × ((roles : List Role) × (allowed_roles_of step.config ≡ some roles))
    × AllPlain rest

pub data Ending : Type 0 where
  completes : Value → Ending
  fails : String → Ending

-- The call that is named where the tool does not look at it.
abbrev pub call : Call
call = record { run_id = 0; index = 0; trial = 0 }

module _ (env : Env) where
  -- The reference interpreter: the steps are a chain of functions on the value, cut short by the
  -- step budget, by a role that a step does not allow, or by the first error.
  abbrev pub interpret : Role → ℕ → ℕ → List Step → Value → Ending
  interpret role budget index [] v = completes v
  interpret role budget index (step ∷ rest) v =
      let go = λ (out : Value). interpret role budget (index + 1) rest out in
      if leb budget index
      then fails "step budget exceeded"
      else if not (in_roles role (allowed_roles_of step.config))
      then fails "tool permission denied"
      else elim (apply_tool env call step.tool step.config v) [
        | ok out ↦ go out
        | err e ↦ fails (message e)
      ]

-- What an execution of a run has not touched of the database that it began with: the workflows, the
-- ids of runs, and the spans of other runs.
pub record Apart (run_id : ℕ) (s0 s : Db) : Type 0 where
  pub workflows : s.workflows ≡ s0.workflows
  pub next : s.runs.next ≡ s0.runs.next
  pub spans : (k j : ℕ) → (k == run_id) ≡ false → s.spans k j ≡ s0.spans k j

-- The run, its workflow and the free keys of its spans, before the step at `index`.
pub record IsReady (s0 s : Db) (run_id : ℕ) (r0 : Run) (w : Workflow) (index : ℕ) : Type 0 where
  pub row : Run
  pub there : s.runs.row run_id ≡ some row
  pub live : is_cancelled row.status ≡ false
  pub same : row.workflow_id ≡ r0.workflow_id
  pub flow : s.workflows.row r0.workflow_id ≡ some w
  pub free : (j : ℕ) → index ≤ j → s.spans run_id j ≡ none
  pub apart : Apart run_id s0 s

abbrev pub EndsAs : Ending → Run → Type 0
EndsAs (completes v) r = (r.status ≡ RunStatus.completed) × (r.output ≡ some v)
EndsAs (fails m) r = (r.status ≡ RunStatus.failed) × (r.error ≡ some m)

-- How an execution ended: it returned, the row of its run shows the ending, and workflows, ids and the
-- spans of other runs are as they were.
abbrev pub Shows : Db → ℕ → Ending → Result (Unit {0}) × Db → Type 0
Shows s0 run_id ending (result, s) =
    (result ≡ ok tt)
    × (r : Run) × (s.runs.row run_id ≡ some r)
    × EndsAs ending r
    × Apart run_id s0 s
