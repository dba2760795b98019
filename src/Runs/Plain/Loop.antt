-- ===== src/Runs/Plain/Loop.antt =====
-- The loop over steps that only compute, and the reference interpreter of their definition.
use agentops_control_plane.Base.{
  ℕ, ◌+◌, ◌≤◌, false, ◌≡◌, refl, none, some, arith, Bool-cases, inl, inr, ◌==◌, leb, if◌then◌else◌,
  List, [], ◌∷◌,
}
use agentops_control_plane.Json.{Value, null}
use agentops_control_plane.Store.Rows.{Step, Workflow, Run, RunStatus, EventType}
use agentops_control_plane.Store.Exec.{Db, Result-cases}
use agentops_control_plane.Runs.Env.{Env}
use agentops_control_plane.Runs.Rows.{is_cancelled, set_run}
use agentops_control_plane.Runs.Tools.{default, apply_tool}
use agentops_control_plane.Runs.Agent.{Child}
use agentops_control_plane.Runs.Steps.{permits, steps_from, keep_output}
use agentops_control_plane.Runs.Start.{execute_with, drop}
use agentops_control_plane.Runs.Plain.{AllPlain, call, interpret, IsReady, Shows}
use agentops_control_plane.Runs.Plain.Endings.{
  finish_run-Shows, fail_step-Shows, deny-Shows, keep_output-IsReady,
}
use agentops_control_plane.Runs.Plain.Rounds.{
  settle-failed, settle-produced, enter-allowed, enter-budget, enter-role,
}

module _ (env : Env) where
  module _ (child : Child) (run_id : ℕ) (r0 : Run) (w : Workflow) (s0 : Db) where
    -- The steps from `index` on, run in the database, show the ending that the reference
    -- interpreter finds.
    steps_from-Shows :
        ((i : ℕ) → env.cancelled_during run_id i ≡ false)
        → (s : Db) (index : ℕ) (steps : List Step) (v : Value) → AllPlain steps
        → IsReady s0 s run_id r0 w index
        → Shows s0 run_id
            (interpret env r0.actor_role r0.max_steps index steps v)
            (steps_from env child run_id r0 w index steps v s)
    unfolding steps_from
    steps_from-Shows calm s index [] v p h = finish_run-Shows env child run_id r0 w s0 s index v h
    steps_from-Shows calm s index (step ∷ rest) v p h =
        let (tool, timeout, (roles, known), rest_plain) = p in
        let next = λ (out : Value). steps_from env child run_id r0 w (index + 1) rest out in
        elim (Bool-cases (leb r0.max_steps index)) [
          | inl full ↦
              rw (enter-budget env child run_id r0 w s0 s index step v next h full, full)
                (deny-Shows env child run_id r0 w s0 s index "step budget exceeded"
                  EventType.budget_exceeded h)
          | inr room ↦ elim (Bool-cases (permits r0.actor_role roles)) [
            | inr refused ↦
                rw
                  (
                    enter-role env child run_id r0 w s0 s index step v next h room roles known
                        refused,
                    room,
                    known,
                    refused,
                  )
                  (deny-Shows env child run_id r0 w s0 s index "tool permission denied"
                    EventType.permission_denied h)
            | inl role ↦
                rw
                  (
                    enter-allowed env child run_id r0 w s0 s index step v next tool timeout h room
                        roles known role,
                    room,
                    known,
                    role,
                  )
                  (elim (Result-cases (apply_tool env call step.tool step.config v)) [
                    | inl (out, e) ↦
                        let kept =
                          (keep_output-IsReady env child run_id r0 w s0 s index step v out h).1 in
                        let s' = (keep_output env child run_id index step v out none s).1 in
                        rw
                          (
                            e,
                            settle-produced env child run_id r0 w s0 s index step v out next
                                (calm index) h,
                          )
                          (steps_from-Shows calm s' (index + 1) rest out rest_plain kept)
                    | inr (e', e) ↦
                        rw
                          (
                            e,
                            settle-failed env child run_id r0 w s0 s index step v next e'
                                (calm index) h,
                          )
                          (fail_step-Shows env child run_id r0 w s0 s index step v e' h)
                  ])
          ]
        ]

  execute_with-steps :
      (child : Child) (s : Db) (run_id : ℕ) (r : Run) (w : Workflow)
      → s.runs.row run_id ≡ some r
      → s.workflows.row r.workflow_id ≡ some w
      → is_cancelled r.status ≡ false
      → execute_with env child run_id s
        ≡ steps_from env child run_id r w r.current_step
            (drop r.current_step w.steps)
            (if r.current_step == 0 then r.input else default null r.output)
            (set_run run_id (λ x. record x { status = RunStatus.running }) s)
  unfolding execute_with
  execute_with-steps child s run_id r w there flow live = ground arith

  -- A run that is stored with its workflow and is not cancelled, whose remaining steps only compute,
  -- have no timeout, no null for their roles and no span yet, and which no other request cancels meanwhile: its execution
  -- returns, and the row of the run then shows the ending that the reference interpreter finds for
  -- these steps; the workflows, the ids of runs and the spans of other runs are as they were.
  pub execute_with-interpret :
      (child : Child) (s : Db) (run_id : ℕ) (r : Run) (w : Workflow)
      → s.runs.row run_id ≡ some r
      → s.workflows.row r.workflow_id ≡ some w
      → is_cancelled r.status ≡ false
      → AllPlain (drop r.current_step w.steps)
      → ((j : ℕ) → r.current_step ≤ j → s.spans run_id j ≡ none)
      → ((i : ℕ) → env.cancelled_during run_id i ≡ false)
      → Shows s run_id
          (interpret env r.actor_role r.max_steps r.current_step
            (drop r.current_step w.steps)
            (if r.current_step == 0 then r.input else default null r.output))
          (execute_with env child run_id s)
  execute_with-interpret child s run_id r w there flow live plain free calm =
      let v = if r.current_step == 0 then r.input else default null r.output in
      let s' = set_run run_id (λ x. record x { status = RunStatus.running }) s in
      let ready : IsReady s s' run_id r w r.current_step = record {
        row = record r { status = RunStatus.running };
        there = ground arith;
        live = refl;
        same = refl;
        flow = flow;
        free = free;
        apart = record { workflows = refl; next = refl; spans = λ k j other. refl };
      } in
      let shown =
        steps_from-Shows child run_id r w s calm s' r.current_step (drop r.current_step w.steps) v
          plain ready in
      rw (execute_with-steps child s run_id r w there flow live) shown
