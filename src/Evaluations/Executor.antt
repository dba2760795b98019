-- ===== src/Evaluations/Executor.antt =====
-- The execution of the runs of a workflow whose steps only compute, as the job of an evaluation relies
-- on it: `_execute` of src/agentops/service.py.
use agentops_control_plane.Base.{ℕ, suc, false, ◌≡◌, ap, ◌∙◌, arith, ◌==◌, some}
use agentops_control_plane.Store.Rows.{Run, Workflow}
use agentops_control_plane.Store.Exec.{Db, ok}
use agentops_control_plane.Runs.Env.{Env}
use agentops_control_plane.Runs.Start.{execute, child_of, drop}
use agentops_control_plane.Runs.Plain.{AllPlain}
use agentops_control_plane.Runs.Plain.Loop.{execute_with-interpret}
use agentops_control_plane.Evaluations.Cases.{HasRoom, IsNew, IsExecutor}

-- What an execution leaves.
record IsLeft (workflow_id : ℕ) (w : Workflow) (run_id : ℕ) (s : Db) : Type 0 where
  run : Run
  stored : s.runs.row run_id ≡ some run
  flow : s.workflows.row workflow_id ≡ some w
  room : HasRoom s

module _ (env : Env) (depth workflow_id : ℕ) (w : Workflow) (plain : AllPlain w.steps)
    (calm : (run_id i : ℕ) → env.cancelled_during run_id i ≡ false) where
  execute-IsLeft :
      (run_id : ℕ) (s : Db) (r : Run)
      → IsNew workflow_id w run_id s r
      → let (result, s') = execute env (suc depth) run_id s in
        (result ≡ ok tt) × IsLeft workflow_id w run_id s'
  unfolding execute
  execute-IsLeft run_id s r new =
      let steps : AllPlain (drop r.current_step w.steps) = rw new.first plain in
      let (done, last, there, ends, apart) =
        execute_with-interpret env (child_of env (execute env depth)) s run_id r w new.stored
          (ap s.workflows.row new.of_flow ∙ new.flow) new.live steps (λ j le. new.free j)
          (calm run_id) in
      (
        done,
        record {
          run = last;
          stored = there;
          flow = ap (λ t. t.row workflow_id) apart.workflows ∙ new.flow;
          room = λ k j le.
              let below = new.below in
              let next = apart.next in
              let other : (k == run_id) ≡ false = ground arith in
              apart.spans k j other ∙ new.room k j (omega arith);
        },
      )

  -- Where no other request cancels a run.
  pub execute-IsExecutor : IsExecutor workflow_id w (execute env (suc depth))
  execute-IsExecutor = record {
    returns = λ run_id s r new. (execute-IsLeft run_id s r new).0;
    flows = λ run_id s r new. (execute-IsLeft run_id s r new).1.flow;
    keeps =
        λ run_id s r new. let left = (execute-IsLeft run_id s r new).1 in (left.run, left.stored);
    rooms = λ run_id s r new. (execute-IsLeft run_id s r new).1.room;
  }
