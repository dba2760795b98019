-- ===== src/Evaluations/Finish.antt =====
-- What the job of an evaluation leaves: the end of `_run_evaluation_job` of src/agentops/service.py.
use agentops_control_plane.Base.{
  ℕ, suc, ◌+◌, ◌≤◌, ◌<◌, Bool, true, false, ◌≡◌, ◌⊎◌, refl, ◌∙◌, some, List, [], length, arith, inl,
  inr, ==_refl, if◌then◌else◌, tally-le,
}
use agentops_control_plane.Store.Rows.{Role, Workflow}
use agentops_control_plane.Store.Exec.{Exec, ok}
use agentops_control_plane.Runs.Env.{Env}
use agentops_control_plane.Datasets.{
  Case, Dataset, Evaluation, EvaluationStatus, completed, cancelled, Catalog,
}
use agentops_control_plane.Datasets.Ids.{ids}
use agentops_control_plane.Evaluations.{
  CaseResult, Thresholds, evaluation_gate, passed_count, case_ids,
}
use agentops_control_plane.Evaluations.Matchers.{Judge}
use agentops_control_plane.Evaluations.Job.{
  run_evaluation_job, finish_job, other_request, is_open, is_cancelled, set_evaluation, final,
}
use agentops_control_plane.Evaluations.Cases.{HasRoom, IsExecutor, Answers}
use agentops_control_plane.Evaluations.Progress.{
  take, interrupted, other_request-Only, evaluation_status-row, is_open-cancelled, Stops,
  run_cases-Stops,
}

module _ (env : Env) (execute : ℕ → Exec (Unit {0})) (judge : Judge) (interrupts : ℕ → Bool)
    (id workflow_id : ℕ) (role : Role) where
  finish_job-row :
      (total : ℕ) (thresholds : Thresholds) (results : List CaseResult) (c : Catalog)
      (e : Evaluation)
      → c.evaluations.row id ≡ some e
      → (e' : Evaluation) × (c' : Catalog) × (finish_job env execute judge interrupts id workflow_id
            role total thresholds results c
          ≡ (
            ok (
                final env execute judge interrupts id workflow_id role total results thresholds
                  (interrupted env execute judge interrupts id workflow_id role
                    (interrupts total)
                    e).status
                  e'),
            c',
          ))
        × (c'.evaluations.row id
            ≡ some (
                final env execute judge interrupts id workflow_id role total results thresholds
                  (interrupted env execute judge interrupts id workflow_id role
                    (interrupts total)
                    e).status
                  e'))
  unfolding finish_job
  finish_job-row total thresholds results c e there =
      let c₁ = other_request env execute judge interrupts id workflow_id role total c in
      let (row₁, db₁, datasets₁) =
        other_request-Only env execute judge interrupts id workflow_id role total c e there in
      let e₁ = interrupted env execute judge interrupts id workflow_id role (interrupts total) e in
      let (row₂, db₂, datasets₂) =
        other_request-Only env execute judge interrupts id workflow_id role (suc total) c₁ e₁
          row₁ in
      (
        interrupted env execute judge interrupts id workflow_id role (interrupts (suc total)) e₁,
        set_evaluation id
            (final env execute judge interrupts id workflow_id role total results thresholds
              e₁.status)
            (other_request env execute judge interrupts id workflow_id role (suc total) c₁),
        rw
            (
              evaluation_status-row env execute judge interrupts id workflow_id role c₁ e₁ row₁,
              row₂,
              ==_refl id,
            )
            refl,
        rw (row₂, ==_refl id) refl,
      )

  -- An evaluation whose job is over, having run the first `n` cases.
  pub record IsFinished (cases : List Case) (thresholds : Thresholds) (n : ℕ) (e : Evaluation)
      : Type 0 where
    pub within : n ≤ length cases
    pub before : (j : ℕ) → j < n → interrupts j ≡ false
    pub stops : (n ≡ length cases) ⊎ (interrupts n ≡ true)
    pub status : e.status ≡ (if interrupts n then cancelled else completed)
    pub names : case_ids e.results ≡ take n (ids cases)
    pub completed_cases : e.completed_cases ≡ n
    pub total : e.total ≡ length cases
    pub passed : e.passed ≡ passed_count e.results
    pub bounded : e.passed ≤ n
    pub gate : (e.gate, e.gate_reasons) ≡ evaluation_gate judge.sum e.results thresholds

  -- The status that the end of the job writes, for an evaluation that is open or cancelled before
  -- the last look.
  final_status : Bool → Evaluation → EvaluationStatus
  final_status now e =
      if is_cancelled (interrupted env execute judge interrupts id workflow_id role now e).status
      then cancelled
      else completed

  final_status-open :
      (now : Bool) (e : Evaluation)
      → is_open e.status ≡ true
      → final_status now e ≡ (if now then cancelled else completed)
  unfolding final_status
  final_status-open true e going = rw going refl
  final_status-open false e going =
      rw (is_open-cancelled env execute judge interrupts id workflow_id role e.status going) refl

  final_status-cancelled :
      (now : Bool) (e : Evaluation) → e.status ≡ cancelled → final_status now e ≡ cancelled
  unfolding final_status
  final_status-cancelled true e over = rw over refl
  final_status-cancelled false e over = rw over refl

  IsFinished-Stops :
      (cases : List Case) (thresholds : Thresholds) (rs : List CaseResult) (c : Catalog)
      (e : Evaluation) (stops : Stops env execute judge interrupts id workflow_id role 0 cases rs c)
      → let seen =
          interrupted env execute judge interrupts id workflow_id role
            (interrupts (length cases))
            stops.stored in
        IsFinished cases thresholds (length rs) (
          final env execute judge interrupts id workflow_id role
            (length cases)
            rs
            thresholds
            seen.status
            e)
  unfolding final_status
  IsFinished-Stops cases thresholds rs c e stops =
      let n = length rs in
      let same : 0 + n ≡ n = omega arith in
      record {
        within = elim stops.ending [
          | inl (all, going) ↦ omega arith
          | inr (left, now, over) ↦ omega arith
        ];
        before = λ j lt. let plain : 0 + j ≡ j = omega arith in rw (← plain) (stops.before j lt);
        stops = elim stops.ending [
          | inl (all, going) ↦ inl all
          | inr (left, now, over) ↦ inr (rw (← same) now)
        ];
        status = elim stops.ending [
          | inl (all, going) ↦
              final_status-open (interrupts (length cases)) stops.stored going ∙ rw all refl
          | inr (left, now, over) ↦
              let here : interrupts n ≡ true = rw (← same) now in
              final_status-cancelled (interrupts (length cases)) stops.stored over ∙ rw here refl
        ];
        names = stops.names;
        completed_cases = refl;
        total = refl;
        passed = refl;
        bounded = tally-le (λ r. r.passed) rs;
        gate = refl;
      }

  -- The job of an evaluation that is stored and open, where the execution returns for each run of its
  -- workflow that was just stored, and keeps run, workflow and later ids, where the judging model
  -- answers and no id of a later run has spans, and whatever looks at the status other requests have
  -- cancelled it before: it returns, and it has run
  -- the cases before the first of these looks, in their order and no other. It has all cases and is
  -- completed, or was cancelled and says so; a cancellation behind the last look is lost. The counts
  -- are those of its results, and the verdict is the gate's on them.
  pub run_evaluation_job-IsFinished :
      (w : Workflow)
      → IsExecutor workflow_id w execute
      → Answers judge
      → (dataset_id : ℕ) (d : Dataset) (thresholds : Thresholds) (c : Catalog) (e : Evaluation)
      → c.db.workflows.row workflow_id ≡ some w
      → HasRoom c.db
      → c.datasets.row dataset_id ≡ some d
      → c.evaluations.row id ≡ some e
      → is_open e.status ≡ true
      → (n : ℕ) × (e' : Evaluation) × (c' : Catalog) × (run_evaluation_job env execute judge
            interrupts id workflow_id role dataset_id thresholds c
          ≡ (ok e', c'))
        × (c'.evaluations.row id ≡ some e')
        × IsFinished d.cases thresholds n e'
  unfolding run_evaluation_job
  run_evaluation_job-IsFinished w exe answers dataset_id d thresholds c e flow room known there
        going =
      let (rs, c₁, ran, stops) =
        run_cases-Stops env execute judge interrupts id workflow_id role w exe answers d.cases 0 []
          c e flow room there going in
      let total = length d.cases in
      let (last, c₂, done, stored) =
        finish_job-row total thresholds rs c₁ stops.stored stops.there in
      let seen =
        interrupted env execute judge interrupts id workflow_id role (interrupts total)
          stops.stored in
      (
        length rs,
        final env execute judge interrupts id workflow_id role total rs thresholds seen.status last,
        c₂,
        rw (known, ran) done,
        stored,
        IsFinished-Stops d.cases thresholds rs c₁ last stops,
      )
