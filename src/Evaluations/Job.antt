-- ===== src/Evaluations/Job.antt =====
-- The evaluation of a workflow on a dataset: `evaluate`, `_run_evaluation_job`, `cancel_evaluation`,
-- `_evaluation_status` and `get_evaluation` of src/agentops/service.py.
use agentops_control_plane.Base.{
  ℕ, zero, suc, Bool, true, false, not, Option, none, some, List, [], ◌∷◌, ◌++◌, length, ◌==◌,
  if◌then◌else◌,
}
use agentops_control_plane.Base.Table.{insert, update}
use agentops_control_plane.Store.Rows.{Role, Run, RunStatus, Span, Workflow}
use agentops_control_plane.Store.Exec.{Error, Exec, Result, ok, err}
use agentops_control_plane.Runs.Env.{Env}
use agentops_control_plane.Runs.Rows.{get_run, get_workflow}
use agentops_control_plane.Runs.Start.{start_run}
use agentops_control_plane.Datasets.{
  Case, Evaluation, EvaluationStatus, queued, running, completed, cancelled, Catalog, Bench, chain,
  on_db, row_or, get_dataset,
}
use agentops_control_plane.Evaluations.{CaseResult, Thresholds, evaluation_gate, passed_count}
use agentops_control_plane.Evaluations.Matchers.{Judge, match_evaluation}

unfoldable pub get_evaluation : ℕ → Bench Evaluation
get_evaluation id c = row_or (c.evaluations.row id) "evaluation not found" c

unfoldable pub evaluation_status : ℕ → Bench EvaluationStatus
unfolding get_evaluation
evaluation_status id = chain (get_evaluation id) λ e c. (ok e.status, c)

-- UPDATE evaluations SET ... WHERE id=?
abbrev pub set_evaluation : ℕ → (Evaluation → Evaluation) → Catalog → Catalog
set_evaluation id f c = record c { evaluations = update id f c.evaluations }

-- status IN ('queued', 'running')
abbrev pub is_open : EvaluationStatus → Bool
is_open queued = true
is_open running = true
is_open _ = false

abbrev pub is_cancelled : EvaluationStatus → Bool
is_cancelled cancelled = true
is_cancelled _ = false

unfoldable pub cancel_evaluation : ℕ → Bench Evaluation
unfolding get_evaluation
cancel_evaluation id c = elim (c.evaluations.row id) [
  | none ↦ get_evaluation id c
  | some e ↦
      if is_open e.status
      then get_evaluation id (set_evaluation id (λ x. record x { status = cancelled }) c)
      else (err (Error.conflict "evaluation cannot be cancelled"), c)
]

abbrev pub is_completed : RunStatus → Bool
is_completed RunStatus.completed = true
is_completed _ = false

abbrev pub cost_of : Option Span → List ℕ
cost_of none = []
cost_of (some span) = span.cost_usd ∷ []

-- The costs of the first spans of a run, by their steps; a run has no span behind the steps of its
-- workflow.
abbrev pub span_costs : ℕ → (ℕ → Option Span) → List ℕ
span_costs zero spans = []
span_costs (suc n) spans = span_costs n spans ++ cost_of (spans n)

abbrev pub steps_of : Option Workflow → ℕ
steps_of none = 0
steps_of (some workflow) = length workflow.steps

pub data Execution : Type 0 where
  sync background other : Execution

module _ (env : Env) (execute : ℕ → Exec (Unit {0})) (judge : Judge) where
  abbrev pub outcome_of : Case → ℕ → Run → List ℕ → Result Bool → Result CaseResult
  outcome_of case run_id run costs (err e) = err e
  outcome_of case run_id run costs (ok is_match) = ok (record {
    case_id = case.id;
    run_id = run_id;
    passed = is_match;
    actual = run.output;
    expected = case.body.expected;
    duration_ms = judge.elapsed run_id;
    cost_usd = judge.rounded costs;
  })

  -- run["status"] == "completed" and self._match_evaluation(...)
  abbrev pub judged : Case → Run → Result Bool
  judged case run =
      let matches = match_evaluation judge case.body run.output in
      if is_completed run.status then matches else ok false

  -- The run of a case, and its result.
  unfoldable pub run_case : ℕ → Role → Case → Bench CaseResult
  unfolding start_run get_run match_evaluation
  run_case workflow_id role case =
      chain (on_db (start_run env execute workflow_id case.body.input none false 100 role none))
        λ created. chain (on_db (get_run created.0)) λ run c.
          let costs =
            span_costs (steps_of (c.db.workflows.row workflow_id)) (c.db.spans created.0) in
          (outcome_of case created.0 run costs (judged case run), c)

  -- `interrupts` says before which of the looks at the status another request cancels the
  -- evaluation.
  module _ (interrupts : ℕ → Bool) (id workflow_id : ℕ) (role : Role) where
    unfoldable pub other_request : ℕ → Catalog → Catalog
    unfolding cancel_evaluation
    other_request look c = if interrupts look then (cancel_evaluation id c).1 else c

    abbrev pub progress : ℕ → Catalog → Catalog
    progress n = set_evaluation id λ e. record e { completed_cases = n }

    -- The loop over the cases; `results` has those so far.
    unfoldable pub run_cases : ℕ → List CaseResult → List Case → Bench (List CaseResult)
    unfolding run_case evaluation_status other_request
    run_cases look results [] c = (ok results, c)
    run_cases look results (case ∷ cases) c =
        chain (evaluation_status id)
          (λ status.
            if is_cancelled status
            then (λ c'. (ok results, c'))
            else chain (run_case workflow_id role case) λ r c'.
              let more = results ++ r ∷ [] in
              run_cases (suc look) more cases (progress (length more) c'))
          (other_request look c)

    abbrev pub final : ℕ → List CaseResult → Thresholds → EvaluationStatus → Evaluation → Evaluation
    final total results thresholds status e =
        let (gate, reasons) = evaluation_gate judge.sum results thresholds in
        record e {
          passed = passed_count results;
          total = total;
          results = results;
          status = if is_cancelled status then cancelled else completed;
          completed_cases = length results;
          gate = gate;
          gate_reasons = reasons;
        }

    -- The end of the job: the last look at the status, and the update behind it.
    unfoldable pub finish_job : ℕ → Thresholds → List CaseResult → Bench Evaluation
    unfolding evaluation_status get_evaluation evaluation_gate other_request
    finish_job total thresholds results c =
        chain (evaluation_status id)
          (λ status c'. get_evaluation id (
            set_evaluation id (final total results thresholds status)
              (other_request (suc total) c')))
          (other_request total c)

    unfoldable pub run_evaluation_job : ℕ → Thresholds → Bench Evaluation
    unfolding get_dataset run_cases finish_job
    run_evaluation_job dataset_id thresholds =
        chain (get_dataset dataset_id)
          λ d. chain (run_cases 0 [] d.cases) (finish_job (length d.cases) thresholds)

  abbrev pub new_evaluation : ℕ → ℕ → ℕ → Execution → Thresholds → Evaluation
  new_evaluation workflow_id dataset_id total mode thresholds = record {
    workflow_id = workflow_id;
    dataset_id = dataset_id;
    passed = 0;
    total = total;
    results = [];
    status = elim mode [ background ↦ queued | _ ↦ running ];
    completed_cases = 0;
    thresholds = thresholds;
    gate = none;
    gate_reasons = [];
  }

  -- Any other mode is refused by `evaluate`.
  abbrev pub is_known : Execution → Bool
  is_known other = false
  is_known _ = true

  abbrev pub is_queued : Execution → Bool
  is_queued background = true
  is_queued _ = false

  -- The insertion of an evaluation, and its job unless the job is handed to the executor.
  unfoldable pub start_evaluation :
      (ℕ → Bool) → ℕ → ℕ → ℕ → Role → Execution → Thresholds → Bench Evaluation
  unfolding get_evaluation run_evaluation_job
  start_evaluation interrupts workflow_id dataset_id total role mode thresholds c =
      let id = c.evaluations.next in
      let c' = record c {
        evaluations =
            insert (new_evaluation workflow_id dataset_id total mode thresholds) c.evaluations;
      } in
      if is_queued mode
      then get_evaluation id c'
      else run_evaluation_job interrupts id workflow_id role dataset_id thresholds c'

  unfoldable pub evaluate : (ℕ → Bool) → ℕ → ℕ → Role → Execution → Thresholds → Bench Evaluation
  unfolding get_workflow get_dataset start_evaluation
  evaluate interrupts workflow_id dataset_id role mode thresholds =
      chain (on_db (get_workflow workflow_id)) λ workflow. chain (get_dataset dataset_id) λ d c.
        if not (workflow.project_id == d.project_id)
        then (err (Error.conflict "workflow and dataset must belong to the same project"), c)
        else if not (is_known mode)
        then (err (Error.value_error "unknown execution mode"), c)
        else start_evaluation interrupts workflow_id dataset_id (length d.cases) role mode
            thresholds c
