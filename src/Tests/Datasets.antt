-- ===== src/Tests/Datasets.antt =====
-- A dataset of two cases, and an evaluation on it that another request cancels behind its first case.
use agentops_control_plane.Base.{
  ℕ, Bool, true, false, some, none, [], ◌∷◌, ◌≡◌, refl, List, map, total, str_eq, ◌==◌,
}
use agentops_control_plane.Base.Table.{empty, insert, any_row, any_below}
use agentops_control_plane.Json.{text}
use agentops_control_plane.Store.Rows.{admin, operator}
use agentops_control_plane.Store.Exec.{ok}
use agentops_control_plane.Runs.Agent.{get_project}
use agentops_control_plane.Evaluations.{Thresholds}
use agentops_control_plane.Datasets.{
  Body, Posted, Dataset, exact, running, Evaluation, Catalog, Naming, create_dataset, normalized,
  add_dataset, get_dataset, same_name,
}
use agentops_control_plane.Datasets.Ids.{AllNew, create_dataset-AllNew}
use agentops_control_plane.Evaluations.Matchers.{Judge}
use agentops_control_plane.Evaluations.Job.{run_evaluation_job}
use agentops_control_plane.Evaluations.Cases.{HasRoom, Answers}
use agentops_control_plane.Evaluations.Executor.{execute-IsExecutor}
use agentops_control_plane.Runs.Plain.{AllPlain}
use agentops_control_plane.Runs.Start.{execute}
use agentops_control_plane.Evaluations.Finish.{IsFinished, run_evaluation_job-IsFinished}
use agentops_control_plane.Tests.{env, db, workflow}

abbrev body : Body
body = record {
  input = text "input";
  expected = text "input";
  matcher = exact;
  judge_provider = "mock";
  judge_model = "";
  rubric = "";
}

abbrev posted : List Posted
posted = record { id = some "first"; body = body } ∷ record { id = none; body = body } ∷ []

abbrev pub naming : Naming
naming = record { strip = λ s. s; case_name = λ n. "case" }

abbrev dataset : Dataset
dataset = record {
  project_id = 1;
  name = "smoke";
  cases = record { id = "first"; body = body } ∷ record { id = "case"; body = body } ∷ [];
}

abbrev thresholds : Thresholds
thresholds = record { pass_rate_min = some 500000; max_cost_usd = none; max_p95_latency_ms = none }

abbrev evaluation : Evaluation
evaluation = record {
  workflow_id = 1;
  dataset_id = 1;
  passed = 0;
  total = 2;
  results = [];
  status = running;
  completed_cases = 0;
  thresholds = thresholds;
  gate = none;
  gate_reasons = [];
}

abbrev catalog : Catalog
catalog = record { db = db; datasets = insert dataset empty; evaluations = insert evaluation empty }

abbrev no_datasets : Catalog
no_datasets = record catalog { datasets = empty }

create_dataset-AllNew_example :
    let (result, c') = create_dataset naming 1 "smoke" posted no_datasets in
    (c'.datasets.row 1 ≡ some dataset)
    × (any_row (same_name naming 1 "smoke") no_datasets.datasets ≡ false)
    × (map (λ x. x.body) dataset.cases ≡ map (λ p. p.body) posted)
    × AllNew [] dataset.cases
unfolding create_dataset get_project normalized add_dataset get_dataset any_row any_below
create_dataset-AllNew_example =
    create_dataset-AllNew naming 1 "smoke" posted no_datasets dataset refl

abbrev pub judge : Judge
judge = record {
  equal = λ actual expected. true;
  to_str = λ v. "";
  occurs_in = λ s t. true;
  len = λ s. 0;
  search = λ p s. none;
  validates = λ v schema. true;
  judge = λ provider model rubric actual. ok "PASS";
  says_pass = λ answer. str_eq answer "PASS";
  elapsed = λ run_id. 10;
  rounded = λ costs. total (λ c. c) costs;
  sum = λ costs. total (λ c. c) costs;
}

judge-Answers : Answers judge
judge-Answers = λ provider model rubric actual. ("PASS", refl)

-- Before the second look.
abbrev interrupts : ℕ → Bool
interrupts look = look == 1

-- No run has a span yet, and the steps of the workflow compute.
catalog-HasRoom : HasRoom catalog.db
catalog-HasRoom = λ k j le. refl

workflow-AllPlain : AllPlain workflow.steps
workflow-AllPlain =
    (tt, refl, (admin ∷ operator ∷ [], refl), (tt, refl, (admin ∷ operator ∷ [], refl), tt))

run_evaluation_job-IsFinished_example :
    (n : ℕ) × (e' : Evaluation) × (c' : Catalog) × (run_evaluation_job env
        (execute env 1)
        judge
        interrupts
        1
        1
        operator
        1
        thresholds
        catalog
      ≡ (ok e', c'))
    × (c'.evaluations.row 1 ≡ some e')
    × IsFinished env (execute env 1) judge interrupts 1 1 operator dataset.cases thresholds n e'
run_evaluation_job-IsFinished_example =
    run_evaluation_job-IsFinished env (execute env 1) judge interrupts 1 1 operator workflow
      (execute-IsExecutor env 0 1 workflow workflow-AllPlain (λ run_id i. refl)) judge-Answers 1
      dataset thresholds catalog evaluation refl catalog-HasRoom refl refl refl
