-- ===== src/Evaluations/Cases.antt =====
-- A case of an evaluation, where runs and judgements return.
use agentops_control_plane.Base.{
  ℕ, ◌≤◌, ◌<◌, String, Bool, false, ◌&&◌, ◌≡◌, refl, ap, List, Option, none, some, arith,
  Bool-cases, inl, inr, ==_refl, ◌==◌, ltb,
}
use agentops_control_plane.Base.Table.{insert, any_row-none}
use agentops_control_plane.Json.{Value}
use agentops_control_plane.Store.Rows.{Role, Run, Workflow}
use agentops_control_plane.Store.Exec.{Db, Exec, ok}
use agentops_control_plane.Runs.Env.{Env}
use agentops_control_plane.Runs.Outbox.{view}
use agentops_control_plane.Runs.Rows.{is_cancelled}
use agentops_control_plane.Runs.Start.{start_run, new_run, same_key}
use agentops_control_plane.Datasets.{
  Body, Case, Catalog, Matcher, exact, contains, regex, json_schema, llm_judge,
}
use agentops_control_plane.Evaluations.{CaseResult}
use agentops_control_plane.Evaluations.Matchers.{
  Judge, match_evaluation, match_by, rubric_of, found,
}
use agentops_control_plane.Evaluations.Job.{
  run_case, outcome_of, judged, is_completed, span_costs, steps_of,
}

-- No id that a run may get has spans.
abbrev pub HasRoom : Db → Type 0
HasRoom s = (k j : ℕ) → s.runs.next ≤ k → s.spans k j ≡ none

-- A run of a workflow that was just stored.
pub record IsNew (workflow_id : ℕ) (w : Workflow) (run_id : ℕ) (s : Db) (r : Run) : Type 0 where
  pub stored : s.runs.row run_id ≡ some r
  pub flow : s.workflows.row workflow_id ≡ some w
  pub of_flow : r.workflow_id ≡ workflow_id
  pub first : r.current_step ≡ 0
  pub live : is_cancelled r.status ≡ false
  pub below : run_id < s.runs.next
  pub free : (j : ℕ) → s.spans run_id j ≡ none
  pub room : HasRoom s

-- What is relied on of the execution of a workflow's runs: it returns for a run that was just
-- stored, and leaves the run stored, the workflow and the ids of later runs.
pub record IsExecutor (workflow_id : ℕ) (w : Workflow) (execute : ℕ → Exec (Unit {0}))
    : Type 0 where
  pub returns :
      (run_id : ℕ) (s : Db) (r : Run)
      → IsNew workflow_id w run_id s r
      → (execute run_id s).0 ≡ ok tt
  pub flows :
      (run_id : ℕ) (s : Db) (r : Run)
      → IsNew workflow_id w run_id s r
      → (execute run_id s).1.workflows.row workflow_id ≡ some w
  pub keeps :
      (run_id : ℕ) (s : Db) (r : Run)
      → IsNew workflow_id w run_id s r
      → (r' : Run) × ((execute run_id s).1.runs.row run_id ≡ some r')
  pub rooms :
      (run_id : ℕ) (s : Db) (r : Run)
      → IsNew workflow_id w run_id s r
      → HasRoom (execute run_id s).1

-- A judging model that answers.
abbrev pub Answers : Judge → Type 0
Answers j =
    (provider model rubric : String) (actual : Option Value)
    → (answer : String) × (j.judge provider model rubric actual ≡ ok answer)

module _ (env : Env) (execute : ℕ → Exec (Unit {0})) (workflow_id : ℕ) (w : Workflow)
    (exe : IsExecutor workflow_id w execute) where
  -- The database behind the insertion of a run.
  abbrev inserted : Value → Role → Db → Db
  inserted payload role s = record s {
    runs = insert (new_run env workflow_id payload none false 100 role none) s.runs;
  }

  abbrev started : Value → Role → Run
  started payload role = new_run env workflow_id payload none false 100 role none

  inserted-IsNew :
      (s : Db) (payload : Value) (role : Role)
      → s.workflows.row workflow_id ≡ some w
      → HasRoom s
      → IsNew workflow_id w s.runs.next (inserted payload role s) (started payload role)
  unfolding new_run
  inserted-IsNew s payload role flow room = record {
    stored = rw (==_refl s.runs.next) refl;
    flow = flow;
    of_flow = refl;
    first = refl;
    live = refl;
    below = omega arith;
    free = λ j. room s.runs.next j (omega arith);
    room = λ k j le. room k j (omega arith);
  }

  start_run-returns :
      (s : Db) (payload : Value) (role : Role)
      → s.workflows.row workflow_id ≡ some w
      → HasRoom s
      → let s' = (execute s.runs.next (inserted payload role s)).1 in
        (r : Run) × (s'.runs.row s.runs.next ≡ some r)
        × (start_run env execute workflow_id payload none false 100 role none s
            ≡ (ok (s.runs.next, view env r), s'))
  unfolding start_run
  start_run-returns s payload role flow room =
      let free =
        any_row-none (λ r. r.workflow_id == workflow_id && same_key r.idempotency_key none) s.runs
          (λ r. ground arith) in
      let s' = inserted payload role s in
      let new = inserted-IsNew s payload role flow room in
      let done = exe.returns s.runs.next s' (started payload role) new in
      let (r, kept) = exe.keeps s.runs.next s' (started payload role) new in
      (r, kept, ground (arith, free, done, kept))

  module _ (judge : Judge) (answers : Answers judge) where
    match_by-returns :
        (m : Matcher) (body : Body) (actual : Option Value)
        → (b : Bool) × (match_by judge m body actual ≡ ok b)
    match_by-returns exact body actual = (_, refl)
    match_by-returns contains body actual = (_, refl)
    match_by-returns regex body actual =
        elim (Bool-cases (ltb 2000 (judge.len (judge.to_str (some body.expected))))) [
          | inl long ↦ (false, rw long refl)
          | inr short ↦
              let text = judge.to_str (some body.expected) in
              (found (judge.search text (judge.to_str actual)), rw short refl)
        ]
    match_by-returns json_schema body actual = (_, refl)
    match_by-returns llm_judge body actual =
        let (answer, e) =
          answers body.judge_provider body.judge_model (rubric_of judge body) actual in
        (judge.says_pass answer, rw e refl)

    judged-returns :
        (case : Case) (run : Run) → (b : Bool) × (judged env execute judge case run ≡ ok b)
    unfolding match_evaluation
    judged-returns case run = elim (Bool-cases (is_completed run.status)) [
      | inl done ↦
          let (b, e) = match_by-returns case.body.matcher case.body run.output in (b, rw done e)
      | inr failed ↦ (false, rw failed refl)
    ]

    outcome_of-returns :
        (case : Case) (run_id : ℕ) (run : Run) (costs : List ℕ)
        → (r : CaseResult) × (outcome_of env execute judge case run_id run costs
              (judged env execute judge case run)
            ≡ ok r)
          × (r.case_id ≡ case.id)
    outcome_of-returns case run_id run costs =
        let (b, e) = judged-returns case run in rw e (_, refl, refl)

    pub run_case-returns :
        (role : Role) (case : Case) (c : Catalog)
        → c.db.workflows.row workflow_id ≡ some w
        → HasRoom c.db
        → (r : CaseResult) × (s' : Db) × (run_case env execute judge workflow_id role case c
            ≡ (ok r, record c { db = s' }))
          × (s'.workflows.row workflow_id ≡ some w)
          × HasRoom s'
          × (r.case_id ≡ case.id)
    unfolding run_case
    run_case-returns role case c flow room =
        let (run, stored, begun) = start_run-returns c.db case.body.input role flow room in
        let new = inserted-IsNew c.db case.body.input role flow room in
        let first = started case.body.input role in
        let run_id = c.db.runs.next in
        let s = inserted case.body.input role c.db in
        let s' = (execute run_id s).1 in
        let costs = span_costs (steps_of (s'.workflows.row workflow_id)) (s'.spans run_id) in
        let (r, e, named) = outcome_of-returns case run_id run costs in
        (
          r,
          s',
          rw begun (rw stored (ap (λ x. (x, record c { db = s' })) e)),
          exe.flows run_id s first new,
          exe.rooms run_id s first new,
          named,
        )
