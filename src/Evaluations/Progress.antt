-- ===== src/Evaluations/Progress.antt =====
-- How far the job of an evaluation gets: `_run_evaluation_job` of src/agentops/service.py with other
-- requests that cancel the evaluation meanwhile.
use agentops_control_plane.Base.{
  ℕ, zero, suc, ◌+◌, ◌<◌, Bool, true, false, ◌&&◌, ◌≡◌, ◌⊎◌, refl, sym, ◌∙◌, some, List, [], ◌∷◌,
  ◌++◌, length, arith, Bool-cases, inl, inr, ==_refl, if◌then◌else◌,
}
use mathlib.Core.List.{append-nil, append_assoc}
use agentops_control_plane.Store.Rows.{Role, Workflow}
use agentops_control_plane.Store.Exec.{Exec, ok}
use agentops_control_plane.Runs.Env.{Env}
use agentops_control_plane.Datasets.{
  Case, Evaluation, EvaluationStatus, queued, running, completed, cancelled, Catalog,
}
use agentops_control_plane.Datasets.Ids.{ids}
use agentops_control_plane.Evaluations.{CaseResult, case_ids}
use agentops_control_plane.Evaluations.Matchers.{Judge}
use agentops_control_plane.Evaluations.Job.{
  run_case, run_cases, other_request, cancel_evaluation, evaluation_status, is_open, is_cancelled,
  progress,
}
use agentops_control_plane.Evaluations.Cases.{HasRoom, IsExecutor, Answers, run_case-returns}

-- The first elements of a list.
abbrev pub take {ℓ} : {A : Type ℓ} → ℕ → List A → List A
take zero xs = []
take (suc n) [] = []
take (suc n) (x ∷ xs) = x ∷ take n xs

module _ (env : Env) (execute : ℕ → Exec (Unit {0})) (judge : Judge) (interrupts : ℕ → Bool)
    (id workflow_id : ℕ) (role : Role) where
  -- An evaluation after another request has or has not cancelled it.
  abbrev pub interrupted : Bool → Evaluation → Evaluation
  interrupted now e = if now && is_open e.status then record e { status = cancelled } else e

  -- The same catalog, but for this evaluation.
  abbrev pub Only : Catalog → Evaluation → Catalog → Type 0
  Only c e c' = (c'.evaluations.row id ≡ some e) × (c'.db ≡ c.db) × (c'.datasets ≡ c.datasets)

  pub other_request-Only :
      (look : ℕ) (c : Catalog) (e : Evaluation)
      → c.evaluations.row id ≡ some e
      → Only c
          (interrupted (interrupts look) e)
          (other_request env execute judge interrupts id workflow_id role look c)
  unfolding cancel_evaluation other_request
  other_request-Only look c e there = (ground arith, ground arith, ground arith)

  pub evaluation_status-row :
      (c : Catalog) (e : Evaluation)
      → c.evaluations.row id ≡ some e
      → evaluation_status id c ≡ (ok e.status, c)
  unfolding evaluation_status
  evaluation_status-row c e there = rw there refl

  pub is_open-cancelled : (st : EvaluationStatus) → is_open st ≡ true → is_cancelled st ≡ false
  is_open-cancelled queued h = refl
  is_open-cancelled running h = refl
  is_open-cancelled completed h = refl
  is_open-cancelled cancelled h = sym h

  run_cases-stop :
      (look : ℕ) (results : List CaseResult) (case : Case) (cases : List Case) (c : Catalog)
      (e : Evaluation)
      → let c' = other_request env execute judge interrupts id workflow_id role look c in
        c'.evaluations.row id ≡ some e
        → is_cancelled e.status ≡ true
        → run_cases env execute judge interrupts id workflow_id role look results (case ∷ cases) c
          ≡ (ok results, c')
  unfolding run_cases other_request
  run_cases-stop look results case cases c e there over =
      let c' = other_request env execute judge interrupts id workflow_id role look c in
      rw (evaluation_status-row c' e there, over) refl

  run_cases-go :
      (look : ℕ) (results : List CaseResult) (case : Case) (cases : List Case) (c c' : Catalog)
      (e : Evaluation) (r : CaseResult)
      → interrupts look ≡ false
      → c.evaluations.row id ≡ some e
      → is_cancelled e.status ≡ false
      → run_case env execute judge workflow_id role case c ≡ (ok r, c')
      → run_cases env execute judge interrupts id workflow_id role look results (case ∷ cases) c
        ≡ run_cases env execute judge interrupts id workflow_id role
            (suc look)
            (results ++ r ∷ [])
            cases
            (progress env execute judge interrupts id workflow_id role
              (length (results ++ r ∷ []))
              c')
  unfolding run_cases other_request
  run_cases-go look results case cases c c' e r later there going run =
      rw (later, evaluation_status-row c e there, going, run) refl

  -- Where the loop stops: the cases that it has results for, and the evaluation behind it.
  pub record Stops (look : ℕ) (cases : List Case) (rs : List CaseResult) (c' : Catalog)
      : Type 0 where
    pub names : case_ids rs ≡ take (length rs) (ids cases)
    pub before : (j : ℕ) → j < length rs → interrupts (look + j) ≡ false
    pub stored : Evaluation
    pub there : c'.evaluations.row id ≡ some stored
    pub ending :
        ((length rs ≡ length cases) × (is_open stored.status ≡ true))
        ⊎ ((length rs < length cases)
            × (interrupts (look + length rs) ≡ true)
            × (stored.status ≡ cancelled))

  Stops-nil :
      (look : ℕ) (c : Catalog) (e : Evaluation)
      → c.evaluations.row id ≡ some e
      → is_open e.status ≡ true
      → Stops look [] [] c
  Stops-nil look c e there going = record {
    names = refl;
    before = λ j lt. elim lt [ ];
    stored = e;
    there = there;
    ending = inl (refl, going);
  }

  Stops-now :
      (look : ℕ) (case : Case) (cases : List Case) (c : Catalog) (e : Evaluation)
      → interrupts look ≡ true
      → c.evaluations.row id ≡ some e
      → e.status ≡ cancelled
      → Stops look (case ∷ cases) [] c
  Stops-now look case cases c e now there over = record {
    names = refl;
    before = λ j lt. elim lt [ ];
    stored = e;
    there = there;
    ending = inr (omega arith, (let same : look + 0 ≡ look = omega arith in rw same now), over);
  }

  before-suc :
      (look n : ℕ)
      → interrupts look ≡ false
      → ((j : ℕ) → j < n → interrupts (suc look + j) ≡ false)
      → (j : ℕ) → j < suc n
      → interrupts (look + j) ≡ false
  before-suc look n later before zero lt = let same : look + 0 ≡ look = omega arith in rw same later
  before-suc look n later before (suc j) lt =
      let same : look + suc j ≡ suc look + j = omega arith in rw same (before j (omega arith))

  Stops-cons :
      (look : ℕ) (case : Case) (cases : List Case) (r : CaseResult) (rs : List CaseResult)
      (c : Catalog)
      → interrupts look ≡ false
      → r.case_id ≡ case.id
      → Stops (suc look) cases rs c
      → Stops look (case ∷ cases) (r ∷ rs) c
  Stops-cons look case cases r rs c later named rest =
      let n = length rs in
      let same : look + suc n ≡ suc look + n = omega arith in
      record {
        names = rw (named, rest.names) refl;
        before = before-suc look n later rest.before;
        stored = rest.stored;
        there = rest.there;
        ending = elim rest.ending [
          | inl (all, going) ↦ inl (omega arith, going)
          | inr (some_left, now, over) ↦ inr (omega arith, rw same now, over)
        ];
      }

  module _ (w : Workflow) (exe : IsExecutor workflow_id w execute) (answers : Answers judge) where
    pub run_cases-Stops :
        (cases : List Case) (look : ℕ) (results : List CaseResult) (c : Catalog) (e : Evaluation)
        → c.db.workflows.row workflow_id ≡ some w
        → HasRoom c.db
        → c.evaluations.row id ≡ some e
        → is_open e.status ≡ true
        → (rs : List CaseResult) × (c' : Catalog) × (run_cases env execute judge interrupts id
              workflow_id role look results cases c
            ≡ (ok (results ++ rs), c'))
          × Stops look cases rs c'
    unfolding run_cases
    run_cases-Stops [] look results c e flow room there going =
        ([], c, rw (append-nil results) refl, Stops-nil look c e there going)
    run_cases-Stops (case ∷ cases) look results c e flow room there going =
        elim (Bool-cases (interrupts look)) [
          | inl now ↦
              let c' = other_request env execute judge interrupts id workflow_id role look c in
              let (row, db, datasets) = other_request-Only look c e there in
              let over : c'.evaluations.row id ≡ some (record e { status = cancelled }) =
                ground arith in
              (
                [],
                c',
                run_cases-stop look results case cases c (record e { status = cancelled }) over refl
                    ∙ rw (append-nil results) refl,
                Stops-now look case cases c' (record e { status = cancelled }) now over refl,
              )
          | inr later ↦
              let (r, s', run, flow', room', named) =
                run_case-returns env execute workflow_id w exe judge answers role case c flow
                  room in
              let more = results ++ r ∷ [] in
              let c' =
                progress env execute judge interrupts id workflow_id role (length more)
                  (record c { db = s' }) in
              let e' = record e { completed_cases = length more } in
              let (rs, c₂, done, stops) =
                run_cases-Stops cases (suc look) more c' e' flow' room'
                  (rw (==_refl id, there) refl) going in
              (
                r ∷ rs,
                c₂,
                run_cases-go look results case cases c (record c { db = s' }) e r later there
                      (is_open-cancelled e.status going) run
                    ∙ done
                    ∙ rw (append_assoc results (r ∷ []) rs) refl,
                Stops-cons look case cases r rs c₂ later named stops,
              )
        ]
