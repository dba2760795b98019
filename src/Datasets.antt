-- ===== src/Datasets.antt =====
-- Datasets of src/agentops/service.py: `create_dataset` and `get_dataset`, on the
-- database with its tables of datasets and evaluations.
pub mod Ids
use agentops_control_plane.Base.{
  ℕ, zero, suc, ◌+◌, String, Bool, ◌&&◌, Option, none, some, List, [], ◌∷◌, ◌++◌, ◌==◌, str_eq,
  one_of, if◌then◌else◌,
}
use agentops_control_plane.Base.Table.{Table, insert, any_row}
use agentops_control_plane.Json.{Value}
use agentops_control_plane.Store.Exec.{Db, Error, Exec, Result, ok, err}
use agentops_control_plane.Runs.Agent.{get_project}
use agentops_control_plane.Evaluations.{CaseResult, Thresholds, Verdict, Reason}

pub data Matcher : Type 0 where
  exact contains regex json_schema llm_judge : Matcher

-- What a case has but for its id.
pub record Body : Type 0 where
  pub input : Value
  pub expected : Value
  pub matcher : Matcher
  pub judge_provider : String
  pub judge_model : String
  pub rubric : String

-- A case as it is sent, and as it is stored.
pub record Posted : Type 0 where
  pub id : Option String
  pub body : Body

pub record Case : Type 0 where
  pub id : String
  pub body : Body

pub record Dataset : Type 0 where
  pub project_id : ℕ
  pub name : String
  pub cases : List Case

pub data EvaluationStatus : Type 0 where
  queued running completed cancelled : EvaluationStatus

pub record Evaluation : Type 0 where
  pub workflow_id : ℕ
  pub dataset_id : ℕ
  pub passed : ℕ
  pub total : ℕ
  pub results : List CaseResult
  pub status : EvaluationStatus
  pub completed_cases : ℕ
  pub thresholds : Thresholds
  pub gate : Option Verdict
  pub gate_reasons : List Reason

pub record Catalog : Type 0 where
  pub db : Db
  pub datasets : Table Dataset
  pub evaluations : Table Evaluation

-- A method on the catalog, that may raise.
abbrev pub Bench : Type 0 → Type 0
Bench A = Catalog → Result A × Catalog

abbrev pub go_on : {A B : Type 0} → Result A → (A → Bench B) → Bench B
go_on (ok a) f c = f a c
go_on (err e) f c = (err e, c)

abbrev pub chain : {A B : Type 0} → Bench A → (A → Bench B) → Bench B
chain m f c = let (r, c') = m c in go_on r f c'

-- A method that reads and writes the database alone.
abbrev pub on_db : {A : Type 0} → Exec A → Bench A
on_db m c = let (r, s) = m c.db in (r, record c { db = s })

abbrev pub row_or : {A : Type 0} → Option A → String → Bench A
row_or none what c = (err (Error.not_found what), c)
row_or (some a) what c = (ok a, c)

unfoldable pub get_dataset : ℕ → Bench Dataset
get_dataset id c = row_or (c.datasets.row id) "dataset not found" c

-- What `create_dataset` takes from `str`: `strip`, and the default f"case-{index + 1}".
pub record Naming : Type 0 where
  pub strip : String → String
  pub case_name : ℕ → String

-- case.get("id") or ...
abbrev pub id_or : String → Option String → String
id_or fallback none = fallback
id_or fallback (some id) = if str_eq id "" then fallback else id

module _ (naming : Naming) where
  abbrev pub case_id : ℕ → Posted → String
  case_id index posted = naming.strip (id_or (naming.case_name (index + 1)) posted.id)

  abbrev pub and_case : Case → Result (List Case) → Result (List Case)
  and_case case (ok cases) = ok (case ∷ cases)
  and_case case (err e) = err e

  -- The loop over the cases; `seen` has the ids so far.
  unfoldable pub normalized : ℕ → List String → List Posted → Result (List Case)
  normalized index seen [] = ok []
  normalized index seen (posted ∷ rest) =
      let id = case_id index posted in
      let cases = normalized (suc index) (id ∷ seen) rest in
      if one_of id seen
      then err (Error.conflict "duplicate case id")
      else and_case (record { id = id; body = posted.body }) cases

  abbrev pub same_name : ℕ → String → Dataset → Bool
  same_name project_id name d = d.project_id == project_id && str_eq d.name name

  -- The insertion, under UNIQUE(project_id, name).
  unfoldable pub add_dataset : ℕ → String → List Case → Bench Dataset
  unfolding get_dataset
  add_dataset project_id name cases c =
      if any_row (same_name project_id name) c.datasets
      then (err (Error.conflict "dataset name already exists in this project"), c)
      else get_dataset c.datasets.next (record c {
        datasets =
            insert (record { project_id = project_id; name = name; cases = cases }) c.datasets;
      })

  unfoldable pub create_dataset : ℕ → String → List Posted → Bench Dataset
  unfolding get_project normalized add_dataset
  create_dataset project_id name posted =
      chain (on_db (get_project project_id)) λ project.
        chain (λ c. (normalized 0 [] posted, c)) λ cases. add_dataset project_id name cases
