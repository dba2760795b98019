-- ===== src/Packages.antt =====
-- The packages of projects: `import_project` of src/agentops/service.py, and what the validator of
-- `ProjectPackage` in src/agentops/schemas.py lets through. A project's description is left out.
pub mod Targets
pub mod Import
pub mod Flows
pub mod Export
pub mod Keys
pub mod Exported
pub mod RoundTrip
use agentops_control_plane.Base.{
  ℕ, String, Bool, true, false, ◌&&◌, ◌||◌, Option, none, some, List, [], ◌∷◌, ◌++◌, map, length,
  ◌==◌, str_eq, one_of, occurs, not, if◌then◌else◌,
}
use agentops_control_plane.Base.Table.{update}
use agentops_control_plane.Store.Rows.{Step, Tool, handoff, Config, Workflow}
use agentops_control_plane.Store.Exec.{
  Db, Error, Exec, Result, ok, err, pure, lift, modify, when, raise_if, ◌>>=◌, ◌>>◌,
}
use agentops_control_plane.Runs.Tools.{default}
use agentops_control_plane.Datasets.{
  Posted, Dataset, Bench, chain, id_or, on_db, Naming, create_dataset,
}
use agentops_control_plane.Evaluations.{or_first}
use agentops_control_plane.Projects.{create_project, create_workflow}

pub record PackedWorkflow : Type 0 where
  pub source_id : Option ℕ
  pub name : String
  pub steps : List Step

pub record PackedDataset : Type 0 where
  pub name : String
  pub cases : List Posted

pub record Package : Type 0 where
  pub format : String
  pub version : ℕ
  pub project_name : String
  pub workflows : List PackedWorkflow
  pub datasets : List PackedDataset

-- len(xs) == len(set(xs))
abbrev pub distinct_names : List String → Bool
distinct_names [] = true
distinct_names (x ∷ xs) = not (one_of x xs) && distinct_names xs

abbrev pub distinct_ids : List ℕ → Bool
distinct_ids [] = true
distinct_ids (x ∷ xs) = not (occurs x xs) && distinct_ids xs

abbrev pub and_id : Option ℕ → List ℕ → List ℕ
and_id none ids = ids
and_id (some id) ids = id ∷ ids

abbrev pub source_ids : List PackedWorkflow → List ℕ
source_ids [] = []
source_ids (w ∷ ws) = and_id w.source_id (source_ids ws)

abbrev pub is_handoff : Tool → Bool
is_handoff handoff = true
is_handoff _ = false

-- The targets of the handoff steps; `config["workflow_id"]` raises where it is missing.
abbrev pub targets : List Step → List (Option ℕ)
targets [] = []
targets (step ∷ steps) =
    let rest = targets steps in
    if is_handoff step.tool then step.config.workflow_id ∷ rest else rest

abbrev pub handoff_targets : List PackedWorkflow → List (Option ℕ)
handoff_targets [] = []
handoff_targets (w ∷ ws) = targets w.steps ++ handoff_targets ws

abbrev pub is_source : List ℕ → Option ℕ → Bool
is_source ids none = false
is_source ids (some id) = occurs id ids

abbrev pub all_sources : List ℕ → List (Option ℕ) → Bool
all_sources ids [] = true
all_sources ids (t ∷ ts) = is_source ids t && all_sources ids ts

abbrev pub is_empty : List (Option ℕ) → Bool
is_empty [] = true
is_empty (t ∷ ts) = false

-- `validate_references_and_names`
unfoldable pub is_valid : Package → Bool
is_valid p =
    let ids = source_ids p.workflows in
    let ts = handoff_targets p.workflows in
    distinct_names (map (λ d. d.name) p.datasets)
    && distinct_ids ids
    && (is_empty ts || length ids == length p.workflows)
    && all_sources ids ts

-- A workflow of the package, and the id of the workflow that was created for it.
abbrev pub Imported : Type 0
Imported = PackedWorkflow × ℕ

abbrev pub has_source : ℕ → Option ℕ → Bool
has_source k none = false
has_source k (some id) = id == k

-- workflow_id_map.get(k): the last workflow with a source id counts.
abbrev pub target_of : List Imported → ℕ → Option ℕ
target_of [] k = none
target_of ((w, id) ∷ rest) k =
    or_first (target_of rest k) (if has_source k w.source_id then some id else none)

abbrev pub set_target : Step → ℕ → Step
set_target step id = record step { config = record step.config { workflow_id = some id } }

abbrev pub and_step : Step → Result (List Step) → Result (List Step)
and_step step (ok steps) = ok (step ∷ steps)
and_step step (err e) = err e

abbrev pub redirected : Option ℕ → Step → Result (List Step) → Result (List Step)
redirected none step rest =
    err (Error.conflict "imported handoff target is not present in the package")
redirected (some id) step rest = and_step (set_target step id) rest

-- The loop over the steps of a workflow.
unfoldable pub retarget : List Imported → List Step → Result (List Step)
retarget imported [] = ok []
retarget imported (step ∷ steps) =
    let rest = retarget imported steps in
    if is_handoff step.tool
    then redirected (target_of imported (default 0 step.config.workflow_id)) step rest
    else and_step step rest

abbrev pub has_handoff : List Step → Bool
has_handoff [] = false
has_handoff (step ∷ steps) = is_handoff step.tool || has_handoff steps

-- UPDATE workflows SET definition=? WHERE id=?
abbrev pub set_steps : ℕ → List Step → Db → Db
set_steps id steps s = record s {
  workflows = update id (λ w. record w { steps = steps }) s.workflows;
}

unfoldable pub retarget_all : List Imported → List Imported → Exec (Unit {0})
unfolding retarget
retarget_all imported [] = pure tt
retarget_all imported ((w, id) ∷ rest) = do
  steps ← lift (retarget imported w.steps)
  when (has_handoff w.steps) (modify (set_steps id steps))
  retarget_all imported rest

abbrev pub is_supported : Package → Bool
is_supported p = str_eq p.format "agentops-project" && p.version == 1

module _ (naming : Naming) where
  -- The workflows as they are created, in the order of the package.
  unfoldable pub import_workflows : ℕ → List PackedWorkflow → Exec (List Imported)
  unfolding create_workflow
  import_workflows project_id [] = pure []
  import_workflows project_id (w ∷ ws) = do
    created ← create_workflow naming.strip project_id w.name w.steps
    rest ← import_workflows project_id ws
    pure ((w, created.0) ∷ rest)

  -- The project and its workflows.
  unfoldable pub import_flows : String → List PackedWorkflow → Exec (ℕ × List Imported)
  unfolding create_project import_workflows retarget_all
  import_flows name workflows = do
    project ← create_project name
    imported ← import_workflows project.0 workflows
    retarget_all imported imported
    pure (project.0, imported)

  unfoldable pub import_datasets : ℕ → List PackedDataset → Bench (List ℕ)
  unfolding create_dataset
  import_datasets project_id [] c = (ok [], c)
  import_datasets project_id (d ∷ ds) c =
      let id = c.datasets.next in
      chain (create_dataset naming project_id d.name d.cases)
        (λ created. chain (import_datasets project_id ds) λ ids c'. (ok (id ∷ ids), c')) c

  -- `import_project`: the project, and the ids of the workflows and datasets that were created.
  unfoldable pub import_project : Package → Option String → Bench (ℕ × List ℕ × List ℕ)
  unfolding import_flows import_datasets
  import_project p name c =
      if not (is_supported p)
      then (err (Error.conflict "unsupported AgentOps project package"), c)
      else chain (on_db (import_flows (id_or p.project_name name) p.workflows))
          (λ flows.
            chain (import_datasets flows.0 p.datasets)
              λ ids c'. (ok (flows.0, map (λ w. w.1) flows.1, ids), c'))
          c
