-- ===== src/Projects.antt =====
-- Projects and workflows of src/agentops/service.py: `create_project` and `create_workflow`. A
-- project is its name here; its description is left out.
pub mod Versions
use agentops_control_plane.Base.{
  ℕ, zero, suc, ◌+◌, max, String, Bool, ◌&&◌, Option, none, some, List, [], ◌∷◌, ◌==◌, str_eq,
  if◌then◌else◌,
}
use agentops_control_plane.Base.Table.{insert, any_row, newest_first}
use agentops_control_plane.Store.Rows.{Step, Workflow}
use agentops_control_plane.Store.Exec.{Db, Error, Exec, pure, gets, modify, raise_if, ◌>>=◌, ◌>>◌}
use agentops_control_plane.Runs.Rows.{get_workflow}
use agentops_control_plane.Runs.Agent.{get_project}

-- The id comes back with the project.
unfoldable pub create_project : String → Exec (ℕ × String)
unfolding get_project
create_project name = do
  taken ← gets (λ s. any_row (λ other. str_eq other name) s.projects)
  raise_if taken (Error.conflict "project name already exists")
  project_id ← gets (λ s. s.projects.next)
  modify λ s. record s { projects = insert name s.projects }
  project ← get_project project_id
  pure (project_id, project)

abbrev pub is_named : ℕ → String → Workflow → Bool
is_named project_id name w = w.project_id == project_id && str_eq w.name name

-- COALESCE(MAX(version), 0) over the workflows of a project with a name.
unfoldable pub max_version : ℕ → String → List (ℕ × Workflow) → ℕ
max_version project_id name [] = 0
max_version project_id name ((id, w) ∷ rest) =
    let others = max_version project_id name rest in
    if is_named project_id name w then max w.version others else others

-- UNIQUE(project_id, name, version)
abbrev pub is_version : ℕ → String → ℕ → Workflow → Bool
is_version project_id name version w = is_named project_id name w && w.version == version

module _ (strip : String → String) where
  unfoldable pub create_workflow : ℕ → String → List Step → Exec (ℕ × Workflow)
  unfolding get_project get_workflow max_version newest_first
  create_workflow project_id name steps = do
    project ← get_project project_id
    version ← gets (λ s. max_version project_id name (newest_first s.workflows) + 1)
    taken ← gets (λ s. any_row (is_version project_id (strip name) version) s.workflows)
    raise_if taken Error.integrity
    workflow_id ← gets (λ s. s.workflows.next)
    modify λ s. record s {
      workflows =
          insert
            (record {
              project_id = project_id;
              name = strip name;
              version = version;
              steps = steps;
            })
            s.workflows;
    }
    workflow ← get_workflow workflow_id
    pure (workflow_id, workflow)
