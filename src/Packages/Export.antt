-- ===== src/Packages/Export.antt =====
-- `export_project` of src/agentops/service.py. The version of a workflow, which the import does not
-- read, is left out.
use agentops_control_plane.Base.{ℕ, Bool, some, List, [], ◌∷◌, ◌++◌, map, keep, ◌==◌}
use agentops_control_plane.Base.Table.{newest_first}
use agentops_control_plane.Store.Rows.{Workflow}
use agentops_control_plane.Store.Exec.{ok}
use agentops_control_plane.Runs.Agent.{get_project}
use agentops_control_plane.Datasets.{Case, Posted, Dataset, Catalog, Bench, chain, on_db}
use agentops_control_plane.Packages.{PackedWorkflow, PackedDataset, Package}

abbrev pub reversed {ℓ} : {A : Type ℓ} → List A → List A
reversed [] = []
reversed (x ∷ xs) = reversed xs ++ x ∷ []

abbrev pub pack : ℕ × Workflow → PackedWorkflow
pack (id, w) = record { source_id = some id; name = w.name; steps = w.steps }

abbrev pub posted : Case → Posted
posted c = record { id = some c.id; body = c.body }

abbrev pub pack_dataset : ℕ × Dataset → PackedDataset
pack_dataset (id, d) = record { name = d.name; cases = map posted d.cases }

-- `list_workflows` and `list_datasets` of a project, the newest first.
abbrev pub of_project : ℕ → ℕ × Workflow → Bool
of_project project_id row = row.1.project_id == project_id

abbrev pub data_of_project : ℕ → ℕ × Dataset → Bool
data_of_project project_id row = row.1.project_id == project_id

unfoldable pub packed_workflows : ℕ → Catalog → List PackedWorkflow
unfolding newest_first
packed_workflows project_id c =
    map pack (reversed (keep (of_project project_id) (newest_first c.db.workflows)))

unfoldable pub packed_datasets : ℕ → Catalog → List PackedDataset
unfolding newest_first
packed_datasets project_id c =
    map pack_dataset (keep (data_of_project project_id) (newest_first c.datasets))

unfoldable pub export_project : ℕ → Bench Package
unfolding get_project packed_workflows packed_datasets
export_project project_id = chain (on_db (get_project project_id)) λ name c. (
  ok (record {
    format = "agentops-project";
    version = 1;
    project_name = name;
    workflows = packed_workflows project_id c;
    datasets = packed_datasets project_id c;
  }),
  c,
)
