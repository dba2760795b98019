-- ===== src/Packages/RoundTrip.antt =====
-- A project that is exported and imported again: `export_project`, the validator of packages and
-- `import_project` of src/agentops, one after the other.
use agentops_control_plane.Base.{
  ℕ, String, false, ◌≡◌, ◌<◌, true, List, [], ◌∷◌, map, keep, some, str_eq, ◌==◌,
}
use agentops_control_plane.Base.Table.{any_row, rows_below, newest_first}
use agentops_control_plane.Base.Sorting.{All, Stored, Stored-rows_below}
use agentops_control_plane.Store.Rows.{Workflow}
use agentops_control_plane.Store.Exec.{Db, ok}
use agentops_control_plane.Datasets.{Catalog, Naming}
use agentops_control_plane.Packages.{Package, Imported, is_valid, import_flows}
use agentops_control_plane.Packages.Targets.{packed, AllGo}
use agentops_control_plane.Packages.Import.{AllPlain, Redirected}
use agentops_control_plane.Packages.Flows.{import_flows-Redirected}
use agentops_control_plane.Packages.Export.{
  reversed, pack, of_project, packed_workflows, export_project,
}
use agentops_control_plane.Packages.Exported.{
  IsSound, All-reversed, All-keep-map, export_project-is_valid,
}

AllPlain-pack :
    (naming : Naming) (rows : List (ℕ × Workflow))
    → All (λ r. naming.strip r.1.name ≡ r.1.name) rows
    → AllPlain naming (map pack rows)
AllPlain-pack naming [] h = tt
AllPlain-pack naming (r ∷ rows) h = (h.0, AllPlain-pack naming rows h.1)

-- The names of a project's workflows have no blanks around them.
abbrev pub Plain : Naming → Catalog → ℕ → Type 0
Plain naming c project_id =
    (k : ℕ) (w : Workflow)
    → c.db.workflows.row k ≡ some w
    → (w.project_id == project_id) ≡ true
    → naming.strip w.name ≡ w.name

packed_workflows-AllPlain :
    (naming : Naming) (c : Catalog) (project_id : ℕ)
    → Plain naming c project_id
    → AllPlain naming (packed_workflows project_id c)
unfolding packed_workflows newest_first
packed_workflows-AllPlain naming c project_id plain =
    let row = c.db.workflows.row in
    let rows = rows_below c.db.workflows.next row in
    let own = keep (of_project project_id) rows in
    let P = λ (r : ℕ × Workflow). naming.strip r.1.name ≡ r.1.name in
    AllPlain-pack naming (reversed own) (
      All-reversed P own (
        All-keep-map (of_project project_id) (Stored row) P rows
          (λ r there mine. plain r.0 r.1 there mine) (Stored-rows_below c.db.workflows.next row)))

-- A project is exported and the package imported under a new name, where all handoffs of the project
-- go to workflows of it, no two datasets of one project have the same name, and the names of its
-- workflows have no blanks around them: the package is valid, and the import makes a project with a copy of each workflow,
-- in the order of the export, with the same name. A copy has the steps of the original, but that
-- each handoff goes to the copy of the workflow that it went to. The workflows that were there stay.
pub export_project-import_flows :
    (naming : Naming) (c : Catalog) (project_id : ℕ) (name new_name : String)
    → c.db.projects.row project_id ≡ some name
    → IsSound c project_id
    → Plain naming c project_id
    → any_row (λ other. str_eq other new_name) c.db.projects ≡ false
    → (p : Package) × (imported : List Imported) × (s' : Db) × (export_project project_id c
        ≡ (ok p, c))
      × (is_valid p ≡ true)
      × (import_flows naming new_name p.workflows c.db ≡ (ok (c.db.projects.next, imported), s'))
      × (packed imported ≡ packed_workflows project_id c)
      × All (Redirected c.db.projects.next imported s'.workflows) imported
      × All (λ i. AllGo imported i.0.steps) imported
      × ((k : ℕ) → k < c.db.workflows.next → s'.workflows.row k ≡ c.db.workflows.row k)
export_project-import_flows naming c project_id name new_name found sound plain free =
    let (p, exported, valid, supported, named, flows) =
      export_project-is_valid c project_id name found sound in
    let names = packed_workflows-AllPlain naming c project_id plain in
    let (imported, s', e, project, same, redirected, go, older) =
      import_flows-Redirected naming p new_name c.db valid (rw flows names) free in
    (p, imported, s', exported, valid, e, rw flows at same, redirected, go, older)
