-- ===== src/Tests/Packages.antt =====
-- The creation of workflows, and the import of a package with a handoff.
use agentops_control_plane.Base.{
  ℕ, ◌<◌, String, true, false, some, none, [], ◌∷◌, ◌≡◌, refl, List, arith, Bool-cases, inl, inr,
  Option, if◌then◌else◌, ◌==◌,
}
use agentops_control_plane.Base.Table.{insert, empty, any_row, any_below}
use agentops_control_plane.Base.Sorting.{All}
use agentops_control_plane.Runs.Tools.{default}
use agentops_control_plane.Store.Rows.{Step, Workflow, handoff, uppercase}
use agentops_control_plane.Store.Exec.{Db, ok}
use agentops_control_plane.Datasets.{Catalog, Naming}
use agentops_control_plane.Projects.{create_workflow, is_named}
use agentops_control_plane.Projects.Versions.{create_workflow-version}
use agentops_control_plane.Packages.{targets, Package, Imported, is_valid, import_flows}
use agentops_control_plane.Packages.Targets.{packed, AllGo}
use agentops_control_plane.Packages.Import.{Redirected}
use agentops_control_plane.Packages.Export.{export_project, packed_workflows}
use agentops_control_plane.Packages.Exported.{IsSound, IsWithin}
use agentops_control_plane.Packages.RoundTrip.{export_project-import_flows}
use agentops_control_plane.Packages.Flows.{import_flows-Redirected}
use agentops_control_plane.Tests.{db, workflow, step, no_config}

abbrev same : String → String
same s = s

abbrev trimmed : String → String
trimmed s = "pipeline"

create_workflow-version_example :
    (w : Workflow) × (s' : Db) × (create_workflow same 1 "pipeline" (step uppercase ∷ []) db
      ≡ (ok (2, w), s'))
    × (s'.workflows.row 2 ≡ some w)
    × (w.project_id ≡ 1)
    × (w.name ≡ "pipeline")
    × (w.steps ≡ step uppercase ∷ [])
    × ((k : ℕ) (old : Workflow)
        → k < db.workflows.next
        → db.workflows.row k ≡ some old
        → (s'.workflows.row k ≡ some old)
          × (is_named 1 "pipeline" old ≡ true → old.version < w.version))
create_workflow-version_example =
    create_workflow-version 1 "pipeline" same db "project" (step uppercase ∷ []) refl refl

workflow-of : (o : Option Workflow) (w : Workflow) → o ≡ some w → default workflow o ≡ w
workflow-of none w e = absurd (ground arith)
workflow-of (some v) w e = ground arith

none_named : (j : ℕ) (w : Workflow) → db.workflows.row j ≡ some w → is_named 1 " pipeline" w ≡ false
none_named j w there =
    let stored : default workflow (if j == 1 then some workflow else none) ≡ w =
      workflow-of (db.workflows.row j) w there in
    elim (Bool-cases (j == 1)) [
      | inl first ↦ let this : workflow ≡ w = rw first at stored in rw (← this) refl
      | inr later ↦ let this : workflow ≡ w = rw later at stored in rw (← this) refl
    ]

abbrev to_second : Step
to_second = record (step handoff) { config = record no_config { workflow_id = some 7 } }

abbrev sent : Package
sent = record {
  format = "agentops-project";
  version = 1;
  project_name = "imported";
  workflows =
      record { source_id = some 3; name = "first"; steps = to_second ∷ [] }
      ∷ record { source_id = some 7; name = "second"; steps = step uppercase ∷ [] }
      ∷ [];
  datasets = [];
}

abbrev naming : Naming
naming = record { strip = same; case_name = λ n. "case" }

import_flows-Redirected_example :
    (imported : List Imported) × (s' : Db) × (import_flows naming "imported" sent.workflows db
      ≡ (ok (2, imported), s'))
    × (s'.projects.row 2 ≡ some "imported")
    × (packed imported ≡ sent.workflows)
    × All (Redirected 2 imported s'.workflows) imported
    × All (λ i. AllGo imported i.0.steps) imported
    × ((k : ℕ) → k < db.workflows.next → s'.workflows.row k ≡ db.workflows.row k)
unfolding is_valid any_row any_below
import_flows-Redirected_example =
    import_flows-Redirected naming sent "imported" db refl (refl, (refl, tt)) refl

-- A project whose second workflow hands over to its first.
abbrev handing_over : Workflow
handing_over = record workflow {
  name = "front";
  steps = record (step handoff) { config = record no_config { workflow_id = some 1 } } ∷ [];
}

-- A workflow of another project, which hands over to itself.
abbrev elsewhere : Workflow
elsewhere = record handing_over {
  project_id = 2;
  steps = record (step handoff) { config = record no_config { workflow_id = some 3 } } ∷ [];
}

abbrev catalog : Catalog
catalog = record {
  db = record db { workflows = insert elsewhere (insert handing_over (insert workflow empty)) };
  datasets = empty;
  evaluations = empty;
}

-- What holds of the three workflows holds of every row.
every_row :
    (P : Workflow → Type 0)
    → P workflow
    → P handing_over
    → P elsewhere
    → (k : ℕ) (w : Workflow) → catalog.db.workflows.row k ≡ some w
    → P w
every_row P first second third k w there =
    let stored = workflow-of (catalog.db.workflows.row k) w there in
    elim (Bool-cases (k == 3)) [
      | inl here ↦ let this : elsewhere ≡ w = rw here at stored in rw (← this) third
      | inr other ↦ elim (Bool-cases (k == 2)) [
        | inl here ↦ let this : handing_over ≡ w = rw (other, here) at stored in rw (← this) second
        | inr neither ↦ elim (Bool-cases (k == 1)) [
          | inl here ↦
              let this : workflow ≡ w = rw (other, neither, here) at stored in rw (← this) first
          | inr last ↦
              let this : workflow ≡ w = rw (other, neither, last) at stored in rw (← this) first
        ]
      ]
    ]

catalog-IsSound : IsSound catalog 1
catalog-IsSound = record {
  closed =
      every_row
        (λ x.
          (x.project_id == 1) ≡ true
          → All (IsWithin 1 4 catalog.db.workflows.row) (targets x.steps))
        (λ mine. tt) (λ mine. ((1, workflow, refl, omega arith, refl, refl), tt))
        (λ theirs. absurd (ground arith));
  unique = λ j k d e there. absurd (ground arith);
}

export_project-import_flows_example :
    (p : Package) × (imported : List Imported) × (s' : Db) × (export_project 1 catalog
      ≡ (ok p, catalog))
    × (is_valid p ≡ true)
    × (import_flows naming "copy" p.workflows catalog.db ≡ (ok (2, imported), s'))
    × (packed imported ≡ packed_workflows 1 catalog)
    × All (Redirected 2 imported s'.workflows) imported
    × All (λ i. AllGo imported i.0.steps) imported
    × ((k : ℕ) → k < catalog.db.workflows.next → s'.workflows.row k ≡ catalog.db.workflows.row k)
unfolding any_row any_below
export_project-import_flows_example =
    export_project-import_flows naming catalog 1 "project" "copy" refl catalog-IsSound
      (λ k w there mine. refl) refl
