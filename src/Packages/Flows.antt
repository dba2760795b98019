-- ===== src/Packages/Flows.antt =====
-- `import_project` of src/agentops/service.py up to the datasets, on a package that the schema lets
-- through.
use agentops_control_plane.Base.{
  ℕ, ◌<◌, String, true, false, ◌≡◌, refl, ◌∙◌, some, List, [], ◌∷◌, arith, ==_refl, str_eq,
}
use agentops_control_plane.Base.Table.{any_row, insert}
use agentops_control_plane.Base.Sorting.{All}
use agentops_control_plane.Store.Exec.{Db, ok}
use agentops_control_plane.Datasets.{Naming}
use agentops_control_plane.Packages.{
  Package, Imported, source_ids, targets, handoff_targets, all_sources, is_valid, import_flows,
}
use agentops_control_plane.Packages.Targets.{packed, all_sources-append, AllGo, targets-AllGo}
use agentops_control_plane.Packages.Import.{
  AllPlain, Redirected, import_workflows-Made, retarget_all-Redirected,
}

module _ (ids : List ℕ) where
  -- The handoffs of a workflow go to workflows with these source ids.
  abbrev Known : Imported → Type 0
  Known i = all_sources ids (targets i.0.steps) ≡ true

  handoff_targets-Known :
      (imported : List Imported)
      → all_sources ids (handoff_targets (packed imported)) ≡ true
      → All Known imported
  handoff_targets-Known [] h = tt
  handoff_targets-Known ((w, id) ∷ rest) h =
      let (here, there) =
        all_sources-append ids (targets w.steps) (handoff_targets (packed rest)) h in
      (here, handoff_targets-Known rest there)

All-AllGo :
    (imported pairs : List Imported)
    → All (Known (source_ids (packed imported))) pairs
    → All (λ i. AllGo imported i.0.steps) pairs
All-AllGo imported [] h = tt
All-AllGo imported (i ∷ rest) h =
    (targets-AllGo imported i.0.steps h.0, All-AllGo imported rest h.1)

is_valid-sources :
    (p : Package)
    → is_valid p ≡ true
    → all_sources (source_ids p.workflows) (handoff_targets p.workflows) ≡ true
unfolding is_valid
is_valid-sources p h = ground arith

-- A package that its validator lets through, with names that have no blanks around them, under a
-- name that no project has: the project and all workflows of the package are created, in its order
-- and under their names. Their steps are those of the package, but that each handoff goes to the
-- workflow created for the one that it went to; it has a target, and the import never meets the
-- conflict of a missing one. Workflows that were there stay.
pub import_flows-Redirected :
    (naming : Naming) (p : Package) (name : String) (s : Db)
    → is_valid p ≡ true
    → AllPlain naming p.workflows
    → any_row (λ other. str_eq other name) s.projects ≡ false
    → (imported : List Imported) × (s' : Db) × (import_flows naming name p.workflows s
        ≡ (ok (s.projects.next, imported), s'))
      × (s'.projects.row s.projects.next ≡ some name)
      × (packed imported ≡ p.workflows)
      × All (Redirected s.projects.next imported s'.workflows) imported
      × All (λ i. AllGo imported i.0.steps) imported
      × ((k : ℕ) → k < s.workflows.next → s'.workflows.row k ≡ s.workflows.row k)
unfolding import_flows
import_flows-Redirected naming p name s valid plain free =
    let n = s.projects.next in
    let s₁ = record s { projects = insert name s.projects } in
    let found : s₁.projects.row n ≡ some name = rw (==_refl n) refl in
    let (imported, t, e, same, rising, made, older) =
      import_workflows-Made naming n name p.workflows s₁ found plain in
    let sources = is_valid-sources p valid in
    let known = handoff_targets-Known (source_ids (packed imported)) imported (rw same sources) in
    let (t', e', redirected, kept) =
      retarget_all-Redirected n imported imported s.workflows.next (record s₁ { workflows = t })
        known rising made in
    (
      imported,
      record s₁ { workflows = t' },
      rw (free, ==_refl n, e, e') refl,
      found,
      same,
      redirected,
      All-AllGo imported imported known,
      λ k lt. kept k lt ∙ older k lt,
    )
