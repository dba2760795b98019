-- ===== src/Packages/Exported.antt =====
-- The package that `export_project` of src/agentops/service.py writes of a project whose handoffs stay
-- in it, and the validator of packages.
use agentops_control_plane.Base.{
  Bool, ℕ, zero, suc, ◌<◌, String, true, ◌≡◌, refl, sym, ◌∙◌, Option, some, List, [], ◌∷◌, ◌++◌,
  map, keep, length, one_of, str_eq, eq_iff, ◌==◌, ==_refl, eq_of_==, arith, Bool-cases,
  Option-cases, inl, inr,
}
use agentops_control_plane.Base.Table.{newest_first, rows_below}
use agentops_control_plane.Base.Sorting.{All, Stored, Stored-rows_below}
use agentops_control_plane.Store.Rows.{Workflow}
use agentops_control_plane.Store.Exec.{ok}
use agentops_control_plane.Datasets.{Dataset, Catalog}
use agentops_control_plane.Packages.{
  Package, source_ids, targets, handoff_targets, all_sources, distinct_ids, distinct_names,
  is_valid, is_supported,
}
use agentops_control_plane.Packages.Export.{
  reversed, pack, pack_dataset, of_project, data_of_project, packed_workflows, packed_datasets,
  export_project,
}
use agentops_control_plane.Packages.Keys.{
  keys, own, source_ids-pack, length-keys, occurs-reversed, distinct_ids-reversed, own-below,
  own-distinct,
}

All-append : {A : Type 0} (P : A → Type 0) (xs ys : List A) → All P xs → All P ys → All P (xs ++ ys)
All-append P [] ys h k = k
All-append P (x ∷ xs) ys h k = (h.0, All-append P xs ys h.1 k)

pub All-reversed : {A : Type 0} (P : A → Type 0) (xs : List A) → All P xs → All P (reversed xs)
All-reversed P [] h = tt
All-reversed P (x ∷ xs) h = All-append P (reversed xs) (x ∷ []) (All-reversed P xs h.1) (h.0, tt)

-- What is kept has passed the test.
pub All-keep-map :
    {A : Type 0} (p : A → Bool) (P Q : A → Type 0) (xs : List A)
    → ((x : A) → P x → p x ≡ true → Q x)
    → All P xs
    → All Q (keep p xs)
All-keep-map p P Q [] f h = tt
All-keep-map p P Q (x ∷ xs) f h = elim (Bool-cases (p x)) [
  | inl kept ↦ rw kept (f x h.0 kept, All-keep-map p P Q xs f h.1)
  | inr left ↦ rw left (All-keep-map p P Q xs f h.1)
]

-- UNIQUE(project_id, name) of the datasets.
abbrev pub IsUnique : (ℕ → Option Dataset) → Type 0
IsUnique row =
    (j k : ℕ) (d e : Dataset)
    → row j ≡ some d
    → row k ≡ some e
    → d.project_id ≡ e.project_id
    → d.name ≡ e.name
    → j ≡ k

module _ (project_id : ℕ) where
  -- A handoff target that is a workflow of the project.
  abbrev pub IsWithin : ℕ → (ℕ → Option Workflow) → Option ℕ → Type 0
  IsWithin n row t =
      (k : ℕ) × (w : Workflow) × (t ≡ some k)
      × (k < n)
      × (row k ≡ some w)
      × ((w.project_id == project_id) ≡ true)

  all_sources-IsWithin :
      (n : ℕ) (row : ℕ → Option Workflow) (ts : List (Option ℕ))
      → All (IsWithin n row) ts
      → all_sources (keys (reversed (own project_id n row))) ts ≡ true
  all_sources-IsWithin n row [] h = refl
  all_sources-IsWithin n row (t ∷ ts) ((k, w, e, lt, there, mine), h) =
      let found =
        occurs-reversed k (own project_id n row) ∙ own-below project_id n row k w lt there mine in
      rw (e, found) (all_sources-IsWithin n row ts h)

  -- The handoffs of a workflow stay in the project.
  abbrev IsClosed : ℕ → (ℕ → Option Workflow) → ℕ × Workflow → Type 0
  IsClosed n row r = All (IsWithin n row) (targets r.1.steps)

  handoff_targets-IsWithin :
      (n : ℕ) (row : ℕ → Option Workflow) (rows : List (ℕ × Workflow))
      → All (IsClosed n row) rows
      → All (IsWithin n row) (handoff_targets (map pack rows))
  handoff_targets-IsWithin n row [] h = tt
  handoff_targets-IsWithin n row (r ∷ rows) h =
      All-append (IsWithin n row) (targets r.1.steps) (handoff_targets (map pack rows)) h.0
        (handoff_targets-IsWithin n row rows h.1)

  abbrev names : ℕ → (ℕ → Option Dataset) → List String
  names n row =
      map (λ d. d.name) (map pack_dataset (keep (data_of_project project_id) (rows_below n row)))

  -- A dataset of the project has this name.
  abbrev Named : ℕ → (ℕ → Option Dataset) → String → Type 0
  Named n row name =
      (k : ℕ) × (d : Dataset) × (k < n)
      × (row k ≡ some d)
      × ((d.project_id == project_id) ≡ true)
      × (name ≡ d.name)

  Named-suc :
      (n : ℕ) (row : ℕ → Option Dataset) (name : String) → Named n row name → Named (suc n) row name
  Named-suc n row name (k, d, lt, there, mine, same) = (k, d, omega arith, there, mine, same)

  one_of-Named :
      (n : ℕ) (row : ℕ → Option Dataset) (name : String)
      → one_of name (names n row) ≡ true
      → Named n row name
  unfolding rows_below
  one_of-Named zero row name h = absurd (ground arith)
  one_of-Named (suc n) row name h = elim (Option-cases (row n)) [
    | inl absent ↦ Named-suc n row name (one_of-Named n row name (ground arith))
    | inr (d, there) ↦ elim (Bool-cases (d.project_id == project_id)) [
      | inr other ↦ Named-suc n row name (one_of-Named n row name (ground arith))
      | inl mine ↦ elim (Bool-cases (str_eq name d.name)) [
        | inl same ↦ (n, d, omega arith, there, mine, (eq_iff name d.name).0 same)
        | inr differs ↦ Named-suc n row name (one_of-Named n row name (ground arith))
      ]
    ]
  ]

  names-distinct :
      (n : ℕ) (row : ℕ → Option Dataset) → IsUnique row → distinct_names (names n row) ≡ true
  unfolding rows_below
  names-distinct zero row unique = refl
  names-distinct (suc n) row unique = elim (Option-cases (row n)) [
    | inl absent ↦ rw absent (names-distinct n row unique)
    | inr (d, there) ↦ elim (Bool-cases (d.project_id == project_id)) [
      | inr other ↦ rw (there, other) (names-distinct n row unique)
      | inl mine ↦ elim (Bool-cases (one_of d.name (names n row))) [
        | inr new ↦ rw (there, mine, new) (names-distinct n row unique)
        | inl twice ↦
            let (k, e, lt, at, yours, same) = one_of-Named n row d.name twice in
            let projects =
              eq_of_== d.project_id project_id mine
              ∙ sym (eq_of_== e.project_id project_id yours) in
            absurd (omega (arith, lt, unique n k d e there at projects same))
      ]
    ]
  ]

-- A project of the database: the handoffs of its workflows stay in it, and no two datasets of one
-- project have the same name.
pub record IsSound (c : Catalog) (project_id : ℕ) : Type 0 where
  pub closed :
      (k : ℕ) (w : Workflow)
      → c.db.workflows.row k ≡ some w
      → (w.project_id == project_id) ≡ true
      → All (IsWithin project_id c.db.workflows.next c.db.workflows.row) (targets w.steps)
  pub unique : IsUnique c.datasets.row

is_valid-parts :
    (p : Package)
    → distinct_names (map (λ d. d.name) p.datasets) ≡ true
    → distinct_ids (source_ids p.workflows) ≡ true
    → length (source_ids p.workflows) ≡ length p.workflows
    → all_sources (source_ids p.workflows) (handoff_targets p.workflows) ≡ true
    → is_valid p ≡ true
unfolding is_valid
is_valid-parts p names ids lengths sources =
    rw (names, ids, lengths, ==_refl (length p.workflows), sources) (ground arith)

-- Where all handoffs of a project go to workflows of the project and the names of its datasets
-- differ, what is exported of it is a package of its workflows under its name, that the validator
-- lets through and that the import supports.
pub export_project-is_valid :
    (c : Catalog) (project_id : ℕ) (name : String)
    → c.db.projects.row project_id ≡ some name
    → IsSound c project_id
    → (p : Package) × (export_project project_id c ≡ (ok p, c))
      × (is_valid p ≡ true)
      × (is_supported p ≡ true)
      × (p.project_name ≡ name)
      × (p.workflows ≡ packed_workflows project_id c)
unfolding export_project packed_workflows packed_datasets newest_first
export_project-is_valid c project_id name found sound =
    let n = c.db.workflows.next in
    let row = c.db.workflows.row in
    let rows = own project_id n row in
    let ids = source_ids-pack (reversed rows) in
    let closed =
      All-keep-map (of_project project_id) (Stored row) (IsClosed project_id n row)
        (rows_below n row) (λ r there mine. sound.closed r.0 r.1 there mine)
        (Stored-rows_below n row) in
    let within =
      handoff_targets-IsWithin project_id n row (reversed rows)
        (All-reversed (IsClosed project_id n row) rows closed) in
    let p : Package = record {
      format = "agentops-project";
      version = 1;
      project_name = name;
      workflows = packed_workflows project_id c;
      datasets = packed_datasets project_id c;
    } in
    (
      p,
      rw found refl,
      is_valid-parts p (names-distinct project_id c.datasets.next c.datasets.row sound.unique)
          (rw ids (distinct_ids-reversed rows (own-distinct project_id n row)))
          (rw ids (length-keys (reversed rows)))
          (rw ids (
            all_sources-IsWithin project_id n row (handoff_targets (map pack (reversed rows)))
              within)),
      refl,
      refl,
      refl,
    )
