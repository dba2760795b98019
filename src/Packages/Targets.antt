-- ===== src/Packages/Targets.antt =====
-- The handoff targets of a package, and what the loop of `import_project` finds for them.
use agentops_control_plane.Base.{
  ℕ, true, false, ◌≡◌, refl, ap, Option, none, some, List, [], ◌∷◌, ◌++◌, map, occurs, arith,
  Bool-cases, Option-cases, inl, inr, if◌then◌else◌, ◌⊎◌, eq_of_==,
}
use agentops_control_plane.Base.Sorting.{All}
use agentops_control_plane.Store.Rows.{Step}
use agentops_control_plane.Store.Exec.{ok}
use agentops_control_plane.Runs.Tools.{default}
use agentops_control_plane.Packages.{
  PackedWorkflow, Imported, source_ids, is_handoff, targets, all_sources, target_of, has_source,
  and_id, retarget, has_handoff,
}

abbrev pub packed : List Imported → List PackedWorkflow
packed imported = map (λ i. i.0) imported

-- A step whose handoff goes to the workflow that was created for its target.
abbrev pub redirect : List Imported → Step → Step
redirect imported step =
    let target = target_of imported (default 0 step.config.workflow_id) in
    if is_handoff step.tool
    then record step { config = record step.config { workflow_id = target } }
    else step

and_id-occurs :
    (k : ℕ) (source : Option ℕ) (ids : List ℕ)
    → occurs k (and_id source ids) ≡ true
    → has_source k source ≡ false
    → occurs k ids ≡ true
and_id-occurs k none ids h other = h
and_id-occurs k (some id) ids h other = ground arith

target_of-found :
    (imported : List Imported) (k : ℕ)
    → occurs k (source_ids (packed imported)) ≡ true
    → (id : ℕ) × (target_of imported k ≡ some id)
target_of-found [] k h = absurd (ground arith)
target_of-found ((w, id) ∷ rest) k h = elim (Option-cases (target_of rest k)) [
  | inr (later, found) ↦ (later, rw found refl)
  | inl absent ↦ elim (Bool-cases (has_source k w.source_id)) [
    | inl own ↦ (id, rw (absent, own) refl)
    | inr other ↦
        let left = and_id-occurs k w.source_id (source_ids (packed rest)) h other in
        let (later, found) = target_of-found rest k left in (later, rw found refl)
  ]
]

-- A workflow of the package has this source id, and `id` is that of the workflow created for it.
abbrev pub IsCopy : List Imported → ℕ → ℕ → Type 0
IsCopy [] k id = ⊥
IsCopy ((w, j) ∷ rest) k id = ((w.source_id ≡ some k) × (j ≡ id)) ⊎ IsCopy rest k id

has_source-eq : (k : ℕ) (source : Option ℕ) → has_source k source ≡ true → source ≡ some k
has_source-eq k none h = absurd (ground arith)
has_source-eq k (some id) h = ap some (eq_of_== id k h)

pub target_of-IsCopy :
    (imported : List Imported) (k id : ℕ) → target_of imported k ≡ some id → IsCopy imported k id
target_of-IsCopy [] k id h = absurd (ground arith)
target_of-IsCopy ((w, j) ∷ rest) k id h = elim (Option-cases (target_of rest k)) [
  | inr (later, found) ↦ inr (target_of-IsCopy rest k id (ground arith))
  | inl absent ↦ elim (Bool-cases (has_source k w.source_id)) [
    | inl own ↦ inl (has_source-eq k w.source_id own, ground arith)
    | inr other ↦ absurd (ground arith)
  ]
]

pub all_sources-append :
    (ids : List ℕ) (xs ys : List (Option ℕ))
    → all_sources ids (xs ++ ys) ≡ true
    → (all_sources ids xs ≡ true) × (all_sources ids ys ≡ true)
all_sources-append ids [] ys h = (refl, h)
all_sources-append ids (x ∷ xs) ys h = ground (arith, all_sources-append ids xs ys)

pub retarget-redirect :
    (imported : List Imported) (steps : List Step)
    → all_sources (source_ids (packed imported)) (targets steps) ≡ true
    → retarget imported steps ≡ ok (map (redirect imported) steps)
unfolding retarget
retarget-redirect imported [] h = refl
retarget-redirect imported (step ∷ steps) h = elim (Bool-cases (is_handoff step.tool)) [
  | inr plain ↦ rw (plain, retarget-redirect imported steps (ground arith)) refl
  | inl goes ↦ elim (Option-cases step.config.workflow_id) [
    | inl missing ↦ absurd (ground arith)
    | inr (k, given) ↦
        let (id, found) = target_of-found imported k (ground arith) in
        rw (goes, given, found, retarget-redirect imported steps (ground arith)) refl
  ]
]

pub redirect-plain :
    (imported : List Imported) (steps : List Step)
    → has_handoff steps ≡ false
    → map (redirect imported) steps ≡ steps
redirect-plain imported [] h = refl
redirect-plain imported (step ∷ steps) h = ground (arith, redirect-plain imported steps)

-- Each handoff among the steps has a target: the workflow that was created for the one it went to.
abbrev pub AllGo : List Imported → List Step → Type 0
AllGo imported steps =
    All
      (λ step.
        is_handoff step.tool ≡ true
        → (id : ℕ) × (target_of imported (default 0 step.config.workflow_id) ≡ some id)
          × IsCopy imported (default 0 step.config.workflow_id) id)
      steps

pub targets-AllGo :
    (imported : List Imported) (steps : List Step)
    → all_sources (source_ids (packed imported)) (targets steps) ≡ true
    → AllGo imported steps
targets-AllGo imported [] h = tt
targets-AllGo imported (step ∷ steps) h = (
  (λ goes. elim (Option-cases step.config.workflow_id) [
    | inl missing ↦ absurd (ground arith)
    | inr (k, given) ↦
        let (id, found) = target_of-found imported k (ground arith) in
        rw given (id, found, target_of-IsCopy imported k id found)
  ]),
  targets-AllGo imported steps (ground arith),
)
