-- ===== src/Listings/Scopes.antt =====
-- The scope of a caller's listings, and the access checks of the single rows.
use agentops_control_plane.Base.{
  ℕ, zero, suc, Bool, true, false, ◌&&◌, ◌≡◌, refl, sym, ◌∙◌, Option, none, some, List, [], ◌∷◌,
  map, keep, arith, Option-cases, inl, inr,
}
use agentops_control_plane.Base.Table.{holds}
use agentops_control_plane.Store.Rows.{Run, Workflow, Approval}
use agentops_control_plane.Store.Exec.{Result, ok, err}
use agentops_control_plane.Approvals.{Actor}
use agentops_control_plane.Datasets.{Dataset, Evaluation}
use agentops_control_plane.Schedules.{Schedule}
use agentops_control_plane.Accounts.{actor_project_ids}
use agentops_control_plane.Accounts.Roles.{occurs-project_ids_for_user}
use agentops_control_plane.Security.Access.{
  require_project_access, require_workflow_access, require_run_access, require_approval_access,
}
use agentops_control_plane.Service.{Service, Served}
use agentops_control_plane.Security.Checks.{
  project_access, workflow_access, run_access, approval_access, require_dataset_access,
  require_evaluation_access, require_schedule_access,
}
use agentops_control_plane.Listings.{Scope, take, unless_empty, in_scope, joined, joined_run}

abbrev pub is_ok {ℓ} : {A : Type ℓ} → Result A → Bool
is_ok (ok a) = true
is_ok (err e) = false

-- Does a check let the caller through?
abbrev pub passes : Served (Unit {0}) → Service → Bool
passes check v = is_ok (check v).0

module _ {ℓ} {A : Type ℓ} where
  -- In an empty scope nothing is selected anyway.
  keep-none : (p : A → Bool) (xs : List A) → ((x : A) → p x ≡ false) → keep p xs ≡ []
  keep-none p [] h = refl
  keep-none p (x ∷ xs) h = ground (arith, h x, keep-none p xs h)

  pub unless_empty-keep :
      (scope : Scope) (p : A → Bool) (xs : List A)
      → (scope ≡ some [] → (x : A) → p x ≡ false)
      → unless_empty scope (keep p xs) ≡ keep p xs
  unless_empty-keep none p xs h = refl
  unless_empty-keep (some []) p xs h = rw (keep-none p xs (h refl)) refl
  unless_empty-keep (some (i ∷ is)) p xs h = refl

  take-nil : (n : ℕ) → take {A = A} n [] ≡ []
  take-nil zero = refl
  take-nil (suc n) = refl

  pub unless_empty-take :
      (scope : Scope) (n : ℕ) (p : A → Bool) (xs : List A)
      → (scope ≡ some [] → (x : A) → p x ≡ false)
      → unless_empty scope (take n (keep p xs)) ≡ take n (keep p xs)
  unless_empty-take none n p xs h = refl
  unless_empty-take (some []) n p xs h = rw (keep-none p xs (h refl), take-nil n) refl
  unless_empty-take (some (i ∷ is)) n p xs h = refl

pub unless_empty-map :
    {A B : Type 0} (f : A → B) (scope : Scope) (xs : List A)
    → unless_empty scope (map f xs) ≡ map f (unless_empty scope xs)
unless_empty-map f none xs = refl
unless_empty-map f (some []) xs = refl
unless_empty-map f (some (i ∷ is)) xs = refl

-- Two conditions on a joined row.
pub holds-&& :
    {A : Type 0} (p q : A → Bool) (o : Option A)
    → holds (λ a. p a && q a) o ≡ (holds p o && holds q o)
holds-&& p q none = refl
holds-&& p q (some a) = refl

module _ (actor : Actor) (v : Service) where
  abbrev pub scope : Scope
  scope = actor_project_ids v.members actor

  -- The scope of a caller's listings has the projects that he may read.
  pub in_scope-project_access :
      (project_id : ℕ)
      → in_scope scope project_id ≡ passes (project_access actor project_id false) v
  unfolding actor_project_ids require_project_access
  in_scope-project_access p = ground (arith, occurs-project_ids_for_user v.members p actor.name)

  pub in_scope-workflow_access :
      (id : ℕ)
      → joined v.db id (λ w. in_scope scope w.project_id)
        ≡ passes (workflow_access actor id false) v
  unfolding require_workflow_access
  in_scope-workflow_access id = elim (Option-cases (v.db.workflows.row id)) [
    | inl absent ↦ rw absent refl
    | inr (w, there) ↦ rw there (in_scope-project_access w.project_id)
  ]

  pub workflow-run_access :
      (id : ℕ) (r : Run)
      → v.db.runs.row id ≡ some r
      → passes (run_access actor id false) v ≡ passes (workflow_access actor r.workflow_id false) v
  unfolding require_run_access
  workflow-run_access id r there = rw there refl

  pub workflow-project_access :
      (id : ℕ) (w : Workflow)
      → v.db.workflows.row id ≡ some w
      → in_scope scope w.project_id ≡ passes (workflow_access actor id false) v
  unfolding require_workflow_access
  workflow-project_access id w there = rw there (in_scope-project_access w.project_id)

  pub approval-run_access :
      (id : ℕ) (a : Approval)
      → v.db.approvals.row id ≡ some a
      → passes (approval_access actor id false) v ≡ passes (run_access actor a.run_id false) v
  unfolding require_approval_access
  approval-run_access id a there = rw there refl

  joined_run-run_access :
      (id : ℕ)
      → joined_run v.db id (λ w. in_scope scope w.project_id) ≡ passes (run_access actor id false) v
  unfolding require_run_access
  joined_run-run_access id = elim (Option-cases (v.db.runs.row id)) [
    | inl absent ↦ rw absent refl
    | inr (r, there) ↦ rw there (in_scope-workflow_access r.workflow_id)
  ]

  pub dataset-project_access :
      (id : ℕ) (d : Dataset)
      → v.datasets.row id ≡ some d
      → in_scope scope d.project_id ≡ passes (require_dataset_access actor id false) v
  unfolding require_dataset_access
  dataset-project_access id d there = rw there (in_scope-project_access d.project_id)

  pub evaluation-workflow_access :
      (id : ℕ) (e : Evaluation)
      → v.evaluations.row id ≡ some e
      → joined v.db e.workflow_id (λ w. in_scope scope w.project_id)
        ≡ passes (require_evaluation_access actor id) v
  unfolding require_evaluation_access
  evaluation-workflow_access id e there = rw there (in_scope-workflow_access e.workflow_id)

  pub schedule-workflow_access :
      (id : ℕ) (x : Schedule)
      → v.schedules.row id ≡ some x
      → joined v.db x.workflow_id (λ w. in_scope scope w.project_id)
        ≡ passes (require_schedule_access actor id false) v
  unfolding require_schedule_access
  schedule-workflow_access id x there = rw there (in_scope-workflow_access x.workflow_id)

  pub approval-joined_run :
      (id : ℕ) (a : Approval)
      → v.db.approvals.row id ≡ some a
      → joined_run v.db a.run_id (λ w. in_scope scope w.project_id)
        ≡ passes (approval_access actor id false) v
  approval-joined_run id a there =
      joined_run-run_access a.run_id ∙ sym (approval-run_access id a there)

  pub run-joined :
      (id : ℕ) (r : Run)
      → v.db.runs.row id ≡ some r
      → joined v.db r.workflow_id (λ w. in_scope scope w.project_id)
        ≡ passes (run_access actor id false) v
  run-joined id r there =
      in_scope-workflow_access r.workflow_id ∙ sym (workflow-run_access id r there)
