-- ===== src/Listings/Visible.antt =====
-- What a listing shows to a caller, and what the access checks of the single rows let him see.
use agentops_control_plane.Base.{
  ℕ, Bool, true, false, ◌&&◌, ◌≡◌, refl, ap, ◌∙◌, Option, some, List, [], map, ◌==◌, keep, arith,
  Option-cases, inl, inr,
}
use agentops_control_plane.Base.Table.{Table, newest_first}
use agentops_control_plane.Base.Rows.{keep-rows_below_cong}
use agentops_control_plane.Store.Rows.{Run, Workflow, ApprovalStatus}
use agentops_control_plane.Store.Exec.{Db}
use agentops_control_plane.Runs.Env.{Env}
use agentops_control_plane.Approvals.{Actor}
use agentops_control_plane.Accounts.{actor_project_ids}
use agentops_control_plane.Service.{Service, Served}
use agentops_control_plane.Security.Checks.{
  project_access, workflow_access, run_access, approval_access, require_dataset_access,
  require_evaluation_access, require_schedule_access,
}
use agentops_control_plane.Listings.{
  Scope, take, unless_empty, given, in_scope, joined, joined_run, RunFilter, run_matches,
  run_listed, list_runs, list_projects, list_workflows, list_approvals, list_datasets,
  list_evaluations, list_schedules, list_webhooks, with_status, status_matches,
}
use agentops_control_plane.Listings.Scopes.{
  passes, unless_empty-keep, unless_empty-take, unless_empty-map, holds-&&, scope,
  in_scope-project_access, workflow-project_access, approval-joined_run, dataset-project_access,
  evaluation-workflow_access, schedule-workflow_access, run-joined,
}

-- The rows of a table that a filter and a check let through.
abbrev pub shown :
    {A : Type 0} → (A → Bool) → (ℕ → A → Served (Unit {0})) → Service → Table A → List (ℕ × A)
shown filter check v t = keep (λ row. filter row.1 && passes (check row.0 row.1) v) (newest_first t)

abbrev pub of_project : Option ℕ → ℕ → Bool
of_project wanted project_id = given wanted λ p. project_id == p

-- The filters of `list_runs`, that on the project included.
abbrev pub run_selected : RunFilter → Db → Run → Bool
run_selected filter s r =
    run_matches filter r && joined s r.workflow_id (λ w. of_project filter.project_id w.project_id)

-- What each listing shows in the scope of a caller: the rows that its filters select and that the
-- check of the single row lets him read, the newest first and up to the limit.
pub record ShowsReadable (env : Env) (actor : Actor) (v : Service) : Type 0 where
  pub projects :
      list_projects (actor_project_ids v.members actor) v.db
      ≡ shown (λ _. true) (λ id _. project_access actor id false) v v.db.projects
  pub workflows :
      (wanted : Option ℕ)
      → list_workflows wanted (actor_project_ids v.members actor) v.db
        ≡ shown
            (λ w. of_project wanted w.project_id)
            (λ id _. workflow_access actor id false)
            v
            v.db.workflows
  pub runs :
      (filter : RunFilter) (limit : ℕ)
      → list_runs filter limit (actor_project_ids v.members actor) v.db
        ≡ take limit
            (shown (run_selected filter v.db) (λ id _. run_access actor id false) v v.db.runs)
  pub approvals :
      (status : Option ApprovalStatus)
      → list_approvals env status (actor_project_ids v.members actor) v.db
        ≡ map (with_status env) (
            shown
              (status_matches env status)
              (λ id _. approval_access actor id false)
              v
              v.db.approvals)
  pub datasets :
      (wanted : Option ℕ)
      → list_datasets wanted (actor_project_ids v.members actor) v
        ≡ shown
            (λ d. of_project wanted d.project_id)
            (λ id _. require_dataset_access actor id false)
            v
            v.datasets
  pub evaluations :
      (wanted : Option ℕ) (limit : ℕ)
      → list_evaluations wanted limit (actor_project_ids v.members actor) v
        ≡ take limit (
            shown
              (λ e. given wanted (λ w. e.workflow_id == w))
              (λ id _. require_evaluation_access actor id)
              v
              v.evaluations)
  pub schedules :
      list_schedules (actor_project_ids v.members actor) v
      ≡ shown (λ _. true) (λ id _. require_schedule_access actor id false) v v.schedules
  pub webhooks :
      (wanted : Option ℕ)
      → list_webhooks wanted (actor_project_ids v.members actor) v.db
        ≡ shown
            (λ w. of_project wanted w.project_id)
            (λ _ w. project_access actor w.project_id false)
            v
            v.db.webhooks

module _ {A : Type 0} (filter : A → Bool) (check : ℕ → A → Served (Unit {0})) (v : Service) where
  keep-shown :
      (t : Table A) (p : ℕ × A → Bool)
      → ((id : ℕ) (a : A) → t.row id ≡ some a → p (id, a) ≡ (filter a && passes (check id a) v))
      → keep p (newest_first t) ≡ shown filter check v t
  unfolding newest_first
  keep-shown t p h =
      keep-rows_below_cong p (λ row. filter row.1 && passes (check row.0 row.1) v) t.next t.row h

  listing-shown :
      (s : Scope) (t : Table A) (p : ℕ × A → Bool)
      → (s ≡ some [] → (row : ℕ × A) → p row ≡ false)
      → ((id : ℕ) (a : A) → t.row id ≡ some a → p (id, a) ≡ (filter a && passes (check id a) v))
      → unless_empty s (keep p (newest_first t)) ≡ shown filter check v t
  listing-shown s t p none_of h = unless_empty-keep s p (newest_first t) none_of ∙ keep-shown t p h

  page-shown :
      (s : Scope) (n : ℕ) (t : Table A) (p : ℕ × A → Bool)
      → (s ≡ some [] → (row : ℕ × A) → p row ≡ false)
      → ((id : ℕ) (a : A) → t.row id ≡ some a → p (id, a) ≡ (filter a && passes (check id a) v))
      → unless_empty s (take n (keep p (newest_first t))) ≡ take n (shown filter check v t)
  page-shown s n t p none_of h =
      unless_empty-take s n p (newest_first t) none_of ∙ ap (take n) (keep-shown t p h)

-- In an empty scope no row is selected.
empty-in_scope : (b : Bool) (s : Scope) (p : ℕ) → s ≡ some [] → (b && in_scope s p) ≡ false
empty-in_scope true s p e = rw e refl
empty-in_scope false s p e = refl

pub empty-joined :
    (b : Bool) (s : Scope) (d : Db) (id : ℕ) (test : Workflow → Bool)
    → s ≡ some []
    → (b && joined d id (λ w. test w && in_scope s w.project_id)) ≡ false
empty-joined false s d id test e = refl
empty-joined true s d id test e = elim (Option-cases (d.workflows.row id)) [
  | inl absent ↦ rw absent refl
  | inr (w, there) ↦ rw there (empty-in_scope (test w) s w.project_id e)
]

pub empty-joined_run :
    (b : Bool) (s : Scope) (d : Db) (id : ℕ)
    → s ≡ some []
    → (b && joined_run d id (λ w. in_scope s w.project_id)) ≡ false
empty-joined_run false s d id e = refl
empty-joined_run true s d id e = elim (Option-cases (d.runs.row id)) [
  | inl absent ↦ rw absent refl
  | inr (r, there) ↦ rw there (empty-joined true s d r.workflow_id (λ _. true) e)
]

module _ (env : Env) (actor : Actor) (v : Service) where
  run_listed-selected :
      (filter : RunFilter) (id : ℕ) (r : Run)
      → v.db.runs.row id ≡ some r
      → run_listed filter (scope actor v) v.db (id, r)
        ≡ (run_selected filter v.db r && passes (run_access actor id false) v)
  run_listed-selected filter id r there =
      rw
        (
          ← run-joined actor v id r there,
          holds-&& (λ w. of_project filter.project_id w.project_id)
              (λ w. in_scope (scope actor v) w.project_id) (v.db.workflows.row r.workflow_id),
        )
        (ground arith)

  -- The listings of projects, workflows, runs, approvals, datasets, evaluations, schedules and
  -- webhooks: each shows a caller exactly the rows that its filters select and that the check of the
  -- single row lets him read, the newest first and up to its limit.
  pub listings-ShowsReadable : ShowsReadable env actor v
  unfolding list_projects list_workflows list_runs list_approvals list_datasets list_evaluations
      list_schedules list_webhooks
  listings-ShowsReadable =
      let s = scope actor v in
      record {
        projects =
            listing-shown (λ _. true) (λ id _. project_access actor id false) v s v.db.projects _
              (λ e row. empty-in_scope true s row.0 e)
              (λ id a there. in_scope-project_access actor v id);
        workflows = λ wanted.
            listing-shown (λ w. of_project wanted w.project_id)
              (λ id _. workflow_access actor id false) v s v.db.workflows _
              (λ e row. empty-in_scope (of_project wanted row.1.project_id) s row.1.project_id e)
              (λ id w there.
                ap (λ b. of_project wanted w.project_id && b)
                  (workflow-project_access actor v id w there));
        runs = λ filter limit.
            page-shown (run_selected filter v.db) (λ id _. run_access actor id false) v s limit
              v.db.runs _
              (λ e row.
                empty-joined (run_matches filter row.1) s v.db row.1.workflow_id
                  (λ w. of_project filter.project_id w.project_id) e)
              (run_listed-selected filter);
        approvals = λ status.
            unless_empty-map (with_status env) s _
            ∙ ap (map (with_status env)) (
                listing-shown (status_matches env status) (λ id _. approval_access actor id false) v
                  s v.db.approvals _
                  (λ e row.
                    empty-joined_run (status_matches env status row.1) s v.db row.1.run_id e)
                  (λ id a there.
                    ap (λ b. status_matches env status a && b)
                      (approval-joined_run actor v id a there)));
        datasets = λ wanted.
            listing-shown (λ d. of_project wanted d.project_id)
              (λ id _. require_dataset_access actor id false) v s v.datasets _
              (λ e row. empty-in_scope (of_project wanted row.1.project_id) s row.1.project_id e)
              (λ id d there.
                ap (λ b. of_project wanted d.project_id && b)
                  (dataset-project_access actor v id d there));
        evaluations = λ wanted limit.
            page-shown (λ e. given wanted (λ w. e.workflow_id == w))
              (λ id _. require_evaluation_access actor id) v s limit v.evaluations _
              (λ e row.
                empty-joined (given wanted (λ w. row.1.workflow_id == w)) s v.db row.1.workflow_id
                  (λ _. true) e)
              (λ id e there.
                ap (λ b. given wanted (λ w. e.workflow_id == w) && b)
                  (evaluation-workflow_access actor v id e there));
        schedules =
            listing-shown (λ _. true) (λ id _. require_schedule_access actor id false) v s
              v.schedules _ (λ e row. empty-joined true s v.db row.1.workflow_id (λ _. true) e)
              (λ id x there. schedule-workflow_access actor v id x there);
        webhooks = λ wanted.
            listing-shown (λ w. of_project wanted w.project_id)
              (λ _ w. project_access actor w.project_id false) v s v.db.webhooks _
              (λ e row. empty-in_scope (of_project wanted row.1.project_id) s row.1.project_id e)
              (λ id w there.
                ap (λ b. of_project wanted w.project_id && b)
                  (in_scope-project_access actor v w.project_id));
      }
